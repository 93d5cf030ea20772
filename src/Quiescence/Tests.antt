-- ===== src/Quiescence/Tests.antt =====
-- A writer that runs and settles, and an observation after it.
use pass_hub.Base.{
  true, false, List, [], ◌∷◌, ◌≡◌, ◌↔◌, refl, pos, ok, err, lookup, insert, delete, ℕ_discrete,
  String-discrete, is_safe_integer,
}
use pass_hub.Quiescence.{
  Receipt, Quiescence, known_no_effect, create, can_start_writer, registers, queues, starts,
  settles, observe, observe_all, reads, acquired, acquire, release, registered, queue, start,
  settle, invalid_lease, is_empty_map,
}
use pass_hub.Quiescence.Laws.{
  acquire_iff, Excludes, Call, observes, acquires, step, run, AllMayCall, calls-Excludes,
}
use pass_hub.Quiescence.Leases.{lease_released_once}

abbrev writer : Receipt
writer = record { operation_id = "7"; received_at_ms = pos 1000 }

abbrev day : List Call
day =
    observes (registers writer)
    ∷ observes (queues writer)
    ∷ observes (starts writer)
    ∷ observes (settles writer known_no_effect)
    ∷ acquires [] (reads (pos 2000))
    ∷ []

day_lease : (run (create false) day).read_lease_active ≡ true
unfolding create run step observe registered queue start settle acquire observe_all lookup insert
    delete String-discrete ℕ_discrete
day_lease = refl

calls-Excludes_example : Excludes (run (create false) day)
unfolding create run step AllMayCall observe registered queue start settle acquire observe_all
    can_start_writer lookup insert delete String-discrete ℕ_discrete
calls-Excludes_example = calls-Excludes false day (tt, (tt, (refl, (tt, (tt, tt)))))

acquire_iff_example :
    (acquire (registers writer ∷ []) (reads (pos 5)) (create true)).1 ≡ ok (acquired 0 (pos 5)) ↔ (
      ((create true).read_lease_active ≡ false)
      × (is_empty_map (create true).states ≡ true)
      × (reads (pos 5) ≡ reads (pos 5))
      × (is_safe_integer (pos 5) ≡ true)
      × (is_empty_map
            (observe_all
              (record (create true) { read_lease_active = true })
              (registers writer ∷ [])).states
          ≡ true)
      × ((observe_all
            (record (create true) { read_lease_active = true })
            (registers writer ∷ [])).minted
          ≡ 0))
acquire_iff_example = acquire_iff (registers writer ∷ []) (reads (pos 5)) (create true) 0 (pos 5)

abbrev first_observation : Quiescence
first_observation = run (create true) (acquires [] (reads (pos 5)) ∷ [])

abbrev first_ended : Quiescence
first_ended = (release 0 first_observation).0

abbrev between : List Call
between = acquires [] (reads (pos 9)) ∷ []

-- Between the two releases of the first lease, another observation begins.
between_lease : (run first_ended between).read_lease_active ≡ true
unfolding create run step acquire release observe_all lookup insert ℕ_discrete
between_lease = refl

lease_released_once_example :
    release 0 (run first_ended between) ≡ (run first_ended between, err invalid_lease)
unfolding create run step acquire release observe_all lookup insert ℕ_discrete
lease_released_once_example =
    lease_released_once true (acquires [] (reads (pos 5)) ∷ []) 0 first_ended refl between
