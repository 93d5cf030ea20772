-- ===== src/Recovery/Tests.antt =====
-- A ticket whose commit is confirmed by the second command.
use pass_hub.Base.{ℕ, true, List, [], ◌∷◌, ◌≡◌, refl}
use pass_hub.Recovery.{
  Scheduler, original_commit, canonical_read, Replies, reads, invalid, claims, create, unconfirmed,
  unmatched, Event, wakes, fires, answers_original, answers_canonical, step, run, drive, wake,
  after_original,
}
use pass_hub.Recovery.Laws.{IsSound, Next, recovery-IsSound, failure_absorbs, commands_alternate}

abbrev at : ℕ → Replies
at now = record { clock = reads now; claim = claims 4; timer_is_set = true; is_persisted = true }

abbrev no_clock : Replies
no_clock = record { clock = invalid; claim = claims 4; timer_is_set = true; is_persisted = true }

abbrev sent : Scheduler
sent = run create ((at 10, wakes) ∷ [])

abbrev failure : Scheduler
failure = run create ((no_clock, wakes) ∷ [])

abbrev second_try : List (Replies × Event)
second_try = (at 10, wakes) ∷ (at 20, answers_original (unconfirmed 0)) ∷ (at 1020, fires) ∷ []

second_try_sends : (run create second_try).phase ≡ canonical_read
unfolding create run step drive wake after_original
second_try_sends = refl

recovery-IsSound_example : IsSound (run create second_try)
recovery-IsSound_example = recovery-IsSound second_try

failure_absorbs_example : run failure second_try ≡ failure
unfolding create run step drive wake
failure_absorbs_example =
    failure_absorbs failure second_try (recovery-IsSound ((no_clock, wakes) ∷ [])) refl

commands_alternate_example :
    (sent.phase ≡ original_commit
      → Next canonical_read sent
          (step (step sent (at 20, answers_original (unconfirmed 0))) (at 1020, fires)))
    × (sent.phase ≡ canonical_read
        → Next original_commit sent
            (step (step sent (at 20, answers_canonical unmatched)) (at 1020, fires)))
unfolding create run step drive wake
commands_alternate_example =
    commands_alternate sent (at 20) (at 1020) 0 (recovery-IsSound ((at 10, wakes) ∷ [])) refl
