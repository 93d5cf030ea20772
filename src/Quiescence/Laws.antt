-- ===== src/Quiescence/Laws.antt =====
-- When a lease is acquired, what the counters add up to, and the running writers while a lease is
-- active, where writers start only as the port allows.
use pass_hub.Base.{
  ℕ, ◌+◌, Bool, true, false, List, [], ◌∷◌, String, ℤ, is_safe_integer, ◌≡◌, ◌≢◌, ◌↔◌, refl, arith,
  All, insert-All, delete, length, ok, Entries, String-discrete,
}
use pass_hub.Quiescence.{
  WriterState, running, Receipt, Quiescence, create, can_start_writer, LifecycleCall, registers,
  queues, starts, blocks, settles, observe, observe_all, ClockReply, reads, acquired, acquire,
  release, bind_coordinator_wake, counters, count, Counters, registered, queue, start, block,
  settle, is_empty_map, put,
}

-- A lease is acquired exactly when none is active, no writer was known before the clock was read
-- nor is after it, and the clock answered with a safe integer, which is the time of the lease.
pub acquire_iff :
    (meanwhile : List LifecycleCall) (reply : ClockReply) (q : Quiescence) (lease : ℕ) (now : ℤ)
    → (acquire meanwhile reply q).1 ≡ ok (acquired lease now) ↔ (
        (q.read_lease_active ≡ false)
        × (is_empty_map q.states ≡ true)
        × (reply ≡ reads now)
        × (is_safe_integer now ≡ true)
        × (is_empty_map (observe_all (record q { read_lease_active = true }) meanwhile).states
            ≡ true)
        × ((observe_all (record q { read_lease_active = true }) meanwhile).minted ≡ lease))
unfolding acquire
acquire_iff meanwhile reply q lease now = ground arith

abbrev total : Counters → ℕ
total n = n.provisional + n.queued + n.running + n.blocked + n.unknown

count-total : (states : Entries String WriterState) → total (count states) ≡ length states
unfolding count
count-total [] = refl
count-total ((id, s) ∷ rest) = ground (arith, count-total rest)

-- The five counters add up to the number of the operations that are known.
pub counters_lem : (q : Quiescence) → total (counters q) ≡ length q.states
unfolding counters
counters_lem q = count-total q.states

delete-All :
    {V : Type 0} (P : String × V → Type 0) (k : String) (m : Entries String V)
    → All P m
    → All P (delete String-discrete k m)
unfolding delete
delete-All P k [] a = a
delete-All P k ((i, w) ∷ m) a = ground (arith, delete-All P k m a.1)

abbrev Resting : String × WriterState → Type 0
Resting (id, s) = s ≢ running

-- While an observation holds its lease, no writer is running.
pub Excludes : Quiescence → Type 0
Excludes q = q.read_lease_active ≡ true → All Resting q.states

-- A call of a client: of the lifecycle, or of the port, where the clock may call the lifecycle.
pub data Call : Type 0 where
  observes : LifecycleCall → Call
  acquires : List LifecycleCall → ClockReply → Call
  releases : ℕ → Call
  binds : Call

unfoldable pub step : Quiescence → Call → Quiescence
step q (observes x) = observe q x
step q (acquires meanwhile reply) = (acquire meanwhile reply q).0
step q (releases lease) = (release lease q).0
step q binds = (bind_coordinator_wake q).0

unfoldable pub run : Quiescence → List Call → Quiescence
unfolding step
run q [] = q
run q (x ∷ xs) = run (step q x) xs

-- The coordinator starts a writer only where `canStartWriter` answers true.
abbrev pub MayCall : Quiescence → Call → Type 0
MayCall q (observes (starts r)) = can_start_writer q ≡ true
MayCall q _ = Unit {0}

unfoldable pub AllMayCall : Quiescence → List Call → Type 0
AllMayCall q [] = Unit {0}
AllMayCall q (x ∷ xs) = MayCall q x × AllMayCall (step q x) xs

put-Excludes :
    (r : Receipt) (s : WriterState) (q : Quiescence)
    → s ≢ running
    → Excludes q
    → Excludes (put r s q)
unfolding Excludes
put-Excludes r s q n v =
    λ active. insert-All String-discrete Resting r.operation_id s q.states (λ id. n) (v active)

drop-Excludes :
    (r : Receipt) (q : Quiescence)
    → Excludes q
    → Excludes (record q { states = delete String-discrete r.operation_id q.states })
unfolding Excludes
drop-Excludes r q v = λ active. delete-All Resting r.operation_id q.states (v active)

observe-Excludes :
    (q : Quiescence) (x : LifecycleCall)
    → MayCall q (observes x)
    → Excludes q
    → Excludes (observe q x)
unfolding observe registered queue start block settle can_start_writer Excludes
observe-Excludes q (registers r) h v =
    ground (arith, put-Excludes r WriterState.provisional q (ground arith) v)
observe-Excludes q (queues r) h v =
    ground (arith, put-Excludes r WriterState.queued q (ground arith) v)
observe-Excludes q (starts r) h v = ground arith
observe-Excludes q (blocks r) h v =
    ground (arith, put-Excludes r WriterState.blocked q (ground arith) v)
observe-Excludes q (settles r d) h v =
    ground (arith, put-Excludes r WriterState.unknown q (ground arith) v, drop-Excludes r q v)

acquire-Excludes :
    (meanwhile : List LifecycleCall) (reply : ClockReply) (q : Quiescence)
    → Excludes q
    → Excludes (acquire meanwhile reply q).0
unfolding acquire Excludes
acquire-Excludes meanwhile reply q v = ground arith

release-Excludes : (lease : ℕ) (q : Quiescence) → Excludes q → Excludes (release lease q).0
unfolding release Excludes
release-Excludes lease q v = ground arith

step-Excludes : (q : Quiescence) (x : Call) → MayCall q x → Excludes q → Excludes (step q x)
unfolding step bind_coordinator_wake Excludes
step-Excludes q (observes x) h v = observe-Excludes q x h v
step-Excludes q (acquires meanwhile reply) h v = acquire-Excludes meanwhile reply q v
step-Excludes q (releases lease) h v = release-Excludes lease q v
step-Excludes q binds h v = ground arith

run-Excludes :
    (q : Quiescence) (xs : List Call) → AllMayCall q xs → Excludes q → Excludes (run q xs)
unfolding run AllMayCall
run-Excludes q [] h v = v
run-Excludes q (x ∷ xs) h v = run-Excludes (step q x) xs h.1 (step-Excludes q x h.0 v)

-- After any calls of a new port in which a writer is started only where `canStartWriter` answers
-- true, whatever the clock calls and answers when a lease is acquired: while a lease is active, no
-- operation is in the state RUNNING.
pub calls-Excludes :
    (given : Bool) (xs : List Call)
    → AllMayCall (create given) xs
    → Excludes (run (create given) xs)
unfolding create Excludes
calls-Excludes given xs h = run-Excludes (create given) xs h λ active. tt
