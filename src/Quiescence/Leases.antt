-- ===== src/Quiescence/Leases.antt =====
-- A lease that was released, over any calls of a port after it.
use pass_hub.Base.{
  ℕ, ◌+◌, Bool, true, false, some, List, [], ◌∷◌, ◌≡◌, refl, ◌∙◌, arith, All, lookup,
  lookup-insert_self, lookup-insert, IsMinted, IsMinted-weaken, insert-IsMinted, found_below, ok,
  err, ℕ_discrete,
}
use pass_hub.Quiescence.{
  Quiescence, create, LifecycleCall, registers, queues, starts, blocks, settles, observe,
  observe_all, ClockReply, acquire, release, bind_coordinator_wake, registered, queue, start, block,
  settle, invalid_lease,
}
use pass_hub.Quiescence.Laws.{Call, observes, acquires, releases, binds, step, run}

-- Every lease has a number below the next one.
AllMinted : Quiescence → Type 0
AllMinted q = All (IsMinted q.minted) q.leases

-- The lease was released; its number is not given out again.
IsSpent : ℕ → Quiescence → Type 0
unfolding AllMinted
IsSpent lease q = AllMinted q × (lookup ℕ_discrete lease q.leases ≡ some false)

-- The lifecycle does not touch the leases.
observe-leases :
    (q : Quiescence) (x : LifecycleCall)
    → ((observe q x).leases ≡ q.leases) × ((observe q x).minted ≡ q.minted)
unfolding observe registered queue start block settle
observe-leases q (registers r) = ground arith
observe-leases q (queues r) = ground arith
observe-leases q (starts r) = ground arith
observe-leases q (blocks r) = ground arith
observe-leases q (settles r d) = ground arith

observe_all-leases :
    (q : Quiescence) (xs : List LifecycleCall)
    → ((observe_all q xs).leases ≡ q.leases) × ((observe_all q xs).minted ≡ q.minted)
unfolding observe_all
observe_all-leases q [] = (refl, refl)
observe_all-leases q (x ∷ xs) =
    let (leases, minted) = observe-leases q x in
    let (later_leases, later_minted) = observe_all-leases (observe q x) xs in
    (later_leases ∙ leases, later_minted ∙ minted)

release-IsSpent : (lease n : ℕ) (q : Quiescence) → IsSpent lease q → IsSpent lease (release n q).0
unfolding release IsSpent AllMinted
release-IsSpent lease n q (a, e) = ground (
  arith,
  insert-IsMinted q.minted n false q.leases,
  found_below q.minted n true q.leases,
  lookup-insert ℕ_discrete n lease false q.leases,
)

release-AllMinted : (n : ℕ) (q : Quiescence) → AllMinted q → AllMinted (release n q).0
unfolding release AllMinted
release-AllMinted n q a =
    ground (arith, insert-IsMinted q.minted n false q.leases, found_below q.minted n true q.leases)

-- What a new lease is added to, after the calls of the lifecycle that the clock makes.
abbrev asked : Quiescence → List LifecycleCall → Quiescence
asked q meanwhile = observe_all (record q { read_lease_active = true }) meanwhile

acquire-AllMinted :
    (meanwhile : List LifecycleCall) (reply : ClockReply) (q : Quiescence)
    → AllMinted q
    → AllMinted (acquire meanwhile reply q).0
unfolding acquire AllMinted
acquire-AllMinted meanwhile reply q a =
    let (leases, minted) = observe_all-leases (record q { read_lease_active = true }) meanwhile in
    let a' : AllMinted (asked q meanwhile) = rw (leases, minted) a in
    ground (
      arith,
      insert-IsMinted ((asked q meanwhile).minted + 1) (asked q meanwhile).minted true
          (asked q meanwhile).leases,
      IsMinted-weaken (asked q meanwhile).minted ((asked q meanwhile).minted + 1)
          (asked q meanwhile).leases,
    )

acquire-IsSpent :
    (lease : ℕ) (meanwhile : List LifecycleCall) (reply : ClockReply) (q : Quiescence)
    → IsSpent lease q
    → IsSpent lease (acquire meanwhile reply q).0
unfolding acquire IsSpent
acquire-IsSpent lease meanwhile reply q (a, e) =
    let (leases, minted) = observe_all-leases (record q { read_lease_active = true }) meanwhile in
    let below = found_below q.minted lease false q.leases e a in
    (
      acquire-AllMinted meanwhile reply q a,
      ground (
        arith,
        lookup-insert ℕ_discrete (asked q meanwhile).minted lease true (asked q meanwhile).leases,
      ),
    )

observe-AllMinted : (q : Quiescence) (x : LifecycleCall) → AllMinted q → AllMinted (observe q x)
unfolding AllMinted
observe-AllMinted q x a = ground (arith, observe-leases q x, a)

step-AllMinted : (q : Quiescence) (x : Call) → AllMinted q → AllMinted (step q x)
unfolding step bind_coordinator_wake AllMinted
step-AllMinted q (observes x) a = observe-AllMinted q x a
step-AllMinted q (acquires meanwhile reply) a = acquire-AllMinted meanwhile reply q a
step-AllMinted q (releases n) a = release-AllMinted n q a
step-AllMinted q binds a = ground arith

step-IsSpent : (lease : ℕ) (q : Quiescence) (x : Call) → IsSpent lease q → IsSpent lease (step q x)
unfolding step bind_coordinator_wake IsSpent AllMinted
step-IsSpent lease q (observes x) (a, e) =
    (observe-AllMinted q x a, ground (arith, (observe-leases q x).0))
step-IsSpent lease q (acquires meanwhile reply) v = acquire-IsSpent lease meanwhile reply q v
step-IsSpent lease q (releases n) v = release-IsSpent lease n q v
step-IsSpent lease q binds v = ground arith

run-AllMinted : (q : Quiescence) (xs : List Call) → AllMinted q → AllMinted (run q xs)
unfolding run
run-AllMinted q [] a = a
run-AllMinted q (x ∷ xs) a = run-AllMinted (step q x) xs (step-AllMinted q x a)

run-IsSpent :
    (lease : ℕ) (q : Quiescence) (xs : List Call) → IsSpent lease q → IsSpent lease (run q xs)
unfolding run
run-IsSpent lease q [] v = v
run-IsSpent lease q (x ∷ xs) v = run-IsSpent lease (step q x) xs (step-IsSpent lease q x v)

released-IsSpent :
    (lease : ℕ) (q q' : Quiescence) → AllMinted q → release lease q ≡ (q', ok tt) → IsSpent lease q'
unfolding release IsSpent AllMinted
released-IsSpent lease q q' a h = ground (
  arith,
  insert-IsMinted q.minted lease false q.leases,
  found_below q.minted lease true q.leases,
  lookup-insert_self ℕ_discrete lease false q.leases,
)

spent_release :
    (lease : ℕ) (q : Quiescence) → IsSpent lease q → release lease q ≡ (q, err invalid_lease)
unfolding release IsSpent
spent_release lease q (a, e) = ground arith

-- After any calls of a new port, a lease that was released is used up: whatever calls come in
-- between, with the leases that they acquire and release, releasing it again throws and changes
-- nothing.
pub lease_released_once :
    (given : Bool) (before : List Call) (lease : ℕ) (q : Quiescence)
    → release lease (run (create given) before) ≡ (q, ok tt)
    → (later : List Call) → release lease (run q later) ≡ (run q later, err invalid_lease)
unfolding create AllMinted
lease_released_once given before lease q h later =
    let minted = run-AllMinted (create given) before tt in
    spent_release lease (run q later)
      (run-IsSpent lease q later (released-IsSpent lease (run (create given) before) q minted h))
