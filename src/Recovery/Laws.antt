-- ===== src/Recovery/Laws.antt =====
-- What holds of the recovery over any events.
use mathlib.Core.Path.{subst}
use pass_hub.Base.{ℕ, true, false, none, List, [], ◌∷◌, ◌≡◌, ◌⊎◌, refl, sym, arith, is_some}
use pass_hub.Recovery.{
  Scheduler, Phase, original_commit, canonical_read, idle, failed_closed, Replies, create, drive,
  wake, after_original, after_canonical, OriginalReply, CanonicalReply, unconfirmed, unmatched,
  Event, wakes, fires, answers_original, answers_canonical, step, run, is_armed,
}

-- A ticket that is claimed is waited for, or its timer is armed, in one of the two phases that
-- send a command; without a claim the scheduler is idle or has failed, and waits for nothing.
-- A ticket that is claimed is waited for, or its timer is armed, in one of the two phases that
-- send a command; without a claim the scheduler is idle or has failed, and waits for nothing.
pub IsSound : Scheduler → Type 0
IsSound s =
    ((is_some s.terminal ≡ true)
      × ((s.phase ≡ original_commit) ⊎ (s.phase ≡ canonical_read))
      × (((s.driving ≡ true) × (is_armed s.timer ≡ false))
          ⊎ ((s.driving ≡ false) × (is_armed s.timer ≡ true))))
    ⊎ ((s.terminal ≡ none)
        × ((s.phase ≡ idle) ⊎ (s.phase ≡ failed_closed))
        × (s.driving ≡ false)
        × (is_armed s.timer ≡ false))

wake-IsSound : (e : Replies) (s : Scheduler) → IsSound s → IsSound (wake e s)
unfolding wake IsSound
wake-IsSound e s v = ground arith

fires-IsSound : (e : Replies) (s : Scheduler) → IsSound s → IsSound (step s (e, fires))
unfolding step drive IsSound
fires-IsSound e s v = ground arith

after_original-IsSound :
    (e : Replies) (r : OriginalReply) (s : Scheduler)
    → s.driving ≡ true
    → IsSound s
    → IsSound (after_original e r s)
unfolding after_original IsSound
after_original-IsSound e r s h v = ground arith

after_canonical-IsSound :
    (e : Replies) (r : CanonicalReply) (s : Scheduler)
    → s.driving ≡ true
    → IsSound s
    → IsSound (after_canonical e r s)
unfolding after_canonical IsSound
after_canonical-IsSound e r s h v = ground arith

step-IsSound : (s : Scheduler) (x : Replies × Event) → IsSound s → IsSound (step s x)
unfolding step IsSound
step-IsSound s (e, wakes) v = wake-IsSound e s v
step-IsSound s (e, fires) v = fires-IsSound e s v
step-IsSound s (e, answers_original r) v = ground (arith, after_original-IsSound e r s)
step-IsSound s (e, answers_canonical r) v = ground (arith, after_canonical-IsSound e r s)

run-IsSound : (s : Scheduler) (xs : List (Replies × Event)) → IsSound s → IsSound (run s xs)
unfolding run
run-IsSound s [] v = v
run-IsSound s (x ∷ xs) v = run-IsSound (step s x) xs (step-IsSound s x v)

-- After any events of a new scheduler: where a ticket is claimed, either an answer for it is waited
-- for or its timer is armed, not both, in one of the two phases that send a command, so that no
-- claimed ticket is lost; where none is, the scheduler is idle or has failed, and waits for nothing.
pub recovery-IsSound : (xs : List (Replies × Event)) → IsSound (run create xs)
unfolding create IsSound
recovery-IsSound xs = run-IsSound create xs (ground arith)

step_failed :
    (s : Scheduler) (x : Replies × Event) → IsSound s → s.phase ≡ failed_closed → step s x ≡ s
unfolding step wake IsSound
step_failed s (e, wakes) v h = ground arith
step_failed s (e, fires) v h = ground arith
step_failed s (e, answers_original r) v h = ground arith
step_failed s (e, answers_canonical r) v h = ground arith

-- A sound scheduler that has failed stays as it is over any events: it claims no other ticket and
-- sends no other command.
pub failure_absorbs :
    (s : Scheduler) (xs : List (Replies × Event))
    → IsSound s
    → s.phase ≡ failed_closed
    → run s xs ≡ s
unfolding run
failure_absorbs s [] v h = refl
failure_absorbs s (x ∷ xs) v h =
    subst (λ k. run k xs ≡ s) (sym (step_failed s x v h)) (failure_absorbs s xs v h)

-- What is waited for after an answer that decides nothing, and the timer that it sets.
abbrev pub Next : Phase → Scheduler → Scheduler → Type 0
Next next s s' =
    ((s'.phase ≡ next) × (s'.terminal ≡ s.terminal) × (s'.driving ≡ true))
    ⊎ ((s'.phase ≡ failed_closed) × (s'.terminal ≡ none))

-- The commands alternate: where a sound scheduler waits for an answer to an original commit, and
-- the answer does not confirm it, the next command, sent when the timer fires, is a canonical read
-- for the same ticket, or the scheduler has failed by then and has given up its ticket; and the
-- same with the two commands exchanged.
pub commands_alternate :
    (s : Scheduler) (e e' : Replies) (attempt : ℕ)
    → IsSound s
    → s.driving ≡ true
    → (s.phase ≡ original_commit
        → Next canonical_read s
            (step (step s (e, answers_original (unconfirmed attempt))) (e', fires)))
      × (s.phase ≡ canonical_read
          → Next original_commit s (step (step s (e, answers_canonical unmatched)) (e', fires)))
unfolding step after_original after_canonical drive IsSound
commands_alternate s e e' attempt v d = ((λ h. ground arith), (λ h. ground arith))
