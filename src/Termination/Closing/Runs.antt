-- ===== src/Termination/Closing/Runs.antt =====
-- What closing keeps over any events.
use pass_hub.Base.{List, [], ◌∷◌, ◌≡◌, refl, ap, ◌∙◌, inl, inr, some, Option}
use pass_hub.Termination.{
  Scope, precommit, commit_unknown, terminated, NativeGroups, Lifecycle, create,
}
use pass_hub.Termination.Calls.{
  Event, seals, reserves, closes, snapshots, executes, settles, terminates, others, step, run,
}
use pass_hub.Termination.Closing.{
  IsClosed, is_closed, used_by_others, Stays, IsApart, HasEnded, seal_scope-Stays,
  reserve_abort_group-Stays, execute_abort-Stays, settle_command-Stays, terminate-Stays,
  close_unknown_commit-Stays, snapshot-Stays, seal_scope-IsApart, reserve_abort_group-IsApart,
  execute_abort-IsApart, settle_command-IsApart, terminate-IsApart, close_unknown_commit-IsApart,
  snapshot-IsApart, seal_scope-HasEnded, reserve_abort_group-HasEnded, execute_abort-HasEnded,
  settle_command-HasEnded, terminate-HasEnded, close_unknown_commit-HasEnded, snapshot-HasEnded,
}

others-IsApart :
    {L : Type 0} (s : Lifecycle L) (l : L) (f : L → L)
    → IsApart s l
    → IsApart (record s { ledger = f s.ledger }) (f l)
unfolding IsApart
others-IsApart s l f (inl v) = inl v
others-IsApart s l f (inr (a, b, c)) = inr (a, b, ap f c)

not_both : {A : Type 0} (o : Option Scope) → o ≡ some commit_unknown → o ≡ some precommit → A
not_both o p q = cc

module _ {L E : Type 0} where
  run-IsApart :
      (s : Lifecycle L) (l : L) (xs : List (NativeGroups L E × Event L))
      → IsApart s l
      → IsApart (run s xs) (used_by_others xs l)
  unfolding run step used_by_others
  run-IsApart s l [] v = v
  run-IsApart s l ((ops, seals owner scope) ∷ xs) v =
      run-IsApart _ l xs (seal_scope-IsApart ops owner s l v scope)
  run-IsApart s l ((ops, reserves owner) ∷ xs) v =
      run-IsApart _ l xs (reserve_abort_group-IsApart ops owner s l v)
  run-IsApart s l ((ops, closes owner) ∷ xs) v =
      run-IsApart _ l xs (close_unknown_commit-IsApart ops owner s l v)
  run-IsApart s l ((ops, snapshots owner) ∷ xs) v =
      run-IsApart _ l xs (snapshot-IsApart ops owner s l v)
  run-IsApart s l ((ops, executes owner permit) ∷ xs) v =
      run-IsApart _ l xs (execute_abort-IsApart ops owner s l v permit)
  run-IsApart s l ((ops, settles owner id) ∷ xs) v =
      run-IsApart _ l xs (settle_command-IsApart ops owner s l v id)
  run-IsApart s l ((ops, terminates owner permit outcome) ∷ xs) v =
      run-IsApart _ l xs (terminate-IsApart ops owner s l v permit outcome)
  run-IsApart s l ((ops, others f) ∷ xs) v =
      run-IsApart (record s { ledger = f s.ledger }) (f l) xs (others-IsApart s l f v)

  step-HasEnded :
      (s : Lifecycle L) (x : NativeGroups L E × Event L) → HasEnded s → HasEnded (step s x)
  unfolding step HasEnded
  step-HasEnded s (ops, seals owner scope) v = seal_scope-HasEnded ops owner s v scope
  step-HasEnded s (ops, reserves owner) v = reserve_abort_group-HasEnded ops owner s v
  step-HasEnded s (ops, closes owner) v = close_unknown_commit-HasEnded ops owner s v
  step-HasEnded s (ops, snapshots owner) v = snapshot-HasEnded ops owner s v
  step-HasEnded s (ops, executes owner permit) v = execute_abort-HasEnded ops owner s v permit
  step-HasEnded s (ops, settles owner id) v = settle_command-HasEnded ops owner s v id
  step-HasEnded s (ops, terminates owner permit outcome) v =
      terminate-HasEnded ops owner s v permit outcome
  step-HasEnded s (ops, others f) v = v

  run-HasEnded :
      (s : Lifecycle L) (xs : List (NativeGroups L E × Event L)) → HasEnded s → HasEnded (run s xs)
  unfolding run
  run-HasEnded s [] v = v
  run-HasEnded s (x ∷ xs) v = run-HasEnded (step s x) xs (step-HasEnded s x v)

  -- The same, from after the first step.
  after_step :
      (s t : Lifecycle L) (xs : List (NativeGroups L E × Event L))
      → Stays s t
      → ((run t xs).ledger ≡ used_by_others xs t.ledger)
        × (t.phase ≡ terminated → (run t xs).phase ≡ terminated)
      → ((run t xs).ledger ≡ used_by_others xs s.ledger)
        × (s.phase ≡ terminated → (run t xs).phase ≡ terminated)
  unfolding Stays
  after_step s t xs k rest = (rest.0 ∙ ap (used_by_others xs) k.1, λ h. rest.1 (k.2 h))

  run-Stays :
      (s : Lifecycle L) (xs : List (NativeGroups L E × Event L))
      → IsClosed s
      → ((run s xs).ledger ≡ used_by_others xs s.ledger)
        × (s.phase ≡ terminated → (run s xs).phase ≡ terminated)
  unfolding run step used_by_others Stays
  run-Stays s [] v = (refl, λ h. h)
  run-Stays s ((ops, seals owner scope) ∷ xs) v =
      let k = seal_scope-Stays ops owner s v scope in after_step s _ xs k (run-Stays _ xs k.0)
  run-Stays s ((ops, reserves owner) ∷ xs) v =
      let k = reserve_abort_group-Stays ops owner s v in after_step s _ xs k (run-Stays _ xs k.0)
  run-Stays s ((ops, closes owner) ∷ xs) v =
      let k = close_unknown_commit-Stays ops owner s v in after_step s _ xs k (run-Stays _ xs k.0)
  run-Stays s ((ops, snapshots owner) ∷ xs) v =
      let k = snapshot-Stays ops owner s v in after_step s _ xs k (run-Stays _ xs k.0)
  run-Stays s ((ops, executes owner permit) ∷ xs) v =
      let k = execute_abort-Stays ops owner s v permit in after_step s _ xs k (run-Stays _ xs k.0)
  run-Stays s ((ops, settles owner id) ∷ xs) v =
      let k = settle_command-Stays ops owner s v id in after_step s _ xs k (run-Stays _ xs k.0)
  run-Stays s ((ops, terminates owner permit outcome) ∷ xs) v =
      let k = terminate-Stays ops owner s v permit outcome in
      after_step s _ xs k (run-Stays _ xs k.0)
  run-Stays s ((ops, others f) ∷ xs) v = run-Stays (record s { ledger = f s.ledger }) xs v

  -- An unknown commit is never aborted: where the scope of a lifecycle was sealed as COMMIT_UNKNOWN,
  -- whatever events there were before and after, the ledger is what others have made of it: the
  -- lifecycle has called none of its methods that changes anything.
  pub unknown_commit-IsApart :
      (l : L) (xs : List (NativeGroups L E × Event L))
      → (run (create l) xs).scope ≡ some commit_unknown
      → (run (create l) xs).ledger ≡ used_by_others xs l
  unfolding IsApart
  unknown_commit-IsApart l xs h = elim (run-IsApart (create l) l xs (inr (refl, refl, refl))) [
    | inl v ↦ not_both _ h v.0
    | inr v ↦ v.2
  ]

  -- The end is final: once a lifecycle is TERMINATED, it stays so over any events, and never changes
  -- the ledger again.
  pub end_of_lifecycle_is_final :
      (l : L) (xs ys : List (NativeGroups L E × Event L))
      → (run (create l) xs).phase ≡ terminated
      → ((run (run (create l) xs) ys).phase ≡ terminated)
        × ((run (run (create l) xs) ys).ledger ≡ used_by_others ys (run (create l) xs).ledger)
  unfolding IsClosed is_closed HasEnded
  end_of_lifecycle_is_final l xs ys h =
      let ended = run-HasEnded (create l) xs (λ _. refl) h in
      let kept = run-Stays (run (create l) xs) ys (ended, ap is_closed h) in (kept.1 h, kept.0)
