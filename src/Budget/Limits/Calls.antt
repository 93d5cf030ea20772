-- ===== src/Budget/Limits/Calls.antt =====
-- The limits over any calls: slots, rounds, and what the start of the confirmation closes.
use mathlib.Core.Path.{subst}
use pass_hub.Base.{sym, ok, is_some, ℕ, ◌+◌, true, ◌≡◌, ◌≢◌, refl, arith, List, [], ◌∷◌}
use pass_hub.Budget.{Config, Ledger, Replies, CommandKind, create, transition, require}
use pass_hub.Budget.Execution.{
  begin_round, finish_round, admit_execution_command, finish_execution_command,
}
use pass_hub.Budget.Confirmation.{
  start_confirmation, assert_next_unknown_confirmation_kind, admit_next_unknown_confirmation,
  settle_still_unknown, settle_confirmed, settle_no_effect_confirmed,
}
use pass_hub.Budget.Native.{
  reserve_native_precommit_group, admit_native_precommit_command, finish_native_precommit_command,
  finish_native_precommit_group,
}
use pass_hub.Budget.Continuation.{authorize_continuation, snapshot}
use pass_hub.Budget.Calls.{
  Call, step, run, begins_round, finishes_round, admits_command, finishes_command,
  starts_confirmation, probes_confirmation, admits_confirmation, settles_unknown, settles_confirmed,
  settles_no_effect, authorizes, reserves_group, admits_native, finishes_native, finishes_group,
  snapshots,
}
use pass_hub.Budget.Limits.{Follows, taken}
use pass_hub.Budget.Limits.Commands.{
  begin_round-Follows, finish_round-Follows, admit_execution_command-Follows,
  finish_execution_command-Follows, start_confirmation-Follows,
  assert_next_unknown_confirmation_kind-Follows, admit_next_unknown_confirmation-Follows,
  settle_still_unknown-Follows, settle_confirmed-Follows, settle_no_effect_confirmed-Follows,
}
use pass_hub.Budget.Limits.Groups.{
  authorize_continuation-Follows, reserve_native_precommit_group-Follows,
  admit_native_precommit_command-Follows, finish_native_precommit_command-Follows,
  finish_native_precommit_group-Follows, snapshot-Follows,
}

-- The confirmation slots that a call takes: one for a confirmation that is admitted, those of a
-- group for a native group that is reserved.
unfoldable pub slots_of : Config → Ledger → Replies × Call → ℕ
slots_of c l (e, admits_confirmation) = taken 1 (admit_next_unknown_confirmation c e l).1
slots_of c l (e, reserves_group) =
    taken c.native_group_slots (reserve_native_precommit_group c e l).1
slots_of c l (e, begins_round) = 0
slots_of c l (e, finishes_round p) = 0
slots_of c l (e, admits_command p k) = 0
slots_of c l (e, finishes_command p) = 0
slots_of c l (e, starts_confirmation o) = 0
slots_of c l (e, probes_confirmation k) = 0
slots_of c l (e, settles_unknown p) = 0
slots_of c l (e, settles_confirmed p) = 0
slots_of c l (e, settles_no_effect p) = 0
slots_of c l (e, authorizes evidence) = 0
slots_of c l (e, admits_native p) = 0
slots_of c l (e, finishes_native p) = 0
slots_of c l (e, finishes_group p o) = 0
slots_of c l (e, snapshots) = 0

unfoldable pub slots_spent : Config → Ledger → List (Replies × Call) → ℕ
unfolding slots_of
slots_spent c l [] = 0
slots_spent c l (x ∷ xs) = slots_of c l x + slots_spent c (step c l x) xs

step-Follows :
    (c : Config) (l : Ledger) (x : Replies × Call) → Follows (slots_of c l x) l (step c l x)
unfolding step slots_of
step-Follows c l (e, begins_round) = begin_round-Follows c e l
step-Follows c l (e, finishes_round p) = finish_round-Follows c e l p
step-Follows c l (e, admits_command p k) = admit_execution_command-Follows c e l p k
step-Follows c l (e, finishes_command p) = finish_execution_command-Follows c e l p
step-Follows c l (e, starts_confirmation o) = start_confirmation-Follows c e l o
step-Follows c l (e, probes_confirmation k) = assert_next_unknown_confirmation_kind-Follows c e l k
step-Follows c l (e, admits_confirmation) = admit_next_unknown_confirmation-Follows c e l
step-Follows c l (e, settles_unknown p) = settle_still_unknown-Follows c e l p
step-Follows c l (e, settles_confirmed p) = settle_confirmed-Follows c e l p
step-Follows c l (e, settles_no_effect p) = settle_no_effect_confirmed-Follows c e l p
step-Follows c l (e, authorizes evidence) = authorize_continuation-Follows c e l evidence
step-Follows c l (e, reserves_group) = reserve_native_precommit_group-Follows c e l
step-Follows c l (e, admits_native p) = admit_native_precommit_command-Follows c e l p
step-Follows c l (e, finishes_native p) = finish_native_precommit_command-Follows c e l p
step-Follows c l (e, finishes_group p o) = finish_native_precommit_group-Follows c e l p o
step-Follows c l (e, snapshots) = snapshot-Follows c e l

both-Follows : (m n : ℕ) (l k j : Ledger) → Follows m l k → Follows n k j → Follows (m + n) l j
both-Follows m n l k j v w = ground arith

run-Follows :
    (c : Config) (l : Ledger) (xs : List (Replies × Call))
    → Follows (slots_spent c l xs) l (run c l xs)
unfolding run slots_spent
run-Follows c l [] = ground arith
run-Follows c l (x ∷ xs) =
    both-Follows _ _ l (step c l x) _ (step-Follows c l x) (run-Follows c (step c l x) xs)

-- After any calls of the methods of a new ledger, the confirmation slots that remain and those
-- taken by the calls that returned (one for each confirmation, `native_group_slots` for each
-- native group) add up to `confirmation_slots`, so that no more are ever taken.
pub slots_accounted :
    (c : Config) (xs : List (Replies × Call))
    → (run c (create c) xs).confirmation_slots_remaining + slots_spent c (create c) xs
      ≡ c.confirmation_slots
unfolding create
slots_accounted c xs = (run-Follows c (create c) xs).slots

-- Once the confirmation has started, no calls whatever, a continuation with its new round
-- included, lead to a ledger that admits an execution command again, with any round, kind and
-- answers of the callbacks.
pub no_command_after_confirmation :
    (c : Config) (l : Ledger) (xs : List (Replies × Call)) (e : Replies) (round : ℕ)
    (kind : CommandKind) (l' : Ledger) (permit : ℕ)
    → is_some l.confirmation_start_ms ≡ true
    → admit_execution_command c e round kind (run c l xs) ≢ (l', ok permit)
unfolding admit_execution_command transition require
no_command_after_confirmation c l xs e round kind l' permit h =
    refuses (run c l xs) ((run-Follows c l xs).start_kept h)
  where
    refuses :
        (k : Ledger)
        → is_some k.confirmation_start_ms ≡ true
        → admit_execution_command c e round kind k ≢ (l', ok permit)
    refuses k h = ground arith

step_frozen : (c : Config) (l : Ledger) (x : Replies × Call) → l.frozen ≡ true → step c l x ≡ l
unfolding step begin_round finish_round admit_execution_command finish_execution_command
    start_confirmation assert_next_unknown_confirmation_kind admit_next_unknown_confirmation
    settle_still_unknown settle_confirmed settle_no_effect_confirmed authorize_continuation
    reserve_native_precommit_group admit_native_precommit_command finish_native_precommit_command
    finish_native_precommit_group snapshot transition
step_frozen c l (e, begins_round) h = ground arith
step_frozen c l (e, finishes_round p) h = ground arith
step_frozen c l (e, admits_command p k) h = ground arith
step_frozen c l (e, finishes_command p) h = ground arith
step_frozen c l (e, starts_confirmation o) h = ground arith
step_frozen c l (e, probes_confirmation k) h = ground arith
step_frozen c l (e, admits_confirmation) h = ground arith
step_frozen c l (e, settles_unknown p) h = ground arith
step_frozen c l (e, settles_confirmed p) h = ground arith
step_frozen c l (e, settles_no_effect p) h = ground arith
step_frozen c l (e, authorizes evidence) h = ground arith
step_frozen c l (e, reserves_group) h = ground arith
step_frozen c l (e, admits_native p) h = ground arith
step_frozen c l (e, finishes_native p) h = ground arith
step_frozen c l (e, finishes_group p o) h = ground arith
step_frozen c l (e, snapshots) h = ground arith

-- On a frozen ledger no calls change anything, whatever the callbacks would answer.
pub budget_frozen_absorbs :
    (c : Config) (l : Ledger) (xs : List (Replies × Call)) → l.frozen ≡ true → run c l xs ≡ l
unfolding run
budget_frozen_absorbs c l [] h = refl
budget_frozen_absorbs c l (x ∷ xs) h =
    subst (λ k. run c k xs ≡ l) (sym (step_frozen c l x h)) (budget_frozen_absorbs c l xs h)
