-- ===== src/Registry/Tests.antt =====
-- The registry on a registration, a loss of the result, a continuation and its end.
use pass_hub.Base.{
  lookup, insert, ℕ_discrete, String-discrete, ◌++◌, true, false, some, List, [], ◌∷◌, ◌≡◌, refl,
  ok, err,
}
use pass_hub.Registry.{
  transition, require_key, require_capability, assert_owner, EventKey-discrete, EventKey, canonical,
  Entry, Setup, writable, create, Replies, returns, issued, find_entry, registry_capacity_exhausted,
}
use pass_hub.Registry.Leases.{finish_terminal, resume_unknown, authorize_continuation, mark_unknown}
use pass_hub.Registry.Registration.{
  register_reserved, register, reserve_candidate, replay_canonical,
}
use pass_hub.Registry.Calls.{
  Call, registers, reserves, registers_reserved, marks_unknown, completes_canonical, authorizes,
  resumes, run,
}
use pass_hub.Registry.Lifecycle.{is_live, Reaches}
use pass_hub.Registry.Refinement.{run-Reaches, finished_is_final}
use pass_hub.Registry.Capacity.{IsWithinCapacity, run-IsWithinCapacity}

abbrev small : Setup
small = record { capacity = 2; claim_disposition = writable }

abbrev calm : Replies
calm = record {
  bridge_notifying = false;
  owner = returns tt;
  same_artifact = returns true;
  verifier = returns tt;
}

abbrev event : EventKey
event = ("gate", "e1")

abbrev until_resumed : List (Replies × Call)
until_resumed =
    (calm, registers (issued event) (issued 5) 6)
    ∷ (calm, marks_unknown 0)
    ∷ (calm, authorizes 1 7)
    ∷ (calm, resumes 1 2)
    ∷ []

abbrev until_completed : List (Replies × Call)
until_completed = until_resumed ++ ((calm, completes_canonical 3 (issued 9)) ∷ [])

abbrev later : List (Replies × Call)
later =
    (calm, completes_canonical 3 (issued 8))
    ∷ (calm, registers (issued event) (issued 5) 6)
    ∷ (calm, reserves)
    ∷ (calm, reserves)
    ∷ (calm, registers_reserved 4 (issued ("gate", "e2")) (issued 5) (issued 6))
    ∷ []

abbrev completed : Entry
completed = record {
  artifact = 5;
  observation_reference = 6;
  state = canonical;
  generation = 2;
  result_reference = some 9;
  continuation_authorized = false;
}

full :
    (register small calm
      (issued ("gate", "e3"))
      (issued 5)
      6
      (run small create (until_completed ++ later))).1
    ≡ err registry_capacity_exhausted
unfolding reserve_candidate register_reserved run create transition finish_terminal resume_unknown
    authorize_continuation mark_unknown register require_key require_capability assert_owner lookup
    insert ℕ_discrete EventKey-discrete String-discrete
full = refl

replayed :
    (register small calm (issued event) (issued 5) 6 (run small create until_completed)).1
    ≡ ok (replay_canonical event completed 9)
unfolding run create transition finish_terminal resume_unknown authorize_continuation mark_unknown
    register require_key require_capability assert_owner lookup insert ℕ_discrete EventKey-discrete
    String-discrete
replayed = refl

run-Reaches_example :
    Reaches (find_entry event create) (find_entry event (run small create until_resumed))
run-Reaches_example = run-Reaches small create until_resumed event

finished_is_final_example :
    find_entry event (run small (run small create until_completed) later) ≡ some completed
unfolding is_live run create transition finish_terminal resume_unknown authorize_continuation
    mark_unknown register require_key require_capability assert_owner lookup insert ℕ_discrete
    EventKey-discrete String-discrete
finished_is_final_example =
    finished_is_final small (run small create until_completed) later event completed refl refl

run-IsWithinCapacity_example : IsWithinCapacity small (run small create (until_completed ++ later))
run-IsWithinCapacity_example = run-IsWithinCapacity small (until_completed ++ later)
