-- ===== src/Coordinator/Draining.antt =====
-- The drain of the queue and the run of one operation, which waits for its executor.
use pass_hub.Base.{
  ℕ, Bool, true, false, not, ◌&&◌, ◌||◌, Option, none, some, List, [], ◌∷◌, ◌==◌, if◌then◌else◌,
  is_some, ok, err,
}
use pass_hub.Quiescence.{Disposition, prestart_rejected, unknown_effect}
use pass_hub.Coordinator.{
  Coordinator, Candidate, Value, paused, requested, started, Replies, allows, defers, fails,
  not_current, type_error, already_decided, Returns, update, note, is_given, is_current, is_waiting,
  is_rejected, is_requested, is_no_recovery, head_ready, schedule_drain,
}
use pass_hub.Coordinator.Settling.{fail_closed, finalize, finalize_unknown, is_unknown}

-- The `finally` of `drain`.
unfoldable pub end_drain : Coordinator → Coordinator
end_drain s =
    if not s.blocked && not s.deferred_by_gate && head_ready s.queue s.operations
    then schedule_drain (record s { running = false })
    else record s { running = false }

-- `runOperation` up to the call of the executor, for which it waits with `running` set. Where the
-- hook fails, the coordinator is blocked, and it returns to the drain.
unfoldable pub start_operation : Replies → ℕ → Coordinator → Coordinator
start_operation e id s =
    let now =
      note (started id)
        (update id (λ o. record o { active = true }) (record s { current = some id })) in
    if e.started_ok id then now else record (fail_closed id now) { run_settled = true }

-- The loop of `drain` over the queue, which is the queue of the coordinator while it is not blocked.
unfoldable pub drain_from : Replies → List ℕ → Coordinator → Coordinator
unfolding end_drain start_operation
drain_from e [] s = end_drain s
drain_from e (id ∷ ids) s =
    let validation = (s.operations id).validation_state in
    let shifted = record s { queue = ids } in
    let refused = finalize e id prestart_rejected shifted in
    let rest = drain_from e ids refused in
    if s.blocked
    then end_drain s
    else if is_waiting validation
    then end_drain s
    else (elim (e.gate id) [
      | fails ↦ end_drain (fail_closed id s)
      | defers ↦ end_drain (record s { deferred_by_gate = true })
      | allows ↦
          if not (is_rejected validation)
          then start_operation e id shifted
          else if refused.blocked
          then end_drain refused
          else rest
    ])

unfoldable pub continue_drain : Replies → Coordinator → Coordinator
unfolding end_drain drain_from
continue_drain e s = if s.blocked then end_drain s else drain_from e s.queue s

-- The microtask of a scheduled drain.
unfoldable pub drain : Replies → Coordinator → Coordinator
unfolding drain_from
drain e s =
    if not s.drain_scheduled
    then s
    else if s.running || s.blocked
    then record s { drain_scheduled = false }
    else drain_from e s.queue (record s { drain_scheduled = false; running = true })

abbrev is_unknown_candidate : Option Candidate → Bool
is_unknown_candidate none = false
is_unknown_candidate (some c) = is_unknown c.kind

abbrev pub kind_of : Option Candidate → Disposition
kind_of none = unknown_effect
kind_of (some c) = c.kind

-- What `runOperation` decides once the executor is done; `failed` tells whether it threw.
unfoldable pub settle_run : Replies → ℕ → Bool → Coordinator → Coordinator
settle_run e id failed s =
    let o = s.operations id in
    if is_requested o.recovery_phase
    then (if failed
          || not (o.settlement_count == 1)
          || o.invalid_settlement
          || not (is_unknown_candidate o.candidate)
          || not o.has_lease
        then finalize_unknown e id s
        else update id (λ o. record o { recovery_phase = paused }) (record s { blocked = true }))
    else if failed
        || not (o.settlement_count == 1)
        || o.invalid_settlement
        || not (is_some o.candidate)
    then finalize_unknown e id s
    else finalize e id (kind_of o.candidate) s

-- The executor of the current operation is done, and `runOperation` returns to the drain.
unfoldable pub executed : Replies → Bool → Coordinator → Coordinator
unfolding settle_run
executed e failed s = elim s.current [
  | none ↦ s
  | some id ↦
      if s.running && not s.run_settled
      then record (settle_run e id failed s) { run_settled = true }
      else s
]

-- The microtask in which the drain goes on after it has waited for `runOperation`.
unfoldable pub resume_drain : Replies → Coordinator → Coordinator
unfolding continue_drain
resume_drain e s =
    if s.running && s.run_settled then continue_drain e (record s { run_settled = false }) else s

unfoldable pub request_post_commit_unknown_pause : ℕ → Value → Coordinator → Returns (Unit {0})
request_post_commit_unknown_pause id error s =
    let o = s.operations id in
    if not (is_current id s)
    then (s, err not_current)
    else if not (is_given error)
    then (s, err type_error)
    else if not (is_no_recovery o.recovery_phase)
        || not (o.settlement_count == 0)
        || is_some o.candidate
    then (s, err already_decided)
    else (
      update id
          (λ o. record o {
            settlement_count = 1;
            candidate = some (record { kind = unknown_effect; content = error });
            has_lease = true;
            recovery_phase = requested;
          })
          s,
      ok tt,
    )

unfoldable pub wake : Coordinator → Coordinator
wake s = schedule_drain (record s { deferred_by_gate = false })
