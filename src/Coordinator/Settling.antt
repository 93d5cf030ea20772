-- ===== src/Coordinator/Settling.antt =====
-- How an operation ends: its candidates, its settlement, and the failure of all that is queued.
use pass_hub.Base.{
  ℕ, ◌+◌, Bool, true, false, not, ◌||◌, Option, none, some, List, [], ◌∷◌, ◌==◌, if◌then◌else◌,
  is_some,
}
use pass_hub.Quiescence.{Disposition, business_result_persisted, unknown_effect}
use pass_hub.Coordinator.{
  Coordinator, Operation, Candidate, Value, undefined, Completion, pending, fulfilled, failed,
  terminal, Notice, blocked, settled, Replies, update, note, remove, same, is_given,
}

-- A promise that is settled stays as it is.
abbrev pub settle_promise : Completion → Completion → Completion
settle_promise new pending = new
settle_promise new fulfilled = fulfilled
settle_promise new failed = failed

abbrev is_legal_value : Disposition → Value → Bool
is_legal_value business_result_persisted undefined = false
is_legal_value business_result_persisted _ = true
is_legal_value _ v = is_given v

abbrev pub is_legal_candidate : Candidate → Bool
is_legal_candidate c = is_legal_value c.kind c.content

unfoldable pub record_candidate : ℕ → Candidate → Coordinator → Coordinator
record_candidate id c s =
    let o = s.operations id in
    if o.finalized || not o.active
    then s
    else update id
        (λ o. record o {
          settlement_count = o.settlement_count + 1;
          invalid_settlement =
              if not (is_legal_candidate c)
              then true
              else if not (o.settlement_count + 1 == 1)
              then true
              else o.invalid_settlement;
          candidate = if is_some o.candidate then o.candidate else some c;
        })
        s

-- What `rejectQueued` does to one operation.
abbrev pub reject : Operation → Operation
reject o = if o.finalized then o else record o {
  finalized = true;
  active = false;
  completion = settle_promise failed o.completion;
}

unfoldable pub reject_all : List ℕ → (ℕ → Operation) → ℕ → Operation
reject_all [] operations = operations
reject_all (id ∷ ids) operations =
    reject_all ids (λ k. if k == id then reject (operations id) else operations k)

unfoldable pub notices_of_all : List ℕ → (ℕ → Operation) → List Notice → List Notice
notices_of_all [] operations notices = notices
notices_of_all (id ∷ ids) operations notices =
    notices_of_all ids operations
      (if (operations id).finalized then notices else blocked id ∷ notices)

unfoldable pub reject_queued : Coordinator → Coordinator
unfolding reject_all notices_of_all
reject_queued s = record s {
  queue = [];
  operations = reject_all s.queue s.operations;
  notices = notices_of_all s.queue s.operations s.notices;
}

abbrev pub uncurrent : ℕ → Option ℕ → Option ℕ
uncurrent id current = if same current id then none else current

abbrev pub ended : Operation → Operation
ended o = record o { finalized = true; active = false; recovery_phase = terminal }

abbrev pub failed_operation : Operation → Operation
failed_operation o = record (ended o) { completion = settle_promise failed o.completion }

unfoldable pub fail_closed : ℕ → Coordinator → Coordinator
unfolding reject_queued
fail_closed id s =
    if (s.operations id).finalized
    then reject_queued (record s { blocked = true })
    else reject_queued (
        note (Notice.blocked id) (
          update id failed_operation (record s {
            blocked = true;
            queue = remove id s.queue;
            current = uncurrent id s.current;
          })))

-- `finalize` and the parts of it that `finalizeUnknown` and the recovery share: the operation ends,
-- the coordinator is blocked where `fences`, and the observer is told.
abbrev pub finished : ℕ → Bool → Coordinator → Coordinator
finished id fences s =
    update id ended (record s { blocked = fences || s.blocked; current = uncurrent id s.current })

-- After a notice that failed.
abbrev pub notice_failed : ℕ → Coordinator → Coordinator
notice_failed id s = reject_queued (
    update id (λ o. record o { completion = settle_promise failed o.completion })
      (note (blocked id) (record s { blocked = true })))

abbrev pub complete : ℕ → Completion → Coordinator → Coordinator
complete id c s = update id (λ o. record o { completion = settle_promise c o.completion }) s

unfoldable pub finalize_unknown : Replies → ℕ → Coordinator → Coordinator
unfolding reject_queued
finalize_unknown e id s =
    if (s.operations id).finalized
    then s
    else (let told = note (settled id unknown_effect) (finished id true s) in
        if not (e.settled_ok id)
        then notice_failed id told
        else reject_queued (complete id failed told))

abbrev pub is_unknown : Disposition → Bool
is_unknown unknown_effect = true
is_unknown _ = false

abbrev pub is_persisted : Disposition → Bool
is_persisted business_result_persisted = true
is_persisted _ = false

-- Where a notice fails, `rejectQueued` is called again, on a queue that is empty then.
unfoldable pub finalize : Replies → ℕ → Disposition → Coordinator → Coordinator
unfolding reject_queued
finalize e id kind s =
    if (s.operations id).finalized
    then s
    else (let told = note (settled id kind) (finished id (is_unknown kind) s) in
        if not (e.settled_ok id)
        then notice_failed id told
        else if is_persisted kind
        then complete id fulfilled told
        else if is_unknown kind
        then reject_queued (complete id failed told)
        else complete id failed told)
