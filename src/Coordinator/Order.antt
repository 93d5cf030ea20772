-- ===== src/Coordinator/Order.antt =====
-- The order of registration, in the queue and in the starts of operations.
pub mod Methods
pub mod Runs
use pass_hub.Base.{
  ℕ, zero, suc, ◌+◌, ◌≤◌, Bool, true, false, Option, none, some, List, [], ◌∷◌, ◌++◌, ◌≡◌, refl,
  arith, ◌==◌, if◌then◌else◌, if-cases, ok, err,
}
use pass_hub.Quiescence.{Disposition, unknown_effect}
use pass_hub.Coordinator.{
  Coordinator, Operation, Candidate, Value, WriteOperationKind, Notice, registered, queued, started,
  blocked, settled, Replies, remove, schedule_drain, note, update, Completion, failed, fulfilled,
  terminal, GateReply, allows, defers, fails, is_waiting, is_rejected, head_ready, set,
  new_operation,
}
use pass_hub.Coordinator.Settling.{
  reject_all, notices_of_all, reject_queued, fail_closed, finalize, finalize_unknown,
  record_candidate, notice_failed, finished, complete, failed_operation, uncurrent, is_unknown,
  is_persisted,
}
use pass_hub.Coordinator.Draining.{
  end_drain, start_operation, drain_from, continue_drain, drain, settle_run, executed,
  request_post_commit_unknown_pause, wake,
}
use pass_hub.Coordinator.Provisional.{
  Registration, register_provisional, add_operation, activate, reject_before_start,
  consume_maintenance_validation_cancellation, settle_maintenance_known_no_effect,
  finalize_maintenance_known_no_effect,
}
use pass_hub.Coordinator.Recovering.{
  adopt, business_result_persisted_by_handle, fail_closed_by_handle,
}
use pass_hub.Coordinator.Maintenance.{
  settle_each, settle_ready_known_no_effect, mark_waiting_validation_maintenance_canceled,
}

-- The numbers of a list ascend from `lo` on, and stay below `hi`.
abbrev pub Between : ℕ → ℕ → List ℕ → Type 0
Between lo hi [] = lo ≤ hi
Between lo hi (k ∷ ks) = (lo ≤ k) × Between (suc k) hi ks

-- One more than the number of the operation that was started last, or 0.
abbrev pub next_after : List Notice → ℕ
next_after [] = 0
next_after (registered id ∷ ns) = next_after ns
next_after (queued id ∷ ns) = next_after ns
next_after (started id ∷ ns) = suc id
next_after (blocked id ∷ ns) = next_after ns
next_after (settled id d ∷ ns) = next_after ns

-- The numbers of the started operations descend, from the newest notice on.
abbrev pub Descending : List Notice → Type 0
Descending [] = Unit {0}
Descending (registered id ∷ ns) = Descending ns
Descending (queued id ∷ ns) = Descending ns
Descending (started id ∷ ns) = (next_after ns ≤ id) × Descending ns
Descending (blocked id ∷ ns) = Descending ns
Descending (settled id d ∷ ns) = Descending ns

abbrev pub Ordered : ℕ → List ℕ → List Notice → Type 0
Ordered minted queue notices = Between (next_after notices) minted queue × Descending notices

unfoldable pub IsOrdered : Coordinator → Type 0
IsOrdered s = Ordered s.minted s.queue s.notices

Between-le : (lo hi : ℕ) (ks : List ℕ) → Between lo hi ks → lo ≤ hi
Between-le lo hi [] v = v
Between-le lo hi (k ∷ ks) v = omega (arith, v.0, Between-le (suc k) hi ks v.1)

pub Between-weaken : (lo low hi : ℕ) (ks : List ℕ) → low ≤ lo → Between lo hi ks → Between low hi ks
Between-weaken lo low hi [] h v = omega (arith, h, v)
Between-weaken lo low hi (k ∷ ks) h v = (omega (arith, h, v.0), v.1)

pub Between-remove : (lo hi id : ℕ) (ks : List ℕ) → Between lo hi ks → Between lo hi (remove id ks)
unfolding remove
Between-remove lo hi id [] v = v
Between-remove lo hi id (k ∷ ks) v =
    if-cases (Between lo hi) (k == id) _ _
      (Between-weaken (suc k) lo hi ks (omega (arith, v.0)) v.1)
      (v.0, Between-remove (suc k) hi id ks v.1)

pub Between-append :
    (lo hi : ℕ) (ks : List ℕ) → Between lo hi ks → Between lo (suc hi) (ks ++ (hi ∷ []))
Between-append lo hi [] v = (v, omega arith)
Between-append lo hi (k ∷ ks) v = (v.0, Between-append (suc k) hi ks v.1)

notices_of_all-lem :
    (ids : List ℕ) (operations : ℕ → Operation) (ns : List Notice)
    → Descending ns
    → (next_after (notices_of_all ids operations ns) ≡ next_after ns)
      × Descending (notices_of_all ids operations ns)
unfolding notices_of_all
notices_of_all-lem [] operations ns v = (refl, v)
notices_of_all-lem (id ∷ ids) operations ns v = ground (
  arith,
  notices_of_all-lem ids operations ns v,
  notices_of_all-lem ids operations (blocked id ∷ ns) v,
)

pub reject_queued-IsOrdered : (s : Coordinator) → IsOrdered s → IsOrdered (reject_queued s)
unfolding reject_queued IsOrdered
reject_queued-IsOrdered s v = ground (
  arith,
  notices_of_all-lem s.queue s.operations s.notices v.1,
  Between-le (next_after s.notices) s.minted s.queue v.0,
)

-- The steps that the methods are made of.
pub update-IsOrdered :
    (operations : ℕ → Operation) (s : Coordinator)
    → IsOrdered s
    → IsOrdered (record s { operations = operations })
unfolding IsOrdered
update-IsOrdered operations s v = v

pub complete-IsOrdered :
    (id : ℕ) (c : Completion) (s : Coordinator) → IsOrdered s → IsOrdered (complete id c s)
unfolding IsOrdered
complete-IsOrdered id c s v = v

pub told-IsOrdered :
    (id : ℕ) (d : Disposition) (fences : Bool) (s : Coordinator)
    → IsOrdered s
    → IsOrdered (note (settled id d) (finished id fences s))
unfolding IsOrdered
told-IsOrdered id d fences s v = v

blocked-IsOrdered :
    (id : ℕ) (operations : ℕ → Operation) (s : Coordinator)
    → IsOrdered s
    → IsOrdered
        (record s { blocked = true; operations = operations; notices = blocked id ∷ s.notices })
unfolding IsOrdered
blocked-IsOrdered id operations s v = v

pub failing-IsOrdered :
    (id : ℕ) (s : Coordinator)
    → IsOrdered s
    → IsOrdered (
        note (blocked id) (
          update id failed_operation (record s {
            blocked = true;
            queue = remove id s.queue;
            current = uncurrent id s.current;
          })))
unfolding IsOrdered
failing-IsOrdered id s v = (Between-remove _ _ id s.queue v.0, v.1)

pub removed-IsOrdered :
    (id : ℕ) (s : Coordinator) → IsOrdered s → IsOrdered (record s { queue = remove id s.queue })
unfolding IsOrdered
removed-IsOrdered id s v = (Between-remove _ _ id s.queue v.0, v.1)

pub flags-IsOrdered :
    (b d g r : Bool) (n : ℕ) (c : Option ℕ) (s : Coordinator)
    → IsOrdered s
    → IsOrdered (record s {
      blocked = b;
      drain_scheduled = d;
      deferred_by_gate = g;
      running = r;
      next_sequence = n;
      current = c;
    })
unfolding IsOrdered
flags-IsOrdered b d g r n c s v = v

pub notice_failed-IsOrdered :
    (id : ℕ) (s : Coordinator) → IsOrdered s → IsOrdered (notice_failed id s)
notice_failed-IsOrdered id s v = reject_queued-IsOrdered _ (blocked-IsOrdered id _ s v)

pub fail_closed-IsOrdered : (id : ℕ) (s : Coordinator) → IsOrdered s → IsOrdered (fail_closed id s)
unfolding fail_closed
fail_closed-IsOrdered id s v =
    if-cases IsOrdered _ _ _ (reject_queued-IsOrdered _ (flags-IsOrdered true _ _ _ _ _ s v))
      (reject_queued-IsOrdered _ (failing-IsOrdered id s v))

pub finalize-IsOrdered :
    (e : Replies) (id : ℕ) (kind : Disposition) (s : Coordinator)
    → IsOrdered s
    → IsOrdered (finalize e id kind s)
unfolding finalize
finalize-IsOrdered e id kind s v =
    let told = told-IsOrdered id kind (is_unknown kind) s v in
    ground (
      arith,
      notice_failed-IsOrdered id _ told,
      complete-IsOrdered id fulfilled _ told,
      complete-IsOrdered id failed _ told,
      reject_queued-IsOrdered _ (complete-IsOrdered id failed _ told),
    )

pub finalize_unknown-IsOrdered :
    (e : Replies) (id : ℕ) (s : Coordinator) → IsOrdered s → IsOrdered (finalize_unknown e id s)
unfolding finalize_unknown
finalize_unknown-IsOrdered e id s v =
    let told = told-IsOrdered id unknown_effect true s v in
    if-cases IsOrdered _ _ _ v (
      if-cases IsOrdered _ _ _ (notice_failed-IsOrdered id _ told)
        (reject_queued-IsOrdered _ (complete-IsOrdered id failed _ told)))

pub schedule_drain-IsOrdered : (s : Coordinator) → IsOrdered s → IsOrdered (schedule_drain s)
unfolding schedule_drain
schedule_drain-IsOrdered s v = if-cases IsOrdered _ _ _ v (flags-IsOrdered _ true _ _ _ _ s v)
