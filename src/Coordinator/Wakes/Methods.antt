-- ===== src/Coordinator/Wakes/Methods.antt =====
-- When a drain is scheduled, over the methods of the handles, recovery and maintenance.
use pass_hub.Base.{
  if-elim, ◌∙◌, String, ℤ, not, ◌||◌, ◌&&◌, ℕ, Bool, true, false, List, [], ◌∷◌, ◌≡◌, refl, arith,
  if-cases, ok, err,
}
use pass_hub.Quiescence.{business_result_persisted, prestart_rejected}
use pass_hub.Coordinator.{
  Coordinator, Operation, Candidate, Value, WriteOperationKind, settled, Replies, remove, note,
  update, fulfilled, is_waiting, is_ready, is_queued, is_given, Returns, rejected, head_ready, set,
}
use pass_hub.Coordinator.Settling.{
  reject_queued, finalize, finalize_unknown, record_candidate, notice_failed, finished, complete,
}
use pass_hub.Coordinator.Draining.{request_post_commit_unknown_pause, wake}
use pass_hub.Coordinator.Provisional.{
  Registration, register_provisional, register_provisional-keeps, add_operation, activate,
  reject_before_start, consume_maintenance_validation_cancellation,
  settle_maintenance_known_no_effect, finalize_maintenance_known_no_effect, resume_if_ok,
}
use pass_hub.Coordinator.Recovering.{
  adopt, business_result_persisted_by_handle, fail_closed_by_handle,
}
use pass_hub.Coordinator.Maintenance.{
  mark_all, ready_of, settle_each, settle_ready_known_no_effect,
  mark_waiting_validation_maintenance_canceled,
}
use pass_hub.Coordinator.Wakes.{
  IsAwake, schedule_drain-IsAwake, resume-IsAwake, fail_closed-IsAwake,
}

pub pause-IsAwake :
    (id : ℕ) (error : Value) (s : Coordinator)
    → IsAwake s
    → IsAwake (request_post_commit_unknown_pause id error s).0
unfolding request_post_commit_unknown_pause IsAwake
pause-IsAwake id error s v = ground arith

pub record_candidate-IsAwake :
    (id : ℕ) (c : Candidate) (s : Coordinator) → IsAwake s → IsAwake (record_candidate id c s)
unfolding record_candidate IsAwake
record_candidate-IsAwake id c s v = ground arith

pub wake-IsAwake : (s : Coordinator) → IsAwake (wake s)
unfolding wake
wake-IsAwake s = schedule_drain-IsAwake (record s { deferred_by_gate = false })

pub add_operation-IsAwake :
    (e : Replies) (kind : WriteOperationKind) (at : ℤ) (operation_id : String) (s : Coordinator)
    → IsAwake (add_operation e kind at operation_id s).0
unfolding add_operation
add_operation-IsAwake e kind at operation_id s =
    if-cases {A = Returns ℕ} (λ r. IsAwake r.0) (not e.registered_ok) _ _ (fail_closed-IsAwake _ _)
      (schedule_drain-IsAwake _)

pub register_provisional-IsAwake :
    (e : Replies) (r : Registration) (kind : WriteOperationKind) (s : Coordinator)
    → IsAwake s
    → IsAwake (register_provisional e r kind s).0
register_provisional-IsAwake e r kind s v =
    register_provisional-keeps IsAwake e kind s v (λ _ at id. add_operation-IsAwake e kind at id s)
      r

pub activate-IsAwake :
    (e : Replies) (id : ℕ) (input : Value) (s : Coordinator)
    → IsAwake s
    → IsAwake (activate e id input s).0
unfolding activate
activate-IsAwake e id input s v =
    if-cases {A = Returns (Unit {0})} (λ r. IsAwake r.0) (s.operations id).decided _ _ v
      (if-cases {A = Returns (Unit {0})} (λ r. IsAwake r.0) (not e.queued_ok) _ _
        (fail_closed-IsAwake id _) (schedule_drain-IsAwake _))

pub head_ready-set :
    (id : ℕ) (o : Operation) (operations : ℕ → Operation) (q : List ℕ)
    → is_queued id q ≡ false
    → head_ready q (set id o operations) ≡ head_ready q operations
unfolding is_queued
head_ready-set id o operations [] h = refl
head_ready-set id o operations (k ∷ ks) h = ground arith

pub unqueued-IsAwake :
    (id : ℕ) (o : Operation) (s : Coordinator)
    → is_queued id s.queue ≡ false
    → IsAwake s
    → IsAwake (record s { operations = set id o s.operations })
unfolding IsAwake
unqueued-IsAwake id o s h v = ground (arith, head_ready-set id o s.operations s.queue h)

pub reject_before_start-IsAwake :
    (e : Replies) (id : ℕ) (error : Value) (s : Coordinator)
    → IsAwake s
    → IsAwake (reject_before_start e id error s).0
unfolding reject_before_start
reject_before_start-IsAwake e id error s v = ground (
  arith,
  unqueued-IsAwake id (record (s.operations id) { decided = true; validation_state = rejected }) s,
  resume-IsAwake (
      finalize e id prestart_rejected (record s {
        operations =
            set id (record (s.operations id) { decided = true; validation_state = rejected })
              s.operations;
        queue = remove id s.queue;
      })),
)

pub consume-IsAwake :
    (id : ℕ) (s : Coordinator)
    → IsAwake s
    → IsAwake (consume_maintenance_validation_cancellation id s).0
unfolding consume_maintenance_validation_cancellation IsAwake
consume-IsAwake id s v = ground arith

pub adopt-IsAwake : (id : ℕ) (s : Coordinator) → IsAwake s → IsAwake (adopt id s).0
unfolding adopt IsAwake
adopt-IsAwake id s v = ground arith

pub notice_failed-IsAwake : (id : ℕ) (s : Coordinator) → IsAwake (notice_failed id s)
unfolding reject_queued IsAwake
notice_failed-IsAwake id s = ground arith

pub recover-IsAwake :
    (e : Replies) (id : ℕ) (result : Value) (s : Coordinator)
    → IsAwake s
    → IsAwake (business_result_persisted_by_handle e id result s).0
unfolding business_result_persisted_by_handle
recover-IsAwake e id result s v =
    let told = note (settled id business_result_persisted) (finished id false s) in
    ground (
      arith,
      notice_failed-IsAwake id told,
      schedule_drain-IsAwake (complete id fulfilled (record told { blocked = false })),
    )

pub fail_closed_by_handle-IsAwake :
    (e : Replies) (id : ℕ) (error : Value) (s : Coordinator)
    → IsAwake s
    → IsAwake (fail_closed_by_handle e id error s).0
unfolding fail_closed_by_handle finalize_unknown reject_queued IsAwake
fail_closed_by_handle-IsAwake e id error s v = ground arith

pub finalize_maintenance-ok :
    (e : Replies) (id : ℕ) (s : Coordinator)
    → e.settled_ok id ≡ true
    → (finalize_maintenance_known_no_effect e id s).1 ≡ ok tt
unfolding finalize_maintenance_known_no_effect
finalize_maintenance-ok e id s h = ground arith

pub resume_if_ok-IsAwake : (r : Returns (Unit {0})) → r.1 ≡ ok tt → IsAwake (resume_if_ok r).0
resume_if_ok-IsAwake (s, ok done) h = resume-IsAwake s
resume_if_ok-IsAwake (s, err code) h = ground arith

pub decided-IsAwake :
    (id : ℕ) (s : Coordinator)
    → IsAwake s
    → IsAwake (update id (λ o. record o { decided = true }) s)
unfolding IsAwake
decided-IsAwake id s v = ground arith

pub settle_maintenance-IsAwake :
    (e : Replies) (id : ℕ) (error : Value) (s : Coordinator)
    → e.settled_ok id ≡ true
    → IsAwake s
    → IsAwake (settle_maintenance_known_no_effect e id error s).0
unfolding settle_maintenance_known_no_effect
settle_maintenance-IsAwake e id error s h v =
    let now = update id (λ o. record o { decided = true }) s in
    if-cases {A = Returns (Unit {0})} (λ r. IsAwake r.0) (s.operations id).decided _ _ v
      (if-cases {A = Returns (Unit {0})} (λ r. IsAwake r.0) (not (is_given error)) _ _ v
        (if-cases {A = Returns (Unit {0})} (λ r. IsAwake r.0)
          (not (is_queued id s.queue)
            || (s.operations id).finalized
            || not (is_waiting (s.operations id).validation_state))
          _ _ (decided-IsAwake id s v)
          (resume_if_ok-IsAwake
            (finalize_maintenance_known_no_effect e id (record now { queue = remove id s.queue }))
            (finalize_maintenance-ok e id (record now { queue = remove id s.queue }) h))))

pub head_ready-remove :
    (id : ℕ) (operations : ℕ → Operation) (q : List ℕ)
    → is_ready (operations id).validation_state ≡ true
    → head_ready (remove id q) operations ≡ true
    → is_queued id q ≡ true
    → head_ready q operations ≡ true
unfolding remove is_queued
head_ready-remove id operations [] h k m = ground arith
head_ready-remove id operations (j ∷ js) h k m = ground arith

pub finalize_maintenance-IsAwake :
    (e : Replies) (id : ℕ) (s : Coordinator)
    → is_ready (s.operations id).validation_state ≡ true
    → is_queued id s.queue ≡ true
    → IsAwake s
    → IsAwake (finalize_maintenance_known_no_effect e id (record s { queue = remove id s.queue })).0
unfolding finalize_maintenance_known_no_effect IsAwake
finalize_maintenance-IsAwake e id s h k v =
    ground (arith, head_ready-remove id s.operations s.queue h)

pub settle_each-IsAwake :
    (e : Replies) (cleanup_ok : ℕ → Bool) (ids : List ℕ) (s : Coordinator)
    → IsAwake s
    → IsAwake (settle_each e cleanup_ok ids s).0
unfolding settle_each
settle_each-IsAwake e cleanup_ok [] s v = v
settle_each-IsAwake e cleanup_ok (id ∷ ids) s v = ground (
  arith,
  settle_each-IsAwake e cleanup_ok ids s v,
  finalize_maintenance-IsAwake e id s,
  settle_each-IsAwake e cleanup_ok ids
      (finalize_maintenance_known_no_effect e id (record s { queue = remove id s.queue })).0,
)

pub settle_ready-IsAwake :
    (e : Replies) (cleanup_ok : ℕ → Bool) (error : Value) (s : Coordinator)
    → IsAwake s
    → IsAwake (settle_ready_known_no_effect e cleanup_ok error s).0
unfolding settle_ready_known_no_effect
settle_ready-IsAwake e cleanup_ok error s v =
    ground (arith, settle_each-IsAwake e cleanup_ok (ready_of s.queue s.operations) s v)

pub head_ready-marked :
    (id : ℕ) (operations : ℕ → Operation) (q : List ℕ)
    → head_ready q
        (set id (record (operations id) { maintenance_validation_canceled = true }) operations)
      ≡ head_ready q operations
head_ready-marked id operations [] = refl
head_ready-marked id operations (k ∷ ks) = ground arith

pub head_ready-mark_all :
    (q ids : List ℕ) (operations : ℕ → Operation)
    → head_ready q (mark_all ids operations) ≡ head_ready q operations
unfolding mark_all
head_ready-mark_all q [] operations = refl
head_ready-mark_all q (id ∷ ids) operations =
    let marked =
      set id (record (operations id) { maintenance_validation_canceled = true }) operations in
    if-elim (λ x. head_ready q (mark_all ids x) ≡ head_ready q operations)
      (not (operations id).finalized && is_waiting (operations id).validation_state) marked
      operations (λ _. head_ready-mark_all q ids marked ∙ head_ready-marked id operations q)
      (λ _. head_ready-mark_all q ids operations)

pub mark-IsAwake :
    (s : Coordinator) → IsAwake s → IsAwake (mark_waiting_validation_maintenance_canceled s)
unfolding mark_waiting_validation_maintenance_canceled IsAwake
mark-IsAwake s v = ground (arith, head_ready-mark_all s.queue s.queue s.operations)
