-- ===== src/Coordinator/Recovering.antt =====
-- The recovery of an operation whose commit is unknown: an owner adopts its lease and decides.
use pass_hub.Base.{ℕ, Bool, true, false, not, ◌&&◌, if◌then◌else◌, Result, ok, err}
use pass_hub.Quiescence.{business_result_persisted}
use pass_hub.Coordinator.{
  Coordinator, Value, undefined, fulfilled, settled, Replies, ErrorCode, type_error, not_current,
  not_paused, already_adopted, Returns, update, note, is_given, is_current, is_requested, is_paused,
  schedule_drain,
}
use pass_hub.Coordinator.Settling.{finalize_unknown, finished, notice_failed, complete}

-- `adopt`, of a lease that the coordinator gave out. An owner and a handle that are used as methods
-- of another object are not modelled.
unfoldable pub adopt : ℕ → Coordinator → Returns (Unit {0})
adopt id s =
    let o = s.operations id in
    if not o.has_lease
    then (s, err type_error)
    else if o.adopted
    then (s, err already_adopted)
    else if not (is_requested o.recovery_phase) && not (is_paused o.recovery_phase)
    then (s, err not_paused)
    else if not (is_current id s)
    then (s, err not_current)
    else (update id (λ o. record o { adopted = true }) s, ok tt)

-- `assertHandleCurrent`, for the handle that the adoption returned.
unfoldable pub assert_handle_current : ℕ → Coordinator → Result ErrorCode (Unit {0})
assert_handle_current id s =
    let o = s.operations id in
    if not o.adopted
    then err type_error
    else if not (is_paused o.recovery_phase)
    then err not_paused
    else if not (is_current id s)
    then err not_current
    else ok tt

abbrev is_undefined : Value → Bool
is_undefined undefined = true
is_undefined _ = false

-- The queue is reopened only after the observer was told.
unfoldable pub finalize_recovered_business_result : Replies → ℕ → Value → Coordinator → Returns Bool
unfolding schedule_drain
finalize_recovered_business_result e id result s =
    if is_undefined result
    then (s, err type_error)
    else (let told = note (settled id business_result_persisted) (finished id false s) in
        if not (e.settled_ok id)
        then (notice_failed id told, ok false)
        else (schedule_drain (complete id fulfilled (record told { blocked = false })), ok true))

unfoldable pub business_result_persisted_by_handle :
    Replies → ℕ → Value → Coordinator → Returns Bool
unfolding assert_handle_current finalize_recovered_business_result
business_result_persisted_by_handle e id result s = elim (assert_handle_current id s) [
  | err code ↦ (s, err code)
  | ok done ↦ finalize_recovered_business_result e id result s
]

unfoldable pub fail_closed_by_handle : Replies → ℕ → Value → Coordinator → Returns (Unit {0})
unfolding assert_handle_current
fail_closed_by_handle e id error s =
    if not (is_given error) then (s, err type_error) else (elim (assert_handle_current id s) [
      | err code ↦ (s, err code)
      | ok done ↦ (finalize_unknown e id s, ok tt)
    ])
