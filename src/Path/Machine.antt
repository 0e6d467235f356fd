-- ===== src/Path/Machine.antt =====
-- path_state_machine.c: the handlers behind `path_on_event`.
use mqcpn.Prelude.{
  ℕ, Bool, true, false, not, ◌&&◌, Option, none, some, [], ◌∷◌, ◌++◌, if◌then◌else◌,
}
use mqcpn.Path.Entry.{
  Lifecycle, Event, EventCtx, ActivateResult, activate_ok, transient_fail, permanent_fail,
  PathEntry, same_state, activate_requested, retry_timer, validation_ok, xquic_removed,
  manual_reactivate, platform_drop, remove_api, add_fd, conn_reset, fd_closed,
}
use mqcpn.Path.Transition.{fire_path_event, Run, set_path_state, apply_failure, dropped_to_free}

-- The `ACTIVATE_OK` branch that three handlers share.
start_validating : ℕ → PathEntry → EventCtx → Run
unfolding set_path_state
start_validating clock p ctx =
    set_path_state clock
      (record p {
        xqc_path_id = ctx.new_xqc_path_id;
        xquic_path_live = true;
        recreate_after_us = 0;
      })
      Lifecycle.validating

-- The `ACTIVATE_PERMANENT_FAIL` branch that two handlers share.
give_up : ℕ → PathEntry → Run
unfolding set_path_state
give_up clock p =
    set_path_state clock
      (record p {
        xquic_path_live = false;
        xqc_path_id = 0;
        path_stable_since_us = 0;
        recreate_after_us = 0;
      })
      Lifecycle.closed_recoverable

activation_result : ℕ → PathEntry → EventCtx → Lifecycle → ActivateResult → Run
unfolding start_validating apply_failure give_up
activation_result clock p ctx target activate_ok = start_validating clock p ctx
activation_result clock p ctx target transient_fail = apply_failure clock p target ctx.now_us
activation_result clock p ctx target permanent_fail = give_up clock p

-- `path_on_activate_requested`
unfoldable pub on_activate_requested : ℕ → PathEntry → EventCtx → Run
unfolding activation_result
on_activate_requested clock p ctx =
    if not (same_state p.state Lifecycle.pending)
    then (p, [])
    else activation_result clock p ctx Lifecycle.create_wait ctx.result

-- `path_on_retry_timer`
unfoldable pub on_retry_timer : ℕ → PathEntry → EventCtx → Run
unfolding activation_result
on_retry_timer clock p ctx =
    if not (same_state p.state Lifecycle.create_wait) && not (same_state p.state Lifecycle.degraded)
    then (p, [])
    else activation_result clock p ctx p.state ctx.result

-- `path_on_validation_ok`
unfoldable pub on_validation_ok : ℕ → PathEntry → EventCtx → Run
unfolding set_path_state
on_validation_ok clock p ctx =
    if not (same_state p.state Lifecycle.validating)
    then (p, [])
    else set_path_state clock (record p { path_stable_since_us = ctx.now_us }) ctx.validated_target

-- The `switch` of `path_on_xquic_removed`.
xquic_removed_in : Lifecycle → ℕ → PathEntry → EventCtx → Run
unfolding apply_failure dropped_to_free
xquic_removed_in Lifecycle.validating clock p ctx =
    apply_failure clock p Lifecycle.create_wait ctx.now_us
xquic_removed_in Lifecycle.active clock p ctx = apply_failure clock p Lifecycle.degraded ctx.now_us
xquic_removed_in Lifecycle.standby clock p ctx = apply_failure clock p Lifecycle.degraded ctx.now_us
xquic_removed_in Lifecycle.closed_dropped clock p ctx =
    dropped_to_free clock (record p { xquic_path_live = false; xqc_path_id = 0 })
xquic_removed_in _ clock p ctx = (p, [])

-- `path_on_xquic_removed`
unfoldable pub on_xquic_removed : ℕ → PathEntry → EventCtx → Run
unfolding xquic_removed_in
on_xquic_removed clock p ctx = xquic_removed_in p.state clock p ctx

reactivate_result : ℕ → PathEntry → EventCtx → ActivateResult → Run
unfolding start_validating
reactivate_result clock p ctx activate_ok = start_validating clock p ctx
reactivate_result clock p ctx _ = (p, [])

-- `path_on_manual_reactivate`
unfoldable pub on_manual_reactivate : ℕ → PathEntry → EventCtx → Run
unfolding reactivate_result
on_manual_reactivate clock p ctx =
    if not (same_state p.state Lifecycle.closed_recoverable)
      && not (same_state p.state Lifecycle.create_wait)
      && not (same_state p.state Lifecycle.degraded)
    then (p, [])
    else reactivate_result clock p ctx ctx.result

-- `path_on_platform_drop` and `path_on_remove_api`, whose bodies differ in the log line only.
unfoldable pub on_drop : ℕ → PathEntry → Run
unfolding set_path_state
on_drop clock p =
    if same_state p.state Lifecycle.closed_dropped
    then (p, [])
    else if same_state p.state Lifecycle.closed_free
    then (p, [])
    else set_path_state clock
        (record p { platform_attached = false; recreate_after_us = 0; path_stable_since_us = 0 })
        Lifecycle.closed_dropped

-- `path_on_add_fd`
unfoldable pub on_add_fd : ℕ → PathEntry → Run
unfolding set_path_state
on_add_fd clock p =
    if not (same_state p.state Lifecycle.closed_free)
    then (p, [])
    else set_path_state clock (record p { platform_attached = true }) Lifecycle.pending

-- `path_on_conn_reset`
unfoldable pub on_conn_reset : ℕ → PathEntry → Run
unfolding set_path_state dropped_to_free
on_conn_reset clock p =
    let q = record p {
      xquic_path_live = false;
      xqc_path_id = 0;
      recreate_after_us = 0;
      recreate_retries = 0;
      path_stable_since_us = 0;
    } in
    if q.platform_attached
    then set_path_state clock q Lifecycle.pending
    else dropped_to_free clock q

-- `path_on_fd_closed`
unfoldable pub on_fd_closed : ℕ → PathEntry → Run
unfolding dropped_to_free
on_fd_closed clock p =
    if not (same_state p.state Lifecycle.closed_dropped)
    then (p, [])
    else dropped_to_free clock (record p { fd = none })

-- The dispatch of `path_on_event`.
unfoldable pub handle : Event → ℕ → PathEntry → EventCtx → Run
unfolding on_activate_requested on_retry_timer on_validation_ok on_xquic_removed
    on_manual_reactivate on_drop on_add_fd on_conn_reset on_fd_closed
handle activate_requested clock p ctx = on_activate_requested clock p ctx
handle retry_timer clock p ctx = on_retry_timer clock p ctx
handle validation_ok clock p ctx = on_validation_ok clock p ctx
handle xquic_removed clock p ctx = on_xquic_removed clock p ctx
handle manual_reactivate clock p ctx = on_manual_reactivate clock p ctx
handle platform_drop clock p ctx = on_drop clock p
handle remove_api clock p ctx = on_drop clock p
handle add_fd clock p ctx = on_add_fd clock p
handle conn_reset clock p ctx = on_conn_reset clock p
handle fd_closed clock p ctx = on_fd_closed clock p

abbrev pub is_add_fd : Event → Bool
is_add_fd add_fd = true
is_add_fd _ = false

-- `path_on_event`; a null context (`none`) is logged and ignored.
unfoldable pub on_event : ℕ → PathEntry → Event → Option EventCtx → Run
unfolding handle
on_event clock p ev none = (p, [])
on_event clock p ev (some ctx) =
    let (q, effects) = handle ev clock p ctx in
    (
      q,
      if not (same_state p.state q.state) && not (is_add_fd ev)
          then effects ++ (fire_path_event q.status ∷ [])
          else effects,
    )
