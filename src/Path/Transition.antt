-- ===== src/Path/Transition.antt =====
-- path_state_machine.c: one change of state, and the failure and clean-up steps that handlers share.
-- A step returns the new slot and the calls that it makes on the client; log lines are left out.
-- `clock` is what `client_now_us` reads.
use mqcpn.Prelude.{
  ℕ, ◌+◌, false, not, ◌&&◌, ◌||◌, none, some, List, [], ◌∷◌, leb, ◌==◌, if◌then◌else◌,
}
use mqcpn.Prelude.Words.{u64}
use mqcpn.Path.Entry.{Lifecycle, PathStatus, PathEntry, public_status, same_state}
use mqcpn.Path.Backoff.{recreate_max_retries, recreate_backoff}

-- `client_notify_xqc_path_state` with its status, and `path_fsm_fire_path_event`.
pub data Effect : Type 0 where
  notify_xqc : ℕ → Effect
  fire_path_event : PathStatus → Effect

abbrev pub Run : Type 0
Run = PathEntry × List Effect

-- `path_mark_state_entry`
unfoldable pub mark_state_entry : PathEntry → ℕ → PathEntry
mark_state_entry p now = record p { state_entered_at_us = now; last_residence_warn_at_us = 0 }

-- `g_p15_xqc_app_status_for`
unfoldable pub xqc_app_status_for : Lifecycle → Lifecycle → ℕ
xqc_app_status_for from to =
    if same_state from Lifecycle.active && same_state to Lifecycle.standby
    then 1
    else if same_state from Lifecycle.standby && same_state to Lifecycle.active
    then 2
    else if (same_state from Lifecycle.active || same_state from Lifecycle.standby)
        && same_state to Lifecycle.degraded
    then 3
    else 0

-- `set_path_state_with_log`
unfoldable pub set_path_state : ℕ → PathEntry → Lifecycle → Run
unfolding public_status mark_state_entry xqc_app_status_for
set_path_state clock p new_state =
    let old_state = p.state in
    if not (same_state old_state new_state) || p.state_entered_at_us == 0
    then (let app = xqc_app_status_for old_state new_state in
        (
          mark_state_entry (record p { status = public_status new_state; state = new_state }) clock,
          if app == 0 then [] else notify_xqc app ∷ [],
        ))
    else (p, [])

-- `apply_failure_with_retry_check`
unfoldable pub apply_failure : ℕ → PathEntry → Lifecycle → ℕ → Run
unfolding set_path_state
apply_failure clock p retry_target now =
    let q = record p {
      xquic_path_live = false;
      xqc_path_id = 0;
      path_stable_since_us = 0;
      recreate_retries = p.recreate_retries + 1;
    } in
    if leb recreate_max_retries q.recreate_retries
    then set_path_state clock (record q { recreate_after_us = 0 }) Lifecycle.closed_recoverable
    else set_path_state clock
        (record q { recreate_after_us = u64 (now + recreate_backoff q.recreate_retries) })
        retry_target

-- `maybe_transition_dropped_to_free`
unfoldable pub dropped_to_free : ℕ → PathEntry → Run
unfolding set_path_state
dropped_to_free clock p =
    if not (same_state p.state Lifecycle.closed_dropped) then (p, []) else elim p.fd [
      | some _ ↦ (p, [])
      | none ↦
          if p.xquic_path_live
          then (p, [])
          else if not (p.xqc_path_id == 0)
          then (p, [])
          else set_path_state clock p Lifecycle.closed_free
    ]
