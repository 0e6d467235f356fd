-- ===== src/Path/Tests.antt =====
-- Runs of the path state machine, and the theorems on it at concrete slots.
use mqcpn.Prelude.{
  ℕ, ◌+◌, ◌*◌, ◌%◌, ◌<◌, ◌≡◌, ◌⊎◌, ◌≤◌, inl, inr, refl, true, false, some, List, [], ◌∷◌, arith,
}
use mqcpn.Path.Entry.{
  Lifecycle, PathStatus, Event, EventCtx, ActivateResult, PathInfo, PathEntry, activate_ok,
  transient_fail, activate_requested, xquic_removed,
}
use mqcpn.Path.Machine.{on_event}
use mqcpn.Path.Invariant.{
  GoodCtx, Inv, attach, invariant_check, attached, event, start, next, Reach-Inv,
}
use mqcpn.Path.Graph.{◌⟶◌, on_event-⟶}
use mqcpn.Path.Cleanup.{cleanup_needs_both}
use mqcpn.Path.Rotation.{is_primary, count_primary, rotate_primary_path, rotate_primary_path_lem}
use mqcpn.Path.Budget.{failing_retries, failing_retries_exhaust}

abbrev wlan : PathInfo
wlan = record {
  handle = 1;
  name = 119 ∷ [];
  local_addr = [];
  local_addr_len = 0;
  platform_net_id = 0;
  flags = 0;
  weight = 1;
  srtt_ms = 0;
  bytes_tx = 0;
  bytes_rx = 0;
}

abbrev at_second : ℕ → ActivateResult → EventCtx
at_second s r = record {
  result = r;
  new_xqc_path_id = 4;
  validated_target = Lifecycle.active;
  now_us = s * 1_000_000;
}

-- A slot that carries traffic.
abbrev running : PathEntry
running = record {
  info = wlan;
  fd = some 9;
  status = PathStatus.active;
  state = Lifecycle.active;
  platform_attached = true;
  xqc_path_id = 4;
  xquic_path_live = true;
  recreate_after_us = 0;
  recreate_retries = 2;
  path_stable_since_us = 3_000_000;
  state_entered_at_us = 3_000_000;
  last_residence_warn_at_us = 0;
}

abbrev dropped_slot : PathEntry
dropped_slot = record running {
  status = PathStatus.closed;
  state = Lifecycle.closed_dropped;
  platform_attached = false;
  path_stable_since_us = 0;
}

abbrev failing_slot : PathEntry
failing_slot = record running {
  status = PathStatus.degraded;
  state = Lifecycle.degraded;
  xquic_path_live = false;
  xqc_path_id = 0;
  recreate_after_us = 9_000_000;
  path_stable_since_us = 0;
}

running-Inv : Inv running
unfolding invariant_check
running-Inv = ground arith

dropped_slot-Inv : Inv dropped_slot
unfolding invariant_check
dropped_slot-Inv = ground arith

good_ctx : (ev : Event) → GoodCtx ev (at_second 7 activate_ok)
good_ctx ev = record { in_time = omega arith; target = λ _. inl refl }

loses_its_path :
    (on_event 7 running xquic_removed (some (at_second 7 activate_ok))).0.state ≡ Lifecycle.degraded
unfolding on_event
loses_its_path = refl

Reach-Inv_example :
    Inv
      (on_event 7
        (attach 5 wlan 9 (at_second 7 activate_ok)).0
        activate_requested
        (some (at_second 7 activate_ok))).0
Reach-Inv_example = Reach-Inv (
    next (next start (attached 5 wlan 9 (at_second 7 activate_ok))) (
      event 7 activate_requested (at_second 7 activate_ok) (λ h. cc) (good_ctx activate_requested)))

on_event-⟶_example :
    Lifecycle.active ⟶ (on_event 7 running xquic_removed (some (at_second 7 activate_ok))).0.state
on_event-⟶_example =
    on_event-⟶ 7 running xquic_removed (at_second 7 activate_ok) (good_ctx xquic_removed)
      running-Inv

cleanup_needs_both_example :
    (on_event 7 dropped_slot xquic_removed (some (at_second 7 activate_ok))).0.state
    ≡ Lifecycle.closed_dropped
cleanup_needs_both_example =
    cleanup_needs_both 7 9 dropped_slot (at_second 7 activate_ok) xquic_removed refl refl refl
      dropped_slot-Inv

abbrev two_failures : List (ℕ × EventCtx)
two_failures = (10, at_second 10 transient_fail) ∷ (20, at_second 20 transient_fail) ∷ []

failing_retries_exhaust_example :
    ((failing_retries failing_slot two_failures).state ≡ Lifecycle.degraded)
    × ((failing_retries failing_slot two_failures).recreate_retries ≡ 4)
failing_retries_exhaust_example =
    failing_retries_exhaust failing_slot two_failures (inr refl) (omega arith)

abbrev four_flags : List ℕ
four_flags = 0 ∷ 1 ∷ 0 ∷ 1 ∷ []

-- From path 2 of four, over the backup 3, to path 0.
rotate_primary_path_lem_example :
    ((count_primary four_flags 4 ≤ 1) × (rotate_primary_path 2 four_flags 4 ≡ 2))
    ⊎ ((2 ≤ count_primary four_flags 4)
        × ((k : ℕ) × (rotate_primary_path 2 four_flags 4 ≡ (2 + k) % 4)
            × (1 ≤ k)
            × (k < 4)
            × (is_primary four_flags ((2 + k) % 4) ≡ true)
            × ((j : ℕ) → 1 ≤ j → j < k → is_primary four_flags ((2 + j) % 4) ≡ false)))
rotate_primary_path_lem_example = rotate_primary_path_lem 2 four_flags 4 (omega arith)
