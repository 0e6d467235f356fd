-- ===== src/Path/Entry.antt =====
-- path_entry_internal.h and the enums of path_state_machine.h: one path slot, its events.
use mqcpn.Prelude.{ℕ, Bool, false, Option, none, List, [], ◌==◌}

-- `path_lifecycle_t`
pub data Lifecycle : Type 0 where
  pending create_wait validating active standby degraded : Lifecycle
  closed_recoverable closed_dropped closed_free : Lifecycle

-- The number that the C enumeration gives a state.
abbrev pub lifecycle_number : Lifecycle → ℕ
lifecycle_number pending = 0
lifecycle_number create_wait = 1
lifecycle_number validating = 2
lifecycle_number active = 3
lifecycle_number standby = 4
lifecycle_number degraded = 5
lifecycle_number closed_recoverable = 6
lifecycle_number closed_dropped = 7
lifecycle_number closed_free = 8

-- `==` on states
abbrev pub same_state : Lifecycle → Lifecycle → Bool
same_state a b = lifecycle_number a == lifecycle_number b

-- `mqvpn_path_status_t`
pub data PathStatus : Type 0 where
  pending active standby degraded closed : PathStatus

-- `path_event_t`
pub data Event : Type 0 where
  activate_requested retry_timer validation_ok xquic_removed manual_reactivate : Event
  platform_drop remove_api add_fd conn_reset fd_closed : Event

-- `activate_result_t`
pub data ActivateResult : Type 0 where
  activate_ok transient_fail permanent_fail : ActivateResult

-- `path_event_ctx_t`
pub record EventCtx : Type 0 where
  pub result : ActivateResult
  pub new_xqc_path_id : ℕ
  pub validated_target : Lifecycle
  pub now_us : ℕ

-- The fields of `path_entry_t` that the state machine never touches.
pub record PathInfo : Type 0 where
  pub handle : ℕ
  pub name : List ℕ
  pub local_addr : List ℕ
  pub local_addr_len : ℕ
  pub platform_net_id : ℕ
  pub flags : ℕ
  pub weight : ℕ
  pub srtt_ms : ℕ
  pub bytes_tx : ℕ
  pub bytes_rx : ℕ

-- `path_entry_t`. The C flags are Booleans; `fd` is `none` where the source has a negative number.
pub record PathEntry : Type 0 where
  pub info : PathInfo
  pub fd : Option ℕ
  pub status : PathStatus
  pub state : Lifecycle
  pub platform_attached : Bool
  pub xqc_path_id : ℕ
  pub xquic_path_live : Bool
  pub recreate_after_us : ℕ
  pub recreate_retries : ℕ
  pub path_stable_since_us : ℕ
  pub state_entered_at_us : ℕ
  pub last_residence_warn_at_us : ℕ

-- `path_public_status_from_lifecycle`
unfoldable pub public_status : Lifecycle → PathStatus
public_status Lifecycle.pending = PathStatus.pending
public_status Lifecycle.create_wait = PathStatus.pending
public_status Lifecycle.validating = PathStatus.pending
public_status Lifecycle.active = PathStatus.active
public_status Lifecycle.standby = PathStatus.standby
public_status Lifecycle.degraded = PathStatus.degraded
public_status Lifecycle.closed_recoverable = PathStatus.closed
public_status Lifecycle.closed_dropped = PathStatus.closed
public_status Lifecycle.closed_free = PathStatus.closed

abbrev no_info : PathInfo
no_info = record {
  handle = 0;
  name = [];
  local_addr = [];
  local_addr_len = 0;
  platform_net_id = 0;
  flags = 0;
  weight = 0;
  srtt_ms = 0;
  bytes_tx = 0;
  bytes_rx = 0;
}

-- `path_entry_init`: memset to zero, then fd, state and status.
unfoldable pub entry_init : PathEntry
unfolding public_status
entry_init = record {
  info = no_info;
  fd = none;
  status = public_status Lifecycle.closed_free;
  state = Lifecycle.closed_free;
  platform_attached = false;
  xqc_path_id = 0;
  xquic_path_live = false;
  recreate_after_us = 0;
  recreate_retries = 0;
  path_stable_since_us = 0;
  state_entered_at_us = 0;
  last_residence_warn_at_us = 0;
}
