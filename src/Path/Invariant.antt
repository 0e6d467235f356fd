-- ===== src/Path/Invariant.antt =====
-- `path_invariant_check`, which the source runs at the end of every `path_on_event`.
use mqcpn.Prelude.{
  ℕ, ◌+◌, ◌≡◌, ◌≢◌, ◌<◌, ◌⊎◌, Bool, true, false, not, ◌&&◌, Option, none, some, ◌==◌, arith,
}
use mqcpn.Path.Entry.{
  Lifecycle, PathStatus, Event, EventCtx, PathInfo, PathEntry, public_status, validation_ok, add_fd,
  entry_init,
}
use mqcpn.Path.Backoff.{recreate_backoff_bounds}
use mqcpn.Path.Transition.{Run}
use mqcpn.Path.Machine.{on_event}
use mqcpn.Path.Timers.{tick_confirm_stable}

abbrev pub fd_valid : Option ℕ → Bool
fd_valid none = false
fd_valid (some _) = true

abbrev status_number : PathStatus → ℕ
status_number PathStatus.pending = 0
status_number PathStatus.active = 1
status_number PathStatus.standby = 2
status_number PathStatus.degraded = 3
status_number PathStatus.closed = 4

-- The `switch` of `path_invariant_check`.
abbrev invariant_in : Lifecycle → PathEntry → Bool
invariant_in Lifecycle.pending p =
    p.platform_attached
    && not p.xquic_path_live
    && fd_valid p.fd
    && (p.xqc_path_id == 0)
    && (p.recreate_after_us == 0)
    && (p.path_stable_since_us == 0)
invariant_in Lifecycle.create_wait p =
    p.platform_attached && not p.xquic_path_live && fd_valid p.fd && not (p.recreate_after_us == 0)
invariant_in Lifecycle.validating p =
    p.platform_attached && p.xquic_path_live && fd_valid p.fd && (p.recreate_after_us == 0)
invariant_in Lifecycle.active p =
    p.platform_attached && p.xquic_path_live && fd_valid p.fd && (p.recreate_after_us == 0)
invariant_in Lifecycle.standby p =
    p.platform_attached && p.xquic_path_live && fd_valid p.fd && (p.recreate_after_us == 0)
invariant_in Lifecycle.degraded p =
    p.platform_attached
    && not p.xquic_path_live
    && fd_valid p.fd
    && (p.xqc_path_id == 0)
    && not (p.recreate_after_us == 0)
    && (p.path_stable_since_us == 0)
invariant_in Lifecycle.closed_recoverable p =
    p.platform_attached
    && not p.xquic_path_live
    && fd_valid p.fd
    && (p.xqc_path_id == 0)
    && (p.recreate_after_us == 0)
    && (p.path_stable_since_us == 0)
invariant_in Lifecycle.closed_dropped p =
    not p.platform_attached && (p.recreate_after_us == 0) && (p.path_stable_since_us == 0)
invariant_in Lifecycle.closed_free p =
    not p.platform_attached
    && not p.xquic_path_live
    && not (fd_valid p.fd)
    && (p.xqc_path_id == 0)
    && (p.recreate_after_us == 0)
    && (p.path_stable_since_us == 0)

-- `path_invariant_check`: true where no assertion fails.
unfoldable pub invariant_check : PathEntry → Bool
unfolding public_status
invariant_check p =
    status_number p.status == status_number (public_status p.state) && invariant_in p.state p

-- What the check asserts, and what it leaves unsaid of the failure count.
pub record Inv (p : PathEntry) : Type 0 where
  pub checked : invariant_check p ≡ true
  pub fresh : p.state ≡ Lifecycle.pending → p.recreate_retries ≡ 0
  pub waiting_create :
      p.state ≡ Lifecycle.create_wait
      → (0 < p.recreate_retries) × (p.recreate_retries < 6) × (p.xqc_path_id ≡ 0)
  pub waiting_degraded :
      p.state ≡ Lifecycle.degraded → (0 < p.recreate_retries) × (p.recreate_retries < 6)

-- What the callers of `path_on_event` see to: the clock is a minute short of wrapping at least, and
-- a validated path becomes active or standby.
pub record GoodCtx (ev : Event) (ctx : EventCtx) : Type 0 where
  pub in_time : ctx.now_us + 60_000_000 < 18446744073709551616
  pub target :
      ev ≡ validation_ok
      → (ctx.validated_target ≡ Lifecycle.active) ⊎ (ctx.validated_target ≡ Lifecycle.standby)

-- Every event but `add_fd`, in every state, keeps what `path_invariant_check` asserts.
pub on_event-Inv :
    (clock : ℕ) (p : PathEntry) (ev : Event) (ctx : EventCtx)
    → ev ≢ add_fd
    → GoodCtx ev ctx
    → Inv p
    → Inv (on_event clock p ev (some ctx)).0
unfolding on_event invariant_check
on_event-Inv clock p ev ctx ne g v =
    ground (arith, recreate_backoff_bounds (p.recreate_retries + 1))

-- `mqvpn_client_add_path_fd_with_outcome` on its slot: initialise, fill in, `add_fd`.
unfoldable pub attach : ℕ → PathInfo → ℕ → EventCtx → Run
unfolding entry_init on_event
attach clock info fd ctx =
    on_event clock (record entry_init { info = info; fd = some fd }) add_fd (some ctx)

attach-Inv :
    (clock : ℕ) (info : PathInfo) (fd : ℕ) (ctx : EventCtx) → Inv (attach clock info fd ctx).0
unfolding attach invariant_check
attach-Inv clock info fd ctx = ground arith

tick_confirm_stable-Inv : (p : PathEntry) (now : ℕ) → Inv p → Inv (tick_confirm_stable p now)
unfolding tick_confirm_stable invariant_check
tick_confirm_stable-Inv p now v = ground arith

-- What can happen to a slot.
pub data Step (p : PathEntry) : PathEntry → Type 0 where
  attached :
      (clock : ℕ) (info : PathInfo) (fd : ℕ) (ctx : EventCtx) → Step p (attach clock info fd ctx).0
  event :
      (clock : ℕ) (ev : Event) (ctx : EventCtx)
      → ev ≢ add_fd
      → GoodCtx ev ctx
      → Step p (on_event clock p ev (some ctx)).0
  tick : (now : ℕ) → Step p (tick_confirm_stable p now)

pub data Reach : PathEntry → Type 0 where
  start : Reach entry_init
  next : {p q : PathEntry} → Reach p → Step p q → Reach q

Step-Inv : {p q : PathEntry} → Inv p → Step p q → Inv q
Step-Inv v (attached clock info fd ctx) = attach-Inv clock info fd ctx
Step-Inv v (event clock ev ctx ne g) = on_event-Inv clock _ ev ctx ne g v
Step-Inv v (tick now) = tick_confirm_stable-Inv _ now v

-- In every slot that any history of attachments, events and ticks leads to, the assertions of
-- `path_invariant_check` hold, a pending slot has no failure on record, and a slot that waits for a
-- retry has from 1 to 5.
pub Reach-Inv : {p : PathEntry} → Reach p → Inv p
unfolding entry_init invariant_check
Reach-Inv start = ground arith
Reach-Inv (next r s) = Step-Inv (Reach-Inv r) s
