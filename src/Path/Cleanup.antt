-- ===== src/Path/Cleanup.antt =====
-- How a dropped slot becomes free: the transport's and the platform's clean-up come in either order.
use mqcpn.Prelude.{ℕ, ◌≡◌, true, false, none, some, arith}
use mqcpn.Path.Entry.{Lifecycle, EventCtx, PathEntry, Event, xquic_removed, fd_closed}
use mqcpn.Path.Machine.{on_event}
use mqcpn.Path.Invariant.{Inv, invariant_check}

-- Once a slot is dropped, the transport's removal and the close of the socket free it, in either
-- order, and the two orders lead to the same slot.
pub cleanup_comm :
    (clock : ℕ) (p : PathEntry) (removed closed : EventCtx)
    → p.state ≡ Lifecycle.closed_dropped
    → let p₁ = (on_event clock p xquic_removed (some removed)).0 in
      let p₂ = (on_event clock p fd_closed (some closed)).0 in
      let q = (on_event clock p₁ fd_closed (some closed)).0 in
      ((on_event clock p₂ xquic_removed (some removed)).0 ≡ q)
      × (q.state ≡ Lifecycle.closed_free)
      × (q.fd ≡ none)
      × (q.xquic_path_live ≡ false)
unfolding on_event
cleanup_comm clock p removed closed h = ground arith

-- One of the two alone does not free a slot whose socket is open and whose transport path is live,
-- and the slot is not revived: it stays dropped.
pub cleanup_needs_both :
    (clock fd : ℕ) (p : PathEntry) (ctx : EventCtx) (ev : Event)
    → p.state ≡ Lifecycle.closed_dropped
    → p.fd ≡ some fd
    → p.xquic_path_live ≡ true
    → Inv p
    → ((on_event clock p ev (some ctx)).0.state ≡ Lifecycle.closed_dropped)
unfolding on_event invariant_check
cleanup_needs_both clock fd p ctx ev h f l v = ground arith
