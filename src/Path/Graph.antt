-- ===== src/Path/Graph.antt =====
-- The diagram of the nine states, and what `path_on_event` tells the client of a change.
use mqcpn.Prelude.{ℕ, ◌≡◌, ◌||◌, some, List, [], ◌∷◌, ◌++◌, if◌then◌else◌, arith}
use mqcpn.Path.Entry.{Lifecycle, Event, EventCtx, PathEntry, same_state}
use mqcpn.Path.Transition.{Effect, notify_xqc, fire_path_event}
use mqcpn.Path.Machine.{on_event, is_add_fd}
use mqcpn.Path.Invariant.{GoodCtx, Inv, invariant_check}

-- The states in which the platform still holds the slot.
pub data IsHeld : Lifecycle → Type 0 where
  pending : IsHeld Lifecycle.pending
  create_wait : IsHeld Lifecycle.create_wait
  validating : IsHeld Lifecycle.validating
  active : IsHeld Lifecycle.active
  standby : IsHeld Lifecycle.standby
  degraded : IsHeld Lifecycle.degraded
  closed_recoverable : IsHeld Lifecycle.closed_recoverable

infix 40 ◌⟶◌
pub data ◌⟶◌ : Lifecycle → Lifecycle → Type 0 where
  stay : {s : Lifecycle} → s ⟶ s
  created : Lifecycle.pending ⟶ Lifecycle.validating
  retried_create : Lifecycle.create_wait ⟶ Lifecycle.validating
  retried : Lifecycle.degraded ⟶ Lifecycle.validating
  reactivated : Lifecycle.closed_recoverable ⟶ Lifecycle.validating
  create_failed : Lifecycle.pending ⟶ Lifecycle.create_wait
  invalid : Lifecycle.validating ⟶ Lifecycle.create_wait
  validated : Lifecycle.validating ⟶ Lifecycle.active
  validated_standby : Lifecycle.validating ⟶ Lifecycle.standby
  lost : Lifecycle.active ⟶ Lifecycle.degraded
  lost_standby : Lifecycle.standby ⟶ Lifecycle.degraded
  exhausted : {s : Lifecycle} → IsHeld s → s ⟶ Lifecycle.closed_recoverable
  dropped : {s : Lifecycle} → IsHeld s → s ⟶ Lifecycle.closed_dropped
  reset : {s : Lifecycle} → IsHeld s → s ⟶ Lifecycle.pending
  freed : Lifecycle.closed_dropped ⟶ Lifecycle.closed_free
  attached : Lifecycle.closed_free ⟶ Lifecycle.pending

ruleset edges = (
  stay, created, retried_create, retried, reactivated, create_failed, invalid, validated,
  validated_standby, lost, lost_standby, freed, attached,
)

ruleset held = (pending, create_wait, validating, active, standby, degraded, closed_recoverable)

-- In a slot that meets the invariant, no event makes a change of state that is not in the diagram: a
-- slot becomes active or standby only from validating, is never revived once the platform dropped
-- it, and is reused only after it was freed.
pub on_event-⟶ :
    (clock : ℕ) (p : PathEntry) (ev : Event) (ctx : EventCtx)
    → GoodCtx ev ctx
    → Inv p
    → p.state ⟶ (on_event clock p ev (some ctx)).0.state
unfolding on_event invariant_check
on_event-⟶ clock p ev ctx g v = grind (arith, edges, held, exhausted, dropped, reset)

-- What the client is told of a change of state.
abbrev pub told : Lifecycle → Lifecycle → List Effect
told Lifecycle.active Lifecycle.degraded = notify_xqc 3 ∷ []
told Lifecycle.standby Lifecycle.degraded = notify_xqc 3 ∷ []
told _ _ = []

abbrev pub fired : Event → PathEntry → PathEntry → List Effect
fired ev p q =
    if same_state p.state q.state || is_add_fd ev then [] else fire_path_event q.status ∷ []

-- A call of `path_on_event` notifies the transport exactly when an active or standby path becomes
-- degraded, and then with FROZEN (3); after that it fires the path event exactly when the state
-- changed by another event than `add_fd`, with the new public status.
pub on_event-effects :
    (clock : ℕ) (p : PathEntry) (ev : Event) (ctx : EventCtx)
    → GoodCtx ev ctx
    → let q = (on_event clock p ev (some ctx)).0 in
      (on_event clock p ev (some ctx)).1 ≡ told p.state q.state ++ fired ev p q
unfolding on_event
on_event-effects clock p ev ctx g = ground arith
