-- ===== src/Path/Budget.antt =====
-- The retry budget: how many failures a slot may have, and how long it waits after each.
use mqcpn.Prelude.{
  ℕ, ◌+◌, ◌≡◌, ◌<◌, ◌⊎◌, refl, some, List, [], ◌∷◌, min, ltb, if◌then◌else◌, arith, length,
}
use mqcpn.Path.Entry.{Lifecycle, EventCtx, PathEntry, transient_fail, retry_timer}
use mqcpn.Path.Machine.{on_event}

-- Retry timers that go off one after another, each attempt failing in a way that may pass.
pub failing_retries : PathEntry → List (ℕ × EventCtx) → PathEntry
failing_retries p [] = p
failing_retries p ((clock, ctx) ∷ rest) =
    failing_retries (on_event clock p retry_timer (some (record ctx { result = transient_fail }))).0
      rest

abbrev Waits : PathEntry → Type 0
Waits p = (p.state ≡ Lifecycle.create_wait) ⊎ (p.state ≡ Lifecycle.degraded)

failing_step :
    (clock : ℕ) (p : PathEntry) (ctx : EventCtx)
    → Waits p
    → p.recreate_retries < 6
    → let q = (on_event clock p retry_timer (some (record ctx { result = transient_fail }))).0 in
      (q.recreate_retries ≡ p.recreate_retries + 1)
      × (q.state
          ≡ (if ltb (p.recreate_retries + 1) 6 then p.state else Lifecycle.closed_recoverable))
unfolding on_event
failing_step clock p ctx w h = ground arith

given_up_ignores :
    (p : PathEntry) (l : List (ℕ × EventCtx))
    → p.state ≡ Lifecycle.closed_recoverable
    → failing_retries p l ≡ p
unfolding failing_retries on_event
given_up_ignores p [] h = refl
given_up_ignores p ((clock, ctx) ∷ rest) h = ground (arith, given_up_ignores p rest h)

-- From a waiting slot with fewer than 6 failures, n failing retries leave it waiting in the same
-- state as long as the failures add up to less than 6, and given up from then on, whatever timers
-- still go off; the count stops at 6.
pub failing_retries_exhaust :
    (p : PathEntry) (l : List (ℕ × EventCtx))
    → Waits p
    → p.recreate_retries < 6
    → ((failing_retries p l).state
        ≡ (if ltb (p.recreate_retries + length l) 6 then p.state else Lifecycle.closed_recoverable))
      × ((failing_retries p l).recreate_retries ≡ min 6 (p.recreate_retries + length l))
unfolding failing_retries
failing_retries_exhaust p [] w h = ground arith
failing_retries_exhaust p ((clock, ctx) ∷ rest) w h =
    let q = (on_event clock p retry_timer (some (record ctx { result = transient_fail }))).0 in
    ground
      (arith, failing_step clock p ctx w h, failing_retries_exhaust q rest, given_up_ignores q rest)
