-- ===== src/Path/Timers.antt =====
-- path_state_machine.c: the per-tick timers of a slot.
use mqcpn.Prelude.{
  ◌≤◌, ◌<◌, ◌≡◌, ◌⊎◌, arith, ℕ, ◌+◌, Bool, true, false, not, ◌&&◌, ◌||◌, ltb, ◌==◌, if◌then◌else◌,
}
use mqcpn.Prelude.Words.{u64, sub64}
use mqcpn.Path.Entry.{Lifecycle, PathStatus, PathEntry, same_state}

abbrev pub stable_threshold_us : ℕ
stable_threshold_us = 30_000_000

-- `path_fsm_tick_confirm_stable`
unfoldable pub tick_confirm_stable : PathEntry → ℕ → PathEntry
tick_confirm_stable p now =
    if not (same_state p.state Lifecycle.active) && not (same_state p.state Lifecycle.standby)
    then p
    else if p.path_stable_since_us == 0
        || not p.xquic_path_live
        || ltb (sub64 now p.path_stable_since_us) stable_threshold_us
    then p
    else record p { recreate_retries = 0; path_stable_since_us = now }

abbrev pub pending_warn_us : ℕ
pending_warn_us = 30_000_000

abbrev pub degraded_grace_us : ℕ
degraded_grace_us = 60_000_000

abbrev residence_anchor : PathEntry → ℕ
residence_anchor p =
    if not (p.last_residence_warn_at_us == 0)
    then p.last_residence_warn_at_us
    else p.state_entered_at_us

-- The `switch` of `path_should_warn_residence`, over the time since the anchor.
unfoldable pub warns_in : PathStatus → PathEntry → ℕ → ℕ → Bool
warns_in PathStatus.pending p now since = ltb pending_warn_us since
warns_in PathStatus.degraded p now since =
    not (p.recreate_after_us == 0)
    && ltb (u64 (p.recreate_after_us + degraded_grace_us)) now
    && ltb degraded_grace_us since
warns_in _ p now since = false

-- `path_should_warn_residence`
unfoldable pub should_warn_residence : PathEntry → ℕ → Bool
unfolding warns_in
should_warn_residence p now =
    if p.state_entered_at_us == 0
    then false
    else warns_in p.status p now (sub64 now (residence_anchor p))

-- After a warning is stamped on a slot, the slot does not warn again within 30 seconds (clocks
-- below 2^64).
pub residence-is_quiet :
    (p : PathEntry) (now later : ℕ)
    → 0 < now
    → now ≤ later
    → later ≤ now + 30_000_000
    → later < 18446744073709551616
    → should_warn_residence (record p { last_residence_warn_at_us = now }) later ≡ false
unfolding should_warn_residence
residence-is_quiet p now later pos le soon fits = warns_in-is_quiet p.status
  where
    q : PathEntry
    q = record p { last_residence_warn_at_us = now }

    warns_in-is_quiet :
        (s : PathStatus)
        → (if p.state_entered_at_us == 0
            then false
            else warns_in s q later (sub64 later (residence_anchor q)))
          ≡ false
    warns_in-is_quiet PathStatus.pending = ground arith
    warns_in-is_quiet PathStatus.degraded = ground arith
    warns_in-is_quiet PathStatus.active = ground arith
    warns_in-is_quiet PathStatus.standby = ground arith
    warns_in-is_quiet PathStatus.closed = ground arith

-- A tick changes a slot only by giving its retries back; then it is an active or standby slot
-- whose path is live and has been stable for 30 seconds, and a tick within the next 30 seconds
-- changes nothing (clocks below 2^64).
pub tick_confirm_stable-waits :
    (p : PathEntry) (now later : ℕ)
    → 0 < now
    → now ≤ later
    → later < now + 30_000_000
    → later < 18446744073709551616
    → let q = tick_confirm_stable p now in
      (q ≡ p)
      ⊎ ((q.recreate_retries ≡ 0)
          × (q.state ≡ p.state)
          × ((p.state ≡ Lifecycle.active) ⊎ (p.state ≡ Lifecycle.standby))
          × (p.xquic_path_live ≡ true)
          × (stable_threshold_us ≤ sub64 now p.path_stable_since_us)
          × (tick_confirm_stable q later ≡ q))
unfolding tick_confirm_stable
tick_confirm_stable-waits p now later pos le soon fits = ground arith
