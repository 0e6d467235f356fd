-- ===== src/Reorder/Flow.antt =====
-- The receiver's work on one flow, reorder_rx.c: timers, deliveries, the drain and the flushes.
-- `Work` is the receiver with the flow in hand. `out` lists the delivered packets, the last one first.
-- Counters and sequence numbers are not cut at 2^64; the pool counter is.
pub mod Sound
pub mod Skip
pub mod Gap
pub mod Discard
pub mod Order
use mqcpn.Prelude.{
  ℕ, zero, suc, ◌+◌, ◌-◌, ◌*◌, Bool, true, false, not, ◌&&◌, Option, none, some, List, [], ◌∷◌, ltb,
  leb, ◌==◌, if◌then◌else◌,
}
use mqcpn.Prelude.Words.{u64}
use mqcpn.Reorder.Packet.{FlowKey}
use mqcpn.Reorder.Config.{Config}
use mqcpn.Reorder.Ring.Array.{Slot, is_occupied}
use mqcpn.Reorder.Ring.{Ring, Taken, ring_empty, ring_free, ring_remove, ring_lowest_seq}

-- `mqvpn_reorder_stats_t`
pub record Stats : Type 0 where
  pub delivered_count : ℕ
  pub too_late_drop_count : ℕ
  pub too_far_ahead_drop_count : ℕ
  pub duplicate_drop_count : ℕ
  pub per_flow_limit_drop_count : ℕ
  pub pool_drop_count : ℕ
  pub reset_discard_count : ℕ
  pub gap_count : ℕ
  pub gap_filled_count : ℕ
  pub gap_timeout_count : ℕ
  pub gap_overflow_count : ℕ
  pub gap_demote_count : ℕ
  pub gap_reset_count : ℕ
  pub ack_demote_count : ℕ
  pub residence_bucket : List ℕ
  pub residence_max_us : ℕ

-- `mqvpn_reorder_flow_t`
pub record Flow : Type 0 where
  pub key : FlowKey
  pub expected : ℕ
  pub initialized : Bool
  pub buffer : Ring
  pub gap_timer_active : Bool
  pub gap_deadline_us : ℕ
  pub gap_armed_us : ℕ
  pub wait_ms : ℕ
  pub last_seen_us : ℕ
  pub last_progress_us : ℕ
  pub pass_through : Bool
  pub classify_seen : ℕ
  pub classify_large : ℕ
  pub stats : Stats

pub record Work : Type 0 where
  pub cfg : Config
  pub pool_bytes_used : ℕ
  pub out : List (List ℕ)
  pub flow : Flow

-- Changes to the flow, and to its counters.
abbrev pub on_flow : (Flow → Flow) → Work → Work
on_flow g w = record w { flow = g w.flow }

abbrev pub on_stats : (Stats → Stats) → Work → Work
on_stats g w = record w { flow = record w.flow { stats = g w.flow.stats } }

unfoldable pub arm_gap_timer : ℕ → Flow → Flow
arm_gap_timer now_us f = record f {
  gap_timer_active = true;
  gap_armed_us = now_us;
  gap_deadline_us = u64 (now_us + f.wait_ms * 1000);
}

unfoldable pub stop_gap_timer : Flow → Flow
stop_gap_timer f = record f { gap_timer_active = false }

-- `reorder_lat_bound_us` without its last entry, which is never compared with.
abbrev lat_bounds : List ℕ
lat_bounds = 0 ∷ 1000 ∷ 2000 ∷ 4000 ∷ 8000 ∷ 16000 ∷ 32000 ∷ 64000 ∷ 128000 ∷ 256000 ∷ 512000 ∷ []

-- The bucket that a residence time falls in is counted up: the first whose bound is not exceeded.
unfoldable pub count_bucket : ℕ → List ℕ → List ℕ → List ℕ
count_bucket residence_us bounds [] = []
count_bucket residence_us [] (n ∷ ns) = (n + 1) ∷ ns
count_bucket residence_us (b ∷ bs) (n ∷ ns) =
    let rest = n ∷ count_bucket residence_us bs ns in
    if ltb b residence_us then rest else (n + 1) ∷ ns

unfoldable pub record_residence : ℕ → ℕ → Stats → Stats
record_residence now_us enq_us st =
    let residence_us = if ltb enq_us now_us then now_us - enq_us else 0 in
    record st {
      residence_bucket = count_bucket residence_us lat_bounds st.residence_bucket;
      residence_max_us =
          if ltb st.residence_max_us residence_us then residence_us else st.residence_max_us;
    }

-- `deliver_pkt`; the callback only sees the packet.
unfoldable pub deliver_pkt : List ℕ → ℕ → ℕ → Work → Work
deliver_pkt pkt now_us enq_us w =
    let st = w.flow.stats in
    record w {
      out = pkt ∷ w.out;
      flow = record w.flow {
        stats =
            record_residence now_us enq_us (record st { delivered_count = st.delivered_count + 1 });
      };
    }

-- What `pool_release` leaves of the pool counter.
unfoldable pub pool_release : ℕ → ℕ → ℕ
pool_release len used = if leb len used then used - len else 0

-- One round of the loop of `drain_contiguous`, with what `ring_remove` gave.
abbrev pub drain_one : ℕ → Taken → Ring → Work → Work
drain_one now_us t q w =
    let w1 = deliver_pkt t.pkt now_us t.enqueue_us w in
    record w1 {
      pool_bytes_used = pool_release t.len w1.pool_bytes_used;
      flow = record w1.flow { buffer = q; expected = w1.flow.expected + 1 };
    }

-- At most `rounds` rounds of the loop. One round takes one packet, so the ring's count is enough.
unfoldable pub drain_rounds : ℕ → ℕ → Work → Work
drain_rounds zero now_us w = w
drain_rounds (suc rounds) now_us w = elim (ring_remove w.flow.buffer w.flow.expected) [
  | none ↦ w
  | some (t, q) ↦ drain_rounds rounds now_us (drain_one now_us t q w)
]

unfoldable pub drain_contiguous : ℕ → Work → Work
drain_contiguous now_us w = drain_rounds w.flow.buffer.count now_us w

-- The jump of `skip_to_lowest_and_drain`
abbrev pub jump : ℕ → Flow → Flow
jump lowest f = record f { expected = if ltb f.expected lowest then lowest else f.expected }

unfoldable pub skip_to_lowest_and_drain : ℕ → Work → Work
skip_to_lowest_and_drain now_us w =
    let lowest = ring_lowest_seq w.flow.buffer w.flow.expected in
    let w1 = drain_contiguous now_us (on_flow (jump lowest) w) in
    on_flow (λ f. record f { last_progress_us = now_us }) w1

-- The end of `on_gap_timeout`
unfoldable pub timeout_end : ℕ → Work → Work
timeout_end now_us w =
    if ring_empty w.flow.buffer
    then on_flow stop_gap_timer w
    else on_stats (λ st. record st { gap_count = st.gap_count + 1 })
        (on_flow (arm_gap_timer now_us) w)

unfoldable pub on_gap_timeout : ℕ → Work → Work
on_gap_timeout now_us w =
    let counted = on_stats (λ st. record st { gap_timeout_count = st.gap_timeout_count + 1 }) w in
    if ring_empty w.flow.buffer
    then on_flow stop_gap_timer w
    else timeout_end now_us (skip_to_lowest_and_drain now_us counted)

-- The end of `overflow_flush`
unfoldable pub overflow_end : Bool → Work → Work
overflow_end was_armed w =
    let count = λ (st : Stats). record st { gap_overflow_count = st.gap_overflow_count + 1 } in
    if ring_empty w.flow.buffer
    then on_flow stop_gap_timer (if was_armed then on_stats count w else w)
    else w

unfoldable pub overflow_flush : ℕ → Work → Work
overflow_flush now_us w = overflow_end w.flow.gap_timer_active (skip_to_lowest_and_drain now_us w)

-- The loop of `discard_buffer_for_reset` over the first `n` slots: the pool counter and the number of
-- packets that it drops.
unfoldable pub discard_slots : ℕ → (ℕ → Slot) → ℕ × ℕ → ℕ × ℕ
discard_slots zero slots (used, dropped) = (used, dropped)
discard_slots (suc n) slots (used, dropped) =
    let (used', dropped') = discard_slots n slots (used, dropped) in
    if is_occupied (slots n)
    then (pool_release (slots n).len used', dropped' + 1)
    else (used', dropped')

abbrev pub discard_all : Ring → ℕ → ℕ × ℕ
discard_all r used = elim r.slots [
  | none ↦ (used, 0)
  | some slots ↦ discard_slots r.size slots (used, 0)
]

unfoldable pub discard_buffer_for_reset : Work → Work
discard_buffer_for_reset w =
    let st = w.flow.stats in
    let (used, dropped) = discard_all w.flow.buffer w.pool_bytes_used in
    record w {
      pool_bytes_used = used;
      flow = record (stop_gap_timer w.flow) {
        buffer = ring_free w.flow.buffer;
        stats = record st {
          gap_reset_count = st.gap_reset_count + (if w.flow.gap_timer_active then 1 else 0);
          reset_discard_count = st.reset_discard_count + dropped;
        };
      };
    }

unfoldable pub reset_reorder_flow : Work → Work
reset_reorder_flow w =
    on_flow (λ f. record f { pass_through = false; classify_seen = 0; classify_large = 0 })
      (discard_buffer_for_reset w)

-- The loop of `flush_buffer_for_demote`. One round takes a packet, so the ring's count is enough.
unfoldable pub flush_rounds : ℕ → ℕ → Work → Work
flush_rounds zero now_us w = w
flush_rounds (suc rounds) now_us w = elim (ring_empty w.flow.buffer) [
  | true ↦ w
  | false ↦
      let lowest = ring_lowest_seq w.flow.buffer w.flow.expected in
      flush_rounds rounds now_us
        (drain_contiguous now_us (on_flow (λ f. record f { expected = lowest }) w))
]

unfoldable pub flush_buffer_for_demote : ℕ → Work → Work
flush_buffer_for_demote now_us w =
    let charge = if w.flow.gap_timer_active then 1 else 0 in
    let counted =
      on_stats (λ st. record st { gap_demote_count = st.gap_demote_count + charge }) w in
    on_flow
      (λ f. record (stop_gap_timer f) { last_progress_us = now_us; buffer = ring_free f.buffer })
      (flush_rounds w.flow.buffer.count now_us counted)
