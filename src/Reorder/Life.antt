-- ===== src/Reorder/Life.antt =====
-- The life of one flow of reorder_rx.c: the part of `flow_get_or_create` that makes it, its packets, its
-- timeouts from `mqvpn_reorder_rx_tick`, and what the other flows do to the pool in between.
use mqcpn.Prelude.{
  ℕ, ◌+◌, ◌≤◌, ◌^◌, refl, false, List, [], ◌∷◌, leb, ◌&&◌, if◌then◌else◌, arith, length, if-cases,
}
use mqcpn.Reorder.Packet.{FlowKey}
use mqcpn.Reorder.Config.{Config, config_finalize, flow_cap, flow_wait}
use mqcpn.Reorder.Config.Resolve.{Checked, flow_cap-RingCap}
use mqcpn.Reorder.Ring.{ring_init, ring_empty}
use mqcpn.Reorder.Ring.View.{look}
use mqcpn.Reorder.Flow.{Stats, Flow, Work, on_gap_timeout}
use mqcpn.Reorder.Flow.Gap.{Good, on_gap_timeout_lem}
use mqcpn.Reorder.Receive.{Memory, on_reordered}
use mqcpn.Reorder.Receive.Dispatch.{on_reordered-Good}

abbrev pub zero_stats : Stats
zero_stats = record {
  delivered_count = 0;
  too_late_drop_count = 0;
  too_far_ahead_drop_count = 0;
  duplicate_drop_count = 0;
  per_flow_limit_drop_count = 0;
  pool_drop_count = 0;
  reset_discard_count = 0;
  gap_count = 0;
  gap_filled_count = 0;
  gap_timeout_count = 0;
  gap_overflow_count = 0;
  gap_demote_count = 0;
  gap_reset_count = 0;
  ack_demote_count = 0;
  residence_bucket = 0 ∷ 0 ∷ 0 ∷ 0 ∷ 0 ∷ 0 ∷ 0 ∷ 0 ∷ 0 ∷ 0 ∷ 0 ∷ 0 ∷ [];
  residence_max_us = 0;
}

-- The flow that `flow_get_or_create` makes for a key that it does not find.
unfoldable pub new_flow : Config → FlowKey → Flow
new_flow cfg key = record {
  key = key;
  expected = 0;
  initialized = false;
  buffer = ring_init (flow_cap cfg key);
  gap_timer_active = false;
  gap_deadline_us = 0;
  gap_armed_us = 0;
  wait_ms = flow_wait cfg key;
  last_seen_us = 0;
  last_progress_us = 0;
  pass_through = false;
  classify_seen = 0;
  classify_large = 0;
  stats = zero_stats;
}

-- The work on a new flow.
abbrev pub begin : Config → FlowKey → ℕ → List (List ℕ) → Work
begin cfg key used out = record {
  cfg = cfg;
  pool_bytes_used = used;
  out = out;
  flow = new_flow cfg key;
}

-- The test of `mqvpn_reorder_rx_tick` and the handler behind it.
unfoldable pub tick_flow : ℕ → Work → Work
tick_flow now_us w =
    if w.flow.gap_timer_active && leb w.flow.gap_deadline_us now_us
    then on_gap_timeout now_us w
    else w

-- What a flow goes through. The index `others` is what the other flows hold of the pool.
pub data Reach (cfg : Config) (key : FlowKey) : ℕ → Work → Type 0 where
  created :
      (used : ℕ) (out : List (List ℕ))
      → used ≤ cfg.global_max_buffer_bytes
      → Reach cfg key used (begin (config_finalize cfg) key used out)
  packet :
      (mem : Memory) (others seq flags now : ℕ) (pkt : List ℕ) (w : Work)
      → Reach cfg key others w
      → length pkt ≤ 65535
      → Reach cfg key others (on_reordered mem seq flags pkt now w)
  tick :
      (others now : ℕ) (w : Work) → Reach cfg key others w → Reach cfg key others (tick_flow now w)
  elsewhere :
      (others others' : ℕ) (out : List (List ℕ)) (w : Work)
      → Reach cfg key others w
      → others' + w.flow.buffer.bytes ≤ w.cfg.global_max_buffer_bytes
      → Reach cfg key others'
          (record w { pool_bytes_used = others' + w.flow.buffer.bytes; out = out })

pub new_flow-Good :
    (cfg : Config) (key : FlowKey) (used : ℕ) (out : List (List ℕ))
    → Checked cfg
    → cfg.global_max_buffer_bytes + 65536 ≤ 2 ^ 64
    → used ≤ cfg.global_max_buffer_bytes
    → Good used (begin (config_finalize cfg) key used out)
unfolding new_flow ring_init look ring_empty config_finalize
new_flow-Good cfg key used out c room fits =
    let (k, le, is) = flow_cap-RingCap cfg key c in
    record {
      gap = refl;
      sound = record {
        ring = record { cap_bits = k; cap_small = le; cap_is = is; shape = (refl, refl, refl) };
        pool_is = omega arith;
        pool_le = fits;
        room = room;
        count_le = omega arith;
      };
      timed = record { timer = refl; identity = refl };
      fresh = λ _. refl;
    }

pub tick_flow-Good : (others now : ℕ) (w : Work) → Good others w → Good others (tick_flow now w)
unfolding tick_flow
tick_flow-Good others now w g =
    if-cases (Good others) (w.flow.gap_timer_active && leb w.flow.gap_deadline_us now)
      (λ due. (on_gap_timeout_lem others now w g (ground (arith, due))).0) (λ _. g)

elsewhere-Good :
    (others others' : ℕ) (out : List (List ℕ)) (w : Work)
    → Good others w
    → others' + w.flow.buffer.bytes ≤ w.cfg.global_max_buffer_bytes
    → Good others' (record w { pool_bytes_used = others' + w.flow.buffer.bytes; out = out })
elsewhere-Good others others' out w g fits =
    let v = g.sound in
    let t = g.timed in
    record {
      gap = g.gap;
      sound = record {
        ring = v.ring;
        pool_is = refl;
        pool_le = fits;
        room = v.room;
        count_le = v.count_le;
      };
      timed = record { timer = t.timer; identity = t.identity };
      fresh = g.fresh;
    }

-- In every state of a flow's life, from a configuration that was checked and whose pool bound
-- leaves room in 64 bits: the ring is well formed, the number that is expected is not buffered,
-- the timer runs exactly while packets are buffered, the periods opened are those that ended in
-- one of the five ways and the one that is open, and the pool counter is the sum of the flows'
-- buffers and within the pool's bound.
pub Reach-Good :
    {cfg : Config} {key : FlowKey} {others : ℕ} {w : Work}
    → Checked cfg
    → cfg.global_max_buffer_bytes + 65536 ≤ 2 ^ 64
    → Reach cfg key others w
    → Good others w
Reach-Good c room (Reach.created used out fits) = new_flow-Good _ _ used out c room fits
Reach-Good c room (Reach.packet mem others seq flags now pkt w r small) =
    on_reordered-Good mem others seq flags pkt now w (Reach-Good c room r) small
Reach-Good c room (Reach.tick others now w r) = tick_flow-Good others now w (Reach-Good c room r)
Reach-Good c room (Reach.elsewhere others others' out w r fits) =
    elsewhere-Good others others' out w (Reach-Good c room r) fits
