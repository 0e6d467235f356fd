-- ===== src/Reorder/Receiver/Tidy.antt =====
-- The receiver's invariant, and what a change of one chain does to it.
use mqcpn.Prelude.{
  ℕ, ◌+◌, ◌-◌, ◌≡◌, ◌≤◌, ◌<◌, refl, ap, sym, subst, ◌∙◌, false, not, List, none, arith,
}
use mqcpn.Prelude.Bits.{bit_and_le}
use mqcpn.Reorder.Packet.{FlowKey}
use mqcpn.Reorder.Config.{Config, flow_cap}
use mqcpn.Reorder.Config.Resolve.{RingCap}
use mqcpn.Reorder.Ring.{ring_empty, ring_init}
use mqcpn.Reorder.Ring.View.{look, Inv}
use mqcpn.Reorder.Flow.{Flow, Work}
use mqcpn.Reorder.Flow.Sound.{ended}
use mqcpn.Reorder.Flow.Gap.{Good, open_periods}
use mqcpn.Reorder.Life.{new_flow}
use mqcpn.Reorder.Send.{flow_key_hash}
use mqcpn.Reorder.Buckets.{
  replace, table_total, chain_total, Each, EachBelow, table_total-replace, EachBelow-replace,
}
use mqcpn.Reorder.Receiver.{Rx, rx_bucket_of}

-- What holds of a flow between packets, whatever the rest of the receiver does.
pub record Healthy (f : Flow) : Type 0 where
  pub gap : look f.buffer f.expected ≡ none
  pub ring : Inv f.expected f.buffer
  pub count_le : f.buffer.count ≤ f.buffer.cap
  pub timer : f.gap_timer_active ≡ not (ring_empty f.buffer)
  pub identity : f.stats.gap_count ≡ ended f.stats + open_periods f
  pub fresh : f.initialized ≡ false → f.buffer.count ≡ 0

abbrev pub bytes_of : Flow → ℕ
bytes_of f = f.buffer.bytes

abbrev pub one : Flow → ℕ
one f = 1

-- The table, the counter of flows and the pool counter agree, within the limits of the configuration.
pub record Tidy (rx : Rx) : Type 0 where
  pub has_buckets : 0 < rx.n_buckets
  pub room : rx.cfg.global_max_buffer_bytes + 65536 ≤ 18446744073709551616
  pub caps : (key : FlowKey) → RingCap (flow_cap rx.cfg key)
  pub pool_is : rx.pool_bytes_used ≡ table_total bytes_of rx.buckets rx.n_buckets
  pub pool_le : rx.pool_bytes_used ≤ rx.cfg.global_max_buffer_bytes
  pub flows_is : rx.n_flows ≡ table_total one rx.buckets rx.n_buckets
  pub flows_le : 0 < rx.cfg.max_flows → rx.n_flows ≤ rx.cfg.max_flows
  pub healthy : EachBelow Healthy rx.buckets rx.n_buckets
  pub books : ended rx.evicted_stats ≤ rx.evicted_stats.gap_count

-- A flow taken in hand, beside the `others`' share of the pool, and put down again.
pub Healthy-Good :
    (others : ℕ) (w : Work)
    → Healthy w.flow
    → w.cfg.global_max_buffer_bytes + 65536 ≤ 18446744073709551616
    → w.pool_bytes_used ≡ others + w.flow.buffer.bytes
    → w.pool_bytes_used ≤ w.cfg.global_max_buffer_bytes
    → Good others w
Healthy-Good others w h room pool_is pool_le = record {
  gap = h.gap;
  sound = record {
    ring = h.ring;
    pool_is = pool_is;
    pool_le = pool_le;
    room = room;
    count_le = h.count_le;
  };
  timed = record { timer = h.timer; identity = h.identity };
  fresh = h.fresh;
}

pub Good-Healthy : (others : ℕ) (w : Work) → Good others w → Healthy w.flow
Good-Healthy others w g = record {
  gap = g.gap;
  ring = g.sound.ring;
  count_le = g.sound.count_le;
  timer = g.timed.timer;
  identity = g.timed.identity;
  fresh = g.fresh;
}

pub new_flow-Healthy :
    (cfg : Config) (key : FlowKey) → RingCap (flow_cap cfg key) → Healthy (new_flow cfg key)
unfolding new_flow ring_init look ring_empty
new_flow-Healthy cfg key (k, le, is) = record {
  gap = refl;
  ring = record { cap_bits = k; cap_small = le; cap_is = is; shape = (refl, refl, refl) };
  count_le = omega arith;
  timer = refl;
  identity = refl;
  fresh = λ _. refl;
}

pub rx_bucket_of-within :
    (rx : Rx) (key : FlowKey) → 0 < rx.n_buckets → rx_bucket_of rx key < rx.n_buckets
rx_bucket_of-within rx key pos =
    omega (arith, bit_and_le (flow_key_hash key rx.hash_seed) (rx.n_buckets - 1))

-- One chain was exchanged for another, with its share of the two counters.
pub record Exchange (rx rx' : Rx) (b : ℕ) (chain : List Flow) : Type 0 where
  pub cfg : rx'.cfg ≡ rx.cfg
  pub n_buckets : rx'.n_buckets ≡ rx.n_buckets
  pub buckets : rx'.buckets ≡ replace rx.buckets b chain
  pub within : b < rx.n_buckets
  pub pool :
      rx'.pool_bytes_used + chain_total bytes_of (rx.buckets b)
      ≡ rx.pool_bytes_used + chain_total bytes_of chain
  pub pool_le : rx'.pool_bytes_used ≤ rx.cfg.global_max_buffer_bytes
  pub flows : rx'.n_flows + chain_total one (rx.buckets b) ≡ rx.n_flows + chain_total one chain
  pub flows_le : 0 < rx.cfg.max_flows → rx'.n_flows ≤ rx.cfg.max_flows
  pub books : ended rx'.evicted_stats ≤ rx'.evicted_stats.gap_count

module _ {rx rx' : Rx} {b : ℕ} {chain : List Flow} where
  table_total-after :
      (m : Flow → ℕ)
      → Exchange rx rx' b chain
      → table_total m rx'.buckets rx'.n_buckets
        ≡ table_total m (replace rx.buckets b chain) rx.n_buckets
  table_total-after m x =
      ap (λ (bs : ℕ → List Flow). table_total m bs rx'.n_buckets) x.buckets
      ∙ ap (table_total m (replace rx.buckets b chain)) x.n_buckets

  pub Exchange-Tidy : Exchange rx rx' b chain → Tidy rx → Each Healthy chain → Tidy rx'
  Exchange-Tidy x t each =
      let max_bytes : rx'.cfg.global_max_buffer_bytes ≡ rx.cfg.global_max_buffer_bytes =
        ap (λ (c : Config). c.global_max_buffer_bytes) x.cfg in
      let max_flows : rx'.cfg.max_flows ≡ rx.cfg.max_flows =
        ap (λ (c : Config). c.max_flows) x.cfg in
      let bytes = table_total-replace bytes_of rx.buckets b chain rx.n_buckets x.within in
      let flows = table_total-replace one rx.buckets b chain rx.n_buckets x.within in
      let kept = EachBelow-replace Healthy rx.buckets b chain rx.n_buckets t.healthy each in
      record {
        has_buckets = omega (arith, x.n_buckets, t.has_buckets);
        room = omega (arith, max_bytes, t.room);
        caps =
            subst (λ (c : Config). (key : FlowKey) → RingCap (flow_cap c key)) (sym x.cfg) t.caps;
        pool_is = omega (arith, bytes, table_total-after bytes_of x, x.pool, t.pool_is);
        pool_le = omega (arith, max_bytes, x.pool_le);
        flows_is = omega (arith, flows, table_total-after one x, x.flows, t.flows_is);
        flows_le = λ limit. omega (arith, max_flows, x.flows_le (omega (arith, max_flows, limit)));
        healthy =
            subst (λ (bs : ℕ → List Flow). EachBelow Healthy bs rx'.n_buckets) (sym x.buckets)
              (subst (EachBelow Healthy (replace rx.buckets b chain)) (sym x.n_buckets) kept);
        books = x.books;
      }
