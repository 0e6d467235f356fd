-- ===== src/Reorder/Receiver.antt =====
-- The receiver of reorder_rx.c: its table of flows, `mqvpn_reorder_rx_on_packet`, the tick with its idle
-- sweep, eviction, and the lifetime statistics. A bucket is the list of its chain. A handler gets the flow
-- as `Work` and the changed flow is written back to its chain. `out` is what the callback got, the last
-- packet first.
pub mod Tidy
pub mod Evict
pub mod Packets
pub mod Sweep
pub mod Tick
pub mod Reach
pub mod Counters
pub mod Totals
mod Tests
use Prim.Native.Nat.{bit_and}
use mqcpn.Prelude.{
  ℕ, zero, suc, ◌+◌, ◌-◌, ◌*◌, Bool, true, false, not, ◌&&◌, ◌||◌, Option, none, some, List, [],
  ◌∷◌, ltb, leb, ◌==◌, if◌then◌else◌, length, drop,
}
use mqcpn.Prelude.Words.{u32}
use mqcpn.Reorder.Packet.{FlowKey, Header, flow_key_eq, parse_5tuple, wire_decode}
use mqcpn.Reorder.Config.{Config, Rule, config_finalize, config_validate, flow_wait}
use mqcpn.Reorder.Buckets.{replace, unlink, entry}
use mqcpn.Reorder.Flow.{Stats, Flow, Work, discard_all, on_gap_timeout}
use mqcpn.Reorder.Receive.{Memory, on_reordered}
use mqcpn.Reorder.Life.{zero_stats, new_flow, tick_flow}
use mqcpn.Reorder.Send.{flow_key_hash}

-- `struct mqvpn_reorder_rx`
pub record Rx : Type 0 where
  pub cfg : Config
  pub hash_seed : ℕ
  pub buckets : ℕ → List Flow
  pub n_buckets : ℕ
  pub n_flows : ℕ
  pub pool_bytes_used : ℕ
  pub evicted_stats : Stats
  pub out : List (List ℕ)

-- The receiver that `mqvpn_reorder_rx_new` fills in.
abbrev pub empty_rx : Config → ℕ → Rx
empty_rx cfg hash_seed = record {
  cfg = config_finalize cfg;
  hash_seed = hash_seed;
  buckets = λ _. [];
  n_buckets = 1024;
  n_flows = 0;
  pool_bytes_used = 0;
  evicted_stats = zero_stats;
  out = [];
}

-- `mqvpn_reorder_rx_new` with memory at hand; `none` is the null pointer.
unfoldable pub rx_new : Config → ℕ → Option Rx
rx_new cfg hash_seed = if config_validate cfg then some (empty_rx cfg hash_seed) else none

-- The buckets of the histogram, added up.
abbrev pub add_buckets : List ℕ → List ℕ → List ℕ
add_buckets [] ys = []
add_buckets (x ∷ xs) [] = x ∷ xs
add_buckets (x ∷ xs) (y ∷ ys) = (x + y) ∷ add_buckets xs ys

-- `mqvpn_reorder_stats_accumulate`
unfoldable pub stats_accumulate : Stats → Stats → Stats
stats_accumulate dst src = record {
  delivered_count = dst.delivered_count + src.delivered_count;
  too_late_drop_count = dst.too_late_drop_count + src.too_late_drop_count;
  too_far_ahead_drop_count = dst.too_far_ahead_drop_count + src.too_far_ahead_drop_count;
  duplicate_drop_count = dst.duplicate_drop_count + src.duplicate_drop_count;
  per_flow_limit_drop_count = dst.per_flow_limit_drop_count + src.per_flow_limit_drop_count;
  pool_drop_count = dst.pool_drop_count + src.pool_drop_count;
  reset_discard_count = dst.reset_discard_count + src.reset_discard_count;
  gap_count = dst.gap_count + src.gap_count;
  gap_filled_count = dst.gap_filled_count + src.gap_filled_count;
  gap_timeout_count = dst.gap_timeout_count + src.gap_timeout_count;
  gap_overflow_count = dst.gap_overflow_count + src.gap_overflow_count;
  gap_demote_count = dst.gap_demote_count + src.gap_demote_count;
  gap_reset_count = dst.gap_reset_count + src.gap_reset_count;
  ack_demote_count = dst.ack_demote_count + src.ack_demote_count;
  residence_bucket = add_buckets dst.residence_bucket src.residence_bucket;
  residence_max_us =
      if ltb dst.residence_max_us src.residence_max_us
      then src.residence_max_us
      else dst.residence_max_us;
}

abbrev pub rx_bucket_of : Rx → FlowKey → ℕ
rx_bucket_of rx key = u32 (bit_and (flow_key_hash key rx.hash_seed) (rx.n_buckets - 1))

-- The loop of `flow_lookup` over a chain.
unfoldable pub find_in_chain : List Flow → FlowKey → Option Flow
find_in_chain [] key = none
find_in_chain (f ∷ fs) key = if flow_key_eq f.key key then some f else find_in_chain fs key

unfoldable pub flow_lookup : Rx → FlowKey → Option Flow
flow_lookup rx key = find_in_chain (rx.buckets (rx_bucket_of rx key)) key

-- `flow_destroy`: the buffered bytes go back to the pool, the counters into the lifetime totals.
unfoldable pub flow_destroy : Flow → Rx → Rx
flow_destroy f rx = record rx {
  pool_bytes_used = (discard_all f.buffer rx.pool_bytes_used).0;
  evicted_stats = stats_accumulate rx.evicted_stats f.stats;
}

-- Where the scan of `evict_lru_flow` last found a flow that made no later progress.
pub record Oldest : Type 0 where
  pub bucket : ℕ
  pub place : ℕ
  pub flow : Flow

-- Before the first find, `oldest` is the largest 64-bit time.
abbrev pub no_later : Flow → Option Oldest → Bool
no_later f none = true
no_later f (some o) = leb f.last_progress_us o.flow.last_progress_us

unfoldable pub lru_chain : ℕ → ℕ → List Flow → Option Oldest → Option Oldest
lru_chain b place [] best = best
lru_chain b place (f ∷ fs) best =
    let here : Oldest = record { bucket = b; place = place; flow = f } in
    lru_chain b (place + 1) fs (if no_later f best then some here else best)

unfoldable pub lru_buckets : ℕ → (ℕ → List Flow) → Option Oldest
lru_buckets zero buckets = none
lru_buckets (suc n) buckets = lru_chain n 0 (buckets n) (lru_buckets n buckets)

unfoldable pub evict_lru_flow : Rx → Rx
evict_lru_flow rx = elim (lru_buckets rx.n_buckets rx.buckets) [
  | none ↦ rx
  | some o ↦
      let unlinked = record rx {
        buckets = replace rx.buckets o.bucket (unlink (rx.buckets o.bucket) o.place);
      } in
      let destroyed = flow_destroy o.flow unlinked in
      record destroyed { n_flows = destroyed.n_flows - 1 }
]

-- The end of `flow_get_or_create`; `calloc_ok` says whether there is memory.
unfoldable pub create_rx_flow : Bool → FlowKey → Rx → Option Flow × Rx
create_rx_flow calloc_ok key rx =
    let b = rx_bucket_of rx key in
    let f = new_flow rx.cfg key in
    if calloc_ok
    then (
      some f,
      record rx { buckets = replace rx.buckets b (f ∷ rx.buckets b); n_flows = rx.n_flows + 1 },
    )
    else (none, rx)

unfoldable pub flow_get_or_create : Bool → FlowKey → Rx → Option Flow × Rx
flow_get_or_create calloc_ok key rx = elim (flow_lookup rx key) [
  | some f ↦ (some f, rx)
  | none ↦
      let full = ltb 0 rx.cfg.max_flows && leb rx.cfg.max_flows rx.n_flows in
      create_rx_flow calloc_ok key (if full then evict_lru_flow rx else rx)
]

-- The receiver with one flow in hand, and with what the work on the flow made of it.
abbrev pub work_on : Rx → Flow → Work
work_on rx f = record { cfg = rx.cfg; pool_bytes_used = rx.pool_bytes_used; out = rx.out; flow = f }

-- The flow of a key in its chain, changed in place.
unfoldable pub put_in_chain : FlowKey → Flow → List Flow → List Flow
put_in_chain key f' [] = []
put_in_chain key f' (f ∷ fs) = if flow_key_eq f.key key then f' ∷ fs else f ∷ put_in_chain key f' fs

abbrev pub put_back : FlowKey → Rx → Work → Rx
put_back key rx w =
    let b = rx_bucket_of rx key in
    record rx {
      pool_bytes_used = w.pool_bytes_used;
      out = w.out;
      buckets = replace rx.buckets b (put_in_chain key w.flow (rx.buckets b));
    }

abbrev pub has_no_rules : List Rule → Bool
has_no_rules [] = true
has_no_rules (r ∷ rs) = false

-- The end of `mqvpn_reorder_rx_on_packet`, with what `flow_get_or_create` gave.
unfoldable pub packet_to_flow : Memory → FlowKey → Header → List ℕ → ℕ → Option Flow × Rx → Rx
packet_to_flow mem key h inner now_us (none, rx) = rx
packet_to_flow mem key h inner now_us (some f, rx) =
    put_back key rx (on_reordered mem h.seq h.flags inner now_us (work_on rx f))

-- `mqvpn_reorder_rx_on_packet` for a reorder datagram with a packet inside; `flow_ok` says whether there
-- is memory for a new flow.
unfoldable pub on_inner : Bool → Memory → Header → List ℕ → ℕ → Rx → Rx
on_inner flow_ok mem h inner now_us rx =
    let passed = record rx { out = inner ∷ rx.out } in
    if rx.cfg.max_wait_ms == 0 && has_no_rules rx.cfg.rules
    then passed
    else elim (parse_5tuple inner) [
      | none ↦ rx
      | some key ↦
          if flow_wait rx.cfg key == 0
          then passed
          else packet_to_flow mem key h inner now_us (flow_get_or_create flow_ok key rx)
    ]

unfoldable pub rx_on_packet : Bool → Memory → List ℕ → ℕ → Rx → Rx
rx_on_packet flow_ok mem payload now_us rx = elim (wire_decode payload) [
  | none ↦ rx
  | some h ↦
      let inner = drop 8 payload in
      if not (h.type == 1)
      then rx
      else if length inner == 0 || ltb 65535 (length inner)
      then rx
      else on_inner flow_ok mem h inner now_us rx
]

-- The first loops of `mqvpn_reorder_rx_tick`: the timeouts of one chain, and of the first `n` buckets.
unfoldable pub tick_chain : ℕ → List Flow → Rx → List Flow × Rx
tick_chain now_us [] rx = ([], rx)
tick_chain now_us (f ∷ fs) rx =
    let w = tick_flow now_us (work_on rx f) in
    let rx1 = record rx { pool_bytes_used = w.pool_bytes_used; out = w.out } in
    let rest = tick_chain now_us fs rx1 in (w.flow ∷ rest.0, rest.1)

unfoldable pub tick_buckets : ℕ → ℕ → Rx → Rx
tick_buckets now_us zero rx = rx
tick_buckets now_us (suc n) rx =
    let rx1 = tick_buckets now_us n rx in
    let (chain, rx2) = tick_chain now_us (rx1.buckets n) rx1 in
    record rx2 { buckets = replace rx2.buckets n chain }

abbrev pub is_idle : ℕ → ℕ → Flow → Bool
is_idle now_us idle_us f =
    ltb f.last_progress_us now_us && ltb idle_us (now_us - f.last_progress_us)

-- The idle sweep: one chain, and the first `n` buckets.
unfoldable pub sweep_chain : ℕ → ℕ → List Flow → Rx → List Flow × Rx
sweep_chain now_us idle_us [] rx = ([], rx)
sweep_chain now_us idle_us (f ∷ fs) rx =
    let idle = is_idle now_us idle_us f in
    let gone = flow_destroy f rx in
    let rest =
      sweep_chain now_us idle_us fs
        (if idle then record gone { n_flows = gone.n_flows - 1 } else rx) in
    (if idle then rest.0 else f ∷ rest.0, rest.1)

unfoldable pub sweep_buckets : ℕ → ℕ → ℕ → Rx → Rx
sweep_buckets now_us idle_us zero rx = rx
sweep_buckets now_us idle_us (suc n) rx =
    let rx1 = sweep_buckets now_us idle_us n rx in
    let (chain, rx2) = sweep_chain now_us idle_us (rx1.buckets n) rx1 in
    record rx2 { buckets = replace rx2.buckets n chain }

unfoldable pub rx_tick : ℕ → Rx → Rx
rx_tick now_us rx =
    let fired = tick_buckets now_us rx.n_buckets rx in
    sweep_buckets now_us (rx.cfg.ingress_idle_timeout_sec * 1000000) rx.n_buckets fired

-- The loops of `mqvpn_reorder_rx_get_stats`
unfoldable pub add_chain : List Flow → Stats → Stats
add_chain [] st = st
add_chain (f ∷ fs) st = add_chain fs (stats_accumulate st f.stats)

unfoldable pub add_buckets_of : ℕ → (ℕ → List Flow) → Stats → Stats
add_buckets_of zero buckets st = st
add_buckets_of (suc n) buckets st = add_chain (buckets n) (add_buckets_of n buckets st)

unfoldable pub rx_get_stats : Rx → Stats
rx_get_stats rx = add_buckets_of rx.n_buckets rx.buckets rx.evicted_stats

-- `mqvpn_reorder_rx_set_force_no_demotion`
unfoldable pub rx_set_force_no_demotion : Bool → Rx → Rx
rx_set_force_no_demotion force rx = record rx {
  cfg = record rx.cfg { eval_force_no_demotion = force };
}
