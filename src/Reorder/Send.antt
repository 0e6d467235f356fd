-- ===== src/Reorder/Send.antt =====
-- The sender of reorder_tx.c: the table of send flows, the header that `peek` builds, and `commit`.
-- A bucket is the list of its chain. `peek` hands the flow's key on where the source hands its address on:
-- the caller commits before anything else touches the table. Ports are hashed in little-endian order.
pub mod Stamps
pub mod Numbered
pub mod Runs
pub mod Evict
pub mod Table
pub mod Counts
mod Tests
use Prim.Native.Nat.{bit_and, bit_xor}
use mqcpn.Prelude.{
  ℕ, zero, suc, ◌+◌, ◌-◌, ◌*◌, ◌/◌, Bool, true, false, not, ◌&&◌, ◌||◌, Option, none, some, List,
  [], ◌∷◌, ◌++◌, ltb, leb, ◌==◌, if◌then◌else◌, length,
}
use mqcpn.Prelude.Words.{u8, u32, u64}
use mqcpn.Reorder.Packet.{FlowKey, flow_key_eq, parse_5tuple, wire_encode}
use mqcpn.Reorder.Config.{Mode, Config, Preset, match_rule, profile_preset}

-- `mqvpn_send_flow_t`
pub record SendFlow : Type 0 where
  pub key : FlowKey
  pub next_seq : ℕ
  pub last_activity_us : ℕ
  pub reset_marks_left : ℕ
  pub eligible : Bool

-- `struct mqvpn_reorder_tx`, with the counters of `mqvpn_reorder_tx_stats_t`.
pub record Tx : Type 0 where
  pub cfg : Config
  pub hash_seed : ℕ
  pub buckets : ℕ → List SendFlow
  pub n_buckets : ℕ
  pub n_flows : ℕ
  pub flows_created : ℕ
  pub idle_evict_count : ℕ
  pub table_full_raw : ℕ

-- The loop of `pick_buckets`; 16 rounds lead from 2^4 to 2^20.
unfoldable pub grow_buckets : ℕ → ℕ → ℕ → ℕ
grow_buckets zero max_flows n = n
grow_buckets (suc rounds) max_flows n =
    let more = grow_buckets rounds max_flows (u32 (n * 2)) in
    if ltb n max_flows && ltb n 1048576 then more else n

unfoldable pub pick_buckets : ℕ → ℕ
pick_buckets max_flows = grow_buckets 16 max_flows 16

-- `mqvpn_reorder_tx_new`, with memory at hand.
unfoldable pub tx_new : Config → ℕ → Tx
tx_new cfg hash_seed = record {
  cfg = cfg;
  hash_seed = hash_seed;
  buckets = λ _. [];
  n_buckets = pick_buckets (if cfg.max_flows == 0 then 16 else cfg.max_flows);
  n_flows = 0;
  flows_created = 0;
  idle_evict_count = 0;
  table_full_raw = 0;
}

-- The bytes of a key in memory.
abbrev pub key_bytes : FlowKey → List ℕ
key_bytes k =
    k.ip_version
    ∷ k.proto
    ∷ u8 k.src_port
    ∷ (k.src_port / 256)
    ∷ u8 k.dst_port
    ∷ (k.dst_port / 256)
    ∷ (k.src_ip ++ k.dst_ip)

unfoldable pub hash_bytes : List ℕ → ℕ → ℕ
hash_bytes [] h = h
hash_bytes (b ∷ bs) h = hash_bytes bs (u64 (bit_xor h b * 1099511628211))

-- `mqvpn_flow_key_hash`
unfoldable pub flow_key_hash : FlowKey → ℕ → ℕ
flow_key_hash k seed = hash_bytes (key_bytes k) (bit_xor 14695981039346656037 seed)

-- `compute_eligible`
unfoldable pub compute_eligible : Config → FlowKey → Bool
compute_eligible cfg key = elim (match_rule cfg key) [
  | none ↦ elim cfg.rules [ [] ↦ elim cfg.mode [ Mode.off ↦ false | Mode.on ↦ true ] | _ ↦ false ]
  | some r ↦ elim (profile_preset r.profile) [ none ↦ false | some _ ↦ true ]
]

abbrev pub bucket_of : Tx → FlowKey → ℕ
bucket_of tx key = u32 (bit_and (flow_key_hash key tx.hash_seed) (tx.n_buckets - 1))

-- The loop of `table_lookup` over a chain.
unfoldable pub find_flow : List SendFlow → FlowKey → Option SendFlow
find_flow [] key = none
find_flow (f ∷ fs) key = if flow_key_eq f.key key then some f else find_flow fs key

unfoldable pub table_lookup : Tx → FlowKey → Option SendFlow
table_lookup tx key = find_flow (tx.buckets (bucket_of tx key)) key

abbrev pub set_bucket : (ℕ → List SendFlow) → ℕ → List SendFlow → ℕ → List SendFlow
set_bucket buckets b chain i = if i == b then chain else buckets i

-- A flow that may be evicted: its bucket, its place in the chain, and its last activity.
pub record Victim : Type 0 where
  pub bucket : ℕ
  pub place : ℕ
  pub last_activity_us : ℕ

abbrev pub older : SendFlow → Option Victim → Bool
older f none = true
older f (some v) = ltb f.last_activity_us v.last_activity_us

-- The inner loop of `evict_one_idle`: one chain, from a place on, with the oldest flow so far.
unfoldable pub scan_chain : ℕ → ℕ → ℕ → ℕ → List SendFlow → Option Victim → Option Victim
scan_chain now_us idle_us b place [] best = best
scan_chain now_us idle_us b place (f ∷ fs) best =
    let idle =
      ltb f.last_activity_us now_us && ltb idle_us (now_us - f.last_activity_us) && older f best in
    let here : Victim = record {
      bucket = b;
      place = place;
      last_activity_us = f.last_activity_us;
    } in
    scan_chain now_us idle_us b (place + 1) fs (if idle then some here else best)

-- Its outer loop, over the first `n` buckets.
unfoldable pub scan_buckets : ℕ → ℕ → ℕ → (ℕ → List SendFlow) → Option Victim
scan_buckets now_us idle_us zero buckets = none
scan_buckets now_us idle_us (suc n) buckets =
    scan_chain now_us idle_us n 0 (buckets n) (scan_buckets now_us idle_us n buckets)

unfoldable pub remove_at : List SendFlow → ℕ → List SendFlow
remove_at [] i = []
remove_at (f ∷ fs) zero = fs
remove_at (f ∷ fs) (suc i) = f ∷ remove_at fs i

-- `evict_one_idle`; `none` is the return value 0.
unfoldable pub evict_one_idle : ℕ → Tx → Option Tx
evict_one_idle now_us tx =
    elim (scan_buckets now_us (tx.cfg.egress_idle_timeout_sec * 1000000) tx.n_buckets tx.buckets) [
      | none ↦ none
      | some v ↦ some (record tx {
        buckets = set_bucket tx.buckets v.bucket (remove_at (tx.buckets v.bucket) v.place);
        n_flows = tx.n_flows - 1;
        idle_evict_count = tx.idle_evict_count + 1;
      })
    ]

abbrev pub new_send_flow : Tx → FlowKey → ℕ → SendFlow
new_send_flow tx key now_us = record {
  key = key;
  next_seq = 0;
  last_activity_us = now_us;
  reset_marks_left = tx.cfg.reset_mark_packets;
  eligible = compute_eligible tx.cfg key;
}

-- The end of `get_or_create`; `calloc_ok` says whether there is memory.
unfoldable pub create_flow : Bool → FlowKey → ℕ → Tx → Option SendFlow × Tx
create_flow calloc_ok key now_us tx =
    let b = bucket_of tx key in
    let f = new_send_flow tx key now_us in
    if calloc_ok
    then (
      some f,
      record tx {
        buckets = set_bucket tx.buckets b (f ∷ tx.buckets b);
        n_flows = tx.n_flows + 1;
        flows_created = tx.flows_created + 1;
      },
    )
    else (none, tx)

-- `get_or_create`; `none` is the null pointer.
unfoldable pub get_or_create : Bool → FlowKey → ℕ → Tx → Option SendFlow × Tx
get_or_create calloc_ok key now_us tx = elim (table_lookup tx key) [
  | some f ↦ (some f, tx)
  | none ↦
      if not (tx.cfg.max_flows == 0) && leb tx.cfg.max_flows tx.n_flows
      then elim (evict_one_idle now_us tx) [
        | none ↦ (none, record tx { table_full_raw = tx.table_full_raw + 1 })
        | some tx' ↦ create_flow calloc_ok key now_us tx'
      ]
      else create_flow calloc_ok key now_us tx
]

-- `mqvpn_reorder_tx_action_t`, with what `peek` writes besides.
pub data Action : Type 0 where
  raw : Action
  drop_mtu : FlowKey → Action
  stamp : FlowKey → List ℕ → Action

-- The part of `mqvpn_reorder_tx_peek` after the flow is found.
unfoldable pub peek_flow : ℕ → ℕ → Option SendFlow → Action
peek_flow len room none = Action.raw
peek_flow len room (some f) =
    if not f.eligible
    then Action.raw
    else if ltb room (8 + len)
    then Action.drop_mtu f.key
    else Action.stamp f.key (wire_encode 1 (if ltb 0 f.reset_marks_left then 1 else 0) f.next_seq)

-- `mqvpn_reorder_tx_peek`
unfoldable pub tx_peek : Bool → List ℕ → ℕ → ℕ → Tx → Action × Tx
tx_peek calloc_ok pkt now_us room tx = elim tx.cfg.mode [
  | Mode.off ↦ (Action.raw, tx)
  | Mode.on ↦ elim (parse_5tuple pkt) [
    | none ↦ (Action.raw, tx)
    | some key ↦
        let (f, tx') = get_or_create calloc_ok key now_us tx in (peek_flow (length pkt) room f, tx')
  ]
]

abbrev pub advance : ℕ → SendFlow → SendFlow
advance now_us f = record f {
  next_seq = f.next_seq + 1;
  reset_marks_left = f.reset_marks_left - 1;
  last_activity_us = now_us;
}

-- The flow of a key in its chain, advanced.
unfoldable pub advance_in : ℕ → FlowKey → List SendFlow → List SendFlow
advance_in now_us key [] = []
advance_in now_us key (f ∷ fs) =
    if flow_key_eq f.key key then advance now_us f ∷ fs else f ∷ advance_in now_us key fs

-- `mqvpn_reorder_tx_commit`
unfoldable pub tx_commit : Action → ℕ → Tx → Tx
tx_commit Action.raw now_us tx = tx
tx_commit (Action.drop_mtu key) now_us tx = tx
tx_commit (Action.stamp key header) now_us tx =
    let b = bucket_of tx key in
    record tx { buckets = set_bucket tx.buckets b (advance_in now_us key (tx.buckets b)) }
