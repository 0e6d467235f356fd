-- ===== src/Reorder/Receiver/Tests.antt =====
-- Runs of the receiver with room for one flow, and its theorems at the states they lead to.
use mqcpn.Prelude.{
  if◌then◌else◌, ◌*◌, ℕ, ◌≡◌, refl, true, false, some, List, [], ◌∷◌, ◌++◌, arith, ltb,
}
use mqcpn.Reorder.Packet.{
  wire_encode, flow_key_eq, inner_udp_payload_len, parse_5tuple, parse_l3l4, parse_v4, wire_decode,
}
use mqcpn.Reorder.Config.{
  Config, on, cap_is_valid, config_finalize, config_validate, first_match, flow_cap, flow_wait,
  match_rule,
}
use mqcpn.Reorder.Config.Resolve.{Checked}
use mqcpn.Reorder.Flow.Sound.{ended}
use mqcpn.Reorder.Receive.{
  Memory, admit_to_pool, buffer_admit, buffer_insert_committed, classify_update, demote_if_judged,
  honors_reset, on_reordered, pool_would_exhaust, process_begun, process_reorder_packet, start_at,
  would_exceed_per_flow_limits,
}
use mqcpn.Reorder.Receiver.{
  rx_new, Rx, empty_rx, rx_on_packet, rx_tick, rx_get_stats, evict_lru_flow, add_buckets_of,
  add_chain, create_rx_flow, find_in_chain, flow_destroy, flow_get_or_create, flow_lookup,
  lru_buckets, lru_chain, on_inner, packet_to_flow, put_in_chain, stats_accumulate, tick_buckets,
}
use mqcpn.Reorder.Buckets.{EachBelow}
use mqcpn.Reorder.Receiver.Sweep.{awake_of}
use mqcpn.Reorder.Receiver.Tick.{Awake, rx_tick_lem}
use mqcpn.Reorder.Receiver.Tidy.{Tidy}
use mqcpn.Reorder.Receiver.Evict.{Evicted, evict_lru_flow_lem}
use mqcpn.Reorder.Receiver.Reach.{RxReach, started, then_step, RxStep, RxReach-Tidy}
use mqcpn.Reorder.Flow.{
  arm_gap_timer, count_bucket, deliver_pkt, discard_slots, pool_release, record_residence,
}
use mqcpn.Reorder.Ring.{
  grow_want, rehash, ring_contains, ring_empty, ring_far_ahead, ring_grow_to_cover, ring_idx,
  ring_init, ring_insert, ring_store,
}
use mqcpn.Reorder.Life.{new_flow}
use mqcpn.Reorder.Send.{flow_key_hash, hash_bytes}

-- A UDP packet of 10.0.0.1 from a port to 10.0.0.2 port 443, without payload.
abbrev from_port : ℕ → List ℕ
from_port port =
    69 ∷ 0 ∷ 0 ∷ 28 ∷ 0 ∷ 0 ∷ 0 ∷ 0 ∷ 64 ∷ 17 ∷ 0 ∷ 0 ∷ 10 ∷ 0 ∷ 0 ∷ 1 ∷ 10 ∷ 0 ∷ 0 ∷ 2 ∷ 0 ∷ port
    ∷ 1 ∷ 187 ∷ 0 ∷ 8 ∷ 0 ∷ 0 ∷ []

abbrev numbered : ℕ → ℕ → List ℕ
numbered seq port = wire_encode 1 0 seq ++ from_port port

abbrev one_flow : Config
one_flow = record {
  mode = on;
  max_wait_ms = 50;
  cap_packets_per_flow = 8;
  max_buffer_bytes_per_flow = 1000;
  classify_window = 64;
  ack_demote_max_large_packets = 3;
  small_packet_threshold_bytes = 200;
  reset_mark_packets = 8;
  reset_idle_grace_ms = 10000;
  max_flows = 1;
  global_max_buffer_bytes = 100;
  ingress_idle_timeout_sec = 30;
  egress_idle_timeout_sec = 300;
  eval_force_no_demotion = false;
  has_explicit_wait = false;
  has_explicit_cap = false;
  rules = [];
}

one_flow-Checked : Checked one_flow
unfolding config_validate cap_is_valid
one_flow-Checked = record { valid = refl; fits = omega arith; rules_fit = omega arith }

abbrev memory : Memory
memory = record { malloc_ok = true; calloc_ok = true }

abbrev receive : ℕ → ℕ → ℕ → Rx → Rx
receive seq port = rx_on_packet true memory (numbered seq port)

-- Packets 0 and 2 of one flow: the second waits for packet 1.
abbrev waiting : Rx
waiting = receive 2 10 200 (receive 0 10 100 (empty_rx one_flow 7))

-- Then a packet of another flow, which takes the only place.
abbrev replaced : Rx
replaced = receive 0 11 300 waiting

waiting_holds : (waiting.n_flows ≡ 1) × (waiting.pool_bytes_used ≡ 28)
unfolding rx_on_packet on_inner flow_get_or_create flow_lookup find_in_chain create_rx_flow
    packet_to_flow put_in_chain flow_key_hash hash_bytes wire_decode wire_encode parse_5tuple
    parse_l3l4 parse_v4 flow_wait match_rule first_match config_finalize flow_key_eq new_flow
    flow_cap ring_init on_reordered honors_reset start_at process_reorder_packet process_begun
    buffer_admit admit_to_pool buffer_insert_committed would_exceed_per_flow_limits
    pool_would_exhaust classify_update inner_udp_payload_len demote_if_judged ring_insert
    ring_grow_to_cover grow_want rehash ring_idx ring_store ring_empty ring_far_ahead ring_contains
    deliver_pkt record_residence count_bucket arm_gap_timer
waiting_holds = (refl, refl)

-- The lifetime totals then have a gap that was opened and never ended, and no flow still waits.
cut_off :
    ((rx_get_stats replaced).gap_count ≡ 1)
    × (ended (rx_get_stats replaced) ≡ 0)
    × (replaced.pool_bytes_used ≡ 0)
unfolding rx_on_packet on_inner flow_get_or_create flow_lookup find_in_chain create_rx_flow
    packet_to_flow put_in_chain flow_key_hash hash_bytes wire_decode wire_encode parse_5tuple
    parse_l3l4 parse_v4 flow_wait match_rule first_match config_finalize flow_key_eq new_flow
    flow_cap ring_init on_reordered honors_reset start_at process_reorder_packet process_begun
    buffer_admit admit_to_pool buffer_insert_committed would_exceed_per_flow_limits
    pool_would_exhaust classify_update inner_udp_payload_len demote_if_judged ring_insert
    ring_grow_to_cover grow_want rehash ring_idx ring_store ring_empty ring_far_ahead ring_contains
    deliver_pkt record_residence count_bucket arm_gap_timer evict_lru_flow lru_buckets lru_chain
    flow_destroy stats_accumulate discard_slots pool_release rx_get_stats add_buckets_of add_chain
cut_off = (refl, refl, refl)

new_receiver : rx_new one_flow 7 ≡ some (empty_rx one_flow 7)
unfolding rx_new config_validate cap_is_valid
new_receiver = refl

waiting_reached : RxReach one_flow 7 waiting
waiting_reached =
    then_step (then_step (started new_receiver) (RxStep.datagram true memory (numbered 0 10) 100))
      (RxStep.datagram true memory (numbered 2 10) 200)

RxReach-Tidy_example : Tidy waiting
RxReach-Tidy_example = RxReach-Tidy one_flow-Checked (omega arith) waiting_reached

waiting-Tidy : Tidy waiting
waiting-Tidy = RxReach-Tidy one_flow-Checked (omega arith) waiting_reached

evict_lru_flow_lem_example : Evicted waiting (evict_lru_flow waiting)
evict_lru_flow_lem_example =
    evict_lru_flow_lem waiting waiting-Tidy (omega (arith, waiting_holds.0))

rx_tick_lem_example :
    Tidy (rx_tick 40_000_000 waiting)
    × ((rx_tick 40_000_000 waiting).cfg ≡ waiting.cfg)
    × EachBelow
        (Awake 40_000_000 (waiting.cfg.ingress_idle_timeout_sec * 1000000))
        (rx_tick 40_000_000 waiting).buckets
        (rx_tick 40_000_000 waiting).n_buckets
    × ((b : ℕ)
        → let fired = (tick_buckets 40_000_000 waiting.n_buckets waiting).buckets b in
          (rx_tick 40_000_000 waiting).buckets b ≡ (
            if ltb b waiting.n_buckets
            then awake_of 40_000_000 (waiting.cfg.ingress_idle_timeout_sec * 1000000) fired
            else fired))
rx_tick_lem_example = rx_tick_lem 40_000_000 waiting waiting-Tidy
