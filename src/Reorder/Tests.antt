-- ===== src/Reorder/Tests.antt =====
-- Runs of the reorder engine on one flow, and its theorems at concrete states.
use Prim.Native.Nat.{bit_and}
use mqcpn.Prelude.{
  ◌+◌, ℕ, ◌≡◌, ◌<◌, refl, true, false, not, ◌&&◌, some, List, [], ◌∷◌, ◌++◌, ◌==◌, arith, length,
}
use mqcpn.Reorder.Packet.{
  FlowKey, wire_encode, wire_decode, parse_5tuple, parse_l3l4, parse_v4, inner_udp_payload_len,
}
use mqcpn.Reorder.Packet.Wire.{wire_decode-encode}
use mqcpn.Reorder.Packet.Key.{KeyOf, parse_5tuple-KeyOf}
use mqcpn.Reorder.Config.{
  Config, config_finalize, config_validate, cap_is_valid, flow_cap, on, match_rule, first_match,
}
use mqcpn.Reorder.Config.Resolve.{Checked}
use mqcpn.Reorder.Ring.{
  ring_far_ahead, ring_free, ring_init, ring_contains, ring_insert, ring_grow_to_cover, grow_want,
  rehash, ring_idx, ring_store, ring_empty, ring_remove, ring_lowest_seq, lowest_scan,
}
use mqcpn.Reorder.Flow.{
  Work, on_gap_timeout, overflow_flush, flush_buffer_for_demote, reset_reorder_flow,
  discard_buffer_for_reset, deliver_pkt, arm_gap_timer, overflow_end, skip_to_lowest_and_drain,
  drain_contiguous, drain_rounds, pool_release, record_residence, count_bucket,
}
use mqcpn.Reorder.Flow.Gap.{Good, on_gap_timeout_lem}
use mqcpn.Reorder.Flow.Discard.{flush_for_demote_lem}
use mqcpn.Reorder.Flow.Order.{Ordered}
use mqcpn.Reorder.Receive.{
  Memory, honors_reset, on_reordered, start_at, demote_if_judged, process_reorder_packet,
  process_begun, buffer_admit, would_exceed_per_flow_limits, admit_to_pool, pool_would_exhaust,
  buffer_insert_committed, classify_update, reclassify_after_flush,
}
use mqcpn.Reorder.Receive.Dispatch.{on_reordered-Good}
use mqcpn.Reorder.Receive.Epoch.{on_reordered-Ordered, on_reordered-resets}
use mqcpn.Reorder.Life.{begin, new_flow, new_flow-Good}

wire_decode-encode_example :
    wire_decode (wire_encode 1 1 70000 ++ (69 ∷ []))
    ≡ some (record { type = 1; flags = 1; seq = 70000 })
wire_decode-encode_example =
    wire_decode-encode 1 1 70000 (69 ∷ []) (omega arith) (omega arith) (omega arith)

-- A UDP packet from 10.0.0.1 port 5000 to 10.0.0.2 port 443, with no payload.
abbrev udp_packet : List ℕ
udp_packet =
    69 ∷ 0 ∷ 0 ∷ 28 ∷ 0 ∷ 0 ∷ 0 ∷ 0 ∷ 64 ∷ 17 ∷ 0 ∷ 0 ∷ 10 ∷ 0 ∷ 0 ∷ 1 ∷ 10 ∷ 0 ∷ 0 ∷ 2 ∷ 19 ∷ 136
    ∷ 1 ∷ 187 ∷ 0 ∷ 8 ∷ 0 ∷ 0 ∷ []

abbrev quic : FlowKey
quic = record {
  ip_version = 4;
  proto = 17;
  src_port = 5000;
  dst_port = 443;
  src_ip = 10 ∷ 0 ∷ 0 ∷ 1 ∷ 0 ∷ 0 ∷ 0 ∷ 0 ∷ 0 ∷ 0 ∷ 0 ∷ 0 ∷ 0 ∷ 0 ∷ 0 ∷ 0 ∷ [];
  dst_ip = 10 ∷ 0 ∷ 0 ∷ 2 ∷ 0 ∷ 0 ∷ 0 ∷ 0 ∷ 0 ∷ 0 ∷ 0 ∷ 0 ∷ 0 ∷ 0 ∷ 0 ∷ 0 ∷ [];
}

parses : parse_5tuple udp_packet ≡ some quic
unfolding parse_5tuple parse_l3l4 parse_v4
parses = refl

parse_5tuple-KeyOf_example : KeyOf udp_packet 17 quic
parse_5tuple-KeyOf_example = parse_5tuple-KeyOf udp_packet quic parses

-- Waits 50 ms, holds at most 8 packets and 5 bytes per flow.
abbrev small_config : Config
small_config = record {
  mode = on;
  max_wait_ms = 50;
  cap_packets_per_flow = 8;
  max_buffer_bytes_per_flow = 5;
  classify_window = 64;
  ack_demote_max_large_packets = 3;
  small_packet_threshold_bytes = 200;
  reset_mark_packets = 8;
  reset_idle_grace_ms = 10000;
  max_flows = 4;
  global_max_buffer_bytes = 100;
  ingress_idle_timeout_sec = 30;
  egress_idle_timeout_sec = 300;
  eval_force_no_demotion = false;
  has_explicit_wait = false;
  has_explicit_cap = false;
  rules = [];
}

small_config-Checked : Checked small_config
unfolding config_validate cap_is_valid
small_config-Checked = record { valid = refl; fits = omega arith; rules_fit = omega arith }

abbrev memory : Memory
memory = record { malloc_ok = true; calloc_ok = true }

-- The packet of each number: its bytes start with the number.
abbrev content : ℕ → List ℕ
content s = s ∷ []

abbrev at_start : Work
at_start = begin (config_finalize small_config) quic 0 []

at_start-Good : Good 0 at_start
at_start-Good =
    new_flow-Good small_config quic 0 [] small_config-Checked (omega arith) (omega arith)

-- After packet 0, and after packet 2, which is ahead.
abbrev after_0 : Work
after_0 = on_reordered memory 0 1 (content 0) 100 at_start

abbrev after_2 : Work
after_2 = on_reordered memory 2 0 (content 2) 200 after_0

after_0-Good : Good 0 after_0
after_0-Good = on_reordered-Good memory 0 0 1 (content 0) 100 at_start at_start-Good (omega arith)

on_reordered-Good_example : Good 0 after_2
on_reordered-Good_example =
    on_reordered-Good memory 0 2 0 (content 2) 200 after_0 after_0-Good (omega arith)

reset_honored : (not (bit_and 1 1 == 0) && honors_reset at_start 100) ≡ true
unfolding honors_reset new_flow
reset_honored = refl

after_0_begun : (after_0.flow.initialized ≡ true) × (after_0.flow.pass_through ≡ false)
unfolding on_reordered honors_reset start_at reset_reorder_flow discard_buffer_for_reset deliver_pkt
    new_flow
after_0_begun = (refl, refl)

not_reset : (not (bit_and 0 1 == 0) && honors_reset after_0 200) ≡ false
not_reset = refl

after_0-Ordered : Ordered content [] after_0
after_0-Ordered = on_reordered-resets memory content 0 1 100 at_start reset_honored

on_reordered-Ordered_example : Ordered content [] after_2
on_reordered-Ordered_example =
    on_reordered-Ordered memory content [] 0 2 0 200 after_0 after_0-Good after_0-Ordered
      after_0_begun.0 after_0_begun.1 not_reset (omega arith)

after_2-Good : Good 0 after_2
after_2-Good = on_reordered-Good memory 0 2 0 (content 2) 200 after_0 after_0-Good (omega arith)

after_2-Ordered : Ordered content [] after_2
after_2-Ordered =
    on_reordered-Ordered memory content [] 0 2 0 200 after_0 after_0-Good after_0-Ordered
      after_0_begun.0 after_0_begun.1 not_reset (omega arith)

armed : after_2.flow.gap_timer_active ≡ true
unfolding on_reordered honors_reset start_at reset_reorder_flow discard_buffer_for_reset deliver_pkt
    new_flow demote_if_judged process_reorder_packet process_begun ring_far_ahead ring_free
    ring_init flow_cap match_rule first_match config_finalize buffer_admit ring_contains
    would_exceed_per_flow_limits admit_to_pool pool_would_exhaust buffer_insert_committed
    ring_insert ring_grow_to_cover grow_want rehash ring_idx ring_store ring_empty arm_gap_timer
    classify_update inner_udp_payload_len
armed = refl

on_gap_timeout_lem_example :
    Good 0 (on_gap_timeout 50200 after_2)
    × ((on_gap_timeout 50200 after_2).flow.buffer.count < after_2.flow.buffer.count)
    × (length (on_gap_timeout 50200 after_2).out + (on_gap_timeout 50200 after_2).flow.buffer.count
        ≡ length after_2.out + after_2.flow.buffer.count)
    × ((on_gap_timeout 50200 after_2).flow.stats.delivered_count
          + (on_gap_timeout 50200 after_2).flow.buffer.count
        ≡ after_2.flow.stats.delivered_count + after_2.flow.buffer.count)
on_gap_timeout_lem_example = on_gap_timeout_lem 0 50200 after_2 after_2-Good armed

flush_for_demote_lem_example :
    Good 0 (flush_buffer_for_demote 300 after_2)
    × ((flush_buffer_for_demote 300 after_2).flow.buffer.count ≡ 0)
    × ((flush_buffer_for_demote 300 after_2).cfg ≡ after_2.cfg)
flush_for_demote_lem_example = flush_for_demote_lem 0 300 after_2 after_2-Good

-- A flow of 5 bytes at most: after the flush for packet 5 only packet 2 has gone, yet packet 5 is stored.
abbrev crowded : Work
crowded =
    on_reordered memory 5 0 (5 ∷ 0 ∷ 0 ∷ 0 ∷ []) 400
      (on_reordered memory 4 0 (4 ∷ 0 ∷ 0 ∷ 0 ∷ []) 300 after_2)

over_byte_limit : crowded.flow.buffer.bytes ≡ 8
unfolding on_reordered honors_reset start_at reset_reorder_flow discard_buffer_for_reset deliver_pkt
    new_flow demote_if_judged process_reorder_packet process_begun ring_far_ahead ring_free
    ring_init flow_cap match_rule first_match config_finalize buffer_admit ring_contains
    would_exceed_per_flow_limits admit_to_pool pool_would_exhaust buffer_insert_committed
    ring_insert ring_grow_to_cover grow_want rehash ring_idx ring_store ring_empty arm_gap_timer
    classify_update inner_udp_payload_len overflow_flush overflow_end skip_to_lowest_and_drain
    drain_contiguous drain_rounds ring_remove ring_lowest_seq lowest_scan reclassify_after_flush
    pool_release record_residence count_bucket
over_byte_limit = refl
