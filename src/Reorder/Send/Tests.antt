-- ===== src/Reorder/Send/Tests.antt =====
-- Runs of the sender, and its theorems at a table of one bucket.
use mqcpn.Prelude.{
  ◌≤◌, inl, none, ltb, if◌then◌else◌, ℕ, ◌≡◌, refl, true, false, some, List, [], ◌∷◌, ◌++◌, arith,
}
use mqcpn.Reorder.Packet.{
  FlowKey, flow_key_eq, parse_5tuple, parse_l3l4, parse_v4, wire_encode, wire_decode,
}
use mqcpn.Reorder.Config.{Mode, match_rule, first_match}
use mqcpn.Reorder.Send.{
  compute_eligible, SendFlow, Tx, Action, table_lookup, find_flow, tx_new, tx_peek, remove_at,
  set_bucket, evict_one_idle, scan_buckets, scan_chain,
}
use mqcpn.Reorder.Send.Stamps.{send_all}
use mqcpn.Reorder.Send.Runs.{stamped_of, send_all-numbers}
use mqcpn.Reorder.Send.Table.{fresh, after, peeks}
use mqcpn.Reorder.Send.Counts.{total, SendReach-total, SendReach-within}
use mqcpn.Reorder.Send.Evict.{OneIdleLess, evict_one_idle-IsIdle}

-- A UDP packet of 10.0.0.1 port 5000 to 10.0.0.2 port 443, without payload.
abbrev datagram : List ℕ
datagram =
    69 ∷ 0 ∷ 0 ∷ 28 ∷ 0 ∷ 0 ∷ 0 ∷ 0 ∷ 64 ∷ 17 ∷ 0 ∷ 0 ∷ 10 ∷ 0 ∷ 0 ∷ 1 ∷ 10 ∷ 0 ∷ 0 ∷ 2 ∷ 19 ∷ 136
    ∷ 1 ∷ 187 ∷ 0 ∷ 8 ∷ 0 ∷ 0 ∷ []

abbrev web : FlowKey
web = record {
  ip_version = 4;
  proto = 17;
  src_port = 5000;
  dst_port = 443;
  src_ip = 10 ∷ 0 ∷ 0 ∷ 1 ∷ 0 ∷ 0 ∷ 0 ∷ 0 ∷ 0 ∷ 0 ∷ 0 ∷ 0 ∷ 0 ∷ 0 ∷ 0 ∷ 0 ∷ [];
  dst_ip = 10 ∷ 0 ∷ 0 ∷ 2 ∷ 0 ∷ 0 ∷ 0 ∷ 0 ∷ 0 ∷ 0 ∷ 0 ∷ 0 ∷ 0 ∷ 0 ∷ 0 ∷ 0 ∷ [];
}

parsed : parse_5tuple datagram ≡ some web
unfolding parse_5tuple parse_l3l4 parse_v4
parsed = refl

abbrev web_flow : SendFlow
web_flow = record {
  key = web;
  next_seq = 5;
  last_activity_us = 1;
  reset_marks_left = 1;
  eligible = true;
}

abbrev sender : Tx
sender = record {
  cfg = record {
    mode = Mode.on;
    max_wait_ms = 30;
    cap_packets_per_flow = 1024;
    max_buffer_bytes_per_flow = 1572864;
    classify_window = 64;
    ack_demote_max_large_packets = 3;
    small_packet_threshold_bytes = 200;
    reset_mark_packets = 8;
    reset_idle_grace_ms = 10000;
    max_flows = 1;
    global_max_buffer_bytes = 67108864;
    ingress_idle_timeout_sec = 30;
    egress_idle_timeout_sec = 300;
    eval_force_no_demotion = false;
    has_explicit_wait = false;
    has_explicit_cap = false;
    rules = [];
  };
  hash_seed = 7;
  buckets = λ _. web_flow ∷ [];
  n_buckets = 1;
  n_flows = 1;
  flows_created = 1;
  idle_evict_count = 0;
  table_full_raw = 0;
}

-- A packet of another flow: the source port is 5001.
abbrev other_datagram : List ℕ
other_datagram =
    69 ∷ 0 ∷ 0 ∷ 28 ∷ 0 ∷ 0 ∷ 0 ∷ 0 ∷ 64 ∷ 17 ∷ 0 ∷ 0 ∷ 10 ∷ 0 ∷ 0 ∷ 1 ∷ 10 ∷ 0 ∷ 0 ∷ 2 ∷ 19 ∷ 137
    ∷ 1 ∷ 187 ∷ 0 ∷ 8 ∷ 0 ∷ 0 ∷ []

-- A sender of one bucket, without a flow.
abbrev fresh_sender : Tx
fresh_sender = record sender {
  cfg = record sender.cfg { max_flows = 0 };
  buckets = λ _. [];
  n_flows = 0;
}

abbrev mixed : List (List ℕ × ℕ)
mixed = (datagram, 10) ∷ (other_datagram, 20) ∷ (datagram, 30) ∷ []

two_of_web : stamped_of web 1500 mixed ≡ 2
unfolding parse_5tuple parse_l3l4 parse_v4 flow_key_eq
two_of_web = refl

web-eligible : compute_eligible fresh_sender.cfg web ≡ true
unfolding compute_eligible match_rule first_match
web-eligible = refl

web-absent : table_lookup fresh_sender web ≡ none
unfolding table_lookup find_flow
web-absent = refl

send_all-numbers_example :
    let c = stamped_of web 1500 mixed in
    let flag : ℕ = if ltb c 8 then 1 else 0 in
    let header = wire_encode 1 flag c in
    ((tx_peek true datagram 40 1500 (send_all 1500 mixed fresh_sender)).0 ≡ Action.stamp web header)
    × (wire_decode (header ++ datagram) ≡ some (record { type = 1; flags = flag; seq = c }))
send_all-numbers_example =
    send_all-numbers 1500 mixed datagram 40 fresh_sender web refl web-eligible web-absent (inl refl)
      parsed (omega arith) (omega (arith, two_of_web))

abbrev sender_after : Tx
sender_after = record sender {
  buckets = set_bucket sender.buckets 0 [];
  n_flows = 0;
  idle_evict_count = 1;
}

evicts : evict_one_idle 400_000_000 sender ≡ some sender_after
unfolding evict_one_idle scan_buckets scan_chain remove_at
evicts = refl

evict_one_idle-IsIdle_example : OneIdleLess 400_000_000 sender sender_after
evict_one_idle-IsIdle_example = evict_one_idle-IsIdle 400_000_000 sender sender_after evicts

SendReach-total_example :
    let once = (tx_peek true datagram 10 1500 (tx_new sender.cfg 7)).1 in
    once.n_flows ≡ total once.buckets once.n_buckets
SendReach-total_example =
    SendReach-total sender.cfg 7 (tx_peek true datagram 10 1500 (tx_new sender.cfg 7)).1
      (after fresh (peeks true datagram 10 1500))

SendReach-within_example :
    let once = (tx_peek true datagram 10 1500 (tx_new sender.cfg 7)).1 in
    total once.buckets once.n_buckets ≤ 1
SendReach-within_example =
    SendReach-within sender.cfg 7 (tx_peek true datagram 10 1500 (tx_new sender.cfg 7)).1
      (omega arith) (after fresh (peeks true datagram 10 1500))
