-- ===== src/FlowSched/Tests.antt =====
-- Runs of the flow hash, and its theorems at concrete packets.
use mqcpn.Prelude.{ℕ, ◌≡◌, ◌≢◌, ◌<◌, refl, true, false, List, [], ◌∷◌, ◌++◌, arith}
use mqcpn.Reorder.Packet.{FlowKey, Verdict, parse_l3l4, parse_v4}
use mqcpn.Icmp.Tests.{all_octets-Octets, zeros}
use mqcpn.FlowSched.{unpinned, flow_hash_pkt}
use mqcpn.FlowSched.Pinned.{HashFor}
use mqcpn.FlowSched.Verdicts.{flow_hash_pkt-HashFor, same_flow_same_hash}

-- A TCP segment from 10.8.0.2:5000 to 10.8.0.9:80 with the given identification.
abbrev segment : ℕ → List ℕ
segment id =
    (0x45 ∷ 0 ∷ 0 ∷ 40 ∷ 0 ∷ id ∷ 0 ∷ 0 ∷ 64 ∷ 6 ∷ 0 ∷ 0 ∷ [])
    ++ (10 ∷ 8 ∷ 0 ∷ 2 ∷ 10 ∷ 8 ∷ 0 ∷ 9 ∷ 0x13 ∷ 0x88 ∷ 0 ∷ 80 ∷ [])
    ++ zeros 16

abbrev key_of_segment : FlowKey
key_of_segment = record {
  ip_version = 4;
  proto = 6;
  src_port = 5000;
  dst_port = 80;
  src_ip = (10 ∷ 8 ∷ 0 ∷ 2 ∷ []) ++ zeros 12;
  dst_ip = (10 ∷ 8 ∷ 0 ∷ 9 ∷ []) ++ zeros 12;
}

segment_parsed : parse_l3l4 (segment 1) ≡ Verdict.tcp key_of_segment
unfolding parse_l3l4 parse_v4
segment_parsed = refl

segment_parsed_again : parse_l3l4 (segment 2) ≡ Verdict.tcp key_of_segment
unfolding parse_l3l4 parse_v4
segment_parsed_again = refl

same_flow_same_hash_example :
    (flow_hash_pkt (segment 1) true ≡ flow_hash_pkt (segment 2) false)
    × (0 < flow_hash_pkt (segment 1) true)
    × (flow_hash_pkt (segment 1) true ≢ unpinned)
same_flow_same_hash_example =
    same_flow_same_hash (segment 1) (segment 2) true false key_of_segment
      (all_octets-Octets (segment 1) refl) (all_octets-Octets (segment 2) refl) refl refl
      segment_parsed segment_parsed_again

flow_hash_pkt-HashFor_example :
    HashFor (segment 1) (flow_hash_pkt (segment 1) true) true (parse_l3l4 (segment 1))
flow_hash_pkt-HashFor_example =
    flow_hash_pkt-HashFor (segment 1) true (all_octets-Octets (segment 1) refl)
      (λ six. absurd (omega arith))
