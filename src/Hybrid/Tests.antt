-- ===== src/Hybrid/Tests.antt =====
-- Runs of the hybrid code, and its theorems at concrete packets, ranges and paths.
use mqcpn.Prelude.{
  ℕ, ◌-◌, ◌/◌, ◌^◌, ◌≡◌, ◌≢◌, ◌↔◌, ◌⊎◌, refl, true, false, some, List, [], ◌∷◌, arith,
}
use mqcpn.Prelude.Text.{split_at}
use mqcpn.Reorder.Packet.{FlowKey, parse_l3l4, parse_v4}
use mqcpn.Hybrid.Cidr.{cidr_match, cidr_mask, range_of, join_ip, tunnel_subnet_learn}
use mqcpn.Hybrid.Policy.{
  HybridConfig, lane_tcp, lane_raw, dst_of, classify_tcp, hybrid_classify, hybrid_config_default,
  stream, outside,
}
use mqcpn.Hybrid.Policy.Lanes.{tunnel_targets_stay_raw}
use mqcpn.Hybrid.Egress.{any_match, acl_decide, parse_path, port_digits}
use mqcpn.Hybrid.Egress.Access.{Special, acl_decide_iff}
use mqcpn.Hybrid.Egress.Target.{NoSlash, path_of, parse_path-path_of}

abbrev broken : HybridConfig
broken = record hybrid_config_default { tcp_mode = outside; tcp_max_flows = 0 }

-- 127.0.0.1, with nothing on the lists and the tunnel 10.8.0.0/24.
acl_decide_iff_example : (acl_decide 0x7F000001 [] [] (range_of 0x0A080000 24) ≡ true) ↔ (
    (0x7F000001 / 2 ^ (32 - 24) ≢ 0x0A080000 / 2 ^ (32 - 24))
    × ((any_match [] 0x7F000001 ≡ true)
        ⊎ ((¬ Special 0x7F000001) × (any_match [] 0x7F000001 ≡ false))))
acl_decide_iff_example =
    acl_decide_iff 0x7F000001 (omega arith) [] [] 0x0A080000 24 (omega arith) (omega arith)

-- The key of a TCP packet from 10.8.0.5 to 10.8.x.7.
abbrev to_peer : ℕ → FlowKey
to_peer x = record {
  ip_version = 4;
  proto = 6;
  src_port = 5000;
  dst_port = 80;
  src_ip = 10 ∷ 8 ∷ 0 ∷ 5 ∷ [];
  dst_ip = 10 ∷ 8 ∷ x ∷ 7 ∷ [];
}

abbrev client_policy : HybridConfig
client_policy = record hybrid_config_default {
  enabled = true;
  tcp_mode = stream;
  client_tunnel_subnet = tunnel_subnet_learn 10 8 0 5 32;
}

own_address : cidr_match (range_of 0x0A080000 24) (join_ip 10 8 0 5) ≡ true
unfolding cidr_match cidr_mask
own_address = refl

peer_address : cidr_match (range_of 0x0A080000 24) (dst_of (to_peer 0)) ≡ true
unfolding cidr_match cidr_mask
peer_address = refl

tunnel_targets_stay_raw_example :
    (acl_decide (dst_of (to_peer 0)) [] [] (range_of 0x0A080000 24) ≡ false)
    × (classify_tcp (some client_policy) (to_peer 0) ≡ lane_raw)
tunnel_targets_stay_raw_example =
    tunnel_targets_stay_raw 0x0A080000 24 10 8 0 5 [] [] client_policy (to_peer 0) (omega arith)
      (omega arith) (omega arith) (omega arith) (omega arith) own_address peer_address refl

-- A pool of 16 bits is wider than the 24 that the client assumes: a peer in another block of it is put on the
-- TCP lane, where the server refuses it.
wide_pool_refused :
    (classify_tcp (some client_policy) (to_peer 1) ≡ lane_tcp)
    × (acl_decide (dst_of (to_peer 1)) [] [] (range_of 0x0A080000 16) ≡ false)
unfolding classify_tcp cidr_match cidr_mask tunnel_subnet_learn acl_decide
wide_pool_refused = (refl, refl)

-- A TCP packet of 20 bytes behind an IPv4 header of 20.
abbrev segment : List ℕ
segment =
    69 ∷ 0 ∷ 0 ∷ 40 ∷ 0 ∷ 0 ∷ 0 ∷ 0 ∷ 64 ∷ 6 ∷ 0 ∷ 0 ∷ 10 ∷ 8 ∷ 0 ∷ 5 ∷ 1 ∷ 1 ∷ 1 ∷ 1 ∷ 19 ∷ 136 ∷ 0
    ∷ 80 ∷ 0 ∷ 0 ∷ 0 ∷ 0 ∷ 0 ∷ 0 ∷ 0 ∷ 0 ∷ 80 ∷ 2 ∷ 0 ∷ 0 ∷ 0 ∷ 0 ∷ 0 ∷ 0 ∷ []

segment_laned : hybrid_classify (some client_policy) segment ≡ lane_tcp
unfolding hybrid_classify classify_tcp parse_l3l4 parse_v4 cidr_match cidr_mask tunnel_subnet_learn
segment_laned = refl

-- The host "1.1.1.1".
abbrev one_host : List ℕ
one_host = 49 ∷ 46 ∷ 49 ∷ 46 ∷ 49 ∷ 46 ∷ 49 ∷ []

read_back : parse_path 64 (path_of one_host 443) ≡ some (one_host, 443)
unfolding parse_path split_at port_digits
read_back = refl

parse_path-path_of_example : parse_path 64 (path_of one_host 443) ≡ some (one_host, 443)
parse_path-path_of_example =
    parse_path-path_of 64 one_host 443 (omega arith) (omega arith) plain (omega arith) (omega arith)
  where
    plain : NoSlash one_host
    plain = omega arith
