-- ===== src/Hybrid/Policy/Lanes.antt =====
-- What the checks of the configuration and the choice of a lane come to.
use mqcpn.Prelude.{
  subst, ◌⊎◌, ℕ, ◌-◌, ◌*◌, ◌/◌, ◌^◌, ◌≡◌, ◌≤◌, ◌<◌, ◌↔◌, refl, ap, sym, ◌∙◌, true, false, not, ◌&&◌,
  some, List, [], ◌==◌, if◌then◌else◌, arith, holds_below, holds_below-at, inl, inr,
}
use native.Mathlib.Nat.{div-div-eq-div-mul}
use mqcpn.Reorder.Packet.{FlowKey, Verdict, parse_l3l4}
use mqcpn.Hybrid.Cidr.{Cidr, cidr_mask, cidr_match, range_of, join_ip, tunnel_subnet_learn}
use mqcpn.Hybrid.Cidr.Range.{cidr_match_iff, eq_of_test}
use mqcpn.Hybrid.Egress.{acl_decide}
use mqcpn.Hybrid.Policy.{
  lane_tcp, lane_raw, TcpMode, HybridConfig, hybrid_config_validate, hybrid_config_sanitize,
  is_mode, is_raw_only, dst_of, classify_tcp, hybrid_classify, stream, raw_only, auto_mode, outside,
}

-- A sanitized configuration passes validation; one that passes already is left as it is, with no field named;
-- and the switch, the idle time-out and the two access lists are never touched.
pub hybrid_config_sanitize_lem :
    (cfg : HybridConfig)
    → let (cfg', names) = hybrid_config_sanitize cfg in
      (hybrid_config_validate cfg' ≡ true)
      × (hybrid_config_validate cfg ≡ true → (cfg' ≡ cfg) × (names ≡ []))
      × (cfg'.enabled ≡ cfg.enabled)
      × (cfg'.tcp_idle_timeout_sec ≡ cfg.tcp_idle_timeout_sec)
      × (cfg'.egress_allow ≡ cfg.egress_allow)
      × (cfg'.egress_deny ≡ cfg.egress_deny)
unfolding hybrid_config_sanitize hybrid_config_validate
hybrid_config_sanitize_lem cfg = (
  by_mode cfg.tcp_mode,
  λ valid. (ground (arith, valid), ground (arith, valid)),
  refl,
  refl,
  refl,
  refl,
)
  where
    by_mode :
        (m : TcpMode)
        → (is_mode (if is_mode m then m else auto_mode)
            && not ((if cfg.tcp_max_flows == 0 then 256 else cfg.tcp_max_flows) == 0)
            && not (
                (if cfg.tcp_connect_timeout_sec == 0 then 10 else cfg.tcp_connect_timeout_sec) == 0)
            && not
                ((if cfg.tcp_max_global_flows == 0 then 4096 else cfg.tcp_max_global_flows) == 0))
          ≡ true
    by_mode stream = ground arith
    by_mode raw_only = ground arith
    by_mode auto_mode = ground arith
    by_mode outside = ground arith

-- The TCP lane takes exactly the IPv4 TCP packets, under a policy that is enabled and not raw-only, whose
-- destination is outside the tunnel subnet if one was learned; UDP always goes to the datagram lane.
pub hybrid_classify-lane_tcp :
    (pol : HybridConfig) (pkt : List ℕ)
    → (hybrid_classify (some pol) pkt ≡ lane_tcp) ↔ (
        (key : FlowKey) × (parse_l3l4 pkt ≡ Verdict.tcp key)
        × (key.ip_version ≡ 4)
        × (pol.enabled ≡ true)
        × (is_raw_only pol.tcp_mode ≡ false)
        × ((pol.client_tunnel_subnet.mask ≡ 0)
            ⊎ (cidr_match pol.client_tunnel_subnet (dst_of key) ≡ false)))
unfolding hybrid_classify classify_tcp
hybrid_classify-lane_tcp pol pkt = (laned (parse_l3l4 pkt) refl, back)
  where
    laned :
        (v : Verdict)
        → parse_l3l4 pkt ≡ v
        → hybrid_classify (some pol) pkt ≡ lane_tcp
        → (key : FlowKey) × (parse_l3l4 pkt ≡ Verdict.tcp key)
          × (key.ip_version ≡ 4)
          × (pol.enabled ≡ true)
          × (is_raw_only pol.tcp_mode ≡ false)
          × ((pol.client_tunnel_subnet.mask ≡ 0)
              ⊎ (cidr_match pol.client_tunnel_subnet (dst_of key) ≡ false))
    laned (Verdict.tcp key) is h = (
      key,
      is,
      ground (arith, is, h),
      ground (arith, is, h),
      ground (arith, is, h),
      ground (arith, is, h),
    )
    laned (Verdict.udp key) is h = absurd (ground (arith, is, h))
    laned Verdict.fragment is h = absurd (ground (arith, is, h))
    laned Verdict.other is h = absurd (ground (arith, is, h))
    laned Verdict.malformed is h = absurd (ground (arith, is, h))

    back :
        ((key : FlowKey) × (parse_l3l4 pkt ≡ Verdict.tcp key)
          × (key.ip_version ≡ 4)
          × (pol.enabled ≡ true)
          × (is_raw_only pol.tcp_mode ≡ false)
          × ((pol.client_tunnel_subnet.mask ≡ 0)
              ⊎ (cidr_match pol.client_tunnel_subnet (dst_of key) ≡ false)))
        → hybrid_classify (some pol) pkt ≡ lane_tcp
    back (key, is, four, enabled, mode, inl unset) = ground (arith, is, four, enabled, mode, unset)
    back (key, is, four, enabled, mode, inr outer) = ground (arith, is, four, enabled, mode, outer)

widths : holds_below (λ k. 2 ^ k * 2 ^ (8 - k) == 256) 9 ≡ true
unfolding holds_below
widths = refl

mask_24 : cidr_mask 24 ≡ 4294967040
unfolding cidr_mask
mask_24 = refl

-- Addresses that agree in 24 bits or more agree in 24.
agree_24 :
    (prefix x y : ℕ)
    → 24 ≤ prefix
    → prefix ≤ 32
    → x / 2 ^ (32 - prefix) ≡ y / 2 ^ (32 - prefix)
    → x / 256 ≡ y / 256
agree_24 prefix x y wide le same =
    let k = 32 - prefix in
    let split : 2 ^ k * 2 ^ (8 - k) ≡ 256 =
      eq_of_test (2 ^ k * 2 ^ (8 - k)) 256
        (holds_below-at (λ k. 2 ^ k * 2 ^ (8 - k) == 256) 9 k widths (omega arith)) in
    let through =
      λ (z : ℕ). div-div-eq-div-mul z (2 ^ k) (2 ^ (8 - k)) ∙ ap (λ (d : ℕ). z / d) split in
    sym (through x) ∙ ap (λ (q : ℕ). q / 2 ^ (8 - k)) same ∙ through y

-- Client and server agree on the tunnel: for a server whose pool has a prefix of 24 bits or more, and a client
-- with an address of the pool, a target inside the pool is refused by the server whatever its lists say, and the
-- client, which learned its subnet from that address as a single host, never puts such a target on the TCP lane.
pub tunnel_targets_stay_raw :
    (base prefix a b c d : ℕ) (allow deny : List Cidr) (pol : HybridConfig) (key : FlowKey)
    → 24 ≤ prefix
    → prefix ≤ 32
    → base < 2 ^ 32
    → join_ip a b c d < 2 ^ 32
    → dst_of key < 2 ^ 32
    → cidr_match (range_of base prefix) (join_ip a b c d) ≡ true
    → cidr_match (range_of base prefix) (dst_of key) ≡ true
    → pol.client_tunnel_subnet ≡ tunnel_subnet_learn a b c d 32
    → (acl_decide (dst_of key) allow deny (range_of base prefix) ≡ false)
      × (classify_tcp (some pol) key ≡ lane_raw)
unfolding acl_decide classify_tcp tunnel_subnet_learn
tunnel_targets_stay_raw base prefix a b c d allow deny pol key wide le sb sa sd own target learned =
    let ip = join_ip a b c d in
    let dst = dst_of key in
    let same =
      (cidr_match_iff prefix base dst le sb sd).0 target
      ∙ sym ((cidr_match_iff prefix base ip le sb sa).0 own) in
    let hit : cidr_match (range_of ip 24) dst ≡ true =
      (cidr_match_iff 24 ip dst (omega arith) sa sd).1 (agree_24 prefix dst ip wide le same) in
    let seen : cidr_match pol.client_tunnel_subnet dst ≡ true =
      subst (λ (e : Cidr). cidr_match e dst ≡ true) (sym learned) hit in
    let mask : pol.client_tunnel_subnet.mask ≡ cidr_mask 24 = ap (λ (e : Cidr). e.mask) learned in
    let is : pol.client_tunnel_subnet.mask ≡ 4294967040 = mask ∙ mask_24 in
    let set : (pol.client_tunnel_subnet.mask == 0) ≡ false = ground (arith, is) in
    (ground (arith, target), ground (arith, seen, set))
