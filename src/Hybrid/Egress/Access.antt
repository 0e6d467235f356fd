-- ===== src/Hybrid/Egress/Access.antt =====
-- The decision of the access list, in terms of addresses.
use mqcpn.Prelude.{
  ℕ, ◌-◌, ◌/◌, ◌^◌, ◌≡◌, ◌≢◌, ◌≤◌, ◌<◌, ◌↔◌, ◌⊎◌, true, false, List, arith, Bool-cases, inl, inr,
}
use mqcpn.Hybrid.Cidr.{Cidr, cidr_mask, cidr_match, range_of}
use mqcpn.Hybrid.Cidr.Range.{cidr_match_iff}
use mqcpn.Hybrid.Egress.{default_deny_v4, any_match, acl_decide}

-- The special ranges: 0/8, 127/8, 10/8, 172.16/12, 192.168/16, 169.254/16, 100.64/10, and 224/3.
abbrev pub Special : ℕ → Type 0
Special ip =
    (ip / 16777216 ≡ 0)
    ⊎ (ip / 16777216 ≡ 127)
    ⊎ (ip / 16777216 ≡ 10)
    ⊎ (ip / 1048576 ≡ 2753)
    ⊎ (ip / 65536 ≡ 49320)
    ⊎ (ip / 65536 ≡ 43518)
    ⊎ (ip / 4194304 ≡ 401)
    ⊎ (14 ≤ ip / 268435456)

module _ (ip : ℕ) (word : ip < 2 ^ 32) where
  row :
      (prefix base : ℕ)
      → prefix ≤ 32
      → base < 2 ^ 32
      → (cidr_match (range_of base prefix) ip ≡ true)
        ↔ (ip / 2 ^ (32 - prefix) ≡ base / 2 ^ (32 - prefix))
  row prefix base le small = cidr_match_iff prefix base ip le small word

  -- The built-in rows cover exactly the special ranges.
  pub default_deny_iff : (any_match default_deny_v4 ip ≡ true) ↔ Special ip
  unfolding any_match cidr_mask
  default_deny_iff =
      let this_network = row 8 0x00000000 (omega arith) (omega arith) in
      let loopback = row 8 0x7F000000 (omega arith) (omega arith) in
      let private_8 = row 8 0x0A000000 (omega arith) (omega arith) in
      let private_12 = row 12 0xAC100000 (omega arith) (omega arith) in
      let private_16 = row 16 0xC0A80000 (omega arith) (omega arith) in
      let link_local = row 16 0xA9FE0000 (omega arith) (omega arith) in
      let shared = row 10 0x64400000 (omega arith) (omega arith) in
      let multicast = row 4 0xE0000000 (omega arith) (omega arith) in
      let reserved = row 4 0xF0000000 (omega arith) (omega arith) in
      let broadcast = row 32 0xFFFFFFFF (omega arith) (omega arith) in
      (
        λ hit. ground (
          arith, hit, this_network, loopback, private_8, private_12, private_16, link_local, shared,
          multicast, reserved, broadcast,
        ),
        λ special. ground (
          arith, special, this_network, loopback, private_8, private_12, private_16, link_local,
          shared, multicast, reserved, broadcast,
        ),
      )

  -- A target may be reached exactly if it is outside the tunnel's subnet, and either a row of the allow list
  -- matches it, or it is in no special range and no row of the deny list matches it.
  pub acl_decide_iff :
      (allow deny : List Cidr) (base prefix : ℕ)
      → prefix ≤ 32
      → base < 2 ^ 32
      → (acl_decide ip allow deny (range_of base prefix) ≡ true) ↔ (
          (ip / 2 ^ (32 - prefix) ≢ base / 2 ^ (32 - prefix))
          × ((any_match allow ip ≡ true) ⊎ ((¬ Special ip) × (any_match deny ip ≡ false))))
  unfolding acl_decide
  acl_decide_iff allow deny base prefix le small =
      let tunnel = cidr_match_iff prefix base ip le small word in
      let special = default_deny_iff in
      let t = cidr_match (range_of base prefix) ip in
      let s = any_match default_deny_v4 ip in
      (
        λ open_to. (
          λ inside. absurd (ground (arith, open_to, tunnel.1 inside)),
          elim (Bool-cases (any_match allow ip)) [
            | inl allowed ↦ inl allowed
            | inr not_allowed ↦ inr (
              λ in_special. absurd (ground (arith, open_to, not_allowed, special.1 in_special)),
              ground (arith, open_to, not_allowed),
            )
          ],
        ),
        λ reachable. elim (Bool-cases t) [
          | inl inside ↦ absurd (reachable.0 (tunnel.0 inside))
          | inr clear ↦ elim reachable.1 [
            | inl allowed ↦ ground (arith, clear, allowed)
            | inr (ordinary, not_denied) ↦ elim (Bool-cases s) [
              | inl is_special ↦ absurd (ordinary (special.0 is_special))
              | inr is_ordinary ↦ ground (arith, clear, is_ordinary, not_denied)
            ]
          ]
        ],
      )
