-- ===== src/Reorder/Packet/Key.antt =====
-- What the parser of inner packets guarantees, and the equality of flow keys.
use Prim.Native.Nat.{bit_and, bit_or}
use mathlib.Core.Option.{some-injective}
use mqcpn.Prelude.{
  length-take, length-drop, length-append, if-both, ◌/◌, ℕ, zero, suc, ◌+◌, ◌*◌, ◌≡◌, ◌↔◌, ◌⊎◌, ◌≤◌,
  refl, subst, true, false, not, ◌&&◌, ◌||◌, Option, none, some, List, ◌++◌, ltb, ◌==◌, arith,
  if◌then◌else◌, length, inl, inr, take, drop, same_bytes_refl, same_bytes-eq, if-cases,
}
use mqcpn.Reorder.Packet.{
  FlowKey, Verdict, byte_at, port_at, by_proto, l4_min, twelve_zeros, flow_key_eq, parse_v4,
  walk_v6, parse_l3l4, parse_5tuple,
}

-- `mqvpn_flow_key_eq` holds of equal keys and of no others.
pub flow_key_eq_iff : (a b : FlowKey) → (flow_key_eq a b ≡ true) ↔ (a ≡ b)
unfolding flow_key_eq
flow_key_eq_iff a b = (
  λ h. ground (arith, same_bytes-eq a.src_ip b.src_ip, same_bytes-eq a.dst_ip b.dst_ip, h),
  λ h.
      subst (λ x. flow_key_eq a x ≡ true) h
        (ground (arith, same_bytes_refl a.src_ip, same_bytes_refl a.dst_ip)),
)

-- The bytes of the shortest header of a protocol: 20 for TCP, 8 for UDP.
abbrev pub header_bytes : ℕ → ℕ
header_bytes proto = if proto == 6 then 20 else 8

-- A key of an inner packet: the packet holds the network header, of at least 20 or 40 bytes, with the transport
-- header behind it, and the ports stand at the start of the latter.
pub record KeyOf (pkt : List ℕ) (proto : ℕ) (key : FlowKey) : Type 0 where
  pub network_bytes : ℕ
  pub version :
      ((key.ip_version ≡ 4)
        × (network_bytes ≡ bit_and (byte_at pkt 0) 15 * 4)
        × (20 ≤ network_bytes))
      ⊎ ((key.ip_version ≡ 6) × (40 ≤ network_bytes))
  pub room : network_bytes + header_bytes proto ≤ length pkt
  pub proto_is : key.proto ≡ proto
  pub src_len : length key.src_ip ≡ 16
  pub dst_len : length key.dst_ip ≡ 16
  pub src_port : key.src_port ≡ port_at pkt network_bytes
  pub dst_port : key.dst_port ≡ port_at pkt (network_bytes + 2)

-- What a verdict says of the packet.
abbrev pub Sound : List ℕ → Verdict → Type 0
Sound pkt (Verdict.udp key) = KeyOf pkt 17 key
Sound pkt (Verdict.tcp key) = KeyOf pkt 6 key
Sound pkt Verdict.fragment = 1 ≤ length pkt
Sound pkt Verdict.other = 1 ≤ length pkt
Sound pkt Verdict.malformed = 0 ≤ length pkt

module _ (pkt : List ℕ) (off proto : ℕ) (long : 40 ≤ length pkt) (far : 40 ≤ off)
    (l4 : (proto == 17 || proto == 6) ≡ true)
    (fits : ltb (length pkt) (off + l4_min proto) ≡ false) where
  v6_key-KeyOf : KeyOf pkt proto (record {
    ip_version = 6;
    proto = proto;
    src_port = port_at pkt off;
    dst_port = port_at pkt (off + 2);
    src_ip = take 16 (drop 8 pkt);
    dst_ip = take 16 (drop 24 pkt);
  })
  v6_key-KeyOf = record {
    network_bytes = off;
    version = inr (refl, far);
    room = ground (arith, fits);
    proto_is = refl;
    src_len = length-take 16 (drop 8 pkt) (omega (arith, length-drop 8 pkt));
    dst_len = length-take 16 (drop 24 pkt) (omega (arith, length-drop 24 pkt));
    src_port = refl;
    dst_port = refl;
  }

by_proto-Sound :
    (pkt : List ℕ) (proto : ℕ) (key : FlowKey)
    → (proto == 17 || proto == 6) ≡ true
    → KeyOf pkt proto key
    → Sound pkt (by_proto proto key)
by_proto-Sound pkt proto key l4 k =
    if-cases (Sound pkt) (proto == 6) (λ is. subst (λ p. KeyOf pkt p key) (ground (arith, is)) k)
      (λ isnt. subst (λ p. KeyOf pkt p key) (ground (arith, isnt, l4)) k)

walk_v6-Sound :
    (rounds : ℕ) (pkt : List ℕ) (next off : ℕ)
    → 40 ≤ length pkt
    → 40 ≤ off
    → Sound pkt (walk_v6 rounds pkt next off)
unfolding walk_v6
walk_v6-Sound zero pkt next off long far = omega arith
walk_v6-Sound (suc rounds) pkt next off long far =
    let P = Sound pkt in
    let ext_bytes = (byte_at pkt (off + 1) + 1) * 8 in
    let rest = walk_v6-Sound rounds pkt (byte_at pkt off) (off + ext_bytes) long (omega arith) in
    if-cases P (next == 17 || next == 6)
      (λ l4.
        if-cases P (ltb (length pkt) (off + l4_min next)) (λ _. omega arith)
          (λ fits. by_proto-Sound pkt next _ l4 (v6_key-KeyOf pkt off next long far l4 fits)))
      (λ _. if-both P (next == 44) (omega arith) (
        if-both P (next == 0 || next == 43 || next == 60)
          (if-both P (ltb (length pkt) (off + 2)) (omega arith)
            (if-both P (ltb (length pkt) (off + ext_bytes)) (omega arith) rest))
          (omega arith)))

v4_address :
    (off : ℕ) (pkt : List ℕ)
    → off + 4 ≤ length pkt
    → length (take 4 (drop off pkt) ++ twelve_zeros) ≡ 16
v4_address off pkt h = omega (
  arith,
  length-append (take 4 (drop off pkt)) twelve_zeros,
  length-take 4 (drop off pkt) (omega (arith, length-drop off pkt)),
)

parse_v4-Sound : (pkt : List ℕ) → 1 ≤ length pkt → Sound pkt (parse_v4 pkt)
unfolding parse_v4
parse_v4-Sound pkt some_byte =
    let P = Sound pkt in
    let ihl = bit_and (byte_at pkt 0) 15 in
    let proto = byte_at pkt 9 in
    if-cases P (ltb (length pkt) 20) (λ _. omega arith)
      (λ header.
        if-cases P (ltb ihl 5 || ltb (length pkt) (ihl * 4)) (λ _. omega arith)
          (λ options.
            if-both P (not (bit_and (bit_or (byte_at pkt 6 * 256) (byte_at pkt 7)) 16383 == 0))
              some_byte
              (if-cases P (not (proto == 17) && not (proto == 6)) (λ _. some_byte)
                (λ l4.
                  if-cases P (ltb (length pkt) (ihl * 4 + l4_min proto)) (λ _. omega arith)
                    (λ fits. by_proto-Sound pkt proto _ (ground (arith, l4)) (record {
                      network_bytes = ihl * 4;
                      version = inl (refl, refl, ground (arith, options));
                      room = ground (arith, fits);
                      proto_is = refl;
                      src_len = v4_address 12 pkt (ground (arith, header));
                      dst_len = v4_address 16 pkt (ground (arith, header));
                      src_port = refl;
                      dst_port = refl;
                    }))))))

parse_l3l4-Sound : (pkt : List ℕ) → Sound pkt (parse_l3l4 pkt)
unfolding parse_l3l4
parse_l3l4-Sound pkt =
    let P = Sound pkt in
    if-cases P (ltb (length pkt) 1) (λ _. omega arith)
      (λ some_byte.
        if-both P (byte_at pkt 0 / 16 == 4) (parse_v4-Sound pkt (ground (arith, some_byte))) (
          if-both P (byte_at pkt 0 / 16 == 6)
            (if-cases P (ltb (length pkt) 40) (λ _. omega arith)
              (λ long.
                walk_v6-Sound 16 pkt (byte_at pkt 6) 40 (ground (arith, long)) (omega arith)))
            (omega arith)))

-- The key of a verdict for UDP.
verdict-KeyOf :
    (pkt : List ℕ) (v : Verdict) (key : FlowKey)
    → Sound pkt v
    → elim v as (λ _. Option FlowKey) [ Verdict.udp k ↦ some k | _ ↦ none ] ≡ some key
    → KeyOf pkt 17 key
verdict-KeyOf pkt (Verdict.udp k) key s h = subst (KeyOf pkt 17) (some-injective k key h) s
verdict-KeyOf pkt (Verdict.tcp k) key s h = cc
verdict-KeyOf pkt Verdict.fragment key s h = cc
verdict-KeyOf pkt Verdict.other key s h = cc
verdict-KeyOf pkt Verdict.malformed key s h = cc

-- A packet whose flow key is read has complete headers: at least 20 bytes of IPv4, as many as its header length
-- says, or at least 40 of IPv6, and behind
-- them the 8 bytes of UDP. The key's protocol is UDP, its addresses have sixteen bytes, and its ports are the first
-- four bytes of the UDP header.
pub parse_5tuple-KeyOf :
    (pkt : List ℕ) (key : FlowKey) → parse_5tuple pkt ≡ some key → KeyOf pkt 17 key
unfolding parse_5tuple
parse_5tuple-KeyOf pkt key h = verdict-KeyOf pkt (parse_l3l4 pkt) key (parse_l3l4-Sound pkt) h
