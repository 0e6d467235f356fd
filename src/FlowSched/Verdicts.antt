-- ===== src/FlowSched/Verdicts.antt =====
-- The flow hash beside the packet parser: what a packet of each verdict is hashed to.
use Prim.Native.Nat.{bit_and, bit_or}
use mqcpn.Prelude.{
  ℕ, suc, ◌+◌, ◌*◌, ◌/◌, ◌≡◌, ◌≢◌, ◌<◌, refl, ◌∙◌, sym, subst, arith, Bool, true, false, not, ◌&&◌,
  ◌||◌, List, ltb, ◌==◌, if◌then◌else◌, length, if-cases,
}
use mqcpn.Prelude.Words.{u16}
use mqcpn.Prelude.Bits.{bit_or_fields}
use mqcpn.Reorder.Packet.{
  FlowKey, Verdict, byte_at, by_proto, l4_min, parse_v4, walk_v6, parse_l3l4,
}
use mqcpn.Icmp.Checksum.{Octets}
use mqcpn.Icmp.Reply.{octet_at}
use mqcpn.FlowSched.{unpinned, should_pin, is_fragmented, flow_hash_v4, flow_hash_v6, flow_hash_pkt}
use mqcpn.FlowSched.Pinned.{
  hash_of_key, hash_of_fragment, hash_fragment, pins, HashFor, key_v4, key_v6, hash_v4, hash_v6,
  flow_hash_finish-between,
}

by_proto-HashFor :
    (pkt : List ℕ) (hash proto : ℕ) (udp_pin : Bool) (key : FlowKey)
    → (proto == 17 || proto == 6) ≡ true
    → hash ≡ (if should_pin proto udp_pin then hash_of_key key else unpinned)
    → HashFor pkt hash udp_pin (by_proto proto key)
unfolding should_pin
by_proto-HashFor pkt hash proto udp_pin key l4 is =
    if-cases (HashFor pkt hash udp_pin) (proto == 6) (λ tcp. ground (arith, tcp))
      (λ udp. ground (arith, udp))

is_fragmented_lem :
    (pkt : List ℕ)
    → Octets pkt
    → is_fragmented pkt ≡ not (bit_and (bit_or (byte_at pkt 6 * 256) (byte_at pkt 7)) 16383 == 0)
unfolding is_fragmented
is_fragmented_lem pkt o =
    let lo = octet_at pkt 7 o in
    let hi = octet_at pkt 6 o in
    let small = bit_or_fields 8 (byte_at pkt 6) (byte_at pkt 7) lo in
    let same : u16 (bit_or (byte_at pkt 6 * 256) (byte_at pkt 7))
        ≡ bit_or (byte_at pkt 6 * 256) (byte_at pkt 7) =
      omega (arith, small) in
    rw same refl

not_pinned :
    (proto : ℕ) (udp_pin : Bool)
    → (not (proto == 17) && not (proto == 6)) ≡ true
    → should_pin proto udp_pin ≡ false
unfolding should_pin
not_pinned proto udp_pin other = ground (arith, other)

pinned_or_not :
    (b : Bool) (hash : ℕ) → (if not b then unpinned else hash) ≡ (if b then hash else unpinned)
pinned_or_not true hash = refl
pinned_or_not false hash = refl

-- What is hashed of a fragment.
fragment_hashed :
    (pkt : List ℕ) (udp_pin : Bool)
    → (if not (should_pin (byte_at pkt 9) udp_pin) then unpinned else hash_of_fragment pkt)
      ≡ (if pins (byte_at pkt 9) udp_pin then hash_of_fragment pkt else unpinned)
unfolding should_pin
fragment_hashed pkt udp_pin = pinned_or_not (pins (byte_at pkt 9) udp_pin) (hash_of_fragment pkt)

-- The IPv6 header is followed by one of the extension headers that the parser knows.
abbrev pub has_extension : List ℕ → Bool
has_extension pkt = let next = byte_at pkt 6 in next == 0 || next == 43 || next == 44 || next == 60

module _ (pkt : List ℕ) (udp_pin : Bool) (o : Octets pkt) where
  parse_v4-HashFor : HashFor pkt (flow_hash_v4 pkt udp_pin) udp_pin (parse_v4 pkt)
  unfolding parse_v4 flow_hash_v4
  parse_v4-HashFor =
      let hash = flow_hash_v4 pkt udp_pin in
      let P = HashFor pkt hash udp_pin in
      let ihl = bit_and (byte_at pkt 0) 15 in
      let proto = byte_at pkt 9 in
      let frag = bit_or (byte_at pkt 6 * 256) (byte_at pkt 7) in
      if-cases P (ltb (length pkt) 20) (λ _. tt)
        (λ header.
          if-cases P (ltb ihl 5 || ltb (length pkt) (ihl * 4)) (λ _. tt)
            (λ options.
              let sized : (ltb (ihl * 4) 20 || ltb (length pkt) (ihl * 4)) ≡ false =
                ground (arith, options) in
              if-cases P (not (bit_and frag 16383 == 0))
                (λ broken.
                  let part : is_fragmented pkt ≡ true = is_fragmented_lem pkt o ∙ broken in
                  rw (header, sized, part, hash_fragment pkt) (fragment_hashed pkt udp_pin))
                (λ whole.
                  let one : is_fragmented pkt ≡ false = is_fragmented_lem pkt o ∙ whole in
                  if-cases P (not (proto == 17) && not (proto == 6))
                    (λ other.
                      let free = not_pinned proto udp_pin other in rw (header, sized, free) refl)
                    (λ l4.
                      if-cases P (ltb (length pkt) (ihl * 4 + l4_min proto)) (λ _. tt)
                        (λ fits.
                          let has_ports : ltb (length pkt) (ihl * 4 + 4) ≡ false =
                            ground (arith, fits) in
                          let key =
                            hash_v4 pkt o (ihl * 4) (ground (arith, header))
                              (ground (arith, has_ports)) in
                          by_proto-HashFor pkt hash proto udp_pin (key_v4 pkt (ihl * 4))
                            (ground (arith, l4))
                            (rw (header, sized, one, has_ports, key)
                              (pinned_or_not (should_pin proto udp_pin)
                                (hash_of_key (key_v4 pkt (ihl * 4))))))))))

  -- An IPv6 packet without extension headers.
  direct_v6-HashFor :
      (rounds : ℕ)
      → has_extension pkt ≡ false
      → ltb (length pkt) 40 ≡ false
      → HashFor pkt (flow_hash_v6 pkt udp_pin) udp_pin (walk_v6 (suc rounds) pkt (byte_at pkt 6) 40)
  unfolding walk_v6 flow_hash_v6
  direct_v6-HashFor rounds direct header =
      let hash = flow_hash_v6 pkt udp_pin in
      let P = HashFor pkt hash udp_pin in
      let next = byte_at pkt 6 in
      if-cases P (next == 17 || next == 6)
        (λ l4.
          if-cases P (ltb (length pkt) (40 + l4_min next)) (λ _. tt)
            (λ fits.
              let has_ports : ltb (length pkt) 44 ≡ false = ground (arith, fits) in
              let key = hash_v6 pkt o (ground (arith, has_ports)) in
              by_proto-HashFor pkt hash next udp_pin (key_v6 pkt) l4 (
                rw (header, has_ports, key)
                  (pinned_or_not (should_pin next udp_pin) (hash_of_key (key_v6 pkt))))))
        (λ isnt.
          let free : should_pin next udp_pin ≡ false =
            not_pinned next udp_pin (ground (arith, isnt)) in
          if-cases P (next == 44) (λ is. absurd (ground (arith, is, direct)))
            (λ _.
              if-cases P (next == 0 || next == 43 || next == 60)
                (λ is. absurd (ground (arith, is, direct))) (λ _. rw (header, free) refl)))

  -- A packet of bytes that, if it is of version 6, has none of the extension headers that the parser knows
  -- (hop-by-hop, routing, fragment, destination options) is hashed as the parser's verdict asks: TCP by the
  -- flow's key, UDP by the key when UDP is pinned and unpinned otherwise, an IPv4 fragment by its addresses,
  -- protocol and identification if its protocol is pinned and unpinned otherwise, and every other protocol
  -- unpinned. Nothing is said of malformed packets.
  pub flow_hash_pkt-HashFor :
      (byte_at pkt 0 / 16 ≡ 6 → has_extension pkt ≡ false)
      → HashFor pkt (flow_hash_pkt pkt udp_pin) udp_pin (parse_l3l4 pkt)
  unfolding flow_hash_pkt parse_l3l4
  flow_hash_pkt-HashFor direct =
      let P = HashFor pkt (flow_hash_pkt pkt udp_pin) udp_pin in
      if-cases P (ltb (length pkt) 1) (λ _. tt)
        (λ some_byte.
          if-cases P (byte_at pkt 0 / 16 == 4) (λ four. rw (some_byte, four) parse_v4-HashFor)
            (λ not_four.
              if-cases P (byte_at pkt 0 / 16 == 6)
                (λ six.
                  if-cases P (ltb (length pkt) 40) (λ _. tt)
                    (λ header.
                      rw (some_byte, not_four, six)
                        (direct_v6-HashFor 15 (direct (ground (arith, six))) header)))
                (λ _. tt)))

hash_of_key-between : (key : FlowKey) → (0 < hash_of_key key) × (hash_of_key key ≢ unpinned)
unfolding hash_of_key
hash_of_key-between key = flow_hash_finish-between _

-- Two IPv4 packets of bytes that the parser reads as whole, unfragmented TCP packets of one flow key get the same
-- hash, whatever the setting for UDP, and it is neither 0 nor the value that stands for unpinned. Fragments of the
-- flow are not covered: they are hashed by their identification.
pub same_flow_same_hash :
    (a b : List ℕ) (pin_a pin_b : Bool) (key : FlowKey)
    → Octets a
    → Octets b
    → byte_at a 0 / 16 ≡ 4
    → byte_at b 0 / 16 ≡ 4
    → parse_l3l4 a ≡ Verdict.tcp key
    → parse_l3l4 b ≡ Verdict.tcp key
    → (flow_hash_pkt a pin_a ≡ flow_hash_pkt b pin_b)
      × (0 < flow_hash_pkt a pin_a)
      × (flow_hash_pkt a pin_a ≢ unpinned)
same_flow_same_hash a b pin_a pin_b key oa ob va vb pa pb =
    let hash_a : flow_hash_pkt a pin_a ≡ hash_of_key key =
      subst (HashFor a (flow_hash_pkt a pin_a) pin_a) pa
        (flow_hash_pkt-HashFor a pin_a oa (λ six. absurd (omega arith))) in
    let hash_b : flow_hash_pkt b pin_b ≡ hash_of_key key =
      subst (HashFor b (flow_hash_pkt b pin_b) pin_b) pb
        (flow_hash_pkt-HashFor b pin_b ob (λ six. absurd (omega arith))) in
    let (pos, pinned) = hash_of_key-between key in
    (hash_a ∙ sym hash_b, rw hash_a pos, rw hash_a pinned)
