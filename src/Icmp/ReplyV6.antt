-- ===== src/Icmp/ReplyV6.antt =====
-- The answers of `mqvpn_icmp_send_v6`: the checksum with its pseudo-header, the length, the quote.
use mqcpn.Prelude.{
  ℕ, ◌+◌, ◌-◌, ◌*◌, ◌/◌, ◌%◌, ◌≡◌, ◌≤◌, ◌<◌, ◌⊎◌, inl, inr, arith, none, some, ltb, List, [], ◌∷◌,
  ◌++◌, length, take, drop, length-take, Bool-cases, ap, if◌then◌else◌, min,
}
use mqcpn.Reorder.Packet.{byte_at}
use mqcpn.Icmp.{sum_bytes, complement, icmpv6_checksum, header_v6, message_v6, icmp_send_v6, copy16}
use mqcpn.Icmp.Checksum.{Octets, Verifies, complement-Verifies, sum_bytes-le, sum_joined-eq}
use mqcpn.Icmp.Reply.{Octets-take, copy16-Octets, complement-small}

-- What the checksum of an ICMPv6 packet covers: the addresses, the length and the protocol, in
-- front of the message.
abbrev pub with_pseudo_header : List ℕ → List ℕ
with_pseudo_header pkt =
    take 32 (drop 8 pkt)
    ++ (0 ∷ 0 ∷ byte_at pkt 4 ∷ byte_at pkt 5 ∷ 0 ∷ 0 ∷ 0 ∷ byte_at pkt 6 ∷ [])
    ++ drop 40 pkt

module _ (type code mtu : ℕ) (quoted : List ℕ) (ht : type < 256) (hc : code < 256)
    (o : Octets quoted) where
  message_v6-Octets : Octets (message_v6 type code 0 mtu quoted)
  message_v6-Octets = (
    ht,
    (
      hc,
      (omega arith, (omega arith, (omega arith, (omega arith, (omega arith, (omega arith, o)))))),
    ),
  )

  filled_v6 :
      (src_ip6 orig : List ℕ) (ck : ℕ)
      → ck < 65536
      → length quoted ≤ 1232
      → sum_bytes (
          with_pseudo_header
            (header_v6 (8 + length quoted) src_ip6 orig ++ message_v6 type code ck mtu quoted))
        ≡ (sum_bytes (copy16 src_ip6 0)
            + sum_bytes (copy16 orig 8)
            + length (message_v6 type code 0 mtu quoted) / 65536
            + length (message_v6 type code 0 mtu quoted) % 65536
            + 58
            + sum_bytes (message_v6 type code 0 mtu quoted))
          + ck
  unfolding sum_bytes
  filled_v6 src_ip6 orig ck small short = omega arith

  message_v6-Verifies :
      (src_ip6 orig : List ℕ)
      → Octets src_ip6
      → Octets orig
      → length quoted ≤ 1232
      → Verifies (
          with_pseudo_header (
            header_v6 (8 + length quoted) src_ip6 orig
            ++ message_v6 type code
                (icmpv6_checksum
                  (copy16 src_ip6 0)
                  (copy16 orig 8)
                  (message_v6 type code 0 mtu quoted))
                mtu
                quoted))
  unfolding icmpv6_checksum
  message_v6-Verifies src_ip6 orig osrc oorig short =
      let src = copy16-Octets src_ip6 0 osrc in
      let dst = copy16-Octets orig 8 oorig in
      let zeroed = message_v6 type code 0 mtu quoted in
      let sum =
        sum_bytes (copy16 src_ip6 0)
        + sum_bytes (copy16 orig 8)
        + length zeroed / 65536
        + length zeroed % 65536
        + 58
        + sum_bytes zeroed in
      let bound : sum < 4294901760 = omega (
        arith,
        sum_bytes-le zeroed message_v6-Octets,
        sum_bytes-le (copy16 src_ip6 0) src,
        sum_bytes-le (copy16 orig 8) dst,
      ) in
      rw (sum_joined-eq (copy16 src_ip6 0) src, sum_joined-eq (copy16 orig 8) dst)
        (complement-Verifies sum _ (omega arith)
          (filled_v6 src_ip6 orig (complement sum) (complement-small sum) short))

-- What a host that gets the answer checks, and what it quotes of the packet it is about.
abbrev pub AnswersV6 : List ℕ → List ℕ → Type 0
AnswersV6 orig pkt =
    Verifies (with_pseudo_header pkt)
    × (length pkt ≡ 40 + (byte_at pkt 4 * 256 + byte_at pkt 5))
    × (length pkt ≤ 1280)
    × (drop 48 pkt ≡ take (min 1232 (length orig)) orig)

-- The ICMPv6 error about a packet of bytes, with a type and a code of a byte each, is sent if and
-- only if the packet has at least the 40 bytes of its header, and then its checksum over the
-- pseudo-header and the message holds, its length is the one it states plus the header, at most
-- 1280, and it quotes as much of the packet as fits.
pub icmp_send_v6_lem :
    (src_ip6 orig : List ℕ) (type code mtu : ℕ)
    → Octets src_ip6
    → Octets orig
    → type < 256
    → code < 256
    → ((40 ≤ length orig)
        × ((pkt : List ℕ) × (icmp_send_v6 src_ip6 type code mtu orig ≡ some pkt)
            × AnswersV6 orig pkt))
      ⊎ ((length orig < 40) × (icmp_send_v6 src_ip6 type code mtu orig ≡ none))
unfolding icmp_send_v6
icmp_send_v6_lem src_ip6 orig type code mtu osrc oorig ht hc =
    let n = if ltb 1280 (40 + 8 + length orig) then 1280 - 40 - 8 else length orig in
    let least : n ≡ min 1232 (length orig) = ground arith in
    let within : n ≤ length orig = ground arith in
    let size = length-take n orig within in
    let quoted = take n orig in
    let o = Octets-take n orig oorig in
    let verifies =
      message_v6-Verifies type code mtu quoted ht hc o src_ip6 orig osrc oorig (omega arith) in
    let ic =
      icmpv6_checksum (copy16 src_ip6 0) (copy16 orig 8) (message_v6 type code 0 mtu quoted) in
    let pkt = header_v6 (8 + length quoted) src_ip6 orig ++ message_v6 type code ic mtu quoted in
    elim (Bool-cases (ltb (length orig) 40)) [
      | inl refused ↦ inr (ground (arith, refused), ground (arith, refused))
      | inr whole ↦
          let sent : icmp_send_v6 src_ip6 type code mtu orig ≡ some pkt =
            rw size (ground (arith, whole)) in
          inl (
            ground (arith, whole),
            (pkt, sent, (verifies, omega arith, omega arith, ap (λ (k : ℕ). take k orig) least)),
          )
    ]
