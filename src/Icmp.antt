-- ===== src/Icmp.antt =====
-- src/icmp.c, src/icmp.h: the ICMP errors that the tunnel answers with, and their checksums.
pub mod Checksum
pub mod Reply
pub mod ReplyV6
pub mod Tests
use Prim.Native.Nat.{bit_and, bit_or}
use mqcpn.Prelude.{
  ℕ, zero, suc, ◌+◌, ◌-◌, ◌*◌, ◌/◌, ◌%◌, Option, none, some, ◌||◌, List, [], ◌∷◌, ◌++◌, ltb, ◌==◌,
  if◌then◌else◌, length, take,
}
use mqcpn.Prelude.Words.{u8, u16, u32}
use mqcpn.Reorder.Packet.{byte_at}

-- The loop of `ipv4_checksum`, whose headers have an even number of bytes.
unfoldable pub sum_joined : List ℕ → ℕ
sum_joined [] = 0
sum_joined (hi ∷ []) = hi * 256
sum_joined (hi ∷ lo ∷ rest) = bit_or (hi * 256) lo + sum_joined rest

-- The loop over an ICMP message, which may end with a single byte.
unfoldable pub sum_bytes : List ℕ → ℕ
sum_bytes [] = 0
sum_bytes (hi ∷ []) = hi * 256
sum_bytes (hi ∷ lo ∷ rest) = hi * 256 + lo + sum_bytes rest

-- `while (cksum >> 16)`, on fuel
unfoldable pub fold_carries : ℕ → ℕ → ℕ
fold_carries zero cksum = cksum
fold_carries (suc fuel) cksum =
    let next = fold_carries fuel (u32 (cksum % 65536 + cksum / 65536)) in
    if cksum / 65536 == 0 then cksum else next

-- The 32-bit sum, folded and complemented.
unfoldable pub complement : ℕ → ℕ
complement sum = 65535 - u16 (fold_carries 2 (u32 sum))

unfoldable pub ipv4_checksum : List ℕ → ℕ
ipv4_checksum hdr = complement (sum_joined hdr)

unfoldable pub icmpv6_checksum : List ℕ → List ℕ → List ℕ → ℕ
icmpv6_checksum src6 dst6 icmp = complement (
    sum_joined src6
    + sum_joined dst6
    + length icmp / 65536
    + length icmp % 65536
    + 58
    + sum_bytes icmp)

-- The 4 or 16 bytes of an address, copied from an offset.
abbrev pub copy4 : List ℕ → ℕ → List ℕ
copy4 bytes at =
    byte_at bytes at ∷ byte_at bytes (at + 1) ∷ byte_at bytes (at + 2) ∷ byte_at bytes (at + 3) ∷ []

abbrev pub copy16 : List ℕ → ℕ → List ℕ
copy16 bytes at =
    copy4 bytes at ++ copy4 bytes (at + 4) ++ copy4 bytes (at + 8) ++ copy4 bytes (at + 12)

-- The IPv4 header, with its checksum.
abbrev pub header_v4 : ℕ → ℕ → List ℕ → List ℕ → List ℕ
header_v4 total ck src_ip orig =
    (0x45 ∷ 0xC0 ∷ u8 (total / 256) ∷ u8 total ∷ 0 ∷ 0 ∷ 0 ∷ 0 ∷ [])
    ++ (64 ∷ 1 ∷ u8 (ck / 256) ∷ u8 ck ∷ [])
    ++ copy4 src_ip 0
    ++ copy4 orig 12

abbrev pub message_v4 : ℕ → ℕ → ℕ → ℕ → List ℕ → List ℕ
message_v4 type code ic mtu quoted =
    type ∷ code ∷ u8 (ic / 256) ∷ u8 ic ∷ 0 ∷ 0 ∷ u8 (mtu / 256) ∷ u8 mtu ∷ quoted

-- `mqvpn_icmp_send_v4`: the packet given to the callback, if any; the pointers are not null.
unfoldable pub icmp_send_v4 : List ℕ → ℕ → ℕ → ℕ → List ℕ → Option (List ℕ)
icmp_send_v4 src_ip type code mtu orig =
    let ihl = bit_and (byte_at orig 0) 15 * 4 in
    let data_len = if ltb (length orig) (ihl + 8) then length orig else ihl + 8 in
    let total = 20 + 8 + data_len in
    let ip_ck = ipv4_checksum (header_v4 total 0 src_ip orig) in
    let quoted = take data_len orig in
    let ic = complement (sum_bytes (message_v4 type code 0 mtu quoted)) in
    if ltb (length orig) 20
    then none
    else if ltb ihl 20 || ltb (length orig) ihl
    then none
    else if ltb 128 total
    then none
    else some (header_v4 total ip_ck src_ip orig ++ message_v4 type code ic mtu quoted)

abbrev pub header_v6 : ℕ → List ℕ → List ℕ → List ℕ
header_v6 len src_ip6 orig =
    (0x60 ∷ 0 ∷ 0 ∷ 0 ∷ u8 (len / 256) ∷ u8 len ∷ 58 ∷ 64 ∷ []) ++ copy16 src_ip6 0 ++ copy16 orig 8

abbrev pub message_v6 : ℕ → ℕ → ℕ → ℕ → List ℕ → List ℕ
message_v6 type code ic mtu quoted =
    type
    ∷ code
    ∷ u8 (ic / 256)
    ∷ u8 ic
    ∷ u8 (mtu / 16777216)
    ∷ u8 (mtu / 65536)
    ∷ u8 (mtu / 256)
    ∷ u8 mtu
    ∷ quoted

-- `mqvpn_icmp_send_v6`
unfoldable pub icmp_send_v6 : List ℕ → ℕ → ℕ → ℕ → List ℕ → Option (List ℕ)
icmp_send_v6 src_ip6 type code mtu orig =
    let data_len = if ltb 1280 (40 + 8 + length orig) then 1280 - 40 - 8 else length orig in
    let quoted = take data_len orig in
    let ic =
      icmpv6_checksum (copy16 src_ip6 0) (copy16 orig 8) (message_v6 type code 0 mtu quoted) in
    if ltb (length orig) 40
    then none
    else some (header_v6 (8 + data_len) src_ip6 orig ++ message_v6 type code ic mtu quoted)
