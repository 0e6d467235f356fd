-- ===== src/Icmp/Reply.antt =====
-- The answers of `mqvpn_icmp_send_v4` and `mqvpn_icmp_send_v6`: lengths, checksums, quoted data.
use Prim.Native.Nat.{bit_and}
use mqcpn.Prelude.{
  ℕ, zero, suc, ◌+◌, ◌*◌, ◌≡◌, ◌||◌, ◌≤◌, ◌<◌, ◌⊎◌, inl, inr, arith, none, some, ltb, List, [], ◌∷◌,
  ◌++◌, length, take, drop, length-take, Bool-cases, ap, if◌then◌else◌, min,
}
use mqcpn.Prelude.Bits.{bit_and_le}
use mqcpn.Reorder.Packet.{byte_at}
use mqcpn.Icmp.{
  sum_joined, sum_bytes, complement, ipv4_checksum, header_v4, message_v4, icmp_send_v4, copy4,
  copy16,
}
use mqcpn.Icmp.Checksum.{Octets, Verifies, complement-Verifies, sum_bytes-le, sum_joined-eq}

pub octet_at : (bytes : List ℕ) (i : ℕ) → Octets bytes → byte_at bytes i < 256
octet_at [] i o = omega arith
octet_at (x ∷ bytes) zero (ox, o) = ox
octet_at (x ∷ bytes) (suc i) (ox, o) = octet_at bytes i o

pub Octets-take : (n : ℕ) (bytes : List ℕ) → Octets bytes → Octets (take n bytes)
Octets-take zero bytes o = tt
Octets-take (suc n) [] o = tt
Octets-take (suc n) (x ∷ bytes) (ox, o) = (ox, Octets-take n bytes o)

pub complement-small : (s : ℕ) → complement s < 65536
unfolding complement
complement-small s = omega arith

-- A message whose checksum field was zero when the checksum was computed.
all_ones :
    (zeroed filled : List ℕ)
    → length zeroed ≤ 65000
    → Octets zeroed
    → sum_bytes filled ≡ sum_bytes zeroed + complement (sum_bytes zeroed)
    → Verifies filled
all_ones zeroed filled short o is =
    let bound = sum_bytes-le zeroed o in
    complement-Verifies (sum_bytes zeroed) filled (omega arith) is

pub Octets-append : (xs ys : List ℕ) → Octets xs → Octets ys → Octets (xs ++ ys)
Octets-append [] ys ox oy = oy
Octets-append (x ∷ xs) ys (here, ox) oy = (here, Octets-append xs ys ox oy)

copy4-Octets : (bytes : List ℕ) (at : ℕ) → Octets bytes → Octets (copy4 bytes at)
copy4-Octets bytes at o =
    let octet = λ (i : ℕ). octet_at bytes i o in
    (octet at, (octet (at + 1), (octet (at + 2), (octet (at + 3), tt))))

pub copy16-Octets : (bytes : List ℕ) (at : ℕ) → Octets bytes → Octets (copy16 bytes at)
copy16-Octets bytes at o =
    let four = λ (i : ℕ). copy4-Octets bytes i o in
    let a8 = copy4 bytes (at + 8) ++ copy4 bytes (at + 12) in
    let last =
      Octets-append (copy4 bytes (at + 8)) (copy4 bytes (at + 12)) (four (at + 8))
        (four (at + 12)) in
    let more = Octets-append (copy4 bytes (at + 4)) a8 (four (at + 4)) last in
    Octets-append (copy4 bytes at) (copy4 bytes (at + 4) ++ a8) (four at) more

module _ (src_ip orig : List ℕ) (osrc : Octets src_ip) (oorig : Octets orig) where
  header_v4-Octets : (total : ℕ) → Octets (header_v4 total 0 src_ip orig)
  header_v4-Octets total =
      let addresses =
        Octets-append (copy4 src_ip 0) (copy4 orig 12) (copy4-Octets src_ip 0 osrc)
          (copy4-Octets orig 12 oorig) in
      (
        omega arith,
        (
          omega arith,
          (
            omega arith,
            (
              omega arith,
              (
                omega arith,
                (
                  omega arith,
                  (
                    omega arith,
                    (
                      omega arith,
                      (omega arith, (omega arith, (omega arith, (omega arith, addresses)))),
                    ),
                  ),
                ),
              ),
            ),
          ),
        ),
      )

  filled_v4 :
      (total ck : ℕ)
      → ck < 65536
      → sum_bytes (header_v4 total ck src_ip orig) ≡ sum_bytes (header_v4 total 0 src_ip orig) + ck
  unfolding sum_bytes
  filled_v4 total ck small = omega arith

  header_v4-Verifies :
      (total : ℕ)
      → Verifies (header_v4 total (ipv4_checksum (header_v4 total 0 src_ip orig)) src_ip orig)
  unfolding ipv4_checksum
  header_v4-Verifies total =
      let zeroed = header_v4 total 0 src_ip orig in
      let o = header_v4-Octets total in
      let same : complement (sum_joined zeroed) ≡ complement (sum_bytes zeroed) =
        ap complement (sum_joined-eq zeroed o) in
      rw same (
        all_ones zeroed (header_v4 total (complement (sum_bytes zeroed)) src_ip orig) (omega arith)
          o (filled_v4 total (complement (sum_bytes zeroed)) (complement-small (sum_bytes zeroed))))

message_v4-Octets :
    (type code mtu : ℕ) (quoted : List ℕ)
    → type < 256
    → code < 256
    → Octets quoted
    → Octets (message_v4 type code 0 mtu quoted)
message_v4-Octets type code mtu quoted ht hc o = (
  ht,
  (hc, (omega arith, (omega arith, (omega arith, (omega arith, (omega arith, (omega arith, o))))))),
)

filled_message_v4 :
    (type code mtu ck : ℕ) (quoted : List ℕ)
    → ck < 65536
    → sum_bytes (message_v4 type code ck mtu quoted)
      ≡ sum_bytes (message_v4 type code 0 mtu quoted) + ck
unfolding sum_bytes
filled_message_v4 type code mtu ck quoted small = omega arith

message_v4-Verifies :
    (type code mtu : ℕ) (quoted : List ℕ)
    → type < 256
    → code < 256
    → Octets quoted
    → length quoted ≤ 60000
    → Verifies (
        message_v4 type code
          (complement (sum_bytes (message_v4 type code 0 mtu quoted)))
          mtu
          quoted)
message_v4-Verifies type code mtu quoted ht hc o short =
    let zeroed = message_v4 type code 0 mtu quoted in
    let ck = complement (sum_bytes zeroed) in
    all_ones zeroed (message_v4 type code ck mtu quoted) (omega arith)
      (message_v4-Octets type code mtu quoted ht hc o)
      (filled_message_v4 type code mtu ck quoted (complement-small (sum_bytes zeroed)))

abbrev pub ihl_of : List ℕ → ℕ
ihl_of orig = bit_and (byte_at orig 0) 15 * 4

-- A packet with its whole IPv4 header.
abbrev pub HasHeader : List ℕ → Type 0
HasHeader orig = (20 ≤ ihl_of orig) × (ihl_of orig ≤ length orig)

-- What a host that gets the answer checks, and what it quotes of the packet it is about.
abbrev pub Answers : List ℕ → List ℕ → Type 0
Answers orig pkt =
    Verifies (take 20 pkt)
    × Verifies (drop 20 pkt)
    × (length pkt ≡ byte_at pkt 2 * 256 + byte_at pkt 3)
    × (length pkt ≤ 96)
    × (drop 28 pkt ≡ take (min (ihl_of orig + 8) (length orig)) orig)

-- The ICMP error about a packet of bytes, with a type and a code of a byte each, is sent if and
-- only if the packet has its whole header, and then both its checksums hold, its length is the one
-- it states, at most 96, and it quotes the header with the 8 bytes behind it, or less when the
-- packet ends before.
pub icmp_send_v4_lem :
    (src_ip orig : List ℕ) (type code mtu : ℕ)
    → Octets src_ip
    → Octets orig
    → type < 256
    → code < 256
    → (HasHeader orig
        × ((pkt : List ℕ) × (icmp_send_v4 src_ip type code mtu orig ≡ some pkt) × Answers orig pkt))
      ⊎ ((¬ HasHeader orig) × (icmp_send_v4 src_ip type code mtu orig ≡ none))
unfolding icmp_send_v4
icmp_send_v4_lem src_ip orig type code mtu osrc oorig ht hc =
    let nibble = bit_and_le (byte_at orig 0) 15 in
    let n = if ltb (length orig) (ihl_of orig + 8) then length orig else ihl_of orig + 8 in
    let least : n ≡ min (ihl_of orig + 8) (length orig) = ground arith in
    let within : n ≤ length orig = ground arith in
    let short : n ≤ 68 = ground arith in
    let size = length-take n orig within in
    let ip = header_v4-Verifies src_ip orig osrc oorig (20 + 8 + n) in
    let icmp =
      message_v4-Verifies type code mtu (take n orig) ht hc (Octets-take n orig oorig)
        (omega arith) in
    let pkt =
      header_v4 (20 + 8 + n) (ipv4_checksum (header_v4 (20 + 8 + n) 0 src_ip orig)) src_ip orig
      ++ message_v4 type code (complement (sum_bytes (message_v4 type code 0 mtu (take n orig))))
          mtu (take n orig) in
    elim (Bool-cases
      (ltb (length orig) 20 || ltb (ihl_of orig) 20 || ltb (length orig) (ihl_of orig))) [
        | inl refused ↦ inr (λ whole. ground (arith, refused), ground (arith, refused))
        | inr whole ↦
            let sent : icmp_send_v4 src_ip type code mtu orig ≡ some pkt = ground (arith, whole) in
            inl (
              (ground (arith, whole), ground (arith, whole)),
              (pkt, sent, (ip, icmp, omega arith, omega arith, ap (λ (k : ℕ). take k orig) least)),
            )
      ]
