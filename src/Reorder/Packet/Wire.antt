-- ===== src/Reorder/Packet/Wire.antt =====
-- The reorder header's round trip, and the byte that tells the kinds of datagram apart.
use Prim.Native.Nat.{bit_or}
use mqcpn.Prelude.{ℕ, ◌+◌, ◌*◌, ◌/◌, ◌^◌, ◌≡◌, ◌<◌, refl, ◌∙◌, some, List, ◌++◌, arith}
use mqcpn.Prelude.Bits.{bit_or_fields}
use mqcpn.Prelude.Words.{u8}
use mqcpn.Reorder.Packet.{
  Kind, FlowKey, byte_at, classify_byte, join_seq, wire_encode, wire_decode, parse_l3l4,
  parse_5tuple,
}

-- Six bytes joined by shifts and `|` are their number.
join_seq_lem :
    (a b c d e f : ℕ)
    → b < 256
    → c < 256
    → d < 256
    → e < 256
    → f < 256
    → join_seq a b c d e f
      ≡ a * 1099511627776 + b * 4294967296 + c * 16777216 + d * 65536 + e * 256 + f
join_seq_lem a b c d e f hb hc hd he hf =
    let s1 : bit_or (a * 1099511627776) (b * 4294967296) ≡ (a * 256 + b) * 4294967296 =
      omega (arith, bit_or_fields 40 a (b * 4294967296) (omega arith)) in
    let s2 : bit_or ((a * 256 + b) * 4294967296) (c * 16777216)
        ≡ (a * 65536 + b * 256 + c) * 16777216 =
      omega (arith, bit_or_fields 32 (a * 256 + b) (c * 16777216) (omega arith)) in
    let n3 = a * 65536 + b * 256 + c in
    let s3 : bit_or (n3 * 16777216) (d * 65536) ≡ (n3 * 256 + d) * 65536 =
      omega (arith, bit_or_fields 24 n3 (d * 65536) (omega arith)) in
    let n4 = n3 * 256 + d in
    let s4 : bit_or (n4 * 65536) (e * 256) ≡ (n4 * 256 + e) * 256 =
      omega (arith, bit_or_fields 16 n4 (e * 256) (omega arith)) in
    let n5 = n4 * 256 + e in
    let s5 : bit_or (n5 * 256) f ≡ n5 * 256 + f =
      omega (arith, bit_or_fields 8 n5 f (omega arith)) in
    rw (s1, s2, s3, s4, s5) (omega arith)

-- A header of bytes and a 48-bit sequence number is read back as it was written, whatever follows
-- it.
pub wire_decode-encode :
    (type flags seq : ℕ) (rest : List ℕ)
    → type < 256
    → flags < 256
    → seq < 2 ^ 48
    → wire_decode (wire_encode type flags seq ++ rest)
      ≡ some (record { type = type; flags = flags; seq = seq })
unfolding wire_decode wire_encode
wire_decode-encode type flags seq rest ht hf hs =
    let joined =
      join_seq_lem (u8 (seq / 1099511627776)) (u8 (seq / 4294967296)) (u8 (seq / 16777216))
        (u8 (seq / 65536)) (u8 (seq / 256)) (u8 seq) (omega arith) (omega arith) (omega arith)
        (omega arith) (omega arith) in
    let number : u8 (seq / 1099511627776) * 1099511627776
          + u8 (seq / 4294967296) * 4294967296
          + u8 (seq / 16777216) * 16777216
          + u8 (seq / 65536) * 65536
          + u8 (seq / 256) * 256
          + u8 seq
        ≡ seq =
      omega arith in
    ground (arith, joined ∙ number)

-- A packet whose flow key is read is never taken for a reorder datagram, nor for an unknown one.
pub classify-parse_5tuple :
    (pkt : List ℕ) (key : FlowKey)
    → parse_5tuple pkt ≡ some key
    → classify_byte (byte_at pkt 0) ≡ Kind.raw
unfolding parse_5tuple parse_l3l4 classify_byte
classify-parse_5tuple pkt key h = ground arith

-- A datagram that is stamped is told from a bare packet by its first byte.
pub classify-wire_encode :
    (flags seq : ℕ) (rest : List ℕ)
    → classify_byte (byte_at (wire_encode 1 flags seq ++ rest) 0) ≡ Kind.reorder_v1
unfolding wire_encode classify_byte
classify-wire_encode flags seq rest = refl
