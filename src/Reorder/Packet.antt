-- ===== src/Reorder/Packet.antt =====
-- The inner packets of reorder.h: the reorder header, the flow key and the IP parser.
-- A buffer is its list of bytes; a read at an offset is `byte_at`, which is 0 beyond the end.
pub mod Wire
pub mod Key
use Prim.Native.Nat.{bit_and, bit_or}
use mqcpn.Prelude.{
  ℕ, zero, suc, ◌+◌, ◌-◌, ◌*◌, ◌/◌, ◌≡◌, Bool, true, false, not, ◌&&◌, ◌||◌, Option, none, some,
  List, [], ◌∷◌, ◌++◌, ltb, leb, ◌==◌, if◌then◌else◌, length, get_or, take, drop, same_bytes,
}
use mqcpn.Prelude.Words.{u8, u16}

abbrev pub byte_at : List ℕ → ℕ → ℕ
byte_at pkt i = get_or pkt i 0

-- `mqvpn_reorder_kind_t`
pub data Kind : Type 0 where
  raw : Kind
  reorder_v1 : Kind
  unknown : Kind

-- `mqvpn_reorder_classify_byte`
unfoldable pub classify_byte : ℕ → Kind
classify_byte b =
    if b / 16 == 4 || b / 16 == 6
    then Kind.raw
    else if b == 1
    then Kind.reorder_v1
    else Kind.unknown

-- `mqvpn_reorder_wire_encode`: the header that it writes.
unfoldable pub wire_encode : ℕ → ℕ → ℕ → List ℕ
wire_encode type flags seq =
    u8 type
    ∷ u8 flags
    ∷ u8 (seq / 1099511627776)
    ∷ u8 (seq / 4294967296)
    ∷ u8 (seq / 16777216)
    ∷ u8 (seq / 65536)
    ∷ u8 (seq / 256)
    ∷ u8 seq
    ∷ []

pub record Header : Type 0 where
  pub type : ℕ
  pub flags : ℕ
  pub seq : ℕ

-- The six bytes of a sequence number, the highest first.
abbrev pub join_seq : ℕ → ℕ → ℕ → ℕ → ℕ → ℕ → ℕ
join_seq a b c d e f =
    bit_or
      (bit_or
        (bit_or (bit_or (bit_or (a * 1099511627776) (b * 4294967296)) (c * 16777216)) (d * 65536))
        (e * 256))
      f

-- `mqvpn_reorder_wire_decode`; `none` is the return value -1.
unfoldable pub wire_decode : List ℕ → Option Header
wire_decode bytes =
    if ltb (length bytes) 8
    then none
    else some (record {
      type = byte_at bytes 0;
      flags = byte_at bytes 1;
      seq =
          join_seq (byte_at bytes 2) (byte_at bytes 3) (byte_at bytes 4) (byte_at bytes 5)
            (byte_at bytes 6) (byte_at bytes 7);
    })

-- `mqvpn_flow_key_t`; an address is its sixteen bytes.
pub record FlowKey : Type 0 where
  pub ip_version : ℕ
  pub proto : ℕ
  pub src_port : ℕ
  pub dst_port : ℕ
  pub src_ip : List ℕ
  pub dst_ip : List ℕ

-- `mqvpn_flow_key_eq`
unfoldable pub flow_key_eq : FlowKey → FlowKey → Bool
flow_key_eq a b =
    a.ip_version == b.ip_version
    && a.proto == b.proto
    && a.src_port == b.src_port
    && a.dst_port == b.dst_port
    && same_bytes a.src_ip b.src_ip
    && same_bytes a.dst_ip b.dst_ip

-- `mqvpn_l4_verdict_t`, with the key that the parser writes.
pub data Verdict : Type 0 where
  udp : FlowKey → Verdict
  tcp : FlowKey → Verdict
  fragment : Verdict
  other : Verdict
  malformed : Verdict

abbrev pub twelve_zeros : List ℕ
twelve_zeros = 0 ∷ 0 ∷ 0 ∷ 0 ∷ 0 ∷ 0 ∷ 0 ∷ 0 ∷ 0 ∷ 0 ∷ 0 ∷ 0 ∷ []

abbrev pub port_at : List ℕ → ℕ → ℕ
port_at pkt i = u16 (bit_or (byte_at pkt i * 256) (byte_at pkt (i + 1)))

abbrev pub by_proto : ℕ → FlowKey → Verdict
by_proto proto key = if proto == 6 then Verdict.tcp key else Verdict.udp key

abbrev pub l4_min : ℕ → ℕ
l4_min proto = if proto == 6 then 20 else 8

-- The IPv4 part of `mqvpn_parse_l3l4`.
unfoldable pub parse_v4 : List ℕ → Verdict
parse_v4 pkt =
    let ihl = bit_and (byte_at pkt 0) 15 in
    let hdr_len = ihl * 4 in
    let frag = bit_or (byte_at pkt 6 * 256) (byte_at pkt 7) in
    let proto = byte_at pkt 9 in
    if ltb (length pkt) 20
    then Verdict.malformed
    else if ltb ihl 5 || ltb (length pkt) hdr_len
    then Verdict.malformed
    else if not (bit_and frag 16383 == 0)
    then Verdict.fragment
    else if not (proto == 17) && not (proto == 6)
    then Verdict.other
    else if ltb (length pkt) (hdr_len + l4_min proto)
    then Verdict.malformed
    else by_proto proto (record {
      ip_version = 4;
      proto = proto;
      src_port = port_at pkt hdr_len;
      dst_port = port_at pkt (hdr_len + 2);
      src_ip = take 4 (drop 12 pkt) ++ twelve_zeros;
      dst_ip = take 4 (drop 16 pkt) ++ twelve_zeros;
    })

-- The extension headers of an IPv6 packet: `rounds` of the loop are left.
unfoldable pub walk_v6 : ℕ → List ℕ → ℕ → ℕ → Verdict
walk_v6 zero pkt next off = Verdict.other
walk_v6 (suc rounds) pkt next off =
    let ext_bytes = (byte_at pkt (off + 1) + 1) * 8 in
    let rest = walk_v6 rounds pkt (byte_at pkt off) (off + ext_bytes) in
    if next == 17 || next == 6
    then if ltb (length pkt) (off + l4_min next)
      then Verdict.malformed
      else by_proto next (record {
        ip_version = 6;
        proto = next;
        src_port = port_at pkt off;
        dst_port = port_at pkt (off + 2);
        src_ip = take 16 (drop 8 pkt);
        dst_ip = take 16 (drop 24 pkt);
      })
    else if next == 44
    then Verdict.fragment
    else if next == 0 || next == 43 || next == 60
    then if ltb (length pkt) (off + 2)
      then Verdict.malformed
      else if ltb (length pkt) (off + ext_bytes)
      then Verdict.malformed
      else rest
    else Verdict.other

-- `mqvpn_parse_l3l4`
unfoldable pub parse_l3l4 : List ℕ → Verdict
parse_l3l4 pkt =
    let version = byte_at pkt 0 / 16 in
    if ltb (length pkt) 1
    then Verdict.malformed
    else if version == 4
    then parse_v4 pkt
    else if version == 6
    then if ltb (length pkt) 40 then Verdict.malformed else walk_v6 16 pkt (byte_at pkt 6) 40
    else Verdict.malformed

-- `mqvpn_reorder_parse_5tuple`; `none` is the return value -1.
unfoldable pub parse_5tuple : List ℕ → Option FlowKey
parse_5tuple pkt = elim (parse_l3l4 pkt) [ Verdict.udp key ↦ some key | _ ↦ none ]

-- `inner_udp_payload_len` of reorder_rx.c
unfoldable pub inner_udp_payload_len : List ℕ → ℕ → ℕ
inner_udp_payload_len pkt len =
    let version = byte_at pkt 0 / 16 in
    let above = λ (hdr : ℕ). if leb len (hdr + 8) then 0 else len - (hdr + 8) in
    if ltb len 1
    then 0
    else if version == 4
    then if ltb len 20 then 0 else above (bit_and (byte_at pkt 0) 15 * 4)
    else if version == 6
    then above 40
    else 0
