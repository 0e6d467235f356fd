-- ===== src/FlowSched.antt =====
-- src/flow_sched.c: the hash that keeps an inner flow on one path.
pub mod Pinned
pub mod Verdicts
mod Tests
use Prim.Native.Nat.{bit_and, bit_or, bit_xor}
use mqcpn.Prelude.{
  ℕ, ◌+◌, ◌-◌, ◌*◌, ◌/◌, Bool, true, false, not, ◌&&◌, ◌||◌, List, [], ◌∷◌, ltb, ◌==◌,
  if◌then◌else◌, length, take, drop,
}
use mqcpn.Prelude.Words.{u16, u32}
use mqcpn.Reorder.Packet.{byte_at}

-- `MQVPN_FLOW_HASH_UNPINNED`
abbrev pub unpinned : ℕ
unpinned = 4294967295

-- `FNV1A_OFFSET`
abbrev pub fnv1a_offset : ℕ
fnv1a_offset = 2166136261

unfoldable pub flow_hash_update_byte : ℕ → ℕ → ℕ
flow_hash_update_byte h b = u32 (bit_xor h b * 16777619)

unfoldable pub flow_hash_finish : ℕ → ℕ
flow_hash_finish h = let h' = if h == 0 then 1 else h in if h' == unpinned then unpinned - 1 else h'

-- The loops that feed a range of bytes.
unfoldable pub feed : ℕ → List ℕ → ℕ
feed h [] = h
feed h (b ∷ bytes) = feed (flow_hash_update_byte h b) bytes

unfoldable pub should_pin : ℕ → Bool → Bool
should_pin proto udp_pin = proto == 6 || (proto == 17 && udp_pin)

-- `frag & 0x3fff`: the more-fragments bit and the offset.
unfoldable pub is_fragmented : List ℕ → Bool
is_fragmented pkt = not (bit_and (u16 (bit_or (byte_at pkt 6 * 256) (byte_at pkt 7))) 16383 == 0)

-- The IPv4 part of `flow_hash_pkt`.
unfoldable pub flow_hash_v4 : List ℕ → Bool → ℕ
flow_hash_v4 pkt udp_pin =
    let proto = byte_at pkt 9 in
    let ihl = bit_and (byte_at pkt 0) 15 * 4 in
    let h = flow_hash_update_byte (feed fnv1a_offset (take 8 (drop 12 pkt))) proto in
    let h_id = flow_hash_update_byte (flow_hash_update_byte h (byte_at pkt 4)) (byte_at pkt 5) in
    if ltb (length pkt) 20
    then 0
    else if ltb ihl 20 || ltb (length pkt) ihl
    then 0
    else if not (should_pin proto udp_pin)
    then unpinned
    else if is_fragmented pkt
    then flow_hash_finish h_id
    else if ltb (length pkt) (ihl + 4)
    then unpinned
    else flow_hash_finish (feed h (take 4 (drop ihl pkt)))

-- The IPv6 part.
unfoldable pub flow_hash_v6 : List ℕ → Bool → ℕ
flow_hash_v6 pkt udp_pin =
    let next_hdr = byte_at pkt 6 in
    let h = flow_hash_update_byte (feed fnv1a_offset (take 32 (drop 8 pkt))) next_hdr in
    if ltb (length pkt) 40
    then 0
    else if not (should_pin next_hdr udp_pin)
    then unpinned
    else if ltb (length pkt) 44
    then unpinned
    else flow_hash_finish (feed h (take 4 (drop 40 pkt)))

-- `flow_hash_pkt`; the buffer is not null.
unfoldable pub flow_hash_pkt : List ℕ → Bool → ℕ
flow_hash_pkt pkt udp_pin =
    let version = byte_at pkt 0 / 16 in
    if ltb (length pkt) 1
    then 0
    else if version == 4
    then flow_hash_v4 pkt udp_pin
    else if version == 6
    then flow_hash_v6 pkt udp_pin
    else 0
