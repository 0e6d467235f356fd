-- ===== src/Hybrid/Cidr.antt =====
-- IPv4 ranges of classifier.h. Prefix lengths are natural numbers; a negative one does what 0 does.
pub mod Range
use Prim.Native.Nat.{bit_and, bit_or}
use mqcpn.Prelude.{
  ℕ, ◌+◌, ◌-◌, ◌*◌, ◌^◌, Bool, true, false, not, ◌||◌, Option, none, some, List, [], ◌∷◌, ltb, leb,
  ◌==◌, if◌then◌else◌, length,
}
use mqcpn.Prelude.Maybe.{◌>>=◌}
use mqcpn.Prelude.Words.{u32}
use mqcpn.Prelude.Text.{split_at, strtol, is_digit}

-- `mqvpn_cidr_entry_t`
pub record Cidr : Type 0 where
  pub net : ℕ
  pub mask : ℕ

-- `mqvpn_cidr_mask_from_prefix`
unfoldable pub cidr_mask : ℕ → ℕ
cidr_mask prefix_len =
    if leb prefix_len 0
    then 0
    else if leb 32 prefix_len
    then 4294967295
    else u32 (4294967295 * 2 ^ (32 - prefix_len))

-- `mqvpn_cidr_match`
unfoldable pub cidr_match : Cidr → ℕ → Bool
cidr_match e host_order_ip = bit_and host_order_ip e.mask == e.net

-- An address with its host bits cleared.
abbrev pub range_of : ℕ → ℕ → Cidr
range_of ip prefix_len = record {
  net = bit_and ip (cidr_mask prefix_len);
  mask = cidr_mask prefix_len;
}

-- Four bytes in network order as a number.
abbrev pub join_ip : ℕ → ℕ → ℕ → ℕ → ℕ
join_ip a b c d = bit_or (bit_or (bit_or (a * 16777216) (b * 65536)) (c * 256)) d

-- `mqvpn_tunnel_subnet_learn`, for the four bytes of the assigned address.
unfoldable pub tunnel_subnet_learn : ℕ → ℕ → ℕ → ℕ → ℕ → Cidr
tunnel_subnet_learn a b c d assigned_prefix =
    range_of (join_ip a b c d) (if ltb assigned_prefix 24 then assigned_prefix else 24)

abbrev starts_with_digit : List ℕ → Bool
starts_with_digit [] = false
starts_with_digit (c ∷ s) = is_digit c

abbrev is_empty : List ℕ → Bool
is_empty [] = true
is_empty (c ∷ s) = false

-- `mqvpn_parse_cidr_v4`; `none` is the return value -1. `inet_pton` is a parameter, in host order.
unfoldable pub parse_cidr_v4 : (List ℕ → Option ℕ) → List ℕ → Option Cidr
parse_cidr_v4 inet_pton s = if length s == 0 || leb 32 (length s) then none else do
  (addr, prefix_str) ← split_at 47 s
  ip ← inet_pton addr
  n ← strtol prefix_str
  if not (starts_with_digit prefix_str) || not (is_empty n.rest) || ltb 32 n.size
      then none
      else some (range_of ip n.size)
