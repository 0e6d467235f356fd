-- ===== src/AddrPool/Pool.antt =====
-- `mqvpn_addr_pool_t` and its operations. Addresses are numbers in host order; what `inet_pton` makes
-- of a text is a parameter.
use mqcpn.Prelude.{
  ℕ, zero, suc, ◌+◌, ◌-◌, ◌%◌, ◌^◌, Bool, true, false, not, ◌&&◌, ◌||◌, Option, none, some, List,
  [], ltb, leb, ◌==◌, if◌then◌else◌, take,
}
use mqcpn.Prelude.Maybe.{◌>>=◌}
use mqcpn.Prelude.Words.{u32, sub32}
use mqcpn.Prelude.Text.{strtol, split_at}

-- `struct in6_addr`: its first 12 bytes, and the last 4 as the number that `ntohl` makes of them.
pub record In6Addr : Type 0 where
  pub high : List ℕ
  pub low : ℕ

-- `used` is the array of 255 flags, as a function of the offset.
pub record AddrPool : Type 0 where
  pub base : ℕ
  pub prefix_len : ℕ
  pub pool_size : ℕ
  pub next : ℕ
  pub used : ℕ → Bool
  pub base6 : In6Addr
  pub prefix6 : ℕ
  pub has_v6 : Bool

abbrev pub addr_pool_max : ℕ
addr_pool_max = 254

-- The prefix length behind the slash, with its bounds.
unfoldable pub read_prefix : ℕ → ℕ → List ℕ → Option ℕ
unfolding strtol
read_prefix lo hi s = elim (strtol s) [
  | none ↦ none
  | some n ↦ elim n.rest [
    | [] ↦
        if n.negative && not (n.size == 0) || ltb n.size lo || ltb hi n.size
        then none
        else some n.size
    | _ ↦ none
  ]
]

abbrev no_addr6 : In6Addr
no_addr6 = record { high = []; low = 0 }

unfoldable pub pool_size_of : ℕ → ℕ
pool_size_of prefix =
    let total_hosts = 2 ^ (32 - prefix) - 2 in
    if ltb addr_pool_max total_hosts then addr_pool_max else total_hosts

-- The pool that a successful initialisation leaves.
unfoldable pub fresh_pool : ℕ → ℕ → AddrPool
fresh_pool base plen = record {
  base = base;
  prefix_len = plen;
  pool_size = pool_size_of plen;
  next = 2;
  used = λ _. false;
  base6 = no_addr6;
  prefix6 = 0;
  has_v6 = false;
}

-- `mqvpn_addr_pool_init`; `none` is the return value -1.
unfoldable pub init : (List ℕ → Option ℕ) → List ℕ → Option AddrPool
init inet_pton cidr = do
  (addr, prefix) ← split_at 47 (take 31 cidr)
  plen ← read_prefix 0 32 prefix
  base ← inet_pton addr
  if ltb plen 16 || ltb 30 plen then none else some (fresh_pool base plen)

-- `mqvpn_addr_pool_init6`; `none` is the return value -1, which leaves the pool as it was.
unfoldable pub init6 : (List ℕ → Option In6Addr) → AddrPool → List ℕ → Option AddrPool
init6 inet_pton6 p cidr6 = do
  (addr, prefix) ← split_at 47 (take 63 cidr6)
  plen ← read_prefix 96 126 prefix
  base6 ← inet_pton6 addr
  some (record p { base6 = base6; prefix6 = plen; has_v6 = true })

abbrev pub set_used : (ℕ → Bool) → ℕ → Bool → ℕ → Bool
set_used used off v i = if i == off then v else used i

-- The loop of `mqvpn_addr_pool_alloc` at index `i`, with the rounds left.
unfoldable pub alloc_scan : ℕ → ℕ → AddrPool → Option (ℕ × AddrPool)
alloc_scan zero i p = none
alloc_scan (suc rounds) i p =
    let off = u32 (sub32 p.next 1 + i) % p.pool_size + 1 in
    let rest = alloc_scan rounds (i + 1) p in
    if off == 1 || p.used off
    then rest
    else some (u32 (p.base + off), record p { used = set_used p.used off true; next = off + 1 })

-- `mqvpn_addr_pool_alloc`
unfoldable pub alloc : AddrPool → Option (ℕ × AddrPool)
unfolding alloc_scan
alloc p = alloc_scan p.pool_size 0 p

-- `mqvpn_addr_pool_alloc_at`
unfoldable pub alloc_at : AddrPool → ℕ → Option (ℕ × AddrPool)
alloc_at p offset =
    if ltb offset 2 || ltb p.pool_size offset || p.used offset
    then none
    else some (u32 (p.base + offset), record p { used = set_used p.used offset true })

-- `mqvpn_addr_pool_release`
unfoldable pub release : AddrPool → ℕ → AddrPool
release p addr =
    if ltb addr p.base
    then p
    else (let off = addr - p.base in
        if leb 1 off && leb off p.pool_size
        then record p { used = set_used p.used off false }
        else p)

-- `mqvpn_addr_pool_server_addr`
unfoldable pub server_addr : AddrPool → ℕ
server_addr p = u32 (p.base + 1)

-- `mqvpn_addr_pool_get6`
unfoldable pub get6 : AddrPool → ℕ → In6Addr
get6 p offset = record { high = p.base6.high; low = u32 (p.base6.low + offset) }

-- `mqvpn_addr_pool_server_addr6`
unfoldable pub server_addr6 : AddrPool → In6Addr
unfolding get6
server_addr6 p = get6 p 1
