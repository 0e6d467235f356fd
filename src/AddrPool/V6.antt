-- ===== src/AddrPool/V6.antt =====
-- The IPv6 side of the pool, which shares the offsets: `mqvpn_addr_pool_offset6` against `get6`.
use mqcpn.Prelude.{
  ℕ, ◌+◌, ◌-◌, ◌≡◌, ◌<◌, not, ltb, if◌then◌else◌, same_bytes, same_bytes_refl, arith,
}
use mqcpn.AddrPool.Pool.{In6Addr, AddrPool, get6}

-- `mqvpn_addr_pool_offset6`; 0 is "out of range".
unfoldable pub offset6 : AddrPool → In6Addr → ℕ
offset6 p addr =
    if not (same_bytes addr.high p.base6.high)
    then 0
    else if ltb addr.low p.base6.low
    then 0
    else addr.low - p.base6.low

-- `offset6` gives back the offset that `get6` made an address of, unless the sum passed the last 32
-- bits; then it says "out of range".
pub offset6-get6 :
    (p : AddrPool) (off : ℕ)
    → p.base6.low < 4294967296
    → off < 4294967296
    → offset6 p (get6 p off) ≡ (if ltb (p.base6.low + off) 4294967296 then off else 0)
unfolding offset6 get6
offset6-get6 p off hb ho = ground (arith, same_bytes_refl p.base6.high)
