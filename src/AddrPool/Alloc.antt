-- ===== src/AddrPool/Alloc.antt =====
-- The scan of `mqvpn_addr_pool_alloc`: it finds a free offset exactly when there is one.
use native.Mathlib.Nat.{mod-lt, mod-eq_of_lt, add-mod_right}
use mqcpn.Prelude.{
  ℕ, zero, suc, ◌+◌, ◌-◌, ◌%◌, ◌≡◌, ◌≤◌, ◌<◌, ◌⊎◌, inl, inr, true, false, ◌||◌, none, some, ◌==◌,
  leb, if◌then◌else◌, arith, Bool-cases, Option-cases, ◌↔◌,
}
use mqcpn.Prelude.Words.{u32, sub32}
use mqcpn.AddrPool.Pool.{AddrPool, alloc_scan, set_used, alloc}

-- The sizes that `mqvpn_addr_pool_init` allows, and where the scan starts.
pub record Inv (p : AddrPool) : Type 0 where
  pub room : 2 ≤ p.pool_size
  pub small : p.pool_size ≤ 254
  pub from : 2 ≤ p.next
  pub upto : p.next ≤ p.pool_size + 1

abbrev pub scan_off : AddrPool → ℕ → ℕ
scan_off p i = u32 (sub32 p.next 1 + i) % p.pool_size + 1

alloc_scan-none :
    (rounds i j : ℕ) (p : AddrPool)
    → alloc_scan rounds i p ≡ none
    → j < rounds
    → (scan_off p (i + j) ≡ 1) ⊎ (p.used (scan_off p (i + j)) ≡ true)
unfolding alloc_scan
alloc_scan-none zero i j p e h = absurd (omega arith)
alloc_scan-none (suc rounds) i zero p e h = let i0 : i + 0 ≡ i = omega arith in rw i0 (ground arith)
alloc_scan-none (suc rounds) i (suc j) p e h =
    let shift : i + suc j ≡ i + 1 + j = omega arith in
    rw shift (ground (arith, alloc_scan-none rounds (i + 1) j p))

-- What a successful scan returns.
pub record Allocated (p : AddrPool) (a : ℕ) (q : AddrPool) (off : ℕ) : Type 0 where
  pub host : 2 ≤ off
  pub fits : off ≤ p.pool_size
  pub free : p.used off ≡ false
  pub addr : a ≡ u32 (p.base + off)
  pub pool : q ≡ record p { used = set_used p.used off true; next = off + 1 }

alloc_scan-some :
    (rounds i : ℕ) (p : AddrPool) {a : ℕ} {q : AddrPool}
    → 0 < p.pool_size
    → alloc_scan rounds i p ≡ some (a, q)
    → (off : ℕ) × Allocated p a q off
unfolding alloc_scan
alloc_scan-some zero i p h e = absurd (cc)
alloc_scan-some (suc rounds) i p h e =
    elim (Bool-cases (scan_off p i == 1 || p.used (scan_off p i))) [
      | inl skip ↦ alloc_scan-some rounds (i + 1) p h (ground (arith))
      | inr take ↦ (scan_off p i, ground (arith, in_range))
    ]
  where
    in_range : scan_off p i ≤ p.pool_size
    in_range = grind (arith, mod-lt)

-- The round of the scan that meets a host offset.
abbrev round_of : AddrPool → ℕ → ℕ
round_of p off = if leb p.next off then off - p.next else off + p.pool_size - p.next

scan_off-round_of :
    (p : AddrPool) (off : ℕ)
    → Inv p
    → 2 ≤ off
    → off ≤ p.pool_size
    → (round_of p off < p.pool_size) × (scan_off p (round_of p off) ≡ off)
scan_off-round_of p off v lo hi =
    ground
      (arith, v, mod-eq_of_lt {n = off - 1} {m = p.pool_size}, add-mod_right (off - 1) p.pool_size)

-- Allocation fails exactly when every host offset is in use.
pub alloc-none_iff :
    (p : AddrPool)
    → Inv p
    → (alloc p ≡ none) ↔ ((off : ℕ) → 2 ≤ off → off ≤ p.pool_size → p.used off ≡ true)
unfolding alloc
alloc-none_iff p v = (full, exhausted)
  where
    full : alloc p ≡ none → (off : ℕ) → 2 ≤ off → off ≤ p.pool_size → p.used off ≡ true
    full e off lo hi =
        let met = scan_off-round_of p off v lo hi in
        ground (arith, met, alloc_scan-none p.pool_size 0 (round_of p off) p)

    exhausted : ((off : ℕ) → 2 ≤ off → off ≤ p.pool_size → p.used off ≡ true) → alloc p ≡ none
    exhausted all = elim (Option-cases (alloc p)) [
      | inl e ↦ e
      | inr ((a, q), e) ↦
          let (off, got) = alloc_scan-some p.pool_size 0 p (ground (arith, v)) e in
          absurd (ground (arith, got, all off))
    ]

pub alloc-some :
    (p : AddrPool) {a : ℕ} {q : AddrPool}
    → Inv p
    → alloc p ≡ some (a, q)
    → (off : ℕ) × Allocated p a q off
unfolding alloc
alloc-some p v e = alloc_scan-some p.pool_size 0 p (ground (arith, v)) e

pub alloc-Inv : (p : AddrPool) {a : ℕ} {q : AddrPool} → Inv p → alloc p ≡ some (a, q) → Inv q
alloc-Inv p v e = let (off, got) = alloc-some p v e in ground (arith, v, got)
