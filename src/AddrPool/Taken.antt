-- ===== src/AddrPool/Taken.antt =====
-- What a client sees of the pool: which addresses are taken. The operations against that view.
use native.Mathlib.Nat.{pow-suc, one-le-pow}
use mqcpn.Prelude.{
  suc, ap, ◌^◌, ℕ, ◌+◌, ◌-◌, ◌≡◌, ◌≤◌, ◌<◌, ◌↔◌, ◌⊎◌, Bool, true, false, ◌&&◌, Option, none, some,
  List, leb, ◌==◌, if◌then◌else◌, arith,
}
use mqcpn.Prelude.{take}
use mqcpn.Prelude.Text.{split_at}
use mqcpn.Prelude.Maybe.{>>=-eq-some}
use mqcpn.AddrPool.Pool.{
  AddrPool, alloc, alloc_at, release, fresh_pool, read_prefix, init, pool_size_of,
}
use mqcpn.AddrPool.Alloc.{Inv, alloc-none_iff, alloc-some, alloc-Inv}

-- A host address is taken where its flag is set; the server's address and those outside never are.
unfoldable pub taken : AddrPool → ℕ → Bool
taken p a = leb (p.base + 2) a && leb a (p.base + p.pool_size) && p.used (a - p.base)

-- The pool does not reach past the last address.
abbrev pub Fits : AddrPool → Type 0
Fits p = p.base + p.pool_size < 4294967296

-- In a well-formed pool, `alloc` fails exactly when every host address is taken.
pub alloc_exhausted_iff :
    (p : AddrPool)
    → Inv p
    → (alloc p ≡ none) ↔ ((a : ℕ) → p.base + 2 ≤ a → a ≤ p.base + p.pool_size → taken p a ≡ true)
unfolding taken
alloc_exhausted_iff p v = (
  λ e a lo hi. ground (arith, (alloc-none_iff p v).0 e (a - p.base)),
  λ all. (alloc-none_iff p v).1 λ off lo hi.
      let back : p.base + off - p.base ≡ off = omega arith in
      ground (arith, back, all (p.base + off)),
)

-- In a well-formed pool that does not reach past the last IPv4 address (base plus size under 2^32), an address
-- that `alloc` hands out is a host address that was not taken; afterwards it is taken, the others are as before,
-- and the pool is well formed again.
pub alloc-taken :
    (p : AddrPool) {a : ℕ} {q : AddrPool}
    → Inv p
    → Fits p
    → alloc p ≡ some (a, q)
    → (p.base + 2 ≤ a)
      × (a ≤ p.base + p.pool_size)
      × (taken p a ≡ false)
      × ((b : ℕ) → taken q b ≡ (if b == a then true else taken p b))
      × Inv q
unfolding taken
alloc-taken p {a} {q} v f e =
    let (off, got) = alloc-some p v e in
    let at : a ≡ p.base + off = ground (arith, got) in
    let back : a - p.base ≡ off = omega arith in
    (
      ground (arith, got),
      ground (arith, got),
      ground (arith, got),
      λ b. ground (arith, got),
      alloc-Inv p v e,
    )

-- `alloc_at` hands out the host address at its offset exactly when that is in range and not taken.
pub alloc_at-taken :
    (p : AddrPool) (off : ℕ)
    → Fits p
    → (alloc_at p off ≡ none → (off < 2) ⊎ (p.pool_size < off) ⊎ (taken p (p.base + off) ≡ true))
      × ((a : ℕ) (q : AddrPool)
          → alloc_at p off ≡ some (a, q)
          → (a ≡ p.base + off)
            × (taken p a ≡ false)
            × ((b : ℕ) → taken q b ≡ (if b == a then true else taken p b)))
unfolding taken alloc_at
alloc_at-taken p off f =
    let back : p.base + off - p.base ≡ off = omega arith in
    (λ e. ground arith, λ a q e. (ground arith, ground arith, λ b. ground arith))

-- `release` frees its address if that is a host address of the pool, and nothing else, whatever
-- address it is given.
pub release-taken :
    (p : AddrPool) (a b : ℕ) → taken (release p a) b ≡ (if b == a then false else taken p b)
unfolding taken release
release-taken p a b = ground arith

four-le-pow : (k : ℕ) → 4 ≤ 2 ^ suc (suc k)
four-le-pow k = omega (arith, pow-suc 2 k, pow-suc 2 (suc k), one-le-pow k 2 (omega arith))

pool_size_of_bounds :
    (prefix : ℕ) → prefix ≤ 30 → (2 ≤ pool_size_of prefix) × (pool_size_of prefix ≤ 254)
unfolding pool_size_of
pool_size_of_bounds prefix h =
    let bits : 32 - prefix ≡ suc (suc (30 - prefix)) = omega arith in
    ground (arith, four-le-pow (30 - prefix), ap (λ (t : ℕ). 2 ^ t) bits)

fresh_pool-Inv :
    (base plen : ℕ)
    → plen ≤ 30
    → Inv (fresh_pool base plen) × ((a : ℕ) → taken (fresh_pool base plen) a ≡ false)
unfolding fresh_pool taken
fresh_pool-Inv base plen h = (ground (arith, pool_size_of_bounds plen h), λ a. ground arith)

init-fresh_pool :
    (inet_pton : List ℕ → Option ℕ) (cidr : List ℕ) {p : AddrPool}
    → init inet_pton cidr ≡ some p
    → (base : ℕ) × (plen : ℕ) × (16 ≤ plen) × (plen ≤ 30) × (p ≡ fresh_pool base plen)
unfolding init
init-fresh_pool inet_pton cidr {p} e =
    let ((addr, prefix), _, e₁) = >>=-eq-some (split_at 47 (take 31 cidr)) _ e in
    let (plen, _, e₂) = >>=-eq-some (read_prefix 0 32 prefix) _ e₁ in
    let (base, _, e₃) = >>=-eq-some (inet_pton addr) _ e₂ in
    (base, plen, ground arith, ground arith, ground arith)

-- A pool that `init` builds is well formed, and nothing of it is taken.
pub init-Inv :
    (inet_pton : List ℕ → Option ℕ) (cidr : List ℕ) {p : AddrPool}
    → init inet_pton cidr ≡ some p
    → Inv p × ((a : ℕ) → taken p a ≡ false)
init-Inv inet_pton cidr e =
    let (base, plen, lo, hi, is) = init-fresh_pool inet_pton cidr e in
    rw is (fresh_pool-Inv base plen hi)
