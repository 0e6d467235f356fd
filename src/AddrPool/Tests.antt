-- ===== src/AddrPool/Tests.antt =====
-- Runs of the address pool, and the theorems on it at concrete pools.
use mqcpn.Prelude.{
  ℕ, ◌≡◌, ◌≤◌, ◌↔◌, refl, true, false, Option, none, some, List, [], ◌∷◌, ◌==◌, if◌then◌else◌,
  arith,
}
use mqcpn.AddrPool.Pool.{
  AddrPool, init, alloc, alloc_at, pool_size_of, read_prefix, fresh_pool, set_used,
}
use mqcpn.Prelude.Maybe.{◌>>=◌}
use mqcpn.Prelude.Text.{split_at}
use mqcpn.AddrPool.Alloc.{Inv}
use mqcpn.AddrPool.Taken.{taken, alloc_exhausted_iff, alloc-taken}

-- 10.0.0.0/30: one client address.
abbrev tiny : AddrPool
tiny = record {
  base = 167772160;
  prefix_len = 30;
  pool_size = 2;
  next = 2;
  used = λ _. false;
  base6 = record { high = 253 ∷ []; low = 256 };
  prefix6 = 112;
  has_v6 = true;
}

tiny-Inv : Inv tiny
tiny-Inv = record {
  room = omega arith;
  small = omega arith;
  from = omega arith;
  upto = omega arith;
}

abbrev tiny_full : AddrPool
tiny_full = record tiny { used = set_used tiny.used 2 true; next = 3 }

allocates : alloc tiny ≡ some (167772162, tiny_full)
unfolding alloc
allocates = refl

exhausted : alloc tiny_full ≡ none
unfolding alloc
exhausted = refl

alloc_exhausted_iff_example :
    (alloc tiny ≡ none) ↔ ((a : ℕ) → 167772162 ≤ a → a ≤ 167772162 → taken tiny a ≡ true)
alloc_exhausted_iff_example = alloc_exhausted_iff tiny tiny-Inv

alloc-taken_example :
    (167772162 ≤ 167772162)
    × (167772162 ≤ 167772162)
    × (taken tiny 167772162 ≡ false)
    × ((b : ℕ) → taken tiny_full b ≡ (if b == 167772162 then true else taken tiny b))
    × Inv tiny_full
alloc-taken_example = alloc-taken tiny tiny-Inv (omega arith) allocates

-- A pool whose base keeps its host bits, 255.255.255.254/24, hands out 0.0.0.0.
hands_out_zero : (alloc (fresh_pool 4294967294 24) >>= (λ (r : ℕ × AddrPool). some r.0)) ≡ some 0
unfolding alloc alloc_at fresh_pool pool_size_of
hands_out_zero = refl

-- "a/30", and what a resolver makes of "a".
abbrev cidr : List ℕ
cidr = 97 ∷ 47 ∷ 51 ∷ 48 ∷ []

abbrev resolver : List ℕ → Option ℕ
resolver _ = some 167772160

initialises : init resolver cidr ≡ some (fresh_pool 167772160 30)
unfolding init read_prefix split_at
initialises = refl
