-- ===== src/Auth/Compare.antt =====
-- The comparison that reads every byte accepts equal strings only.
use Prim.Native.Nat.{bit_or, bit_xor}
use mqcpn.Prelude.{ℕ, ◌≡◌, ◌↔◌, refl, ap₂, arith, true, List, [], ◌∷◌, length, subst}
use mqcpn.Prelude.Xor.{bit_xor-zero, bit_xor-same, bit_or-zero_left}
use mqcpn.Auth.{ct_loop, ct_compare}

-- A bit that the loop has set stays set.
ct_loop-zero :
    (result : ℕ) (a b : List ℕ)
    → length a ≡ length b
    → ct_loop result a b ≡ 0
    → (result ≡ 0) × (a ≡ b)
unfolding ct_loop
ct_loop-zero result [] [] len h = (h, refl)
ct_loop-zero result [] (y ∷ b) len h = absurd (omega arith)
ct_loop-zero result (x ∷ a) [] len h = absurd (omega arith)
ct_loop-zero result (x ∷ a) (y ∷ b) len h =
    let (none_set, rest) = ct_loop-zero (bit_or result (bit_xor x y)) a b (omega arith) h in
    let (before, here) = bit_or-zero_left result (bit_xor x y) none_set in
    (before, ap₂ (λ (z : ℕ) (zs : List ℕ). z ∷ zs) (bit_xor-zero x y here) rest)

ct_loop-same : (a : List ℕ) → ct_loop 0 a a ≡ 0
unfolding ct_loop
ct_loop-same [] = refl
ct_loop-same (x ∷ a) = rw (bit_xor-same x) (ct_loop-same a)

-- The comparison answers that two strings are the same if and only if they are.
pub ct_compare_iff : (a b : List ℕ) → (ct_compare a b ≡ true) ↔ (a ≡ b)
unfolding ct_compare
ct_compare_iff a b = (
  agree a b,
  λ same. subst (λ (b : List ℕ). ct_compare a b ≡ true) same (ground (arith, ct_loop-same a)),
)
  where
    agree : (a b : List ℕ) → ct_compare a b ≡ true → a ≡ b
    agree a b h =
        let len : length a ≡ length b = ground (arith, h) in
        let (_, same) = ct_loop-zero 0 a b len (ground (arith, h)) in same
