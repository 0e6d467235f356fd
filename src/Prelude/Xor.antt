-- ===== src/Prelude/Xor.antt =====
-- The exclusive or of two numbers is 0 for equal numbers only, and an or is 0 for zeros only.
use Prim.Native.Nat.{
  ℕ, zero, suc, ◌+◌, ◌*◌, ◌/◌, ◌%◌, bit_or, bit_xor, differ, bit_xor-bitwise, bit_or-bitwise,
}
use mathlib.Core.Path.{◌≡◌, refl, ap, sym, ◌∙◌}
use native.Mathlib.Omega.{arith}
use mqcpn.Prelude.Bits.{digits_halved, halving, bit_or_step}

bit_xor_step : (x y : ℕ) → bit_xor x y ≡ bit_xor (x / 2) (y / 2) * 2 + differ (x % 2) (y % 2)
bit_xor_step zero y = ground (arith, bit_xor-bitwise 0 y, bit_xor-bitwise 0 (y / 2))
bit_xor_step (suc x) y =
    bit_xor-bitwise (suc x) y
    ∙ digits_halved (λ y. y) differ x y
    ∙ ap (λ (t : ℕ). t * 2 + differ (suc x % 2) (y % 2)) (sym (bit_xor-bitwise (suc x / 2) (y / 2)))

differ-zero : (x y : ℕ) → differ x y ≡ 0 → x ≡ y
differ-zero zero y h = sym h
differ-zero (suc x) zero h = h
differ-zero (suc x) (suc y) h = ap suc (differ-zero x y h)

differ-same : (x : ℕ) → differ x x ≡ 0
differ-same zero = refl
differ-same (suc x) = differ-same x

pub bit_xor-zero : (x y : ℕ) → bit_xor x y ≡ 0 → x ≡ y
bit_xor-zero =
    halving (λ x. (y : ℕ) → bit_xor x y ≡ 0 → x ≡ y) (λ y h. ground (arith, bit_xor-bitwise 0 y))
      (λ x half y h.
        let step = bit_xor_step (suc x) y in
        let low = differ-zero (suc x % 2) (y % 2) (omega arith) in
        omega (arith, half (y / 2) (omega arith)))

pub bit_xor-same : (x : ℕ) → bit_xor x x ≡ 0
bit_xor-same =
    halving (λ x. bit_xor x x ≡ 0) refl
      (λ x half. omega (arith, bit_xor_step (suc x) (suc x), half, differ-same (suc x % 2)))

pub bit_or-zero_left : (x y : ℕ) → bit_or x y ≡ 0 → (x ≡ 0) × (y ≡ 0)
bit_or-zero_left =
    halving (λ x. (y : ℕ) → bit_or x y ≡ 0 → (x ≡ 0) × (y ≡ 0))
      (λ y h. (refl, ground (arith, bit_or-bitwise 0 y)))
      (λ x half y h.
        let step = bit_or_step (suc x) y in
        let (hi, hi') = half (y / 2) (omega arith) in (omega arith, omega arith))
