-- ===== src/Prelude/Bits.antt =====
-- The bit operations at variables: masks and joined fields as arithmetic, and the power-of-two test.
use Prim.Native.Nat.{
  ℕ, zero, suc, ◌+◌, ◌-◌, ◌*◌, ◌/◌, ◌%◌, ◌^◌, ◌≤◌, ◌<◌, min, max, bit_and, bit_or, digits,
  bit_and-bitwise, bit_or-bitwise,
}
use mathlib.Core.Logic.{inl, inr}
use mathlib.Core.Path.{◌≡◌, refl, ap, sym, ◌∙◌}
use mathlib.Core.Logic.{inl, inr}
use native.Mathlib.Nat.{pow-suc, one-le-pow, div-div-eq-div-mul}
use mathlib.Core.Bool.{true, false}
use mqcpn.Prelude.Tests.{◌==◌, Bool-cases}
use native.Mathlib.Omega.{arith}

-- Rounds beyond the number of digits change nothing, whatever is done with a pair of digits.
module _ (rest : ℕ → ℕ) (pair : ℕ → ℕ → ℕ) where
  one_more_round :
      (rounds x y : ℕ)
      → x ≤ rounds
      → digits rest pair (suc rounds) x y ≡ digits rest pair rounds x y
  one_more_round rounds zero y fits = no_digits rounds y
    where
      no_digits : (k y : ℕ) → digits rest pair (suc k) 0 y ≡ digits rest pair k 0 y
      no_digits zero y = refl
      no_digits (suc k) y = refl
  one_more_round zero (suc x) y fits = absurd (omega arith)
  one_more_round (suc rounds) (suc x) y fits =
      ap (λ (t : ℕ). t * 2 + pair (suc x % 2) (y % 2))
        (one_more_round rounds (suc x / 2) (y / 2) (omega arith))

  more_rounds : (k x y : ℕ) → digits rest pair (k + x) x y ≡ digits rest pair x x y
  more_rounds zero x y =
      let same : 0 + x ≡ x = omega arith in ap (λ (t : ℕ). digits rest pair t x y) same
  more_rounds (suc k) x y =
      let next : suc k + x ≡ suc (k + x) = omega arith in
      ap (λ (t : ℕ). digits rest pair t x y) next
      ∙ one_more_round (k + x) x y (omega arith)
      ∙ more_rounds k x y

  -- The lowest digits, and the numbers without them.
  pub digits_halved :
      (x y : ℕ)
      → digits rest pair (suc x) (suc x) y
        ≡ digits rest pair (suc x / 2) (suc x / 2) (y / 2) * 2 + pair (suc x % 2) (y % 2)
  digits_halved x y =
      let half = suc x / 2 in
      let rounds : x ≡ x - half + half = omega arith in
      ap (λ (t : ℕ). t * 2 + pair (suc x % 2) (y % 2))
        (ap (λ (t : ℕ). digits rest pair t half (y / 2)) rounds
          ∙ more_rounds (x - half) half (y / 2))

pub bit_and_step : (x y : ℕ) → bit_and x y ≡ bit_and (x / 2) (y / 2) * 2 + min (x % 2) (y % 2)
bit_and_step zero y = ground (arith, bit_and-bitwise 0 y, bit_and-bitwise 0 (y / 2))
bit_and_step (suc x) y =
    bit_and-bitwise (suc x) y
    ∙ digits_halved (λ _. zero) min x y
    ∙ ap (λ (t : ℕ). t * 2 + min (suc x % 2) (y % 2)) (sym (bit_and-bitwise (suc x / 2) (y / 2)))

pub bit_or_step : (x y : ℕ) → bit_or x y ≡ bit_or (x / 2) (y / 2) * 2 + max (x % 2) (y % 2)
bit_or_step zero y = ground (arith, bit_or-bitwise 0 y, bit_or-bitwise 0 (y / 2))
bit_or_step (suc x) y =
    bit_or-bitwise (suc x) y
    ∙ digits_halved (λ y. y) max x y
    ∙ ap (λ (t : ℕ). t * 2 + max (suc x % 2) (y % 2)) (sym (bit_or-bitwise (suc x / 2) (y / 2)))

-- Induction by halves.
halving_below :
    (P : ℕ → Type 0) → P 0 → ((x : ℕ) → P (suc x / 2) → P (suc x)) → (n x : ℕ) → x ≤ n → P x
halving_below P base step n zero le = base
halving_below P base step zero (suc x) le = absurd (omega arith)
halving_below P base step (suc n) (suc x) le =
    step x (halving_below P base step n (suc x / 2) (omega arith))

pub halving : (P : ℕ → Type 0) → P 0 → ((x : ℕ) → P (suc x / 2) → P (suc x)) → (x : ℕ) → P x
halving P base step x = halving_below P base step x x (omega arith)

bit_or-zero : (x : ℕ) → bit_or x 0 ≡ x
bit_or-zero =
    halving (λ x. bit_or x 0 ≡ x) refl (λ x half. omega (arith, bit_or_step (suc x) 0, half))

none_in_common : (x : ℕ) → bit_and x 0 ≡ 0
none_in_common =
    halving (λ x. bit_and x 0 ≡ 0) refl (λ x half. omega (arith, bit_and_step (suc x) 0, half))

bit_and_self : (x : ℕ) → bit_and x x ≡ x
bit_and_self =
    halving (λ x. bit_and x x ≡ x) refl
      (λ x half. omega (arith, bit_and_step (suc x) (suc x), half))

one_bit_up : (hi width : ℕ) → hi * 2 ^ suc width ≡ 2 * (hi * 2 ^ width)
one_bit_up hi width =
    let power : 2 ^ suc width ≡ 2 ^ width * 2 = omega (arith, pow-suc 2 width) in
    omega (arith, ap (λ (power : ℕ). hi * power) power)

-- Joining a high field, shifted up, with a low one adds them if the low one fits its width.
pub bit_or_fields :
    (width hi lo : ℕ) → lo < 2 ^ width → bit_or (hi * 2 ^ width) lo ≡ hi * 2 ^ width + lo
bit_or_fields zero hi lo fits =
    let nothing : lo ≡ 0 = omega arith in rw nothing (omega (arith, bit_or-zero (hi * 1)))
bit_or_fields (suc width) hi lo fits =
    let up = one_bit_up hi width in
    let halves = bit_or_fields width hi (lo / 2) (omega (arith, pow-suc 2 width)) in
    ground (arith, up, halves, bit_or_step (hi * 2 ^ suc width) lo, pow-suc 2 width)

low_field : (width hi lo : ℕ) → lo < 2 ^ width → bit_and (hi * 2 ^ width + lo) (2 ^ width - 1) ≡ lo
low_field zero hi lo fits = ground (arith, none_in_common (hi * 1 + lo))
low_field (suc width) hi lo fits =
    let up = one_bit_up hi width in
    let halves = low_field width hi (lo / 2) (omega (arith, pow-suc 2 width)) in
    let all_ones = one-le-pow width 2 in
    ground (
      arith,
      up,
      halves,
      all_ones,
      bit_and_step (hi * 2 ^ suc width + lo) (2 ^ suc width - 1),
      pow-suc 2 width,
    )

-- The mask of the lowest bits leaves a remainder.
pub bit_and_mask : (width n : ℕ) → bit_and n (2 ^ width - 1) ≡ n % 2 ^ width
bit_and_mask width n =
    let split = low_field width (n / 2 ^ width) (n % 2 ^ width) in
    ground (arith, split, one-le-pow width 2)

pow_two_below : (fuel n : ℕ) → n ≤ fuel → 0 < n → bit_and n (n - 1) ≡ 0 → (k : ℕ) × (n ≡ 2 ^ k)
pow_two_below zero n le pos e = absurd (omega arith)
pow_two_below (suc fuel) n le pos e = elim (Bool-cases (n % 2 == 0)) [
  | inl even ↦
      let twice : n ≡ 2 * (n / 2) = ground (arith, even) in
      let half : bit_and (n / 2) (n / 2 - 1) ≡ 0 = even_step even in
      let (k, is) = pow_two_below fuel (n / 2) (omega arith) (omega arith) half in
      (suc k, omega (arith, twice, is, pow-suc 2 k))
  | inr odd ↦ (0, odd_step odd)
]
  where
    even_step : (n % 2 == 0) ≡ true → bit_and (n / 2) (n / 2 - 1) ≡ 0
    even_step even =
        let pred : (n - 1) / 2 ≡ n / 2 - 1 = ground (arith, even) in
        ground (arith, bit_and_step n (n - 1), pred, ap (λ (t : ℕ). bit_and (n / 2) t) pred)

    odd_step : (n % 2 == 0) ≡ false → n ≡ 1
    odd_step odd =
        let pred : (n - 1) / 2 ≡ n / 2 = ground arith in
        ground (
          arith,
          bit_and_step n (n - 1),
          ap (λ (t : ℕ). bit_and (n / 2) t) pred,
          bit_and_self (n / 2),
        )

-- `n & (n - 1)` is 0 for powers of two only.
pub pow_two_of_mask : (n : ℕ) → 0 < n → bit_and n (n - 1) ≡ 0 → (k : ℕ) × (n ≡ 2 ^ k)
pow_two_of_mask n pos e = pow_two_below n n (omega arith) pos e

pub bit_and_le : (x y : ℕ) → bit_and x y ≤ y
bit_and_le =
    halving (λ x. (y : ℕ) → bit_and x y ≤ y) (λ y. ground (arith, bit_and-bitwise 0 y))
      (λ x half y. omega (arith, bit_and_step (suc x) y, half (y / 2)))

-- The mask of the `j` bits above the lowest `k`.
pub bit_and_high : (j k x : ℕ) → bit_and x ((2 ^ j - 1) * 2 ^ k) ≡ ((x / 2 ^ k) % 2 ^ j) * 2 ^ k
bit_and_high j zero x =
    let whole : (2 ^ j - 1) * 2 ^ 0 ≡ 2 ^ j - 1 = omega arith in
    let unshifted : x / 2 ^ 0 ≡ x = omega arith in
    rw (whole, unshifted) (omega (arith, bit_and_mask j x))
bit_and_high j (suc k) x =
    let up = one_bit_up (2 ^ j - 1) k in
    let half = bit_and_high j k (x / 2) in
    let quotient : x / 2 / 2 ^ k ≡ x / 2 ^ suc k =
      div-div-eq-div-mul x 2 (2 ^ k) ∙ ap (λ (d : ℕ). x / d) (omega (arith, pow-suc 2 k)) in
    let field = (x / 2 ^ suc k) % 2 ^ j in
    let up' = one_bit_up field k in
    ground (arith, up, up', half, quotient, bit_and_step x ((2 ^ j - 1) * 2 ^ suc k))
