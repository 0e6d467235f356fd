-- ===== src/Hybrid/Cidr/Range.antt =====
-- A range is the addresses that agree with it in their leading bits.
use Prim.Native.Nat.{bit_and}
use mqcpn.Prelude.{
  ℕ, ◌-◌, ◌*◌, ◌/◌, ◌^◌, ◌≡◌, ◌≤◌, ◌<◌, ◌↔◌, refl, ap, sym, ◌∙◌, true, ◌==◌, arith, holds_below,
  holds_below-at,
}
use mqcpn.Prelude.Bits.{bit_and_high}
use native.Mathlib.Nat.{mod-eq_of_lt, div-lt_iff_lt-mul, one-le-pow, mul-div_cancel}
use mqcpn.Hybrid.Cidr.{cidr_mask, cidr_match, range_of}

mask_table : holds_below (λ n. cidr_mask n == (2 ^ n - 1) * 2 ^ (32 - n)) 33 ≡ true
unfolding holds_below cidr_mask
mask_table = refl

split_table : holds_below (λ n. 2 ^ n * 2 ^ (32 - n) == 4294967296) 33 ≡ true
unfolding holds_below
split_table = refl

pub eq_of_test : (a b : ℕ) → (a == b) ≡ true → a ≡ b
eq_of_test a b h = ground arith

module _ (prefix ip : ℕ) (le : prefix ≤ 32) (word : ip < 2 ^ 32) where
  -- The mask keeps the leading bits.
  pub masked : bit_and ip (cidr_mask prefix) ≡ ip / 2 ^ (32 - prefix) * 2 ^ (32 - prefix)
  masked =
      let k = 32 - prefix in
      let mask : cidr_mask prefix ≡ (2 ^ prefix - 1) * 2 ^ k =
        eq_of_test (cidr_mask prefix) ((2 ^ prefix - 1) * 2 ^ k) (
          holds_below-at (λ n. cidr_mask n == (2 ^ n - 1) * 2 ^ (32 - n)) 33 prefix mask_table
            (omega arith)) in
      let split : 2 ^ prefix * 2 ^ k ≡ 4294967296 = eq_of_test (2 ^ prefix * 2 ^ k) 4294967296 (
        holds_below-at (λ n. 2 ^ n * 2 ^ (32 - n) == 4294967296) 33 prefix split_table
          (omega arith)) in
      let pos = one-le-pow k 2 (omega arith) in
      let small : ip / 2 ^ k < 2 ^ prefix =
        (div-lt_iff_lt-mul (omega (arith, pos))).1 (omega (arith, split, word)) in
      ap (bit_and ip) mask
      ∙ bit_and_high prefix k ip
      ∙ ap (λ (f : ℕ). f * 2 ^ k) (mod-eq_of_lt small)

-- An address is in the range of another exactly when the two agree in the leading `prefix` bits.
pub cidr_match_iff :
    (prefix base ip : ℕ)
    → prefix ≤ 32
    → base < 2 ^ 32
    → ip < 2 ^ 32
    → (cidr_match (range_of base prefix) ip ≡ true)
      ↔ (ip / 2 ^ (32 - prefix) ≡ base / 2 ^ (32 - prefix))
unfolding cidr_match
cidr_match_iff prefix base ip le small_base small_ip =
    let k = 32 - prefix in
    let m = masked prefix ip le small_ip in
    let n = masked prefix base le small_base in
    let pos : 0 < 2 ^ k = omega (arith, one-le-pow k 2 (omega arith)) in
    (
      λ (hit : (bit_and ip (cidr_mask prefix) == bit_and base (cidr_mask prefix)) ≡ true).
          let same : ip / 2 ^ k * 2 ^ k ≡ base / 2 ^ k * 2 ^ k =
            sym m
            ∙ eq_of_test (bit_and ip (cidr_mask prefix)) (bit_and base (cidr_mask prefix)) hit
            ∙ n in
          sym (mul-div_cancel (ip / 2 ^ k) pos)
          ∙ ap (λ (p : ℕ). p / 2 ^ k) same
          ∙ mul-div_cancel (base / 2 ^ k) pos,
      λ (same : ip / 2 ^ k ≡ base / 2 ^ k).
          let equal : bit_and ip (cidr_mask prefix) ≡ bit_and base (cidr_mask prefix) =
            m ∙ ap (λ (q : ℕ). q * 2 ^ k) same ∙ sym n in
          ground (arith, equal),
    )
