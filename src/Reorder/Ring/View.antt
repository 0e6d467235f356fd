-- ===== src/Reorder/Ring/View.antt =====
-- What a client sees of the ring: a partial map from sequence numbers to packets. The invariant that
-- makes the view well behaved.
use native.Mathlib.Nat.{mod-lt, pow-le-pow_right, div-add-mod, mul-le-mul_left, one-le-pow}
use mqcpn.Prelude.{
  ℕ, ◌+◌, ◌*◌, ◌/◌, ◌%◌, ◌^◌, ◌≡◌, ◌≤◌, ◌<◌, ap, true, Option, none, some, List, ◌==◌,
  if◌then◌else◌, arith, dec_lt, Option-cases, false,
}
use mqcpn.Prelude.Bits.{bit_and_mask}
use mqcpn.Reorder.Ring.Array.{Slot, is_occupied, total, one_each, len_each}
use mqcpn.Reorder.Ring.{Ring, Taken, ring_idx, holds}

abbrev pub taken_from : Slot → Option (List ℕ) → Option Taken
taken_from s none = none
taken_from s (some pkt) = some (record { pkt = pkt; len = s.len; enqueue_us = s.enqueue_us })

abbrev pub look_in : (ℕ → Slot) → ℕ → ℕ → Option Taken
look_in slots size seq =
    if (slots (ring_idx size seq)).seq == seq
    then taken_from (slots (ring_idx size seq)) (slots (ring_idx size seq)).pkt
    else none

-- The packet buffered under a sequence number.
unfoldable pub look : Ring → ℕ → Option Taken
look r seq = elim r.slots [ none ↦ none | some slots ↦ look_in slots r.size seq ]

-- Where each buffered packet lies: in its slot, within the window.
abbrev pub Placed : ℕ → ℕ → (ℕ → Slot) → Type 0
Placed e size slots =
    (i : ℕ)
    → i < size
    → is_occupied (slots i) ≡ true
    → (ring_idx size (slots i).seq ≡ i) × (e ≤ (slots i).seq) × ((slots i).seq < e + size)

-- An array of `size` slots with its counters.
pub record Filled (e : ℕ) (r : Ring) (slots : ℕ → Slot) : Type 0 where
  pub bits : ℕ
  pub size_is : r.size ≡ 2 ^ bits
  pub size_le : r.size ≤ r.cap
  pub placed : Placed e r.size slots
  pub count_is : r.count ≡ total one_each r.size slots
  pub bytes_is : r.bytes ≡ total len_each r.size slots

abbrev pub Shape : ℕ → Ring → Option (ℕ → Slot) → Type 0
Shape e r none = (r.size ≡ 0) × (r.count ≡ 0) × (r.bytes ≡ 0)
Shape e r (some slots) = Filled e r slots

-- A ring whose window starts at `e`.
pub record Inv (e : ℕ) (r : Ring) : Type 0 where
  pub cap_bits : ℕ
  pub cap_small : cap_bits ≤ 31
  pub cap_is : r.cap ≡ 2 ^ cap_bits
  pub shape : Shape e r r.slots

pub pow_small : (k : ℕ) → k ≤ 31 → 2 ^ k ≤ 2147483648
pow_small k h = pow-le-pow_right {n = 2} (omega arith) {i = k} {j = 31} h

pub ring_idx-mod : (k seq : ℕ) → 2 ^ k ≤ 2147483648 → ring_idx (2 ^ k) seq ≡ seq % 2 ^ k
unfolding ring_idx
ring_idx-mod k seq h = ground (arith, bit_and_mask k seq, one-le-pow k 2, mod-lt seq {m = 2 ^ k})

pub ring_idx-lt_pow : (k seq : ℕ) → k ≤ 31 → ring_idx (2 ^ k) seq < 2 ^ k
ring_idx-lt_pow k seq h =
    ground (arith, ring_idx-mod k seq (pow_small k h), one-le-pow k 2, mod-lt seq {m = 2 ^ k})

-- Where the looked-for slot does not hold the number, the view has nothing.
pub look_in-none :
    (slots : ℕ → Slot) (size seq : ℕ) → holds slots size seq ≡ false → look_in slots size seq ≡ none
look_in-none slots size seq h = ground (arith, Option-cases (slots (ring_idx size seq)).pkt)

-- Two numbers of one window that lie in one slot are equal.
pub window_unique : (n e a b : ℕ) → a % n ≡ b % n → e ≤ a → a < e + n → e ≤ b → b < e + n → a ≡ b
window_unique n e a b m la ua lb ub = elim (dec_lt (a / n) (b / n)) [
  | yes lt ↦ absurd (omega (arith, div-add-mod a n, div-add-mod b n, mul-le-mul_left n lt))
  | no nlt ↦ elim (dec_lt (b / n) (a / n)) [
    | yes gt ↦ absurd (omega (arith, div-add-mod a n, div-add-mod b n, mul-le-mul_left n gt))
    | no ngt ↦
        let q : a / n ≡ b / n = omega arith in
        omega (arith, div-add-mod a n, div-add-mod b n, ap (λ (t : ℕ). n * t) q)
  ]
]
