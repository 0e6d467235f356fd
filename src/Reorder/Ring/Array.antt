-- ===== src/Reorder/Ring/Array.antt =====
-- `struct slot`, arrays of slots, and sums over an array.
use mqcpn.Prelude.{
  ℕ, zero, suc, ◌+◌, ◌*◌, ◌≡◌, ◌≤◌, ◌<◌, refl, Bool, true, false, Option, none, some, List, ◌==◌,
  Bool-cases, inl, inr, if◌then◌else◌, arith,
}

-- `struct slot`; `pkt` is `none` for a null pointer.
pub record Slot : Type 0 where
  pub seq : ℕ
  pub len : ℕ
  pub pkt : Option (List ℕ)
  pub enqueue_us : ℕ

-- What `calloc` fills an array with, and what `ring_remove` leaves.
abbrev pub empty_slot : Slot
empty_slot = record { seq = 0; len = 0; pkt = none; enqueue_us = 0 }

abbrev pub has_pkt : Option (List ℕ) → Bool
has_pkt none = false
has_pkt (some _) = true

abbrev pub is_occupied : Slot → Bool
is_occupied s = has_pkt s.pkt

-- A write into an array.
abbrev pub update : (ℕ → Slot) → ℕ → Slot → ℕ → Slot
update slots i s j = if j == i then s else slots j

-- The sum of a weight over the first `n` entries.
unfoldable pub total : (Slot → ℕ) → ℕ → (ℕ → Slot) → ℕ
total weight zero slots = 0
total weight (suc n) slots = total weight n slots + weight (slots n)

abbrev pub one_each : Slot → ℕ
one_each s = if is_occupied s then 1 else 0

abbrev pub len_each : Slot → ℕ
len_each s = if is_occupied s then s.len else 0

pub total-suc :
    (weight : Slot → ℕ) (n : ℕ) (slots : ℕ → Slot)
    → total weight (suc n) slots ≡ total weight n slots + weight (slots n)
unfolding total
total-suc weight n slots = refl

total-update_outside :
    (weight : Slot → ℕ) (n i : ℕ) (s : Slot) (slots : ℕ → Slot)
    → n ≤ i
    → total weight n (update slots i s) ≡ total weight n slots
unfolding total
total-update_outside weight zero i s slots h = refl
total-update_outside weight (suc n) i s slots h =
    ground (arith, total-update_outside weight n i s slots)

pub total-update :
    (weight : Slot → ℕ) (n i : ℕ) (s : Slot) (slots : ℕ → Slot)
    → i < n
    → total weight n (update slots i s) + weight (slots i) ≡ total weight n slots + weight s
unfolding total
total-update weight zero i s slots h = absurd (omega arith)
total-update weight (suc n) i s slots h =
    ground (arith, total-update weight n i s slots, total-update_outside weight n i s slots)

pub total-ge :
    (weight : Slot → ℕ) (n i : ℕ) (slots : ℕ → Slot)
    → i < n
    → weight (slots i) ≤ total weight n slots
unfolding total
total-ge weight zero i slots h = absurd (omega arith)
total-ge weight (suc n) i slots h = ground (arith, total-ge weight n i slots)

pub total-empty :
    (weight : Slot → ℕ) (n : ℕ) → weight empty_slot ≡ 0 → total weight n (λ _. empty_slot) ≡ 0
unfolding total
total-empty weight zero h = refl
total-empty weight (suc n) h = ground (arith, total-empty weight n h)

-- A positive sum has a positive entry.
pub total-pos :
    (weight : Slot → ℕ) (n : ℕ) (slots : ℕ → Slot)
    → 0 < total weight n slots
    → (i : ℕ) × (i < n) × (0 < weight (slots i))
unfolding total
total-pos weight zero slots h = absurd (omega arith)
total-pos weight (suc n) slots h = elim (Bool-cases (weight (slots n) == 0)) [
  | inl none_here ↦
      let (i, lt, pos) = total-pos weight n slots (ground arith) in (i, omega arith, pos)
  | inr here ↦ (n, omega arith, ground arith)
]

pub total-le :
    (weight : Slot → ℕ) (bound n : ℕ) (slots : ℕ → Slot)
    → ((i : ℕ) → weight (slots i) ≤ bound)
    → total weight n slots ≤ n * bound
unfolding total
total-le weight bound zero slots h = omega arith
total-le weight bound (suc n) slots h = grind (arith, total-le weight bound n slots h, h n)
