-- ===== src/Reorder/Ring.antt =====
-- The elastic ring of reorder_rx.c: buffered packets indexed by sequence number.
-- An array is a function of the index, beside its size; `slots` is `none` for a null pointer. Sequence
-- numbers do not wrap (the design's bound is 2^48), and `seq - expected` is taken where `seq` is ahead
-- only. `count` and `bytes` are not cut: the ring's invariant bounds them.
pub mod Array
pub mod View
pub mod Remove
pub mod Lowest
pub mod Rehash
pub mod Grow
pub mod Insert
pub mod Advance
mod Tests
use Prim.Native.Nat.{bit_and}
use mqcpn.Prelude.{
  ℕ, zero, suc, ◌+◌, ◌-◌, ◌*◌, Bool, true, false, not, ◌&&◌, ◌||◌, Option, none, some, List, ltb,
  leb, ◌==◌, if◌then◌else◌,
}
use mqcpn.Prelude.Words.{u32}
use Array.{Slot, empty_slot, is_occupied, update}

-- `struct ring`
pub record Ring : Type 0 where
  pub slots : Option (ℕ → Slot)
  pub size : ℕ
  pub cap : ℕ
  pub count : ℕ
  pub bytes : ℕ

-- `RING_IDX`
unfoldable pub ring_idx : ℕ → ℕ → ℕ
ring_idx size seq = u32 (bit_and seq (size - 1))

unfoldable pub ring_init : ℕ → Ring
ring_init cap = record { slots = none; size = 0; cap = cap; count = 0; bytes = 0 }

unfoldable pub ring_free : Ring → Ring
ring_free r = record r { slots = none; size = 0; count = 0; bytes = 0 }

unfoldable pub ring_empty : Ring → Bool
ring_empty r = r.count == 0

unfoldable pub ring_far_ahead : Ring → ℕ → ℕ → Bool
ring_far_ahead r seq expected = leb r.cap (seq - expected)

-- The slot that a sequence number is looked for in holds it.
abbrev pub holds : (ℕ → Slot) → ℕ → ℕ → Bool
holds slots size seq =
    is_occupied (slots (ring_idx size seq)) && (slots (ring_idx size seq)).seq == seq

unfoldable pub ring_contains : Ring → ℕ → Bool
ring_contains r seq = elim r.slots [ none ↦ false | some slots ↦ holds slots r.size seq ]

-- The loop of `ring_grow_to_cover` that doubles `want`; 32 rounds are enough for any `cap` below 2^32.
unfoldable pub grow_want : ℕ → ℕ → ℕ → ℕ → ℕ
grow_want zero span cap want = want
grow_want (suc rounds) span cap want =
    let more = grow_want rounds span cap (u32 (want * 2)) in
    if leb want span && ltb want cap then more else want

-- The rehash loop of `ring_grow_to_cover`: the entries below `n` of the old array, moved.
unfoldable pub rehash : ℕ → ℕ → (ℕ → Slot) → ℕ → Slot
rehash new_size zero old = λ _. empty_slot
rehash new_size (suc n) old =
    if is_occupied (old n)
    then update (rehash new_size n old) (ring_idx new_size (old n).seq) (old n)
    else rehash new_size n old

abbrev old_slots : Option (ℕ → Slot) → ℕ → Slot
old_slots none = λ _. empty_slot
old_slots (some slots) = slots

abbrev pub is_allocated : Option (ℕ → Slot) → Bool
is_allocated none = false
is_allocated (some _) = true

-- `ring_grow_to_cover`; `calloc_ok` says whether `ring_alloc_slots` gets its memory.
unfoldable pub ring_grow_to_cover : Bool → Ring → ℕ → Option Ring
ring_grow_to_cover calloc_ok r span =
    let first = if r.size == 0 then 1 else r.size in
    let grown = grow_want 32 span r.cap first in
    let want = if ltb grown r.size then r.size else grown in
    if want == r.size && is_allocated r.slots
    then some r
    else if calloc_ok
    then some (record r { slots = some (rehash want r.size (old_slots r.slots)); size = want })
    else none

-- The end of `ring_insert`, once the ring covers the sequence number.
unfoldable pub ring_store : Ring → ℕ → Slot → Ring
ring_store r seq s = record r {
  slots = some (update (old_slots r.slots) (ring_idx r.size seq) s);
  count = r.count + 1;
  bytes = r.bytes + s.len;
}

-- `ring_insert`; `none` is the return value -1.
unfoldable pub ring_insert : Bool → Ring → ℕ → List ℕ → ℕ → ℕ → ℕ → Option Ring
ring_insert calloc_ok r seq pkt len expected enqueue_us =
    let span = seq - expected in
    let s : Slot = record { seq = seq; len = len; pkt = some pkt; enqueue_us = enqueue_us } in
    if not (is_allocated r.slots) || leb r.size span
    then elim (ring_grow_to_cover calloc_ok r span) [
      | none ↦ none
      | some q ↦ some (ring_store q seq s)
    ]
    else some (ring_store r seq s)

-- What `ring_remove` hands to its caller.
pub record Taken : Type 0 where
  pub pkt : List ℕ
  pub len : ℕ
  pub enqueue_us : ℕ

-- The slot of `ring_remove`, whose packet is `pkt`.
abbrev remove_slot : Ring → (ℕ → Slot) → ℕ → Option (List ℕ) → Option (Taken × Ring)
remove_slot r slots seq none = none
remove_slot r slots seq (some pkt) =
    let i = ring_idx r.size seq in
    let s = slots i in
    if not (s.seq == seq)
    then none
    else some (
      record { pkt = pkt; len = s.len; enqueue_us = s.enqueue_us },
      record r {
        slots = some (update slots i empty_slot);
        count = r.count - 1;
        bytes = r.bytes - s.len;
      },
    )

-- `ring_remove`; `none` is the null pointer.
unfoldable pub ring_remove : Ring → ℕ → Option (Taken × Ring)
ring_remove r seq = elim r.slots [
  | none ↦ none
  | some slots ↦ remove_slot r slots seq (slots (ring_idx r.size seq)).pkt
]

-- The scan of `ring_lowest_seq` at index `i`, with the rounds left.
unfoldable pub lowest_scan : ℕ → ℕ → (ℕ → Slot) → ℕ → ℕ → ℕ
lowest_scan zero i slots size expected = expected
lowest_scan (suc rounds) i slots size expected =
    let rest = lowest_scan rounds (i + 1) slots size expected in
    if holds slots size (expected + i) then expected + i else rest

unfoldable pub ring_lowest_seq : Ring → ℕ → ℕ
ring_lowest_seq r expected = elim r.slots [
  | none ↦ expected
  | some slots ↦ lowest_scan r.size 0 slots r.size expected
]
