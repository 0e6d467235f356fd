-- ===== src/Users/Search.antt =====
-- Searching the names, and moving entries down.
use mqcpn.Prelude.{
  ℕ, zero, suc, ◌+◌, ◌≡◌, ◌≢◌, ◌≤◌, ◌<◌, inl, inr, ap, ◌∙◌, arith, true, false, Option, none, some,
  List, ltb, leb, ◌==◌, ◌&&◌, if◌then◌else◌, same_bytes, same_bytes_refl, same_bytes-eq, Bool-cases,
}
use mqcpn.Reorder.Buckets.{replace}
use mqcpn.Users.{find_from, shift_down}

-- What the search says.
abbrev pub Found : (ℕ → List ℕ) → ℕ → ℕ → List ℕ → Option ℕ → Type 0
Found names i end name none = (j : ℕ) → i ≤ j → j < end → names j ≢ name
Found names i end name (some m) = (i ≤ m) × (m < end) × (names m ≡ name)

pub find_from-Found :
    (names : ℕ → List ℕ) (rounds i : ℕ) (name : List ℕ)
    → Found names i (i + rounds) name (find_from names rounds i name)
unfolding find_from
find_from-Found names zero i name = λ j le lt. absurd (omega arith)
find_from-Found names (suc rounds) i name = elim (Bool-cases (same_bytes (names i) name)) [
  | inl here ↦ rw here (omega arith, omega arith, same_bytes-eq (names i) name here)
  | inr elsewhere ↦ rw elsewhere (
      later elsewhere (find_from names rounds (suc i) name)
        (find_from-Found names rounds (suc i) name))
]
  where
    later :
        same_bytes (names i) name ≡ false
        → (o : Option ℕ) → Found names (suc i) (suc i + rounds) name o
        → Found names i (i + suc rounds) name o
    later differs none f = λ j le lt same. elim (Bool-cases (i == j)) [
      | inl at_i ↦
          let here : i ≡ j = ground (arith, at_i) in
          let equal : names i ≡ name = ap names here ∙ same in
          let yes : same_bytes (names i) name ≡ true = rw equal (same_bytes_refl name) in
          absurd (ground (arith, differs, yes))
      | inr after ↦ f j (ground (arith, after)) (omega arith) same
    ]
    later differs (some m) (le, lt, same) = (omega arith, omega arith, same)

-- Moving down takes an entry from the next index in the range moved.
pub shift_down_lem :
    (rounds i : ℕ) (entries : ℕ → List ℕ) (x : ℕ)
    → shift_down rounds i entries x
      ≡ (if leb i x && ltb x (i + rounds) then entries (suc x) else entries x)
unfolding shift_down
shift_down_lem zero i entries x = ground arith
shift_down_lem (suc rounds) i entries x =
    let rest = shift_down_lem rounds (suc i) (replace entries i (entries (suc i))) x in
    rest ∙ elim (Bool-cases (i == x)) [
      | inl at_i ↦
          let here : i ≡ x = ground (arith, at_i) in
          ground (arith, at_i, ap (λ (t : ℕ). entries (suc t)) here)
      | inr other ↦ ground (arith, other)
    ]
