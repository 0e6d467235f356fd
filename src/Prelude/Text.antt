-- ===== src/Prelude/Text.antt =====
-- C strings as lists of bytes with no terminator, and what the sources use of string.h and stdlib.h.
use Prim.Native.Nat.{ℕ, ◌+◌, ◌-◌, ◌*◌}
use mathlib.Core.Bool.{Bool, true, false, ◌&&◌, ◌||◌}
use mathlib.Core.Option.{Option, none, some}
use mathlib.Core.List.{List, [], ◌∷◌}
use mqcpn.Prelude.Tests.{leb, ◌==◌, if◌then◌else◌}

abbrev pub is_space : ℕ → Bool
is_space c = c == 32 || (leb 9 c && leb c 13)

abbrev pub is_digit : ℕ → Bool
is_digit c = leb 48 c && leb c 57

unfoldable pub skip_space : List ℕ → List ℕ
skip_space [] = []
skip_space (c ∷ s) = if is_space c then skip_space s else c ∷ s

-- `strchr` that cuts the text there: what stands before and after the first `c`.
unfoldable pub split_at : ℕ → List ℕ → Option (List ℕ × List ℕ)
split_at c [] = none
split_at c (x ∷ s) =
    if x == c
    then some ([], s)
    else elim (split_at c s) [ none ↦ none | some (a, b) ↦ some (x ∷ a, b) ]

-- The digits of a number, most significant first: the value and what follows.
unfoldable pub read_digits : ℕ → List ℕ → ℕ × List ℕ
read_digits acc [] = (acc, [])
read_digits acc (c ∷ s) =
    let rest = read_digits (acc * 10 + (c - 48)) s in if is_digit c then rest else (acc, c ∷ s)

-- What `strtol` read: a sign, a size and the text after it. The size is not cut at LONG_MAX: the
-- callers refuse every value that is as large.
pub record Parsed : Type 0 where
  pub negative : Bool
  pub size : ℕ
  pub rest : List ℕ

read_number : Bool → List ℕ → Option Parsed
unfolding read_digits
read_number negative [] = none
read_number negative (c ∷ s) =
    if is_digit c
    then (let (size, rest) = read_digits 0 (c ∷ s) in
        some (record { negative = negative; size = size; rest = rest }))
    else none

read_sign : List ℕ → Option Parsed
unfolding read_number
read_sign [] = none
read_sign (c ∷ s) =
    if c == 45
    then read_number true s
    else if c == 43
    then read_number false s
    else read_number false (c ∷ s)

-- `strtol(s, &end, 10)`; `none` where no number stands, so that `end` is `s`.
unfoldable pub strtol : List ℕ → Option Parsed
unfolding skip_space read_sign
strtol s = read_sign (skip_space s)
