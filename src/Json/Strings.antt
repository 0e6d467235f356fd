-- ===== src/Json/Strings.antt =====
-- A string written in JSON is read back.
use mqcpn.Prelude.{
  ℕ, suc, ◌-◌, ◌≡◌, refl, arith, false, ◌||◌, none, some, List, [], ◌∷◌, ◌++◌, ◌==◌, if◌then◌else◌,
  take, Bool-cases, inl, inr,
}
use mqcpn.Json.{unescape, json_read_string}

-- A string as JSON writes it: a 92 before each quote and each 92.
unfoldable pub escape : List ℕ → List ℕ
escape [] = []
escape (c ∷ s) = let rest = escape s in if c == 34 || c == 92 then 92 ∷ c ∷ rest else c ∷ rest

-- A byte that needs no escape is put out, whatever follows it.
unescape-plain :
    (c : ℕ) (s out : List ℕ)
    → (c == 34 || c == 92) ≡ false
    → unescape s ≡ some out
    → unescape (c ∷ s) ≡ some (c ∷ out)
unfolding unescape
unescape-plain c [] out plain h = cc
unescape-plain c (d ∷ s) out plain h =
    let not_quote : (c == 34) ≡ false = ground (arith, plain) in
    let not_escape : (c == 92) ≡ false = ground (arith, plain) in rw (not_quote, not_escape, h) refl

unescape-escape : (s rest : List ℕ) → unescape (escape s ++ 34 ∷ rest) ≡ some s
unfolding unescape escape
unescape-escape [] [] = refl
unescape-escape [] (d ∷ rest) = refl
unescape-escape (c ∷ s) rest = elim (Bool-cases (c == 34 || c == 92)) [
  | inl special ↦ rw (special, unescape-escape s rest) refl
  | inr plain ↦ rw plain (unescape-plain c (escape s ++ 34 ∷ rest) s plain (unescape-escape s rest))
]

-- A string written between quotes, with any text behind, is read back, cut to what the buffer
-- holds beside the terminator; no buffer reads nothing.
pub json_read_string-escape :
    (s rest : List ℕ) (out_len : ℕ)
    → (json_read_string (34 ∷ escape s ++ 34 ∷ rest) (suc out_len) ≡ some (take out_len s))
      × (json_read_string (34 ∷ escape s ++ 34 ∷ rest) 0 ≡ none)
unfolding json_read_string
json_read_string-escape s rest out_len =
    let room : (suc out_len == 0) ≡ false = ground arith in
    let same : suc out_len - 1 ≡ out_len = omega arith in
    (rw (room, unescape-escape s rest, same) refl, refl)
