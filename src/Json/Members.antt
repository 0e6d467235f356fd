-- ===== src/Json/Members.antt =====
-- The search for a member of an object that is written without white space and holds strings only.
use mqcpn.Prelude.{
  ℕ, zero, suc, ◌-◌, ◌*◌, ◌≡◌, ◌⊎◌, ◌≤◌, refl, ap, ◌∙◌, arith, Bool, true, false, ◌&&◌, ◌||◌,
  Option, none, some, List, [], ◌∷◌, ◌++◌, ◌==◌, if◌then◌else◌, Bool-cases, inl, inr, length,
  length-append, take, same_bytes,
}
use mqcpn.Prelude.Text.{skip_space, split_at}
use mqcpn.Prelude.Maybe.{◌>>=◌}
use mqcpn.Json.{
  string_end, json_read_string, name_round, search_round, is_colon, behind, find_key_from,
  json_find_key,
}
use mqcpn.Json.Strings.{escape, json_read_string-escape}

-- A member's name and value.
pub record Member : Type 0 where
  pub name : List ℕ
  pub value : List ℕ

-- The members with a byte before each, and the closing brace behind the last.
unfoldable pub members_text : ℕ → List Member → List ℕ
members_text sep [] = 125 ∷ []
members_text sep (m ∷ ms) =
    let value = 34 ∷ (escape m.value ++ (34 ∷ members_text 44 ms)) in
    sep ∷ 34 ∷ (escape m.name ++ (34 ∷ 58 ∷ value))

-- The value of the first member of a name, which is given as it stands in the text.
unfoldable pub value_of : List ℕ → List Member → Option (List ℕ)
value_of key [] = none
value_of key (m ∷ ms) =
    let later = value_of key ms in if same_bytes (escape m.name) key then some m.value else later

string_end-plain :
    (c : ℕ) (s out : List ℕ)
    → (c == 34 || c == 92) ≡ false
    → string_end s ≡ some out
    → string_end (c ∷ s) ≡ some out
unfolding string_end
string_end-plain c [] out plain h = cc
string_end-plain c (d ∷ s) out plain h =
    let not_quote : (c == 34) ≡ false = ground (arith, plain) in
    let not_escape : (c == 92) ≡ false = ground (arith, plain) in rw (not_quote, not_escape, h) refl

string_end-escape : (s rest : List ℕ) → string_end (escape s ++ 34 ∷ rest) ≡ some (34 ∷ rest)
unfolding string_end escape
string_end-escape [] [] = refl
string_end-escape [] (d ∷ rest) = refl
string_end-escape (c ∷ s) rest = elim (Bool-cases (c == 34 || c == 92)) [
  | inl special ↦ rw (special, string_end-escape s rest) refl
  | inr plain ↦
      rw plain
        (string_end-plain c (escape s ++ 34 ∷ rest) (34 ∷ rest) plain (string_end-escape s rest))
]

take-front : (xs ys : List ℕ) → take (length xs) (xs ++ ys) ≡ xs
take-front [] ys = refl
take-front (x ∷ xs) ys = ap (λ (t : List ℕ). x ∷ t) (take-front xs ys)

split_at-behind :
    (sep : ℕ) (text : List ℕ)
    → (sep == 34) ≡ false
    → split_at 34 (sep ∷ 34 ∷ text) ≡ some (sep ∷ [], text)
unfolding split_at
split_at-behind sep text other = rw other refl

-- A round of the search at a string.
find_key-string :
    (rounds sep : ℕ) (key s rest : List ℕ)
    → (sep == 34) ≡ false
    → find_key_from (suc rounds) key (sep ∷ 34 ∷ escape s ++ 34 ∷ rest) ≡ (
        if same_bytes (escape s) key && is_colon (skip_space rest)
        then some (skip_space (behind (skip_space rest)))
        else find_key_from rounds key rest)
unfolding find_key_from
find_key-string rounds sep key s rest other =
    let n : length (escape s ++ 34 ∷ rest) - length (34 ∷ rest) ≡ length (escape s) =
      omega (arith, length-append (escape s) (34 ∷ rest)) in
    let front = take-front (escape s) (34 ∷ rest) in
    let text = escape s ++ 34 ∷ rest in
    ap (search_round key (find_key_from rounds key)) (split_at-behind sep text other)
    ∙ ap (name_round key (find_key_from rounds key) text) (string_end-escape s rest)
    ∙ rw (n, front) refl

-- A round where no quote follows, and one byte more in front of a text.
find_key-brace : (rounds : ℕ) (key : List ℕ) → find_key_from rounds key (125 ∷ []) ≡ none
unfolding find_key_from split_at
find_key-brace zero key = refl
find_key-brace (suc rounds) key = refl

-- Behind a value stands no colon.
no_colon : (ms : List Member) (b : Bool) → (b && is_colon (skip_space (members_text 44 ms))) ≡ false
unfolding members_text skip_space
no_colon [] true = refl
no_colon [] false = refl
no_colon (m ∷ ms) true = refl
no_colon (m ∷ ms) false = refl

enough_rounds : (ms : List Member) (sep : ℕ) → 2 * length ms ≤ length (members_text sep ms)
unfolding members_text
enough_rounds [] sep = omega arith
enough_rounds (m ∷ ms) sep =
    let value = 34 ∷ (escape m.value ++ (34 ∷ members_text 44 ms)) in
    omega (
      arith,
      length-append (escape m.name) (34 ∷ 58 ∷ value),
      length-append (escape m.value) (34 ∷ members_text 44 ms),
      enough_rounds ms 44,
    )

-- Enough rounds are two for each member.
find_key-members :
    (ms : List Member) (sep rounds : ℕ) (key : List ℕ)
    → (sep == 34) ≡ false
    → 2 * length ms ≤ rounds
    → ((value_of key ms ≡ none) × (find_key_from rounds key (members_text sep ms) ≡ none))
      ⊎ ((value : List ℕ) × (rest : List ℕ) × (value_of key ms ≡ some value)
          × (find_key_from rounds key (members_text sep ms)
              ≡ some (34 ∷ escape value ++ 34 ∷ rest)))
unfolding members_text value_of skip_space
find_key-members [] sep rounds key other enough = inl (refl, find_key-brace rounds key)
find_key-members (m ∷ ms) sep zero key other enough = absurd (omega arith)
find_key-members (m ∷ ms) sep (suc zero) key other enough = absurd (omega arith)
find_key-members (m ∷ ms) sep (suc (suc rounds)) key other enough =
    let rest = 34 ∷ escape m.value ++ 34 ∷ members_text 44 ms in
    let at_name = find_key-string (suc rounds) sep key m.name (58 ∷ rest) other in
    elim (Bool-cases (same_bytes (escape m.name) key)) [
      | inl here ↦ inr (m.value, members_text 44 ms, rw here refl, at_name ∙ rw here refl)
      | inr elsewhere ↦
          let at_value = find_key-string rounds 58 key m.value (members_text 44 ms) refl in
          let no_name = no_colon ms (same_bytes (escape m.value) key) in
          let step : find_key_from (suc (suc rounds)) key (members_text sep (m ∷ ms))
              ≡ find_key_from rounds key (members_text 44 ms) =
            at_name ∙ rw elsewhere (at_value ∙ rw no_name refl) in
          elim (find_key-members ms 44 rounds key refl (omega arith)) [
            | inl (nobody, nothing) ↦ inl (rw elsewhere nobody, step ∙ nothing)
            | inr (value, end, is, found) ↦ inr (value, end, rw elsewhere is, step ∙ found)
          ]
    ]

-- In an object that is written without white space and whose members are all strings: reading a member by its
-- name, as it stands in the text, gives the value of the first member of that name, cut to the buffer, and nothing
-- if there is none; values that look like the name are not taken for it.
pub json_member_lem :
    (m : Member) (ms : List Member) (key : List ℕ) (out_len : ℕ)
    → (json_find_key (members_text 123 (m ∷ ms)) key >>= (λ p. json_read_string p (suc out_len)))
      ≡ (value_of key (m ∷ ms) >>= (λ value. some (take out_len value)))
unfolding json_find_key
json_member_lem m ms key out_len =
    elim (find_key-members (m ∷ ms) 123 (length text) key refl (enough_rounds (m ∷ ms) 123)) [
      | inl (nobody, nothing) ↦ rw (nobody, nothing) refl
      | inr (value, rest, is, found) ↦
          rw (is, found) ((json_read_string-escape value rest out_len).0)
    ]
  where
    text : List ℕ
    text = members_text 123 (m ∷ ms)
