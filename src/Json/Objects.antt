-- ===== src/Json/Objects.antt =====
-- The end of an object is found behind whatever well-formed text stands in it.
use mqcpn.Prelude.{
  ℕ, suc, ◌-◌, ◌≡◌, refl, ◌∙◌, arith, true, false, ◌||◌, some, List, [], ◌∷◌, ◌++◌, ◌==◌,
  Bool-cases, inl, inr,
}
use mathlib.Core.List.{append_assoc}
use mqcpn.Json.{scan_object, json_object_end}
use mqcpn.Json.Strings.{escape}

-- What may stand between the braces of an object, as far as braces and strings go.
pub data Body : List ℕ → Type 0 where
  nothing : Body []
  byte :
      (c : ℕ) {body : List ℕ}
      → (c == 34 || c == 123 || c == 125) ≡ false
      → Body body
      → Body (c ∷ body)
  string : (s : List ℕ) {body : List ℕ} → Body body → Body (34 ∷ escape s ++ 34 ∷ body)
  nested : {inner body : List ℕ} → Body inner → Body body → Body (123 ∷ inner ++ 125 ∷ body)

scan-quote :
    (depth : ℕ) (rest : List ℕ) → scan_object true depth (34 ∷ rest) ≡ scan_object false depth rest
unfolding scan_object
scan-quote depth [] = refl
scan-quote depth (d ∷ rest) = refl

scan-plain :
    (depth c : ℕ) (rest : List ℕ)
    → (c == 34 || c == 92) ≡ false
    → scan_object true depth (c ∷ rest) ≡ scan_object true depth rest
unfolding scan_object
scan-plain depth c [] plain = refl
scan-plain depth c (d ∷ rest) plain =
    let not_quote : (c == 34) ≡ false = ground (arith, plain) in
    let not_escape : (c == 92) ≡ false = ground (arith, plain) in rw (not_escape, not_quote) refl

scan-string :
    (s rest : List ℕ) (depth : ℕ)
    → scan_object true depth (escape s ++ 34 ∷ rest) ≡ scan_object false depth rest
unfolding escape scan_object
scan-string [] rest depth = scan-quote depth rest
scan-string (c ∷ s) rest depth = elim (Bool-cases (c == 34 || c == 92)) [
  | inl special ↦ rw special (scan-string s rest depth)
  | inr plain ↦
      rw plain (scan-plain depth c (escape s ++ 34 ∷ rest) plain ∙ scan-string s rest depth)
]

-- A well-formed text is passed over at the depth where it stands.
scan-Body :
    {body : List ℕ} (b : Body body) (depth : ℕ) (rest : List ℕ)
    → scan_object false (suc depth) (body ++ rest) ≡ scan_object false (suc depth) rest
unfolding scan_object
scan-Body nothing depth rest = refl
scan-Body (byte c {body} plain b) depth rest =
    let not_quote : (c == 34) ≡ false = ground (arith, plain) in
    let not_open : (c == 123) ≡ false = ground (arith, plain) in
    let not_close : (c == 125) ≡ false = ground (arith, plain) in
    rw (not_quote, not_open, not_close) (scan-Body b depth rest)
scan-Body (string s {body} b) depth rest =
    rw (append_assoc (escape s) (34 ∷ body) rest)
      (scan-string s (body ++ rest) (suc depth) ∙ scan-Body b depth rest)
scan-Body (nested {inner} {body} i b) depth rest =
    let back : suc (suc depth) - 1 ≡ suc depth = omega arith in
    let above : (suc (suc depth) == 1) ≡ false = ground arith in
    rw (append_assoc inner (125 ∷ body) rest)
      (scan-Body i (suc depth) (125 ∷ body ++ rest) ∙ rw (above, back) (scan-Body b depth rest))

-- The end of an object whose body is well formed is its closing brace, whatever follows: braces
-- in strings and in nested objects are not taken for it.
pub json_object_end-Body :
    {body : List ℕ} (b : Body body) (rest : List ℕ)
    → json_object_end (123 ∷ body ++ 125 ∷ rest) ≡ some (125 ∷ rest)
unfolding json_object_end scan_object
json_object_end-Body b rest = scan-Body b 0 (125 ∷ rest)
