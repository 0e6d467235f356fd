-- ===== src/Json.antt =====
-- src/json_mini.h: the readers of JSON text. A pointer into a text is what is left of it from there,
-- with no terminator, and a null pointer is `none`.
pub mod Strings
pub mod Objects
pub mod Members
mod Tests
use mqcpn.Prelude.{
  ℕ, zero, suc, ◌+◌, ◌-◌, Bool, true, false, not, ◌&&◌, ◌||◌, Option, none, some, List, [], ◌∷◌,
  ltb, leb, ◌==◌, if◌then◌else◌, length, take, same_bytes,
}
use mqcpn.Prelude.Text.{skip_space, split_at}

-- The end of a string's text: what is left from the quote on. An escaped byte, 92 before it, is
-- passed over. The flag says that the byte before was such a 92.
unfoldable pub string_end : List ℕ → Option (List ℕ)
string_end [] = none
string_end (c ∷ []) = if c == 34 then some (c ∷ []) else none
string_end (c ∷ d ∷ s) =
    let after_escape = string_end s in
    let next = string_end (d ∷ s) in
    if c == 34 then some (c ∷ d ∷ s) else if c == 92 then after_escape else next

-- The bytes that `json_read_string` puts out, and whether the text is closed.
unfoldable pub unescape : List ℕ → Option (List ℕ)
unescape [] = none
unescape (c ∷ []) = if c == 34 then some [] else none
unescape (c ∷ d ∷ s) =
    let after_escape = unescape s in
    let next = unescape (d ∷ s) in
    if c == 34
    then some []
    else if c == 92
    then elim after_escape [ none ↦ none | some out ↦ some (d ∷ out) ]
    else elim next [ none ↦ none | some out ↦ some (c ∷ out) ]

-- `json_read_string`: the string written to a buffer of `out_len` bytes; `none` is -1.
unfoldable pub json_read_string : List ℕ → ℕ → Option (List ℕ)
json_read_string [] out_len = none
json_read_string (c ∷ s) out_len =
    if out_len == 0 || not (c == 34)
    then none
    else elim (unescape s) [ none ↦ none | some out ↦ some (take (out_len - 1) out) ]

-- The loop of `json_object_end` in and outside a string, at a depth.
unfoldable pub scan_object : Bool → ℕ → List ℕ → Option (List ℕ)
scan_object in_str depth [] = none
scan_object true depth (c ∷ []) = none
scan_object true depth (c ∷ d ∷ s) =
    let after_escape = scan_object true depth s in
    let closed = scan_object false depth (d ∷ s) in
    let next = scan_object true depth (d ∷ s) in
    if c == 92 then after_escape else if c == 34 then closed else next
scan_object false depth (c ∷ s) =
    let opened = scan_object true depth s in
    let deeper = scan_object false (suc depth) s in
    let up = scan_object false (depth - 1) s in
    let next = scan_object false depth s in
    if c == 34
    then opened
    else if c == 123
    then deeper
    else if c == 125
    then (if depth == 1 then some (c ∷ s) else up)
    else next

-- `json_object_end`: what is left from the brace that closes the object at the front.
unfoldable pub json_object_end : List ℕ → Option (List ℕ)
json_object_end [] = none
json_object_end (c ∷ s) = if c == 123 then scan_object false 0 (c ∷ s) else none

abbrev pub is_colon : List ℕ → Bool
is_colon [] = false
is_colon (c ∷ s) = c == 58

abbrev pub behind : List ℕ → List ℕ
behind [] = []
behind (c ∷ s) = s

-- One name of `json_find_key`: `after` is the text behind its first quote, `e` what is left from
-- its last; `later` is what the search of the rest finds.
abbrev pub try_key : List ℕ → List ℕ → List ℕ → Option (List ℕ) → Option (List ℕ)
try_key key after e later =
    let c = skip_space (behind e) in
    if same_bytes (take (length after - length e) after) key && is_colon c
    then some (skip_space (behind c))
    else later

-- A round of `json_find_key`, from the text behind the next quote, and from that quote on.
abbrev pub name_round :
    List ℕ → (List ℕ → Option (List ℕ)) → List ℕ → Option (List ℕ) → Option (List ℕ)
name_round key later after none = none
name_round key later after (some e) = try_key key after e (later (behind e))

abbrev pub search_round :
    List ℕ → (List ℕ → Option (List ℕ)) → Option (List ℕ × List ℕ) → Option (List ℕ)
search_round key later none = none
search_round key later (some (before, after)) = name_round key later after (string_end after)

-- The loop of `json_find_key`, `rounds` of it left.
unfoldable pub find_key_from : ℕ → List ℕ → List ℕ → Option (List ℕ)
find_key_from zero key p = none
find_key_from (suc rounds) key p = search_round key (find_key_from rounds key) (split_at 34 p)

-- `json_find_key`: every round passes two quotes, so the length is enough.
unfoldable pub json_find_key : List ℕ → List ℕ → Option (List ℕ)
json_find_key json key = find_key_from (length json) key json
