-- ===== src/Json/Tests.antt =====
-- Runs of the JSON readers, and their theorems at concrete texts.
use mqcpn.Prelude.{ℕ, ◌≡◌, refl, some, List, [], ◌∷◌, ◌++◌, take}
use mqcpn.Prelude.Maybe.{◌>>=◌}
use mqcpn.Prelude.Text.{skip_space, split_at}
use mqcpn.Json.{
  string_end, unescape, json_read_string, json_object_end, find_key_from, json_find_key,
}
use mqcpn.Json.Strings.{escape}
use mqcpn.Json.Objects.{string, nested, nothing, json_object_end-Body}
use mqcpn.Json.Members.{Member, members_text, value_of, json_member_lem}

abbrev name_a : List ℕ
name_a = 97 ∷ []

abbrev name_b : List ℕ
name_b = 98 ∷ []

-- A value with a quote in it, and one that is the name sought.
abbrev two_members : List Member
two_members =
    record { name = name_a; value = name_b } ∷ record { name = name_b; value = 34 ∷ 120 ∷ [] } ∷ []

json_member_lem_example :
    (json_find_key (members_text 123 two_members) name_b >>= (λ p. json_read_string p 10))
    ≡ (value_of name_b two_members >>= (λ value. some (take 9 value)))
json_member_lem_example =
    json_member_lem (record { name = name_a; value = name_b })
      (record { name = name_b; value = 34 ∷ 120 ∷ [] } ∷ []) name_b 9

-- {"a":{"b":"x"},"b":"y"}: the member of the object inside is found before the one outside.
abbrev inside_first : List ℕ
inside_first =
    (123 ∷ 34 ∷ 97 ∷ 34 ∷ 58 ∷ 123 ∷ 34 ∷ 98 ∷ 34 ∷ 58 ∷ 34 ∷ 120 ∷ 34 ∷ 125 ∷ [])
    ++ (44 ∷ 34 ∷ 98 ∷ 34 ∷ 58 ∷ 34 ∷ 121 ∷ 34 ∷ 125 ∷ [])

inner_key_found :
    (json_find_key inside_first name_b >>= (λ p. json_read_string p 10)) ≡ some (120 ∷ [])
unfolding json_find_key find_key_from split_at string_end skip_space json_read_string unescape
inner_key_found = refl

-- A brace in a string, and an object inside.
abbrev body_text : List ℕ
body_text = 34 ∷ (escape (125 ∷ []) ++ 34 ∷ (123 ∷ ([] ++ 125 ∷ [])))

json_object_end-Body_example :
    json_object_end (123 ∷ body_text ++ 125 ∷ 125 ∷ []) ≡ some (125 ∷ 125 ∷ [])
json_object_end-Body_example =
    json_object_end-Body (string (125 ∷ []) (nested nothing nothing)) (125 ∷ [])
