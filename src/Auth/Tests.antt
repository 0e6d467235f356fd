-- ===== src/Auth/Tests.antt =====
-- Runs of the key code, and its theorems at concrete keys.
use mqcpn.Prelude.{
  ℕ, ◌+◌, ◌*◌, ◌/◌, ◌≡◌, ◌≤◌, ◌<◌, ◌⊎◌, inl, refl, none, some, List, [], ◌∷◌, length,
}
use mqcpn.Icmp.Tests.{all_octets-Octets, zeros}
use mqcpn.Auth.{KeyError, b64_char, b64_chars, b64_encode, generate_key}
use mqcpn.Auth.Base64.{b64_decode, b64_encode-roundtrip}

abbrev man : List ℕ
man = 77 ∷ 97 ∷ 110 ∷ []

-- "Man" is "TWFu", and "Ma" is "TWE=".
man_encoded :
    (b64_encode 5 man ≡ some (84 ∷ 87 ∷ 70 ∷ 117 ∷ []))
    × (b64_encode 5 (77 ∷ 97 ∷ []) ≡ some (84 ∷ 87 ∷ 69 ∷ 61 ∷ []))
unfolding b64_encode b64_chars b64_char
man_encoded = (refl, refl)

-- 44 characters and the terminator.
key_needs_45 : generate_key 44 (some (zeros 32)) ≡ inl KeyError.err_invalid_arg
unfolding generate_key
key_needs_45 = refl

b64_encode-roundtrip_example :
    (((length man + 2) / 3 * 4 < 5)
      × ((out : List ℕ) × (b64_encode 5 man ≡ some out)
          × (length out ≡ (length man + 2) / 3 * 4)
          × (b64_decode out ≡ man)))
    ⊎ ((5 ≤ (length man + 2) / 3 * 4) × (b64_encode 5 man ≡ none))
b64_encode-roundtrip_example = b64_encode-roundtrip 5 man (all_octets-Octets man refl)
