-- ===== src/Auth/Base64.antt =====
-- Base64 as written by the encoder is read back by a decoder of RFC 4648.
use Prim.Native.Nat.{bit_or}
use mqcpn.Prelude.{
  ℕ, ◌+◌, ◌-◌, ◌*◌, ◌/◌, ◌%◌, ◌≡◌, ◌≤◌, ◌<◌, ◌⊎◌, inl, inr, refl, ap, arith, false, none, some,
  List, [], ◌∷◌, ltb, leb, ◌==◌, if◌then◌else◌, length, Bool-cases,
}
use mqcpn.Prelude.Bits.{bit_or_fields}
use mqcpn.Icmp.Checksum.{Octets}
use mqcpn.Auth.{b64_char, triple, b64_chars, b64_encode}

-- The number that a character of the alphabet stands for.
unfoldable pub b64_value : ℕ → ℕ
b64_value c =
    if leb 97 c
    then c - 97 + 26
    else if leb 65 c
    then c - 65
    else if leb 48 c
    then c - 48 + 52
    else if c == 43
    then 62
    else 63

-- Three bytes for four characters, fewer where the padding starts.
unfoldable pub b64_decode : List ℕ → List ℕ
b64_decode (p ∷ q ∷ r ∷ s ∷ rest) =
    let a = b64_value p * 4 + b64_value q / 16 in
    let b = b64_value q % 16 * 16 + b64_value r / 4 in
    let c = b64_value r % 4 * 64 + b64_value s in
    let bytes = b64_decode rest in
    if r == 61 then a ∷ [] else if s == 61 then a ∷ b ∷ [] else a ∷ b ∷ c ∷ bytes
b64_decode _ = []

b64_value-char : (n : ℕ) → n < 64 → b64_value (b64_char n) ≡ n
unfolding b64_value b64_char
b64_value-char n small = ground arith

b64_char-not_padding : (n : ℕ) → n < 64 → (b64_char n == 61) ≡ false
unfolding b64_char
b64_char-not_padding n small = ground arith

triple_lem : (a b c : ℕ) → b < 256 → c < 256 → triple a b c ≡ a * 65536 + b * 256 + c
triple_lem a b c hb hc =
    let two : bit_or (a * 65536) (b * 256) ≡ (a * 256 + b) * 256 =
      omega (arith, bit_or_fields 16 a (b * 256) (omega arith)) in
    rw two (omega (arith, bit_or_fields 8 (a * 256 + b) c (omega arith)))

b64_chars-length : (src : List ℕ) → length (b64_chars src) ≡ (length src + 2) / 3 * 4
unfolding b64_chars
b64_chars-length [] = omega arith
b64_chars-length (a ∷ []) = omega arith
b64_chars-length (a ∷ b ∷ []) = omega arith
b64_chars-length (a ∷ b ∷ c ∷ rest) = omega (arith, b64_chars-length rest)

b64_decode-chars : (src : List ℕ) → Octets src → b64_decode (b64_chars src) ≡ src
unfolding b64_chars b64_decode
b64_decode-chars [] o = refl
b64_decode-chars (a ∷ []) (oa, _) =
    let t = a * 65536 in
    let p = b64_value-char (t / 262144 % 64) (omega arith) in
    let q = b64_value-char (t / 4096 % 64) (omega arith) in
    let first : t / 262144 % 64 * 4 + t / 4096 % 64 / 16 ≡ a = omega arith in
    rw (p, q) (ap (λ (x : ℕ). x ∷ []) first)
b64_decode-chars (a ∷ b ∷ []) (oa, (ob, _)) =
    let t = a * 65536 + b * 256 in
    let joined : bit_or (a * 65536) (b * 256) ≡ t =
      omega (arith, bit_or_fields 16 a (b * 256) (omega arith)) in
    let p = b64_value-char (t / 262144 % 64) (omega arith) in
    let q = b64_value-char (t / 4096 % 64) (omega arith) in
    let r = b64_value-char (t / 64 % 64) (omega arith) in
    let not_pad = b64_char-not_padding (t / 64 % 64) (omega arith) in
    let first : t / 262144 % 64 * 4 + t / 4096 % 64 / 16 ≡ a = omega arith in
    let second : t / 4096 % 64 % 16 * 16 + t / 64 % 64 / 4 ≡ b = omega arith in
    rw (joined, not_pad, p, q, r, first, second) refl
b64_decode-chars (a ∷ b ∷ c ∷ rest) (oa, (ob, (oc, o))) =
    let t = a * 65536 + b * 256 + c in
    let joined = triple_lem a b c ob oc in
    let p = b64_value-char (t / 262144 % 64) (omega arith) in
    let q = b64_value-char (t / 4096 % 64) (omega arith) in
    let r = b64_value-char (t / 64 % 64) (omega arith) in
    let s = b64_value-char (t % 64) (omega arith) in
    let third_not_pad = b64_char-not_padding (t / 64 % 64) (omega arith) in
    let last_not_pad = b64_char-not_padding (t % 64) (omega arith) in
    let first : t / 262144 % 64 * 4 + t / 4096 % 64 / 16 ≡ a = omega arith in
    let second : t / 4096 % 64 % 16 * 16 + t / 64 % 64 / 4 ≡ b = omega arith in
    let third : t / 64 % 64 % 4 * 64 + t % 64 ≡ c = omega arith in
    rw
      (
        joined,
        third_not_pad,
        last_not_pad,
        p,
        q,
        r,
        s,
        first,
        second,
        third,
        b64_decode-chars rest o,
      )
      refl

-- Bytes are encoded if and only if the buffer has room for the four characters of every three
-- bytes begun and the terminator; the string then has that length, and a decoder of base64 reads
-- the bytes back.
pub b64_encode-roundtrip :
    (dst_len : ℕ) (src : List ℕ)
    → Octets src
    → (((length src + 2) / 3 * 4 < dst_len)
        × ((out : List ℕ) × (b64_encode dst_len src ≡ some out)
            × (length out ≡ (length src + 2) / 3 * 4)
            × (b64_decode out ≡ src)))
      ⊎ ((dst_len ≤ (length src + 2) / 3 * 4) × (b64_encode dst_len src ≡ none))
unfolding b64_encode
b64_encode-roundtrip dst_len src o =
    elim (Bool-cases (ltb dst_len ((length src + 2) / 3 * 4 + 1))) [
      | inl small ↦ inr (ground (arith, small), ground (arith, small))
      | inr room ↦
          let written : b64_encode dst_len src ≡ some (b64_chars src) = ground (arith, room) in
          inl (
            ground (arith, room),
            (b64_chars src, written, b64_chars-length src, b64_decode-chars src o),
          )
    ]
