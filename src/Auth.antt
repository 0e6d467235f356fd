-- ===== src/Auth.antt =====
-- src/auth.c, src/mqvpn_util.c: keys in base64, and their comparison in constant time.
pub mod Base64
pub mod Compare
mod Tests
use Prim.Native.Nat.{bit_or, bit_xor}
use mqcpn.Prelude.{
  ℕ, zero, suc, ◌+◌, ◌-◌, ◌*◌, ◌/◌, ◌%◌, Bool, true, false, not, Option, none, some, List, [], ◌∷◌,
  ltb, leb, ◌==◌, if◌then◌else◌, length, ◌⊎◌, inl, inr,
}

-- `b64_table`: the character of a number below 64.
unfoldable pub b64_char : ℕ → ℕ
b64_char n =
    if ltb n 26
    then 65 + n
    else if ltb n 52
    then 97 + (n - 26)
    else if ltb n 62
    then 48 + (n - 52)
    else if n == 62
    then 43
    else 47

-- `((uint32_t)src[i] << 16) | ((uint32_t)src[i + 1] << 8) | (uint32_t)src[i + 2]`
abbrev pub triple : ℕ → ℕ → ℕ → ℕ
triple a b c = bit_or (bit_or (a * 65536) (b * 256)) c

-- The characters of the loop and of the rest behind it; 61 is `=`.
unfoldable pub b64_chars : List ℕ → List ℕ
b64_chars [] = []
b64_chars (a ∷ []) =
    let t = a * 65536 in b64_char (t / 262144 % 64) ∷ b64_char (t / 4096 % 64) ∷ 61 ∷ 61 ∷ []
b64_chars (a ∷ b ∷ []) =
    let t = bit_or (a * 65536) (b * 256) in
    b64_char (t / 262144 % 64) ∷ b64_char (t / 4096 % 64) ∷ b64_char (t / 64 % 64) ∷ 61 ∷ []
b64_chars (a ∷ b ∷ c ∷ rest) =
    let t = triple a b c in
    b64_char (t / 262144 % 64)
    ∷ b64_char (t / 4096 % 64)
    ∷ b64_char (t / 64 % 64)
    ∷ b64_char (t % 64)
    ∷ b64_chars rest

-- `mqvpn_auth_b64_encode`, and `b64_encode` of mqvpn_util.c: the string written, or the return value
-- -1 when the buffer is short of it and its terminator.
unfoldable pub b64_encode : ℕ → List ℕ → Option (List ℕ)
b64_encode dst_len src =
    let out_len = (length src + 2) / 3 * 4 in
    if ltb dst_len (out_len + 1) then none else some (b64_chars src)

-- `mqvpn_error_t`, the values that `mqvpn_generate_key` returns
pub data KeyError : Type 0 where
  err_invalid_arg : KeyError
  err_engine : KeyError

-- `mqvpn_generate_key`; the bytes that /dev/urandom gave are an argument, `out` is not null.
unfoldable pub generate_key : ℕ → Option (List ℕ) → KeyError ⊎ List ℕ
generate_key out_len (some raw) =
    if ltb out_len 45
    then inl KeyError.err_invalid_arg
    else if not (length raw == 32)
    then inl KeyError.err_engine
    else elim (b64_encode out_len raw) [ none ↦ inl KeyError.err_invalid_arg | some key ↦ inr key ]
generate_key out_len none =
    if ltb out_len 45 then inl KeyError.err_invalid_arg else inl KeyError.err_engine

-- The loop of `mqvpn_auth_ct_compare`: `result |= a[i] ^ b[i]`.
unfoldable pub ct_loop : ℕ → List ℕ → List ℕ → ℕ
ct_loop result [] b = result
ct_loop result (x ∷ a) [] = result
ct_loop result (x ∷ a) (y ∷ b) = ct_loop (bit_or result (bit_xor x y)) a b

-- `mqvpn_auth_ct_compare`; `true` is the return value 0, the strings are the same.
unfoldable pub ct_compare : List ℕ → List ℕ → Bool
ct_compare a b = if not (length a == length b) then false else ct_loop 0 a b == 0
