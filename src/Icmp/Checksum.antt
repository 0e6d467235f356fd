-- ===== src/Icmp/Checksum.antt =====
-- Folding the carries, and the checksum that makes a sum all ones.
use mqcpn.Prelude.{
  ℕ, refl, Bool, true, false, ◌+◌, ◌*◌, ◌/◌, ◌%◌, ◌≡◌, ◌≤◌, ◌<◌, arith, List, [], ◌∷◌, length,
}
use mqcpn.Prelude.Bits.{bit_or_fields}
use mqcpn.Prelude.Words.{u32}
use mqcpn.Reorder.Buckets.{Each}
use mqcpn.Icmp.{sum_joined, sum_bytes, fold_carries, complement}

-- The sum of RFC 1071, byte by byte: the first byte of a word counts as its high one, and so does a last byte
-- that stands alone. The flag says that the next byte begins a word.
unfoldable pub word_total : Bool → List ℕ → ℕ
word_total high [] = 0
word_total true (b ∷ bytes) = b * 256 + word_total false bytes
word_total false (b ∷ bytes) = b + word_total true bytes

-- What a receiver checks of a message with its checksum: the words add up to all ones, so their sum is a multiple
-- of 65535 other than 0.
abbrev pub Verifies : List ℕ → Type 0
Verifies bytes = (0 < word_total true bytes) × (word_total true bytes % 65535 ≡ 0)

abbrev pub Octets : List ℕ → Type 0
Octets bytes = Each (λ (b : ℕ). b < 256) bytes

-- Two rounds fold a 32-bit sum into 16 bits, and keep its remainder by 65535.
pub fold_carries_lem :
    (c : ℕ)
    → c < 4294967296
    → (k : ℕ) × (c ≡ fold_carries 2 c + 65535 * k)
      × (fold_carries 2 c < 65536)
      × (0 < c → 0 < fold_carries 2 c)
unfolding fold_carries
fold_carries_lem c small =
    let mid = c % 65536 + c / 65536 in
    (c / 65536 + mid / 65536, ground arith, ground arith, λ pos. ground arith)

pub sum_bytes-word_total : (bytes : List ℕ) → sum_bytes bytes ≡ word_total true bytes
unfolding sum_bytes word_total
sum_bytes-word_total [] = refl
sum_bytes-word_total (x ∷ []) = omega arith
sum_bytes-word_total (x ∷ y ∷ bytes) = omega (arith, sum_bytes-word_total bytes)

-- A message whose sum is that of its other words and their complement verifies.
pub complement-Verifies :
    (s : ℕ) (bytes : List ℕ) → s < 4294967296 → sum_bytes bytes ≡ s + complement s → Verifies bytes
unfolding complement
complement-Verifies s bytes small is =
    let here : u32 s ≡ s = omega arith in
    let (k, folded, fits, pos) = fold_carries_lem (u32 s) (omega arith) in
    let total = sum_bytes-word_total bytes in
    let multiple : word_total true bytes ≡ 65535 * (k + 1) = omega arith in
    (omega arith, omega arith)

pub sum_bytes-le : (bytes : List ℕ) → Octets bytes → sum_bytes bytes ≤ 65535 * length bytes
unfolding sum_bytes
sum_bytes-le [] o = omega arith
sum_bytes-le (x ∷ []) (o, _) = omega arith
sum_bytes-le (x ∷ y ∷ bytes) (ox, (oy, o)) = omega (arith, sum_bytes-le bytes o)

pub sum_joined-eq : (bytes : List ℕ) → Octets bytes → sum_joined bytes ≡ sum_bytes bytes
unfolding sum_joined sum_bytes
sum_joined-eq [] o = omega arith
sum_joined-eq (x ∷ []) o = omega arith
sum_joined-eq (x ∷ y ∷ bytes) (ox, (oy, o)) =
    omega (arith, sum_joined-eq bytes o, bit_or_fields 8 x y (omega arith))
