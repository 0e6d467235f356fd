-- ===== src/Reorder/Ring/Grow.antt =====
-- `ring_grow_to_cover`: the ring covers the asked span, and holds what it held.
use native.Mathlib.Nat.{one-le-pow, pow-suc, pow-le-pow_right}
use mathlib.Core.Bool.{false≢true}
use mqcpn.Prelude.{
  ℕ, zero, suc, ◌+◌, ◌*◌, ◌^◌, ◌≡◌, ◌≤◌, ◌<◌, refl, subst, sym, ◌∙◌, true, false, ◌&&◌, none, some,
  ltb, leb, ◌==◌, arith, Bool-cases, Option-cases, inl, inr, dec_lt, dec_le, ◌⊎◌,
}
use mqcpn.Prelude.Words.{u32}
use mqcpn.Reorder.Ring.Array.{Slot, empty_slot, is_occupied, total, one_each, len_each, total-empty}
use mqcpn.Reorder.Ring.View.{
  look, look_in, Placed, Filled, Shape, Inv, pow_small, ring_idx-lt_pow, look_in-none,
}
use mqcpn.Reorder.Ring.Rehash.{rehash-Moved, rehash-total}
use mqcpn.Reorder.Ring.{Ring, ring_idx, grow_want, rehash, ring_grow_to_cover, holds}

bits_lt : (k K : ℕ) → 2 ^ k < 2 ^ K → k < K
bits_lt k K h = elim (dec_lt k K) [
  | yes lt ↦ lt
  | no nlt ↦
      absurd (omega (arith, pow-le-pow_right {n = 2} (omega arith) {i = K} {j = k} (omega arith)))
]

-- Doubling stops at a power of two that covers the span.
grow_want_lem :
    (rounds span K k : ℕ)
    → K ≤ 31
    → k ≤ K
    → K ≤ rounds + k
    → span < 2 ^ K
    → (j : ℕ) × (k ≤ j) × (j ≤ K) × (grow_want rounds span (2 ^ K) (2 ^ k) ≡ 2 ^ j) × (span < 2 ^ j)
unfolding grow_want
grow_want_lem zero span K k small le enough h =
    let same : k ≡ K = omega arith in (k, omega arith, le, refl, rw same h)
grow_want_lem (suc rounds) span K k small le enough h =
    elim (Bool-cases (leb (2 ^ k) span && ltb (2 ^ k) (2 ^ K))) [
      | inl more ↦
          let lt : k < K = bits_lt k K (ground arith) in
          let twice : u32 (2 ^ k * 2) ≡ 2 ^ suc k =
            omega (arith, pow-suc 2 k, pow_small (suc k) (omega arith)) in
          let (j, lo, hi, is, cover) =
            grow_want_lem rounds span K (suc k) small (omega arith) (omega arith) h in
          (j, omega arith, hi, rw (more, twice) is, cover)
      | inr stop ↦ (k, omega arith, le, rw stop, ground arith)
    ]

-- A ring that grew.
pub record Grown (e : ℕ) (r : Ring) (span : ℕ) (q : Ring) : Type 0 where
  pub array : ℕ → Slot
  pub slots_are : q.slots ≡ some array
  pub filled : Filled e q array
  pub covers : span < q.size
  pub view : (s : ℕ) → look q s ≡ look r s
  pub count : q.count ≡ r.count
  pub bytes : q.bytes ≡ r.bytes
  pub cap : q.cap ≡ r.cap

module _ (a b e : ℕ) (r : Ring) (old : ℕ → Slot) (le : a ≤ b) (small : b ≤ 31)
    (fits : 2 ^ b ≤ r.cap) (placed : Placed e (2 ^ a) old)
    (count_is : r.count ≡ total one_each (2 ^ a) old)
    (bytes_is : r.bytes ≡ total len_each (2 ^ a) old) where
  abbrev bigger : Ring
  bigger = record r { slots = some (rehash (2 ^ b) (2 ^ a) old); size = 2 ^ b }

  still_absent :
      (s : ℕ) → holds old (2 ^ a) s ≡ false → holds (rehash (2 ^ b) (2 ^ a) old) (2 ^ b) s ≡ false
  still_absent s absent =
      let m = rehash-Moved a b e old le small placed (2 ^ a) (omega arith) in
      let new = rehash (2 ^ b) (2 ^ a) old in
      elim (Bool-cases (holds new (2 ^ b) s)) [
        | inl held ↦
            let (i, lt, is, _) = m.from (ring_idx (2 ^ b) s) (ground (arith, held)) in
            let oi : is_occupied (old i) ≡ true = ground (arith, is, held) in
            let number : (old i).seq ≡ s = ground (arith, is, held) in
            let slot : ring_idx (2 ^ a) s ≡ i = rw (← number) (placed i lt oi).0 in
            absurd (false≢true (sym absent ∙ rw slot (ground (arith, oi, number))))
        | inr clear ↦ clear
      ]

  bigger-view : (s : ℕ) → look_in (rehash (2 ^ b) (2 ^ a) old) (2 ^ b) s ≡ look_in old (2 ^ a) s
  bigger-view s =
      let m = rehash-Moved a b e old le small placed (2 ^ a) (omega arith) in
      let new = rehash (2 ^ b) (2 ^ a) old in
      let at = ring_idx (2 ^ a) s in
      elim (Bool-cases (holds old (2 ^ a) s)) [
        | inl held ↦
            let kept = m.to at (ring_idx-lt_pow a s (omega arith)) (ground (arith, held)) in
            let number : (old at).seq ≡ s = ground (arith, held) in
            let slot : new (ring_idx (2 ^ b) s) ≡ old at =
              subst (λ t. new (ring_idx (2 ^ b) t) ≡ old at) number kept in
            rw slot
        | inr absent ↦
            rw (look_in-none old (2 ^ a) s absent)
              (look_in-none new (2 ^ b) s (still_absent s absent))
      ]

  bigger-Placed : Placed e (2 ^ b) (rehash (2 ^ b) (2 ^ a) old)
  bigger-Placed j lt o =
      let m = rehash-Moved a b e old le small placed (2 ^ a) (omega arith) in
      let (i, lti, is, idx) = m.from j o in
      let oi : is_occupied (old i) ≡ true = ground (arith, is, o) in
      ground
        (arith, is, idx, placed i lti oi, pow-le-pow_right {n = 2} (omega arith) {i = a} {j = b} le)

  bigger-Filled : Filled e bigger (rehash (2 ^ b) (2 ^ a) old)
  bigger-Filled = record {
    bits = b;
    size_is = refl;
    size_le = fits;
    placed = bigger-Placed;
    count_is =
        count_is
        ∙ sym (rehash-total a b e old le small placed one_each (2 ^ a) (λ s h. rw h) (omega arith));
    bytes_is =
        bytes_is
        ∙ sym (rehash-total a b e old le small placed len_each (2 ^ a) (λ s h. rw h) (omega arith));
  }

fresh_array :
    (e : ℕ) (r : Ring) (j : ℕ)
    → 2 ^ j ≤ r.cap
    → r.count ≡ 0
    → r.bytes ≡ 0
    → Filled e (record r { slots = some (λ _. empty_slot); size = 2 ^ j }) (λ _. empty_slot)
fresh_array e r j fits c b = record {
  bits = j;
  size_is = refl;
  size_le = fits;
  placed = λ i lt o. absurd (false≢true o);
  count_is = c ∙ sym (total-empty one_each (2 ^ j) refl);
  bytes_is = b ∙ sym (total-empty len_each (2 ^ j) refl);
}

module _ (e : ℕ) (r : Ring) (span : ℕ) (v : Inv e r) (h : span < r.cap) where
  ring_grow_first :
      r.slots ≡ none → (q : Ring) × (ring_grow_to_cover true r span ≡ some q) × Grown e r span q
  unfolding ring_grow_to_cover look rehash
  ring_grow_first is =
      let (size0, c, b) : Shape e r none = subst (λ o. Shape e r o) is v.shape in
      let (j, _, hi, w, cover) =
        grow_want_lem 32 span v.cap_bits 0 v.cap_small (omega arith) (omega (arith, v.cap_small))
          (omega (arith, v.cap_is)) in
      let fits : 2 ^ j ≤ r.cap =
        omega
          (arith, v.cap_is, pow-le-pow_right {n = 2} (omega arith) {i = j} {j = v.cap_bits} hi) in
      (
        record r { slots = some (λ _. empty_slot); size = 2 ^ j },
        ground (arith, size0, is, w, v.cap_is, one-le-pow j 2),
        record {
          array = λ _. empty_slot;
          slots_are = refl;
          filled = fresh_array e r j fits c b;
          covers = cover;
          view = λ s. ground (arith, is);
          count = refl;
          bytes = refl;
          cap = refl;
        },
      )

  module _ (old : ℕ → Slot) (is : r.slots ≡ some old) where
    grow_filled : Filled e r old
    grow_filled = subst (λ o. Shape e r o) is v.shape

    grow_bits :
        (j : ℕ) × (grow_filled.bits ≤ j)
        × (j ≤ v.cap_bits)
        × (grow_want 32 span r.cap r.size ≡ 2 ^ j)
        × (span < 2 ^ j)
    grow_bits =
        let f = grow_filled in
        let k = f.bits in
        let le : k ≤ v.cap_bits = elim (dec_le k v.cap_bits) [
          | yes le ↦ le
          | no nle ↦ absurd (
              omega (
                arith,
                f.size_is,
                f.size_le,
                v.cap_is,
                pow-suc 2 v.cap_bits,
                one-le-pow v.cap_bits 2,
                pow-le-pow_right {n = 2} (omega arith) {i = suc v.cap_bits} {j = k} (omega arith),
              ))
        ] in
        rw (f.size_is, v.cap_is)
          (grow_want_lem 32 span v.cap_bits k v.cap_small le (omega (arith, v.cap_small))
            (omega (arith, v.cap_is)))

    abbrev enlarged : ℕ → ℕ → Ring
    enlarged j n = record r { slots = some (rehash (2 ^ j) n old); size = 2 ^ j }

    -- The enlarged ring, with the old size written as the power that it is.
    Enlarged-Grown :
        (j : ℕ)
        → grow_filled.bits ≤ j
        → j ≤ v.cap_bits
        → span < 2 ^ j
        → Grown e r span (enlarged j (2 ^ grow_filled.bits))
    unfolding look
    Enlarged-Grown j lo hi cover =
        let f = grow_filled in
        let k = f.bits in
        let small : j ≤ 31 = omega (arith, v.cap_small) in
        let fits : 2 ^ j ≤ r.cap =
          omega
            (arith, v.cap_is, pow-le-pow_right {n = 2} (omega arith) {i = j} {j = v.cap_bits} hi) in
        let placed = subst (λ n. Placed e n old) f.size_is f.placed in
        let counts = subst (λ n. r.count ≡ total one_each n old) f.size_is f.count_is in
        let lens = subst (λ n. r.bytes ≡ total len_each n old) f.size_is f.bytes_is in
        record {
          array = rehash (2 ^ j) (2 ^ k) old;
          slots_are = refl;
          filled = bigger-Filled k j e r old lo small fits placed counts lens;
          covers = cover;
          view = λ s.
              bigger-view k j e r old lo small fits placed counts lens s
              ∙ sym (ground (arith, is, f.size_is));
          count = refl;
          bytes = refl;
          cap = refl;
        }

    ring_grow_again : (q : Ring) × (ring_grow_to_cover true r span ≡ some q) × Grown e r span q
    unfolding ring_grow_to_cover look
    ring_grow_again =
        let f = grow_filled in
        let (j, lo, hi, w, cover) = grow_bits in
        let sizes = pow-le-pow_right {n = 2} (omega arith) {i = f.bits} {j = j} lo in
        elim (Bool-cases (2 ^ j == r.size)) [
          | inl same ↦ (
            r,
            ground (arith, is, w, same, f.size_is, one-le-pow f.bits 2, sizes),
            record {
              array = old;
              slots_are = is;
              filled = f;
              covers = ground (arith, same);
              view = λ s. refl;
              count = refl;
              bytes = refl;
              cap = refl;
            },
          )
          | inr more ↦ (
            enlarged j r.size,
            ground (arith, is, w, more, f.size_is, one-le-pow f.bits 2, sizes),
            subst (λ n. Grown e r span (enlarged j n)) (sym f.size_is)
                (Enlarged-Grown j lo hi cover),
          )
        ]

-- In a well-formed ring, with memory at hand, `ring_grow_to_cover` succeeds for every span below
-- the cap: the ring that it leaves covers the span, has each packet in its slot, and holds what
-- it held, with the same count, bytes and cap.
pub ring_grow_lem :
    (e : ℕ) (r : Ring) (span : ℕ)
    → Inv e r
    → span < r.cap
    → (q : Ring) × (ring_grow_to_cover true r span ≡ some q) × Grown e r span q
ring_grow_lem e r span v h = elim (Option-cases r.slots) [
  | inl is ↦ ring_grow_first e r span v h is
  | inr (old, is) ↦ ring_grow_again e r span v h old is
]

-- Without it, growing fails or was not needed.
pub ring_grow_to_cover-false :
    (r : Ring) (span : ℕ)
    → (ring_grow_to_cover false r span ≡ none)
      ⊎ (ring_grow_to_cover false r span ≡ ring_grow_to_cover true r span)
unfolding ring_grow_to_cover
ring_grow_to_cover-false r span = ground arith
