-- ===== src/Reorder/Ring/Rehash.antt =====
-- The rehash of `ring_grow_to_cover`: into a larger array every packet moves to its own new slot.
use native.Mathlib.Nat.{mod-lt, one-le-pow, pow-suc, dvd_refl, dvd-mul_right_of_dvd, mod-mod_of_dvd}
use Prim.Native.Nat.{◌∣◌}
use mathlib.Core.Bool.{false≢true}
use mqcpn.Prelude.{
  ℕ, zero, suc, ◌+◌, ◌-◌, ◌%◌, ◌^◌, ◌≡◌, ◌≤◌, ◌<◌, refl, subst, ap, sym, ◌∙◌, true, false, ◌==◌,
  arith, Bool-cases, inl, inr, ==_iff,
}
use mqcpn.Reorder.Ring.Array.{
  total-suc, Slot, empty_slot, is_occupied, update, total, total-update, total-empty,
}
use mqcpn.Reorder.Ring.View.{Placed, ring_idx-mod, pow_small}
use mqcpn.Reorder.Ring.{ring_idx, rehash}

pow_dvd : (d a b : ℕ) → b ≡ a + d → 2 ^ a ∣ 2 ^ b
pow_dvd zero a b e = let same : b ≡ a = omega arith in rw same (dvd_refl (2 ^ a))
pow_dvd (suc d) a b e =
    let next : b ≡ suc (a + d) = omega arith in
    rw (next, pow-suc 2 (a + d)) (dvd-mul_right_of_dvd (2 ^ a) (pow_dvd d a (a + d) refl) 2)

module _ (a b e : ℕ) (old : ℕ → Slot) (le : a ≤ b) (small : b ≤ 31)
    (placed : Placed e (2 ^ a) old) where
  -- Two packets with one new slot had one old slot.
  rehash_unique :
      (i j : ℕ)
      → i < 2 ^ a
      → j < 2 ^ a
      → is_occupied (old i) ≡ true
      → is_occupied (old j) ≡ true
      → ring_idx (2 ^ b) (old i).seq ≡ ring_idx (2 ^ b) (old j).seq
      → i ≡ j
  rehash_unique i j lti ltj oi oj same =
      let d = pow_dvd (b - a) a b (omega arith) in
      let sa = pow_small a (omega arith) in
      let sb = pow_small b small in
      ground (
        arith,
        placed i lti oi,
        placed j ltj oj,
        ring_idx-mod a (old i).seq sa,
        ring_idx-mod a (old j).seq sa,
        ring_idx-mod b (old i).seq sb,
        ring_idx-mod b (old j).seq sb,
        mod-mod_of_dvd (2 ^ a) (old i).seq d,
        mod-mod_of_dvd (2 ^ a) (old j).seq d,
        ap (λ (t : ℕ). t % 2 ^ a) same,
      )

  -- What the new array holds after the entries below `n`.
  pub record Moved (n : ℕ) (new : ℕ → Slot) : Type 0 where
    pub from :
        (j : ℕ)
        → is_occupied (new j) ≡ true
        → (i : ℕ) × (i < n) × (new j ≡ old i) × (ring_idx (2 ^ b) (old i).seq ≡ j)
    pub to :
        (i : ℕ) → i < n → is_occupied (old i) ≡ true → new (ring_idx (2 ^ b) (old i).seq) ≡ old i

  idx_lt : (seq : ℕ) → ring_idx (2 ^ b) seq < 2 ^ b
  idx_lt seq =
      ground (arith, ring_idx-mod b seq (pow_small b small), one-le-pow b 2, mod-lt seq {m = 2 ^ b})

  module _ (n : ℕ) (new : ℕ → Slot) (h : n < 2 ^ a) (full : is_occupied (old n) ≡ true)
      (m : Moved n new) where
    abbrev target : ℕ
    target = ring_idx (2 ^ b) (old n).seq

    -- The new slot of the next packet is free.
    target_free : is_occupied (new target) ≡ false
    target_free = elim (Bool-cases (is_occupied (new target))) [
      | inl taken ↦
          let (i, lt, is, idx) = m.from target taken in
          let oi : is_occupied (old i) ≡ true = ground (arith, is, taken) in
          absurd (omega (arith, rehash_unique i n (omega arith) h oi full idx))
      | inr free ↦ free
    ]

    moved_from :
        (j : ℕ)
        → is_occupied (update new target (old n) j) ≡ true
        → (i : ℕ) × (i < suc n)
          × (update new target (old n) j ≡ old i)
          × (ring_idx (2 ^ b) (old i).seq ≡ j)
    moved_from j o = elim (Bool-cases (j == target)) [
      | inl same ↦ (n, omega arith, ground arith, ground arith)
      | inr other ↦
          let (i, lt, is, idx) = m.from j (ground arith) in (i, omega arith, ground arith, idx)
    ]

    moved_to :
        (i : ℕ)
        → i < suc n
        → is_occupied (old i) ≡ true
        → update new target (old n) (ring_idx (2 ^ b) (old i).seq) ≡ old i
    moved_to i lt o = elim (Bool-cases (i == n)) [
      | inl last ↦ let is : i ≡ n = ground arith in ground (arith, is, ap old is)
      | inr early ↦
          ground (arith, m.to i, rehash_unique i n (omega (arith, (==_iff i n).1)) h o full)
    ]

    moved : Moved (suc n) (update new target (old n))
    moved = record { from = moved_from; to = moved_to }

  rehash_full :
      (n : ℕ)
      → is_occupied (old n) ≡ true
      → rehash (2 ^ b) (suc n) old
        ≡ update (rehash (2 ^ b) n old) (ring_idx (2 ^ b) (old n).seq) (old n)
  unfolding rehash
  rehash_full n h = rw h

  rehash_clear :
      (n : ℕ) → is_occupied (old n) ≡ false → rehash (2 ^ b) (suc n) old ≡ rehash (2 ^ b) n old
  unfolding rehash
  rehash_clear n h = rw h

  not_last :
      (n i : ℕ) → is_occupied (old n) ≡ false → is_occupied (old i) ≡ true → i < suc n → i < n
  not_last n i clear o lt = elim (Bool-cases (i == n)) [
    | inl same ↦
        let is : i ≡ n = ground arith in
        absurd (false≢true (sym clear ∙ ap (λ t. is_occupied (old t)) (sym is) ∙ o))
    | inr other ↦ ground arith
  ]

  pub rehash-Moved : (n : ℕ) → n ≤ 2 ^ a → Moved n (rehash (2 ^ b) n old)
  rehash-Moved zero h =
      unfold rehash in
      record { from = λ j o. absurd (false≢true o); to = λ i lt o. absurd (omega arith) }
  rehash-Moved (suc n) h =
      let m = rehash-Moved n (omega arith) in
      elim (Bool-cases (is_occupied (old n))) [
        | inl full ↦
            subst (Moved (suc n)) (sym (rehash_full n full))
              (moved n (rehash (2 ^ b) n old) (omega arith) full m)
        | inr clear ↦ subst (Moved (suc n)) (sym (rehash_clear n clear)) (record {
          from = λ j o. (let (i, lt, is, idx) = m.from j o in (i, omega arith, is, idx));
          to = λ i lt o. m.to i (not_last n i clear o lt) o;
        })
      ]

  -- No packet is lost: a sum that empty slots do not count in is the same over both arrays.
  pub rehash-total :
      (w : Slot → ℕ) (n : ℕ)
      → ((s : Slot) → is_occupied s ≡ false → w s ≡ 0)
      → n ≤ 2 ^ a
      → total w (2 ^ b) (rehash (2 ^ b) n old) ≡ total w n old
  rehash-total w zero z h = unfold rehash total in total-empty w (2 ^ b) (z empty_slot refl)
  rehash-total w (suc n) z h =
      let ih = rehash-total w n z (omega arith) in
      elim (Bool-cases (is_occupied (old n))) [
        | inl full ↦
            let new = rehash (2 ^ b) n old in
            let free = target_free n new (omega arith) full (rehash-Moved n (omega arith)) in
            let at = ring_idx (2 ^ b) (old n).seq in
            rw (rehash_full n full, total-suc w n old)
              (omega (
                arith,
                ih,
                total-update w (2 ^ b) at (old n) new (idx_lt (old n).seq),
                z (new at) free,
              ))
        | inr clear ↦
            rw (rehash_clear n clear, total-suc w n old) (omega (arith, ih, z (old n) clear))
      ]
