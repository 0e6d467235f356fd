-- ===== src/Reorder/Ring/Advance.antt =====
-- The window of the ring moves on, and the ring's end points: a new ring and a freed one.
use mqcpn.Prelude.{
  ℕ, zero, suc, ◌^◌, ◌≡◌, ◌≤◌, ◌<◌, refl, subst, sym, ◌∙◌, true, none, arith, Option-cases, inl,
  inr, dec_le, ◌≢◌,
}
use mqcpn.Reorder.Ring.Array.{Slot, is_occupied, total, one_each, len_each, total-ge}
use mqcpn.Reorder.Ring.View.{look, look_in, Filled, Shape, Inv}
use mqcpn.Reorder.Ring.Lowest.{look_window}
use mqcpn.Reorder.Ring.{Ring, ring_init, ring_free, ring_idx}

look_occupied :
    (slots : ℕ → Slot) (size i : ℕ)
    → ring_idx size (slots i).seq ≡ i
    → is_occupied (slots i) ≡ true
    → look_in slots size (slots i).seq ≢ none
look_occupied slots size i at o h = ground (arith, Option-cases (slots i).pkt)

-- The window may start later if nothing below its new start is buffered.
pub advance-Inv :
    (e m : ℕ) (r : Ring) → Inv e r → e ≤ m → ((s : ℕ) → s < m → look r s ≡ none) → Inv m r
unfolding look
advance-Inv e m r v le clear = record {
  cap_bits = v.cap_bits;
  cap_small = v.cap_small;
  cap_is = v.cap_is;
  shape = elim (Option-cases r.slots) [
    | inl is ↦ subst (λ o. Shape m r o) (sym is) (subst (λ o. Shape e r o) is v.shape)
    | inr (slots, is) ↦
        let f : Filled e r slots = subst (λ o. Shape e r o) is v.shape in
        let g : Filled m r slots = record {
          bits = f.bits;
          size_is = f.size_is;
          size_le = f.size_le;
          placed = λ i lt o.
              let at = f.placed i lt o in
              (
                at.0,
                elim (dec_le m (slots i).seq) [
                  | yes ok ↦ ok
                  | no nok ↦ absurd (
                      look_occupied slots r.size i at.0 o
                        (let c = clear (slots i).seq (omega arith) in ground (arith, is, c)))
                ],
                omega (arith, at.2),
              );
          count_is = f.count_is;
          bytes_is = f.bytes_is;
        } in
        subst (λ o. Shape m r o) (sym is) g
  ];
}

pub ring_init-Inv : (k : ℕ) → k ≤ 31 → Inv 0 (ring_init (2 ^ k))
unfolding ring_init
ring_init-Inv k small = record {
  cap_bits = k;
  cap_small = small;
  cap_is = refl;
  shape = (refl, refl, refl);
}

-- A freed ring is empty and fits every window.
pub ring_free-Inv : (e m : ℕ) (r : Ring) → Inv e r → Inv m (ring_free r)
unfolding ring_free
ring_free-Inv e m r v = record {
  cap_bits = v.cap_bits;
  cap_small = v.cap_small;
  cap_is = v.cap_is;
  shape = (refl, refl, refl);
}

pub empty-look : (e s : ℕ) (r : Ring) → Inv e r → r.count ≡ 0 → look r s ≡ none
empty-look e s r v h = elim (Option-cases (look r s)) [
  | inl is ↦ is
  | inr (t, is) ↦ absurd (omega (arith, h, (look_window e r s t v is).2))
]

-- An empty ring fits every window.
pub emptied-Inv : (e m : ℕ) (r : Ring) → Inv e r → r.count ≡ 0 → Inv m r
emptied-Inv e m r v h = record {
  cap_bits = v.cap_bits;
  cap_small = v.cap_small;
  cap_is = v.cap_is;
  shape = elim (Option-cases r.slots) [
    | inl is ↦ subst (λ o. Shape m r o) (sym is) (subst (λ o. Shape e r o) is v.shape)
    | inr (slots, is) ↦
        let f : Filled e r slots = subst (λ o. Shape e r o) is v.shape in
        let g : Filled m r slots = record {
          bits = f.bits;
          size_is = f.size_is;
          size_le = f.size_le;
          placed =
              λ i lt o. absurd (ground (arith, f.count_is, total-ge one_each r.size i slots lt));
          count_is = f.count_is;
          bytes_is = f.bytes_is;
        } in
        subst (λ o. Shape m r o) (sym is) g
  ];
}

total-none : (n : ℕ) (slots : ℕ → Slot) → total one_each n slots ≡ 0 → total len_each n slots ≡ 0
unfolding total
total-none zero slots h = refl
total-none (suc n) slots h = ground (arith, total-none n slots)

pub empty-bytes : (e : ℕ) (r : Ring) → Inv e r → r.count ≡ 0 → r.bytes ≡ 0
empty-bytes e r v h = elim (Option-cases r.slots) [
  | inl is ↦ (subst (λ o. Shape e r o) is v.shape).2
  | inr (slots, is) ↦
      let f : Filled e r slots = subst (λ o. Shape e r o) is v.shape in
      f.bytes_is ∙ total-none r.size slots (sym f.count_is ∙ h)
]
