-- ===== src/Reorder/Ring/Lowest.antt =====
-- `ring_lowest_seq`, and when the ring is empty.
use mathlib.Core.Bool.{false≢true}
use mqcpn.Prelude.{
  dec_le, ◌≢◌, ℕ, zero, suc, ◌+◌, ◌-◌, ◌≡◌, ◌≤◌, ◌<◌, subst, ap, sym, ◌∙◌, Bool, true, false,
  Option, none, some, List, arith, Bool-cases, Option-cases, inl, inr,
}
use mqcpn.Reorder.Ring.Array.{Slot, one_each, len_each, total-ge, total-pos}
use mqcpn.Reorder.Ring.View.{look, look_in, Filled, Shape, Inv}
use mqcpn.Reorder.Ring.Remove.{Filled-bound, ring_idx-lt}
use mqcpn.Reorder.Ring.{Ring, Taken, ring_idx, holds, lowest_scan, ring_lowest_seq, ring_contains}

-- `ring_contains` asks whether the view has the sequence number.
abbrev pub is_some : Option Taken → Bool
is_some none = false
is_some (some _) = true

pub ring_contains-look : (r : Ring) (seq : ℕ) → ring_contains r seq ≡ is_some (look r seq)
unfolding ring_contains look
ring_contains-look r seq = ground arith

lowest_scan_lem :
    (rounds i j : ℕ) (slots : ℕ → Slot) (size e : ℕ)
    → holds slots size (e + j) ≡ true
    → i ≤ j
    → j < i + rounds
    → let m = lowest_scan rounds i slots size e in
      (holds slots size m ≡ true)
      × (e + i ≤ m)
      × (m ≤ e + j)
      × ((s : ℕ) → e + i ≤ s → s < m → holds slots size s ≡ false)
unfolding lowest_scan
lowest_scan_lem zero i j slots size e h lo hi = absurd (omega arith)
lowest_scan_lem (suc rounds) i j slots size e h lo hi =
    elim (Bool-cases (holds slots size (e + i))) [
      | inl here ↦ rw here (here, omega arith, omega arith, λ s a b. absurd (omega arith))
      | inr miss ↦
          let ne : i ≢ j =
            λ same. false≢true (sym miss ∙ ap (λ (t : ℕ). holds slots size (e + t)) same ∙ h) in
          let rest = lowest_scan_lem rounds (i + 1) j slots size e h (omega arith) (omega arith) in
          rw miss (
            rest.0,
            omega (arith, rest.1),
            rest.2,
            λ s a b. elim (dec_le (e + i + 1) s) [
              | yes later ↦ rest.3 s (omega arith) b
              | no first ↦ let at : s ≡ e + i = omega arith in rw at miss
            ],
          )
    ]

-- What holds of every packet in the view of a well-formed ring.
pub look_window :
    (e : ℕ) (r : Ring) (seq : ℕ) (t : Taken)
    → Inv e r
    → look r seq ≡ some t
    → (e ≤ seq) × (seq < e + r.size) × (0 < r.count) × (t.len ≤ r.bytes)
unfolding look
look_window e r seq t v h = elim (Option-cases r.slots) [
  | inl is ↦ absurd (ground arith)
  | inr (slots, is) ↦
      let f : Filled e r slots = subst (λ o. Shape e r o) is v.shape in
      let lt = ring_idx-lt seq (Filled-bound v.cap_small v.cap_is f) f in
      let i = ring_idx r.size seq in
      ground (
        arith,
        is,
        h,
        f,
        f.placed i lt,
        total-ge one_each r.size i slots lt,
        total-ge len_each r.size i slots lt,
      )
]

occupied_pkt : (s : Slot) → 0 < one_each s → (pkt : List ℕ) × (s.pkt ≡ some pkt)
occupied_pkt s pos = elim (Option-cases s.pkt) [
  | inl is ↦ absurd (ground arith)
  | inr found ↦ found
]

-- A ring that is not empty holds something.
pub look-some :
    (e : ℕ) (r : Ring) → Inv e r → 0 < r.count → (seq : ℕ) × (t : Taken) × (look r seq ≡ some t)
unfolding look
look-some e r v h = elim (Option-cases r.slots) [
  | inl is ↦ absurd (ground (arith, subst (λ o. Shape e r o) is v.shape))
  | inr (slots, is) ↦
      let f : Filled e r slots = subst (λ o. Shape e r o) is v.shape in
      let (i, lt, pos) = total-pos one_each r.size slots (omega (arith, f.count_is)) in
      let (pkt, here) = occupied_pkt (slots i) pos in
      (
        (slots i).seq,
        record { pkt = pkt; len = (slots i).len; enqueue_us = (slots i).enqueue_us },
        ground (arith, is, here, f.placed i lt),
      )
]

holds-look_in :
    (slots : ℕ → Slot) (size m : ℕ)
    → holds slots size m ≡ true
    → (t : Taken) × (look_in slots size m ≡ some t)
holds-look_in slots size m h = elim (Option-cases (look_in slots size m)) [
  | inl is ↦ absurd (ground (arith, Option-cases (slots (ring_idx size m)).pkt))
  | inr found ↦ found
]

look_in-holds :
    (slots : ℕ → Slot) (size m : ℕ) (t : Taken)
    → look_in slots size m ≡ some t
    → holds slots size m ≡ true
look_in-holds slots size m t h = ground (arith, Option-cases (slots (ring_idx size m)).pkt)

-- In a well-formed ring that is not empty, `ring_lowest_seq` is held by the ring, and no smaller
-- number is.
pub ring_lowest_seq_lem :
    (e : ℕ) (r : Ring)
    → Inv e r
    → 0 < r.count
    → let m = ring_lowest_seq r e in
      ((t : Taken) × (look r m ≡ some t)) × ((s : ℕ) → s < m → look r s ≡ none)
unfolding look ring_lowest_seq
ring_lowest_seq_lem e r v h = elim (Option-cases r.slots) [
  | inl is ↦ absurd (ground (arith, subst (λ o. Shape e r o) is v.shape))
  | inr (slots, is) ↦
      let (seq, t, found) = look-some e r v h in
      let (lo, hi, _, _) = look_window e r seq t v found in
      let at : e + (seq - e) ≡ seq = omega arith in
      let held : holds slots r.size (e + (seq - e)) ≡ true = rw at (ground arith) in
      let scan =
        lowest_scan_lem r.size 0 (seq - e) slots r.size e held (omega arith) (omega arith) in
      rw is (
        holds-look_in slots r.size _ scan.0,
        λ s below. elim (Option-cases (look_in slots r.size s)) [
          | inl clear ↦ clear
          | inr (u, there) ↦
              let window = look_window e r s u v (rw is there) in
              absurd (
                false≢true (
                  sym (scan.3 s (omega (arith, window.0)) below)
                  ∙ look_in-holds slots r.size s u there))
        ],
      )
]
