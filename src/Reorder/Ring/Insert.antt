-- ===== src/Reorder/Ring/Insert.antt =====
-- `ring_insert` adds one sequence number to the ring's view.
use mqcpn.Prelude.{
  ℕ, ◌+◌, ◌-◌, ◌≡◌, ◌⊎◌, ◌≤◌, ◌<◌, refl, subst, ap, sym, ◌∙◌, true, false, not, ◌||◌, none, some,
  List, leb, ◌==◌, if◌then◌else◌, arith, Bool-cases, Option-cases, inl, inr, ◌%◌,
}
use mqcpn.Reorder.Ring.Array.{Slot, is_occupied, update, one_each, len_each, total-update}
use mqcpn.Reorder.Ring.View.{look, look_in, Filled, Shape, Inv, window_unique, ring_idx-mod}
use mqcpn.Reorder.Ring.Remove.{Filled-bound, ring_idx-lt}
use mqcpn.Reorder.Ring.Grow.{Grown, ring_grow_lem, ring_grow_to_cover-false}
use mqcpn.Reorder.Ring.{Ring, Taken, ring_idx, ring_insert, ring_store, is_allocated}

ring_idx-size :
    {e : ℕ} {r : Ring} {slots : ℕ → Slot} (seq : ℕ)
    → r.size ≤ 2147483648
    → Filled e r slots
    → ring_idx r.size seq ≡ seq % r.size
ring_idx-size {r = r} seq b f =
    subst (λ n. ring_idx n seq ≡ seq % n) (sym f.size_is)
      (ring_idx-mod f.bits seq (omega (arith, f.size_is)))

module _ (e : ℕ) (r : Ring) (slots : ℕ → Slot) (seq : ℕ) (pkt : List ℕ) (len enq : ℕ)
    (b : r.size ≤ 2147483648) (f : Filled e r slots) (lo : e ≤ seq) (hi : seq < e + r.size)
    (new : look_in slots r.size seq ≡ none) where
  abbrev entry : Slot
  entry = record { seq = seq; len = len; pkt = some pkt; enqueue_us = enq }

  abbrev stored : Ring
  stored = record r {
    slots = some (update slots (ring_idx r.size seq) entry);
    count = r.count + 1;
    bytes = r.bytes + len;
  }

  -- The slot that a new packet goes to is free.
  target_free : is_occupied (slots (ring_idx r.size seq)) ≡ false
  target_free =
      let i = ring_idx r.size seq in
      elim (Bool-cases (is_occupied (slots i))) [
        | inl taken ↦
            let at = f.placed i (ring_idx-lt seq b f) taken in
            let same : (slots i).seq ≡ seq =
              window_unique r.size e (slots i).seq seq
                (omega (arith, at, ring_idx-size seq b f, ring_idx-size (slots i).seq b f)) at.1
                at.2 lo hi in
            absurd (ground (arith, Option-cases (slots i).pkt))
        | inr free ↦ free
      ]

  stored-Filled : Filled e stored (update slots (ring_idx r.size seq) entry)
  stored-Filled =
      let i = ring_idx r.size seq in
      let lt = ring_idx-lt seq b f in
      let free = target_free in
      record {
        bits = f.bits;
        size_is = f.size_is;
        size_le = f.size_le;
        placed = λ j lt oc. ground (arith, f.placed j);
        count_is = ground (arith, f, total-update one_each r.size i entry slots lt);
        bytes_is = ground (arith, f, total-update len_each r.size i entry slots lt);
      }

  abbrev packet : Taken
  packet = record { pkt = pkt; len = len; enqueue_us = enq }

  stored-view : (s : ℕ) → look stored s ≡ (if s == seq then some packet else look_in slots r.size s)
  unfolding look
  stored-view s = ground (arith, target_free, Option-cases (slots (ring_idx r.size seq)).pkt)

-- The ring with the packet under `seq`.
pub record Inserted (e : ℕ) (r : Ring) (seq : ℕ) (t : Taken) (q : Ring) : Type 0 where
  pub view : (s : ℕ) → look q s ≡ (if s == seq then some t else look r s)
  pub count : q.count ≡ r.count + 1
  pub bytes : q.bytes ≡ r.bytes + t.len
  pub cap : q.cap ≡ r.cap
  pub inv : Inv e q

module _ (e : ℕ) (r : Ring) (seq : ℕ) (pkt : List ℕ) (len enq : ℕ) (v : Inv e r) (lo : e ≤ seq)
    (near : seq - e < r.cap) (new : look r seq ≡ none) where
  abbrev arrival : Taken
  arrival = record { pkt = pkt; len = len; enqueue_us = enq }

  ring_insert_fits :
      (slots : ℕ → Slot)
      → r.slots ≡ some slots
      → seq - e < r.size
      → (q : Ring) × (ring_insert true r seq pkt len e enq ≡ some q) × Inserted e r seq arrival q
  unfolding ring_insert ring_store look
  ring_insert_fits slots is fits =
      let f : Filled e r slots = subst (λ o. Shape e r o) is v.shape in
      let b = Filled-bound v.cap_small v.cap_is f in
      let hi : seq < e + r.size = omega arith in
      let new' : look_in slots r.size seq ≡ none = ground arith in
      (
        stored e r slots seq pkt len enq b f lo hi new',
        ground arith,
        record {
          view = λ s. ground (arith, stored-view e r slots seq pkt len enq b f lo hi new' s);
          count = refl;
          bytes = refl;
          cap = refl;
          inv = record {
            cap_bits = v.cap_bits;
            cap_small = v.cap_small;
            cap_is = v.cap_is;
            shape = stored-Filled e r slots seq pkt len enq b f lo hi new';
          };
        },
      )

  Grown-look : (p : Ring) (g : Grown e r (seq - e) p) (s : ℕ) → look_in g.array p.size s ≡ look r s
  unfolding look
  Grown-look p g s = ground (arith, g.view s, g.slots_are)

  ring_insert_grows :
      (not (is_allocated r.slots) || leb r.size (seq - e)) ≡ true
      → (q : Ring) × (ring_insert true r seq pkt len e enq ≡ some q) × Inserted e r seq arrival q
  unfolding ring_insert ring_store
  ring_insert_grows short =
      let (p, grow, g) = ring_grow_lem e r (seq - e) v near in
      let f = g.filled in
      let b = Filled-bound v.cap_small (g.cap ∙ v.cap_is) f in
      let hi : seq < e + p.size = omega (arith, g.covers) in
      let new' : look_in g.array p.size seq ≡ none = Grown-look p g seq ∙ new in
      (
        stored e p g.array seq pkt len enq b f lo hi new',
        rw (short, grow, g.slots_are) refl,
        record {
          view = λ s.
              stored-view e p g.array seq pkt len enq b f lo hi new' s
              ∙ ap (λ o. if s == seq then some arrival else o) (Grown-look p g s);
          count = ap (λ (n : ℕ). n + 1) g.count;
          bytes = ap (λ (n : ℕ). n + len) g.bytes;
          cap = g.cap;
          inv = record {
            cap_bits = v.cap_bits;
            cap_small = v.cap_small;
            cap_is = g.cap ∙ v.cap_is;
            shape = stored-Filled e p g.array seq pkt len enq b f lo hi new';
          };
        },
      )

-- In a well-formed ring, with memory at hand, a number that is not behind the window, is less
-- than `cap` ahead and is not held is stored by `ring_insert` under its number: nothing else of
-- the view changes, count and bytes grow by the packet, and the ring stays well formed.
pub ring_insert-some :
    (e : ℕ) (r : Ring) (seq : ℕ) (pkt : List ℕ) (len enq : ℕ)
    → Inv e r
    → e ≤ seq
    → seq - e < r.cap
    → look r seq ≡ none
    → (q : Ring) × (ring_insert true r seq pkt len e enq ≡ some q)
      × Inserted e r seq (record { pkt = pkt; len = len; enqueue_us = enq }) q
ring_insert-some e r seq pkt len enq v lo near new =
    elim (Bool-cases (not (is_allocated r.slots) || leb r.size (seq - e))) [
      | inl short ↦ ring_insert_grows e r seq pkt len enq v lo near new short
      | inr long ↦ elim (Option-cases r.slots) [
        | inl is ↦ absurd (ground arith)
        | inr (slots, is) ↦
            ring_insert_fits e r seq pkt len enq v lo near new slots is (ground arith)
      ]
    ]

-- Without memory, `ring_insert` fails or did not need any.
pub ring_insert-false :
    (r : Ring) (seq : ℕ) (pkt : List ℕ) (len e enq : ℕ)
    → (ring_insert false r seq pkt len e enq ≡ none)
      ⊎ (ring_insert false r seq pkt len e enq ≡ ring_insert true r seq pkt len e enq)
unfolding ring_insert
ring_insert-false r seq pkt len e enq = ground (arith, ring_grow_to_cover-false r (seq - e))
