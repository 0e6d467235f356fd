-- ===== src/Reorder/Ring/Remove.antt =====
-- `ring_remove` deletes one sequence number from the ring's view.
use native.Mathlib.Nat.{mod-lt, one-le-pow}
use mqcpn.Prelude.{
  subst, Option-cases, inl, inr, refl, ℕ, ◌+◌, ◌-◌, ◌^◌, ◌≡◌, ◌≤◌, ◌<◌, none, some, ◌==◌,
  if◌then◌else◌, arith,
}
use mqcpn.Reorder.Ring.Array.{Slot, empty_slot, update, one_each, len_each, total-update}
use mqcpn.Reorder.Ring.View.{Shape, look, look_in, Filled, Inv, ring_idx-mod, pow_small}
use mqcpn.Reorder.Ring.{Ring, Taken, ring_idx, ring_remove}

pub Filled-bound :
    {e K : ℕ} {r : Ring} {slots : ℕ → Slot}
    → K ≤ 31
    → r.cap ≡ 2 ^ K
    → Filled e r slots
    → r.size ≤ 2147483648
Filled-bound {K = K} small is f = omega (arith, pow_small K small, f.size_le)

pub ring_idx-lt :
    {e : ℕ} {r : Ring} {slots : ℕ → Slot} (seq : ℕ)
    → r.size ≤ 2147483648
    → Filled e r slots
    → ring_idx r.size seq < r.size
ring_idx-lt {r = r} seq b f =
    let k = f.bits in
    rw f.size_is (
      rw (ring_idx-mod k seq (omega (arith, f.size_is)))
        (mod-lt seq (omega (arith, one-le-pow k 2))))

-- The ring without what it held under `seq`.
pub record Removed (e : ℕ) (r : Ring) (seq : ℕ) (t : Taken) (q : Ring) : Type 0 where
  pub call : ring_remove r seq ≡ some (t, q)
  pub view : (s : ℕ) → look q s ≡ (if s == seq then none else look r s)
  pub count : q.count + 1 ≡ r.count
  pub bytes : q.bytes + t.len ≡ r.bytes
  pub cap : q.cap ≡ r.cap
  pub inv : Inv e q

pub ring_remove-none : (r : Ring) (seq : ℕ) → look r seq ≡ none → ring_remove r seq ≡ none
unfolding look ring_remove
ring_remove-none r seq h = ground arith

module _ (e : ℕ) (r : Ring) (slots : ℕ → Slot) (seq : ℕ) (t : Taken) (b : r.size ≤ 2147483648)
    (f : Filled e r slots) (h : look_in slots r.size seq ≡ some t) where
  abbrev gone : Ring
  gone = record r {
    slots = some (update slots (ring_idx r.size seq) empty_slot);
    count = r.count - 1;
    bytes = r.bytes - t.len;
  }

  gone-Filled : Filled e gone (update slots (ring_idx r.size seq) empty_slot)
  gone-Filled =
      let i = ring_idx r.size seq in
      let lt = ring_idx-lt seq b f in
      record {
        bits = f.bits;
        size_is = f.size_is;
        size_le = f.size_le;
        placed = λ j lt oc. ground (arith, f.placed j);
        count_is = ground (arith, f, total-update one_each r.size i empty_slot slots lt);
        bytes_is = ground (arith, f, total-update len_each r.size i empty_slot slots lt);
      }

  gone-view : (s : ℕ) → look gone s ≡ (if s == seq then none else look_in slots r.size s)
  unfolding look
  gone-view s = ground arith

  gone-call : r.slots ≡ some slots → ring_remove r seq ≡ some (t, gone)
  unfolding ring_remove
  gone-call is = ground arith

  gone-counts : (gone.count + 1 ≡ r.count) × (gone.bytes + t.len ≡ r.bytes)
  gone-counts =
      let i = ring_idx r.size seq in
      let lt = ring_idx-lt seq b f in
      (
        ground (arith, f, total-update one_each r.size i empty_slot slots lt),
        ground (arith, f, total-update len_each r.size i empty_slot slots lt),
      )

-- In a well-formed ring, `ring_remove` returns what the ring holds under a number: only that goes
-- from the view, count and bytes shrink by the packet, and the ring stays well formed.
pub ring_remove-some :
    (e : ℕ) (r : Ring) (seq : ℕ) (t : Taken)
    → Inv e r
    → look r seq ≡ some t
    → (q : Ring) × Removed e r seq t q
unfolding look
ring_remove-some e r seq t v h = elim (Option-cases r.slots) [
  | inl is ↦ absurd (ground arith)
  | inr (slots, is) ↦
      let f : Filled e r slots = subst (λ o. Shape e r o) is v.shape in
      let b = Filled-bound v.cap_small v.cap_is f in
      let h' : look_in slots r.size seq ≡ some t = ground arith in
      let counts = gone-counts e r slots seq t b f h' in
      (
        gone e r slots seq t b f h',
        record {
          call = gone-call e r slots seq t b f h' is;
          view = λ s. ground (arith, gone-view e r slots seq t b f h' s);
          count = counts.0;
          bytes = counts.1;
          cap = refl;
          inv = record {
            cap_bits = v.cap_bits;
            cap_small = v.cap_small;
            cap_is = v.cap_is;
            shape = gone-Filled e r slots seq t b f h';
          };
        },
      )
]
