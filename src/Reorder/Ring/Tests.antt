-- ===== src/Reorder/Ring/Tests.antt =====
-- Runs of the ring, and the theorems on it at a ring of eight.
use mqcpn.Prelude.{◌≡◌, refl, subst, sym, ◌∙◌, true, none, some, [], ◌∷◌, arith}
use mathlib.Core.Option.{some-injective}
use mqcpn.Reorder.Ring.Array.{empty_slot, update}
use mqcpn.Reorder.Ring.View.{look, Inv}
use mqcpn.Reorder.Ring.Remove.{Removed, ring_remove-some}
use mqcpn.Reorder.Ring.Grow.{Grown, ring_grow_lem}
use mqcpn.Reorder.Ring.Insert.{Inserted, ring_insert-some}
use mqcpn.Reorder.Ring.Advance.{ring_init-Inv}
use mqcpn.Reorder.Ring.{
  Ring, Taken, ring_init, ring_idx, ring_insert, ring_store, ring_grow_to_cover, grow_want, rehash,
}

abbrev fresh_ring : Ring
fresh_ring = record { slots = none; size = 0; cap = 8; count = 0; bytes = 0 }

fresh_ring-Inv : Inv 0 fresh_ring
unfolding ring_init
fresh_ring-Inv = ring_init-Inv 3 (omega arith)

fresh_ring-look : look fresh_ring 3 ≡ none
unfolding look
fresh_ring-look = refl

abbrev three : Taken
three = record { pkt = 69 ∷ []; len = 1; enqueue_us = 5 }

-- The ring with a packet under 3.
abbrev with_three : Ring
with_three = record {
  slots = some (
      update (λ _. empty_slot) 3
        (record { seq = 3; len = 1; pkt = some (69 ∷ []); enqueue_us = 5 }));
  size = 4;
  cap = 8;
  count = 1;
  bytes = 1;
}

inserts : ring_insert true fresh_ring 3 (69 ∷ []) 1 0 5 ≡ some with_three
unfolding ring_insert ring_store ring_grow_to_cover grow_want rehash ring_idx
inserts = refl

ring_insert-some_example :
    (q : Ring) × (ring_insert true fresh_ring 3 (69 ∷ []) 1 0 5 ≡ some q)
    × Inserted 0 fresh_ring 3 three q
ring_insert-some_example =
    ring_insert-some 0 fresh_ring 3 (69 ∷ []) 1 5 fresh_ring-Inv (omega arith) (omega arith)
      fresh_ring-look

with_three-Inv : Inv 0 with_three
with_three-Inv =
    let (q, is, ins) =
      ring_insert-some 0 fresh_ring 3 (69 ∷ []) 1 5 fresh_ring-Inv (omega arith) (omega arith)
        fresh_ring-look in
    subst (Inv 0) (some-injective q with_three (sym is ∙ inserts)) ins.inv

with_three-look : look with_three 3 ≡ some three
unfolding look ring_idx
with_three-look = refl

ring_remove-some_example : (q : Ring) × Removed 0 with_three 3 three q
ring_remove-some_example = ring_remove-some 0 with_three 3 three with_three-Inv with_three-look

ring_grow_lem_example :
    (q : Ring) × (ring_grow_to_cover true with_three 6 ≡ some q) × Grown 0 with_three 6 q
ring_grow_lem_example = ring_grow_lem 0 with_three 6 with_three-Inv (omega arith)
