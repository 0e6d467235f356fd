-- ===== src/Reorder/Receive/Admit.antt =====
-- The admission of a packet that is ahead: `buffer_insert_committed` and `buffer_admit` keep a flow good.
use mqcpn.Prelude.{
  ℕ, ◌+◌, ◌-◌, ◌≡◌, ◌⊎◌, ◌≤◌, ◌<◌, refl, ◌∙◌, Bool, true, false, Option, none, some, List, ltb, leb,
  ◌==◌, arith, Bool-cases, Option-cases, inl, inr, length,
}
use mqcpn.Prelude.Words.{u64}
use mqcpn.Reorder.Ring.View.{look}
use mqcpn.Reorder.Ring.Lowest.{ring_contains-look}
use mqcpn.Reorder.Ring.Insert.{Inserted, ring_insert-some, ring_insert-false}
use mqcpn.Reorder.Ring.{Ring, ring_empty, ring_insert, ring_far_ahead, ring_contains}
use mqcpn.Reorder.Flow.Sound.{Sound}
use mqcpn.Reorder.Flow.Gap.{Timed, Good}
use mqcpn.Reorder.Flow.{Work, arm_gap_timer}
use mqcpn.Reorder.Receive.Deliver.{noted-Good, deliver_in_order-Good}
use mqcpn.Reorder.Receive.{
  Memory, Result, committed, buffer_insert_committed, reclassify_after_flush, pool_would_exhaust,
}

-- A new sequence number that the window has room for.
pub record Ahead (seq : ℕ) (w : Work) : Type 0 where
  pub later : w.flow.expected < seq
  pub near : seq - w.flow.expected < w.flow.buffer.cap
  pub new : look w.flow.buffer seq ≡ none

module _ (seq len enq : ℕ) (pkt : List ℕ) (others : ℕ) (w : Work) (g : Good others w)
    (a : Ahead seq w) where
  abbrev pub call : Bool → Option Ring
  call calloc_ok = ring_insert calloc_ok w.flow.buffer seq pkt len w.flow.expected enq

  abbrev pub InsertedHere : Ring → Type 0
  InsertedHere q =
      Inserted w.flow.expected w.flow.buffer seq (record { pkt = pkt; len = len; enqueue_us = enq })
        q

  insert_true : (q : Ring) × (call true ≡ some q) × InsertedHere q
  insert_true =
      ring_insert-some w.flow.expected w.flow.buffer seq pkt len enq g.sound.ring
        (omega (arith, a.later)) a.near a.new

  pub insert-either :
      (calloc_ok : Bool)
      → (call calloc_ok ≡ none) ⊎ ((q : Ring) × (call calloc_ok ≡ some q) × InsertedHere q)
  insert-either true = inr insert_true
  insert-either false = elim (ring_insert-false w.flow.buffer seq pkt len w.flow.expected enq) [
    | inl failed ↦ inl failed
    | inr alike ↦ let (q, is, ins) = insert_true in inr (q, alike ∙ is, ins)
  ]

module _ (others now seq len : ℕ) (pkt : List ℕ) (w : Work) (q : Ring) (g : Good others w)
    (a : Ahead seq w)
    (ins : Inserted w.flow.expected w.flow.buffer seq
      (record { pkt = pkt; len = len; enqueue_us = now })
      q)
    (begun : w.flow.initialized ≡ true) (small : len ≤ 65535)
    (room : w.flow.buffer.count < w.flow.buffer.cap) (fits : pool_would_exhaust w len ≡ false) where
  committed-Timed : Timed (committed len now q w)
  unfolding arm_gap_timer ring_empty
  committed-Timed =
      let t = g.timed in
      elim (Bool-cases (w.flow.buffer.count == 0)) [
        | inl empty ↦ record {
          timer = ground (arith, empty, ins.count, t.timer);
          identity = ground (arith, empty, t.timer, t.identity);
        }
        | inr more ↦ record {
          timer = ground (arith, more, ins.count, t.timer);
          identity = ground (arith, more, t.identity);
        }
      ]

  abbrev stored_one : Work
  stored_one = record w {
    pool_bytes_used = u64 (w.pool_bytes_used + len);
    flow = record w.flow { buffer = q; last_progress_us = now };
  }

  stored_one-Sound : Sound others stored_one
  unfolding pool_would_exhaust
  stored_one-Sound =
      let v = g.sound in
      let sum : u64 (w.pool_bytes_used + len) ≡ w.pool_bytes_used + len =
        omega (arith, v.pool_le, v.room) in
      record {
        ring = ins.inv;
        pool_is = omega (arith, sum, v.pool_is, ins.bytes);
        pool_le = ground (arith, fits);
        room = v.room;
        count_le = omega (arith, ins.count, ins.cap);
      }

  committed-Sound : Sound others (committed len now q w)
  unfolding arm_gap_timer
  committed-Sound =
      let v = stored_one-Sound in
      elim (Bool-cases (ring_empty w.flow.buffer)) [
        | inl empty ↦ rw empty (record {
          ring = v.ring;
          pool_is = v.pool_is;
          pool_le = v.pool_le;
          room = v.room;
          count_le = v.count_le;
        })
        | inr more ↦ rw more v
      ]

  committed-Good : Good others (committed len now q w)
  unfolding arm_gap_timer
  committed-Good = record {
    gap = ground (arith, ins.view w.flow.expected, g.gap, a.later);
    sound = committed-Sound;
    timed = committed-Timed;
    fresh = λ no. absurd (ground (arith, begun));
  }

pub buffer_insert-Good :
    (mem : Memory) (others now seq : ℕ) (pkt : List ℕ) (w : Work)
    → Good others w
    → Ahead seq w
    → w.flow.initialized ≡ true
    → length pkt ≤ 65535
    → w.flow.buffer.count < w.flow.buffer.cap
    → pool_would_exhaust w (length pkt) ≡ false
    → Good others (buffer_insert_committed mem seq pkt now w).work
unfolding buffer_insert_committed
buffer_insert-Good mem others now seq pkt w g a begun small room fits =
    let dropped =
      noted-Good others w (λ st. record st { pool_drop_count = st.pool_drop_count + 1 }) refl refl
        g in
    elim (Bool-cases mem.malloc_ok) [
      | inr failed ↦ rw failed dropped
      | inl copied ↦ elim (insert-either seq (length pkt) now pkt others w g a mem.calloc_ok) [
        | inl failed ↦ rw (copied, failed) dropped
        | inr (q, is, ins) ↦
            rw (copied, is)
              (committed-Good others now seq (length pkt) pkt w q g a ins begun small room fits)
      ]
    ]

-- After a flush, a packet is dealt with, or it is still ahead and nothing has changed.
pub reclassify_lem :
    (others now seq : ℕ) (pkt : List ℕ) (w : Work)
    → Good others w
    → let o = reclassify_after_flush seq pkt now w in
      Good others o.work × (o.result ≡ Result.buffered → (o.work ≡ w) × Ahead seq w)
unfolding reclassify_after_flush ring_far_ahead
reclassify_lem others now seq pkt w g = elim (Bool-cases (ltb seq w.flow.expected)) [
  | inl late ↦ rw late (
    noted-Good others w (λ st. record st { too_late_drop_count = st.too_late_drop_count + 1 }) refl
        refl g,
    λ h. cc,
  )
  | inr on_time ↦ elim (Bool-cases (seq == w.flow.expected)) [
    | inl next ↦ rw (on_time, next) (deliver_in_order-Good others now pkt w g, λ h. cc)
    | inr ahead ↦ elim (Bool-cases (leb w.flow.buffer.cap (seq - w.flow.expected))) [
      | inl far ↦
          rw (on_time, ahead, far)
            (
              noted-Good others w
                  (λ st. record st { too_far_ahead_drop_count = st.too_far_ahead_drop_count + 1 })
                  refl refl g,
              λ h. cc,
            )
      | inr near ↦ elim (Bool-cases (ring_contains w.flow.buffer seq)) [
        | inl twice ↦
            rw (on_time, ahead, near, twice)
              (
                noted-Good others w
                    (λ st. record st { duplicate_drop_count = st.duplicate_drop_count + 1 }) refl
                    refl g,
                λ h. cc,
              )
        | inr new ↦
            rw (on_time, ahead, near, new)
              (
                g,
                λ h. (
                  refl,
                  record {
                    later = ground (arith, on_time, ahead);
                    near = ground (arith, near);
                    new = ground (
                      arith,
                      new,
                      ring_contains-look w.flow.buffer seq,
                      Option-cases (look w.flow.buffer seq),
                    );
                  },
                ),
              )
      ]
    ]
  ]
]
