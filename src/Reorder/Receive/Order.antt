-- ===== src/Reorder/Receive/Order.antt =====
-- A flow that is not passed through is delivered in the order of its sequence numbers.
use mqcpn.Prelude.{
  ℕ, ◌+◌, ◌-◌, ◌≡◌, ◌<◌, refl, subst, true, some, List, ltb, leb, ◌==◌, arith, Bool-cases,
  Option-cases, inl, inr, length, if-both, ◌&&◌, if-cases,
}
use mqcpn.Reorder.Ring.View.{look}
use mqcpn.Reorder.Ring.Insert.{Inserted}
use mqcpn.Reorder.Ring.Lowest.{ring_contains-look}
use mqcpn.Reorder.Ring.{Ring, Taken, ring_empty, ring_far_ahead, ring_contains}
use mqcpn.Reorder.Flow.Sound.{Sound}
use mqcpn.Reorder.Flow.Skip.{moved-Sound}
use mqcpn.Reorder.Flow.Gap.{Good, overflow_flush_lem}
use mqcpn.Reorder.Flow.Order.{Sent, Ordered, drain_contiguous-Ordered, overflow_flush-Ordered}
use mqcpn.Reorder.Flow.{
  Flow, Work, on_flow, on_stats, drain_contiguous, stop_gap_timer, arm_gap_timer, overflow_flush,
  deliver_pkt,
}
use mqcpn.Reorder.Receive.Deliver.{gap-clear}
use mqcpn.Reorder.Receive.Admit.{Ahead, insert-either}
use mqcpn.Reorder.Receive.Process.{Storable, flushed_lem, within}
use mqcpn.Reorder.Receive.{
  Memory, Result, Outcome, outcome, committed, buffer_insert_committed, reclassify_after_flush,
  filled_end, deliver_in_order, pool_would_exhaust, admit_again, admit_to_pool, buffer_admit,
  would_exceed_per_flow_limits, resolved_by_flush, process_begun,
}

module _ (content : ℕ → List ℕ) (before : List (List ℕ)) where
  -- Counters, clocks and the classifier play no part.
  abbrev Kept : Work → Type 0
  Kept w = Ordered content before w

  deliver_in_order-Ordered :
      (others now : ℕ) (w : Work)
      → Good others w
      → Kept w
      → Kept (deliver_in_order (content w.flow.expected) now w)
  unfolding deliver_in_order deliver_pkt filled_end stop_gap_timer
  deliver_in_order-Ordered others now w g o =
      let e = w.flow.expected in
      let pkt = content e in
      let moved = λ (f : Flow). record f { expected = f.expected + 1; last_progress_us = now } in
      let w0 = on_flow moved (deliver_pkt pkt now now w) in
      let w1 = drain_contiguous now w0 in
      let u = moved-Sound others (e + 1) w g.sound (omega arith) (gap-clear others w g) in
      let v : Sound others w0 = record {
        ring = u.ring;
        pool_is = u.pool_is;
        pool_le = u.pool_le;
        room = u.room;
        count_le = u.count_le;
      } in
      let o0 : Kept w0 = record {
        matches = o.matches;
        sent = Sent.next e e (e + 1) w.out o.sent (omega arith) (omega arith);
      } in
      let p = drain_contiguous-Ordered content before others now w0 v o0 in
      if-both Kept (ring_empty w1.flow.buffer && w1.flow.gap_timer_active)
        (record { matches = p.matches; sent = p.sent }) p

  committed-Ordered :
      (now seq len : ℕ) (w : Work) (q : Ring)
      → Kept w
      → Inserted w.flow.expected w.flow.buffer seq
          (record { pkt = content seq; len = len; enqueue_us = now })
          q
      → Kept (committed len now q w)
  unfolding arm_gap_timer
  committed-Ordered now seq len w q o ins =
      let held : (s : ℕ) (t : Taken) → look q s ≡ some t → t.pkt ≡ content s = λ s t there.
        elim (Bool-cases (s == seq)) [
          | inl same ↦ ground (arith, ins.view s, same, there)
          | inr differs ↦ o.matches s t (ground (arith, ins.view s, differs, there))
        ] in
      if-both Kept (ring_empty w.flow.buffer) (record { matches = held; sent = o.sent })
        (record { matches = held; sent = o.sent })

  buffer_insert-Ordered :
      (mem : Memory) (others now seq : ℕ) (w : Work)
      → Good others w
      → Ahead seq w
      → Kept w
      → Kept (buffer_insert_committed mem seq (content seq) now w).work
  unfolding buffer_insert_committed
  buffer_insert-Ordered mem others now seq w g a o =
      let len = length (content seq) in
      let dropped : Kept
          (on_stats (λ st. record st { pool_drop_count = st.pool_drop_count + 1 }) w) =
        record { matches = o.matches; sent = o.sent } in
      elim (Bool-cases mem.malloc_ok) [
        | inr failed ↦ rw failed dropped
        | inl copied ↦ elim (insert-either seq len now (content seq) others w g a mem.calloc_ok) [
          | inl failed ↦ rw (copied, failed) dropped
          | inr (q, is, ins) ↦ rw (copied, is) (committed-Ordered now seq len w q o ins)
        ]
      ]

  expected-Ordered :
      (others now seq : ℕ) (w : Work)
      → Good others w
      → Kept w
      → (seq == w.flow.expected) ≡ true
      → Kept (deliver_in_order (content seq) now w)
  expected-Ordered others now seq w g o same =
      let is : w.flow.expected ≡ seq = ground (arith, same) in
      subst (λ n. Kept (deliver_in_order (content n) now w)) is
        (deliver_in_order-Ordered others now w g o)

  reclassify-Ordered :
      (others now seq : ℕ) (w : Work)
      → Good others w
      → Kept w
      → Kept (reclassify_after_flush seq (content seq) now w).work
  unfolding reclassify_after_flush
  reclassify-Ordered others now seq w g o =
      let P = λ (r : Outcome). Kept r.work in
      if-both P (ltb seq w.flow.expected) (record { matches = o.matches; sent = o.sent })
        (if-cases P (seq == w.flow.expected) (expected-Ordered others now seq w g o) (λ _.
          if-both P (ring_far_ahead w.flow.buffer seq w.flow.expected)
            (record { matches = o.matches; sent = o.sent })
            (if-both P (ring_contains w.flow.buffer seq)
              (record { matches = o.matches; sent = o.sent }) o)))

  resolved-Ordered :
      (r : Result) (w : Work) (next : Work → Outcome)
      → Kept w
      → (r ≡ Result.buffered → Kept (next w).work)
      → Kept (resolved_by_flush (outcome r w) next).work
  resolved-Ordered Result.delivered w next o h = o
  resolved-Ordered Result.buffered w next o h = h refl
  resolved-Ordered Result.dropped_late w next o h = o
  resolved-Ordered Result.dropped_far_ahead w next o h = o
  resolved-Ordered Result.dropped_limit w next o h = o

  -- The packet after a flush.
  abbrev flushed : ℕ → ℕ → Work → Outcome
  flushed seq now w = reclassify_after_flush seq (content seq) now (overflow_flush now w)

  flushed-Ordered :
      (others now seq : ℕ) (w : Work) → Good others w → Kept w → Kept (flushed seq now w).work
  flushed-Ordered others now seq w g o =
      reclassify-Ordered others now seq (overflow_flush now w) (overflow_flush_lem others now w g).0
        (overflow_flush-Ordered content before others now w g.sound o)

  admit_to_pool-Ordered :
      (mem : Memory) (others now seq : ℕ) (w : Work)
      → Good others w
      → Storable seq w
      → Kept w
      → Kept (admit_to_pool mem seq (content seq) now w).work
  unfolding admit_to_pool
  admit_to_pool-Ordered mem others now seq w g s o =
      let P = λ (r : Outcome). Kept r.work in
      let len = length (content seq) in
      let f = flushed seq now w in
      if-both P (pool_would_exhaust w len)
        (if-cases P (ring_empty w.flow.buffer) (λ _. record { matches = o.matches; sent = o.sent })
          (λ more.
            let (g1, still) = flushed_lem others now seq (content seq) w g s.begun more in
            let o1 = flushed-Ordered others now seq w g o in
            resolved-Ordered f.result f.work (admit_again mem seq (content seq) now) o1 (λ is.
              let t = still is in
              if-both P (pool_would_exhaust f.work len)
                (record { matches = o1.matches; sent = o1.sent })
                (buffer_insert-Ordered mem others now seq f.work g1 t.ahead o1))))
        (buffer_insert-Ordered mem others now seq w g s.ahead o)

  buffer_admit-Ordered :
      (mem : Memory) (others now seq : ℕ) (w : Work)
      → Good others w
      → w.flow.initialized ≡ true
      → w.flow.expected < seq
      → seq - w.flow.expected < w.flow.buffer.cap
      → Kept w
      → Kept (buffer_admit mem seq (content seq) now w).work
  unfolding buffer_admit
  buffer_admit-Ordered mem others now seq w g begun later near o =
      let P = λ (r : Outcome). Kept r.work in
      let f = flushed seq now w in
      if-cases P (ring_contains w.flow.buffer seq)
        (λ _. record { matches = o.matches; sent = o.sent })
        (λ new.
          if-cases P (would_exceed_per_flow_limits w (length (content seq)))
            (λ _.
              if-cases P (ring_empty w.flow.buffer)
                (λ _. record { matches = o.matches; sent = o.sent })
                (λ more.
                  let (g1, still) = flushed_lem others now seq (content seq) w g begun more in
                  let o1 = flushed-Ordered others now seq w g o in
                  resolved-Ordered f.result f.work (admit_to_pool mem seq (content seq) now) o1
                    (λ is. admit_to_pool-Ordered mem others now seq f.work g1 (still is) o1)))
            (λ fits.
              let a : Ahead seq w = record {
                later = later;
                near = near;
                new = ground (
                  arith,
                  new,
                  ring_contains-look w.flow.buffer seq,
                  Option-cases (look w.flow.buffer seq),
                );
              } in
              let s : Storable seq w = record {
                ahead = a;
                begun = begun;
                room = within w (length (content seq)) fits;
              } in
              admit_to_pool-Ordered mem others now seq w g s o))

  pub process_begun-Ordered :
      (mem : Memory) (others now seq : ℕ) (w : Work)
      → Good others w
      → w.flow.initialized ≡ true
      → Kept w
      → Kept (process_begun mem seq (content seq) now w).work
  unfolding process_begun ring_far_ahead
  process_begun-Ordered mem others now seq w g begun o =
      let P = λ (r : Outcome). Kept r.work in
      let e = w.flow.expected in
      if-cases P (seq == e) (expected-Ordered others now seq w g o) (λ other.
        if-cases P (ltb seq e) (λ _. record { matches = o.matches; sent = o.sent })
          (λ on_time.
            if-cases P (leb w.flow.buffer.cap (seq - e))
              (λ _. record { matches = o.matches; sent = o.sent })
              (λ near.
                buffer_admit-Ordered mem others now seq w g begun (ground (arith, other, on_time))
                  (ground (arith, near)) o)))
