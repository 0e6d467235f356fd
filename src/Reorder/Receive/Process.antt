-- ===== src/Reorder/Receive/Process.antt =====
-- `buffer_admit` and `process_reorder_packet` keep a flow good.
use mathlib.Core.Bool.{true≢false}
use mqcpn.Reorder.Ring.Advance.{empty-look, emptied-Inv}
use mqcpn.Prelude.{
  ℕ, ◌+◌, ◌-◌, ◌≡◌, ◌≤◌, ◌<◌, refl, subst, sym, ◌∙◌, Bool, true, false, not, List, ltb, leb, ◌==◌,
  if◌then◌else◌, arith, Bool-cases, Option-cases, inl, inr, length,
}
use mqcpn.Reorder.Ring.View.{look}
use mqcpn.Reorder.Ring.Lowest.{ring_contains-look}
use mqcpn.Reorder.Ring.{ring_empty, ring_far_ahead, ring_contains}
use mqcpn.Reorder.Flow.Gap.{Good, overflow_flush_lem, count-pos}
use mqcpn.Reorder.Flow.{Work, on_flow, overflow_flush, deliver_pkt, record_residence}
use mqcpn.Reorder.Receive.Deliver.{noted-Good, deliver_in_order-Good}
use mqcpn.Reorder.Receive.Admit.{Ahead, buffer_insert-Good, reclassify_lem}
use mqcpn.Reorder.Receive.{
  Memory, Result, Outcome, outcome, reclassify_after_flush, pool_would_exhaust, admit_again,
  admit_to_pool, buffer_admit, would_exceed_per_flow_limits, resolved_by_flush, start_at,
  process_begun, process_reorder_packet,
}

pub resolved-Good :
    (others : ℕ) (r : Result) (w : Work) (next : Work → Outcome)
    → Good others w
    → (r ≡ Result.buffered → Good others (next w).work)
    → Good others (resolved_by_flush (outcome r w) next).work
resolved-Good others Result.delivered w next g h = g
resolved-Good others Result.buffered w next g h = h refl
resolved-Good others Result.dropped_late w next g h = g
resolved-Good others Result.dropped_far_ahead w next g h = g
resolved-Good others Result.dropped_limit w next g h = g

-- A packet that may be stored: it is ahead, and the flow has a place for it.
pub record Storable (seq : ℕ) (w : Work) : Type 0 where
  pub ahead : Ahead seq w
  pub begun : w.flow.initialized ≡ true
  pub room : w.flow.buffer.count < w.flow.buffer.cap

pub flushed_lem :
    (others now seq : ℕ) (pkt : List ℕ) (w : Work)
    → Good others w
    → w.flow.initialized ≡ true
    → ring_empty w.flow.buffer ≡ false
    → let o = reclassify_after_flush seq pkt now (overflow_flush now w) in
      Good others o.work × (o.result ≡ Result.buffered → Storable seq o.work)
flushed_lem others now seq pkt w g begun more =
    let (g1, less, cap, alike) = overflow_flush_lem others now w g in
    let (g2, still) = reclassify_lem others now seq pkt (overflow_flush now w) g1 in
    let fewer = less (count-pos w.flow.buffer more) in
    let v = g.sound in
    (
      g2,
      λ is.
          let (same, a) = still is in
          subst (Storable seq) (sym same) (record {
            ahead = a;
            begun = alike ∙ begun;
            room = omega (arith, fewer, cap, v.count_le);
          }),
    )

admit_to_pool-Good :
    (mem : Memory) (others now seq : ℕ) (pkt : List ℕ) (w : Work)
    → Good others w
    → Storable seq w
    → length pkt ≤ 65535
    → Good others (admit_to_pool mem seq pkt now w).work
unfolding admit_to_pool
admit_to_pool-Good mem others now seq pkt w g s small =
    let dropped = λ (u : Work) (h : Good others u).
      noted-Good others u (λ st. record st { pool_drop_count = st.pool_drop_count + 1 }) refl refl
        h in
    let o = reclassify_after_flush seq pkt now (overflow_flush now w) in
    elim (Bool-cases (pool_would_exhaust w (length pkt))) [
      | inr fits ↦
          rw fits (buffer_insert-Good mem others now seq pkt w g s.ahead s.begun small s.room fits)
      | inl full ↦ elim (Bool-cases (ring_empty w.flow.buffer)) [
        | inl empty ↦ rw (full, empty) (dropped w g)
        | inr more ↦
            let (g1, still) = flushed_lem others now seq pkt w g s.begun more in
            rw (full, more)
              (resolved-Good others o.result o.work (admit_again mem seq pkt now) g1 (λ is.
                let t = still is in
                elim (Bool-cases (pool_would_exhaust o.work (length pkt))) [
                  | inl again ↦ rw again (dropped o.work g1)
                  | inr fits ↦ rw fits (
                      buffer_insert-Good mem others now seq pkt o.work g1 t.ahead t.begun small
                        t.room fits)
                ]))
      ]
    ]

pub within :
    (w : Work) (len : ℕ)
    → would_exceed_per_flow_limits w len ≡ false
    → w.flow.buffer.count < w.flow.buffer.cap
unfolding would_exceed_per_flow_limits
within w len h = ground arith

buffer_admit-Good :
    (mem : Memory) (others now seq : ℕ) (pkt : List ℕ) (w : Work)
    → Good others w
    → w.flow.initialized ≡ true
    → length pkt ≤ 65535
    → w.flow.expected < seq
    → seq - w.flow.expected < w.flow.buffer.cap
    → Good others (buffer_admit mem seq pkt now w).work
unfolding buffer_admit
buffer_admit-Good mem others now seq pkt w g begun small later near =
    elim (Bool-cases (ring_contains w.flow.buffer seq)) [
      | inl twice ↦ rw twice (
          noted-Good others w
            (λ st. record st { duplicate_drop_count = st.duplicate_drop_count + 1 }) refl refl g)
      | inr new ↦
          let a : Ahead seq w = record {
            later = later;
            near = near;
            new = ground (
              arith,
              new,
              ring_contains-look w.flow.buffer seq,
              Option-cases (look w.flow.buffer seq),
            );
          } in
          elim (Bool-cases (would_exceed_per_flow_limits w (length pkt))) [
            | inr fits ↦
                rw (new, fits)
                  (admit_to_pool-Good mem others now seq pkt w g
                    (record { ahead = a; begun = begun; room = within w (length pkt) fits }) small)
            | inl over ↦ elim (Bool-cases (ring_empty w.flow.buffer)) [
              | inl empty ↦
                  rw (new, over, empty)
                    (noted-Good others w
                      (λ st. record st {
                        per_flow_limit_drop_count = st.per_flow_limit_drop_count + 1;
                      })
                      refl refl g)
              | inr more ↦
                  let o = reclassify_after_flush seq pkt now (overflow_flush now w) in
                  let (g1, still) = flushed_lem others now seq pkt w g begun more in
                  rw (new, over, more)
                    (resolved-Good others o.result o.work (admit_to_pool mem seq pkt now) g1
                      (λ is. admit_to_pool-Good mem others now seq pkt o.work g1 (still is) small))
            ]
          ]
    ]

pub start_at-Good :
    (others now seq : ℕ) (pkt : List ℕ) (w : Work)
    → ((m : ℕ) → Good others (on_flow (λ f. record f { expected = m }) w))
    → Good others (start_at seq pkt now w)
unfolding start_at deliver_pkt record_residence
start_at-Good others now seq pkt w g =
    let h = g (seq + 1) in
    let v = h.sound in
    let t = h.timed in
    record {
      gap = h.gap;
      sound = record {
        ring = v.ring;
        pool_is = v.pool_is;
        pool_le = v.pool_le;
        room = v.room;
        count_le = v.count_le;
      };
      timed = record { timer = t.timer; identity = t.identity };
      fresh = λ no. absurd (true≢false no);
    }

-- A flow that has not begun is good wherever it begins.
pub begins-Good :
    (others m : ℕ) (w : Work)
    → Good others w
    → w.flow.buffer.count ≡ 0
    → Good others (on_flow (λ f. record f { expected = m }) w)
begins-Good others m w g empty =
    let v = g.sound in
    let t = g.timed in
    record {
      gap = empty-look w.flow.expected m w.flow.buffer v.ring empty;
      sound = record {
        ring = emptied-Inv w.flow.expected m w.flow.buffer v.ring empty;
        pool_is = v.pool_is;
        pool_le = v.pool_le;
        room = v.room;
        count_le = v.count_le;
      };
      timed = record { timer = t.timer; identity = t.identity };
      fresh = g.fresh;
    }

process_begun-Good :
    (mem : Memory) (others now seq : ℕ) (pkt : List ℕ) (w : Work)
    → Good others w
    → w.flow.initialized ≡ true
    → length pkt ≤ 65535
    → Good others (process_begun mem seq pkt now w).work
unfolding process_begun ring_far_ahead
process_begun-Good mem others now seq pkt w g begun small =
    elim (Bool-cases (seq == w.flow.expected)) [
      | inl next ↦ rw next (deliver_in_order-Good others now pkt w g)
      | inr other ↦ elim (Bool-cases (ltb seq w.flow.expected)) [
        | inl late ↦
            rw (other, late)
              (noted-Good others w
                (λ st. record st { too_late_drop_count = st.too_late_drop_count + 1 }) refl refl g)
        | inr on_time ↦ elim (Bool-cases (leb w.flow.buffer.cap (seq - w.flow.expected))) [
          | inl far ↦
              rw (other, on_time, far)
                (noted-Good others w
                  (λ st. record st { too_far_ahead_drop_count = st.too_far_ahead_drop_count + 1 })
                  refl refl g)
          | inr near ↦
              rw (other, on_time, near)
                (buffer_admit-Good mem others now seq pkt w g begun small
                  (ground (arith, other, on_time)) (ground (arith, near)))
        ]
      ]
    ]

pub process-Good :
    (mem : Memory) (others now seq : ℕ) (pkt : List ℕ) (w : Work)
    → Good others w
    → length pkt ≤ 65535
    → Good others (process_reorder_packet mem seq pkt now w).work
unfolding process_reorder_packet
process-Good mem others now seq pkt w g small =
    let start = outcome Result.delivered (start_at seq pkt now w) in
    let go = process_begun mem seq pkt now w in
    let ends = λ (b : Bool). Good others (if not b then start else go).work in
    elim (Bool-cases w.flow.initialized) [
      | inr new ↦
          subst ends (sym new)
            (start_at-Good others now seq pkt w (λ m. begins-Good others m w g (g.fresh new)))
      | inl begun ↦
          subst ends (sym begun) (process_begun-Good mem others now seq pkt w g begun small)
    ]
