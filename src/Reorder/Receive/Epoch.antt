-- ===== src/Reorder/Receive/Epoch.antt =====
-- A flow's deliveries in order, over a whole packet: `on_reordered`, and what begins a numbering.
use Prim.Native.Nat.{bit_and}
use mathlib.Core.Bool.{false≢true}
use mqcpn.Prelude.{
  ℕ, ◌+◌, ◌≡◌, ◌≤◌, refl, subst, sym, ◌∙◌, Bool, true, false, not, none, List, leb, ◌==◌,
  if◌then◌else◌, arith, length, if-both, ◌&&◌, if-cases,
}
use mqcpn.Reorder.Ring.View.{look}
use mqcpn.Reorder.Ring.{ring_free}
use mqcpn.Reorder.Flow.Gap.{Good}
use mqcpn.Reorder.Flow.Order.{Sent, Ordered, flush_for_demote-Ordered}
use mqcpn.Reorder.Flow.{Work, on_flow, on_stats, deliver_pkt, flush_buffer_for_demote}
use mqcpn.Reorder.Receive.Process.{process-Good}
use mqcpn.Reorder.Receive.Dispatch.{classify-Good, marked-Good}
use mqcpn.Reorder.Receive.{
  Memory, Result, outcome, start_at, process_begun, process_reorder_packet, classify_update,
  demote_if_judged, honors_reset, on_reordered,
}
use mqcpn.Reorder.Receive.Order.{process_begun-Ordered}
use mqcpn.Reorder.Receive.Process.{process-Good}
use mqcpn.Reorder.Flow.{reset_reorder_flow, discard_buffer_for_reset}

module _ (content : ℕ → List ℕ) (before : List (List ℕ)) where
  -- Counters, clocks and the classifier play no part.
  abbrev Kept : Work → Type 0
  Kept w = Ordered content before w

  classify-Ordered : (pkt : List ℕ) (w : Work) → Kept w → Kept (classify_update pkt w).1
  unfolding classify_update
  classify-Ordered pkt w o =
      let P = λ (r : Bool × Work). Kept r.1 in
      if-both P w.cfg.eval_force_no_demotion o (
        if-both P (leb w.cfg.classify_window w.flow.classify_seen) o
          (record { matches = o.matches; sent = o.sent }))

  demote-Ordered :
      (others now : ℕ) (pkt : List ℕ) (r : Result) (w : Work)
      → Good others w
      → Kept w
      → Kept (demote_if_judged pkt now (outcome r w))
  unfolding demote_if_judged
  demote-Ordered others now pkt r w g o =
      let judged = classify_update pkt w in
      let o1 = classify-Ordered pkt w o in
      let g1 = classify-Good others pkt w g in
      let o2 = flush_for_demote-Ordered content before others now judged.1 g1.sound o1 in
      let flush = flush_buffer_for_demote now judged.1 in
      let demoted =
        on_stats (λ st. record st { ack_demote_count = st.ack_demote_count + 1 })
          (on_flow (λ f. record f { pass_through = true }) flush) in
      let o3 : Kept demoted = record { matches = o2.matches; sent = o2.sent } in
      let counted : Kept (if judged.0 then demoted else judged.1) = if-both Kept judged.0 o3 o1 in
      elim r as (λ k. Kept (demote_if_judged pkt now (outcome k w))) [
        | Result.delivered ↦ counted
        | Result.buffered ↦ counted
        | Result.dropped_late ↦ counted
        | Result.dropped_far_ahead ↦ o
        | Result.dropped_limit ↦ o
      ]

-- The clock's note of the packet.
abbrev seen_at : ℕ → Work → Work
seen_at now w = on_flow (λ f. record f { last_seen_us = now }) w

seen_at-Good : (others now : ℕ) (w : Work) → Good others w → Good others (seen_at now w)
seen_at-Good others now w g =
    let f = w.flow in
    marked-Good others w f.classify_seen f.classify_large now f.last_progress_us f.pass_through g

-- In a good state of a flow that has begun and is not passed through, a packet that no reset goes
-- with keeps the order: if what was delivered in the present numbering has increasing sequence
-- numbers and the buffered packets carry their own numbers, the same holds after the packet,
-- whichever of the handler's ways it takes, a demotion included.
pub on_reordered-Ordered :
    (mem : Memory) (content : ℕ → List ℕ) (before : List (List ℕ)) (others seq flags now : ℕ)
    (w : Work)
    → Good others w
    → Ordered content before w
    → w.flow.initialized ≡ true
    → w.flow.pass_through ≡ false
    → (not (bit_and flags 1 == 0) && honors_reset w now) ≡ false
    → length (content seq) ≤ 65535
    → Ordered content before (on_reordered mem seq flags (content seq) now w)
unfolding on_reordered honors_reset process_reorder_packet
on_reordered-Ordered mem content before others seq flags now w g o begun in_order ignored small =
    let pkt = content seq in
    let P = Ordered content before in
    let seen = seen_at now w in
    let g1 = seen_at-Good others now w g in
    let o1 : P seen = record { matches = o.matches; sent = o.sent } in
    let r = process_reorder_packet mem seq pkt now seen in
    let g2 = process-Good mem others now seq pkt seen g1 small in
    let go = process_begun mem seq pkt now seen in
    let start = outcome Result.delivered (start_at seq pkt now seen) in
    let o2 : P r.work =
      subst (λ (b : Bool). P (if not b then start else go).work) (sym begun)
        (process_begun-Ordered content before mem others now seq seen g1 begun o1) in
    if-cases P (not (bit_and flags 1 == 0) && honors_reset seen now)
      (λ honored. absurd (false≢true (sym ignored ∙ honored)))
      (λ _.
        if-cases P seen.flow.pass_through (λ passing. absurd (false≢true (sym in_order ∙ passing)))
          (λ _. demote-Ordered content before others now pkt r.result r.work g2 o2))

-- The delivery that restarts a numbering.
start_at-Ordered :
    (content : ℕ → List ℕ) (now seq : ℕ) (w : Work)
    → ((s : ℕ) → look w.flow.buffer s ≡ none)
    → Ordered content w.out (start_at seq (content seq) now w)
unfolding start_at deliver_pkt
start_at-Ordered content now seq w clear = record {
  matches = λ s t there. let c = clear s in cc;
  sent = Sent.next seq seq (seq + 1) w.out (Sent.start seq) (omega arith) (omega arith);
}

pub on_reordered-resets :
    (mem : Memory) (content : ℕ → List ℕ) (seq flags now : ℕ) (w : Work)
    → (not (bit_and flags 1 == 0) && honors_reset w now) ≡ true
    → Ordered content w.out (on_reordered mem seq flags (content seq) now w)
unfolding on_reordered honors_reset reset_reorder_flow discard_buffer_for_reset ring_free look
on_reordered-resets mem content seq flags now w honored =
    let seen = seen_at now w in
    if-cases (Ordered content w.out) (not (bit_and flags 1 == 0) && honors_reset seen now)
      (λ _. start_at-Ordered content now seq (reset_reorder_flow seen) (λ s. refl))
      (λ ignored. absurd (false≢true (sym ignored ∙ honored)))
