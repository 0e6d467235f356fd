-- ===== src/Reorder/Receive/Kept.antt =====
-- The work on a flow leaves two things alone: the configuration, and the flow's key.
use Prim.Native.Nat.{bit_and}
use mqcpn.Prelude.{
  if◌then◌else◌, not, ◌&&◌, ◌==◌, ltb, ◌+◌, if-both, Option-cases, inl, inr, length, ℕ, zero, suc,
  ◌≡◌, List, arith,
}
use mqcpn.Reorder.Packet.{FlowKey}
use mqcpn.Reorder.Config.{Config}
use mqcpn.Reorder.Ring.{
  ring_remove, ring_insert, ring_contains, ring_far_ahead, ring_empty, ring_lowest_seq,
}
use mqcpn.Reorder.Flow.{
  Flow, on_flow, on_stats, jump, Work, drain_rounds, drain_one, drain_contiguous,
  skip_to_lowest_and_drain, timeout_end, on_gap_timeout, overflow_end, overflow_flush,
  discard_buffer_for_reset, reset_reorder_flow, flush_rounds, flush_buffer_for_demote, deliver_pkt,
  stop_gap_timer, arm_gap_timer,
}
use mqcpn.Reorder.Receive.{
  Memory, Result, Outcome, resolved_by_flush, admit_again, pool_would_exhaust,
  would_exceed_per_flow_limits, honors_reset, classify_update, buffer_insert_committed, filled_end,
  deliver_in_order, reclassify_after_flush, admit_to_pool, buffer_admit, start_at, process_begun,
  process_reorder_packet, demote_if_judged, on_reordered,
}

abbrev pub Kept : Config → FlowKey → Work → Type 0
Kept cfg key w = (w.cfg ≡ cfg) × (w.flow.key ≡ key)

module _ (cfg : Config) (key : FlowKey) where
  abbrev KeptBy : Outcome → Type 0
  KeptBy o = Kept cfg key o.work

  drain_rounds-Kept : (n now : ℕ) (w : Work) → Kept cfg key w → Kept cfg key (drain_rounds n now w)
  unfolding drain_rounds deliver_pkt
  drain_rounds-Kept zero now w k = k
  drain_rounds-Kept (suc n) now w k =
      elim (Option-cases (ring_remove w.flow.buffer w.flow.expected)) [
        | inl nothing ↦ ground (arith, nothing)
        | inr ((t, q), found) ↦
            ground (arith, found, drain_rounds-Kept n now (drain_one now t q w) k)
      ]

  drain_contiguous-Kept :
      (now : ℕ) (w : Work) → Kept cfg key w → Kept cfg key (drain_contiguous now w)
  unfolding drain_contiguous
  drain_contiguous-Kept now w k = drain_rounds-Kept w.flow.buffer.count now w k

  skip-Kept : (now : ℕ) (w : Work) → Kept cfg key w → Kept cfg key (skip_to_lowest_and_drain now w)
  unfolding skip_to_lowest_and_drain
  skip-Kept now w k =
      let lowest = ring_lowest_seq w.flow.buffer w.flow.expected in
      drain_contiguous-Kept now (on_flow (jump lowest) w) k

  timeout_end-Kept : (now : ℕ) (w : Work) → Kept cfg key w → Kept cfg key (timeout_end now w)
  unfolding timeout_end stop_gap_timer arm_gap_timer
  timeout_end-Kept now w k = if-both (Kept cfg key) (ring_empty w.flow.buffer) k k

  pub on_gap_timeout-Kept :
      (now : ℕ) (w : Work) → Kept cfg key w → Kept cfg key (on_gap_timeout now w)
  unfolding on_gap_timeout stop_gap_timer
  on_gap_timeout-Kept now w k =
      let counted = on_stats (λ st. record st { gap_timeout_count = st.gap_timeout_count + 1 }) w in
      if-both (Kept cfg key) (ring_empty w.flow.buffer) k
        (timeout_end-Kept now (skip_to_lowest_and_drain now counted) (skip-Kept now counted k))

  overflow_flush-Kept : (now : ℕ) (w : Work) → Kept cfg key w → Kept cfg key (overflow_flush now w)
  unfolding overflow_flush overflow_end stop_gap_timer
  overflow_flush-Kept now w k =
      let w1 = skip_to_lowest_and_drain now w in
      let k1 = skip-Kept now w k in
      if-both (Kept cfg key) (ring_empty w1.flow.buffer) (ground (arith, k1)) k1

  reset-Kept : (w : Work) → Kept cfg key w → Kept cfg key (reset_reorder_flow w)
  unfolding reset_reorder_flow discard_buffer_for_reset stop_gap_timer
  reset-Kept w k = k

  flush_rounds-Kept : (n now : ℕ) (w : Work) → Kept cfg key w → Kept cfg key (flush_rounds n now w)
  unfolding flush_rounds
  flush_rounds-Kept zero now w k = k
  flush_rounds-Kept (suc n) now w k =
      let lowest = ring_lowest_seq w.flow.buffer w.flow.expected in
      let at_lowest = on_flow (λ f. record f { expected = lowest }) w in
      let drained = drain_contiguous-Kept now at_lowest k in
      ground (arith, flush_rounds-Kept n now (drain_contiguous now at_lowest) drained)

  flush_for_demote-Kept :
      (now : ℕ) (w : Work) → Kept cfg key w → Kept cfg key (flush_buffer_for_demote now w)
  unfolding flush_buffer_for_demote stop_gap_timer
  flush_for_demote-Kept now w k =
      let charge = if w.flow.gap_timer_active then 1 else 0 in
      flush_rounds-Kept w.flow.buffer.count now
        (on_stats (λ st. record st { gap_demote_count = st.gap_demote_count + charge }) w) k

  deliver_in_order-Kept :
      (pkt : List ℕ) (now : ℕ) (w : Work)
      → Kept cfg key w
      → Kept cfg key (deliver_in_order pkt now w)
  unfolding deliver_in_order filled_end deliver_pkt stop_gap_timer
  deliver_in_order-Kept pkt now w k =
      let moved = λ (f : Flow). record f { expected = f.expected + 1; last_progress_us = now } in
      let w1 = drain_contiguous now (on_flow moved (deliver_pkt pkt now now w)) in
      let k1 : Kept cfg key w1 =
        drain_contiguous-Kept now (on_flow moved (deliver_pkt pkt now now w)) k in
      if-both (Kept cfg key) (ring_empty w1.flow.buffer && w1.flow.gap_timer_active) k1 k1

  module _ (seq : ℕ) (pkt : List ℕ) (now : ℕ) where
    reclassify-Kept : (w : Work) → Kept cfg key w → KeptBy (reclassify_after_flush seq pkt now w)
    unfolding reclassify_after_flush
    reclassify-Kept w k = ground (arith, deliver_in_order-Kept pkt now w k)

    flushed-Kept :
        (w : Work)
        → Kept cfg key w
        → KeptBy (reclassify_after_flush seq pkt now (overflow_flush now w))
    flushed-Kept w k = reclassify-Kept (overflow_flush now w) (overflow_flush-Kept now w k)

    -- A step after a flush that the packet survived.
    resolved-Kept :
        (o : Outcome) (next : Work → Outcome)
        → KeptBy o
        → ((w : Work) → Kept cfg key w → KeptBy (next w))
        → KeptBy (resolved_by_flush o next)
    resolved-Kept o next k step = go o.result
      where
        go : (r : Result) → KeptBy (elim r [ Result.buffered ↦ next o.work | _ ↦ o ])
        go Result.buffered = step o.work k
        go Result.delivered = k
        go Result.dropped_late = k
        go Result.dropped_far_ahead = k
        go Result.dropped_limit = k

    start_at-Kept : (w : Work) → Kept cfg key w → Kept cfg key (start_at seq pkt now w)
    unfolding start_at deliver_pkt
    start_at-Kept w k = k

    module _ (mem : Memory) where
      insert-Kept : (w : Work) → Kept cfg key w → KeptBy (buffer_insert_committed mem seq pkt now w)
      unfolding buffer_insert_committed arm_gap_timer
      insert-Kept w k =
          let stored =
            ring_insert mem.calloc_ok w.flow.buffer seq pkt (length pkt) w.flow.expected now in
          elim (Option-cases stored) [
            | inl full ↦ ground (arith, full)
            | inr (q, is) ↦ ground (arith, is)
          ]

      admit_again-Kept : (w : Work) → Kept cfg key w → KeptBy (admit_again mem seq pkt now w)
      admit_again-Kept w k = if-both KeptBy (pool_would_exhaust w (length pkt)) k (insert-Kept w k)

      admit_to_pool-Kept : (w : Work) → Kept cfg key w → KeptBy (admit_to_pool mem seq pkt now w)
      unfolding admit_to_pool
      admit_to_pool-Kept w k =
          let flushed = reclassify_after_flush seq pkt now (overflow_flush now w) in
          if-both KeptBy (pool_would_exhaust w (length pkt))
            (if-both KeptBy (ring_empty w.flow.buffer) k (
              resolved-Kept flushed (admit_again mem seq pkt now) (flushed-Kept w k)
                admit_again-Kept))
            (insert-Kept w k)

      buffer_admit-Kept : (w : Work) → Kept cfg key w → KeptBy (buffer_admit mem seq pkt now w)
      unfolding buffer_admit
      buffer_admit-Kept w k =
          let flushed = reclassify_after_flush seq pkt now (overflow_flush now w) in
          if-both KeptBy (ring_contains w.flow.buffer seq) k (
            if-both KeptBy (would_exceed_per_flow_limits w (length pkt))
              (if-both KeptBy (ring_empty w.flow.buffer) k (
                resolved-Kept flushed (admit_to_pool mem seq pkt now) (flushed-Kept w k)
                  admit_to_pool-Kept))
              (admit_to_pool-Kept w k))

      process-Kept : (w : Work) → Kept cfg key w → KeptBy (process_reorder_packet mem seq pkt now w)
      unfolding process_reorder_packet process_begun
      process-Kept w k = if-both KeptBy (not w.flow.initialized) (start_at-Kept w k) (
          if-both KeptBy (seq == w.flow.expected) (deliver_in_order-Kept pkt now w k) (
            if-both KeptBy (ltb seq w.flow.expected) k (
              if-both KeptBy (ring_far_ahead w.flow.buffer seq w.flow.expected) k
                (buffer_admit-Kept w k))))

  demote-Kept :
      (pkt : List ℕ) (now : ℕ) (o : Outcome) → KeptBy o → Kept cfg key (demote_if_judged pkt now o)
  unfolding demote_if_judged classify_update
  demote-Kept pkt now o k =
      let judged = classify_update pkt o.work in
      let j : Kept cfg key judged.1 = ground arith in
      ground (arith, flush_for_demote-Kept now judged.1 j)

  -- A packet changes neither the configuration nor the key of the flow that it is given to.
  pub on_reordered-Kept :
      (mem : Memory) (seq flags : ℕ) (pkt : List ℕ) (now : ℕ) (w : Work)
      → Kept cfg key w
      → Kept cfg key (on_reordered mem seq flags pkt now w)
  unfolding on_reordered deliver_pkt
  on_reordered-Kept mem seq flags pkt now w k =
      let seen = on_flow (λ f. record f { last_seen_us = now }) w in
      let o = process_reorder_packet mem seq pkt now seen in
      if-both (Kept cfg key) (not (bit_and flags 1 == 0) && honors_reset seen now)
        (start_at-Kept seq pkt now (reset_reorder_flow seen) (reset-Kept seen k))
        (if-both (Kept cfg key) seen.flow.pass_through k
          (demote-Kept pkt now o (process-Kept seq pkt now mem seen k)))
