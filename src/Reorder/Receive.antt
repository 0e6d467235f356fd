-- ===== src/Reorder/Receive.antt =====
-- The receiver's decisions on one packet, reorder_rx.c: the classifier, the limits, the admission to
-- the buffer and the dispatch. A packet's length is that of its bytes, and `Memory` says which
-- allocations succeed: one packet asks for one copy and at most one new array.
pub mod Deliver
pub mod Admit
pub mod Process
pub mod Dispatch
pub mod Order
pub mod Epoch
pub mod Kept
use Prim.Native.Nat.{bit_and}
use mqcpn.Prelude.{
  ℕ, zero, suc, ◌+◌, ◌-◌, ◌*◌, Bool, true, false, not, ◌&&◌, ◌||◌, Option, none, some, List, ltb,
  leb, ◌==◌, if◌then◌else◌, length,
}
use mqcpn.Prelude.Words.{u16, u64}
use mqcpn.Reorder.Packet.{inner_udp_payload_len}
use mqcpn.Reorder.Ring.{Ring, ring_empty, ring_far_ahead, ring_contains, ring_insert}
use mqcpn.Reorder.Flow.{
  Stats, Flow, Work, on_flow, on_stats, arm_gap_timer, stop_gap_timer, deliver_pkt,
  drain_contiguous, overflow_flush, reset_reorder_flow, flush_buffer_for_demote,
}

pub record Memory : Type 0 where
  pub malloc_ok : Bool
  pub calloc_ok : Bool

-- `reorder_process_result`
pub data Result : Type 0 where
  delivered buffered dropped_late dropped_far_ahead dropped_limit : Result

-- A handler's verdict and the state that it leaves.
pub record Outcome : Type 0 where
  pub result : Result
  pub work : Work

abbrev pub outcome : Result → Work → Outcome
outcome r w = record { result = r; work = w }

-- The counters of refused packets.
abbrev count_late : Work → Work
count_late = on_stats (λ st. record st { too_late_drop_count = st.too_late_drop_count + 1 })

abbrev count_far_ahead : Work → Work
count_far_ahead =
    on_stats (λ st. record st { too_far_ahead_drop_count = st.too_far_ahead_drop_count + 1 })

abbrev count_duplicate : Work → Work
count_duplicate = on_stats (λ st. record st { duplicate_drop_count = st.duplicate_drop_count + 1 })

abbrev count_flow_limit : Work → Work
count_flow_limit =
    on_stats (λ st. record st { per_flow_limit_drop_count = st.per_flow_limit_drop_count + 1 })

abbrev count_pool : Work → Work
count_pool = on_stats (λ st. record st { pool_drop_count = st.pool_drop_count + 1 })

-- The counters of `classify_update` after a packet.
abbrev classified : Work → List ℕ → Flow → Flow
classified w pkt f =
    let large = leb w.cfg.small_packet_threshold_bytes (inner_udp_payload_len pkt (length pkt)) in
    record f {
      classify_seen = u16 (f.classify_seen + 1);
      classify_large = if large then u16 (f.classify_large + 1) else f.classify_large;
    }

-- `classify_update`: whether the flow is demoted.
unfoldable pub classify_update : List ℕ → Work → Bool × Work
classify_update pkt w =
    let w1 = on_flow (classified w pkt) w in
    let closes = w1.flow.classify_seen == w.cfg.classify_window in
    if w.cfg.eval_force_no_demotion
    then (false, w)
    else if leb w.cfg.classify_window w.flow.classify_seen
    then (false, w)
    else (closes && leb w1.flow.classify_large w.cfg.ack_demote_max_large_packets, w1)

unfoldable pub would_exceed_per_flow_limits : Work → ℕ → Bool
would_exceed_per_flow_limits w len =
    leb w.flow.buffer.cap w.flow.buffer.count
    || ltb w.cfg.max_buffer_bytes_per_flow (w.flow.buffer.bytes + len)

unfoldable pub pool_would_exhaust : Work → ℕ → Bool
pool_would_exhaust w len = ltb w.cfg.global_max_buffer_bytes (u64 (w.pool_bytes_used + len))

-- The end of `buffer_insert_committed`, with the ring that `ring_insert` left.
abbrev pub committed : ℕ → ℕ → Ring → Work → Work
committed len now_us q w =
    let w1 = record w {
      pool_bytes_used = u64 (w.pool_bytes_used + len);
      flow = record w.flow { buffer = q; last_progress_us = now_us };
    } in
    let armed =
      on_stats (λ st. record st { gap_count = st.gap_count + 1 })
        (on_flow (arm_gap_timer now_us) w1) in
    if ring_empty w.flow.buffer then armed else w1

unfoldable pub buffer_insert_committed : Memory → ℕ → List ℕ → ℕ → Work → Outcome
buffer_insert_committed mem seq pkt now_us w =
    let f = w.flow in
    let len = length pkt in
    if not mem.malloc_ok
    then outcome Result.dropped_limit (count_pool w)
    else elim (ring_insert mem.calloc_ok f.buffer seq pkt len f.expected now_us) [
      | none ↦ outcome Result.dropped_limit (count_pool w)
      | some q ↦ outcome Result.buffered (committed len now_us q w)
    ]

-- The missing packet came, and nothing is left to wait for.
unfoldable pub filled_end : Work → Work
filled_end w =
    if ring_empty w.flow.buffer && w.flow.gap_timer_active
    then on_stats (λ st. record st { gap_filled_count = st.gap_filled_count + 1 })
        (on_flow stop_gap_timer w)
    else w

-- The packet that is expected: delivered, with what now follows it. In `process_reorder_packet` and in
-- `reclassify_after_flush`.
unfoldable pub deliver_in_order : List ℕ → ℕ → Work → Work
deliver_in_order pkt now_us w =
    let moved = λ (f : Flow). record f { expected = f.expected + 1; last_progress_us = now_us } in
    filled_end (drain_contiguous now_us (on_flow moved (deliver_pkt pkt now_us now_us w)))

unfoldable pub reclassify_after_flush : ℕ → List ℕ → ℕ → Work → Outcome
reclassify_after_flush seq pkt now_us w =
    let f = w.flow in
    if ltb seq f.expected
    then outcome Result.dropped_late (count_late w)
    else if seq == f.expected
    then outcome Result.delivered (deliver_in_order pkt now_us w)
    else if ring_far_ahead f.buffer seq f.expected
    then outcome Result.dropped_far_ahead (count_far_ahead w)
    else if ring_contains f.buffer seq
    then outcome Result.dropped_limit (count_duplicate w)
    else outcome Result.buffered w

abbrev pub resolved_by_flush : Outcome → (Work → Outcome) → Outcome
resolved_by_flush o next = elim o.result [ Result.buffered ↦ next o.work | _ ↦ o ]

-- The second test of the pool in `buffer_admit`, after its flush.
abbrev pub admit_again : Memory → ℕ → List ℕ → ℕ → Work → Outcome
admit_again mem seq pkt now_us w =
    if pool_would_exhaust w (length pkt)
    then outcome Result.dropped_limit (count_pool w)
    else buffer_insert_committed mem seq pkt now_us w

-- `buffer_admit` from the test of the global pool on.
unfoldable pub admit_to_pool : Memory → ℕ → List ℕ → ℕ → Work → Outcome
admit_to_pool mem seq pkt now_us w =
    let flushed = reclassify_after_flush seq pkt now_us (overflow_flush now_us w) in
    if pool_would_exhaust w (length pkt)
    then if ring_empty w.flow.buffer
      then outcome Result.dropped_limit (count_pool w)
      else resolved_by_flush flushed (admit_again mem seq pkt now_us)
    else buffer_insert_committed mem seq pkt now_us w

unfoldable pub buffer_admit : Memory → ℕ → List ℕ → ℕ → Work → Outcome
buffer_admit mem seq pkt now_us w =
    let flushed = reclassify_after_flush seq pkt now_us (overflow_flush now_us w) in
    if ring_contains w.flow.buffer seq
    then outcome Result.dropped_limit (count_duplicate w)
    else if would_exceed_per_flow_limits w (length pkt)
    then if ring_empty w.flow.buffer
      then outcome Result.dropped_limit (count_flow_limit w)
      else resolved_by_flush flushed (admit_to_pool mem seq pkt now_us)
    else admit_to_pool mem seq pkt now_us w

-- The delivery that (re)starts a flow at `seq`.
unfoldable pub start_at : ℕ → List ℕ → ℕ → Work → Work
start_at seq pkt now_us w =
    let w1 = on_flow (λ f. record f { initialized = true; expected = seq }) w in
    on_flow (λ f. record f { expected = f.expected + 1; last_progress_us = now_us })
      (deliver_pkt pkt now_us now_us w1)

-- `process_reorder_packet` once the flow has begun.
unfoldable pub process_begun : Memory → ℕ → List ℕ → ℕ → Work → Outcome
process_begun mem seq pkt now_us w =
    let f = w.flow in
    if seq == f.expected
    then outcome Result.delivered (deliver_in_order pkt now_us w)
    else if ltb seq f.expected
    then outcome Result.dropped_late (count_late w)
    else if ring_far_ahead f.buffer seq f.expected
    then outcome Result.dropped_far_ahead (count_far_ahead w)
    else buffer_admit mem seq pkt now_us w

unfoldable pub process_reorder_packet : Memory → ℕ → List ℕ → ℕ → Work → Outcome
process_reorder_packet mem seq pkt now_us w =
    if not w.flow.initialized
    then outcome Result.delivered (start_at seq pkt now_us w)
    else process_begun mem seq pkt now_us w

-- FLOW_RESET is honoured on a new flow and on one that has been silent for longer than the grace time.
unfoldable pub honors_reset : Work → ℕ → Bool
honors_reset w now_us =
    let f = w.flow in
    not f.initialized
    || (ltb f.last_progress_us now_us
        && ltb (w.cfg.reset_idle_grace_ms * 1000) (now_us - f.last_progress_us))

-- The classifier's turn in `on_reordered`: dropped anomalies do not count.
unfoldable pub demote_if_judged : List ℕ → ℕ → Outcome → Work
demote_if_judged pkt now_us o =
    let judged = classify_update pkt o.work in
    let flushed = flush_buffer_for_demote now_us judged.1 in
    let demoted =
      on_stats (λ st. record st { ack_demote_count = st.ack_demote_count + 1 })
        (on_flow (λ f. record f { pass_through = true }) flushed) in
    let counted = if judged.0 then demoted else judged.1 in
    elim o.result [
      | Result.delivered ↦ counted
      | Result.buffered ↦ counted
      | Result.dropped_late ↦ counted
      | Result.dropped_far_ahead ↦ o.work
      | Result.dropped_limit ↦ o.work
    ]

unfoldable pub on_reordered : Memory → ℕ → ℕ → List ℕ → ℕ → Work → Work
on_reordered mem seq flags pkt now_us w =
    let seen = on_flow (λ f. record f { last_seen_us = now_us }) w in
    let passed =
      on_flow (λ f. record f { last_progress_us = now_us }) (deliver_pkt pkt now_us now_us seen) in
    if not (bit_and flags 1 == 0) && honors_reset seen now_us
    then start_at seq pkt now_us (reset_reorder_flow seen)
    else if seen.flow.pass_through
    then passed
    else demote_if_judged pkt now_us (process_reorder_packet mem seq pkt now_us seen)
