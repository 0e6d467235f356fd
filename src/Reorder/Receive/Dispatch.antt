-- ===== src/Reorder/Receive/Dispatch.antt =====
-- The classifier, the demotion and `on_reordered` keep a flow good.
use Prim.Native.Nat.{bit_and}
use mqcpn.Prelude.{
  ℕ, ◌+◌, ◌≤◌, refl, Bool, true, not, List, leb, ◌==◌, if◌then◌else◌, length, ◌&&◌, if-both,
}
use mqcpn.Reorder.Flow.Gap.{Good}
use mqcpn.Reorder.Flow.Discard.{reset_lem, flush_for_demote_lem}
use mqcpn.Reorder.Flow.{
  Work, on_flow, on_stats, deliver_pkt, record_residence, reset_reorder_flow,
  flush_buffer_for_demote,
}
use mqcpn.Reorder.Receive.Deliver.{noted-Good}
use mqcpn.Reorder.Receive.{
  Memory, Result, outcome, process_reorder_packet, classified, classify_update, demote_if_judged,
  honors_reset, on_reordered,
}
use mqcpn.Reorder.Receive.Process.{start_at-Good, process-Good}
use mqcpn.Prelude.{if-both}

-- A change that only the classifier and the clock read.
pub marked-Good :
    (others : ℕ) (w : Work) (seen large seen_us progress_us : ℕ) (pass : Bool)
    → Good others w
    → Good others (
        on_flow
          (λ f. record f {
            classify_seen = seen;
            classify_large = large;
            last_seen_us = seen_us;
            last_progress_us = progress_us;
            pass_through = pass;
          })
          w)
marked-Good others w seen large seen_us progress_us pass g =
    let v = g.sound in
    let t = g.timed in
    record {
      gap = g.gap;
      sound = record {
        ring = v.ring;
        pool_is = v.pool_is;
        pool_le = v.pool_le;
        room = v.room;
        count_le = v.count_le;
      };
      timed = record { timer = t.timer; identity = t.identity };
      fresh = g.fresh;
    }

pub classify-Good :
    (others : ℕ) (pkt : List ℕ) (w : Work) → Good others w → Good others (classify_update pkt w).1
unfolding classify_update
classify-Good others pkt w g =
    let f = classified w pkt w.flow in
    let h =
      marked-Good others w f.classify_seen f.classify_large f.last_seen_us f.last_progress_us
        f.pass_through g in
    let P = λ (r : Bool × Work). Good others r.1 in
    if-both P w.cfg.eval_force_no_demotion g
      (if-both P (leb w.cfg.classify_window w.flow.classify_seen) g h)

demote-Good :
    (others now : ℕ) (pkt : List ℕ) (r : Result) (w : Work)
    → Good others w
    → Good others (demote_if_judged pkt now (outcome r w))
unfolding demote_if_judged
demote-Good others now pkt r w g = go r
  where
    judged : Bool × Work
    judged = classify_update pkt w

    flushed : Work
    flushed = flush_buffer_for_demote now judged.1

    counted : Good others (
        if judged.0
        then on_stats
            (λ st. record st { ack_demote_count = st.ack_demote_count + 1 })
            (on_flow (λ f. record f { pass_through = true }) flushed)
        else judged.1)
    counted =
        let g1 = classify-Good others pkt w g in
        let g2 = (flush_for_demote_lem others now judged.1 g1).0 in
        let f = flushed.flow in
        let marked = on_flow (λ f. record f { pass_through = true }) flushed in
        let g3 : Good others marked =
          marked-Good others flushed f.classify_seen f.classify_large f.last_seen_us
            f.last_progress_us true g2 in
        if-both (Good others) judged.0
          (noted-Good others marked (λ st. record st { ack_demote_count = st.ack_demote_count + 1 })
            refl refl g3)
          g1

    go : (r : Result) → Good others (demote_if_judged pkt now (outcome r w))
    go Result.delivered = counted
    go Result.buffered = counted
    go Result.dropped_late = counted
    go Result.dropped_far_ahead = g
    go Result.dropped_limit = g

deliver-Good :
    (others now enq : ℕ) (pkt : List ℕ) (w : Work)
    → Good others w
    → Good others (deliver_pkt pkt now enq w)
unfolding deliver_pkt record_residence
deliver-Good others now enq pkt w g =
    let v = g.sound in
    let t = g.timed in
    record {
      gap = g.gap;
      sound = record {
        ring = v.ring;
        pool_is = v.pool_is;
        pool_le = v.pool_le;
        room = v.room;
        count_le = v.count_le;
      };
      timed = record { timer = t.timer; identity = t.identity };
      fresh = g.fresh;
    }

-- From a good state, a packet of at most 65535 bytes leads to a good state whatever it leads to:
-- a reset, a pass-through, a delivery, a drop, a flush, an allocation that fails or a demotion.
pub on_reordered-Good :
    (mem : Memory) (others seq flags : ℕ) (pkt : List ℕ) (now : ℕ) (w : Work)
    → Good others w
    → length pkt ≤ 65535
    → Good others (on_reordered mem seq flags pkt now w)
unfolding on_reordered
on_reordered-Good mem others seq flags pkt now w g small =
    let f = w.flow in
    let seen = on_flow (λ f. record f { last_seen_us = now }) w in
    let g1 : Good others seen =
      marked-Good others w f.classify_seen f.classify_large now f.last_progress_us f.pass_through
        g in
    let o = process_reorder_packet mem seq pkt now seen in
    let passed = deliver_pkt pkt now now seen in
    let p = passed.flow in
    if-both (Good others) (not (bit_and flags 1 == 0) && honors_reset seen now)
      (start_at-Good others now seq pkt (reset_reorder_flow seen)
        (λ m. (reset_lem others m seen g1).0))
      (if-both (Good others) seen.flow.pass_through
        (marked-Good others passed p.classify_seen p.classify_large p.last_seen_us now
          p.pass_through (deliver-Good others now now pkt seen g1))
        (demote-Good others now pkt o.result o.work
          (process-Good mem others now seq pkt seen g1 small)))
