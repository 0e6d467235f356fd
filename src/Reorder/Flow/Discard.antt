-- ===== src/Reorder/Flow/Discard.antt =====
-- The two ways that a buffer is given up: the discard of FLOW_RESET, and the flush of a demotion.
use mqcpn.Prelude.{
  ℕ, zero, suc, ◌+◌, ◌≡◌, ◌≤◌, refl, subst, none, if◌then◌else◌, arith, Bool-cases, Option-cases,
  inl, inr,
}
use mqcpn.Reorder.Ring.Array.{Slot, total, one_each, len_each}
use mqcpn.Reorder.Ring.View.{look, Inv, Filled, Shape}
use mqcpn.Reorder.Ring.Lowest.{ring_lowest_seq_lem}
use mqcpn.Reorder.Ring.Advance.{empty-bytes, ring_free-Inv}
use mqcpn.Reorder.Ring.{Ring, ring_empty, ring_free}
use mqcpn.Reorder.Flow.Sound.{Sound, Kept, Kept-refl, Kept-trans, drain_contiguous_lem}
use mqcpn.Reorder.Flow.Skip.{moved-Sound, lowest_of, lowest-ge}
use mqcpn.Reorder.Flow.Gap.{Good, Alike, Alike-Sound, count-pos, count-zero}
use mqcpn.Reorder.Flow.{
  Work, on_flow, on_stats, drain_contiguous, flush_rounds, stop_gap_timer, pool_release,
  flush_buffer_for_demote, discard_slots, discard_all, discard_buffer_for_reset, reset_reorder_flow,
}

-- The loop gives back what the slots hold, and counts it.
discard_slots_lem :
    (n used dropped : ℕ) (slots : ℕ → Slot)
    → total len_each n slots ≤ used
    → let after = discard_slots n slots (used, dropped) in
      (after.0 + total len_each n slots ≡ used) × (after.1 ≡ dropped + total one_each n slots)
unfolding discard_slots total pool_release
discard_slots_lem zero used dropped slots h = (omega arith, omega arith)
discard_slots_lem (suc n) used dropped slots h =
    let rest = discard_slots_lem n used dropped slots (ground arith) in
    (ground (arith, rest), ground (arith, rest))

-- What a discard does: the flow's share of the pool is given back, and each packet is counted.
pub discard_all_lem :
    (e others used : ℕ) (r : Ring)
    → Inv e r
    → used ≡ others + r.bytes
    → let after = discard_all r used in (after.0 ≡ others) × (after.1 ≡ r.count)
discard_all_lem e others used r v share = elim (Option-cases r.slots) [
  | inl is ↦
      let (_, c, b) : Shape e r none = subst (λ o. Shape e r o) is v.shape in
      rw is (omega (arith, b, share), omega (arith, c))
  | inr (slots, is) ↦
      let f : Filled e r slots = subst (λ o. Shape e r o) is v.shape in
      let d = discard_slots_lem r.size used 0 slots (omega (arith, f.bytes_is, share)) in
      rw is (omega (arith, d.0, f.bytes_is, share), omega (arith, d.1, f.count_is))
]

freed_look : (r : Ring) (s : ℕ) → look (ring_free r) s ≡ none
unfolding look ring_free
freed_look r s = refl

-- From a good state, the reset of a flow followed by any new start of its numbering leads to a
-- good state with an empty buffer, in which exactly the packets that were buffered are counted as
-- discarded.
pub reset_lem :
    (others m : ℕ) (w : Work)
    → Good others w
    → let w' = on_flow (λ f. record f { expected = m }) (reset_reorder_flow w) in
      Good others w'
      × (w'.flow.buffer.count ≡ 0)
      × (w'.flow.stats.reset_discard_count ≡ w.flow.stats.reset_discard_count + w.flow.buffer.count)
unfolding reset_reorder_flow discard_buffer_for_reset stop_gap_timer ring_free ring_empty
reset_lem others m w g =
    let v = g.sound in
    let t = g.timed in
    let e = w.flow.expected in
    let d = discard_all_lem e others w.pool_bytes_used w.flow.buffer v.ring v.pool_is in
    (
      record {
        sound = record {
          ring = ring_free-Inv e m w.flow.buffer v.ring;
          pool_is = omega (arith, d.0);
          pool_le = omega (arith, d.0, v.pool_is, v.pool_le);
          room = v.room;
          count_le = omega arith;
        };
        fresh = λ _. refl;
        gap = freed_look w.flow.buffer m;
        timed = record { timer = refl; identity = ground (arith, t.identity) };
      },
      refl,
      omega (arith, d.1),
    )

flush_rounds_lem :
    (rounds others now : ℕ) (w : Work)
    → Sound others w
    → w.flow.buffer.count ≤ rounds
    → let w' = flush_rounds rounds now w in Sound others w' × Kept w w' × (w'.flow.buffer.count ≡ 0)
unfolding flush_rounds
flush_rounds_lem zero others now w v le = (v, Kept-refl w, omega arith)
flush_rounds_lem (suc rounds) others now w v le = elim (Bool-cases (ring_empty w.flow.buffer)) [
  | inl empty ↦ rw (empty, flush_rounds) (v, Kept-refl w, count-zero w.flow.buffer empty)
  | inr more ↦
      let pos = count-pos w.flow.buffer more in
      let m = lowest_of w in
      let ((t, is), clear) = ring_lowest_seq_lem w.flow.expected w.flow.buffer v.ring pos in
      let ge = lowest-ge others w v pos in
      let w1 = on_flow (λ f. record f { expected = m }) w in
      let w2 = drain_contiguous now w1 in
      let d = drain_contiguous_lem others now w1 (moved-Sound others m w v ge clear) in
      let less = d.progress (λ none_there. cc (is, none_there)) in
      let (v', k, zero_left) = flush_rounds_lem rounds others now w2 d.sound (omega arith) in
      let k1 : Kept w w1 = record {
        cfg = refl;
        gap_count = refl;
        gaps_ended = refl;
        timer = refl;
        cap = refl;
        initialized = refl;
        pass_through = refl;
        count_le = omega arith;
        later = ge;
      } in
      rw (more, flush_rounds) (v', Kept-trans w w1 _ k1 (Kept-trans w1 w2 _ d.kept k), zero_left)
]

-- From a good state, `flush_buffer_for_demote` leads to a good one with an empty buffer and the
-- same configuration.
pub flush_for_demote_lem :
    (others now : ℕ) (w : Work)
    → Good others w
    → let w' = flush_buffer_for_demote now w in
      Good others w' × (w'.flow.buffer.count ≡ 0) × (w'.cfg ≡ w.cfg)
unfolding flush_buffer_for_demote stop_gap_timer ring_free ring_empty
flush_for_demote_lem others now w g =
    let charge = if w.flow.gap_timer_active then 1 else 0 in
    let w1 = on_stats (λ st. record st { gap_demote_count = st.gap_demote_count + charge }) w in
    let a : Alike w w1 = record {
      cfg = refl;
      pool = refl;
      expected = refl;
      buffer = refl;
      initialized = refl;
    } in
    let (v, k, none_left) =
      flush_rounds_lem w.flow.buffer.count others now w1 (Alike-Sound others w w1 a g.sound)
        (omega arith) in
    let w2 = flush_rounds w.flow.buffer.count now w1 in
    let t = g.timed in
    (
      record {
        sound = record {
          ring = ring_free-Inv w2.flow.expected w2.flow.expected w2.flow.buffer v.ring;
          pool_is =
              omega
                (arith, v.pool_is, empty-bytes w2.flow.expected w2.flow.buffer v.ring none_left);
          pool_le = v.pool_le;
          room = v.room;
          count_le = omega arith;
        };
        fresh = λ _. refl;
        gap = freed_look w2.flow.buffer w2.flow.expected;
        timed = record {
          timer = refl;
          identity = omega (arith, k.gap_count, k.gaps_ended, t.identity);
        };
      },
      refl,
      k.cfg,
    )
