-- ===== src/Reorder/Receive/Deliver.antt =====
-- The packet that is expected, and the counters of refused ones, keep a flow good.
use mqcpn.Prelude.{
  ℕ, ◌+◌, ◌≡◌, ◌<◌, refl, ap, ◌∙◌, none, List, arith, Bool-cases, Option-cases, inl, inr, ◌&&◌,
}
use mqcpn.Reorder.Ring.View.{look}
use mqcpn.Reorder.Ring.Lowest.{look_window}
use mqcpn.Reorder.Ring.{Ring, ring_empty}
use mqcpn.Reorder.Flow.Sound.{Sound, ended, Kept, Kept-trans, drain_contiguous_lem}
use mqcpn.Reorder.Flow.Skip.{moved-Sound}
use mqcpn.Reorder.Flow.Gap.{
  Timed, Good, Alike, Alike-Sound, Settled, still_open, still_idle, period_ends, shrunk-fresh,
}
use mqcpn.Reorder.Flow.{
  Stats, Flow, Work, on_flow, on_stats, drain_contiguous, stop_gap_timer, deliver_pkt,
  record_residence,
}
use mqcpn.Reorder.Receive.{filled_end, deliver_in_order}

-- A counter that is not about gap periods.
pub noted-Good :
    (others : ℕ) (w : Work) (count : Stats → Stats)
    → (count w.flow.stats).gap_count ≡ w.flow.stats.gap_count
    → ended (count w.flow.stats) ≡ ended w.flow.stats
    → Good others w
    → Good others (on_stats count w)
noted-Good others w count same_gaps same_ends g =
    let v = g.sound in
    let t = g.timed in
    record {
      gap = g.gap;
      sound = record {
        ring = v.ring;
        pool_is = v.pool_is;
        pool_le = v.pool_le;
        room = v.room;
        count_le = v.count_le;
      };
      timed = record {
        timer = t.timer;
        identity = omega (arith, t.identity, same_gaps, same_ends);
      };
      fresh = g.fresh;
    }

-- Nothing up to the number that is expected is buffered.
pub gap-clear :
    (others : ℕ) (w : Work)
    → Good others w
    → (s : ℕ) → s < w.flow.expected + 1
    → look w.flow.buffer s ≡ none
gap-clear others w g s lt = elim (Option-cases (look w.flow.buffer s)) [
  | inl is ↦ is
  | inr (t, is) ↦
      let at = look_window w.flow.expected w.flow.buffer s t g.sound.ring is in
      let same : s ≡ w.flow.expected = omega (arith, at.0) in ap (look w.flow.buffer) same ∙ g.gap
]

filled_end-Timed : (w w1 : Work) → Settled w w1 → Timed (filled_end w1)
unfolding filled_end
filled_end-Timed w w1 s =
    elim (Bool-cases (ring_empty w1.flow.buffer && w1.flow.gap_timer_active)) [
      | inl both ↦ rw both (
          period_ends w w1 (λ st. record st { gap_filled_count = st.gap_filled_count + 1 }) s
            (ground arith) (ground arith) refl (omega arith))
      | inr not_both ↦ rw not_both (elim (Bool-cases (ring_empty w1.flow.buffer)) [
        | inl empty ↦ still_idle w w1 s empty (ground arith)
        | inr more ↦ still_open w w1 s more
      ])
    ]

filled_end-Alike : (w : Work) → Alike w (filled_end w)
unfolding filled_end stop_gap_timer
filled_end-Alike w = record {
  cfg = ground arith;
  pool = ground arith;
  expected = ground arith;
  buffer = ground arith;
  initialized = ground arith;
}

pub deliver_in_order-Good :
    (others now : ℕ) (pkt : List ℕ) (w : Work)
    → Good others w
    → Good others (deliver_in_order pkt now w)
unfolding deliver_in_order deliver_pkt record_residence
deliver_in_order-Good others now pkt w g =
    let moved = λ (f : Flow). record f { expected = f.expected + 1; last_progress_us = now } in
    let w0 = on_flow moved (deliver_pkt pkt now now w) in
    let w1 = drain_contiguous now w0 in
    let u : Sound others (on_flow (λ f. record f { expected = w.flow.expected + 1 }) w) =
      moved-Sound others (w.flow.expected + 1) w g.sound (omega arith) (gap-clear others w g) in
    let v : Sound others w0 = record {
      ring = u.ring;
      pool_is = u.pool_is;
      pool_le = u.pool_le;
      room = u.room;
      count_le = u.count_le;
    } in
    let d = drain_contiguous_lem others now w0 v in
    let k0 : Kept w w0 = record {
      cfg = refl;
      gap_count = refl;
      gaps_ended = refl;
      timer = refl;
      cap = refl;
      initialized = refl;
      pass_through = refl;
      count_le = omega arith;
      later = omega arith;
    } in
    let k = Kept-trans w w0 w1 k0 d.kept in
    let a = filled_end-Alike w1 in
    record {
      gap = rw (a.buffer, a.expected) d.gap;
      sound = Alike-Sound others w1 (filled_end w1) a d.sound;
      timed = filled_end-Timed w w1 (record { kept = k; timed = g.timed });
      fresh =
          shrunk-fresh w (filled_end w1) (a.initialized ∙ k.initialized)
            (omega (arith, k.count_le, ap (λ (r : Ring). r.count) a.buffer)) g.fresh;
    }
