-- ===== src/Reorder/Flow/Skip.antt =====
-- `skip_to_lowest_and_drain` and the flushes that stand on it keep the buffer and the pool sound.
use mqcpn.Prelude.{ℕ, ◌≡◌, ◌≤◌, ◌<◌, ap, none, arith, dec_lt}
use mqcpn.Reorder.Ring.View.{look}
use mqcpn.Reorder.Ring.Lowest.{look_window, ring_lowest_seq_lem}
use mqcpn.Reorder.Ring.Advance.{advance-Inv, empty-look}
use mqcpn.Reorder.Ring.{ring_lowest_seq}
use mqcpn.Reorder.Flow.Sound.{Sound, Kept, Released, drain_contiguous_lem}
use mqcpn.Reorder.Flow.{Work, on_flow, jump, skip_to_lowest_and_drain}

-- The window may start at any number below which nothing is buffered.
pub moved-Sound :
    (others m : ℕ) (w : Work)
    → Sound others w
    → w.flow.expected ≤ m
    → ((s : ℕ) → s < m → look w.flow.buffer s ≡ none)
    → Sound others (on_flow (λ f. record f { expected = m }) w)
moved-Sound others m w v le clear = record {
  ring = advance-Inv w.flow.expected m w.flow.buffer v.ring le clear;
  pool_is = v.pool_is;
  pool_le = v.pool_le;
  room = v.room;
  count_le = v.count_le;
}

abbrev pub lowest_of : Work → ℕ
lowest_of w = ring_lowest_seq w.flow.buffer w.flow.expected

-- In a buffer that is not empty, the lowest number is not behind the window.
pub lowest-ge :
    (others : ℕ) (w : Work)
    → Sound others w
    → 0 < w.flow.buffer.count
    → w.flow.expected ≤ lowest_of w
lowest-ge others w v pos =
    let ((t, is), _) = ring_lowest_seq_lem w.flow.expected w.flow.buffer v.ring pos in
    (look_window w.flow.expected w.flow.buffer (lowest_of w) t v.ring is).0

pub jump-clear :
    (others : ℕ) (w : Work)
    → Sound others w
    → (s : ℕ) → s < (jump (lowest_of w) w.flow).expected
    → look w.flow.buffer s ≡ none
jump-clear others w v s lt =
    let e = w.flow.expected in
    let r = w.flow.buffer in
    elim (dec_lt 0 r.count) [
      | no empty ↦ empty-look e s r v.ring (omega arith)
      | yes pos ↦
          (ring_lowest_seq_lem e r v.ring pos).1 s (ground (arith, lowest-ge others w v pos))
    ]

-- What `skip_to_lowest_and_drain` does.
pub skip_lem :
    (others now : ℕ) (w : Work)
    → Sound others w
    → let w' = skip_to_lowest_and_drain now w in
      Sound others w'
      × Kept w w'
      × (look w'.flow.buffer w'.flow.expected ≡ none)
      × (0 < w.flow.buffer.count → w'.flow.buffer.count < w.flow.buffer.count)
unfolding skip_to_lowest_and_drain
skip_lem others now w v =
    let m = (jump (lowest_of w) w.flow).expected in
    let w1 = on_flow (jump (lowest_of w)) w in
    let v1 : Sound others w1 = moved-Sound others m w v (ground arith) (jump-clear others w v) in
    let d = drain_contiguous_lem others now w1 v1 in
    let s = d.sound in
    let k = d.kept in
    (
      record {
        ring = s.ring;
        pool_is = s.pool_is;
        pool_le = s.pool_le;
        room = s.room;
        count_le = s.count_le;
      },
      record {
        cfg = k.cfg;
        gap_count = k.gap_count;
        gaps_ended = k.gaps_ended;
        timer = k.timer;
        cap = k.cap;
        initialized = k.initialized;
        pass_through = k.pass_through;
        count_le = k.count_le;
        later = ground (arith, k.later);
      },
      d.gap,
      λ pos.
          let ((t, is), _) = ring_lowest_seq_lem w.flow.expected w.flow.buffer v.ring pos in
          let at : m ≡ lowest_of w = ground (arith, lowest-ge others w v pos) in
          d.progress (λ none_there. cc (ap (look w.flow.buffer) at, is, none_there)),
    )

-- What it takes out of the buffer is delivered.
pub skip-Released :
    (others now : ℕ) (w : Work) → Sound others w → Released w (skip_to_lowest_and_drain now w)
unfolding skip_to_lowest_and_drain
skip-Released others now w v =
    let m = (jump (lowest_of w) w.flow).expected in
    let w1 = on_flow (jump (lowest_of w)) w in
    let v1 : Sound others w1 = moved-Sound others m w v (ground arith) (jump-clear others w v) in
    let r = (drain_contiguous_lem others now w1 v1).released in
    record { given = r.given; counted = r.counted }
