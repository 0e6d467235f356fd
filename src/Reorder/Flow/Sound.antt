-- ===== src/Reorder/Flow/Sound.antt =====
-- The invariant of a flow's buffer and of the shared pool, and what the drain does to them.
use mqcpn.Prelude.{
  length, ℕ, zero, suc, ◌+◌, ◌≡◌, ◌≢◌, ◌≤◌, ◌<◌, refl, ◌∙◌, none, ◌==◌, arith, Bool-cases,
  Option-cases, inl, inr,
}
use mqcpn.Reorder.Ring.View.{look, Inv}
use mqcpn.Reorder.Ring.Remove.{Removed, ring_remove-none, ring_remove-some}
use mqcpn.Reorder.Ring.Lowest.{look_window}
use mqcpn.Reorder.Ring.Advance.{advance-Inv, empty-look}
use mqcpn.Reorder.Ring.{Ring, Taken}
use mqcpn.Reorder.Flow.{
  Stats, Work, deliver_pkt, record_residence, pool_release, drain_one, drain_rounds,
  drain_contiguous,
}

-- `others` is what the other flows' buffers hold of the pool. The pool's bound leaves room for the sum
-- of the counter and one more packet.
pub record Sound (others : ℕ) (w : Work) : Type 0 where
  pub ring : Inv w.flow.expected w.flow.buffer
  pub pool_is : w.pool_bytes_used ≡ others + w.flow.buffer.bytes
  pub pool_le : w.pool_bytes_used ≤ w.cfg.global_max_buffer_bytes
  pub room : w.cfg.global_max_buffer_bytes + 65536 ≤ 18446744073709551616
  pub count_le : w.flow.buffer.count ≤ w.flow.buffer.cap

-- The gap periods that have ended.
abbrev pub ended : Stats → ℕ
ended st =
    st.gap_filled_count + st.gap_timeout_count + st.gap_overflow_count + st.gap_demote_count
    + st.gap_reset_count

-- What deliveries from the buffer leave alone, and that they only take packets out.
pub record Kept (w w' : Work) : Type 0 where
  pub cfg : w'.cfg ≡ w.cfg
  pub gap_count : w'.flow.stats.gap_count ≡ w.flow.stats.gap_count
  pub gaps_ended : ended w'.flow.stats ≡ ended w.flow.stats
  pub timer : w'.flow.gap_timer_active ≡ w.flow.gap_timer_active
  pub cap : w'.flow.buffer.cap ≡ w.flow.buffer.cap
  pub initialized : w'.flow.initialized ≡ w.flow.initialized
  pub pass_through : w'.flow.pass_through ≡ w.flow.pass_through
  pub count_le : w'.flow.buffer.count ≤ w.flow.buffer.count
  pub later : w.flow.expected ≤ w'.flow.expected

-- Every packet that leaves the buffer is delivered, and counted as delivered.
pub record Released (w w' : Work) : Type 0 where
  pub given : length w'.out + w'.flow.buffer.count ≡ length w.out + w.flow.buffer.count
  pub counted :
      w'.flow.stats.delivered_count + w'.flow.buffer.count
      ≡ w.flow.stats.delivered_count + w.flow.buffer.count

pub Kept-refl : (w : Work) → Kept w w
Kept-refl w = record {
  cfg = refl;
  gap_count = refl;
  gaps_ended = refl;
  timer = refl;
  cap = refl;
  initialized = refl;
  pass_through = refl;
  count_le = omega arith;
  later = omega arith;
}

pub Kept-trans : (u v w : Work) → Kept u v → Kept v w → Kept u w
Kept-trans u v w a b = record {
  cfg = b.cfg ∙ a.cfg;
  gap_count = b.gap_count ∙ a.gap_count;
  gaps_ended = b.gaps_ended ∙ a.gaps_ended;
  timer = b.timer ∙ a.timer;
  cap = b.cap ∙ a.cap;
  initialized = b.initialized ∙ a.initialized;
  pass_through = b.pass_through ∙ a.pass_through;
  count_le = omega (arith, a.count_le, b.count_le);
  later = omega (arith, a.later, b.later);
}

drain_one-Kept :
    (now : ℕ) (t : Taken) (q : Ring) (w : Work)
    → q.count + 1 ≡ w.flow.buffer.count
    → q.cap ≡ w.flow.buffer.cap
    → Kept w (drain_one now t q w)
unfolding deliver_pkt record_residence
drain_one-Kept now t q w taken same_cap = record {
  cfg = refl;
  gap_count = refl;
  gaps_ended = refl;
  timer = refl;
  cap = same_cap;
  initialized = refl;
  pass_through = refl;
  count_le = omega (arith, taken);
  later = omega arith;
}

drain_one-Released :
    (now : ℕ) (t : Taken) (q : Ring) (w : Work)
    → q.count + 1 ≡ w.flow.buffer.count
    → Released w (drain_one now t q w)
unfolding deliver_pkt record_residence
drain_one-Released now t q w taken = record {
  given = omega (arith, taken);
  counted = omega (arith, taken);
}

-- After the packet that is expected is taken, nothing up to it is left.
pub taken-clear :
    (e : ℕ) (r : Ring) (t : Taken) (q : Ring)
    → Removed e r e t q
    → (s : ℕ) → s < e + 1
    → look q s ≡ none
taken-clear e r t q m s lt = elim (Bool-cases (s == e)) [
  | inl same ↦ ground (arith, m.view s, same)
  | inr differs ↦ elim (Option-cases (look q s)) [
    | inl is ↦ is
    | inr (u, is) ↦ absurd (ground (arith, look_window e q s u m.inv is, differs))
  ]
]

pub drain_one-Sound :
    (others now : ℕ) (t : Taken) (q : Ring) (w : Work)
    → Sound others w
    → Removed w.flow.expected w.flow.buffer w.flow.expected t q
    → Sound others (drain_one now t q w)
unfolding deliver_pkt pool_release
drain_one-Sound others now t q w v m = record {
  ring =
      advance-Inv w.flow.expected (w.flow.expected + 1) q m.inv (omega arith)
        (taken-clear w.flow.expected w.flow.buffer t q m);
  pool_is = ground (arith, v.pool_is, m.bytes);
  pool_le = ground (arith, v.pool_is, v.pool_le, m.bytes);
  room = v.room;
  count_le = omega (arith, v.count_le, m.count, m.cap);
}

-- The drain ends with nothing buffered under the sequence number that is expected.
pub record Drained (others : ℕ) (w w' : Work) : Type 0 where
  pub sound : Sound others w'
  pub kept : Kept w w'
  pub released : Released w w'
  pub gap : look w'.flow.buffer w'.flow.expected ≡ none
  pub progress :
      look w.flow.buffer w.flow.expected ≢ none → w'.flow.buffer.count < w.flow.buffer.count

drain_rounds_lem :
    (rounds others now : ℕ) (w : Work)
    → Sound others w
    → w.flow.buffer.count ≤ rounds
    → Drained others w (drain_rounds rounds now w)
unfolding drain_rounds
drain_rounds_lem zero others now w v le = record {
  sound = v;
  kept = Kept-refl w;
  released = record { given = refl; counted = refl };
  gap = empty-look w.flow.expected w.flow.expected w.flow.buffer v.ring (omega arith);
  progress = λ some_there.
      absurd (
        some_there (empty-look w.flow.expected w.flow.expected w.flow.buffer v.ring (omega arith)));
}
drain_rounds_lem (suc rounds) others now w v le =
    let e = w.flow.expected in
    let r = w.flow.buffer in
    elim (Option-cases (look r e)) [
      | inl is ↦
          rw (ring_remove-none r e is, drain_rounds)
            (record {
              sound = v;
              kept = Kept-refl w;
              released = record { given = refl; counted = refl };
              gap = is;
              progress = λ some_there. absurd (some_there is);
            })
      | inr (t, is) ↦
          let (q, m) = ring_remove-some e r e t v.ring is in
          let w1 = drain_one now t q w in
          let d =
            drain_rounds_lem rounds others now w1 (drain_one-Sound others now t q w v m)
              (omega (arith, m.count)) in
          rw (m.call, drain_rounds)
            (record {
              sound = d.sound;
              kept = Kept-trans w w1 _ (drain_one-Kept now t q w m.count m.cap) d.kept;
              released =
                  let one = drain_one-Released now t q w m.count in
                  record {
                    given = d.released.given ∙ one.given;
                    counted = d.released.counted ∙ one.counted;
                  };
              gap = d.gap;
              progress = λ _. omega (arith, m.count, d.kept.count_le);
            })
    ]

pub drain_contiguous_lem :
    (others now : ℕ) (w : Work) → Sound others w → Drained others w (drain_contiguous now w)
unfolding drain_contiguous
drain_contiguous_lem others now w v =
    drain_rounds_lem w.flow.buffer.count others now w v (omega arith)
