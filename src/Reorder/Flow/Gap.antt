-- ===== src/Reorder/Flow/Gap.antt =====
-- The gap timer and its books: one wait period is open exactly while packets are buffered.
use mqcpn.Prelude.{
  ℕ, ◌+◌, ◌≡◌, ◌≤◌, ◌<◌, refl, ap, sym, ◌∙◌, Bool, true, false, not, none, if◌then◌else◌, arith,
  Bool-cases, inl, inr, ap₂, length,
}
use mqcpn.Reorder.Ring.View.{look}
use mqcpn.Reorder.Ring.{Ring, ring_empty}
use mqcpn.Reorder.Flow.Sound.{Sound, ended, Kept}
use mqcpn.Reorder.Flow.Skip.{skip_lem, skip-Released}
use mqcpn.Reorder.Flow.{
  Stats, Flow, Work, on_flow, on_stats, skip_to_lowest_and_drain, arm_gap_timer, stop_gap_timer,
  on_gap_timeout, overflow_flush, overflow_end, timeout_end,
}

pub count-pos : (r : Ring) → ring_empty r ≡ false → 0 < r.count
unfolding ring_empty
count-pos r h = ground arith

pub count-zero : (r : Ring) → ring_empty r ≡ true → r.count ≡ 0
unfolding ring_empty
count-zero r h = ground arith

abbrev pub open_periods : Flow → ℕ
open_periods f = if f.gap_timer_active then 1 else 0

pub record Timed (w : Work) : Type 0 where
  pub timer : w.flow.gap_timer_active ≡ not (ring_empty w.flow.buffer)
  pub identity : w.flow.stats.gap_count ≡ ended w.flow.stats + open_periods w.flow

-- Between packets, what is expected next is not buffered.
pub record Good (others : ℕ) (w : Work) : Type 0 where
  pub gap : look w.flow.buffer w.flow.expected ≡ none
  pub sound : Sound others w
  pub timed : Timed w
  pub fresh : w.flow.initialized ≡ false → w.flow.buffer.count ≡ 0

-- A state with the same buffer, pool and gap periods is as good.
pub record Alike (u w : Work) : Type 0 where
  pub cfg : w.cfg ≡ u.cfg
  pub pool : w.pool_bytes_used ≡ u.pool_bytes_used
  pub expected : w.flow.expected ≡ u.flow.expected
  pub buffer : w.flow.buffer ≡ u.flow.buffer
  pub initialized : w.flow.initialized ≡ u.flow.initialized

pub Alike-Sound : (others : ℕ) (u w : Work) → Alike u w → Sound others u → Sound others w
Alike-Sound others u w a v = record {
  ring = rw (a.expected, a.buffer) v.ring;
  pool_is = rw (a.pool, a.buffer) v.pool_is;
  pool_le = rw (a.pool, a.cfg) v.pool_le;
  room = rw a.cfg v.room;
  count_le = rw a.buffer v.count_le;
}

-- The books of a state that deliveries led to from a good one.
pub record Settled (w w1 : Work) : Type 0 where
  pub kept : Kept w w1
  pub timed : Timed w

Settled-identity :
    (w w1 : Work)
    → Settled w w1
    → w1.flow.stats.gap_count ≡ ended w1.flow.stats + open_periods w1.flow
Settled-identity w w1 s =
    let k = s.kept in
    let t = s.timed in
    k.gap_count
    ∙ t.identity
    ∙ sym (ap₂ (λ (n : ℕ) (b : Bool). n + (if b then 1 else 0)) k.gaps_ended k.timer)

-- Where packets are left, the period stays open.
pub still_open : (w w1 : Work) → Settled w w1 → ring_empty w1.flow.buffer ≡ false → Timed w1
unfolding ring_empty
still_open w w1 s more = record {
  timer = let t = s.timed.timer in let le = s.kept.count_le in let k = s.kept.timer in ground arith;
  identity = Settled-identity w w1 s;
}

-- Where none is left and none was, no period is open.
pub still_idle :
    (w w1 : Work)
    → Settled w w1
    → ring_empty w1.flow.buffer ≡ true
    → w1.flow.gap_timer_active ≡ false
    → Timed w1
still_idle w w1 s empty idle = record {
  timer = ground (arith, empty, idle);
  identity = Settled-identity w w1 s;
}

pub period_ends :
    (w w1 : Work) (count : Stats → Stats)
    → Settled w w1
    → ring_empty w1.flow.buffer ≡ true
    → w1.flow.gap_timer_active ≡ true
    → (count w1.flow.stats).gap_count ≡ w1.flow.stats.gap_count
    → ended (count w1.flow.stats) ≡ ended w1.flow.stats + 1
    → Timed (on_stats count (on_flow stop_gap_timer w1))
unfolding stop_gap_timer
period_ends w w1 count s empty armed same more = record {
  timer = ground (arith, empty);
  identity = ground (arith, Settled-identity w w1 s, same, more);
}

pub stopped_idle :
    (w w1 : Work)
    → Settled w w1
    → ring_empty w1.flow.buffer ≡ true
    → w1.flow.gap_timer_active ≡ false
    → Timed (on_flow stop_gap_timer w1)
unfolding stop_gap_timer
stopped_idle w w1 s empty idle = record {
  timer = ground (arith, empty);
  identity = ground (arith, idle, Settled-identity w w1 s);
}

overflow_end-Timed :
    (w w1 : Work) (was_armed : Bool)
    → was_armed ≡ w1.flow.gap_timer_active
    → Settled w w1
    → Timed (overflow_end was_armed w1)
unfolding overflow_end stop_gap_timer
overflow_end-Timed w w1 was_armed is s = elim (Bool-cases (ring_empty w1.flow.buffer)) [
  | inl empty ↦ elim (Bool-cases was_armed) [
    | inl armed ↦
        rw (empty, armed)
          (period_ends w w1 (λ st. record st { gap_overflow_count = st.gap_overflow_count + 1 }) s
            empty (sym is ∙ armed) refl (omega arith))
    | inr idle ↦ rw (empty, idle) (stopped_idle w w1 s empty (sym is ∙ idle))
  ]
  | inr more ↦ rw more (still_open w w1 s more)
]

overflow_end-Alike : (w : Work) (was_armed : Bool) → Alike w (overflow_end was_armed w)
unfolding overflow_end stop_gap_timer
overflow_end-Alike w was_armed = record {
  cfg = ground arith;
  pool = ground arith;
  expected = ground arith;
  buffer = ground arith;
  initialized = ground arith;
}

-- A buffer that only shrank is still empty where the flow has not begun.
pub shrunk-fresh :
    (w w' : Work)
    → w'.flow.initialized ≡ w.flow.initialized
    → w'.flow.buffer.count ≤ w.flow.buffer.count
    → (w.flow.initialized ≡ false → w.flow.buffer.count ≡ 0)
    → w'.flow.initialized ≡ false
    → w'.flow.buffer.count ≡ 0
shrunk-fresh w w' same le fresh is = omega (arith, le, fresh (sym same ∙ is))

-- From a good state, `overflow_flush` leads to a good one with fewer packets buffered if there
-- were any; the ring's cap and the mark that the flow has begun stay.
pub overflow_flush_lem :
    (others now : ℕ) (w : Work)
    → Good others w
    → let w' = overflow_flush now w in
      Good others w'
      × (0 < w.flow.buffer.count → w'.flow.buffer.count < w.flow.buffer.count)
      × (w'.flow.buffer.cap ≡ w.flow.buffer.cap)
      × (w'.flow.initialized ≡ w.flow.initialized)
unfolding overflow_flush
overflow_flush_lem others now w g =
    let (v, k, gap, less) = skip_lem others now w g.sound in
    let w1 = skip_to_lowest_and_drain now w in
    let armed = w.flow.gap_timer_active in
    let a = overflow_end-Alike w1 armed in
    (
      record {
        gap = rw (a.buffer, a.expected) gap;
        fresh =
            shrunk-fresh w (overflow_end armed w1) (a.initialized ∙ k.initialized)
              (omega (arith, k.count_le, ap (λ (r : Ring). r.count) a.buffer)) g.fresh;
        sound = Alike-Sound others w1 _ a v;
        timed = overflow_end-Timed w w1 armed (sym k.timer) (record { kept = k; timed = g.timed });
      },
      λ pos. omega (arith, less pos, ap (λ (r : Ring). r.count) a.buffer),
      ap (λ (r : Ring). r.cap) a.buffer ∙ k.cap,
      a.initialized ∙ k.initialized,
    )

-- One wait period ends by a timeout, and another may begin.
timeout_end-Timed :
    (now : ℕ) (w : Work) → w.flow.stats.gap_count ≡ ended w.flow.stats → Timed (timeout_end now w)
unfolding timeout_end stop_gap_timer arm_gap_timer
timeout_end-Timed now w even = elim (Bool-cases (ring_empty w.flow.buffer)) [
  | inl empty ↦ rw empty (record { timer = ground (arith, empty); identity = omega (arith, even) })
  | inr more ↦ rw more (record { timer = ground (arith, more); identity = omega (arith, even) })
]

timeout_end-Alike : (now : ℕ) (w : Work) → Alike w (timeout_end now w)
unfolding timeout_end stop_gap_timer arm_gap_timer
timeout_end-Alike now w = record {
  cfg = ground arith;
  pool = ground arith;
  expected = ground arith;
  buffer = ground arith;
  initialized = ground arith;
}

-- The end of a timeout delivers nothing and takes nothing out.
timeout_end-delivered :
    (now : ℕ) (w : Work)
    → let w' = timeout_end now w in
      (length w'.out + w'.flow.buffer.count ≡ length w.out + w.flow.buffer.count)
      × (w'.flow.stats.delivered_count + w'.flow.buffer.count
          ≡ w.flow.stats.delivered_count + w.flow.buffer.count)
unfolding timeout_end stop_gap_timer arm_gap_timer
timeout_end-delivered now w = elim (Bool-cases (ring_empty w.flow.buffer)) [
  | inl empty ↦ rw empty (refl, refl)
  | inr more ↦ rw more (refl, refl)
]

-- The counted timeout of `on_gap_timeout`.
abbrev timed_out : Work → Work
timed_out = on_stats (λ st. record st { gap_timeout_count = st.gap_timeout_count + 1 })

-- From a good state whose gap timer runs, `on_gap_timeout` leads to a good one. It takes at least one packet out
-- of the buffer, and delivers every packet that it takes out: what is delivered and what is buffered add up to the
-- same number as before, both by the packets given to the callback and by the counter of deliveries.
pub on_gap_timeout_lem :
    (others now : ℕ) (w : Work)
    → Good others w
    → w.flow.gap_timer_active ≡ true
    → let w' = on_gap_timeout now w in
      Good others w'
      × (w'.flow.buffer.count < w.flow.buffer.count)
      × (length w'.out + w'.flow.buffer.count ≡ length w.out + w.flow.buffer.count)
      × (w'.flow.stats.delivered_count + w'.flow.buffer.count
          ≡ w.flow.stats.delivered_count + w.flow.buffer.count)
unfolding on_gap_timeout
on_gap_timeout_lem others now w g armed =
    let v : Sound others (timed_out w) =
      Alike-Sound others w (timed_out w)
        (record { cfg = refl; pool = refl; expected = refl; buffer = refl; initialized = refl })
        g.sound in
    let (v1, k, gap, less) = skip_lem others now (timed_out w) v in
    let w1 = skip_to_lowest_and_drain now (timed_out w) in
    let a = timeout_end-Alike now w1 in
    let r = skip-Released others now (timed_out w) v in
    let ended_with = timeout_end-delivered now w1 in
    let t = g.timed in
    let more : ring_empty w.flow.buffer ≡ false = ground (arith, t.timer, armed) in
    let pos : 0 < w.flow.buffer.count = count-pos w.flow.buffer more in
    let even : w1.flow.stats.gap_count ≡ ended w1.flow.stats =
      ground (arith, k.gap_count, k.gaps_ended, t.identity, armed) in
    rw more (
      record {
        gap = rw (a.buffer, a.expected) gap;
        fresh =
            shrunk-fresh w (timeout_end now w1) (a.initialized ∙ k.initialized)
              (omega (arith, k.count_le, ap (λ (r : Ring). r.count) a.buffer)) g.fresh;
        sound = Alike-Sound others w1 _ a v1;
        timed = timeout_end-Timed now w1 even;
      },
      omega (arith, less pos, ap (λ (r : Ring). r.count) a.buffer),
      ended_with.0 ∙ r.given,
      ended_with.1 ∙ r.counted,
    )
