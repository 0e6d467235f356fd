-- ===== src/Reorder/Flow/Order.antt =====
-- The order of the deliveries. `content` says which packet has which sequence number; `before` is what
-- was delivered before the flow's present numbering began.
use mqcpn.Prelude.{
  ℕ, zero, suc, ◌+◌, ◌≡◌, ◌≤◌, ◌<◌, refl, subst, sym, some, List, ◌∷◌, if◌then◌else◌, arith,
  Bool-cases, Option-cases, inl, inr, if-both,
}
use mqcpn.Reorder.Ring.View.{look}
use mqcpn.Reorder.Ring.Remove.{Removed, ring_remove-none, ring_remove-some}
use mqcpn.Reorder.Ring.Lowest.{ring_lowest_seq_lem}
use mqcpn.Reorder.Ring.{Ring, Taken, ring_empty, ring_free}
use mqcpn.Reorder.Flow.Sound.{Sound, drain_one-Sound, drain_contiguous_lem}
use mqcpn.Reorder.Flow.Skip.{moved-Sound, lowest_of, lowest-ge, jump-clear}
use mqcpn.Reorder.Flow.Gap.{count-pos, Alike, Alike-Sound}
use mqcpn.Reorder.Flow.{
  Work, on_flow, on_stats, jump, deliver_pkt, drain_one, drain_rounds, drain_contiguous,
  skip_to_lowest_and_drain, flush_rounds, overflow_flush, overflow_end, on_gap_timeout, timeout_end,
  stop_gap_timer, arm_gap_timer, flush_buffer_for_demote,
}

-- Deliveries, the last one first, with increasing sequence numbers that are all below a bound.
pub data Sent (content : ℕ → List ℕ) (before : List (List ℕ)) : ℕ → List (List ℕ) → Type 0 where
  start : (e : ℕ) → Sent content before e before
  next :
      (e s e' : ℕ) (out : List (List ℕ))
      → Sent content before e out
      → e ≤ s
      → s < e'
      → Sent content before e' (content s ∷ out)

pub record Ordered (content : ℕ → List ℕ) (before : List (List ℕ)) (w : Work) : Type 0 where
  pub matches : (s : ℕ) (t : Taken) → look w.flow.buffer s ≡ some t → t.pkt ≡ content s
  pub sent : Sent content before w.flow.expected w.out

widen :
    (content : ℕ → List ℕ) (before : List (List ℕ)) (e e' : ℕ) (out : List (List ℕ))
    → Sent content before e out
    → e ≤ e'
    → Sent content before e' out
widen content before e e' out (Sent.start _) le = Sent.start e'
widen content before e e' out (Sent.next d s _ out' sent lo hi) le =
    Sent.next d s e' out' sent lo (omega arith)

module _ (content : ℕ → List ℕ) (before : List (List ℕ)) where
  -- The numbering may move on.
  pub moved-Ordered :
      (m : ℕ) (w : Work)
      → Ordered content before w
      → w.flow.expected ≤ m
      → Ordered content before (on_flow (λ f. record f { expected = m }) w)
  moved-Ordered m w o le = record {
    matches = o.matches;
    sent = widen content before w.flow.expected m w.out o.sent le;
  }

  drain_one-Ordered :
      (now : ℕ) (t : Taken) (q : Ring) (w : Work)
      → Ordered content before w
      → look w.flow.buffer w.flow.expected ≡ some t
      → Removed w.flow.expected w.flow.buffer w.flow.expected t q
      → Ordered content before (drain_one now t q w)
  unfolding deliver_pkt
  drain_one-Ordered now t q w o is m =
      let e = w.flow.expected in
      record {
        matches = λ s u there. o.matches s u (ground (arith, m.view s));
        sent =
            subst (λ p. Sent content before (e + 1) (p ∷ w.out)) (sym (o.matches e t is))
              (Sent.next e e (e + 1) w.out o.sent (omega arith) (omega arith));
      }

  drain_rounds-Ordered :
      (rounds others now : ℕ) (w : Work)
      → Sound others w
      → Ordered content before w
      → Ordered content before (drain_rounds rounds now w)
  unfolding drain_rounds
  drain_rounds-Ordered zero others now w v o = o
  drain_rounds-Ordered (suc rounds) others now w v o =
      let e = w.flow.expected in
      let r = w.flow.buffer in
      elim (Option-cases (look r e)) [
        | inl is ↦ rw (ring_remove-none r e is, drain_rounds) o
        | inr (t, is) ↦
            let (q, m) = ring_remove-some e r e t v.ring is in
            rw (m.call, drain_rounds)
              (drain_rounds-Ordered rounds others now (drain_one now t q w)
                (drain_one-Sound others now t q w v m) (drain_one-Ordered now t q w o is m))
      ]

  pub drain_contiguous-Ordered :
      (others now : ℕ) (w : Work)
      → Sound others w
      → Ordered content before w
      → Ordered content before (drain_contiguous now w)
  unfolding drain_contiguous
  drain_contiguous-Ordered others now w v o =
      drain_rounds-Ordered w.flow.buffer.count others now w v o

  pub skip-Ordered :
      (others now : ℕ) (w : Work)
      → Sound others w
      → Ordered content before w
      → Ordered content before (skip_to_lowest_and_drain now w)
  unfolding skip_to_lowest_and_drain
  skip-Ordered others now w v o =
      let m = (jump (lowest_of w) w.flow).expected in
      let le : w.flow.expected ≤ m = ground arith in
      let p =
        drain_contiguous-Ordered others now (on_flow (jump (lowest_of w)) w)
          (moved-Sound others m w v le (jump-clear others w v)) (moved-Ordered m w o le) in
      record { matches = p.matches; sent = p.sent }

  -- Only the buffer, the numbering and the deliveries matter.
  pub Alike-Ordered :
      (u w : Work) → Alike u w → w.out ≡ u.out → Ordered content before u → Ordered content before w
  Alike-Ordered u w a same o = record {
    matches = rw a.buffer o.matches;
    sent = rw (a.expected, same) o.sent;
  }

  pub overflow_flush-Ordered :
      (others now : ℕ) (w : Work)
      → Sound others w
      → Ordered content before w
      → Ordered content before (overflow_flush now w)
  unfolding overflow_flush overflow_end stop_gap_timer
  overflow_flush-Ordered others now w v o =
      let w1 = skip_to_lowest_and_drain now w in
      let p = skip-Ordered others now w v o in
      if-both (Ordered content before) (ring_empty w1.flow.buffer)
        (if-both (λ u. Ordered content before (on_flow stop_gap_timer u)) w.flow.gap_timer_active
          (record { matches = p.matches; sent = p.sent })
          (record { matches = p.matches; sent = p.sent }))
        p

  -- In a state with a sound buffer, what `on_gap_timeout` delivers continues the increasing order
  -- of the deliveries, and the packets still buffered keep their numbers.
  pub on_gap_timeout-Ordered :
      (others now : ℕ) (w : Work)
      → Sound others w
      → Ordered content before w
      → Ordered content before (on_gap_timeout now w)
  unfolding on_gap_timeout timeout_end stop_gap_timer arm_gap_timer
  on_gap_timeout-Ordered others now w v o =
      let counted = on_stats (λ st. record st { gap_timeout_count = st.gap_timeout_count + 1 }) w in
      let w1 = skip_to_lowest_and_drain now counted in
      let a : Alike w counted = record {
        cfg = refl;
        pool = refl;
        expected = refl;
        buffer = refl;
        initialized = refl;
      } in
      let p =
        skip-Ordered others now counted (Alike-Sound others w counted a v)
          (record { matches = o.matches; sent = o.sent }) in
      if-both (Ordered content before) (ring_empty w.flow.buffer)
        (record { matches = o.matches; sent = o.sent })
        (if-both (Ordered content before) (ring_empty w1.flow.buffer)
          (record { matches = p.matches; sent = p.sent })
          (record { matches = p.matches; sent = p.sent }))

  flush_rounds-Ordered :
      (rounds others now : ℕ) (w : Work)
      → Sound others w
      → Ordered content before w
      → Ordered content before (flush_rounds rounds now w)
  unfolding flush_rounds
  flush_rounds-Ordered zero others now w v o = o
  flush_rounds-Ordered (suc rounds) others now w v o =
      elim (Bool-cases (ring_empty w.flow.buffer)) [
        | inl empty ↦ rw (empty, flush_rounds) o
        | inr more ↦
            let pos = count-pos w.flow.buffer more in
            let m = lowest_of w in
            let clear = (ring_lowest_seq_lem w.flow.expected w.flow.buffer v.ring pos).1 in
            let ge = lowest-ge others w v pos in
            let w1 = on_flow (λ f. record f { expected = m }) w in
            let v1 = moved-Sound others m w v ge clear in
            let d = drain_contiguous_lem others now w1 v1 in
            rw (more, flush_rounds)
              (flush_rounds-Ordered rounds others now (drain_contiguous now w1) d.sound
                (drain_contiguous-Ordered others now w1 v1 (moved-Ordered m w o ge)))
      ]

  pub flush_for_demote-Ordered :
      (others now : ℕ) (w : Work)
      → Sound others w
      → Ordered content before w
      → Ordered content before (flush_buffer_for_demote now w)
  unfolding flush_buffer_for_demote stop_gap_timer ring_free look
  flush_for_demote-Ordered others now w v o =
      let charge = if w.flow.gap_timer_active then 1 else 0 in
      let w1 = on_stats (λ st. record st { gap_demote_count = st.gap_demote_count + charge }) w in
      let a : Alike w w1 = record {
        cfg = refl;
        pool = refl;
        expected = refl;
        buffer = refl;
        initialized = refl;
      } in
      let p =
        flush_rounds-Ordered w.flow.buffer.count others now w1 (Alike-Sound others w w1 a v)
          (record { matches = o.matches; sent = o.sent }) in
      record { matches = λ s t there. cc; sent = p.sent }
