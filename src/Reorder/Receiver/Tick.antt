-- ===== src/Reorder/Receiver/Tick.antt =====
-- The tick: timeouts of every flow, and the sweep that takes the idle ones out.
use mqcpn.Prelude.{
  ltb, if◌then◌else◌, ◌==◌, if-cases, ℕ, zero, suc, ◌+◌, ◌-◌, ◌*◌, ◌≡◌, ◌≤◌, ◌<◌, ◌&&◌, refl, ap,
  sym, subst, ◌∙◌, List, [], ◌∷◌, arith, leb, Bool-cases, if-both, inl, inr,
}
use mqcpn.Reorder.Config.{Config}
use mqcpn.Reorder.Flow.{Flow, Work}
use mqcpn.Reorder.Flow.Sound.{ended}
use mqcpn.Reorder.Flow.Gap.{Good}
use mqcpn.Reorder.Receive.Kept.{on_gap_timeout-Kept}
use mqcpn.Reorder.Life.{tick_flow, tick_flow-Good}
use mqcpn.Reorder.Buckets.{
  replace, chain_total, Each, EachBelow, chain_total-le, EachBelow-at, EachBelow-replace,
}
use mqcpn.Reorder.Receiver.{
  Rx, work_on, flow_destroy, is_idle, tick_chain, tick_buckets, sweep_chain, sweep_buckets, rx_tick,
}
use mqcpn.Reorder.Receiver.Tidy.{
  Healthy, Healthy-Good, Good-Healthy, Tidy, Exchange, Exchange-Tidy, bytes_of, one,
}
use mqcpn.Reorder.Receiver.Sweep.{awake_of, sweep_buckets-awake}
use mqcpn.Reorder.Receiver.Evict.{flow_destroy-pool, flow_destroy-books}

-- A pass over one chain, `rest` being the pool's share of the other chains and `others` their flows.
record Passed (rest others : ℕ) (rx : Rx) (chain' : List Flow) (rx' : Rx) : Type 0 where
  cfg : rx'.cfg ≡ rx.cfg
  n_buckets : rx'.n_buckets ≡ rx.n_buckets
  buckets : rx'.buckets ≡ rx.buckets
  pool_is : rx'.pool_bytes_used ≡ rest + chain_total bytes_of chain'
  pool_le : rx'.pool_bytes_used ≤ rx.cfg.global_max_buffer_bytes
  flows_is : rx'.n_flows ≡ others + chain_total one chain'
  flows_le : rx'.n_flows ≤ rx.n_flows
  each : Each Healthy chain'
  books : ended rx'.evicted_stats ≤ rx'.evicted_stats.gap_count

-- After a pass, the new chain stands in the table.
Passed-Tidy :
    (rx rx' : Rx) (b : ℕ) (chain' : List Flow)
    → Tidy rx
    → b < rx.n_buckets
    → Passed
        (rx.pool_bytes_used - chain_total bytes_of (rx.buckets b))
        (rx.n_flows - chain_total one (rx.buckets b))
        rx
        chain'
        rx'
    → Tidy (record rx' { buckets = replace rx'.buckets b chain' })
Passed-Tidy rx rx' b chain' t within p =
    let bytes = chain_total-le bytes_of rx.buckets b rx.n_buckets within in
    let flows = chain_total-le one rx.buckets b rx.n_buckets within in
    let x : Exchange rx (record rx' { buckets = replace rx'.buckets b chain' }) b chain' = record {
      cfg = p.cfg;
      n_buckets = p.n_buckets;
      buckets = ap (λ (bs : ℕ → List Flow). replace bs b chain') p.buckets;
      within = within;
      pool = omega (arith, p.pool_is, bytes, t.pool_is);
      pool_le = p.pool_le;
      flows = omega (arith, p.flows_is, flows, t.flows_is);
      flows_le = λ limit. omega (arith, p.flows_le, t.flows_le limit);
      books = p.books;
    } in
    Exchange-Tidy x t p.each

tick_flow-Kept : (cfg : Config) (now : ℕ) (w : Work) → w.cfg ≡ cfg → (tick_flow now w).cfg ≡ cfg
unfolding tick_flow
tick_flow-Kept cfg now w is =
    if-both (λ (v : Work). v.cfg ≡ cfg) (w.flow.gap_timer_active && leb w.flow.gap_deadline_us now)
      (on_gap_timeout-Kept cfg w.flow.key now w (is, refl)).0 is

-- What a pass starts from.
record Ahead (rest others : ℕ) (fs : List Flow) (rx : Rx) : Type 0 where
  room : rx.cfg.global_max_buffer_bytes + 65536 ≤ 18446744073709551616
  pool_is : rx.pool_bytes_used ≡ rest + chain_total bytes_of fs
  pool_le : rx.pool_bytes_used ≤ rx.cfg.global_max_buffer_bytes
  flows_is : rx.n_flows ≡ others + chain_total one fs
  each : Each Healthy fs
  books : ended rx.evicted_stats ≤ rx.evicted_stats.gap_count

tick_chain_lem :
    (now rest others : ℕ) (fs : List Flow) (rx : Rx)
    → Ahead rest others fs rx
    → let r = tick_chain now fs rx in Passed rest others rx r.0 r.1
unfolding tick_chain
tick_chain_lem now rest others [] rx a = record {
  cfg = refl;
  n_buckets = refl;
  buckets = refl;
  pool_is = a.pool_is;
  pool_le = a.pool_le;
  flows_is = a.flows_is;
  flows_le = omega arith;
  each = tt;
  books = a.books;
}
tick_chain_lem now rest others (f ∷ fs) rx a =
    let (h, each) = a.each in
    let w = tick_flow now (work_on rx f) in
    let beside = rest + chain_total bytes_of fs in
    let before : Good beside (work_on rx f) =
      Healthy-Good beside (work_on rx f) h a.room (omega (arith, a.pool_is)) a.pool_le in
    let g = tick_flow-Good beside now (work_on rx f) before in
    let kept : w.cfg.global_max_buffer_bytes ≡ rx.cfg.global_max_buffer_bytes =
      ap (λ (c : Config). c.global_max_buffer_bytes)
        (tick_flow-Kept rx.cfg now (work_on rx f) refl) in
    let rx1 = record rx { pool_bytes_used = w.pool_bytes_used; out = w.out } in
    let p = tick_chain_lem now (rest + bytes_of w.flow) (others + 1) fs rx1 (record {
      room = a.room;
      pool_is = omega (arith, g.sound.pool_is);
      pool_le = omega (arith, g.sound.pool_le, kept);
      flows_is = omega (arith, a.flows_is);
      each = each;
      books = a.books;
    }) in
    record {
      cfg = p.cfg;
      n_buckets = p.n_buckets;
      buckets = p.buckets;
      pool_is = omega (arith, p.pool_is);
      pool_le = p.pool_le;
      flows_is = omega (arith, p.flows_is);
      flows_le = p.flows_le;
      each = (Good-Healthy beside w g, p.each);
      books = p.books;
    }

-- A chain of a tidy table is ready for a pass.
Tidy-Ahead :
    (rx : Rx) (b : ℕ)
    → Tidy rx
    → b < rx.n_buckets
    → Ahead
        (rx.pool_bytes_used - chain_total bytes_of (rx.buckets b))
        (rx.n_flows - chain_total one (rx.buckets b))
        (rx.buckets b)
        rx
Tidy-Ahead rx b t within =
    let bytes = chain_total-le bytes_of rx.buckets b rx.n_buckets within in
    let flows = chain_total-le one rx.buckets b rx.n_buckets within in
    record {
      room = t.room;
      pool_is = omega (arith, bytes, t.pool_is);
      pool_le = t.pool_le;
      flows_is = omega (arith, flows, t.flows_is);
      each = EachBelow-at Healthy rx.buckets b rx.n_buckets within t.healthy;
      books = t.books;
    }

-- A tidy receiver with the configuration and the number of buckets of another.
record TidyAs (rx rx' : Rx) : Type 0 where
  tidy : Tidy rx'
  cfg : rx'.cfg ≡ rx.cfg
  n_buckets : rx'.n_buckets ≡ rx.n_buckets

tick_buckets_lem :
    (now n : ℕ) (rx : Rx) → Tidy rx → n ≤ rx.n_buckets → TidyAs rx (tick_buckets now n rx)
unfolding tick_buckets
tick_buckets_lem now zero rx t le = record { tidy = t; cfg = refl; n_buckets = refl }
tick_buckets_lem now (suc n) rx t le =
    let rx1 = tick_buckets now n rx in
    let a = tick_buckets_lem now n rx t (omega arith) in
    let within : n < rx1.n_buckets = omega (arith, a.n_buckets) in
    let r = tick_chain now (rx1.buckets n) rx1 in
    let rest = rx1.pool_bytes_used - chain_total bytes_of (rx1.buckets n) in
    let others = rx1.n_flows - chain_total one (rx1.buckets n) in
    let p = tick_chain_lem now rest others (rx1.buckets n) rx1 (Tidy-Ahead rx1 n a.tidy within) in
    record {
      tidy = Passed-Tidy rx1 r.1 n r.0 a.tidy within p;
      cfg = p.cfg ∙ a.cfg;
      n_buckets = p.n_buckets ∙ a.n_buckets;
    }

-- The receiver without one idle flow.
abbrev without : Flow → Rx → Rx
without f rx = let gone = flow_destroy f rx in record gone { n_flows = gone.n_flows - 1 }

-- A flow that made progress within the time-out.
abbrev pub Awake : ℕ → ℕ → Flow → Type 0
Awake now idle_us f = now ≤ f.last_progress_us + idle_us

-- The sweep of one chain: a pass that leaves no idle flow.
abbrev Swept : ℕ → ℕ → ℕ → ℕ → Rx → List Flow × Rx → Type 0
Swept now idle_us rest others rx r = Passed rest others rx r.0 r.1 × Each (Awake now idle_us) r.0

sweep_chain_lem :
    (now idle_us rest others : ℕ) (fs : List Flow) (rx : Rx)
    → Ahead rest others fs rx
    → let r = sweep_chain now idle_us fs rx in
      Passed rest others rx r.0 r.1 × Each (Awake now idle_us) r.0
unfolding sweep_chain flow_destroy
sweep_chain_lem now idle_us rest others [] rx a = (
  record {
    cfg = refl;
    n_buckets = refl;
    buckets = refl;
    pool_is = a.pool_is;
    pool_le = a.pool_le;
    flows_is = a.flows_is;
    flows_le = omega arith;
    each = tt;
    books = a.books;
  },
  tt,
)
sweep_chain_lem now idle_us rest others (f ∷ fs) rx a = elim (Bool-cases (is_idle now idle_us f)) [
  | inl idle ↦
      let rx1 = without f rx in
      let beside = rest + chain_total bytes_of fs in
      let pool = flow_destroy-pool beside f rx a.each.0 (omega (arith, a.pool_is)) in
      let (p, awake) = sweep_chain_lem now idle_us rest others fs rx1 (record {
        room = a.room;
        pool_is = pool;
        pool_le = omega (arith, pool, a.pool_is, a.pool_le);
        flows_is = omega (arith, a.flows_is);
        each = a.each.1;
        books = flow_destroy-books f rx a.each.0 a.books;
      }) in
      let is : sweep_chain now idle_us (f ∷ fs) rx ≡ sweep_chain now idle_us fs rx1 =
        ground (arith, idle) in
      subst (Swept now idle_us rest others rx) (sym is) (
        record {
          cfg = p.cfg;
          n_buckets = p.n_buckets;
          buckets = p.buckets;
          pool_is = p.pool_is;
          pool_le = p.pool_le;
          flows_is = p.flows_is;
          flows_le = omega (arith, p.flows_le);
          each = p.each;
          books = p.books;
        },
        awake,
      )
  | inr awake ↦
      let rest_of = sweep_chain now idle_us fs rx in
      let (p, others_awake) =
        sweep_chain_lem now idle_us (rest + bytes_of f) (others + 1) fs rx (record {
          room = a.room;
          pool_is = omega (arith, a.pool_is);
          pool_le = a.pool_le;
          flows_is = omega (arith, a.flows_is);
          each = a.each.1;
          books = a.books;
        }) in
      let is : sweep_chain now idle_us (f ∷ fs) rx ≡ (f ∷ rest_of.0, rest_of.1) =
        ground (arith, awake) in
      subst (Swept now idle_us rest others rx) (sym is) (
        record {
          cfg = p.cfg;
          n_buckets = p.n_buckets;
          buckets = p.buckets;
          pool_is = omega (arith, p.pool_is);
          pool_le = p.pool_le;
          flows_is = omega (arith, p.flows_is);
          flows_le = p.flows_le;
          each = (a.each.0, p.each);
          books = p.books;
        },
        (ground (arith, awake), others_awake),
      )
]

sweep_buckets_lem :
    (now idle_us n : ℕ) (rx : Rx)
    → Tidy rx
    → n ≤ rx.n_buckets
    → TidyAs rx (sweep_buckets now idle_us n rx)
      × EachBelow (Awake now idle_us) (sweep_buckets now idle_us n rx).buckets n
unfolding sweep_buckets
sweep_buckets_lem now idle_us zero rx t le = (record { tidy = t; cfg = refl; n_buckets = refl }, tt)
sweep_buckets_lem now idle_us (suc n) rx t le =
    let rx1 = sweep_buckets now idle_us n rx in
    let (a, awake) = sweep_buckets_lem now idle_us n rx t (omega arith) in
    let within : n < rx1.n_buckets = omega (arith, a.n_buckets) in
    let r = sweep_chain now idle_us (rx1.buckets n) rx1 in
    let rest = rx1.pool_bytes_used - chain_total bytes_of (rx1.buckets n) in
    let others = rx1.n_flows - chain_total one (rx1.buckets n) in
    let (p, swept) =
      sweep_chain_lem now idle_us rest others (rx1.buckets n) rx1
        (Tidy-Ahead rx1 n a.tidy within) in
    (
      record {
        tidy = Passed-Tidy rx1 r.1 n r.0 a.tidy within p;
        cfg = p.cfg ∙ a.cfg;
        n_buckets = p.n_buckets ∙ a.n_buckets;
      },
      (
        EachBelow-replace (Awake now idle_us) r.1.buckets n r.0 n
            (subst (λ (bs : ℕ → List Flow). EachBelow (Awake now idle_us) bs n) (sym p.buckets)
              awake)
            swept,
        if-cases (Each (Awake now idle_us)) (n == n) (λ _. swept)
            (λ differs. absurd (ground (arith, differs))),
      ),
    )

-- A tick keeps the receiver's invariant and its configuration. The sweep at its end takes out of every bucket the
-- flows that made their last progress longer ago than the ingress idle time-out, and no others: what is left is the
-- other flows of the bucket as the timeouts left them, in their order, and none of them is idle.
pub rx_tick_lem :
    (now : ℕ) (rx : Rx)
    → Tidy rx
    → let rx' = rx_tick now rx in
      let idle_us = rx.cfg.ingress_idle_timeout_sec * 1000000 in
      Tidy rx'
      × (rx'.cfg ≡ rx.cfg)
      × EachBelow (Awake now idle_us) rx'.buckets rx'.n_buckets
      × ((b : ℕ)
          → let fired = (tick_buckets now rx.n_buckets rx).buckets b in
            rx'.buckets b ≡ (if ltb b rx.n_buckets then awake_of now idle_us fired else fired))
unfolding rx_tick
rx_tick_lem now rx t =
    let fired = tick_buckets now rx.n_buckets rx in
    let idle_us = rx.cfg.ingress_idle_timeout_sec * 1000000 in
    let a = tick_buckets_lem now rx.n_buckets rx t (omega arith) in
    let (b, awake) =
      sweep_buckets_lem now idle_us rx.n_buckets fired a.tidy (omega (arith, a.n_buckets)) in
    let swept = sweep_buckets now idle_us rx.n_buckets fired in
    (
      b.tidy,
      b.cfg ∙ a.cfg,
      subst (EachBelow (Awake now idle_us) swept.buckets) (sym (b.n_buckets ∙ a.n_buckets)) awake,
      λ c. sweep_buckets-awake now idle_us rx.n_buckets c fired,
    )
