-- ===== src/Reorder/Receiver/Sweep.antt =====
-- `sweep_buckets` of the receiver's tick as a filter of every bucket.
use mqcpn.Prelude.{
  ℕ, zero, suc, ◌+◌, ◌-◌, ◌≡◌, refl, ap, sym, ◌∙◌, Bool, true, false, List, [], ◌∷◌, leb, ltb, ◌==◌,
  if◌then◌else◌, arith, Bool-cases, inl, inr,
}
use mqcpn.Reorder.Flow.{Flow}
use mqcpn.Reorder.Receiver.{Rx, is_idle, flow_destroy, sweep_chain, sweep_buckets}

-- The flow made progress within the time-out.
abbrev pub is_awake : ℕ → ℕ → Flow → Bool
is_awake now idle_us f = leb now (f.last_progress_us + idle_us)

-- The flows of a chain that are awake, in their order.
abbrev pub awake_of : ℕ → ℕ → List Flow → List Flow
awake_of now idle_us [] = []
awake_of now idle_us (f ∷ fs) =
    if is_awake now idle_us f then f ∷ awake_of now idle_us fs else awake_of now idle_us fs

is_idle-awake :
    (now idle_us : ℕ) (f : Flow) (here rest : List Flow)
    → (if is_idle now idle_us f then rest else here)
      ≡ (if is_awake now idle_us f then here else rest)
is_idle-awake now idle_us f here rest = ground arith

-- The table that the sweep of a chain leaves alone.
pub record SameTable (rx rx' : Rx) : Type 0 where
  pub buckets : rx'.buckets ≡ rx.buckets
  pub n_buckets : rx'.n_buckets ≡ rx.n_buckets

pub sweep_chain-awake :
    (now idle_us : ℕ) (fs : List Flow) (rx : Rx)
    → let r = sweep_chain now idle_us fs rx in (r.0 ≡ awake_of now idle_us fs) × SameTable rx r.1
unfolding sweep_chain flow_destroy
sweep_chain-awake now idle_us [] rx = (refl, record { buckets = refl; n_buckets = refl })
sweep_chain-awake now idle_us (f ∷ fs) rx = elim (Bool-cases (is_idle now idle_us f)) [
  | inl idle ↦
      let gone = flow_destroy f rx in
      let (kept, t) =
        sweep_chain-awake now idle_us fs (record gone { n_flows = gone.n_flows - 1 }) in
      let asleep : is_awake now idle_us f ≡ false = ground (arith, idle) in
      rw (idle, asleep) (kept, record { buckets = t.buckets; n_buckets = t.n_buckets })
  | inr busy ↦
      let (kept, t) = sweep_chain-awake now idle_us fs rx in
      let awake : is_awake now idle_us f ≡ true = ground (arith, busy) in
      rw (busy, awake)
        (
          ap (λ (rest : List Flow). f ∷ rest) kept,
          record { buckets = t.buckets; n_buckets = t.n_buckets },
        )
]

pub sweep_buckets-table :
    (now idle_us n : ℕ) (rx : Rx) → (sweep_buckets now idle_us n rx).n_buckets ≡ rx.n_buckets
unfolding sweep_buckets
sweep_buckets-table now idle_us zero rx = refl
sweep_buckets-table now idle_us (suc n) rx =
    let rx1 = sweep_buckets now idle_us n rx in
    let (_, t) = sweep_chain-awake now idle_us (rx1.buckets n) rx1 in
    t.n_buckets ∙ sweep_buckets-table now idle_us n rx

-- The first `n` buckets are swept, the others stand.
pub sweep_buckets-awake :
    (now idle_us n b : ℕ) (rx : Rx)
    → (sweep_buckets now idle_us n rx).buckets b
      ≡ (if ltb b n then awake_of now idle_us (rx.buckets b) else rx.buckets b)
unfolding sweep_buckets
sweep_buckets-awake now idle_us zero b rx = ground arith
sweep_buckets-awake now idle_us (suc n) b rx =
    let rx1 = sweep_buckets now idle_us n rx in
    let before = sweep_buckets-awake now idle_us n b rx in
    let (kept, t) = sweep_chain-awake now idle_us (rx1.buckets n) rx1 in
    let same = ap (λ (bs : ℕ → List Flow). bs b) t.buckets in
    elim (Bool-cases (b == n)) [
      | inl here ↦
          let is : b ≡ n = ground (arith, here) in
          let within : ltb b (suc n) ≡ true = ground (arith, here) in
          let beyond : ltb b n ≡ false = ground (arith, here) in
          let untouched : rx1.buckets b ≡ rx.buckets b = before ∙ rw beyond refl in
          rw (here, within)
            (kept
              ∙ ap (λ (c : ℕ). awake_of now idle_us (rx1.buckets c)) (sym is)
              ∙ ap (awake_of now idle_us) untouched)
      | inr elsewhere ↦
          let same_side : ltb b (suc n) ≡ ltb b n = ground (arith, elsewhere) in
          rw (elsewhere, same_side) (same ∙ before)
    ]
