-- ===== src/Reorder/Receiver/Evict.antt =====
-- Eviction: which flow goes, and that the books of the receiver follow.
use mqcpn.Prelude.{
  Bool, ℕ, zero, suc, ◌+◌, ◌-◌, ◌≡◌, ◌≤◌, ◌<◌, ◌⊎◌, refl, ap, sym, subst, Option, some, none, List,
  [], ◌∷◌, arith, leb, if◌then◌else◌, Bool-cases, Option-cases, inl, inr,
}
use mqcpn.Reorder.Flow.{Flow}
use mqcpn.Reorder.Flow.Sound.{ended}
use mqcpn.Reorder.Flow.Discard.{discard_all_lem}
use mqcpn.Reorder.Buckets.{
  replace, unlink, entry, table_total, chain_total, Each, EachBelow, chain_total-unlink,
  chain_total-le, Each-unlink, Each-entry, EachBelow-at, EachBelow-map,
}
use mqcpn.Reorder.Receiver.{
  Rx, Oldest, lru_chain, lru_buckets, stats_accumulate, flow_destroy, evict_lru_flow,
}
use mqcpn.Reorder.Receiver.Tidy.{Healthy, Tidy, Exchange, Exchange-Tidy, bytes_of, one}

-- Every flow made its last progress no earlier than the one that was found.
abbrev NoEarlier : Oldest → Flow → Type 0
NoEarlier o f = o.flow.last_progress_us ≤ f.last_progress_us

abbrev Before : Option Oldest → Oldest → Type 0
Before none o = Unit {0}
Before (some v) o = o.flow.last_progress_us ≤ v.flow.last_progress_us

-- The scan of a chain: where it ends up, and that nothing earlier was passed over.
record Scanned (b place : ℕ) (fs : List Flow) (best : Option Oldest) (o : Oldest) : Type 0 where
  found :
      (best ≡ some o)
      ⊎ ((i : ℕ) × (entry fs i ≡ some o.flow) × (o.bucket ≡ b) × (o.place ≡ place + i))
  least : Each (NoEarlier o) fs
  before : Before best o

abbrev found_here : ℕ → ℕ → Flow → Oldest
found_here b place f = record { bucket = b; place = place; flow = f }

-- The rest of the chain after a flow that was taken.
Scanned-taken :
    (b place : ℕ) (f : Flow) (fs : List Flow) (best : Option Oldest) (o : Oldest)
    → (o.flow.last_progress_us ≤ f.last_progress_us → Before best o)
    → Scanned b (place + 1) fs (some (found_here b place f)) o
    → Scanned b place (f ∷ fs) best o
Scanned-taken b place f fs best o earlier s = record {
  found = elim s.found [
    | inl is ↦ inr (
      0,
      ap (λ (v : Option Oldest). flow_of v) is,
      ap (λ (v : Option Oldest). bucket_of v) (sym is),
      omega (arith, ap (λ (v : Option Oldest). place_of v) is),
    )
    | inr (i, at, bucket, there) ↦ inr (suc i, at, bucket, omega (arith, there))
  ];
  least = (s.before, s.least);
  before = earlier s.before;
}
  where
    flow_of : Option Oldest → Option Flow
    flow_of none = none
    flow_of (some v) = some v.flow

    bucket_of : Option Oldest → ℕ
    bucket_of none = b
    bucket_of (some v) = v.bucket

    place_of : Option Oldest → ℕ
    place_of none = place
    place_of (some v) = v.place

lru_chain_lem :
    (b place : ℕ) (fs : List Flow) (best : Option Oldest) (o : Oldest)
    → lru_chain b place fs best ≡ some o
    → Scanned b place fs best o
unfolding lru_chain
lru_chain_lem b place [] none o h = cc
lru_chain_lem b place [] (some v) o h =
    let is : v ≡ o = cc in
    record {
      found = inl h;
      least = tt;
      before = omega (arith, ap (λ (u : Oldest). u.flow.last_progress_us) is);
    }
lru_chain_lem b place (f ∷ fs) none o h =
    let taken = lru_chain_lem b (place + 1) fs (some (found_here b place f)) o h in
    Scanned-taken b place f fs none o (λ _. tt) taken
lru_chain_lem b place (f ∷ fs) (some v) o h =
    let here = found_here b place f in
    let rest =
      λ (c : Bool). lru_chain b (place + 1) fs (if c then some here else some v) ≡ some o in
    elim (Bool-cases (leb f.last_progress_us v.flow.last_progress_us)) [
      | inl older ↦
          let taken = lru_chain_lem b (place + 1) fs (some here) o (subst rest older h) in
          let le : f.last_progress_us ≤ v.flow.last_progress_us = ground (arith, older) in
          Scanned-taken b place f fs (some v) o (λ below. omega (arith, below, le)) taken
      | inr newer ↦
          let s = lru_chain_lem b (place + 1) fs (some v) o (subst rest newer h) in
          let lt : v.flow.last_progress_us < f.last_progress_us = ground (arith, newer) in
          record {
            found = elim s.found [
              | inl is ↦ inl is
              | inr (i, at, bucket, there) ↦ inr (suc i, at, bucket, omega (arith, there))
            ];
            least = (omega (arith, s.before, lt), s.least);
            before = s.before;
          }
    ]

-- What the scan of the table finds.
pub record Victim (n : ℕ) (buckets : ℕ → List Flow) (o : Oldest) : Type 0 where
  pub within : o.bucket < n
  pub at : entry (buckets o.bucket) o.place ≡ some o.flow
  pub least : EachBelow (NoEarlier o) buckets n

-- A scan that finds nothing went over no flow.
abbrev Nowhere : Flow → Type 0
Nowhere f = 1 ≤ 0

lru_chain-none :
    (b place : ℕ) (fs : List Flow) (best : Option Oldest)
    → lru_chain b place fs best ≡ none
    → (best ≡ none) × Each Nowhere fs
unfolding lru_chain
lru_chain-none b place [] best h = (h, tt)
lru_chain-none b place (f ∷ fs) none h =
    absurd (ground (arith, (lru_chain-none b (place + 1) fs (some (found_here b place f)) h).0))
lru_chain-none b place (f ∷ fs) (some v) h =
    let older = leb f.last_progress_us v.flow.last_progress_us in
    let next = if older then some (found_here b place f) else some v in
    absurd (ground (arith, (lru_chain-none b (place + 1) fs next h).0))

lru_buckets-none :
    (n : ℕ) (buckets : ℕ → List Flow) → lru_buckets n buckets ≡ none → EachBelow Nowhere buckets n
unfolding lru_buckets
lru_buckets-none zero buckets h = tt
lru_buckets-none (suc n) buckets h =
    let (before, last) = lru_chain-none n 0 (buckets n) (lru_buckets n buckets) h in
    (lru_buckets-none n buckets before, last)

pub lru_buckets_lem :
    (n : ℕ) (buckets : ℕ → List Flow) (o : Oldest)
    → lru_buckets n buckets ≡ some o
    → Victim n buckets o
unfolding lru_buckets
lru_buckets_lem zero buckets o h = cc
lru_buckets_lem (suc n) buckets o h =
    let s = lru_chain_lem n 0 (buckets n) (lru_buckets n buckets) o h in
    let earlier : EachBelow (NoEarlier o) buckets n = elim (Option-cases (lru_buckets n buckets)) [
      | inl nobody ↦
          EachBelow-map Nowhere (NoEarlier o) (λ f none_such. absurd (omega arith)) buckets n
            (lru_buckets-none n buckets nobody)
      | inr (v, is) ↦
          let le : o.flow.last_progress_us ≤ v.flow.last_progress_us =
            subst (λ (best : Option Oldest). Before best o) is s.before in
          EachBelow-map (NoEarlier v) (NoEarlier o) (λ f no_earlier. omega (arith, le)) buckets n
            (lru_buckets_lem n buckets v is).least
    ] in
    elim s.found [
      | inl is ↦
          let v = lru_buckets_lem n buckets o is in
          record { within = omega (arith, v.within); at = v.at; least = (earlier, s.least) }
      | inr (i, at, bucket, place) ↦
          let index : o.place ≡ i = omega (arith, place) in
          record {
            within = omega (arith, bucket);
            at = rw (bucket, index) at;
            least = (earlier, s.least);
          }
    ]

-- A flow that leaves its chain: the pool gets its bytes back.
pub flow_destroy-pool :
    (others : ℕ) (f : Flow) (rx : Rx)
    → Healthy f
    → rx.pool_bytes_used ≡ others + bytes_of f
    → (flow_destroy f rx).pool_bytes_used ≡ others
unfolding flow_destroy
flow_destroy-pool others f rx h share =
    (discard_all_lem f.expected others rx.pool_bytes_used f.buffer h.ring share).0

-- The periods that a flow had ended or left open are counted in the lifetime totals.
pub flow_destroy-books :
    (f : Flow) (rx : Rx)
    → Healthy f
    → ended rx.evicted_stats ≤ rx.evicted_stats.gap_count
    → let st = (flow_destroy f rx).evicted_stats in ended st ≤ st.gap_count
unfolding flow_destroy stats_accumulate
flow_destroy-books f rx h books = omega (arith, h.identity)

no_flows :
    (buckets : ℕ → List Flow) (n : ℕ) → EachBelow Nowhere buckets n → table_total one buckets n ≡ 0
no_flows buckets zero e = refl
no_flows buckets (suc n) (e, last) = omega (arith, no_flows buckets n e, none_in (buckets n) last)
  where
    none_in : (fs : List Flow) → Each Nowhere fs → chain_total one fs ≡ 0
    none_in [] e = refl
    none_in (f ∷ fs) (p, e) = absurd (omega arith)

-- The receiver without the flow that was found.
abbrev evicted : Rx → Oldest → Rx
evicted rx o =
    let unlinked = record rx {
      buckets = replace rx.buckets o.bucket (unlink (rx.buckets o.bucket) o.place);
    } in
    let destroyed = flow_destroy o.flow unlinked in
    record destroyed { n_flows = destroyed.n_flows - 1 }

module _ (rx : Rx) (t : Tidy rx) (o : Oldest) (v : Victim rx.n_buckets rx.buckets o) where
  victim-Healthy : Healthy o.flow
  victim-Healthy =
      Each-entry Healthy (rx.buckets o.bucket) o.place o.flow v.at
        (EachBelow-at Healthy rx.buckets o.bucket rx.n_buckets v.within t.healthy)

  -- What the flow held of a total, and what is left.
  share :
      (m : Flow → ℕ)
      → (chain_total m (unlink (rx.buckets o.bucket) o.place) + m o.flow
          ≡ chain_total m (rx.buckets o.bucket))
        × (m o.flow ≤ table_total m rx.buckets rx.n_buckets)
  share m =
      let out = chain_total-unlink m (rx.buckets o.bucket) o.place o.flow v.at in
      let le = chain_total-le m rx.buckets o.bucket rx.n_buckets v.within in
      (out, omega (arith, out, le))

  evicted-pool : (evicted rx o).pool_bytes_used + bytes_of o.flow ≡ rx.pool_bytes_used
  evicted-pool =
      let others = rx.pool_bytes_used - bytes_of o.flow in
      let split : rx.pool_bytes_used ≡ others + bytes_of o.flow =
        omega (arith, (share bytes_of).1, t.pool_is) in
      let unlinked = record rx {
        buckets = replace rx.buckets o.bucket (unlink (rx.buckets o.bucket) o.place);
      } in
      omega (arith, flow_destroy-pool others o.flow unlinked victim-Healthy split, split)

  evicted-Tidy : Tidy (evicted rx o)
  unfolding flow_destroy
  evicted-Tidy =
      let chain = unlink (rx.buckets o.bucket) o.place in
      let unlinked = record rx { buckets = replace rx.buckets o.bucket chain } in
      let x : Exchange rx (evicted rx o) o.bucket chain = record {
        cfg = refl;
        n_buckets = refl;
        buckets = refl;
        within = v.within;
        pool = omega (arith, evicted-pool, (share bytes_of).0);
        pool_le = omega (arith, evicted-pool, t.pool_le);
        flows = omega (arith, (share one).0, (share one).1, t.flows_is);
        flows_le = λ limit. omega (arith, t.flows_le limit);
        books = flow_destroy-books o.flow unlinked victim-Healthy t.books;
      } in
      Exchange-Tidy x t (
        Each-unlink Healthy (rx.buckets o.bucket) o.place
          (EachBelow-at Healthy rx.buckets o.bucket rx.n_buckets v.within t.healthy))

-- What an eviction leaves.
pub record Evicted (rx rx' : Rx) : Type 0 where
  pub victim : Oldest
  pub oldest : Victim rx.n_buckets rx.buckets victim
  pub buckets :
      rx'.buckets
      ≡ replace rx.buckets victim.bucket (unlink (rx.buckets victim.bucket) victim.place)
  pub flows : rx'.n_flows ≡ rx.n_flows - 1
  pub pool : rx'.pool_bytes_used + bytes_of victim.flow ≡ rx.pool_bytes_used
  pub cfg : rx'.cfg ≡ rx.cfg
  pub tidy : Tidy rx'

-- An eviction from a table that holds a flow takes exactly one flow out: one of those that made their last
-- progress first. The pool gets the bytes back that it had buffered, and the receiver's invariant is kept.
pub evict_lru_flow_lem : (rx : Rx) → Tidy rx → 0 < rx.n_flows → Evicted rx (evict_lru_flow rx)
unfolding evict_lru_flow flow_destroy
evict_lru_flow_lem rx t some_flow = elim (Option-cases (lru_buckets rx.n_buckets rx.buckets)) [
  | inl nobody ↦
      let nowhere = lru_buckets-none rx.n_buckets rx.buckets nobody in
      absurd (omega (arith, no_flows rx.buckets rx.n_buckets nowhere, t.flows_is))
  | inr (o, found) ↦
      let v = lru_buckets_lem rx.n_buckets rx.buckets o found in
      let is : evict_lru_flow rx ≡ evicted rx o = ground (arith, found) in
      subst (Evicted rx) (sym is) (record {
        victim = o;
        oldest = v;
        buckets = refl;
        flows = refl;
        pool = evicted-pool rx t o v;
        cfg = refl;
        tidy = evicted-Tidy rx t o v;
      })
]
