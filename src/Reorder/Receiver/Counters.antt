-- ===== src/Reorder/Receiver/Counters.antt =====
-- The counters of the lifetime statistics as sums over the flows.
use mqcpn.Prelude.{ℕ, zero, suc, ◌+◌, ◌≡◌, refl, List, [], ◌∷◌, arith}
use mqcpn.Reorder.Flow.{Flow, Stats}
use mqcpn.Reorder.Buckets.{chain_total, table_total}
use mqcpn.Reorder.Receiver.{Rx, stats_accumulate, add_chain, add_buckets_of, rx_get_stats}

-- The counters of the statistics: all but the two that describe the residence times.
pub data Counter : Type 0 where
  delivered : Counter
  too_late : Counter
  too_far_ahead : Counter
  duplicate : Counter
  per_flow_limit : Counter
  pool_drop : Counter
  reset_discard : Counter
  gaps : Counter
  gap_filled : Counter
  gap_timeout : Counter
  gap_overflow : Counter
  gap_demote : Counter
  gap_reset : Counter
  ack_demote : Counter

abbrev pub read : Counter → Stats → ℕ
read delivered st = st.delivered_count
read too_late st = st.too_late_drop_count
read too_far_ahead st = st.too_far_ahead_drop_count
read duplicate st = st.duplicate_drop_count
read per_flow_limit st = st.per_flow_limit_drop_count
read pool_drop st = st.pool_drop_count
read reset_discard st = st.reset_discard_count
read gaps st = st.gap_count
read gap_filled st = st.gap_filled_count
read gap_timeout st = st.gap_timeout_count
read gap_overflow st = st.gap_overflow_count
read gap_demote st = st.gap_demote_count
read gap_reset st = st.gap_reset_count
read ack_demote st = st.ack_demote_count

abbrev pub counted : Counter → Flow → ℕ
counted c f = read c f.stats

pub read-accumulate :
    (c : Counter) (a b : Stats) → read c (stats_accumulate a b) ≡ read c a + read c b
unfolding stats_accumulate
read-accumulate delivered a b = refl
read-accumulate too_late a b = refl
read-accumulate too_far_ahead a b = refl
read-accumulate duplicate a b = refl
read-accumulate per_flow_limit a b = refl
read-accumulate pool_drop a b = refl
read-accumulate reset_discard a b = refl
read-accumulate gaps a b = refl
read-accumulate gap_filled a b = refl
read-accumulate gap_timeout a b = refl
read-accumulate gap_overflow a b = refl
read-accumulate gap_demote a b = refl
read-accumulate gap_reset a b = refl
read-accumulate ack_demote a b = refl

-- What the flows that are gone and those in the table counted.
abbrev pub lifetime : Counter → Rx → ℕ
lifetime c rx = read c rx.evicted_stats + table_total (counted c) rx.buckets rx.n_buckets

read-add_chain :
    (c : Counter) (fs : List Flow) (st : Stats)
    → read c (add_chain fs st) ≡ read c st + chain_total (counted c) fs
unfolding add_chain
read-add_chain c [] st = omega arith
read-add_chain c (f ∷ fs) st =
    omega (arith, read-add_chain c fs (stats_accumulate st f.stats), read-accumulate c st f.stats)

read-add_buckets_of :
    (c : Counter) (n : ℕ) (buckets : ℕ → List Flow) (st : Stats)
    → read c (add_buckets_of n buckets st) ≡ read c st + table_total (counted c) buckets n
unfolding add_buckets_of
read-add_buckets_of c zero buckets st = omega arith
read-add_buckets_of c (suc n) buckets st = omega (
  arith,
  read-add_chain c (buckets n) (add_buckets_of n buckets st),
  read-add_buckets_of c n buckets st,
)

pub read-rx_get_stats : (c : Counter) (rx : Rx) → read c (rx_get_stats rx) ≡ lifetime c rx
unfolding rx_get_stats
read-rx_get_stats c rx = read-add_buckets_of c rx.n_buckets rx.buckets rx.evicted_stats
