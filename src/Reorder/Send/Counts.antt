-- ===== src/Reorder/Send/Counts.antt =====
-- The counter of the sender's flows against the table itself.
use mqcpn.Prelude.{
  ◌∙◌, not, leb, if◌then◌else◌, ◌==◌, ◌&&◌, ltb, ℕ, zero, suc, ◌+◌, ◌-◌, ◌*◌, ◌≡◌, ◌≤◌, ◌<◌, refl,
  ap, sym, subst, Bool, true, false, some, List, [], ◌∷◌, arith, length, Bool-cases, Option-cases,
  inl, inr,
}
use mqcpn.Prelude.Words.{u32}
use mqcpn.Prelude.Bits.{bit_and_le}
use mqcpn.Reorder.Packet.{FlowKey}
use mqcpn.Reorder.Config.{Config}
use mqcpn.Reorder.Send.{
  SendFlow, Tx, Action, tx_new, grow_buckets, pick_buckets, flow_key_hash, bucket_of, set_bucket,
  remove_at, table_lookup, evict_one_idle, new_send_flow, create_flow, get_or_create, advance_in,
  tx_commit,
}
use mqcpn.Reorder.Send.Evict.{at_place, evict_one_idle-taken}
use mqcpn.Reorder.Send.Table.{
  tx_peek-cases, SendStep, peeks, commits, SendReach, fresh, after, SendReach-bound,
}

-- The flows in the first `n` buckets.
abbrev pub total : (ℕ → List SendFlow) → ℕ → ℕ
total buckets zero = 0
total buckets (suc n) = total buckets n + length (buckets n)

total-set_bucket-beyond :
    (buckets : ℕ → List SendFlow) (b : ℕ) (chain : List SendFlow) (n : ℕ)
    → n ≤ b
    → total (set_bucket buckets b chain) n ≡ total buckets n
total-set_bucket-beyond buckets b chain zero le = refl
total-set_bucket-beyond buckets b chain (suc n) le =
    ground (arith, total-set_bucket-beyond buckets b chain n (omega arith))

total-set_bucket :
    (buckets : ℕ → List SendFlow) (b : ℕ) (chain : List SendFlow) (n : ℕ)
    → b < n
    → total (set_bucket buckets b chain) n + length (buckets b) ≡ total buckets n + length chain
total-set_bucket buckets b chain zero lt = absurd (omega arith)
total-set_bucket buckets b chain (suc n) lt = elim (Bool-cases (n == b)) [
  | inl here ↦
      let is : n ≡ b = ground (arith, here) in
      let lengths : length (buckets n) ≡ length (buckets b) =
        ap (λ (i : ℕ). length (buckets i)) is in
      ground (arith, here, lengths, total-set_bucket-beyond buckets b chain n (omega (arith, is)))
  | inr elsewhere ↦
      let lt' : b < n = ground (arith, elsewhere) in
      ground (arith, elsewhere, total-set_bucket buckets b chain n lt')
]

length-remove_at :
    (fs : List SendFlow) (i : ℕ) (f : SendFlow)
    → at_place fs i ≡ some f
    → length (remove_at fs i) + 1 ≡ length fs
unfolding remove_at
length-remove_at [] i f h = cc
length-remove_at (g ∷ gs) zero f h = omega arith
length-remove_at (g ∷ gs) (suc i) f h = omega (arith, length-remove_at gs i f h)

length-advance_in :
    (now : ℕ) (key : FlowKey) (fs : List SendFlow) → length (advance_in now key fs) ≡ length fs
unfolding advance_in
length-advance_in now key [] = refl
length-advance_in now key (f ∷ fs) = ground (arith, length-advance_in now key fs)

grow_buckets-positive : (rounds max_flows n : ℕ) → 0 < n → 0 < grow_buckets rounds max_flows n
unfolding grow_buckets
grow_buckets-positive zero max_flows n pos = omega arith
grow_buckets-positive (suc rounds) max_flows n pos =
    elim (Bool-cases (ltb n max_flows && ltb n 1048576)) [
      | inl more ↦
          let doubled : 0 < u32 (n * 2) = ground (arith, more) in
          ground (arith, more, grow_buckets-positive rounds max_flows (u32 (n * 2)) doubled)
      | inr enough ↦ ground (arith, enough)
    ]

-- There are buckets, and the counter says how many flows are in them.
pub record Counted (tx : Tx) : Type 0 where
  pub has_buckets : 0 < tx.n_buckets
  pub counts : tx.n_flows ≡ total tx.buckets tx.n_buckets

bucket_of-within : (tx : Tx) (key : FlowKey) → 0 < tx.n_buckets → bucket_of tx key < tx.n_buckets
bucket_of-within tx key pos =
    omega (arith, bit_and_le (flow_key_hash key tx.hash_seed) (tx.n_buckets - 1))

create_flow-Counted :
    (calloc_ok : Bool) (key : FlowKey) (now : ℕ) (tx : Tx)
    → Counted tx
    → Counted (create_flow calloc_ok key now tx).1
unfolding create_flow
create_flow-Counted false key now tx c = record { has_buckets = c.has_buckets; counts = c.counts }
create_flow-Counted true key now tx c =
    let b = bucket_of tx key in
    let stored =
      total-set_bucket tx.buckets b (new_send_flow tx key now ∷ tx.buckets b) tx.n_buckets
        (bucket_of-within tx key c.has_buckets) in
    record { has_buckets = c.has_buckets; counts = omega (arith, stored, c.counts) }

evict_one_idle-Counted :
    (now : ℕ) (tx tx' : Tx) → evict_one_idle now tx ≡ some tx' → Counted tx → Counted tx'
evict_one_idle-Counted now tx tx' h c =
    let (b, i, f, within, at, old, buckets, flows, size) = evict_one_idle-taken now tx tx' h in
    let chain = remove_at (tx.buckets b) i in
    let removed = total-set_bucket tx.buckets b chain tx.n_buckets within in
    let shorter = length-remove_at (tx.buckets b) i f at in
    let sum : total tx'.buckets tx'.n_buckets ≡ total (set_bucket tx.buckets b chain) tx.n_buckets =
      ap (λ (buckets : ℕ → List SendFlow). total buckets tx'.n_buckets) buckets
      ∙ ap (total (set_bucket tx.buckets b chain)) size in
    record {
      has_buckets = omega (arith, size, c.has_buckets);
      counts = omega (arith, sum, removed, shorter, flows, c.counts);
    }

get_or_create-Counted :
    (calloc_ok : Bool) (key : FlowKey) (now : ℕ) (tx : Tx)
    → Counted tx
    → Counted (get_or_create calloc_ok key now tx).1
unfolding get_or_create
get_or_create-Counted calloc_ok key now tx c =
    let full = not (tx.cfg.max_flows == 0) && leb tx.cfg.max_flows tx.n_flows in
    let after = (get_or_create calloc_ok key now tx).1 in
    let made : Tx → Tx = λ t. (create_flow calloc_ok key now t).1 in
    elim (Option-cases (table_lookup tx key)) [
      | inr (f, found) ↦ let is : after ≡ tx = ground (arith, found) in subst Counted (sym is) c
      | inl missing ↦ elim (Bool-cases full) [
        | inr free ↦
            let is : after ≡ made tx = ground (arith, missing, free) in
            subst Counted (sym is) (create_flow-Counted calloc_ok key now tx c)
        | inl is_full ↦ elim (Option-cases (evict_one_idle now tx)) [
          | inl nobody ↦
              let is : after ≡ record tx { table_full_raw = tx.table_full_raw + 1 } =
                ground (arith, missing, is_full, nobody) in
              subst Counted (sym is) (record { has_buckets = c.has_buckets; counts = c.counts })
          | inr (tx', evicted) ↦
              let is : after ≡ made tx' = ground (arith, missing, is_full, evicted) in
              subst Counted (sym is) (
                create_flow-Counted calloc_ok key now tx'
                  (evict_one_idle-Counted now tx tx' evicted c))
        ]
      ]
    ]

SendStep-Counted : {tx tx' : Tx} → SendStep tx tx' → Counted tx → Counted tx'
unfolding tx_commit
SendStep-Counted (commits Action.raw now) c = c
SendStep-Counted (commits (Action.drop_mtu key) now) c = c
SendStep-Counted {tx} (commits (Action.stamp key header) now) c =
    let b = bucket_of tx key in
    let chain = advance_in now key (tx.buckets b) in
    let stored =
      total-set_bucket tx.buckets b chain tx.n_buckets (bucket_of-within tx key c.has_buckets) in
    record {
      has_buckets = c.has_buckets;
      counts = omega (arith, stored, length-advance_in now key (tx.buckets b), c.counts);
    }
SendStep-Counted {tx} (peeks calloc_ok pkt now room) c =
    elim (tx_peek-cases calloc_ok pkt now room tx) [
      | inl same ↦ subst Counted (sym same) c
      | inr (key, more) ↦ subst Counted (sym more) (get_or_create-Counted calloc_ok key now tx c)
    ]

total-empty : (n : ℕ) → total (λ _. []) n ≡ 0
total-empty zero = refl
total-empty (suc n) = omega (arith, total-empty n)

SendReach-Counted :
    (cfg : Config) (hash_seed : ℕ) {tx : Tx} → SendReach cfg hash_seed tx → Counted tx
unfolding tx_new pick_buckets
SendReach-Counted cfg hash_seed fresh =
    let limit = if cfg.max_flows == 0 then 16 else cfg.max_flows in
    record {
      has_buckets = grow_buckets-positive 16 limit 16 (omega arith);
      counts = sym (total-empty (pick_buckets limit));
    }
SendReach-Counted cfg hash_seed (after reach step) =
    SendStep-Counted step (SendReach-Counted cfg hash_seed reach)

-- In every sender that a new one turns into, the counter `n_flows` is the number of flows in the chains of
-- its buckets: no flow is lost from the table or counted twice.
pub SendReach-total :
    (cfg : Config) (hash_seed : ℕ) (tx : Tx)
    → SendReach cfg hash_seed tx
    → tx.n_flows ≡ total tx.buckets tx.n_buckets
SendReach-total cfg hash_seed tx reach = (SendReach-Counted cfg hash_seed reach).counts

-- Whatever packets a new sender looks at and commits, in whatever order, at whatever times and with memory or
-- without: where the configuration sets a limit, the chains of the table never hold more flows than that.
pub SendReach-within :
    (cfg : Config) (hash_seed : ℕ) (tx : Tx)
    → 0 < cfg.max_flows
    → SendReach cfg hash_seed tx
    → total tx.buckets tx.n_buckets ≤ cfg.max_flows
SendReach-within cfg hash_seed tx limit reach =
    omega
      (arith, SendReach-total cfg hash_seed tx reach, SendReach-bound cfg hash_seed tx limit reach)
