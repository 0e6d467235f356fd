-- ===== src/Reorder/Send/Table.antt =====
-- The sender's table stays within its configured size.
use mqcpn.Prelude.{
  subst, sym, ◌⊎◌, ap, ◌∙◌, ℕ, ◌+◌, ◌-◌, ◌*◌, ◌≡◌, ◌≤◌, ◌<◌, refl, Bool, true, false, not, ◌&&◌,
  some, List, leb, ◌==◌, arith, Bool-cases, Option-cases, inl, inr,
}
use mqcpn.Reorder.Packet.{FlowKey, parse_5tuple}
use mqcpn.Reorder.Config.{Config}
use mqcpn.Reorder.Send.{
  Tx, Action, tx_new, table_lookup, scan_buckets, evict_one_idle, create_flow, get_or_create,
  tx_peek, tx_commit,
}

-- At most `max_flows` flows, for a limit that is set.
pub record Bounded (cfg : Config) (tx : Tx) : Type 0 where
  pub same_cfg : tx.cfg ≡ cfg
  pub within : tx.n_flows ≤ cfg.max_flows

create_flow-Bounded :
    (calloc_ok : Bool) (key : FlowKey) (now : ℕ) (cfg : Config) (tx : Tx)
    → tx.cfg ≡ cfg
    → tx.n_flows < cfg.max_flows
    → Bounded cfg (create_flow calloc_ok key now tx).1
unfolding create_flow
create_flow-Bounded true key now cfg tx same room = record {
  same_cfg = same;
  within = omega (arith, room);
}
create_flow-Bounded false key now cfg tx same room = record {
  same_cfg = same;
  within = omega (arith, room);
}

-- An eviction makes room for one flow.
evict_one_idle-room :
    (now : ℕ) (cfg : Config) (tx tx' : Tx)
    → 0 < cfg.max_flows
    → Bounded cfg tx
    → evict_one_idle now tx ≡ some tx'
    → (tx'.cfg ≡ cfg) × (tx'.n_flows < cfg.max_flows)
unfolding evict_one_idle
evict_one_idle-room now cfg tx tx' limit b h =
    elim (Option-cases
      (scan_buckets now (tx.cfg.egress_idle_timeout_sec * 1000000) tx.n_buckets tx.buckets)) [
        | inl nobody ↦ absurd (ground (arith, nobody))
        | inr (v, is) ↦
            let cfg_same : tx'.cfg ≡ tx.cfg = ground (arith, is) in
            let fewer : tx'.n_flows ≡ tx.n_flows - 1 = ground (arith, is) in
            (cfg_same ∙ b.same_cfg, omega (arith, fewer, b.within))
      ]

get_or_create-Bounded :
    (calloc_ok : Bool) (key : FlowKey) (now : ℕ) (cfg : Config) (tx : Tx)
    → 0 < cfg.max_flows
    → Bounded cfg tx
    → Bounded cfg (get_or_create calloc_ok key now tx).1
unfolding get_or_create
get_or_create-Bounded calloc_ok key now cfg tx limit b =
    let full = not (tx.cfg.max_flows == 0) && leb tx.cfg.max_flows tx.n_flows in
    let same : tx.cfg.max_flows ≡ cfg.max_flows = ap (λ (c : Config). c.max_flows) b.same_cfg in
    let after = (get_or_create calloc_ok key now tx).1 in
    let made : Tx → Tx = λ t. (create_flow calloc_ok key now t).1 in
    elim (Option-cases (table_lookup tx key)) [
      | inr (f, found) ↦
          let is : after ≡ tx = ground (arith, found) in subst (Bounded cfg) (sym is) b
      | inl missing ↦ elim (Bool-cases full) [
        | inr free ↦
            let is : after ≡ made tx = ground (arith, missing, free) in
            let room : tx.n_flows < cfg.max_flows = ground (arith, free, same, limit) in
            subst (Bounded cfg) (sym is)
              (create_flow-Bounded calloc_ok key now cfg tx b.same_cfg room)
        | inl is_full ↦ elim (Option-cases (evict_one_idle now tx)) [
          | inl nobody ↦
              let is : after ≡ record tx { table_full_raw = tx.table_full_raw + 1 } =
                ground (arith, missing, is_full, nobody) in
              subst (Bounded cfg) (sym is) (record { same_cfg = b.same_cfg; within = b.within })
          | inr (tx', evicted) ↦
              let is : after ≡ made tx' = ground (arith, missing, is_full, evicted) in
              let (cfg_same, room) = evict_one_idle-room now cfg tx tx' limit b evicted in
              subst (Bounded cfg) (sym is)
                (create_flow-Bounded calloc_ok key now cfg tx' cfg_same room)
        ]
      ]
    ]

-- A look at a packet leaves the table alone, or is a `get_or_create`.
pub tx_peek-cases :
    (calloc_ok : Bool) (pkt : List ℕ) (now room : ℕ) (tx : Tx)
    → let after = (tx_peek calloc_ok pkt now room tx).1 in
      (after ≡ tx) ⊎ ((key : FlowKey) × (after ≡ (get_or_create calloc_ok key now tx).1))
unfolding tx_peek
tx_peek-cases calloc_ok pkt now room tx =
    let after = (tx_peek calloc_ok pkt now room tx).1 in
    elim (Option-cases (parse_5tuple pkt)) [
      | inl opaque_pkt ↦ inl (ground (arith, opaque_pkt))
      | inr (key, parsed) ↦
          let is : (after ≡ tx) ⊎ (after ≡ (get_or_create calloc_ok key now tx).1) =
            ground (arith, parsed) in
          elim is [ inl same ↦ inl same | inr more ↦ inr (key, more) ]
    ]

-- What a sender does: it looks at a packet, or commits one that it looked at.
pub data SendStep : Tx → Tx → Type 0 where
  peeks :
      (calloc_ok : Bool) (pkt : List ℕ) (now room : ℕ) {tx : Tx}
      → SendStep tx (tx_peek calloc_ok pkt now room tx).1
  commits : (action : Action) (now : ℕ) {tx : Tx} → SendStep tx (tx_commit action now tx)

-- The senders that a new one turns into.
pub data SendReach (cfg : Config) (hash_seed : ℕ) : Tx → Type 0 where
  fresh : SendReach cfg hash_seed (tx_new cfg hash_seed)
  after : {tx tx' : Tx} → SendReach cfg hash_seed tx → SendStep tx tx' → SendReach cfg hash_seed tx'

SendStep-Bounded :
    (cfg : Config) {tx tx' : Tx}
    → 0 < cfg.max_flows
    → SendStep tx tx'
    → Bounded cfg tx
    → Bounded cfg tx'
unfolding tx_peek tx_commit
SendStep-Bounded cfg limit (commits Action.raw now) b = b
SendStep-Bounded cfg limit (commits (Action.drop_mtu key) now) b = b
SendStep-Bounded cfg limit (commits (Action.stamp key header) now) b = record {
  same_cfg = b.same_cfg;
  within = b.within;
}
SendStep-Bounded cfg {tx} limit (peeks calloc_ok pkt now room) b =
    elim (tx_peek-cases calloc_ok pkt now room tx) [
      | inl same ↦ subst (Bounded cfg) (sym same) b
      | inr (key, more) ↦
          subst (Bounded cfg) (sym more) (get_or_create-Bounded calloc_ok key now cfg tx limit b)
    ]

SendReach-Bounded :
    (cfg : Config) (hash_seed : ℕ) {tx : Tx}
    → 0 < cfg.max_flows
    → SendReach cfg hash_seed tx
    → Bounded cfg tx
unfolding tx_new
SendReach-Bounded cfg hash_seed limit fresh = record { same_cfg = refl; within = omega arith }
SendReach-Bounded cfg hash_seed limit (after reach step) =
    SendStep-Bounded cfg limit step (SendReach-Bounded cfg hash_seed limit reach)

-- Whatever packets a sender looks at and commits, in whatever order, at whatever times and with memory or
-- without: its count of flows never exceeds the limit of the configuration, where one is set.
pub SendReach-bound :
    (cfg : Config) (hash_seed : ℕ) (tx : Tx)
    → 0 < cfg.max_flows
    → SendReach cfg hash_seed tx
    → tx.n_flows ≤ cfg.max_flows
SendReach-bound cfg hash_seed tx limit reach = (SendReach-Bounded cfg hash_seed limit reach).within
