-- ===== src/Reorder/Send/Numbered.antt =====
-- What `get_or_create` does to the numbers of a flow: its own ones and those of the other flows.
use mqcpn.Prelude.{
  ℕ, suc, ◌+◌, ◌-◌, ◌≡◌, ◌≤◌, ◌⊎◌, refl, ap, sym, subst, ◌∙◌, true, false, not, ◌&&◌, Option, none,
  some, List, [], ◌∷◌, leb, ◌==◌, if◌then◌else◌, arith, Bool-cases, Option-cases, inl, inr,
  if-cases,
}
use mqcpn.Reorder.Packet.{FlowKey, flow_key_eq}
use mqcpn.Reorder.Packet.Key.{flow_key_eq_iff}
use mqcpn.Reorder.Config.{Config, Mode}
use mqcpn.Reorder.Send.{
  SendFlow, Tx, bucket_of, find_flow, table_lookup, set_bucket, new_send_flow, create_flow,
  compute_eligible, get_or_create, advance_in,
}

-- There is room for `n` more flows, so that none has to go.
abbrev pub HasRoom : ℕ → Tx → Type 0
HasRoom n tx = (tx.cfg.max_flows ≡ 0) ⊎ (tx.n_flows + n ≤ tx.cfg.max_flows)

-- The flow of `key` had `c` packets stamped: it is not in the table yet, or its numbers and marks say so.
pub record Numbered (key : FlowKey) (c : ℕ) (tx : Tx) : Type 0 where
  pub mode : tx.cfg.mode ≡ Mode.on
  pub eligible : compute_eligible tx.cfg key ≡ true
  pub state :
      ((c ≡ 0) × (table_lookup tx key ≡ none))
      ⊎ ((f : SendFlow) × (table_lookup tx key ≡ some f)
          × (f.eligible ≡ true)
          × (f.next_seq ≡ c)
          × (f.reset_marks_left ≡ tx.cfg.reset_mark_packets - c))

-- Changing the chain of one flow, in a way that another flow does not see.
module _ (tx : Tx) (k key : FlowKey) (chain : List SendFlow)
    (unseen : find_flow chain key ≡ find_flow (tx.buckets (bucket_of tx k)) key) where
  pub lookup-other :
      find_flow (set_bucket tx.buckets (bucket_of tx k) chain (bucket_of tx key)) key
      ≡ find_flow (tx.buckets (bucket_of tx key)) key
  lookup-other =
      if-cases
        (λ (fs : List SendFlow). find_flow fs key ≡ find_flow (tx.buckets (bucket_of tx key)) key)
        (bucket_of tx key == bucket_of tx k)
        (λ same.
          let is : bucket_of tx k ≡ bucket_of tx key = ground (arith, same) in
          unseen ∙ ap (λ (b : ℕ). find_flow (tx.buckets b) key) is)
        (λ _. refl)

pub find_flow-advance_other :
    (now : ℕ) (k key : FlowKey) (chain : List SendFlow)
    → flow_key_eq k key ≡ false
    → find_flow (advance_in now k chain) key ≡ find_flow chain key
unfolding find_flow advance_in
find_flow-advance_other now k key [] differs = refl
find_flow-advance_other now k key (g ∷ gs) differs = elim (Bool-cases (flow_key_eq g.key k)) [
  | inl same ↦
      let not_it : flow_key_eq g.key key ≡ false =
        ap (λ (j : FlowKey). flow_key_eq j key) ((flow_key_eq_iff g.key k).0 same) ∙ differs in
      rw (same, not_it) refl
  | inr other ↦ rw other (
      ap (λ (rest : Option SendFlow). if flow_key_eq g.key key then some g else rest)
        (find_flow-advance_other now k key gs differs))
]

eq_self : (key : FlowKey) → flow_key_eq key key ≡ true
eq_self key = (flow_key_eq_iff key key).1 refl

-- The flow of `k` after `get_or_create`.
abbrev pub Got : Config → ℕ → FlowKey → ℕ → FlowKey → Option SendFlow × Tx → Type 0
Got cfg n key c k r =
    Numbered key c r.1
    × HasRoom n r.1
    × (r.1.cfg ≡ cfg)
    × ((f : SendFlow) × (r.0 ≡ some f) × (table_lookup r.1 k ≡ some f))

-- The state of a key that another key's change leaves alone.
pub Numbered-same :
    (key : FlowKey) (c : ℕ) (tx tx' : Tx)
    → tx'.cfg ≡ tx.cfg
    → table_lookup tx' key ≡ table_lookup tx key
    → Numbered key c tx
    → Numbered key c tx'
Numbered-same key c tx tx' cfg same s = record {
  mode = rw cfg s.mode;
  eligible = rw cfg s.eligible;
  state = elim s.state [
    | inl (none_yet, absent) ↦ inl (none_yet, same ∙ absent)
    | inr (f, found, eligible, next, left) ↦ inr (f, same ∙ found, eligible, next, rw cfg left)
  ];
}

created_lookup :
    (k : FlowKey) (now : ℕ) (tx : Tx)
    → table_lookup (create_flow true k now tx).1 k ≡ some (new_send_flow tx k now)
unfolding table_lookup find_flow create_flow
created_lookup k now tx =
    let b = bucket_of tx k in
    let f = new_send_flow tx k now in
    if-cases (λ (fs : List SendFlow). find_flow fs k ≡ some f) (b == b) (λ _. rw (eq_self k) refl)
      (λ differs. absurd (ground (arith, differs)))

created_other :
    (k key : FlowKey) (now : ℕ) (tx : Tx)
    → flow_key_eq k key ≡ false
    → table_lookup (create_flow true k now tx).1 key ≡ table_lookup tx key
unfolding table_lookup find_flow create_flow
created_other k key now tx differs =
    lookup-other tx k key (new_send_flow tx k now ∷ tx.buckets (bucket_of tx k)) (rw differs refl)

created_some :
    (k : FlowKey) (now : ℕ) (tx : Tx)
    → (create_flow true k now tx).0 ≡ some (new_send_flow tx k now)
unfolding create_flow
created_some k now tx = refl

created-cfg : (k : FlowKey) (now : ℕ) (tx : Tx) → (create_flow true k now tx).1.cfg ≡ tx.cfg
unfolding create_flow
created-cfg k now tx = refl

-- A flow that was just created has the number 0 and all its marks.
created-Numbered :
    (k key : FlowKey) (c now : ℕ) (tx : Tx)
    → table_lookup tx k ≡ none
    → Numbered key c tx
    → Numbered key c (create_flow true k now tx).1
unfolding create_flow
created-Numbered k key c now tx absent s = elim (Bool-cases (flow_key_eq k key)) [
  | inr differs ↦
      Numbered-same key c tx (create_flow true k now tx).1 refl (created_other k key now tx differs)
        s
  | inl same ↦
      let is : k ≡ key = (flow_key_eq_iff k key).0 same in
      let first : c ≡ 0 = elim s.state [
        | inl (none_yet, _) ↦ none_yet
        | inr (f, found, _, _, _) ↦ absurd (cc (ap (table_lookup tx) is, absent, found))
      ] in
      record {
        mode = s.mode;
        eligible = s.eligible;
        state = inr (
          new_send_flow tx k now,
          ap (λ (j : FlowKey). table_lookup (create_flow true k now tx).1 j) (sym is)
              ∙ created_lookup k now tx,
          ap (compute_eligible tx.cfg) is ∙ s.eligible,
          omega (arith, first),
          omega (arith, first),
        );
      }
]

pub HasRoom-less : (n : ℕ) (tx : Tx) → HasRoom (suc n) tx → HasRoom n tx
HasRoom-less n tx (inl no_limit) = inl no_limit
HasRoom-less n tx (inr room) = inr (omega (arith, room))

HasRoom-created :
    (n : ℕ) (k : FlowKey) (now : ℕ) (tx : Tx)
    → HasRoom (suc n) tx
    → HasRoom n (create_flow true k now tx).1
unfolding create_flow
HasRoom-created n k now tx (inl no_limit) = inl no_limit
HasRoom-created n k now tx (inr room) = inr (omega (arith, room))

not_full :
    (n : ℕ) (tx : Tx)
    → HasRoom (suc n) tx
    → (not (tx.cfg.max_flows == 0) && leb tx.cfg.max_flows tx.n_flows) ≡ false
not_full n tx (inl no_limit) = ground (arith, no_limit)
not_full n tx (inr room) = ground (arith, room)

pub get_or_create-Got :
    (n : ℕ) (k key : FlowKey) (c now : ℕ) (tx : Tx)
    → HasRoom (suc n) tx
    → Numbered key c tx
    → Got tx.cfg n key c k (get_or_create true k now tx)
unfolding get_or_create
get_or_create-Got n k key c now tx room s = elim (Option-cases (table_lookup tx k)) [
  | inr (f, found) ↦
      let is : get_or_create true k now tx ≡ (some f, tx) = ground (arith, found) in
      subst (Got tx.cfg n key c k) (sym is) (s, HasRoom-less n tx room, refl, (f, refl, found))
  | inl absent ↦
      let full = not_full n tx room in
      let is : get_or_create true k now tx ≡ create_flow true k now tx =
        ground (arith, absent, full) in
      subst (Got tx.cfg n key c k) (sym is) (
        created-Numbered k key c now tx absent s,
        HasRoom-created n k now tx room,
        created-cfg k now tx,
        (new_send_flow tx k now, created_some k now tx, created_lookup k now tx),
      )
]
