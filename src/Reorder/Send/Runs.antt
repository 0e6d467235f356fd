-- ===== src/Reorder/Send/Runs.antt =====
-- Runs of the sender over packets of any flows: how the headers of one flow are numbered.
use mathlib.Core.Option.{some-injective}
use mqcpn.Prelude.{
  ℕ, suc, ◌+◌, ◌-◌, ◌≡◌, ◌≤◌, ◌<◌, ◌^◌, refl, ap, sym, subst, ◌∙◌, Bool, true, false, not, ◌&&◌,
  none, some, List, [], ◌∷◌, ◌++◌, ltb, leb, if◌then◌else◌, arith, length, Bool-cases, Option-cases,
  inl, inr, if-cases,
}
use mqcpn.Reorder.Packet.{FlowKey, flow_key_eq, parse_5tuple, wire_encode, wire_decode}
use mqcpn.Reorder.Packet.Wire.{wire_decode-encode}
use mqcpn.Reorder.Packet.Key.{flow_key_eq_iff}
use mqcpn.Reorder.Config.{Config, Mode}
use mqcpn.Reorder.Send.{
  SendFlow, Tx, Action, bucket_of, table_lookup, compute_eligible, get_or_create, peek_flow,
  tx_peek, advance, advance_in, tx_commit,
}
use mqcpn.Reorder.Send.Stamps.{lookup-tx_commit, find_flow-key, send_one, send_all}
use mqcpn.Reorder.Send.Numbered.{
  HasRoom, Numbered, lookup-other, find_flow-advance_other, Numbered-same, HasRoom-less,
  get_or_create-Got,
}

-- The packet is one of the flow, and fits the datagram with its header.
abbrev pub is_stamped : FlowKey → ℕ → List ℕ → Bool
is_stamped key room pkt = elim (parse_5tuple pkt) [
  | none ↦ false
  | some k ↦ flow_key_eq k key && leb (8 + length pkt) room
]

-- The packets of the flow in a run that are stamped.
abbrev pub stamped_of : FlowKey → ℕ → List (List ℕ × ℕ) → ℕ
stamped_of key room [] = 0
stamped_of key room ((pkt, now) ∷ rest) =
    (if is_stamped key room pkt then 1 else 0) + stamped_of key room rest

-- What a commit of another flow leaves.
commit_other :
    (k key : FlowKey) (header : List ℕ) (now : ℕ) (tx : Tx)
    → flow_key_eq k key ≡ false
    → table_lookup (tx_commit (Action.stamp k header) now tx) key ≡ table_lookup tx key
unfolding table_lookup tx_commit
commit_other k key header now tx differs =
    let chain = tx.buckets (bucket_of tx k) in
    lookup-other tx k key (advance_in now k chain) (find_flow-advance_other now k key chain differs)

commit-cfg : (a : Action) (now : ℕ) (tx : Tx) → (tx_commit a now tx).cfg ≡ tx.cfg
unfolding tx_commit
commit-cfg Action.raw now tx = refl
commit-cfg (Action.drop_mtu k) now tx = refl
commit-cfg (Action.stamp k header) now tx = refl

commit-flows : (a : Action) (now : ℕ) (tx : Tx) → (tx_commit a now tx).n_flows ≡ tx.n_flows
unfolding tx_commit
commit-flows Action.raw now tx = refl
commit-flows (Action.drop_mtu k) now tx = refl
commit-flows (Action.stamp k header) now tx = refl

commit-HasRoom :
    (n : ℕ) (a : Action) (now : ℕ) (tx : Tx) → HasRoom n tx → HasRoom n (tx_commit a now tx)
commit-HasRoom n a now tx room = rw (commit-cfg a now tx, commit-flows a now tx) room

-- The header that a flow with `c` packets stamped gets next.
abbrev pub flag_of : ℕ → ℕ → ℕ
flag_of marks c = if ltb c marks then 1 else 0

abbrev pub header_at : ℕ → ℕ → List ℕ
header_at marks c = wire_encode 1 (flag_of marks c) c

-- A flow of the key in the table, when the key has one.
found-Numbered :
    (key : FlowKey) (c : ℕ) (tx : Tx) (f : SendFlow)
    → Numbered key c tx
    → table_lookup tx key ≡ some f
    → (f.eligible ≡ true) × (f.next_seq ≡ c) × (f.reset_marks_left ≡ tx.cfg.reset_mark_packets - c)
found-Numbered key c tx f s is = elim s.state [
  | inl (_, absent) ↦ absurd (cc (absent, is))
  | inr (g, found, eligible, next, left) ↦
      let same : g ≡ f = some-injective g f (sym found ∙ is) in rw (← same) (eligible, next, left)
]

table_lookup-key : (tx : Tx) (k : FlowKey) (f : SendFlow) → table_lookup tx k ≡ some f → f.key ≡ k
unfolding table_lookup
table_lookup-key tx k f found = find_flow-key (tx.buckets (bucket_of tx k)) k f found

-- The packet of the flow itself: stamped with its number if it fits.
own_action :
    (len room c : ℕ) (key : FlowKey) (tx : Tx) (f : SendFlow)
    → Numbered key c tx
    → table_lookup tx key ≡ some f
    → peek_flow len room (some f) ≡ (
        if leb (8 + len) room
        then Action.stamp key (header_at tx.cfg.reset_mark_packets c)
        else Action.drop_mtu key)
unfolding peek_flow
own_action len room c key tx f s found =
    let (eligible, next, left) = found-Numbered key c tx f s found in
    let name = table_lookup-key tx key f found in
    let flag : (if ltb 0 f.reset_marks_left then 1 else 0) ≡ flag_of tx.cfg.reset_mark_packets c =
      ground (arith, left) in
    rw (eligible, name, next, flag) (ground arith)

Numbered-commit :
    (key : FlowKey) (c : ℕ) (header : List ℕ) (now : ℕ) (tx : Tx) (f : SendFlow)
    → Numbered key c tx
    → table_lookup tx key ≡ some f
    → Numbered key (c + 1) (tx_commit (Action.stamp key header) now tx)
Numbered-commit key c header now tx f s found =
    let (eligible, next, left) = found-Numbered key c tx f s found in
    let cfg = commit-cfg (Action.stamp key header) now tx in
    record {
      mode = rw cfg s.mode;
      eligible = rw cfg s.eligible;
      state = inr (
        advance now f,
        lookup-tx_commit now key header tx f found,
        eligible,
        omega (arith, next),
        rw cfg (omega (arith, left)),
      );
    }

raw_committed :
    (key : FlowKey) (now : ℕ) (tx : Tx)
    → table_lookup (tx_commit Action.raw now tx) key ≡ table_lookup tx key
unfolding tx_commit
raw_committed key now tx = refl

drop_committed :
    (k key : FlowKey) (now : ℕ) (tx : Tx)
    → table_lookup (tx_commit (Action.drop_mtu k) now tx) key ≡ table_lookup tx key
unfolding tx_commit
drop_committed k key now tx = refl

-- What is committed for another flow.
other_committed :
    (len room : ℕ) (k key : FlowKey) (now : ℕ) (tx : Tx) (f : SendFlow)
    → flow_key_eq k key ≡ false
    → f.key ≡ k
    → table_lookup (tx_commit (peek_flow len room (some f)) now tx) key ≡ table_lookup tx key
unfolding peek_flow
other_committed len room k key now tx f differs name =
    let P = λ (a : Action). table_lookup (tx_commit a now tx) key ≡ table_lookup tx key in
    let other : flow_key_eq f.key key ≡ false =
      ap (λ (j : FlowKey). flow_key_eq j key) name ∙ differs in
    if-cases P (not f.eligible) (λ _. raw_committed key now tx)
      (λ _.
        if-cases P (ltb room (8 + len)) (λ _. drop_committed f.key key now tx)
          (λ _. commit_other f.key key _ now tx other))

-- The flow of `key` after a packet of the flow `k` was committed.
committed-Numbered :
    (len room c : ℕ) (k key : FlowKey) (now : ℕ) (tx : Tx) (f : SendFlow)
    → Numbered key c tx
    → table_lookup tx k ≡ some f
    → Numbered key
        ((if flow_key_eq k key && leb (8 + len) room then 1 else 0) + c)
        (tx_commit (peek_flow len room (some f)) now tx)
committed-Numbered len room c k key now tx f s found =
    let no_more : 0 + c ≡ c = omega arith in
    elim (Bool-cases (flow_key_eq k key)) [
      | inr differs ↦
          let same =
            other_committed len room k key now tx f differs (table_lookup-key tx k f found) in
          let still : (if flow_key_eq k key && leb (8 + len) room then 1 else 0) + c ≡ c =
            rw differs no_more in
          rw still
            (Numbered-same key c tx _ (commit-cfg (peek_flow len room (some f)) now tx) same s)
      | inl same ↦
          let is : k ≡ key = (flow_key_eq_iff k key).0 same in
          let here : table_lookup tx key ≡ some f = ap (table_lookup tx) (sym is) ∙ found in
          let action = own_action len room c key tx f s here in
          elim (Bool-cases (leb (8 + len) room)) [
            | inl fits ↦
                let more : 1 + c ≡ c + 1 = omega arith in
                let added : (if flow_key_eq k key && leb (8 + len) room then 1 else 0) + c ≡ c + 1 =
                  rw (same, fits) more in
                rw (added, action, fits) (Numbered-commit key c _ now tx f s here)
            | inr long ↦
                let still : (if flow_key_eq k key && leb (8 + len) room then 1 else 0) + c ≡ c =
                  rw (same, long) no_more in
                rw (still, action, long)
                  (Numbered-same key c tx _ (commit-cfg (Action.drop_mtu key) now tx)
                    (drop_committed key key now tx) s)
          ]
    ]

-- One packet of any flow, sent.
record Sent (cfg : Config) (n : ℕ) (key : FlowKey) (c : ℕ) (tx : Tx) : Type 0 where
  same_cfg : tx.cfg ≡ cfg
  numbered : Numbered key c tx
  room : HasRoom n tx

peek-parsed :
    (room : ℕ) (pkt : List ℕ) (now : ℕ) (tx : Tx) (k : FlowKey)
    → tx.cfg.mode ≡ Mode.on
    → parse_5tuple pkt ≡ some k
    → let g = get_or_create true k now tx in
      tx_peek true pkt now room tx ≡ (peek_flow (length pkt) room g.0, g.1)
unfolding tx_peek
peek-parsed room pkt now tx k on parsed = ground (arith, on, parsed)

peek-unparsed :
    (room : ℕ) (pkt : List ℕ) (now : ℕ) (tx : Tx)
    → tx.cfg.mode ≡ Mode.on
    → parse_5tuple pkt ≡ none
    → tx_peek true pkt now room tx ≡ (Action.raw, tx)
unfolding tx_peek
peek-unparsed room pkt now tx on parsed = ground (arith, on, parsed)

send_one-Sent :
    (n room : ℕ) (pkt : List ℕ) (now : ℕ) (key : FlowKey) (c : ℕ) (tx : Tx)
    → HasRoom (suc n) tx
    → Numbered key c tx
    → Sent tx.cfg n key ((if is_stamped key room pkt then 1 else 0) + c) (send_one room pkt now tx)
send_one-Sent n room pkt now key c tx has s = elim (Option-cases (parse_5tuple pkt)) [
  | inl nothing ↦
      let peeked = peek-unparsed room pkt now tx s.mode nothing in
      let no_more : 0 + c ≡ c = omega arith in
      let still : (if is_stamped key room pkt then 1 else 0) + c ≡ c =
        rw (nothing, is_stamped) no_more in
      rw (still, peeked)
        (record {
          same_cfg = commit-cfg Action.raw now tx;
          numbered =
              Numbered-same key c tx _ (commit-cfg Action.raw now tx) (raw_committed key now tx) s;
          room = commit-HasRoom n Action.raw now tx (HasRoom-less n tx has);
        })
  | inr (k, parsed) ↦
      let peeked = peek-parsed room pkt now tx k s.mode parsed in
      let g = get_or_create true k now tx in
      let (s1, has1, cfg, (f, is, found)) = get_or_create-Got n k key c now tx has s in
      let counted : is_stamped key room pkt ≡ (flow_key_eq k key && leb (8 + length pkt) room) =
        rw (parsed, is_stamped) refl in
      rw (counted, peeked, is)
        (record {
          same_cfg = commit-cfg (peek_flow (length pkt) room (some f)) now g.1 ∙ cfg;
          numbered = committed-Numbered (length pkt) room c k key now g.1 f s1 found;
          room = commit-HasRoom n (peek_flow (length pkt) room (some f)) now g.1 has1;
        })
]

send_all-Sent :
    (n room : ℕ) (sends : List (List ℕ × ℕ)) (key : FlowKey) (c : ℕ) (tx : Tx)
    → HasRoom (length sends + n) tx
    → Numbered key c tx
    → Sent tx.cfg n key (stamped_of key room sends + c) (send_all room sends tx)
send_all-Sent n room [] key c tx has s =
    let no_more : 0 + c ≡ c = omega arith in
    let same : 0 + n ≡ n = omega arith in
    rw no_more (record { same_cfg = refl; numbered = s; room = rw (← same) has })
send_all-Sent n room ((pkt, now) ∷ rest) key c tx has s =
    let more : suc (length rest) + n ≡ suc (length rest + n) = omega arith in
    let has' = subst (λ (m : ℕ). HasRoom m tx) more has in
    let one = send_one-Sent (length rest + n) room pkt now key c tx has' s in
    let tx1 = send_one room pkt now tx in
    let first : ℕ = if is_stamped key room pkt then 1 else 0 in
    let sum : stamped_of key room rest + (first + c) ≡ first + stamped_of key room rest + c =
      omega arith in
    let sent = send_all-Sent n room rest key (first + c) tx1 one.room one.numbered in
    subst (λ (d : ℕ). Sent tx.cfg n key d (send_all room rest tx1)) sum
      (record {
        same_cfg = sent.same_cfg ∙ one.same_cfg;
        numbered = sent.numbered;
        room = sent.room;
      })

-- The packets of an eligible flow are numbered from 0 without a gap, and exactly the first K of them carry the
-- reset flag. Start from a sender that is on, in whose table the flow does not stand and where no flow has to go
-- for want of room, and send packets of any flows, memory at hand: the next packet of the flow that fits is
-- stamped with the number c of packets of this flow that fitted before, with the flag exactly if c is less than
-- reset_mark_packets, and, c being less than 2^48, the receiver reads that header back.
pub send_all-numbers :
    (room : ℕ) (sends : List (List ℕ × ℕ)) (pkt : List ℕ) (now : ℕ) (tx : Tx) (key : FlowKey)
    → tx.cfg.mode ≡ Mode.on
    → compute_eligible tx.cfg key ≡ true
    → table_lookup tx key ≡ none
    → HasRoom (length sends + 1) tx
    → parse_5tuple pkt ≡ some key
    → 8 + length pkt ≤ room
    → stamped_of key room sends < 2 ^ 48
    → let c = stamped_of key room sends in
      let flag : ℕ = if ltb c tx.cfg.reset_mark_packets then 1 else 0 in
      let header = wire_encode 1 flag c in
      ((tx_peek true pkt now room (send_all room sends tx)).0 ≡ Action.stamp key header)
      × (wire_decode (header ++ pkt) ≡ some (record { type = 1; flags = flag; seq = c }))
send_all-numbers room sends pkt now tx key on eligible absent has parsed fits small =
    let c = stamped_of key room sends in
    let start : Numbered key 0 tx = record {
      mode = on;
      eligible = eligible;
      state = inl (refl, absent);
    } in
    let sent = send_all-Sent 1 room sends key 0 tx has start in
    let tx' = send_all room sends tx in
    let none_more : c + 0 ≡ c = omega arith in
    let s : Numbered key c tx' = subst (λ (d : ℕ). Numbered key d tx') none_more sent.numbered in
    let (s1, _, cfg, (f, is, found)) = get_or_create-Got 0 key key c now tx' sent.room s in
    let g = get_or_create true key now tx' in
    let action = own_action (length pkt) room c key g.1 f s1 found in
    let flag : ℕ = if ltb c tx.cfg.reset_mark_packets then 1 else 0 in
    let marks : g.1.cfg ≡ tx.cfg = cfg ∙ sent.same_cfg in
    let fit : leb (8 + length pkt) room ≡ true = ground arith in
    (
      ap (λ (r : Action × Tx). r.0) (peek-parsed room pkt now tx' key s.mode parsed)
          ∙ ap (peek_flow (length pkt) room) is
          ∙ action
          ∙ rw (fit, marks) refl,
      wire_decode-encode 1 flag c pkt (omega arith) (ground arith) small,
    )
