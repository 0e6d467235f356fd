-- ===== src/Reorder/Send/Stamps.antt =====
-- What a commit does to the flow that it is for, and sequences of packets that are peeked at and committed.
use mqcpn.Prelude.{ℕ, ◌≡◌, true, some, List, [], ◌∷◌, arith, Bool-cases, inl, inr}
use mqcpn.Reorder.Packet.{FlowKey, flow_key_eq}
use mqcpn.Reorder.Packet.Key.{flow_key_eq_iff}
use mqcpn.Reorder.Send.{
  SendFlow, Tx, Action, bucket_of, find_flow, table_lookup, tx_peek, advance, advance_in, tx_commit,
}

find-advance_in :
    (now : ℕ) (key : FlowKey) (chain : List SendFlow) (f : SendFlow)
    → find_flow chain key ≡ some f
    → find_flow (advance_in now key chain) key ≡ some (advance now f)
unfolding find_flow advance_in
find-advance_in now key [] f h = cc
find-advance_in now key (g ∷ gs) f h = ground (arith, find-advance_in now key gs f)

-- After a commit, the flow has moved on by one packet.
pub lookup-tx_commit :
    (now : ℕ) (key : FlowKey) (header : List ℕ) (tx : Tx) (f : SendFlow)
    → table_lookup tx key ≡ some f
    → table_lookup (tx_commit (Action.stamp key header) now tx) key ≡ some (advance now f)
unfolding table_lookup tx_commit
lookup-tx_commit now key header tx f h =
    ground (arith, find-advance_in now key (tx.buckets (bucket_of tx key)) f h)

pub find_flow-key :
    (chain : List SendFlow) (key : FlowKey) (f : SendFlow)
    → find_flow chain key ≡ some f
    → f.key ≡ key
unfolding find_flow
find_flow-key [] key f h = cc
find_flow-key (g ∷ gs) key f h = elim (Bool-cases (flow_key_eq g.key key)) [
  | inl same ↦ ground (arith, same, (flow_key_eq_iff g.key key).0 same, h)
  | inr differs ↦ find_flow-key gs key f (ground (arith, differs, h))
]

-- A packet that is sent: peeked at, and committed.
abbrev pub send_one : ℕ → List ℕ → ℕ → Tx → Tx
send_one room pkt now tx =
    let peeked = tx_peek true pkt now room tx in tx_commit peeked.0 now peeked.1

-- Packets sent one after another, each with its time.
abbrev pub send_all : ℕ → List (List ℕ × ℕ) → Tx → Tx
send_all room [] tx = tx
send_all room ((pkt, now) ∷ rest) tx = send_all room rest (send_one room pkt now tx)
