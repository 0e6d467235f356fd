-- ===== src/Reorder/Receiver/Packets.antt =====
-- One datagram, from its header to the flow that it changes.
use mqcpn.Prelude.{
  Bool, ℕ, ◌+◌, ◌-◌, ◌≡◌, ◌≤◌, ◌<◌, ◌&&◌, ◌||◌, not, refl, ap, sym, subst, true, false, Option,
  some, none, List, [], ◌∷◌, arith, leb, ltb, ◌==◌, if◌then◌else◌, Bool-cases, Option-cases,
  if-both, if-cases, inl, inr, length, drop,
}
use mqcpn.Reorder.Packet.{FlowKey, Header, flow_key_eq, parse_5tuple, wire_decode}
use mqcpn.Reorder.Packet.Key.{flow_key_eq_iff}
use mqcpn.Reorder.Config.{Config, flow_wait}
use mqcpn.Reorder.Ring.{ring_init}
use mqcpn.Reorder.Flow.{Flow}
use mqcpn.Reorder.Flow.Gap.{Good}
use mqcpn.Reorder.Receive.{Memory, on_reordered}
use mqcpn.Reorder.Receive.Dispatch.{on_reordered-Good}
use mqcpn.Reorder.Receive.Kept.{on_reordered-Kept}
use mqcpn.Reorder.Life.{new_flow}
use mqcpn.Reorder.Buckets.{chain_total, Each, chain_total-le, EachBelow-at}
use mqcpn.Reorder.Receiver.{
  Rx, rx_bucket_of, find_in_chain, flow_lookup, evict_lru_flow, create_rx_flow, flow_get_or_create,
  work_on, put_in_chain, put_back, has_no_rules, packet_to_flow, on_inner, rx_on_packet,
}
use mqcpn.Reorder.Receiver.Tidy.{
  Healthy, Healthy-Good, Good-Healthy, new_flow-Healthy, Tidy, Exchange, Exchange-Tidy, bytes_of,
  one, rx_bucket_of-within,
}
use mqcpn.Reorder.Receiver.Evict.{evict_lru_flow_lem}

-- Writing a flow back exchanges its share of a total for the new one.
chain_total-put :
    (m : Flow → ℕ) (key : FlowKey) (f' : Flow) (chain : List Flow) (f : Flow)
    → find_in_chain chain key ≡ some f
    → chain_total m (put_in_chain key f' chain) + m f ≡ chain_total m chain + m f'
unfolding find_in_chain put_in_chain
chain_total-put m key f' [] f h = cc
chain_total-put m key f' (g ∷ gs) f h = elim (Bool-cases (flow_key_eq g.key key)) [
  | inl here ↦ let is : g ≡ f = ground (arith, here, h) in ground (arith, here, ap m is)
  | inr further ↦
      let rest = chain_total-put m key f' gs f (ground (arith, further, h)) in
      ground (arith, further, rest)
]

chain_total-found :
    (m : Flow → ℕ) (key : FlowKey) (chain : List Flow) (f : Flow)
    → find_in_chain chain key ≡ some f
    → m f ≤ chain_total m chain
unfolding find_in_chain
chain_total-found m key [] f h = cc
chain_total-found m key (g ∷ gs) f h = elim (Bool-cases (flow_key_eq g.key key)) [
  | inl here ↦ let is : g ≡ f = ground (arith, here, h) in omega (arith, ap m is)
  | inr further ↦ omega (arith, chain_total-found m key gs f (ground (arith, further, h)))
]

Each-put :
    (key : FlowKey) (f' : Flow) (chain : List Flow)
    → Each Healthy chain
    → Healthy f'
    → Each Healthy (put_in_chain key f' chain)
unfolding put_in_chain
Each-put key f' [] e h = tt
Each-put key f' (g ∷ gs) (p, e) h =
    if-both (Each Healthy) (flow_key_eq g.key key) (h, e) (p, Each-put key f' gs e h)

Each-found :
    (key : FlowKey) (chain : List Flow) (f : Flow)
    → find_in_chain chain key ≡ some f
    → Each Healthy chain
    → Healthy f
unfolding find_in_chain
Each-found key [] f h e = cc
Each-found key (g ∷ gs) f h (p, e) = elim (Bool-cases (flow_key_eq g.key key)) [
  | inl here ↦ let is : g ≡ f = ground (arith, here, h) in subst Healthy is p
  | inr further ↦ Each-found key gs f (ground (arith, further, h)) e
]

-- A packet that is given to a flow of the table, and the flow written back.
pub put_back-Tidy :
    (mem : Memory) (seq flags : ℕ) (pkt : List ℕ) (now : ℕ) (key : FlowKey) (rx : Rx) (f : Flow)
    → Tidy rx
    → flow_lookup rx key ≡ some f
    → length pkt ≤ 65535
    → Tidy (put_back key rx (on_reordered mem seq flags pkt now (work_on rx f)))
unfolding flow_lookup
put_back-Tidy mem seq flags pkt now key rx f t found small =
    let b = rx_bucket_of rx key in
    let chain = rx.buckets b in
    let w = on_reordered mem seq flags pkt now (work_on rx f) in
    let chain' = put_in_chain key w.flow chain in
    let others = rx.pool_bytes_used - bytes_of f in
    let within = rx_bucket_of-within rx key t.has_buckets in
    let in_chain = chain_total-found bytes_of key chain f found in
    let in_table = chain_total-le bytes_of rx.buckets b rx.n_buckets within in
    let split : rx.pool_bytes_used ≡ others + bytes_of f =
      omega (arith, in_chain, in_table, t.pool_is) in
    let each = EachBelow-at Healthy rx.buckets b rx.n_buckets within t.healthy in
    let before : Good others (work_on rx f) =
      Healthy-Good others (work_on rx f) (Each-found key chain f found each) t.room split
        t.pool_le in
    let g : Good others w =
      on_reordered-Good mem others seq flags pkt now (work_on rx f) before small in
    let kept = on_reordered-Kept rx.cfg f.key mem seq flags pkt now (work_on rx f) (refl, refl) in
    let bytes = chain_total-put bytes_of key w.flow chain f found in
    let flows = chain_total-put one key w.flow chain f found in
    let max_bytes : w.cfg.global_max_buffer_bytes ≡ rx.cfg.global_max_buffer_bytes =
      ap (λ (c : Config). c.global_max_buffer_bytes) kept.0 in
    let x : Exchange rx (put_back key rx w) b chain' = record {
      cfg = refl;
      n_buckets = refl;
      buckets = refl;
      within = within;
      pool = omega (arith, bytes, g.sound.pool_is, split);
      pool_le = omega (arith, g.sound.pool_le, max_bytes);
      flows = omega (arith, flows);
      flows_le = t.flows_le;
      books = t.books;
    } in
    Exchange-Tidy x t (Each-put key w.flow chain each (Good-Healthy others w g))

-- What a search for a flow leads to: the flow stands in the table, or there was no memory for it.
abbrev pub Served : FlowKey → Option Flow × Rx → Type 0
Served key (none, rx) = Tidy rx
Served key (some f, rx) = Tidy rx × (flow_lookup rx key ≡ some f)

new_flow-empty :
    (cfg : Config) (key : FlowKey)
    → (bytes_of (new_flow cfg key) ≡ 0) × ((new_flow cfg key).key ≡ key)
unfolding new_flow ring_init
new_flow-empty cfg key = (refl, refl)

create_rx_flow-Served :
    (calloc_ok : Bool) (key : FlowKey) (rx : Rx)
    → Tidy rx
    → (0 < rx.cfg.max_flows → rx.n_flows < rx.cfg.max_flows)
    → Served key (create_rx_flow calloc_ok key rx)
unfolding create_rx_flow flow_lookup find_in_chain
create_rx_flow-Served false key rx t room = t
create_rx_flow-Served true key rx t room =
    let b = rx_bucket_of rx key in
    let f = new_flow rx.cfg key in
    let h = new_flow-Healthy rx.cfg key (t.caps key) in
    let within = rx_bucket_of-within rx key t.has_buckets in
    let x : Exchange rx (create_rx_flow true key rx).1 b (f ∷ rx.buckets b) = record {
      cfg = refl;
      n_buckets = refl;
      buckets = refl;
      within = within;
      pool = omega (arith, (new_flow-empty rx.cfg key).0);
      pool_le = t.pool_le;
      flows = omega arith;
      flows_le = λ limit. omega (arith, room limit);
      books = t.books;
    } in
    let same : flow_key_eq f.key key ≡ true =
      (flow_key_eq_iff f.key key).1 (new_flow-empty rx.cfg key).1 in
    (
      Exchange-Tidy x t (h, EachBelow-at Healthy rx.buckets b rx.n_buckets within t.healthy),
      ground (arith, same),
    )

flow_get_or_create-Served :
    (calloc_ok : Bool) (key : FlowKey) (rx : Rx)
    → Tidy rx
    → Served key (flow_get_or_create calloc_ok key rx)
unfolding flow_get_or_create
flow_get_or_create-Served calloc_ok key rx t =
    let full = ltb 0 rx.cfg.max_flows && leb rx.cfg.max_flows rx.n_flows in
    elim (Option-cases (flow_lookup rx key)) [
      | inr (f, found) ↦
          let is : flow_get_or_create calloc_ok key rx ≡ (some f, rx) = ground (arith, found) in
          subst (Served key) (sym is) (t, found)
      | inl missing ↦
          let is : flow_get_or_create calloc_ok key rx
              ≡ create_rx_flow calloc_ok key (if full then evict_lru_flow rx else rx) =
            ground (arith, missing) in
          subst (Served key) (sym is) (
            if-cases (λ r. Served key (create_rx_flow calloc_ok key r)) full
              (λ at_limit.
                let e = evict_lru_flow_lem rx t (ground (arith, at_limit)) in
                let limit : (evict_lru_flow rx).cfg.max_flows ≡ rx.cfg.max_flows =
                  ap (λ (c : Config). c.max_flows) e.cfg in
                let some_flow : 0 < rx.n_flows = ground (arith, at_limit) in
                create_rx_flow-Served calloc_ok key (evict_lru_flow rx) e.tidy (λ limited.
                  omega
                    (arith, e.flows, limit, some_flow, t.flows_le (omega (arith, limited, limit)))))
              (λ below_limit.
                create_rx_flow-Served calloc_ok key rx t
                  (λ limited. ground (arith, below_limit, limited))))
    ]

packet_to_flow-Tidy :
    (mem : Memory) (key : FlowKey) (h : Header) (inner : List ℕ) (now : ℕ) (got : Option Flow × Rx)
    → Served key got
    → length inner ≤ 65535
    → Tidy (packet_to_flow mem key h inner now got)
unfolding packet_to_flow
packet_to_flow-Tidy mem key h inner now (none, rx) t small = t
packet_to_flow-Tidy mem key h inner now (some f, rx) (t, found) small =
    put_back-Tidy mem h.seq h.flags inner now key rx f t found small

-- What the callback got is no part of the invariant.
passed-Tidy : (rx : Rx) (out : List (List ℕ)) → Tidy rx → Tidy (record rx { out = out })
passed-Tidy rx out t = record {
  has_buckets = t.has_buckets;
  room = t.room;
  caps = t.caps;
  pool_is = t.pool_is;
  pool_le = t.pool_le;
  flows_is = t.flows_is;
  flows_le = t.flows_le;
  healthy = t.healthy;
  books = t.books;
}

on_inner-Tidy :
    (flow_ok : Bool) (mem : Memory) (h : Header) (inner : List ℕ) (now : ℕ) (rx : Rx)
    → Tidy rx
    → length inner ≤ 65535
    → Tidy (on_inner flow_ok mem h inner now rx)
unfolding on_inner
on_inner-Tidy flow_ok mem h inner now rx t small =
    let passed = passed-Tidy rx (inner ∷ rx.out) t in
    if-both Tidy (rx.cfg.max_wait_ms == 0 && has_no_rules rx.cfg.rules) passed
      (keyed (parse_5tuple inner))
  where
    keyed :
        (k : Option FlowKey)
        → Tidy (elim k [
          | none ↦ rx
          | some key ↦
              if flow_wait rx.cfg key == 0
              then record rx { out = inner ∷ rx.out }
              else packet_to_flow mem key h inner now (flow_get_or_create flow_ok key rx)
        ])
    keyed none = t
    keyed (some key) =
        if-both Tidy (flow_wait rx.cfg key == 0) (passed-Tidy rx (inner ∷ rx.out) t) (
          packet_to_flow-Tidy mem key h inner now (flow_get_or_create flow_ok key rx)
            (flow_get_or_create-Served flow_ok key rx t) small)

-- Any datagram keeps the receiver's invariant, whatever its bytes are and whether or not there is memory.
pub rx_on_packet-Tidy :
    (flow_ok : Bool) (mem : Memory) (payload : List ℕ) (now : ℕ) (rx : Rx)
    → Tidy rx
    → Tidy (rx_on_packet flow_ok mem payload now rx)
unfolding rx_on_packet
rx_on_packet-Tidy flow_ok mem payload now rx t = decoded (wire_decode payload)
  where
    inner : List ℕ
    inner = drop 8 payload

    decoded :
        (d : Option Header)
        → Tidy (elim d [
          | none ↦ rx
          | some h ↦
              if not (h.type == 1)
              then rx
              else if length inner == 0 || ltb 65535 (length inner)
              then rx
              else on_inner flow_ok mem h inner now rx
        ])
    decoded none = t
    decoded (some h) = if-both Tidy (not (h.type == 1)) t (
        if-cases Tidy (length inner == 0 || ltb 65535 (length inner)) (λ _. t)
          (λ fits. on_inner-Tidy flow_ok mem h inner now rx t (ground (arith, fits))))
