-- ===== src/Reorder/Receiver/Reach.antt =====
-- The life of a receiver: datagrams, ticks and the evaluation switch, in any order.
use mqcpn.Prelude.{Bool, ℕ, ◌+◌, ◌≡◌, ◌≤◌, ◌^◌, some, List, arith, sym, subst}
use mqcpn.Reorder.Config.{Config, config_finalize, flow_cap, match_rule}
use mqcpn.Reorder.Config.Resolve.{Checked, flow_cap-RingCap}
use mqcpn.Reorder.Receive.{Memory}
use mqcpn.Reorder.Buckets.{EachBelow-empty, table_total-empty}
use mqcpn.Reorder.Receiver.{Rx, empty_rx, rx_new, rx_on_packet, rx_tick, rx_set_force_no_demotion}
use mqcpn.Reorder.Receiver.Tidy.{Healthy, Tidy, bytes_of, one}
use mqcpn.Reorder.Receiver.Packets.{rx_on_packet-Tidy}
use mqcpn.Reorder.Receiver.Tick.{rx_tick_lem}

pub data RxStep : Rx → Rx → Type 0 where
  datagram :
      (flow_ok : Bool) (mem : Memory) (payload : List ℕ) (now : ℕ) {rx : Rx}
      → RxStep rx (rx_on_packet flow_ok mem payload now rx)
  ticks : (now : ℕ) {rx : Rx} → RxStep rx (rx_tick now rx)
  forces : (force : Bool) {rx : Rx} → RxStep rx (rx_set_force_no_demotion force rx)

pub data RxReach (cfg : Config) (hash_seed : ℕ) : Rx → Type 0 where
  started : {rx : Rx} → rx_new cfg hash_seed ≡ some rx → RxReach cfg hash_seed rx
  then_step : {rx rx' : Rx} → RxReach cfg hash_seed rx → RxStep rx rx' → RxReach cfg hash_seed rx'

rx_set_force-Tidy : (force : Bool) (rx : Rx) → Tidy rx → Tidy (rx_set_force_no_demotion force rx)
unfolding rx_set_force_no_demotion flow_cap match_rule
rx_set_force-Tidy force rx t = record {
  has_buckets = t.has_buckets;
  room = t.room;
  caps = t.caps;
  pool_is = t.pool_is;
  pool_le = t.pool_le;
  flows_is = t.flows_is;
  flows_le = t.flows_le;
  healthy = t.healthy;
  books = t.books;
}

empty_rx-Tidy :
    (cfg : Config) (hash_seed : ℕ)
    → Checked cfg
    → cfg.global_max_buffer_bytes + 65536 ≤ 2 ^ 64
    → Tidy (empty_rx cfg hash_seed)
unfolding config_finalize
empty_rx-Tidy cfg hash_seed c room = record {
  has_buckets = omega arith;
  room = room;
  caps = λ key. flow_cap-RingCap cfg key c;
  pool_is = sym (table_total-empty bytes_of 1024);
  pool_le = omega arith;
  flows_is = sym (table_total-empty one 1024);
  flows_le = λ limit. omega arith;
  healthy = EachBelow-empty Healthy 1024;
  books = omega arith;
}

RxStep-Tidy : {rx rx' : Rx} → RxStep rx rx' → Tidy rx → Tidy rx'
RxStep-Tidy (datagram flow_ok mem payload now {rx}) t =
    rx_on_packet-Tidy flow_ok mem payload now rx t
RxStep-Tidy (ticks now {rx}) t = (rx_tick_lem now rx t).0
RxStep-Tidy (forces force {rx}) t = rx_set_force-Tidy force rx t

-- Whatever datagrams, ticks and switches a receiver goes through, in any order and with memory or without,
-- from a configuration that was checked and whose pool bound leaves room in 64 bits: the flow counter is the
-- number of flows in the table and within the limit that is set, the pool counter is the sum of the bytes that
-- all flows buffer and within its bound, every flow has a well-formed ring without the number that it expects,
-- a timer that runs exactly while it buffers, and exact books of its gaps, and the lifetime totals of the
-- flows that are gone count no more gaps as ended than were opened.
pub RxReach-Tidy :
    {cfg : Config} {hash_seed : ℕ} {rx : Rx}
    → Checked cfg
    → cfg.global_max_buffer_bytes + 65536 ≤ 2 ^ 64
    → RxReach cfg hash_seed rx
    → Tidy rx
unfolding rx_new
RxReach-Tidy {cfg} {hash_seed} {rx} c room (started is) =
    let same : empty_rx cfg hash_seed ≡ rx = ground (arith, is, c.valid) in
    subst Tidy same (empty_rx-Tidy cfg hash_seed c room)
RxReach-Tidy c room (then_step reach step) = RxStep-Tidy step (RxReach-Tidy c room reach)
