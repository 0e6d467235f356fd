-- ===== src/Lib.antt =====
-- mqvpn, a multipath VPN over QUIC: the cores that are plain C with no library below them.
--
-- The parts and how they interact. A client keeps one slot per network path; the slot's life (created,
-- retried, validated, degraded, dropped, freed) is the path state machine. A server hands tunnel
-- addresses to its clients from the address pool. Packets that travel on several paths arrive out of
-- order: the sender stamps them with a header, and the receiver's reorder engine parses the inner
-- packet for its flow, holds packets back in the flow's ring, and delivers them in order, after a
-- timeout, or when limits are met. In hybrid mode the client chooses a lane for each packet, and the
-- server decides which targets its TCP lane may reach.
--
-- Files and code:
--   Prelude/     tests on native numbers, lists, words, text and bit operations that the parts share.
--   Path/        src/path_state_machine.c, src/path_state_machine.h, src/path_entry_internal.h. Entry
--                has the types, Transition the helpers (set_path_state_with_log and its kin), Machine
--                the handlers and path_on_event, Timers the two per-tick functions. Invariant, Graph,
--                Cleanup, Budget and Backoff hold the theorems, Rotation is src/path_rotation.c. The calls of the client that a change
--                of state makes are a list of effects.
--   PathMgr/     src/path_mgr.c: the table of the client's sockets; Sockets has its books.
--   AddrPool/    src/addr_pool.c, src/addr_pool.h. Pool has the operations, Alloc and Taken their
--                theorems, V6 the IPv6 side.
--   Reorder/     src/reorder.h, src/reorder_rx.c, src/reorder_tx.c. Packet has the header codec and
--                the inner-packet parser, Config the rules and their resolution, Ring the elastic
--                ring, Flow the handlers that take packets out, Receive the handlers that admit
--                packets, Life the creation of a flow, Receiver the receiver with its table, tick and
--                statistics, Send the sender with its table, Buckets what both tables stand on. Their
--                child modules hold the theorems: Ring/View is the abstract view of a ring (a partial
--                map), Flow/Sound, Flow/Gap and Flow/Order the invariants.
--   Hybrid/      src/hybrid/classifier.h, src/hybrid/classifier.c, src/hybrid/tcp_egress.c. Cidr has the
--                ranges, Policy the configuration and the choice of a lane, Egress the access list and
--                the path of a target.
--   Icmp/        src/icmp.c: the errors that the tunnel answers with. Checksum has the arithmetic of the
--                sums, Reply and ReplyV6 what a receiver of an answer checks.
--   FlowSched/   src/flow_sched.c: the hash that pins a flow to a path. Pinned gives the hash of a flow
--                key, Verdicts compares the hash with the packet parser of Reorder.
--   Users/       src/mqvpn_config.c: the table of users with its operations; Search and Lookup have what
--                the table gives for a name, Keys and Changes what an operation does to it.
--   Settings/    src/mqvpn_config.c: the other settings. Setters and Lanes have the setters, Requests
--                the calls as data (without the two bulk calls, which copy unchecked), Keeps and Sanity what
--                they keep.
--   Json/        src/json_mini.h: Strings, Objects and Members say what is read of a text that was
--                written as JSON.
--   Auth/        src/auth.c, src/mqvpn_util.c: base64 and the comparison of keys.
--
-- State and operations: a C struct is a record, a function on it a function of the record, named as in
-- the source without its prefix. A pointer that may be null is an Option. An array is a function of the
-- index beside its size, or the list of the entries in use. The receiver with the flow in hand is
-- Work; what the deliver callback gets is a list in Work. Return codes are Option or a data type.
--
-- Numbers are native naturals. Addresses, hashes, clocks and the pool counter wrap as in C; sequence
-- numbers (48 bits on the wire, counted up in 64), event counters and the ring's byte sum are not cut,
-- since reaching 2^64 would take that many packets. Reads at an offset are modelled by a default for
-- what is out of range; the parser's theorem shows that a key comes from complete headers only.
--
-- Loops: drain_contiguous and the flush of a demotion run on fuel, the ring's count; that this is
-- enough is part of the theorems (the drain ends with nothing buffered under the expected number, the
-- flush with an empty buffer). The doubling loop of the ring has 32 rounds, enough for 32-bit caps. The
-- walk over IPv6 extension headers has the source's 16 rounds. The carries of a 32-bit checksum are
-- folded in 2 rounds, and the walk to the next primary path has a round for every path.
--
-- Not modelled: log text; malloc and calloc, whose success is a parameter (Memory); inet_pton, socket,
-- fcntl and bind, whose answers are parameters; the lwIP and xquic libraries, and what only calls them:
-- the relay of the hybrid TCP lane, client and server glue; the configuration files, the platform
-- layers and the bindings.
mod Prelude
pub mod Path
pub mod AddrPool
pub mod Reorder
pub mod Hybrid
pub mod Icmp
pub mod FlowSched
pub mod Auth
pub mod Users
pub mod Settings
pub mod Json
pub mod PathMgr
