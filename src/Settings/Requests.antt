-- ===== src/Settings/Requests.antt =====
-- The calls that an application makes of the setters.
use mqcpn.Prelude.{ℕ, Bool, Option, List}
use mqcpn.Reorder.Config.{Mode, Profile}
use mqcpn.Settings.{ℤ, Settings}
use mqcpn.Settings.Setters.{
  set_server, set_tls_server_name, set_auth_key, set_auth_username, set_insecure, set_scheduler,
  set_cc, set_reinjection, set_reinj_ctl, set_fec, set_fec_scheme, set_datagram_redundancy,
  set_init_max_path_id, set_mtu, set_tun_mtu, set_log_level, set_multipath, set_reconnect,
  set_killswitch_hint, set_listen, set_subnet, set_subnet6, set_tls_cert, set_tls_ciphers,
  set_max_clients,
}
use mqcpn.Settings.Lanes.{
  set_reorder_enabled, set_reorder_wait, set_reorder_cap, set_reorder_classify, set_reorder_reset,
  set_reorder_limits, add_reorder_rule, set_hybrid_enabled, set_hybrid_tcp_mode, set_hybrid_limits,
  set_hybrid_connect_timeout, set_hybrid_max_global_flows, set_hybrid_egress_acl,
}

-- One call with its arguments. The two bulk calls (apply_reorder and apply_hybrid) are not among them: they copy
-- what they are given, unchecked.
pub data Request : Type 0 where
  server : List ℕ → ℤ → Request
  tls_server_name : Option (List ℕ) → Request
  auth_key : List ℕ → Request
  auth_username : List ℕ → Request
  insecure : ℤ → Request
  scheduler : ℤ → Request
  congestion_control : ℤ → Request
  reinjection : ℤ → Request
  reinj_ctl : ℤ → Request
  fec : ℤ → Request
  fec_scheme : ℤ → Request
  datagram_redundancy : ℤ → Request
  init_max_path_id : ℕ → Request
  mtu : ℤ → Request
  tun_mtu : ℤ → Request
  log_level : ℤ → Request
  multipath : ℤ → Request
  reconnect : ℤ → ℤ → Request
  killswitch_hint : ℤ → Request
  listen : List ℕ → ℤ → Request
  subnet : List ℕ → Request
  subnet6 : List ℕ → Request
  tls_cert : List ℕ → List ℕ → Request
  tls_ciphers : List ℕ → Request
  max_clients : ℤ → Request
  reorder_enabled : Option Mode → Request
  reorder_wait : ℕ → Request
  reorder_cap : ℕ → ℕ → Request
  reorder_classify : ℕ → ℕ → ℕ → Request
  reorder_reset : ℕ → ℕ → Request
  reorder_limits : ℕ → ℕ → ℕ → ℕ → Request
  reorder_rule : ℕ → ℕ → Option Profile → Request
  hybrid_enabled : ℤ → Request
  hybrid_tcp_mode : ℤ → Request
  hybrid_limits : ℕ → ℕ → Request
  hybrid_connect_timeout : ℕ → Request
  hybrid_max_global_flows : ℕ → Request
  hybrid_egress_acl : List (List ℕ) → List (List ℕ) → Request

module _ (inet_pton : List ℕ → Option ℕ) where
  unfoldable pub perform : Request → Settings → Settings × Bool
  perform (server host port) = set_server host port
  perform (tls_server_name name) = set_tls_server_name name
  perform (auth_key key) = set_auth_key key
  perform (auth_username name) = set_auth_username name
  perform (insecure n) = set_insecure n
  perform (scheduler n) = set_scheduler n
  perform (congestion_control n) = set_cc n
  perform (reinjection n) = set_reinjection n
  perform (reinj_ctl n) = set_reinj_ctl n
  perform (fec n) = set_fec n
  perform (fec_scheme n) = set_fec_scheme n
  perform (datagram_redundancy n) = set_datagram_redundancy n
  perform (init_max_path_id n) = set_init_max_path_id n
  perform (mtu n) = set_mtu n
  perform (tun_mtu n) = set_tun_mtu n
  perform (log_level n) = set_log_level n
  perform (multipath n) = set_multipath n
  perform (reconnect n interval) = set_reconnect n interval
  perform (killswitch_hint n) = set_killswitch_hint n
  perform (listen addr port) = set_listen addr port
  perform (subnet cidr) = set_subnet cidr
  perform (subnet6 cidr) = set_subnet6 cidr
  perform (tls_cert cert key) = set_tls_cert cert key
  perform (tls_ciphers ciphers) = set_tls_ciphers ciphers
  perform (max_clients n) = set_max_clients n
  perform (reorder_enabled mode) = set_reorder_enabled mode
  perform (reorder_wait ms) = set_reorder_wait ms
  perform (reorder_cap packets bytes) = set_reorder_cap packets bytes
  perform (reorder_classify window large small) = set_reorder_classify window large small
  perform (reorder_reset marks ms) = set_reorder_reset marks ms
  perform (reorder_limits flows bytes ingress egress) =
      set_reorder_limits flows bytes ingress egress
  perform (reorder_rule proto port profile) = add_reorder_rule proto port profile
  perform (hybrid_enabled n) = set_hybrid_enabled n
  perform (hybrid_tcp_mode mode) = set_hybrid_tcp_mode mode
  perform (hybrid_limits flows seconds) = set_hybrid_limits flows seconds
  perform (hybrid_connect_timeout seconds) = set_hybrid_connect_timeout seconds
  perform (hybrid_max_global_flows flows) = set_hybrid_max_global_flows flows
  perform (hybrid_egress_acl allow deny) = set_hybrid_egress_acl inet_pton allow deny
