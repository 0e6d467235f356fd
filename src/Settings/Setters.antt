-- ===== src/Settings/Setters.antt =====
-- The setters of one value each: the settings after the call, and whether it returned MQVPN_OK.
use mqcpn.Prelude.{
  ℕ, Bool, true, false, not, ◌||◌, Option, none, some, List, [], ltb, ◌==◌, if◌then◌else◌,
}
use mqcpn.Settings.{ℤ, pos, negsuc, in_range, is_set, is_positive, fit, Settings}

-- Where a test holds, the value is taken, and else the call is refused.
abbrev pub taken_if : Bool → Settings → Settings → Settings × Bool
taken_if true s' s = (s', true)
taken_if false s' s = (s, false)

unfoldable pub set_server : List ℕ → ℤ → Settings → Settings × Bool
set_server host port s = (record s { server_host = fit 256 host; server_port = port }, true)

unfoldable pub set_tls_server_name : Option (List ℕ) → Settings → Settings × Bool
set_tls_server_name (some name) s = (record s { tls_server_name = fit 256 name }, true)
set_tls_server_name none s = (record s { tls_server_name = [] }, true)

unfoldable pub set_auth_key : List ℕ → Settings → Settings × Bool
set_auth_key key s = (record s { auth_key = fit 256 key }, true)

unfoldable pub set_auth_username : List ℕ → Settings → Settings × Bool
set_auth_username username s = (record s { auth_username = fit 64 username }, true)

unfoldable pub set_insecure : ℤ → Settings → Settings × Bool
set_insecure insecure s = (record s { insecure = insecure }, true)

-- All the values from MQVPN_SCHED_MINRTT, 0, to MQVPN_SCHED_WRTT, 6.
unfoldable pub is_valid_scheduler : ℤ → Bool
is_valid_scheduler (negsuc n) = false
is_valid_scheduler (pos n) = n == 0 || n == 1 || n == 2 || n == 3 || n == 4 || n == 5 || n == 6

unfoldable pub set_scheduler : ℤ → Settings → Settings × Bool
set_scheduler sched s = taken_if (is_valid_scheduler sched) (record s { scheduler = sched }) s

-- All the values from MQVPN_CC_BBR2, 0, to MQVPN_CC_NONE, 6.
unfoldable pub is_valid_cc : ℤ → Bool
is_valid_cc (negsuc n) = false
is_valid_cc (pos n) = n == 0 || n == 1 || n == 2 || n == 3 || n == 4 || n == 5 || n == 6

unfoldable pub set_cc : ℤ → Settings → Settings × Bool
set_cc cc s = taken_if (is_valid_cc cc) (record s { cc = cc }) s

unfoldable pub set_reinjection : ℤ → Settings → Settings × Bool
set_reinjection enable s = (record s { reinjection_enable = is_set enable }, true)

unfoldable pub set_reinj_ctl : ℤ → Settings → Settings × Bool
set_reinj_ctl ctl s = (record s { reinj_ctl = ctl }, true)

unfoldable pub set_fec : ℤ → Settings → Settings × Bool
set_fec enable s = (record s { fec_enable = is_set enable }, true)

unfoldable pub set_fec_scheme : ℤ → Settings → Settings × Bool
set_fec_scheme scheme s = (record s { fec_scheme = scheme }, true)

unfoldable pub set_datagram_redundancy : ℤ → Settings → Settings × Bool
set_datagram_redundancy mode s =
    taken_if (in_range 0 2 mode) (record s { datagram_redundancy = mode }) s

unfoldable pub set_init_max_path_id : ℕ → Settings → Settings × Bool
set_init_max_path_id v s = taken_if (not (ltb 4294967295 v)) (record s { init_max_path_id = v }) s

unfoldable pub set_mtu : ℤ → Settings → Settings × Bool
set_mtu mtu s = taken_if (in_range 0 0 mtu || in_range 68 65535 mtu) (record s { tun_mtu = mtu }) s

unfoldable pub set_tun_mtu : ℤ → Settings → Settings × Bool
set_tun_mtu mtu s =
    taken_if (in_range 0 0 mtu || in_range 1280 9000 mtu) (record s { tun_mtu = mtu }) s

unfoldable pub set_log_level : ℤ → Settings → Settings × Bool
set_log_level level s = (record s { log_level = level }, true)

unfoldable pub set_multipath : ℤ → Settings → Settings × Bool
set_multipath enable s = (record s { multipath = enable }, true)

unfoldable pub set_reconnect : ℤ → ℤ → Settings → Settings × Bool
set_reconnect enable interval_sec s = (
  record s {
    reconnect_enable = enable;
    reconnect_interval_sec = if is_positive interval_sec then interval_sec else pos 5;
  },
  true,
)

unfoldable pub set_killswitch_hint : ℤ → Settings → Settings × Bool
set_killswitch_hint enable s = (record s { killswitch_hint = enable }, true)

unfoldable pub set_listen : List ℕ → ℤ → Settings → Settings × Bool
set_listen addr port s = (record s { listen_addr = fit 256 addr; listen_port = port }, true)

unfoldable pub set_subnet : List ℕ → Settings → Settings × Bool
set_subnet cidr s = (record s { subnet = fit 64 cidr }, true)

unfoldable pub set_subnet6 : List ℕ → Settings → Settings × Bool
set_subnet6 cidr6 s = (record s { subnet6 = fit 64 cidr6 }, true)

unfoldable pub set_tls_cert : List ℕ → List ℕ → Settings → Settings × Bool
set_tls_cert cert key s = (record s { tls_cert = fit 256 cert; tls_key = fit 256 key }, true)

unfoldable pub set_tls_ciphers : List ℕ → Settings → Settings × Bool
set_tls_ciphers ciphers s = (record s { tls_ciphers = fit 256 ciphers }, true)

unfoldable pub set_max_clients : ℤ → Settings → Settings × Bool
set_max_clients max s = (record s { max_clients = max }, true)
