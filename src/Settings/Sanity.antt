-- ===== src/Settings/Sanity.antt =====
-- What the calls of the setters keep, one by one and in sequence; the two bulk calls are not among them.
use mqcpn.Prelude.{
  ℕ, refl, arith, not, ◌||◌, Option, none, some, List, [], ◌∷◌, ltb, leb, ◌==◌, length,
  length-append,
}
use mqcpn.Reorder.Config.{config_default}
use mqcpn.Hybrid.Policy.{hybrid_config_validate}
use mqcpn.Settings.{in_range, Settings, config_new}
use mqcpn.Settings.Setters.{
  set_server, set_tls_server_name, set_auth_key, set_auth_username, set_insecure,
  is_valid_scheduler, set_scheduler, is_valid_cc, set_cc, set_reinjection, set_reinj_ctl, set_fec,
  set_fec_scheme, set_datagram_redundancy, set_init_max_path_id, set_mtu, set_tun_mtu,
  set_log_level, set_multipath, set_reconnect, set_killswitch_hint, set_listen, set_subnet,
  set_subnet6, set_tls_cert, set_tls_ciphers, set_max_clients,
}
use mqcpn.Settings.Lanes.{
  set_reorder_enabled, set_reorder_wait, set_reorder_cap, set_reorder_classify, set_reorder_reset,
  set_reorder_limits, add_reorder_rule, set_hybrid_enabled, set_hybrid_tcp_mode, set_hybrid_limits,
  set_hybrid_connect_timeout, set_hybrid_max_global_flows, new_rule, set_hybrid_egress_acl,
}
use mqcpn.Settings.Requests.{
  Request, perform, server, tls_server_name, auth_key, auth_username, insecure, scheduler,
  congestion_control, reinjection, reinj_ctl, fec, fec_scheme, datagram_redundancy,
  init_max_path_id, mtu, tun_mtu, log_level, multipath, reconnect, killswitch_hint, listen, subnet,
  subnet6, tls_cert, tls_ciphers, max_clients, reorder_enabled, reorder_wait, reorder_cap,
  reorder_classify, reorder_reset, reorder_limits, reorder_rule, hybrid_enabled, hybrid_tcp_mode,
  hybrid_limits, hybrid_connect_timeout, hybrid_max_global_flows, hybrid_egress_acl,
}
use mqcpn.Settings.Keeps.{Sane, Keeps, kept, refused, guarded, wider, positive, mode_kept, acl_kept}

module _ (inet_pton : List ℕ → Option ℕ) where
  -- Whichever setter is called with whatever arguments, the two bulk calls apart: settings that are
  -- sane stay so, and a call that is refused leaves every field as it was.
  pub perform-Keeps : (r : Request) (s : Settings) → Sane s → Keeps s (perform inet_pton r s)
  unfolding hybrid_config_validate perform set_server set_tls_server_name set_auth_key
      set_auth_username set_insecure set_scheduler set_cc set_reinjection set_reinj_ctl set_fec
      set_fec_scheme set_datagram_redundancy set_init_max_path_id set_mtu set_tun_mtu set_log_level
      set_multipath set_reconnect set_killswitch_hint set_listen set_subnet set_subnet6 set_tls_cert
      set_tls_ciphers set_max_clients set_reorder_enabled set_reorder_wait set_reorder_cap
      set_reorder_classify set_reorder_reset set_reorder_limits add_reorder_rule set_hybrid_enabled
      set_hybrid_tcp_mode set_hybrid_limits set_hybrid_connect_timeout set_hybrid_max_global_flows
      set_hybrid_egress_acl
  perform-Keeps (server x0 x1) s t = kept s _ t
  perform-Keeps (auth_key x0) s t = kept s _ t
  perform-Keeps (auth_username x0) s t = kept s _ t
  perform-Keeps (insecure x0) s t = kept s _ t
  perform-Keeps (reinjection x0) s t = kept s _ t
  perform-Keeps (reinj_ctl x0) s t = kept s _ t
  perform-Keeps (fec x0) s t = kept s _ t
  perform-Keeps (fec_scheme x0) s t = kept s _ t
  perform-Keeps (log_level x0) s t = kept s _ t
  perform-Keeps (multipath x0) s t = kept s _ t
  perform-Keeps (killswitch_hint x0) s t = kept s _ t
  perform-Keeps (listen x0 x1) s t = kept s _ t
  perform-Keeps (subnet x0) s t = kept s _ t
  perform-Keeps (subnet6 x0) s t = kept s _ t
  perform-Keeps (tls_cert x0 x1) s t = kept s _ t
  perform-Keeps (tls_ciphers x0) s t = kept s _ t
  perform-Keeps (max_clients x0) s t = kept s _ t
  perform-Keeps (reorder_wait x0) s t = kept s _ t
  perform-Keeps (reorder_cap x0 x1) s t = kept s _ t
  perform-Keeps (reorder_classify x0 x1 x2) s t = kept s _ t
  perform-Keeps (reorder_reset x0 x1) s t = kept s _ t
  perform-Keeps (reorder_limits x0 x1 x2 x3) s t = kept s _ t
  perform-Keeps (hybrid_enabled x0) s t = kept s (set_hybrid_enabled x0 s).0 t
  perform-Keeps (tls_server_name none) s t = kept s _ t
  perform-Keeps (tls_server_name (some name)) s t = kept s _ t
  perform-Keeps (reorder_enabled none) s t = refused s t
  perform-Keeps (reorder_enabled (some mode)) s t = kept s _ t
  perform-Keeps (scheduler n) s (a, b, c, d, e, f, g, h, i, j) =
      guarded (is_valid_scheduler n) s _ (a, b, c, d, e, f, g, h, i, j)
        (λ holds. (holds, b, c, d, e, f, g, h, i, j))
  perform-Keeps (congestion_control n) s (a, b, c, d, e, f, g, h, i, j) =
      guarded (is_valid_cc n) s _ (a, b, c, d, e, f, g, h, i, j)
        (λ holds. (a, holds, c, d, e, f, g, h, i, j))
  perform-Keeps (datagram_redundancy n) s (a, b, c, d, e, f, g, h, i, j) =
      guarded (in_range 0 2 n) s _ (a, b, c, d, e, f, g, h, i, j)
        (λ holds. (a, b, holds, d, e, f, g, h, i, j))
  perform-Keeps (init_max_path_id n) s (a, b, c, d, e, f, g, h, i, j) =
      guarded (not (ltb 4294967295 n)) s _ (a, b, c, d, e, f, g, h, i, j)
        (λ holds. (a, b, c, ground (arith, holds), e, f, g, h, i, j))
  perform-Keeps (mtu n) s (a, b, c, d, e, f, g, h, i, j) =
      guarded (in_range 0 0 n || in_range 68 65535 n) s _ (a, b, c, d, e, f, g, h, i, j)
        (λ holds. (a, b, c, d, holds, f, g, h, i, j))
  perform-Keeps (tun_mtu n) s (a, b, c, d, e, f, g, h, i, j) =
      guarded (in_range 0 0 n || in_range 1280 9000 n) s _ (a, b, c, d, e, f, g, h, i, j)
        (λ holds. (a, b, c, d, wider n holds, f, g, h, i, j))
  perform-Keeps (reconnect n interval) s (a, b, c, d, e, f, g, h, i, j) =
      kept s _ (a, b, c, d, e, positive interval, g, h, i, j)
  perform-Keeps (reorder_rule proto port none) s t = refused s t
  perform-Keeps (reorder_rule proto port (some profile)) s (a, b, c, d, e, f, g, h, i, j) =
      guarded (not (leb 16 (length s.reorder.rules))) s _ (a, b, c, d, e, f, g, h, i, j)
        (λ holds. (
          a,
          b,
          c,
          d,
          e,
          f,
          ground (arith, holds, length-append s.reorder.rules (new_rule proto port profile ∷ [])),
          h,
          i,
          j,
        ))
  perform-Keeps (hybrid_tcp_mode mode) s t = mode_kept mode s t
  perform-Keeps (hybrid_limits flows seconds) s (a, b, c, d, e, f, g, h, i, j) =
      guarded (not (flows == 0)) s _ (a, b, c, d, e, f, g, h, i, j)
        (λ holds. (a, b, c, d, e, f, g, ground (arith, holds, h), i, j))
  perform-Keeps (hybrid_connect_timeout seconds) s (a, b, c, d, e, f, g, h, i, j) =
      guarded (not (seconds == 0)) s _ (a, b, c, d, e, f, g, h, i, j)
        (λ holds. (a, b, c, d, e, f, g, ground (arith, holds, h), i, j))
  perform-Keeps (hybrid_max_global_flows flows) s (a, b, c, d, e, f, g, h, i, j) =
      guarded (not (flows == 0)) s _ (a, b, c, d, e, f, g, h, i, j)
        (λ holds. (a, b, c, d, e, f, g, ground (arith, holds, h), i, j))
  perform-Keeps (hybrid_egress_acl allow deny) s t = acl_kept inet_pton allow deny s t

-- The settings that calls make of new ones.
pub data SettingsReach (inet_pton : List ℕ → Option ℕ) : Settings → Type 0 where
  start : SettingsReach inet_pton config_new
  called :
      {s : Settings} (r : Request)
      → SettingsReach inet_pton s
      → SettingsReach inet_pton (perform inet_pton r s).0

-- New settings, and what sequences of setters other than the two bulk calls make of them, are sane.
pub SettingsReach-Sane :
    (inet_pton : List ℕ → Option ℕ) (s : Settings) → SettingsReach inet_pton s → Sane s
unfolding is_valid_scheduler is_valid_cc hybrid_config_validate config_default
SettingsReach-Sane inet_pton _ start =
    (refl, refl, refl, omega arith, refl, refl, omega arith, refl, omega arith, omega arith)
SettingsReach-Sane inet_pton _ (called {s} r before) =
    (perform-Keeps inet_pton r s (SettingsReach-Sane inet_pton s before)).0
