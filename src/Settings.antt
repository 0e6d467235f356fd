-- ===== src/Settings.antt =====
-- The settings of src/mqvpn_config.c but for the users: `mqvpn_config_t` and its setters.
pub mod Setters
pub mod Lanes
pub mod Requests
pub mod Keeps
pub mod Sanity
mod Tests
use mqcpn.Prelude.{
  ℕ, Bool, true, false, ◌&&◌, Option, none, some, List, [], leb, ltb, ◌==◌, take, ◌-◌,
}
use mqcpn.Reorder.Config.{Config, config_default}
use mqcpn.Hybrid.Policy.{HybridConfig, hybrid_config_default}

-- A C int.
pub data ℤ : Type 0 where
  pos : ℕ → ℤ
  negsuc : ℕ → ℤ

-- `lo <= n && n <= hi`
abbrev pub in_range : ℕ → ℕ → ℤ → Bool
in_range lo hi (pos n) = leb lo n && leb n hi
in_range lo hi (negsuc n) = false

-- A C int as a truth value.
abbrev pub is_set : ℤ → Bool
is_set (pos n) = ltb 0 n
is_set (negsuc n) = true

abbrev pub is_positive : ℤ → Bool
is_positive (pos n) = ltb 0 n
is_positive (negsuc n) = false

-- `snprintf(dst, size, "%s", src)`
abbrev pub fit : ℕ → List ℕ → List ℕ
fit size s = take (size - 1) s

-- `mqvpn_config_t` without the users and the clock. Enumerations are their values.
pub record Settings : Type 0 where
  pub server_host : List ℕ
  pub tls_server_name : List ℕ
  pub server_port : ℤ
  pub auth_key : List ℕ
  pub auth_username : List ℕ
  pub insecure : ℤ
  pub scheduler : ℤ
  pub cc : ℤ
  pub reinjection_enable : Bool
  pub reinj_ctl : ℤ
  pub fec_enable : Bool
  pub fec_scheme : ℤ
  pub datagram_redundancy : ℤ
  pub log_level : ℤ
  pub multipath : ℤ
  pub reconnect_enable : ℤ
  pub reconnect_interval_sec : ℤ
  pub killswitch_hint : ℤ
  pub listen_addr : List ℕ
  pub listen_port : ℤ
  pub subnet : List ℕ
  pub subnet6 : List ℕ
  pub tls_cert : List ℕ
  pub tls_key : List ℕ
  pub tls_ciphers : List ℕ
  pub max_clients : ℤ
  pub init_max_path_id : ℕ
  pub tun_mtu : ℤ
  pub reorder : Config
  pub hybrid : HybridConfig

-- `mqvpn_config_new`, its allocation given
abbrev pub config_new : Settings
config_new = record {
  server_host = [];
  tls_server_name = [];
  server_port = pos 443;
  auth_key = [];
  auth_username = [];
  insecure = pos 0;
  scheduler = pos 1;
  cc = pos 0;
  reinjection_enable = false;
  reinj_ctl = pos 0;
  fec_enable = false;
  fec_scheme = pos 0;
  datagram_redundancy = pos 0;
  log_level = pos 1;
  multipath = pos 1;
  reconnect_enable = pos 1;
  reconnect_interval_sec = pos 5;
  killswitch_hint = pos 0;
  listen_addr = [];
  listen_port = pos 443;
  subnet = [];
  subnet6 = [];
  tls_cert = [];
  tls_key = [];
  tls_ciphers = [];
  max_clients = pos 64;
  init_max_path_id = 0;
  tun_mtu = pos 0;
  reorder = config_default;
  hybrid = hybrid_config_default;
}
