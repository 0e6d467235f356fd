-- ===== src/Hybrid/Policy.antt =====
-- The hybrid configuration, its checks, and `mqvpn_hybrid_classify`.
pub mod Lanes
use mqcpn.Prelude.{
  ℕ, ◌+◌, ◌-◌, Bool, true, false, not, ◌&&◌, ◌||◌, Option, none, some, List, [], ◌∷◌, ◌++◌, ◌==◌,
  ltb, if◌then◌else◌, get_or,
}
use mqcpn.Reorder.Packet.{FlowKey, Verdict, parse_l3l4}
use mqcpn.Hybrid.Cidr.{Cidr, cidr_match, join_ip}

-- `mqvpn_hybrid_lane_t`
pub data Lane : Type 0 where
  lane_tcp lane_dgram lane_raw : Lane

-- `mqvpn_hybrid_tcp_mode_t`; `outside` stands for every value that is no enumerator.
pub data TcpMode : Type 0 where
  stream raw_only auto_mode outside : TcpMode

-- `mqvpn_hybrid_config_t`
pub record HybridConfig : Type 0 where
  pub enabled : Bool
  pub tcp_mode : TcpMode
  pub tcp_max_flows : ℕ
  pub tcp_idle_timeout_sec : ℕ
  pub tcp_connect_timeout_sec : ℕ
  pub tcp_max_global_flows : ℕ
  pub egress_allow : List Cidr
  pub egress_deny : List Cidr
  pub client_tunnel_subnet : Cidr

-- `mqvpn_hybrid_config_default`
abbrev pub hybrid_config_default : HybridConfig
hybrid_config_default = record {
  enabled = false;
  tcp_mode = auto_mode;
  tcp_max_flows = 256;
  tcp_idle_timeout_sec = 300;
  tcp_connect_timeout_sec = 10;
  tcp_max_global_flows = 4096;
  egress_allow = [];
  egress_deny = [];
  client_tunnel_subnet = record { net = 0; mask = 0 };
}

abbrev pub is_mode : TcpMode → Bool
is_mode stream = true
is_mode raw_only = true
is_mode auto_mode = true
is_mode outside = false

-- `mqvpn_hybrid_config_validate`
unfoldable pub hybrid_config_validate : HybridConfig → Bool
hybrid_config_validate cfg =
    is_mode cfg.tcp_mode
    && not (cfg.tcp_max_flows == 0)
    && not (cfg.tcp_connect_timeout_sec == 0)
    && not (cfg.tcp_max_global_flows == 0)

-- The fields that `mqvpn_hybrid_config_sanitize` can name.
pub data FieldName : Type 0 where
  tcp_name max_flows_name connect_timeout_name max_global_name : FieldName

abbrev pub named_if : Bool → FieldName → List FieldName
named_if true name = name ∷ []
named_if false name = []

-- `mqvpn_hybrid_config_sanitize`: the configuration, and the fields that it reset.
unfoldable pub hybrid_config_sanitize : HybridConfig → HybridConfig × List FieldName
hybrid_config_sanitize cfg = (
  record cfg {
    tcp_mode = if is_mode cfg.tcp_mode then cfg.tcp_mode else auto_mode;
    tcp_max_flows = if cfg.tcp_max_flows == 0 then 256 else cfg.tcp_max_flows;
    tcp_connect_timeout_sec =
        if cfg.tcp_connect_timeout_sec == 0 then 10 else cfg.tcp_connect_timeout_sec;
    tcp_max_global_flows = if cfg.tcp_max_global_flows == 0 then 4096 else cfg.tcp_max_global_flows;
  },
  named_if (not (is_mode cfg.tcp_mode)) tcp_name
      ++ (named_if (cfg.tcp_max_flows == 0) max_flows_name
          ++ (named_if (cfg.tcp_connect_timeout_sec == 0) connect_timeout_name
              ++ named_if (cfg.tcp_max_global_flows == 0) max_global_name)),
)

-- The destination of an IPv4 key, as the classifier joins it.
abbrev pub dst_of : FlowKey → ℕ
dst_of key =
    join_ip (get_or key.dst_ip 0 0) (get_or key.dst_ip 1 0) (get_or key.dst_ip 2 0)
      (get_or key.dst_ip 3 0)

abbrev pub is_raw_only : TcpMode → Bool
is_raw_only raw_only = true
is_raw_only _ = false

-- The TCP case of `mqvpn_hybrid_classify`; `none` is the null policy.
unfoldable pub classify_tcp : Option HybridConfig → FlowKey → Lane
classify_tcp none key = lane_raw
classify_tcp (some pol) key =
    if not (key.ip_version == 4)
    then lane_raw
    else if not pol.enabled || is_raw_only pol.tcp_mode
    then lane_raw
    else if not (pol.client_tunnel_subnet.mask == 0)
        && cidr_match pol.client_tunnel_subnet (dst_of key)
    then lane_raw
    else lane_tcp

-- `mqvpn_hybrid_classify`
unfoldable pub hybrid_classify : Option HybridConfig → List ℕ → Lane
hybrid_classify pol pkt = elim (parse_l3l4 pkt) [
  | Verdict.udp key ↦ lane_dgram
  | Verdict.tcp key ↦ classify_tcp pol key
  | _ ↦ lane_raw
]
