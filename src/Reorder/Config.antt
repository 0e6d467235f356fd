-- ===== src/Reorder/Config.antt =====
-- The configuration of the reorder engine, reorder.h: the rules, their resolution and the checks.
pub mod Resolve
use Prim.Native.Nat.{bit_and}
use mqcpn.Prelude.{
  ℕ, ◌-◌, Bool, true, false, not, ◌&&◌, ◌||◌, Option, none, some, List, [], ◌∷◌, map, leb, ◌==◌,
  if◌then◌else◌,
}
use mqcpn.Reorder.Packet.{FlowKey}

-- `mqvpn_reorder_profile_t` and `mqvpn_reorder_mode_t`
pub data Profile : Type 0 where
  quic_bulk : Profile
  low_latency : Profile
  default_udp : Profile
  cellular_bond : Profile
  fiber_lte : Profile

pub data Mode : Type 0 where
  off : Mode
  on : Mode

-- `mqvpn_reorder_rule_t`
pub record Rule : Type 0 where
  pub proto : ℕ
  pub port : ℕ
  pub profile : Profile
  pub explicit_wait_ms : ℕ
  pub explicit_cap : ℕ
  pub resolved_wait_ms : ℕ
  pub resolved_cap : ℕ

-- `mqvpn_reorder_config_t`; the first `n_rules` entries of the array are the list.
pub record Config : Type 0 where
  pub mode : Mode
  pub max_wait_ms : ℕ
  pub cap_packets_per_flow : ℕ
  pub max_buffer_bytes_per_flow : ℕ
  pub classify_window : ℕ
  pub ack_demote_max_large_packets : ℕ
  pub small_packet_threshold_bytes : ℕ
  pub reset_mark_packets : ℕ
  pub reset_idle_grace_ms : ℕ
  pub max_flows : ℕ
  pub global_max_buffer_bytes : ℕ
  pub ingress_idle_timeout_sec : ℕ
  pub egress_idle_timeout_sec : ℕ
  pub eval_force_no_demotion : Bool
  pub has_explicit_wait : Bool
  pub has_explicit_cap : Bool
  pub rules : List Rule

-- A profile's wait and cap.
pub record Preset : Type 0 where
  pub wait_ms : ℕ
  pub cap : ℕ

-- `mqvpn_reorder_profile_preset`; `none` is the return value 0.
unfoldable pub profile_preset : Profile → Option Preset
profile_preset Profile.quic_bulk = some (record { wait_ms = 50; cap = 1024 })
profile_preset Profile.cellular_bond = some (record { wait_ms = 50; cap = 1024 })
profile_preset Profile.fiber_lte = some (record { wait_ms = 50; cap = 2048 })
profile_preset Profile.low_latency = none
profile_preset Profile.default_udp = none

-- The loop of `mqvpn_reorder_match_rule`
unfoldable pub first_match : List Rule → FlowKey → Option Rule
first_match [] key = none
first_match (r ∷ rs) key =
    if r.proto == key.proto && (r.port == key.src_port || r.port == key.dst_port)
    then some r
    else first_match rs key

unfoldable pub match_rule : Config → FlowKey → Option Rule
match_rule cfg key = first_match cfg.rules key

-- `mqvpn_reorder_cap_is_valid`
unfoldable pub cap_is_valid : ℕ → Bool
cap_is_valid cap = not (cap == 0) && bit_and cap (cap - 1) == 0

abbrev is_default_udp : Profile → Bool
is_default_udp Profile.default_udp = true
is_default_udp _ = false

abbrev pub preset_wait : Option Preset → ℕ → ℕ
preset_wait none global = global
preset_wait (some p) global = p.wait_ms

abbrev pub preset_cap : Option Preset → ℕ → ℕ
preset_cap none global = global
preset_cap (some p) global = p.cap

-- One round of `mqvpn_reorder_config_finalize`
unfoldable pub resolve : Config → Rule → Rule
resolve cfg r =
    let preset = profile_preset r.profile in
    let rcap = if not (cap_is_valid r.explicit_cap) then 0 else r.explicit_cap in
    let cap =
      if not (rcap == 0)
      then rcap
      else if cfg.has_explicit_cap
      then cfg.cap_packets_per_flow
      else preset_cap preset cfg.cap_packets_per_flow in
    record r {
      resolved_wait_ms =
          if is_default_udp r.profile
          then 0
          else if not (r.explicit_wait_ms == 0)
          then r.explicit_wait_ms
          else if cfg.has_explicit_wait
          then cfg.max_wait_ms
          else preset_wait preset cfg.max_wait_ms;
      resolved_cap = if not (cap_is_valid cap) then 1024 else cap;
    }

unfoldable pub config_finalize : Config → Config
config_finalize cfg = record cfg { rules = map (resolve cfg) cfg.rules }

unfoldable pub config_default : Config
config_default = record {
  mode = Mode.off;
  max_wait_ms = 30;
  cap_packets_per_flow = 1024;
  max_buffer_bytes_per_flow = 1572864;
  classify_window = 64;
  ack_demote_max_large_packets = 3;
  small_packet_threshold_bytes = 200;
  reset_mark_packets = 8;
  reset_idle_grace_ms = 10000;
  max_flows = 65536;
  global_max_buffer_bytes = 67108864;
  ingress_idle_timeout_sec = 30;
  egress_idle_timeout_sec = 300;
  eval_force_no_demotion = false;
  has_explicit_wait = false;
  has_explicit_cap = false;
  rules = [];
}

-- `mqvpn_reorder_config_validate`; `true` is the return value 0.
unfoldable pub config_validate : Config → Bool
config_validate cfg =
    if leb cfg.egress_idle_timeout_sec cfg.ingress_idle_timeout_sec
    then false
    else cap_is_valid cfg.cap_packets_per_flow

-- The cap and the wait that `flow_get_or_create` and `mqvpn_reorder_rx_on_packet` give to a flow.
unfoldable pub flow_cap : Config → FlowKey → ℕ
flow_cap cfg key = elim (match_rule cfg key) [
  | none ↦ cfg.cap_packets_per_flow
  | some r ↦ r.resolved_cap
]

unfoldable pub flow_wait : Config → FlowKey → ℕ
flow_wait cfg key = elim (match_rule cfg key) [
  | none ↦ cfg.max_wait_ms
  | some r ↦ r.resolved_wait_ms
]
