-- ===== src/Settings/Lanes.antt =====
-- The setters of the reorder and of the hybrid settings.
use mqcpn.Prelude.{
  ℕ, Bool, true, false, not, ◌||◌, Option, none, some, List, [], ◌∷◌, ◌++◌, ltb, leb, ◌==◌,
  if◌then◌else◌, length,
}
use mqcpn.Prelude.Maybe.{◌>>=◌}
use mqcpn.Reorder.Config.{Config, Mode, Profile, Rule}
use mqcpn.Hybrid.Cidr.{Cidr, parse_cidr_v4}
use mqcpn.Hybrid.Policy.{HybridConfig, TcpMode, stream, raw_only, auto_mode}
use mqcpn.Settings.{ℤ, pos, negsuc, is_set, Settings}
use mqcpn.Settings.Setters.{taken_if}

-- `none` is a mode that is neither OFF nor ON.
unfoldable pub set_reorder_enabled : Option Mode → Settings → Settings × Bool
set_reorder_enabled (some mode) s = (record s { reorder = record s.reorder { mode = mode } }, true)
set_reorder_enabled none s = (s, false)

unfoldable pub set_reorder_wait : ℕ → Settings → Settings × Bool
set_reorder_wait max_wait_ms s = (
  record s { reorder = record s.reorder { max_wait_ms = max_wait_ms; has_explicit_wait = true } },
  true,
)

unfoldable pub set_reorder_cap : ℕ → ℕ → Settings → Settings × Bool
set_reorder_cap cap_packets max_bytes_per_flow s = (
  record s {
    reorder = record s.reorder {
      cap_packets_per_flow = cap_packets;
      max_buffer_bytes_per_flow = max_bytes_per_flow;
      has_explicit_cap = true;
    };
  },
  true,
)

unfoldable pub set_reorder_classify : ℕ → ℕ → ℕ → Settings → Settings × Bool
set_reorder_classify window max_large small_threshold s = (
  record s {
    reorder = record s.reorder {
      classify_window = window;
      ack_demote_max_large_packets = max_large;
      small_packet_threshold_bytes = small_threshold;
    };
  },
  true,
)

unfoldable pub set_reorder_reset : ℕ → ℕ → Settings → Settings × Bool
set_reorder_reset mark_packets idle_grace_ms s = (
  record s {
    reorder = record s.reorder {
      reset_mark_packets = mark_packets;
      reset_idle_grace_ms = idle_grace_ms;
    };
  },
  true,
)

unfoldable pub set_reorder_limits : ℕ → ℕ → ℕ → ℕ → Settings → Settings × Bool
set_reorder_limits max_flows global_max_bytes ingress_idle_sec egress_idle_sec s = (
  record s {
    reorder = record s.reorder {
      max_flows = max_flows;
      global_max_buffer_bytes = global_max_bytes;
      ingress_idle_timeout_sec = ingress_idle_sec;
      egress_idle_timeout_sec = egress_idle_sec;
    };
  },
  true,
)

-- A new rule: everything but the caller's three fields is zero.
abbrev pub new_rule : ℕ → ℕ → Profile → Rule
new_rule proto port profile = record {
  proto = proto;
  port = port;
  profile = profile;
  explicit_wait_ms = 0;
  explicit_cap = 0;
  resolved_wait_ms = 0;
  resolved_cap = 0;
}

-- `none` is a profile outside the enumeration.
unfoldable pub add_reorder_rule : ℕ → ℕ → Option Profile → Settings → Settings × Bool
add_reorder_rule proto port none s = (s, false)
add_reorder_rule proto port (some profile) s =
    taken_if (not (leb 16 (length s.reorder.rules)))
      (record s {
        reorder = record s.reorder { rules = s.reorder.rules ++ new_rule proto port profile ∷ [] };
      })
      s

unfoldable pub apply_reorder : Config → Settings → Settings × Bool
apply_reorder src s = (
  record s { reorder = record src { eval_force_no_demotion = s.reorder.eval_force_no_demotion } },
  true,
)

unfoldable pub set_hybrid_enabled : ℤ → Settings → Settings × Bool
set_hybrid_enabled enabled s =
    (record s { hybrid = record s.hybrid { enabled = is_set enabled } }, true)

-- `(mqvpn_hybrid_tcp_mode_t)mode` for a mode from 0 to 2.
unfoldable pub tcp_mode_of : ℤ → Option TcpMode
tcp_mode_of (negsuc n) = none
tcp_mode_of (pos n) =
    if n == 0
    then some stream
    else if n == 1
    then some raw_only
    else if n == 2
    then some auto_mode
    else none

abbrev pub with_tcp_mode : Option TcpMode → Settings → Settings × Bool
with_tcp_mode none s = (s, false)
with_tcp_mode (some m) s = (record s { hybrid = record s.hybrid { tcp_mode = m } }, true)

unfoldable pub set_hybrid_tcp_mode : ℤ → Settings → Settings × Bool
set_hybrid_tcp_mode mode s = with_tcp_mode (tcp_mode_of mode) s

unfoldable pub set_hybrid_limits : ℕ → ℕ → Settings → Settings × Bool
set_hybrid_limits tcp_max_flows tcp_idle_timeout_sec s =
    taken_if (not (tcp_max_flows == 0))
      (record s {
        hybrid = record s.hybrid {
          tcp_max_flows = tcp_max_flows;
          tcp_idle_timeout_sec = tcp_idle_timeout_sec;
        };
      })
      s

unfoldable pub apply_hybrid : HybridConfig → Settings → Settings × Bool
apply_hybrid src s = (record s { hybrid = src }, true)

unfoldable pub set_hybrid_connect_timeout : ℕ → Settings → Settings × Bool
set_hybrid_connect_timeout sec s =
    taken_if (not (sec == 0))
      (record s { hybrid = record s.hybrid { tcp_connect_timeout_sec = sec } }) s

unfoldable pub set_hybrid_max_global_flows : ℕ → Settings → Settings × Bool
set_hybrid_max_global_flows max_flows s =
    taken_if (not (max_flows == 0))
      (record s { hybrid = record s.hybrid { tcp_max_global_flows = max_flows } }) s

-- The loops that parse a list of ranges.
unfoldable pub parse_all : (List ℕ → Option ℕ) → List (List ℕ) → Option (List Cidr)
parse_all inet_pton [] = some []
parse_all inet_pton (text ∷ texts) = do
  range ← parse_cidr_v4 inet_pton text
  ranges ← parse_all inet_pton texts
  some (range ∷ ranges)

-- `inet_pton` is a parameter; the counts are the lengths of the two arrays.
unfoldable pub set_hybrid_egress_acl :
    (List ℕ → Option ℕ) → List (List ℕ) → List (List ℕ) → Settings → Settings × Bool
set_hybrid_egress_acl inet_pton allow deny s =
    if ltb 32 (length allow) || ltb 32 (length deny)
    then (s, false)
    else elim (parse_all inet_pton allow) [
      | none ↦ (s, false)
      | some ranges ↦ elim (parse_all inet_pton deny) [
        | none ↦ (s, false)
        | some denied ↦ (
          record s { hybrid = record s.hybrid { egress_allow = ranges; egress_deny = denied } },
          true,
        )
      ]
    ]
