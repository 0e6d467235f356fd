-- ===== src/Settings/Tests.antt =====
-- Runs of the setters, and the theorems on them at concrete calls.
use mqcpn.Prelude.{ℕ, ◌≡◌, refl, true, false, Option, none, List, [], ◌∷◌}
use mqcpn.Settings.{pos, Settings, config_new}
use mqcpn.Settings.Setters.{set_mtu, set_tun_mtu}
use mqcpn.Settings.Lanes.{apply_hybrid, apply_reorder}
use mqcpn.Hybrid.Policy.{hybrid_config_default, hybrid_config_validate}
use mqcpn.Reorder.Config.{config_default}
use mqcpn.Settings.Requests.{Request, perform, mtu, hybrid_egress_acl}
use mqcpn.Settings.Keeps.{Keeps}
use mqcpn.Settings.Sanity.{start, called, perform-Keeps, SettingsReach-Sane}

-- An `inet_pton` that reads nothing.
abbrev reads_nothing : List ℕ → Option ℕ
reads_nothing text = none

-- The two setters of the MTU disagree: 68 is accepted by the one and refused by the other.
mtu_of_68 : ((set_mtu (pos 68) config_new).1 ≡ true) × ((set_tun_mtu (pos 68) config_new).1 ≡ false)
unfolding set_mtu set_tun_mtu
mtu_of_68 = (refl, refl)

abbrev small_mtu : Settings
small_mtu = (perform reads_nothing (mtu (pos 68)) config_new).0

-- The bulk calls check nothing: a hybrid configuration with no room for a flow is copied, and so is the
-- list of rules.
bulk_unchecked :
    (hybrid_config_validate
        (apply_hybrid (record hybrid_config_default { tcp_max_flows = 0 }) config_new).0.hybrid
      ≡ false)
    × ((apply_reorder config_default config_new).0.reorder ≡ config_default)
unfolding apply_hybrid apply_reorder hybrid_config_validate config_default
bulk_unchecked = (refl, refl)

-- A list with an entry that is no range is refused.
abbrev bad_list : Request
bad_list = hybrid_egress_acl ((49 ∷ []) ∷ []) []

perform-Keeps_example : Keeps small_mtu (perform reads_nothing bad_list small_mtu)
perform-Keeps_example =
    perform-Keeps reads_nothing bad_list small_mtu
      (SettingsReach-Sane reads_nothing small_mtu (called (mtu (pos 68)) start))
