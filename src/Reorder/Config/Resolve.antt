-- ===== src/Reorder/Config/Resolve.antt =====
-- `mqvpn_reorder_config_finalize`: that it may run again, and the caps that it leaves.
use native.Mathlib.Nat.{pow-le-pow_right}
use mqcpn.Prelude.{
  ℕ, ◌^◌, ◌≡◌, ◌≤◌, ◌<◌, refl, ap, true, not, ◌&&◌, ◌||◌, Option, none, some, List, [], ◌∷◌, map,
  ◌==◌, if◌then◌else◌, arith, if-cases, if-both, dec_le, ap₂,
}
use mqcpn.Prelude.Bits.{pow_two_of_mask}
use mqcpn.Reorder.Packet.{FlowKey}
use mqcpn.Reorder.Config.{
  Profile, Rule, Config, preset_cap, profile_preset, first_match, match_rule, cap_is_valid, resolve,
  config_finalize, config_validate, flow_cap,
}

-- A cap that the ring can have: a power of two of a 32-bit number.
abbrev pub RingCap : ℕ → Type 0
RingCap cap = (k : ℕ) × (k ≤ 31) × (cap ≡ 2 ^ k)

pub cap_is_valid-RingCap : (cap : ℕ) → cap < 2 ^ 32 → cap_is_valid cap ≡ true → RingCap cap
unfolding cap_is_valid
cap_is_valid-RingCap cap small valid =
    let (k, is) = pow_two_of_mask cap (ground (arith, valid)) (ground (arith, valid)) in
    elim (dec_le k 31) [
      | yes le ↦ (k, le, is)
      | no nle ↦
          absurd (
            omega
              (arith, is, pow-le-pow_right {n = 2} (omega arith) {i = 32} {j = k} (omega arith)))
    ]

-- The caps of the configuration are 32-bit numbers.
abbrev pub ExplicitFit : List Rule → Type 0
ExplicitFit [] = 0 ≤ 0
ExplicitFit (r ∷ rs) = (r.explicit_cap < 2 ^ 32) × ExplicitFit rs

-- What is checked before the caps are resolved.
pub record Checked (cfg : Config) : Type 0 where
  pub valid : config_validate cfg ≡ true
  pub fits : cfg.cap_packets_per_flow < 2 ^ 32
  pub rules_fit : ExplicitFit cfg.rules

guarded-RingCap : (cap : ℕ) → cap < 2 ^ 32 → RingCap (if not (cap_is_valid cap) then 1024 else cap)
guarded-RingCap cap small =
    if-cases RingCap (not (cap_is_valid cap)) (λ _. (10, omega arith, omega arith))
      (λ valid. cap_is_valid-RingCap cap small (ground (arith, valid)))

preset-small :
    (p : Profile) (global : ℕ) → global < 2 ^ 32 → preset_cap (profile_preset p) global < 2 ^ 32
unfolding profile_preset
preset-small Profile.quic_bulk global h = omega arith
preset-small Profile.low_latency global h = h
preset-small Profile.default_udp global h = h
preset-small Profile.cellular_bond global h = omega arith
preset-small Profile.fiber_lte global h = omega arith

pub resolve-RingCap :
    (cfg : Config) (r : Rule)
    → cfg.cap_packets_per_flow < 2 ^ 32
    → r.explicit_cap < 2 ^ 32
    → RingCap (resolve cfg r).resolved_cap
unfolding resolve
resolve-RingCap cfg r fits small =
    let P = λ (c : ℕ). c < 2 ^ 32 in
    let rcap = if not (cap_is_valid r.explicit_cap) then 0 else r.explicit_cap in
    let rcap_small : P rcap = if-both P (not (cap_is_valid r.explicit_cap)) (omega arith) small in
    guarded-RingCap _ (
      if-both P (not (rcap == 0)) rcap_small (
        if-both P cfg.has_explicit_cap fits (preset-small r.profile cfg.cap_packets_per_flow fits)))

-- The cap of the rule that matches, or of the configuration.
abbrev chosen_cap : ℕ → Option Rule → ℕ
chosen_cap global none = global
chosen_cap global (some r) = r.resolved_cap

matched-RingCap :
    (cfg : Config) (rs : List Rule) (key : FlowKey)
    → Checked cfg
    → ExplicitFit rs
    → RingCap (chosen_cap cfg.cap_packets_per_flow (first_match (map (resolve cfg) rs) key))
unfolding first_match config_validate resolve
matched-RingCap cfg [] key c f =
    cap_is_valid-RingCap cfg.cap_packets_per_flow c.fits (let v = c.valid in ground arith)
matched-RingCap cfg (r ∷ rs) key c (small, f) =
    if-both (λ o. RingCap (chosen_cap cfg.cap_packets_per_flow o))
      (r.proto == key.proto && (r.port == key.src_port || r.port == key.dst_port))
      {x = some (resolve cfg r)} {y = first_match (map (resolve cfg) rs) key}
      (resolve-RingCap cfg r c.fits small) (matched-RingCap cfg rs key c f)

-- Under a configuration of 32-bit caps that `mqvpn_reorder_config_validate` accepts, every flow
-- gets a cap from the resolved rules that the ring can index by a mask: a power of two, at most
-- 2^31.
pub flow_cap-RingCap :
    (cfg : Config) (key : FlowKey) → Checked cfg → RingCap (flow_cap (config_finalize cfg) key)
unfolding flow_cap config_finalize match_rule
flow_cap-RingCap cfg key c =
    chosen (first_match (map (resolve cfg) cfg.rules) key)
      (matched-RingCap cfg cfg.rules key c c.rules_fit)
  where
    chosen :
        (o : Option Rule)
        → RingCap (chosen_cap cfg.cap_packets_per_flow o)
        → RingCap (elim o [ none ↦ cfg.cap_packets_per_flow | some r ↦ r.resolved_cap ])
    chosen none h = h
    chosen (some r) h = h

resolve-twice :
    (cfg : Config) (r : Rule) (rs : List Rule)
    → resolve (record cfg { rules = rs }) (resolve cfg r) ≡ resolve cfg r
unfolding resolve
resolve-twice cfg r rs = refl

map-resolve-twice :
    (cfg : Config) (rs qs : List Rule)
    → map (resolve (record cfg { rules = qs })) (map (resolve cfg) rs) ≡ map (resolve cfg) rs
map-resolve-twice cfg [] qs = refl
map-resolve-twice cfg (r ∷ rs) qs =
    ap₂ (λ (x : Rule) (xs : List Rule). x ∷ xs) (resolve-twice cfg r qs)
      (map-resolve-twice cfg rs qs)

-- `mqvpn_reorder_config_finalize` is idempotent.
pub config_finalize-twice :
    (cfg : Config) → config_finalize (config_finalize cfg) ≡ config_finalize cfg
unfolding config_finalize
config_finalize-twice cfg =
    ap (λ (rs : List Rule). record cfg { rules = rs })
      (map-resolve-twice cfg cfg.rules (map (resolve cfg) cfg.rules))
