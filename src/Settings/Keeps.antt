-- ===== src/Settings/Keeps.antt =====
-- What calls of the setters keep, and the calls whose arguments are looked at.
use mqcpn.Prelude.{
  ℕ, ◌≡◌, ◌≤◌, refl, arith, Bool, true, false, ◌||◌, Option, none, some, List, [], ◌∷◌, ltb,
  if◌then◌else◌, length, Bool-cases, Option-cases, inl, inr,
}
use mqcpn.Hybrid.Cidr.{Cidr, parse_cidr_v4}
use mqcpn.Hybrid.Policy.{
  TcpMode, is_mode, stream, raw_only, auto_mode, outside, hybrid_config_validate,
}
use mqcpn.Settings.{ℤ, pos, negsuc, in_range, is_positive, Settings}
use mqcpn.Settings.Setters.{taken_if, is_valid_scheduler, is_valid_cc}
use mqcpn.Settings.Lanes.{
  tcp_mode_of, set_hybrid_tcp_mode, parse_all, with_tcp_mode, set_hybrid_egress_acl,
}
use mqcpn.Prelude.Maybe.{>>=-eq-some}

-- What the settings promise to the client and the server that are made of them.
abbrev pub Sane : Settings → Type 0
Sane s =
    (is_valid_scheduler s.scheduler ≡ true)
    × (is_valid_cc s.cc ≡ true)
    × (in_range 0 2 s.datagram_redundancy ≡ true)
    × (s.init_max_path_id ≤ 4294967295)
    × ((in_range 0 0 s.tun_mtu || in_range 68 65535 s.tun_mtu) ≡ true)
    × (is_positive s.reconnect_interval_sec ≡ true)
    × (length s.reorder.rules ≤ 16)
    × (hybrid_config_validate s.hybrid ≡ true)
    × (length s.hybrid.egress_allow ≤ 32)
    × (length s.hybrid.egress_deny ≤ 32)

-- What a call keeps: settings that are sane, and all of them when it is refused.
abbrev pub Keeps : Settings → Settings × Bool → Type 0
Keeps s result = Sane result.0 × (result.1 ≡ false → result.0 ≡ s)

pub kept : (s s' : Settings) → Sane s' → Keeps s (s', true)
kept s s' t = (t, λ refused. absurd (ground (arith, refused)))

pub refused : (s : Settings) → Sane s → Keeps s (s, false)
refused s t = (t, λ _. refl)

-- A guarded setter: the new settings are sane if the guard holds.
pub guarded :
    (b : Bool) (s s' : Settings) → Sane s → (b ≡ true → Sane s') → Keeps s (taken_if b s' s)
guarded true s s' t new = kept s s' (new refl)
guarded false s s' t new = refused s t

pub wider :
    (n : ℤ)
    → (in_range 0 0 n || in_range 1280 9000 n) ≡ true
    → (in_range 0 0 n || in_range 68 65535 n) ≡ true
wider (pos n) holds = ground (arith, holds)
wider (negsuc n) holds = holds

pub positive : (n : ℤ) → is_positive (if is_positive n then n else pos 5) ≡ true
positive (pos n) = ground arith
positive (negsuc n) = refl

tcp_mode_of-is_mode : (mode : ℤ) (m : TcpMode) → tcp_mode_of mode ≡ some m → is_mode m ≡ true
unfolding tcp_mode_of
tcp_mode_of-is_mode mode stream h = refl
tcp_mode_of-is_mode mode raw_only h = refl
tcp_mode_of-is_mode mode auto_mode h = refl
tcp_mode_of-is_mode (negsuc n) outside h = cc
tcp_mode_of-is_mode (pos n) outside h = ground (arith, h)

pub mode_kept : (mode : ℤ) (s : Settings) → Sane s → Keeps s (set_hybrid_tcp_mode mode s)
unfolding set_hybrid_tcp_mode hybrid_config_validate
mode_kept mode s (a, b, c, d, e, f, g, h, i, j) = go (tcp_mode_of mode) refl
  where
    go : (o : Option TcpMode) → tcp_mode_of mode ≡ o → Keeps s (with_tcp_mode o s)
    go none is = refused s (a, b, c, d, e, f, g, h, i, j)
    go (some m) is =
        let valid = tcp_mode_of-is_mode mode m is in
        kept s (record s { hybrid = record s.hybrid { tcp_mode = m } })
          (a, b, c, d, e, f, g, ground (arith, valid, h), i, j)

parse_all-length :
    (inet_pton : List ℕ → Option ℕ) (texts : List (List ℕ)) (ranges : List Cidr)
    → parse_all inet_pton texts ≡ some ranges
    → length ranges ≡ length texts
unfolding parse_all
parse_all-length inet_pton [] ranges h = ground (arith, h)
parse_all-length inet_pton (text ∷ texts) ranges h =
    let (range, _, more) = >>=-eq-some (parse_cidr_v4 inet_pton text) _ h in
    let (rest, parsed, last) = >>=-eq-some (parse_all inet_pton texts) _ more in
    ground (arith, last, parse_all-length inet_pton texts rest parsed)

pub acl_kept :
    (inet_pton : List ℕ → Option ℕ) (allow deny : List (List ℕ)) (s : Settings)
    → Sane s
    → Keeps s (set_hybrid_egress_acl inet_pton allow deny s)
unfolding set_hybrid_egress_acl hybrid_config_validate
acl_kept inet_pton allow deny s (a, b, c, d, e, f, g, h, i, j) =
    elim (Bool-cases (ltb 32 (length allow) || ltb 32 (length deny))) [
      | inl many ↦ rw many (refused s (a, b, c, d, e, f, g, h, i, j))
      | inr few ↦ elim (Option-cases (parse_all inet_pton allow)) [
        | inl bad ↦ rw (few, bad) (refused s (a, b, c, d, e, f, g, h, i, j))
        | inr (ranges, is) ↦ elim (Option-cases (parse_all inet_pton deny)) [
          | inl bad ↦ rw (few, is, bad) (refused s (a, b, c, d, e, f, g, h, i, j))
          | inr (denied, is') ↦
              let n = parse_all-length inet_pton allow ranges is in
              let n' = parse_all-length inet_pton deny denied is' in
              rw (few, is, is')
                (kept s
                  (record s {
                    hybrid = record s.hybrid { egress_allow = ranges; egress_deny = denied };
                  })
                  (a, b, c, d, e, f, g, h, ground (arith, few, n), ground (arith, few, n')))
        ]
      ]
    ]
