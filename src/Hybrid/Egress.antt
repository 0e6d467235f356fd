-- ===== src/Hybrid/Egress.antt =====
-- The server side of the TCP lane: which targets may be reached, and the path that names a target.
-- tcp_egress.c, and `svr_get_egress_policy` of mqvpn_server.c.
pub mod Access
pub mod Target
use mqcpn.Prelude.{
  ℕ, suc, ◌+◌, ◌-◌, ◌*◌, Bool, true, false, not, ◌&&◌, ◌||◌, Option, none, some, List, [], ◌∷◌,
  ◌++◌, ltb, leb, ◌==◌, if◌then◌else◌, length, take, drop, same_bytes,
}
use mqcpn.Prelude.Maybe.{◌>>=◌}
use mqcpn.Prelude.Text.{split_at, is_digit}
use mqcpn.Hybrid.Cidr.{Cidr, cidr_match, range_of}
use mqcpn.Hybrid.Policy.{HybridConfig}

abbrev cidr : ℕ → ℕ → Cidr
cidr net mask = record { net = net; mask = mask }

-- `DEFAULT_DENY_V4`
abbrev pub default_deny_v4 : List Cidr
default_deny_v4 =
    cidr 0x00000000 0xFF000000
    ∷ cidr 0x7F000000 0xFF000000
    ∷ cidr 0x0A000000 0xFF000000
    ∷ cidr 0xAC100000 0xFFF00000
    ∷ cidr 0xC0A80000 0xFFFF0000
    ∷ cidr 0xA9FE0000 0xFFFF0000
    ∷ cidr 0x64400000 0xFFC00000
    ∷ cidr 0xE0000000 0xF0000000
    ∷ cidr 0xF0000000 0xF0000000
    ∷ cidr 0xFFFFFFFF 0xFFFFFFFF
    ∷ []

-- The loops of the decision: whether a row matches.
unfoldable pub any_match : List Cidr → ℕ → Bool
any_match [] ip = false
any_match (e ∷ es) ip = if cidr_match e ip then true else any_match es ip

-- `svr_tcp_egress_acl_decide`
unfoldable pub acl_decide : ℕ → List Cidr → List Cidr → Cidr → Bool
acl_decide ip allow deny tunnel =
    if cidr_match tunnel ip
    then false
    else if any_match allow ip
    then true
    else if any_match default_deny_v4 ip
    then false
    else if any_match deny ip
    then false
    else true

-- `svr_tcp_egress_acl_allowed`, with `svr_get_egress_policy` for the address pool's base and prefix.
unfoldable pub acl_allowed : (List ℕ → Option ℕ) → HybridConfig → ℕ → ℕ → List ℕ → Bool
acl_allowed inet_pton hybrid base prefix_len target_host = elim (inet_pton target_host) [
  | none ↦ false
  | some ip ↦ acl_decide ip hybrid.egress_allow hybrid.egress_deny (range_of base prefix_len)
]

-- `TCP_EGRESS_PATH_PREFIX`: "/.well-known/mqvpn/tcp/"
abbrev pub path_prefix : List ℕ
path_prefix =
    47 ∷ 46 ∷ 119 ∷ 101 ∷ 108 ∷ 108 ∷ 45 ∷ 107 ∷ 110 ∷ 111 ∷ 119 ∷ 110 ∷ 47 ∷ 109 ∷ 113 ∷ 118 ∷ 112
    ∷ 110 ∷ 47 ∷ 116 ∷ 99 ∷ 112 ∷ 47 ∷ []

-- The digits of a port; `none` for another byte, and as soon as the value leaves 16 bits.
unfoldable pub port_digits : ℕ → List ℕ → Option ℕ
port_digits port [] = some port
port_digits port (c ∷ s) =
    let next = port * 10 + (c - 48) in
    let rest = port_digits next s in
    if not (is_digit c) then none else if ltb 65535 next then none else rest

abbrev pub checked_port : List ℕ → Option ℕ
checked_port digits =
    if length digits == 0 || ltb 5 (length digits)
    then none
    else (do port ← port_digits 0 digits; if ltb port 1 then none else some port)

-- `svr_tcp_egress_parse_path` into a buffer of `cap` bytes: the host and the port.
unfoldable pub parse_path : ℕ → List ℕ → Option (List ℕ × ℕ)
parse_path cap path =
    if leb (length path) 23 || not (same_bytes (take 23 path) path_prefix) then none else do
      (host, after_host) ← split_at 47 (drop 23 path)
      (digits, after_port) ← split_at 47 after_host
      if length host == 0 || leb cap (length host) || not (length after_port == 0)
          then none
          else (do port ← checked_port digits; some (host, port))
