-- ===== src/Users.antt =====
-- The table of users in src/mqvpn_config.c, and its removal in src/mqvpn_server.c.
pub mod Search
pub mod Lookup
pub mod Keys
pub mod Changes
pub mod Reach
mod Tests
use mqcpn.Prelude.{
  ℕ, zero, suc, ◌+◌, ◌-◌, Bool, true, false, not, ◌&&◌, ◌||◌, Option, none, some, List, [], ◌∷◌,
  ltb, leb, ◌==◌, if◌then◌else◌, take, same_bytes,
}
use mqcpn.Reorder.Buckets.{replace}

-- The users' part of `mqvpn_config_t`: three arrays and the number of entries in use. A string is
-- its bytes with no terminator.
pub record Users : Type 0 where
  pub names : ℕ → List ℕ
  pub keys : ℕ → List ℕ
  pub fixed_ips : ℕ → List ℕ
  pub n_users : ℕ

-- `mqvpn_error_t`, the values that the operations on users return
pub data UserCode : Type 0 where
  ok : UserCode
  err_invalid_arg : UserCode
  err_max_clients : UserCode

abbrev pub is_blank : List ℕ → Bool
is_blank [] = true
is_blank (c ∷ s) = false

-- The scan for characters that would break JSON: 34 is a quote, 92 a backslash.
unfoldable pub is_clean : List ℕ → Bool
is_clean [] = true
is_clean (c ∷ s) = if c == 34 || c == 92 || ltb c 32 then false else is_clean s

-- The loop that compares the names, `rounds` of it left.
unfoldable pub find_from : (ℕ → List ℕ) → ℕ → ℕ → List ℕ → Option ℕ
find_from names zero i name = none
find_from names (suc rounds) i name =
    let rest = find_from names rounds (suc i) name in
    if same_bytes (names i) name then some i else rest

abbrev pub find_user : Users → List ℕ → Option ℕ
find_user u name = find_from u.names u.n_users 0 name

-- `snprintf(dst, size, "%s", src)`
abbrev pub cut_to : ℕ → List ℕ → List ℕ
cut_to size s = take (size - 1) s

unfoldable pub append_user : Users → List ℕ → List ℕ → Users × UserCode
append_user u name key = if leb 64 u.n_users then (u, UserCode.err_max_clients) else (
  record u {
    names = replace u.names u.n_users (cut_to 64 name);
    keys = replace u.keys u.n_users (cut_to 256 key);
    n_users = suc u.n_users;
  },
  UserCode.ok,
)

-- `mqvpn_config_add_user`; the pointers are not null.
unfoldable pub add_user : Users → List ℕ → List ℕ → Users × UserCode
add_user u name key =
    if is_blank name || is_blank key
    then (u, UserCode.err_invalid_arg)
    else if not (is_clean name)
    then (u, UserCode.err_invalid_arg)
    else elim (find_user u name) [
      | some i ↦ (record u { keys = replace u.keys i (cut_to 256 key) }, UserCode.ok)
      | none ↦ append_user u name key
    ]

-- The loop that moves the entries behind `j` down by one, `rounds` of it left.
unfoldable pub shift_down : ℕ → ℕ → (ℕ → List ℕ) → ℕ → List ℕ
shift_down zero j entries = entries
shift_down (suc rounds) j entries = shift_down rounds (suc j) (replace entries j (entries (suc j)))

abbrev pub taken_out : Users → ℕ → Users
taken_out u i =
    let rounds = u.n_users - suc i in
    record {
      names = shift_down rounds i u.names;
      keys = shift_down rounds i u.keys;
      fixed_ips = shift_down rounds i u.fixed_ips;
      n_users = u.n_users - 1;
    }

-- `mqvpn_config_remove_user`
unfoldable pub remove_user : Users → List ℕ → Users × UserCode
remove_user u name =
    if is_blank name then (u, UserCode.err_invalid_arg) else elim (find_user u name) [
      | some i ↦ (taken_out u i, UserCode.ok)
      | none ↦ (u, UserCode.err_invalid_arg)
    ]

-- The table's part of `mqvpn_server_remove_user`, which clears the last address as well.
unfoldable pub server_remove_user : Users → List ℕ → Users × UserCode
server_remove_user u name =
    if is_blank name then (u, UserCode.err_invalid_arg) else elim (find_user u name) [
      | some i ↦
          let u' = taken_out u i in
          (record u' { fixed_ips = replace u'.fixed_ips (u.n_users - 1) [] }, UserCode.ok)
      | none ↦ (u, UserCode.err_invalid_arg)
    ]

-- `mqvpn_config_set_user_fixed_ip`
unfoldable pub set_user_fixed_ip : Users → List ℕ → List ℕ → Users × UserCode
set_user_fixed_ip u name ip =
    if is_blank name then (u, UserCode.err_invalid_arg) else elim (find_user u name) [
      | some i ↦ (record u { fixed_ips = replace u.fixed_ips i (cut_to 20 ip) }, UserCode.ok)
      | none ↦ (u, UserCode.err_invalid_arg)
    ]

-- `calloc` in `mqvpn_config_new`
abbrev pub no_users : Users
no_users = record { names = λ _. []; keys = λ _. []; fixed_ips = λ _. []; n_users = 0 }
