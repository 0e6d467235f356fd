-- ===== src/Users/Reach.antt =====
-- The states that a table of users can reach.
use mqcpn.Prelude.{ℕ, ◌≡◌, ◌<◌, inl, inr, sym, subst, arith, false, List, length, Bool-cases}
use mqcpn.Users.{
  Users, UserCode, is_blank, add_user, remove_user, server_remove_user, set_user_fixed_ip, no_users,
}
use mqcpn.Users.Lookup.{Sought, seek}
use mqcpn.Users.Keys.{TidyUsers}
use mqcpn.Users.Changes.{Added, Removed, add_user_lem, remove_user_lem}

-- The tables that the operations make of an empty one, names and keys within their arrays.
pub data UsersReach : Users → Type 0 where
  start : UsersReach no_users
  added :
      {u : Users} (name key : List ℕ)
      → UsersReach u
      → length name < 64
      → length key < 256
      → UsersReach (add_user u name key).0
  removed : {u : Users} (name : List ℕ) → UsersReach u → UsersReach (remove_user u name).0
  server_removed :
      {u : Users} (name : List ℕ) → UsersReach u → UsersReach (server_remove_user u name).0
  pinned :
      {u : Users} (name ip : List ℕ) → UsersReach u → UsersReach (set_user_fixed_ip u name ip).0

removal-Tidy :
    (u : Users) (name : List ℕ) (result : Users × UserCode)
    → TidyUsers u
    → Removed u name result
    → TidyUsers result.0
removal-Tidy u name result t (inl (_, is)) =
    subst (λ (r : Users × UserCode). TidyUsers r.0) (sym is) t
removal-Tidy u name result t (inr (u', is, (t', _, _, _))) =
    subst (λ (r : Users × UserCode). TidyUsers r.0) (sym is) t'

remove_user-Tidy :
    (u : Users) (name : List ℕ)
    → TidyUsers u
    → TidyUsers (remove_user u name).0 × TidyUsers (server_remove_user u name).0
unfolding remove_user server_remove_user
remove_user-Tidy u name t = elim (Bool-cases (is_blank name)) [
  | inl empty ↦ rw empty (t, t)
  | inr filled ↦
      let (file, server) = remove_user_lem u name t filled in
      (
        removal-Tidy u name (remove_user u name) t file,
        removal-Tidy u name (server_remove_user u name) t server,
      )
]

add_user-Tidy :
    (u : Users) (name key : List ℕ)
    → TidyUsers u
    → length name < 64
    → length key < 256
    → TidyUsers (add_user u name key).0
add_user-Tidy u name key t short short_key = go (add_user_lem u name key t short short_key)
  where
    by :
        {r : Users × UserCode} (u' : Users) (c : UserCode)
        → r ≡ (u', c)
        → TidyUsers u'
        → TidyUsers r.0
    by u' c is t' = subst (λ (r : Users × UserCode). TidyUsers r.0) (sym is) t'

    go : Added u name key (add_user u name key) → TidyUsers (add_user u name key).0
    go (inl (_, is)) = by u UserCode.err_invalid_arg is t
    go (inr (inl (_, _, is))) = by u UserCode.err_max_clients is t
    go (inr (inr (u', is, t', _))) = by u' UserCode.ok is t'

set_user_fixed_ip-Tidy :
    (u : Users) (name ip : List ℕ) → TidyUsers u → TidyUsers (set_user_fixed_ip u name ip).0
unfolding set_user_fixed_ip
set_user_fixed_ip-Tidy u name ip t = elim (Bool-cases (is_blank name)) [
  | inl empty ↦ rw empty t
  | inr filled ↦ go (seek u name) filled
]
  where
    go : Sought u name → is_blank name ≡ false → TidyUsers (set_user_fixed_ip u name ip).0
    go (Sought.present i e lt is) filled = rw (filled, e) t
    go (Sought.missing e absent) filled = rw (filled, e) t

-- However users are added, removed and given fixed addresses, starting with no users and with
-- names and keys within their arrays: there are at most 64 users, their names are printable in
-- the control interface, and no two of them are the same.
pub UsersReach-Tidy : (u : Users) → UsersReach u → TidyUsers u
UsersReach-Tidy _ UsersReach.start = record {
  fits = omega arith;
  named = λ i lt. absurd (omega arith);
  distinct = λ i j lt_i lt_j same. absurd (omega arith);
}
UsersReach-Tidy _ (UsersReach.added {u} name key r short short_key) =
    add_user-Tidy u name key (UsersReach-Tidy u r) short short_key
UsersReach-Tidy _ (UsersReach.removed {u} name r) =
    (remove_user-Tidy u name (UsersReach-Tidy u r)).0
UsersReach-Tidy _ (UsersReach.server_removed {u} name r) =
    (remove_user-Tidy u name (UsersReach-Tidy u r)).1
UsersReach-Tidy _ (UsersReach.pinned {u} name ip r) =
    set_user_fixed_ip-Tidy u name ip (UsersReach-Tidy u r)
