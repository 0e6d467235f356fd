-- ===== src/Users/Tests.antt =====
-- Runs of the table of users, and its theorems at concrete users.
use mqcpn.Prelude.{zero, suc, ℕ, ◌≡◌, refl, arith, List, [], ◌∷◌}
use mqcpn.Users.{
  Users, is_clean, find_from, append_user, add_user, shift_down, remove_user, server_remove_user,
  set_user_fixed_ip, no_users, UserCode,
}
use mqcpn.Users.Keys.{TidyUsers}
use mqcpn.Users.Changes.{Added, Removed, add_user_lem, remove_user_lem}
use mqcpn.Users.Reach.{UsersReach, start, added, pinned, UsersReach-Tidy}

abbrev ann : List ℕ
ann = 97 ∷ 110 ∷ 110 ∷ []

abbrev bob : List ℕ
bob = 98 ∷ 111 ∷ 98 ∷ []

abbrev secret : List ℕ
secret = 115 ∷ 51 ∷ []

-- "10.0.0.9"
abbrev address : List ℕ
address = 49 ∷ 48 ∷ 46 ∷ 48 ∷ 46 ∷ 48 ∷ 46 ∷ 57 ∷ []

abbrev with_ann : Users
with_ann = (set_user_fixed_ip (add_user no_users ann secret).0 ann address).0

with_ann-Reach : UsersReach with_ann
with_ann-Reach = pinned ann address (added ann secret start (omega arith) (omega arith))

-- The user added after a removal gets the fixed address of the one removed from the configuration,
inherited_address : (add_user (remove_user with_ann ann).0 bob secret).0.fixed_ips 0 ≡ address
unfolding add_user append_user remove_user set_user_fixed_ip find_from is_clean shift_down
inherited_address = refl

-- but not of the one removed from the running server.
cleared_address : (add_user (server_remove_user with_ann ann).0 bob secret).0.fixed_ips 0 ≡ []
unfolding add_user append_user server_remove_user set_user_fixed_ip find_from is_clean shift_down
cleared_address = refl

add_user_lem_example : Added with_ann bob secret (add_user with_ann bob secret)
add_user_lem_example =
    add_user_lem with_ann bob secret (UsersReach-Tidy with_ann with_ann-Reach) (omega arith)
      (omega arith)

remove_user_lem_example :
    Removed with_ann ann (remove_user with_ann ann)
    × Removed with_ann ann (server_remove_user with_ann ann)
remove_user_lem_example =
    remove_user_lem with_ann ann (UsersReach-Tidy with_ann with_ann-Reach) refl

UsersReach-Tidy_example : TidyUsers with_ann
UsersReach-Tidy_example = UsersReach-Tidy with_ann with_ann-Reach

abbrev long_name : ℕ → List ℕ
long_name zero = []
long_name (suc n) = 97 ∷ long_name n

-- A user whose name does not fit its array is stored under a shorter one, and is not found again.
long_name_lost :
    ((add_user no_users (long_name 70) secret).1 ≡ UserCode.ok)
    × ((remove_user (add_user no_users (long_name 70) secret).0 (long_name 70)).1
        ≡ UserCode.err_invalid_arg)
unfolding add_user append_user remove_user find_from is_clean
long_name_lost = (refl, refl)
