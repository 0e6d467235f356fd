-- ===== src/Users/Changes.antt =====
-- What each operation does to the keys that the table gives, by whether the user is there.
use mqcpn.Prelude.{
  ℕ, ◌-◌, ◌≡◌, ◌<◌, ◌⊎◌, inl, inr, refl, arith, true, false, none, List, [], length, leb,
  Bool-cases, not, ◌||◌,
}
use mqcpn.Reorder.Buckets.{replace}
use mqcpn.Users.{
  Users, UserCode, is_blank, is_clean, cut_to, append_user, add_user, taken_out, remove_user,
  server_remove_user,
}
use mqcpn.Users.Lookup.{
  GoodName, lookup, take_all, lookup_absent, Sought, seek, gone, gone-Tidy, gone-absent,
  gone-others,
}
use mqcpn.Users.Keys.{TidyUsers, KeyIs, Gone, new_key, new_user, grown}

-- What an addition gives: a refusal, a refusal because the table is full, or the user's key.
abbrev pub Added : Users → List ℕ → List ℕ → Users × UserCode → Type 0
Added u name key result =
    (((is_blank name || is_blank key || not (is_clean name)) ≡ true)
      × (result ≡ (u, UserCode.err_invalid_arg)))
    ⊎ ((lookup u name ≡ none) × (u.n_users ≡ 64) × (result ≡ (u, UserCode.err_max_clients)))
    ⊎ ((u' : Users) × (result ≡ (u', UserCode.ok)) × TidyUsers u' × KeyIs u u' name key)

-- Adding a user, name and key within their arrays: an empty name or key, or a name that the
-- control interface cannot print, is refused; a new name in a full table is refused; else the
-- user's key is the given one, no other user's changes, and the table stays well formed.
pub add_user_lem :
    (u : Users) (name key : List ℕ)
    → TidyUsers u
    → length name < 64
    → length key < 256
    → Added u name key (add_user u name key)
unfolding add_user append_user
add_user_lem u name key t short short_key =
    elim (Bool-cases (is_blank name || is_blank key || not (is_clean name))) [
      | inl bad ↦ inl (bad, ground (arith, bad))
      | inr good ↦
          let filled : (is_blank name || is_blank key) ≡ false = ground (arith, good) in
          let clean : not (is_clean name) ≡ false = ground (arith, good) in
          inr (accepted filled clean (seek u name))
    ]
  where
    whole_name : cut_to 64 name ≡ name
    whole_name = take_all 63 name (omega arith)

    whole_key : cut_to 256 key ≡ key
    whole_key = take_all 255 key (omega arith)

    accepted :
        (is_blank name || is_blank key) ≡ false
        → not (is_clean name) ≡ false
        → Sought u name
        → ((lookup u name ≡ none)
            × (u.n_users ≡ 64)
            × (add_user u name key ≡ (u, UserCode.err_max_clients)))
          ⊎ ((u' : Users) × (add_user u name key ≡ (u', UserCode.ok))
              × TidyUsers u'
              × KeyIs u u' name key)
    accepted filled clean (Sought.present i e lt is) = inr (
      record u { keys = replace u.keys i key },
      rw (filled, clean, e, whole_key) refl,
      t,
      new_key u t name key i lt is,
    )
    accepted filled clean (Sought.missing e absent) = elim (Bool-cases (leb 64 u.n_users)) [
      | inl full ↦ inl (
        lookup_absent u name absent,
        ground (arith, full, t.fits),
        rw (filled, clean, e, full) refl,
      )
      | inr room ↦
          let good : GoodName name = (ground (arith, filled), ground (arith, clean), short) in
          let (t', is) = new_user u t name key (ground (arith, room)) good absent in
          inr (grown u t name key, rw (filled, clean, e, room, whole_name, whole_key) refl, t', is)
    ]

-- What a removal gives, by whichever of the two functions it is made.
abbrev pub Removed : Users → List ℕ → Users × UserCode → Type 0
Removed u name result =
    ((lookup u name ≡ none) × (result ≡ (u, UserCode.err_invalid_arg)))
    ⊎ ((u' : Users) × (result ≡ (u', UserCode.ok)) × Gone u u' name)

-- Removing a user of a well-formed table, in the configuration and in the running server: who has
-- no key is refused, and else the user is gone, no other user's key changes, and the table stays
-- well formed.
pub remove_user_lem :
    (u : Users) (name : List ℕ)
    → TidyUsers u
    → is_blank name ≡ false
    → Removed u name (remove_user u name) × Removed u name (server_remove_user u name)
unfolding remove_user server_remove_user
remove_user_lem u name t filled = both (seek u name)
  where
    leaves :
        (ips : ℕ → List ℕ) (i : ℕ) (lt : i < u.n_users) (is : u.names i ≡ name)
        → Gone u (gone u ips t name i lt is) name
    leaves ips i lt is = (
      gone-Tidy u ips t name i lt is,
      omega arith,
      gone-absent u ips t name i lt is,
      gone-others u ips t name i lt is,
    )

    both :
        Sought u name
        → Removed u name (remove_user u name) × Removed u name (server_remove_user u name)
    both (Sought.missing e absent) =
        let nobody = lookup_absent u name absent in
        (inl (nobody, rw (filled, e) refl), inl (nobody, rw (filled, e) refl))
    both (Sought.present i e lt is) =
        let ips = (taken_out u i).fixed_ips in
        (
          inr (taken_out u i, rw (filled, e) refl, leaves ips i lt is),
          inr (
            gone u (replace ips (u.n_users - 1) []) t name i lt is,
            rw (filled, e) refl,
            leaves (replace ips (u.n_users - 1) []) i lt is,
          ),
        )
