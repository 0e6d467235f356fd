-- ===== src/Users/Keys.antt =====
-- A key replaced, and a user appended: what the table gives before and after.
use mqcpn.Prelude.{
  ℕ, suc, ◌≡◌, ◌≢◌, ◌<◌, inl, inr, sym, ap, ◌∙◌, arith, none, some, List, ◌==◌, Bool-cases,
}
use mqcpn.Reorder.Buckets.{replace}
use mqcpn.Users.{Users}
use mqcpn.Users.Lookup.{
  GoodName, Tidy, lookup, replace-same, replace-other, lookup_at, lookup_absent, Sought, seek,
  append-Tidy,
}

abbrev pub TidyUsers : Users → Type 0
TidyUsers u = Tidy u.names u.n_users

-- A user's key becomes the given one, and no other user's changes.
abbrev pub KeyIs : Users → Users → List ℕ → List ℕ → Type 0
KeyIs u u' name key =
    (lookup u' name ≡ some key)
    × ((other : List ℕ) → other ≢ name → lookup u' other ≡ lookup u other)

-- The user is gone, and no other user's key changes.
abbrev pub Gone : Users → Users → List ℕ → Type 0
Gone u u' name =
    TidyUsers u'
    × (suc u'.n_users ≡ u.n_users)
    × (lookup u' name ≡ none)
    × ((other : List ℕ) → other ≢ name → lookup u' other ≡ lookup u other)

module _ (u : Users) (t : TidyUsers u) (name key : List ℕ) where
  pub new_key :
      (i : ℕ)
      → i < u.n_users
      → u.names i ≡ name
      → KeyIs u (record u { keys = replace u.keys i key }) name key
  new_key i lt is =
      let u' = record u { keys = replace u.keys i key } in
      (
        lookup_at u' name i t lt is ∙ ap some (replace-same u.keys i key),
        λ other ne. go other ne (seek u other),
      )
    where
      go :
          (other : List ℕ)
          → other ≢ name
          → Sought u other
          → lookup (record u { keys = replace u.keys i key }) other ≡ lookup u other
      go other ne (Sought.present m e lt_m is_m) =
          let apart : m ≢ i = λ same. ne (sym is_m ∙ ap u.names same ∙ is) in
          lookup_at (record u { keys = replace u.keys i key }) other m t lt_m is_m
          ∙ ap some (replace-other u.keys i m key apart)
          ∙ sym (lookup_at u other m t lt_m is_m)
      go other ne (Sought.missing e absent) =
          lookup_absent (record u { keys = replace u.keys i key }) other absent
          ∙ sym (lookup_absent u other absent)

  abbrev pub grown : Users
  grown = record u {
    names = replace u.names u.n_users name;
    keys = replace u.keys u.n_users key;
    n_users = suc u.n_users;
  }

  pub new_user :
      u.n_users < 64
      → GoodName name
      → ((j : ℕ) → j < u.n_users → u.names j ≢ name)
      → TidyUsers grown × KeyIs u grown name key
  new_user room good absent =
      let t' = append-Tidy u.names u.n_users name t room good absent in
      let n = u.n_users in
      let here =
        lookup_at grown name n t' (omega arith) (replace-same u.names n name)
        ∙ ap some (replace-same u.keys n key) in
      (t', (here, λ other ne. go t' other ne (seek u other)))
    where
      go :
          TidyUsers grown
          → (other : List ℕ) → other ≢ name
          → Sought u other
          → lookup grown other ≡ lookup u other
      go t' other ne (Sought.present m e lt_m is_m) =
          let apart : m ≢ u.n_users = omega arith in
          lookup_at grown other m t' (omega arith)
            (replace-other u.names u.n_users m name apart ∙ is_m)
          ∙ ap some (replace-other u.keys u.n_users m key apart)
          ∙ sym (lookup_at u other m t lt_m is_m)
      go t' other ne (Sought.missing e nobody) =
          lookup_absent grown other (λ j lt same. elim (Bool-cases (j == u.n_users)) [
            | inl last ↦
                let is : j ≡ u.n_users = ground (arith, last) in
                ne (
                  sym same
                  ∙ ap (replace u.names u.n_users name) is
                  ∙ replace-same u.names u.n_users name)
            | inr before ↦
                let apart : j ≢ u.n_users = ground (arith, before) in
                nobody j (omega arith) (sym (replace-other u.names u.n_users j name apart) ∙ same)
          ])
          ∙ sym (lookup_absent u other nobody)
