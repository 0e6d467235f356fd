-- ===== src/Users/Lookup.antt =====
-- The keys that a table of users gives, with a user added and with one taken out.
use mqcpn.Prelude.{
  ℕ, zero, suc, ◌+◌, ◌-◌, ◌≡◌, ◌≢◌, ◌≤◌, ◌<◌, inl, inr, refl, sym, ap, subst, ◌∙◌, arith, true,
  false, Option, none, some, List, [], ◌∷◌, length, take, ltb, leb, ◌==◌, if◌then◌else◌, Bool-cases,
}
use mqcpn.Reorder.Buckets.{replace}
use mqcpn.Users.{Users, is_blank, is_clean, find_user, shift_down, taken_out}
use mqcpn.Users.Search.{Found, find_from-Found, shift_down_lem}

-- A name that fits its array and that the control interface can print.
abbrev pub GoodName : List ℕ → Type 0
GoodName name = (is_blank name ≡ false) × (is_clean name ≡ true) × (length name < 64)

pub record Tidy (names : ℕ → List ℕ) (n : ℕ) : Type 0 where
  pub fits : n ≤ 64
  pub named : (i : ℕ) → i < n → GoodName (names i)
  pub distinct : (i j : ℕ) → i < n → j < n → names i ≡ names j → i ≡ j

-- The key of a user.
unfoldable pub lookup : Users → List ℕ → Option (List ℕ)
lookup u name = elim (find_user u name) [ some i ↦ some (u.keys i) | none ↦ none ]

pub take_all : (n : ℕ) (s : List ℕ) → length s ≤ n → take n s ≡ s
take_all zero [] le = refl
take_all zero (c ∷ s) le = absurd (omega arith)
take_all (suc n) [] le = refl
take_all (suc n) (c ∷ s) le = ap (λ (t : List ℕ). c ∷ t) (take_all n s (omega arith))

pub replace-same : (a : ℕ → List ℕ) (i : ℕ) (v : List ℕ) → replace a i v i ≡ v
replace-same a i v = ground arith

pub replace-other : (a : ℕ → List ℕ) (i j : ℕ) (v : List ℕ) → j ≢ i → replace a i v j ≡ a j
replace-other a i j v ne = ground arith

module _ (u : Users) (name : List ℕ) where
  pub lookup_at :
      (m : ℕ)
      → Tidy u.names u.n_users
      → m < u.n_users
      → u.names m ≡ name
      → lookup u name ≡ some (u.keys m)
  unfolding lookup
  lookup_at m t lt is = go (find_user u name) (find_from-Found u.names u.n_users 0 name)
    where
      go :
          (o : Option ℕ)
          → Found u.names 0 (0 + u.n_users) name o
          → elim o as (λ _. Option (List ℕ)) [ some i ↦ some (u.keys i) | none ↦ none ]
            ≡ some (u.keys m)
      go none absent = absurd (absent m (omega arith) (omega arith) is)
      go (some i) (le, lt_i, is_i) =
          ap (λ (k : ℕ). some (u.keys k)) (t.distinct i m (omega arith) lt (is_i ∙ sym is))

  pub lookup_absent : ((j : ℕ) → j < u.n_users → u.names j ≢ name) → lookup u name ≡ none
  unfolding lookup
  lookup_absent absent = go (find_user u name) (find_from-Found u.names u.n_users 0 name)
    where
      go :
          (o : Option ℕ)
          → Found u.names 0 (0 + u.n_users) name o
          → elim o as (λ _. Option (List ℕ)) [ some i ↦ some (u.keys i) | none ↦ none ] ≡ none
      go none _ = refl
      go (some i) (le, lt, is) = absurd (absent i (omega arith) is)

-- The index of a user whose name the search does not find, or finds.
pub data Sought (u : Users) (name : List ℕ) : Type 0 where
  present : (i : ℕ) → find_user u name ≡ some i → i < u.n_users → u.names i ≡ name → Sought u name
  missing : find_user u name ≡ none → ((j : ℕ) → j < u.n_users → u.names j ≢ name) → Sought u name

pub seek : (u : Users) (name : List ℕ) → Sought u name
seek u name = go (find_user u name) refl (find_from-Found u.names u.n_users 0 name)
  where
    go :
        (o : Option ℕ)
        → find_user u name ≡ o
        → Found u.names 0 (0 + u.n_users) name o
        → Sought u name
    go none e absent = Sought.missing e (λ j lt. absent j (omega arith) (omega arith))
    go (some i) e (le, lt, is) = Sought.present i e (omega arith) is

pub append-Tidy :
    (names : ℕ → List ℕ) (n : ℕ) (name : List ℕ)
    → Tidy names n
    → n < 64
    → GoodName name
    → ((j : ℕ) → j < n → names j ≢ name)
    → Tidy (replace names n name) (suc n)
append-Tidy names n name t room good absent = record {
  fits = omega arith;
  named = λ i lt. elim (Bool-cases (i == n)) [
    | inl last ↦ rw last good
    | inr before ↦ rw before (t.named i (ground (arith, before)))
  ];
  distinct = λ i j lt_i lt_j same. elim (Bool-cases (i == n)) [
    | inl last_i ↦ elim (Bool-cases (j == n)) [
      | inl last_j ↦ ground (arith, last_i, last_j)
      | inr before_j ↦
          let is : names j ≡ name = ground (arith, same, last_i, before_j) in
          absurd (absent j (ground (arith, before_j)) is)
    ]
    | inr before_i ↦ elim (Bool-cases (j == n)) [
      | inl last_j ↦
          let is : names i ≡ name = ground (arith, same, before_i, last_j) in
          absurd (absent i (ground (arith, before_i)) is)
      | inr before_j ↦
          t.distinct i j (ground (arith, before_i)) (ground (arith, before_j))
            (ground (arith, same, before_i, before_j))
    ]
  ];
}

-- Where an entry comes from when entry `i` is taken out.
moved :
    (entries : ℕ → List ℕ) (i n x : ℕ)
    → suc x < n
    → i < n
    → shift_down (n - suc i) i entries x ≡ entries (if leb i x then suc x else x)
moved entries i n x lt inside =
    shift_down_lem (n - suc i) i entries x ∙ elim (Bool-cases (leb i x)) [
      | inl behind ↦
          let in_range : ltb x (i + (n - suc i)) ≡ true = ground (arith, behind) in
          rw (behind, in_range) refl
      | inr before ↦ rw before refl
    ]

shift-Tidy :
    (names : ℕ → List ℕ) (n i : ℕ)
    → Tidy names n
    → i < n
    → Tidy (shift_down (n - suc i) i names) (n - 1)
shift-Tidy names n i t inside = record {
  fits = omega arith;
  named = λ x lt.
      subst GoodName (sym (moved names i n x (omega arith) inside))
        (t.named (if leb i x then suc x else x) (ground arith));
  distinct = λ x y lt_x lt_y same.
      let from : names (if leb i x then suc x else x) ≡ names (if leb i y then suc y else y) =
        sym (moved names i n x (omega arith) inside)
        ∙ same
        ∙ moved names i n y (omega arith) inside in
      let one : (if leb i x then suc x else x) ≡ (if leb i y then suc y else y) =
        t.distinct (if leb i x then suc x else x) (if leb i y then suc y else y) (ground arith)
          (ground arith) from in
      ground (arith, one);
}

module _ (u : Users) (ips : ℕ → List ℕ) (t : Tidy u.names u.n_users) (name : List ℕ) (i : ℕ)
    (inside : i < u.n_users) (is : u.names i ≡ name) where
  abbrev pub gone : Users
  gone = record (taken_out u i) { fixed_ips = ips }

  pub gone-Tidy : Tidy gone.names gone.n_users
  gone-Tidy = shift-Tidy u.names u.n_users i t inside

  pub gone-absent : lookup gone name ≡ none
  gone-absent = lookup_absent gone name (λ j lt same.
      let at = moved u.names i u.n_users j (omega arith) inside in
      let here : (if leb i j then suc j else j) ≡ i =
        t.distinct (if leb i j then suc j else j) i (ground arith) inside
          (sym at ∙ same ∙ sym is) in
      absurd (ground (arith, here)))

  pub gone-others : (other : List ℕ) → other ≢ name → lookup gone other ≡ lookup u other
  gone-others other ne = go (seek u other)
    where
      go : Sought u other → lookup gone other ≡ lookup u other
      go (Sought.present m e lt is_m) =
          let apart : m ≢ i = λ same. ne (sym is_m ∙ ap u.names same ∙ is) in
          let x = if leb i m then m - 1 else m in
          let source : (if leb i x then suc x else x) ≡ m = ground (arith, apart) in
          let small : suc x < u.n_users = ground (arith, apart) in
          let at_names = moved u.names i u.n_users x small inside in
          let at_keys = moved u.keys i u.n_users x small inside in
          lookup_at gone other x gone-Tidy (omega arith) (at_names ∙ ap u.names source ∙ is_m)
          ∙ ap some (at_keys ∙ ap u.keys source)
          ∙ sym (lookup_at u other m t lt is_m)
      go (Sought.missing e absent) =
          lookup_absent gone other (λ j lt same.
            absent (if leb i j then suc j else j) (ground arith)
              (sym (moved u.names i u.n_users j (omega arith) inside) ∙ same))
          ∙ sym (lookup_absent u other absent)
