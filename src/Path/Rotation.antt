-- ===== src/Path/Rotation.antt =====
-- src/path_rotation.c: the choice of the next primary path.
use Prim.Native.Nat.{bit_and}
use native.Mathlib.Nat.{mod-add-mod, add-mod_right, mod-eq_of_lt}
use mqcpn.Prelude.{
  ℕ, zero, suc, ◌+◌, ◌-◌, ◌%◌, ◌≡◌, ◌≢◌, ◌≤◌, ◌<◌, ◌⊎◌, inl, inr, refl, sym, ap, ◌∙◌, subst, arith,
  Bool, true, false, List, leb, ltb, ◌==◌, if◌then◌else◌, get_or, Bool-cases,
}

-- `!(path_flags[i] & MQVPN_PATH_FLAG_BACKUP)`
unfoldable pub is_primary : List ℕ → ℕ → Bool
is_primary path_flags i = bit_and (get_or path_flags i 0) 1 == 0

unfoldable pub count_primary : List ℕ → ℕ → ℕ
count_primary path_flags zero = 0
count_primary path_flags (suc n) =
    if is_primary path_flags n then suc (count_primary path_flags n) else count_primary path_flags n

-- The walk forward, on fuel.
unfoldable pub walk_primary : ℕ → List ℕ → ℕ → ℕ → ℕ
walk_primary zero path_flags n_paths next = next
walk_primary (suc fuel) path_flags n_paths next =
    let rest = walk_primary fuel path_flags n_paths ((next + 1) % n_paths) in
    if is_primary path_flags next then next else rest

-- `mqvpn_rotate_primary_path`; the index is a valid one, the array is not null.
unfoldable pub rotate_primary_path : ℕ → List ℕ → ℕ → ℕ
rotate_primary_path cur_idx path_flags n_paths =
    if leb n_paths 1
    then cur_idx
    else if leb (count_primary path_flags n_paths) 1
    then cur_idx
    else walk_primary n_paths path_flags n_paths ((cur_idx + 1) % n_paths)

some_primary :
    (flags : List ℕ) (n : ℕ)
    → 1 ≤ count_primary flags n
    → (i : ℕ) × (i < n) × (is_primary flags i ≡ true)
unfolding count_primary
some_primary flags zero h = absurd (omega arith)
some_primary flags (suc n) h = elim (Bool-cases (is_primary flags n)) [
  | inl here ↦ (n, omega arith, here)
  | inr backup ↦
      let (i, lt, is) = some_primary flags n (ground (arith, backup)) in (i, omega arith, is)
]

-- With two primary paths, one is not the current.
other_primary :
    (flags : List ℕ) (n cur : ℕ)
    → 2 ≤ count_primary flags n
    → (i : ℕ) × (i < n) × (i ≢ cur) × (is_primary flags i ≡ true)
unfolding count_primary
other_primary flags zero cur h = absurd (omega arith)
other_primary flags (suc n) cur h = elim (Bool-cases (is_primary flags n)) [
  | inr backup ↦
      let (i, lt, ne, is) = other_primary flags n cur (ground (arith, backup)) in
      (i, omega arith, ne, is)
  | inl here ↦ elim (Bool-cases (n == cur)) [
    | inr elsewhere ↦ (n, omega arith, ground (arith, elsewhere), here)
    | inl current ↦
        let (i, lt, is) = some_primary flags n (ground (arith, here)) in
        (i, omega arith, ground (arith, current), is)
  ]
]

cc_clash : (b : Bool) → b ≡ true → b ≡ false → ⊥
cc_clash b t f = cc

module _ (flags : List ℕ) (n cur : ℕ) where
  -- The paths between two distances behind the current one are all backups.
  abbrev Passed : ℕ → ℕ → Type 0
  Passed d k = (j : ℕ) → d ≤ j → j < k → is_primary flags ((cur + j) % n) ≡ false

  walk_primary_lem :
      (fuel d k : ℕ)
      → d ≤ k
      → k < d + fuel
      → is_primary flags ((cur + k) % n) ≡ true
      → (found : ℕ) × (walk_primary fuel flags n ((cur + d) % n) ≡ (cur + found) % n)
        × (d ≤ found)
        × (found ≤ k)
        × (is_primary flags ((cur + found) % n) ≡ true)
        × Passed d found
  unfolding walk_primary
  walk_primary_lem zero d k le lt is = absurd (omega arith)
  walk_primary_lem (suc fuel) d k le lt is = elim (Bool-cases (is_primary flags ((cur + d) % n))) [
    | inl here ↦ (d, rw here refl, omega arith, le, here, λ j from to. absurd (omega arith))
    | inr backup ↦ elim (Bool-cases (d == k)) [
      | inl at_k ↦
          let same : d ≡ k = ground (arith, at_k) in
          absurd (
            cc_clash (is_primary flags ((cur + d) % n))
              (subst (λ (t : ℕ). is_primary flags ((cur + t) % n) ≡ true) (sym same) is) backup)
      | inr before ↦
          let one_more : cur + d + 1 ≡ cur + suc d = omega arith in
          let next : ((cur + d) % n + 1) % n ≡ (cur + suc d) % n =
            mod-add-mod (cur + d) n 1 ∙ ap (λ (t : ℕ). t % n) one_more in
          let (found, at, from, to, primary, passed) =
            walk_primary_lem fuel (suc d) k (ground (arith, before)) (omega arith) is in
          (
            found,
            rw (backup, next) at,
            omega arith,
            to,
            primary,
            λ j from_d to_found. elim (Bool-cases (d == j)) [
              | inl at_d ↦
                  let same : d ≡ j = ground (arith, at_d) in
                  subst (λ (t : ℕ). is_primary flags ((cur + t) % n) ≡ false) same backup
              | inr later ↦ passed j (ground (arith, later)) to_found
            ],
          )
    ]
  ]

mod_small : (i n : ℕ) → i < n → i % n ≡ i
mod_small i n h = mod-eq_of_lt h

distance :
    (cur i n : ℕ)
    → cur < n
    → i < n
    → i ≢ cur
    → (far : ℕ) × (1 ≤ far) × (far < n) × ((cur + far) % n ≡ i)
distance cur i n lt in_range ne = elim (Bool-cases (ltb i cur)) [
  | inl behind ↦
      let less : i < cur = ground (arith, behind) in
      let around : cur + (n - cur + i) ≡ i + n = omega arith in
      (
        n - cur + i,
        omega arith,
        omega arith,
        ap (λ (t : ℕ). t % n) around ∙ add-mod_right i n ∙ mod_small i n in_range,
      )
  | inr ahead ↦
      let more : cur ≤ i = ground (arith, ahead) in
      let there : cur + (i - cur) ≡ i = omega arith in
      (
        i - cur,
        ground (arith, more, ne),
        omega arith,
        ap (λ (t : ℕ). t % n) there ∙ mod_small i n in_range,
      )
]

-- The rotation among `n` paths from one of them: with at most one primary path the current path
-- stays; else the next path is the first primary one at a distance of 1 to `n - 1` behind the
-- current, every path between being a backup.
pub rotate_primary_path_lem :
    (cur : ℕ) (flags : List ℕ) (n : ℕ)
    → cur < n
    → ((count_primary flags n ≤ 1) × (rotate_primary_path cur flags n ≡ cur))
      ⊎ ((2 ≤ count_primary flags n)
          × ((k : ℕ) × (rotate_primary_path cur flags n ≡ (cur + k) % n)
              × (1 ≤ k)
              × (k < n)
              × (is_primary flags ((cur + k) % n) ≡ true)
              × ((j : ℕ) → 1 ≤ j → j < k → is_primary flags ((cur + j) % n) ≡ false)))
unfolding rotate_primary_path
rotate_primary_path_lem cur flags n lt = elim (Bool-cases (leb (count_primary flags n) 1)) [
  | inl few ↦ inl (ground (arith, few), ground (arith, few))
  | inr many ↦
      let two : 2 ≤ count_primary flags n = ground (arith, many) in
      let (i, in_range, ne, is) = other_primary flags n cur two in
      let several : leb n 1 ≡ false = ground arith in
      let (far, ahead, less, reaches) = distance cur i n lt in_range ne in
      let (k, at, from, to, primary, passed) =
        walk_primary_lem flags n cur n 1 far ahead (omega arith)
          (subst (λ (t : ℕ). is_primary flags t ≡ true) (sym reaches) is) in
      inr (two, (k, rw (several, many) at, from, omega arith, primary, passed))
]
