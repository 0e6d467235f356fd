-- ===== src/Reorder/Buckets.antt =====
-- The arrays of hash chains that both flow tables stand on: one list for each bucket.
use mqcpn.Prelude.{
  ℕ, zero, suc, ◌+◌, ◌≡◌, ◌≤◌, ◌<◌, refl, ap, subst, Option, none, some, List, [], ◌∷◌, ◌==◌,
  if◌then◌else◌, arith, Bool-cases, inl, inr, if-both,
}

module _ {ℓ} {A : Type ℓ} where
  abbrev pub replace : (ℕ → List A) → ℕ → List A → ℕ → List A
  replace buckets b chain i = if i == b then chain else buckets i

  -- A chain without its `i`-th entry.
  abbrev pub unlink : List A → ℕ → List A
  unlink [] i = []
  unlink (x ∷ xs) zero = xs
  unlink (x ∷ xs) (suc i) = x ∷ unlink xs i

  abbrev pub entry : List A → ℕ → Option A
  entry [] i = none
  entry (x ∷ xs) zero = some x
  entry (x ∷ xs) (suc i) = entry xs i

  -- A measure added up over a chain, and over the first `n` buckets.
  abbrev pub chain_total : (A → ℕ) → List A → ℕ
  chain_total m [] = 0
  chain_total m (x ∷ xs) = m x + chain_total m xs

  abbrev pub table_total : (A → ℕ) → (ℕ → List A) → ℕ → ℕ
  table_total m buckets zero = 0
  table_total m buckets (suc n) = table_total m buckets n + chain_total m (buckets n)

  -- Every entry of a chain, and of the first `n` buckets.
  abbrev pub Each {κ} : (A → Type κ) → List A → Type κ
  Each P [] = Unit
  Each P (x ∷ xs) = P x × Each P xs

  abbrev pub EachBelow {κ} : (A → Type κ) → (ℕ → List A) → ℕ → Type κ
  EachBelow P buckets zero = Unit
  EachBelow P buckets (suc n) = EachBelow P buckets n × Each P (buckets n)

  table_total-replace_beyond :
      (m : A → ℕ) (buckets : ℕ → List A) (b : ℕ) (chain : List A) (n : ℕ)
      → n ≤ b
      → table_total m (replace buckets b chain) n ≡ table_total m buckets n
  table_total-replace_beyond m buckets b chain zero le = refl
  table_total-replace_beyond m buckets b chain (suc n) le =
      ground (arith, table_total-replace_beyond m buckets b chain n (omega arith))

  -- Replacing a chain exchanges its share of the total.
  pub table_total-replace :
      (m : A → ℕ) (buckets : ℕ → List A) (b : ℕ) (chain : List A) (n : ℕ)
      → b < n
      → table_total m (replace buckets b chain) n + chain_total m (buckets b)
        ≡ table_total m buckets n + chain_total m chain
  table_total-replace m buckets b chain zero lt = absurd (omega arith)
  table_total-replace m buckets b chain (suc n) lt = elim (Bool-cases (n == b)) [
    | inl here ↦
        let is : n ≡ b = ground (arith, here) in
        let share : chain_total m (buckets n) ≡ chain_total m (buckets b) =
          ap (λ (i : ℕ). chain_total m (buckets i)) is in
        let beyond = table_total-replace_beyond m buckets b chain n (omega (arith, is)) in
        ground (arith, here, share, beyond)
    | inr elsewhere ↦
        let lt' : b < n = ground (arith, elsewhere) in
        ground (arith, elsewhere, table_total-replace m buckets b chain n lt')
  ]

  pub chain_total-le :
      (m : A → ℕ) (buckets : ℕ → List A) (b n : ℕ)
      → b < n
      → chain_total m (buckets b) ≤ table_total m buckets n
  chain_total-le m buckets b zero lt = absurd (omega arith)
  chain_total-le m buckets b (suc n) lt = elim (Bool-cases (n == b)) [
    | inl here ↦
        let is : n ≡ b = ground (arith, here) in
        omega (arith, ap (λ (i : ℕ). chain_total m (buckets i)) is)
    | inr elsewhere ↦
        let lt' : b < n = ground (arith, elsewhere) in
        omega (arith, chain_total-le m buckets b n lt')
  ]

  pub chain_total-unlink :
      (m : A → ℕ) (chain : List A) (i : ℕ) (x : A)
      → entry chain i ≡ some x
      → chain_total m (unlink chain i) + m x ≡ chain_total m chain
  chain_total-unlink m [] i x h = cc
  chain_total-unlink m (y ∷ ys) zero x h = let is : y ≡ x = cc in omega (arith, ap m is)
  chain_total-unlink m (y ∷ ys) (suc i) x h = omega (arith, chain_total-unlink m ys i x h)

  module _ {κ} (P : A → Type κ) where
    pub Each-unlink : (chain : List A) (i : ℕ) → Each P chain → Each P (unlink chain i)
    Each-unlink [] i e = tt
    Each-unlink (x ∷ xs) zero (p, e) = e
    Each-unlink (x ∷ xs) (suc i) (p, e) = (p, Each-unlink xs i e)

    pub Each-entry : (chain : List A) (i : ℕ) (x : A) → entry chain i ≡ some x → Each P chain → P x
    Each-entry [] i x h e = cc
    Each-entry (y ∷ ys) zero x h (p, e) = let is : y ≡ x = cc in subst P is p
    Each-entry (y ∷ ys) (suc i) x h (p, e) = Each-entry ys i x h e

    pub EachBelow-at :
        (buckets : ℕ → List A) (b n : ℕ) → b < n → EachBelow P buckets n → Each P (buckets b)
    EachBelow-at buckets b zero lt e = absurd (omega arith)
    EachBelow-at buckets b (suc n) lt (e, last) = elim (Bool-cases (n == b)) [
      | inl here ↦
          let is : n ≡ b = ground (arith, here) in subst (λ (i : ℕ). Each P (buckets i)) is last
      | inr elsewhere ↦ EachBelow-at buckets b n (ground (arith, elsewhere)) e
    ]

    pub EachBelow-replace :
        (buckets : ℕ → List A) (b : ℕ) (chain : List A) (n : ℕ)
        → EachBelow P buckets n
        → Each P chain
        → EachBelow P (replace buckets b chain) n
    EachBelow-replace buckets b chain zero e c = tt
    EachBelow-replace buckets b chain (suc n) (e, last) c =
        (EachBelow-replace buckets b chain n e c, if-both (Each P) (n == b) c last)

    pub EachBelow-empty : (n : ℕ) → EachBelow P (λ _. []) n
    EachBelow-empty zero = tt
    EachBelow-empty (suc n) = (EachBelow-empty n, tt)

  pub table_total-empty : (m : A → ℕ) (n : ℕ) → table_total m (λ _. []) n ≡ 0
  table_total-empty m zero = refl
  table_total-empty m (suc n) = omega (arith, table_total-empty m n)

  module _ {κ μ} (P : A → Type κ) (Q : A → Type μ) (then_so : (x : A) → P x → Q x) where
    pub Each-map : (chain : List A) → Each P chain → Each Q chain
    Each-map [] e = tt
    Each-map (x ∷ xs) (p, e) = (then_so x p, Each-map xs e)

    pub EachBelow-map :
        (buckets : ℕ → List A) (n : ℕ) → EachBelow P buckets n → EachBelow Q buckets n
    EachBelow-map buckets zero e = tt
    EachBelow-map buckets (suc n) (e, last) = (EachBelow-map buckets n e, Each-map (buckets n) last)
