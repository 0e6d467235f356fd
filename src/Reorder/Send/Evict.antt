-- ===== src/Reorder/Send/Evict.antt =====
-- A full table gives up a flow only if it is idle.
use mathlib.Core.Option.{some-injective}
use mqcpn.Prelude.{
  ap, ◌∙◌, ◌++◌, ◌==◌, ℕ, zero, suc, ◌+◌, ◌-◌, ◌*◌, ◌≡◌, ◌⊎◌, ◌<◌, refl, ◌&&◌, Option, none, some,
  List, [], ◌∷◌, ltb, if◌then◌else◌, arith, Bool-cases, Option-cases, inl, inr,
}
use mqcpn.Reorder.Send.{
  SendFlow, Tx, Victim, older, scan_chain, scan_buckets, remove_at, set_bucket, evict_one_idle,
}

abbrev pub at_place : List SendFlow → ℕ → Option SendFlow
at_place [] i = none
at_place (f ∷ fs) zero = some f
at_place (f ∷ fs) (suc i) = at_place fs i

-- Silent for longer than the time-out.
abbrev pub IsIdle : ℕ → ℕ → SendFlow → Type 0
IsIdle now idle_us f = f.last_activity_us + idle_us < now

-- A victim that stands for an idle flow.
abbrev pub IsVictim : ℕ → ℕ → (ℕ → List SendFlow) → Victim → Type 0
IsVictim now idle_us buckets v =
    (f : SendFlow) × (at_place (buckets v.bucket) v.place ≡ some f) × IsIdle now idle_us f

scan_chain_lem :
    (now idle_us b place : ℕ) (fs : List SendFlow) (best : Option Victim) (v : Victim)
    → scan_chain now idle_us b place fs best ≡ some v
    → (best ≡ some v)
      ⊎ ((i : ℕ) × (f : SendFlow) × (at_place fs i ≡ some f)
          × (v.bucket ≡ b)
          × (v.place ≡ place + i)
          × IsIdle now idle_us f)
unfolding scan_chain
scan_chain_lem now idle_us b place [] best v h = inl h
scan_chain_lem now idle_us b place (f ∷ fs) best v h =
    let idle =
      ltb f.last_activity_us now && ltb idle_us (now - f.last_activity_us) && older f best in
    let here : Victim = record {
      bucket = b;
      place = place;
      last_activity_us = f.last_activity_us;
    } in
    elim (scan_chain_lem now idle_us b (place + 1) fs (if idle then some here else best) v h) [
      | inr (i, g, at, bucket, there, old) ↦ inr (suc i, g, at, bucket, omega (arith, there), old)
      | inl chosen ↦ elim (Bool-cases idle) [
        | inl is ↦
            inr (
              0,
              f,
              refl,
              ground (arith, is, chosen),
              ground (arith, is, chosen),
              ground (arith, is),
            )
        | inr isnt ↦ inl (ground (arith, isnt, chosen))
      ]
    ]

scan_buckets_lem :
    (now idle_us n : ℕ) (buckets : ℕ → List SendFlow) (v : Victim)
    → scan_buckets now idle_us n buckets ≡ some v
    → IsVictim now idle_us buckets v
unfolding scan_buckets
scan_buckets_lem now idle_us zero buckets v h = cc
scan_buckets_lem now idle_us (suc n) buckets v h =
    elim (scan_chain_lem now idle_us n 0 (buckets n) (scan_buckets now idle_us n buckets) v h) [
      | inl before ↦ scan_buckets_lem now idle_us n buckets v before
      | inr (i, f, at, bucket, place, old) ↦
          let index : v.place ≡ i = omega (arith, place) in (f, rw (bucket, index) at, old)
    ]

scan_buckets-bucket :
    (now idle_us n : ℕ) (buckets : ℕ → List SendFlow) (v : Victim)
    → scan_buckets now idle_us n buckets ≡ some v
    → v.bucket < n
unfolding scan_buckets
scan_buckets-bucket now idle_us zero buckets v h = cc
scan_buckets-bucket now idle_us (suc n) buckets v h =
    elim (scan_chain_lem now idle_us n 0 (buckets n) (scan_buckets now idle_us n buckets) v h) [
      | inl before ↦ omega (arith, scan_buckets-bucket now idle_us n buckets v before)
      | inr (i, f, at, bucket, place, old) ↦ omega (arith, bucket)
    ]

-- A place in a list splits it, and `remove_at` takes out what stands there.
remove_at_split :
    (fs : List SendFlow) (i : ℕ) (f : SendFlow)
    → at_place fs i ≡ some f
    → (before after : List SendFlow) × (fs ≡ before ++ f ∷ after)
      × (remove_at fs i ≡ before ++ after)
unfolding remove_at
remove_at_split [] i f h = cc
remove_at_split (g ∷ fs) zero f h =
    ([], fs, ap (λ (x : SendFlow). x ∷ fs) (some-injective g f h), refl)
remove_at_split (g ∷ fs) (suc i) f h =
    let (before, after, is, taken) = remove_at_split fs i f h in
    (
      g ∷ before,
      after,
      ap (λ (rest : List SendFlow). g ∷ rest) is,
      ap (λ (rest : List SendFlow). g ∷ rest) taken,
    )

-- The victim's place, as the code finds it.
pub evict_one_idle-taken :
    (now : ℕ) (tx tx' : Tx)
    → evict_one_idle now tx ≡ some tx'
    → (b i : ℕ) × (f : SendFlow) × (b < tx.n_buckets)
      × (at_place (tx.buckets b) i ≡ some f)
      × IsIdle now (tx.cfg.egress_idle_timeout_sec * 1000000) f
      × (tx'.buckets ≡ set_bucket tx.buckets b (remove_at (tx.buckets b) i))
      × (tx'.n_flows ≡ tx.n_flows - 1)
      × (tx'.n_buckets ≡ tx.n_buckets)
unfolding evict_one_idle
evict_one_idle-taken now tx tx' h =
    let idle_us = tx.cfg.egress_idle_timeout_sec * 1000000 in
    elim (Option-cases (scan_buckets now idle_us tx.n_buckets tx.buckets)) [
      | inl nobody ↦ absurd (ground (arith, nobody))
      | inr (v, is) ↦
          let (f, at, old) = scan_buckets_lem now idle_us tx.n_buckets tx.buckets v is in
          (
            v.bucket,
            v.place,
            f,
            scan_buckets-bucket now idle_us tx.n_buckets tx.buckets v is,
            at,
            old,
            ground (arith, is),
            ground (arith, is),
            ground (arith, is),
          )
    ]

-- The table `tx'` without one idle flow of the table `tx`.
pub record OneIdleLess (now : ℕ) (tx tx' : Tx) : Type 0 where
  pub bucket : ℕ
  pub victim : SendFlow
  pub before : List SendFlow
  pub after : List SendFlow
  pub within : bucket < tx.n_buckets
  pub silent : IsIdle now (tx.cfg.egress_idle_timeout_sec * 1000000) victim
  pub stood : tx.buckets bucket ≡ before ++ victim ∷ after
  pub table : (b : ℕ) → tx'.buckets b ≡ (if b == bucket then before ++ after else tx.buckets b)
  pub n_flows : tx'.n_flows ≡ tx.n_flows - 1
  pub n_buckets : tx'.n_buckets ≡ tx.n_buckets

-- `evict_one_idle` takes exactly one flow out of the table, and only one that has been silent for longer than the
-- egress idle time-out: the other flows of its bucket stay in their order, and the other buckets are as they were.
pub evict_one_idle-IsIdle :
    (now : ℕ) (tx tx' : Tx) → evict_one_idle now tx ≡ some tx' → OneIdleLess now tx tx'
evict_one_idle-IsIdle now tx tx' h =
    let (b, i, f, within, at, old, buckets, flows, size) = evict_one_idle-taken now tx tx' h in
    let (before, after, is, taken) = remove_at_split (tx.buckets b) i f at in
    let bucket_of_table = λ (c : ℕ). ap (λ (bs : ℕ → List SendFlow). bs c) buckets in
    record {
      bucket = b;
      victim = f;
      before = before;
      after = after;
      within = within;
      silent = old;
      stood = is;
      table = λ c.
          bucket_of_table c
          ∙ ap (λ (chain : List SendFlow). if c == b then chain else tx.buckets c) taken;
      n_flows = flows;
      n_buckets = size;
    }
