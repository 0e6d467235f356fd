-- ===== src/PathMgr/Sockets.antt =====
-- No socket is lost: what was opened is in the table or closed.
use mqcpn.Prelude.{
  ℕ, zero, suc, ◌+◌, ◌-◌, ◌≡◌, ◌≤◌, ◌<◌, refl, ap, sym, subst, ◌∙◌, arith, Bool, true, false,
  Option, none, some, List, [], ◌∷◌, ◌++◌, leb, ◌==◌, if◌then◌else◌, Bool-cases, inl, inr,
}
use mqcpn.PathMgr.{
  PathSlot, PathMgr, no_path, path_mgr_init, put, fds_of, labelled, bound, AddResult, path_mgr_add,
  compact, path_mgr_remove_at, close_all, path_mgr_destroy,
}

-- How often a descriptor stands in a list.
abbrev pub count : ℕ → List ℕ → ℕ
count fd [] = 0
count fd (x ∷ xs) = (if x == fd then 1 else 0) + count fd xs

count-append : (fd : ℕ) (xs ys : List ℕ) → count fd (xs ++ ys) ≡ count fd xs + count fd ys
count-append fd [] ys = omega arith
count-append fd (x ∷ xs) ys = omega (arith, count-append fd xs ys)

-- How often it stands in the first slots.
unfoldable pub held : ℕ → (ℕ → PathSlot) → ℕ → ℕ
held fd paths zero = 0
held fd paths (suc n) = held fd paths n + count fd (fds_of (paths n))

held-put_beyond :
    (fd : ℕ) (paths : ℕ → PathSlot) (i : ℕ) (p : PathSlot) (n : ℕ)
    → n ≤ i
    → held fd (put paths i p) n ≡ held fd paths n
unfolding held
held-put_beyond fd paths i p zero le = refl
held-put_beyond fd paths i p (suc n) le =
    let elsewhere : (n == i) ≡ false = ground arith in
    let rest = held-put_beyond fd paths i p n (omega arith) in rw (elsewhere, rest) refl

held-put :
    (fd : ℕ) (paths : ℕ → PathSlot) (i : ℕ) (p : PathSlot) (n : ℕ)
    → i < n
    → held fd (put paths i p) n + count fd (fds_of (paths i))
      ≡ held fd paths n + count fd (fds_of p)
unfolding held
held-put fd paths i p zero lt = absurd (omega arith)
held-put fd paths i p (suc n) lt = elim (Bool-cases (n == i)) [
  | inl here ↦
      let same : n ≡ i = ground (arith, here) in
      let before = held-put_beyond fd paths i p n (omega arith) in
      let at = ap (λ (k : ℕ). count fd (fds_of (paths k))) same in
      rw (here, before) (omega (arith, at))
  | inr elsewhere ↦
      let rest = held-put fd paths i p n (ground (arith, elsewhere)) in
      rw elsewhere (omega (arith, rest))
]

held-suc :
    (fd : ℕ) (paths : ℕ → PathSlot) (n : ℕ)
    → held fd paths n + count fd (fds_of (paths n)) ≡ held fd paths (suc n)
unfolding held
held-suc fd paths n = refl

-- Compacting drops one slot.
held-compact :
    (fd rounds i : ℕ) (paths : ℕ → PathSlot)
    → held fd (compact rounds i paths) (i + rounds) + count fd (fds_of (paths i))
      ≡ held fd paths (suc (i + rounds))
unfolding compact
held-compact fd zero i paths = let same : i + 0 ≡ i = omega arith in rw same (held-suc fd paths i)
held-compact fd (suc rounds) i paths =
    let next = put paths i (paths (suc i)) in
    let moved : i + suc rounds ≡ suc i + rounds = omega arith in
    let elsewhere : (suc i == i) ≡ false = ground arith in
    let rest = held-compact fd rounds (suc i) next in
    let at : count fd (fds_of (next (suc i))) ≡ count fd (fds_of (paths (suc i))) =
      rw elsewhere refl in
    let step = held-put fd paths i (paths (suc i)) (suc (suc i + rounds)) (omega arith) in
    rw moved (omega (arith, at, step, rest))

held-cleared :
    (fd : ℕ) (paths : ℕ → PathSlot) (n : ℕ) → count fd (close_all paths n) ≡ held fd paths n
unfolding held close_all
held-cleared fd paths zero = refl
held-cleared fd paths (suc n) =
    omega (arith, count-append fd (fds_of (paths n)) (close_all paths n), held-cleared fd paths n)

-- A table, the descriptors that the system gave it, and those it closed.
pub record World : Type 0 where
  pub mgr : PathMgr
  pub opened : List ℕ
  pub closed : List ℕ

-- The descriptors that an addition got: none, when the table was full before.
abbrev pub got : PathMgr → Option ℕ → List ℕ
got mgr none = []
got mgr (some fd) = if leb 8 mgr.n_paths then [] else fd ∷ []

abbrev pub after_add : World → Option ℕ → AddResult → World
after_add w socket a = record {
  mgr = a.mgr;
  opened = got w.mgr socket ++ w.opened;
  closed = a.closed ++ w.closed;
}

-- The worlds that calls lead to.
pub data PathReach : World → Type 0 where
  start : PathReach (record { mgr = path_mgr_init; opened = []; closed = [] })
  added :
      {w : World} (iface : List ℕ) (v6 : Bool) (socket : Option ℕ) (nonblock_set is_bound : Bool)
      → PathReach w
      → PathReach (after_add w socket (path_mgr_add w.mgr iface v6 socket nonblock_set is_bound))
  removed :
      {w : World} (idx : ℕ) (mgr : PathMgr) (closed : List ℕ)
      → PathReach w
      → path_mgr_remove_at w.mgr idx ≡ some (mgr, closed)
      → PathReach (record w { mgr = mgr; closed = closed ++ w.closed })
  destroyed :
      {w : World}
      → PathReach w
      → PathReach (record w {
        mgr = (path_mgr_destroy w.mgr).0;
        closed = (path_mgr_destroy w.mgr).1 ++ w.closed;
      })

-- The books: every descriptor was opened as often as it is held or closed.
abbrev pub Balanced : World → Type 0
Balanced w =
    (w.mgr.n_paths ≤ 8)
    × ((fd : ℕ) → count fd w.opened ≡ count fd w.closed + held fd w.mgr.paths w.mgr.n_paths)

add-Balanced :
    (w : World) (iface : List ℕ) (v6 : Bool) (socket : Option ℕ) (nonblock_set is_bound : Bool)
    → Balanced w
    → Balanced (after_add w socket (path_mgr_add w.mgr iface v6 socket nonblock_set is_bound))
unfolding path_mgr_add held
add-Balanced w iface v6 none nonblock_set is_bound b = b
add-Balanced w iface v6 (some n) nonblock_set is_bound (fits, even) =
    let idx = w.mgr.n_paths in
    let p = labelled iface v6 (w.mgr.paths idx) in
    elim (Bool-cases (leb 8 idx)) [
      | inl full ↦ rw full (fits, even)
      | inr room ↦ go nonblock_set is_bound room
    ]
  where
    go :
        (nonblock_set is_bound : Bool)
        → leb 8 w.mgr.n_paths ≡ false
        → Balanced
            (after_add w (some n) (path_mgr_add w.mgr iface v6 (some n) nonblock_set is_bound))
    go false is_bound room = rw room (fits, λ fd. omega (arith, even fd))
    go true false room =
        let idx = w.mgr.n_paths in
        let p = labelled iface v6 (w.mgr.paths idx) in
        rw room (
          fits,
          λ fd. omega (arith, even fd, held-put_beyond fd w.mgr.paths idx p idx (omega arith)),
        )
    go true true room =
        let idx = w.mgr.n_paths in
        let p = bound n (labelled iface v6 (w.mgr.paths idx)) in
        rw room (
          ground (arith, room),
          λ fd.
              let before = held-put_beyond fd w.mgr.paths idx p idx (omega arith) in
              let here : (idx == idx) ≡ true = ground arith in
              rw here (omega (arith, even fd, before)),
        )

-- A removal at an index in use.
abbrev left_after : PathMgr → ℕ → PathMgr × List ℕ
left_after mgr idx =
    let last = mgr.n_paths - 1 in
    let gone = put mgr.paths idx (record (mgr.paths idx) { fd = none }) in
    (
      record { paths = put (compact (last - idx) idx gone) last no_path; n_paths = last },
      fds_of (mgr.paths idx),
    )

left_after-held :
    (mgr : PathMgr) (idx fd : ℕ)
    → idx < mgr.n_paths
    → held fd (left_after mgr idx).0.paths (left_after mgr idx).0.n_paths
        + count fd (left_after mgr idx).1
      ≡ held fd mgr.paths mgr.n_paths
left_after-held mgr idx fd lt =
    let last = mgr.n_paths - 1 in
    let p = record (mgr.paths idx) { fd = none } in
    let gone = put mgr.paths idx p in
    let all = compact (last - idx) idx gone in
    let end : idx + (last - idx) ≡ last = omega arith in
    let here : (idx == idx) ≡ true = ground arith in
    let nothing : count fd (fds_of (gone idx)) ≡ 0 = rw here refl in
    let one : suc last ≡ mgr.n_paths = omega arith in
    let shifted : held fd all last + count fd (fds_of (gone idx)) ≡ held fd gone mgr.n_paths =
      subst (λ (k : ℕ). held fd all k + count fd (fds_of (gone idx)) ≡ held fd gone (suc k)) end
        (held-compact fd (last - idx) idx gone)
      ∙ ap (held fd gone) one in
    let last_empty = held-put_beyond fd all last no_path last (omega arith) in
    let taken = held-put fd mgr.paths idx p mgr.n_paths lt in
    omega (arith, nothing, shifted, last_empty, taken)

remove-Balanced :
    (w : World) (idx : ℕ) (r : PathMgr × List ℕ)
    → Balanced w
    → path_mgr_remove_at w.mgr idx ≡ some r
    → Balanced (record w { mgr = r.0; closed = r.1 ++ w.closed })
unfolding path_mgr_remove_at
remove-Balanced w idx r (fits, even) h = elim (Bool-cases (leb w.mgr.n_paths idx)) [
  | inl outside ↦ absurd (ground (arith, outside, h))
  | inr inside ↦
      let there : path_mgr_remove_at w.mgr idx ≡ some (left_after w.mgr idx) = rw inside refl in
      let same : left_after w.mgr idx ≡ r =
        ap (λ (o : Option (PathMgr × List ℕ)). unwrap o r) (sym there ∙ h) in
      subst (λ (r : PathMgr × List ℕ). Balanced (record w { mgr = r.0; closed = r.1 ++ w.closed }))
        same
        (
          omega arith,
          λ fd. omega (
            arith,
            even fd,
            left_after-held w.mgr idx fd (ground (arith, inside)),
            count-append fd (fds_of (w.mgr.paths idx)) w.closed,
          ),
        )
]
  where
    unwrap : Option (PathMgr × List ℕ) → PathMgr × List ℕ → PathMgr × List ℕ
    unwrap none d = d
    unwrap (some r) d = r

-- Through any sequence of additions, whatever the system answers, removals and destructions,
-- there are at most eight paths, and every descriptor was opened exactly as often as it was
-- closed or is held: no socket is lost, and none is closed twice.
pub PathReach-Balanced : (w : World) → PathReach w → Balanced w
unfolding path_mgr_destroy held
PathReach-Balanced _ PathReach.start = (omega arith, λ fd. refl)
PathReach-Balanced _ (PathReach.added {w} iface v6 socket nonblock_set is_bound r) =
    add-Balanced w iface v6 socket nonblock_set is_bound (PathReach-Balanced w r)
PathReach-Balanced _ (PathReach.removed {w} idx mgr closed r h) =
    remove-Balanced w idx (mgr, closed) (PathReach-Balanced w r) h
PathReach-Balanced _ (PathReach.destroyed {w} r) =
    let (fits, even) = PathReach-Balanced w r in
    (
      omega arith,
      λ fd. omega (
        arith,
        even fd,
        held-cleared fd w.mgr.paths w.mgr.n_paths,
        count-append fd (close_all w.mgr.paths w.mgr.n_paths) w.closed,
      ),
    )
