-- ===== src/PathMgr.antt =====
-- src/path_mgr.c: the client's table of paths and their sockets. What the system calls answer is an
-- argument, and the descriptors that are closed are a result.
pub mod Sockets
mod Tests
use mqcpn.Prelude.{
  ℕ, zero, suc, ◌+◌, ◌-◌, Bool, true, false, not, ◌&&◌, Option, none, some, List, [], ◌∷◌, ◌++◌,
  leb, ◌==◌, if◌then◌else◌, take,
}

-- `mqvpn_path_t`; `none` is the descriptor -1, and of the local address the family is kept.
pub record PathSlot : Type 0 where
  pub fd : Option ℕ
  pub iface : List ℕ
  pub local_v6 : Bool
  pub path_id : ℕ
  pub platform_attached : Bool
  pub xquic_path_live : Bool

-- `mqvpn_path_mgr_t`
pub record PathMgr : Type 0 where
  pub paths : ℕ → PathSlot
  pub n_paths : ℕ

abbrev pub no_path : PathSlot
no_path = record {
  fd = none;
  iface = [];
  local_v6 = false;
  path_id = 0;
  platform_attached = false;
  xquic_path_live = false;
}

-- `mqvpn_path_mgr_init`
abbrev pub path_mgr_init : PathMgr
path_mgr_init = record { paths = λ _. no_path; n_paths = 0 }

abbrev pub put : (ℕ → PathSlot) → ℕ → PathSlot → ℕ → PathSlot
put paths idx p i = if i == idx then p else paths i

-- The descriptors of one slot.
abbrev pub fds_of : PathSlot → List ℕ
fds_of p = elim p.fd [ none ↦ [] | some fd ↦ fd ∷ [] ]

abbrev pub is_unnamed : List ℕ → Bool
is_unnamed [] = true
is_unnamed (c ∷ s) = false

-- The label and the address, written before the socket is bound.
abbrev pub labelled : List ℕ → Bool → PathSlot → PathSlot
labelled iface v6 p = record p {
  iface = if is_unnamed iface then p.iface else take 15 iface;
  local_v6 = v6;
}

abbrev pub bound : ℕ → PathSlot → PathSlot
bound fd p = record p {
  fd = some fd;
  platform_attached = true;
  xquic_path_live = false;
  path_id = 0;
}

-- What an addition gives: the table, the index or an error, and the descriptors closed.
pub record AddResult : Type 0 where
  pub mgr : PathMgr
  pub index : Option ℕ
  pub closed : List ℕ

-- `mqvpn_path_mgr_add`; an interface that is null is empty.
unfoldable pub path_mgr_add : PathMgr → List ℕ → Bool → Option ℕ → Bool → Bool → AddResult
path_mgr_add mgr iface v6 none nonblock_set is_bound = record {
  mgr = mgr;
  index = none;
  closed = [];
}
path_mgr_add mgr iface v6 (some fd) nonblock_set is_bound =
    let idx = mgr.n_paths in
    let p = labelled iface v6 (mgr.paths idx) in
    if leb 8 idx
    then record { mgr = mgr; index = none; closed = [] }
    else if not nonblock_set
    then record { mgr = mgr; index = none; closed = fd ∷ [] }
    else if not is_bound
    then record { mgr = record mgr { paths = put mgr.paths idx p }; index = none; closed = fd ∷ [] }
    else record {
      mgr = record { paths = put mgr.paths idx (bound fd p); n_paths = suc idx };
      index = some idx;
      closed = [];
    }

abbrev pub has_fd : ℕ → PathSlot → Bool
has_fd fd p = elim p.fd [ none ↦ false | some n ↦ n == fd ]

abbrev pub has_path_id : ℕ → PathSlot → Bool
has_path_id path_id p = p.xquic_path_live && p.path_id == path_id

-- The loops of the two searches, `rounds` of them left.
unfoldable pub find_path : (PathSlot → Bool) → (ℕ → PathSlot) → ℕ → ℕ → Option ℕ
find_path test paths zero i = none
find_path test paths (suc rounds) i =
    let rest = find_path test paths rounds (suc i) in if test (paths i) then some i else rest

-- `mqvpn_path_mgr_find_by_fd`
unfoldable pub find_by_fd : PathMgr → ℕ → Option ℕ
find_by_fd mgr fd = find_path (has_fd fd) mgr.paths mgr.n_paths 0

-- `mqvpn_path_mgr_find_by_path_id`
unfoldable pub find_by_path_id : PathMgr → ℕ → Option ℕ
find_by_path_id mgr path_id = find_path (has_path_id path_id) mgr.paths mgr.n_paths 0

-- `mqvpn_path_mgr_get_fd`
unfoldable pub get_fd : PathMgr → ℕ → Option ℕ
get_fd mgr path_id = elim (find_by_path_id mgr path_id) [
  | some i ↦ (mgr.paths i).fd
  | none ↦ if mgr.n_paths == 0 then none else (mgr.paths 0).fd
]

-- The loop that compacts the array, `rounds` of it left.
unfoldable pub compact : ℕ → ℕ → (ℕ → PathSlot) → ℕ → PathSlot
compact zero i paths = paths
compact (suc rounds) i paths = compact rounds (suc i) (put paths i (paths (suc i)))

-- `mqvpn_path_mgr_remove_at`, with the descriptors closed; `none` is the return value -1.
unfoldable pub path_mgr_remove_at : PathMgr → ℕ → Option (PathMgr × List ℕ)
path_mgr_remove_at mgr idx =
    let last = mgr.n_paths - 1 in
    let p = mgr.paths idx in
    let gone = put mgr.paths idx (record p { fd = none }) in
    if leb mgr.n_paths idx
    then none
    else some (
      record { paths = put (compact (last - idx) idx gone) last no_path; n_paths = last },
      fds_of p,
    )

-- The descriptors of the first slots, which `mqvpn_path_mgr_destroy` closes.
unfoldable pub close_all : (ℕ → PathSlot) → ℕ → List ℕ
close_all paths zero = []
close_all paths (suc n) = fds_of (paths n) ++ close_all paths n

unfoldable pub cleared : (ℕ → PathSlot) → ℕ → ℕ → PathSlot
cleared paths zero = paths
cleared paths (suc n) = put (cleared paths n) n (record (paths n) { fd = none })

-- `mqvpn_path_mgr_destroy`
unfoldable pub path_mgr_destroy : PathMgr → PathMgr × List ℕ
path_mgr_destroy mgr =
    (record { paths = cleared mgr.paths mgr.n_paths; n_paths = 0 }, close_all mgr.paths mgr.n_paths)
