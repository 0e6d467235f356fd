-- ===== src/PathMgr/Tests.antt =====
-- Runs of the table of paths, and its theorem at a concrete run.
use mqcpn.Prelude.{ℕ, ◌≡◌, refl, true, false, some, List, [], ◌∷◌}
use mqcpn.PathMgr.{PathMgr, path_mgr_init, path_mgr_add, get_fd, find_by_path_id, find_path}
use mqcpn.PathMgr.Sockets.{World, Balanced, start, added, after_add, PathReach-Balanced}

abbrev wlan : List ℕ
wlan = 119 ∷ 108 ∷ []

abbrev first_path : PathMgr
first_path = (path_mgr_add path_mgr_init wlan false (some 7) true true).mgr

-- A path with no stated interface gets the label of an addition that failed before.
stale_label :
    ((path_mgr_add
        (path_mgr_add path_mgr_init wlan false (some 7) true false).mgr
        []
        false
        (some 8)
        true
        true).mgr.paths
      0).iface
    ≡ wlan
unfolding path_mgr_add
stale_label = refl

-- An unknown path is sent on the first one's socket.
falls_back : get_fd first_path 99 ≡ some 7
unfolding path_mgr_add get_fd find_by_path_id find_path
falls_back = refl

abbrev before : World
before = record { mgr = path_mgr_init; opened = []; closed = [] }

-- One path is added, the next cannot be bound.
abbrev after_two : World
after_two =
    let one = after_add before (some 7) (path_mgr_add before.mgr wlan false (some 7) true true) in
    after_add one (some 8) (path_mgr_add one.mgr wlan false (some 8) true false)

PathReach-Balanced_example : Balanced after_two
PathReach-Balanced_example =
    PathReach-Balanced after_two
      (added wlan false (some 8) true false (added wlan false (some 7) true true start))
