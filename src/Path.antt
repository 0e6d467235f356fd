-- ===== src/Path.antt =====
-- The life of one path slot: src/path_state_machine.c, path_state_machine.h, path_entry_internal.h.
pub mod Entry
pub mod Backoff
pub mod Transition
pub mod Machine
pub mod Timers
pub mod Invariant
pub mod Graph
pub mod Cleanup
pub mod Budget
pub mod Rotation
mod Tests
