-- ===== src/AddrPool.antt =====
-- The pool of tunnel addresses: src/addr_pool.h and addr_pool.c.
pub mod Pool
pub mod Alloc
pub mod Taken
pub mod V6
mod Tests
