-- ===== src/Futex.antt =====
-- kernel/src/sched/futex.c: waiting on, and waking from, an address.
pub mod Waiters
pub mod Calls
pub mod Selection
pub mod Handshake
mod Tests
