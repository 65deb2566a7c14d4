-- ===== src/Timerfd.antt =====
-- kernel/src/fs/eventfd.c, the second half, and the conversions of kernel/src/sched/clock.c: timers
-- behind a descriptor.
pub mod Calls
pub mod Settings
pub mod Clocks
pub mod Expiry
pub mod Armed
pub mod Rearmed
mod Tests
