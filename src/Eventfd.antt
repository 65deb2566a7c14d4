-- ===== src/Eventfd.antt =====
-- kernel/src/fs/eventfd.c, the first half: counters behind a descriptor.
pub mod Calls
pub mod Counter
mod Tests
