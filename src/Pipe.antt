-- ===== src/Pipe.antt =====
-- kernel/src/fs/pipe.c: a pipe, its two ends, and the calls on them.
pub mod State
pub mod Ring
pub mod Read
pub mod Write
pub mod Control
pub mod Turns
pub mod Trace
pub mod Waits
pub mod Polling
mod Tests
