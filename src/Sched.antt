-- ===== src/Sched.antt =====
-- kernel/src/sched/scheduler.c: which task runs next.
pub mod Queue
pub mod Calls
pub mod Switch
pub mod Sound
pub mod Kept
pub mod Moves
pub mod Front
pub mod Swap
pub mod Pop
pub mod Wake
pub mod Woken
pub mod Line
pub mod Outcomes
pub mod Resume
pub mod Interrupts
pub mod Reach
mod Tests
