-- ===== src/Wait.antt =====
-- kernel/src/sched/sched_wait.c: tasks that wait on queues and for deadlines.
pub mod Calls
pub mod Deadlines
pub mod Tick
mod Tests
