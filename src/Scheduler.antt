-- ===== src/Scheduler.antt =====
-- Kernel/scheduler.c, Kernel/include/scheduler.h and Kernel/time.c: the process table and its
-- operations, the timer interrupt and the sleeping processes.
pub mod Table
pub mod Queues
pub mod Unlink
pub mod Timer
pub mod Switch
pub mod Kids
pub mod Create
pub mod Kill
pub mod Priorities
pub mod Info
pub mod Invariant
mod Tests
