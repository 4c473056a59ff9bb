-- ===== src/Kernel/Invariant.antt =====
-- The calls of Kernel/irqDispatcher.c keep the invariant of the process table.
pub mod Sems
pub mod Pipes
pub mod Streams
pub mod Performed
pub mod Reached
pub mod Booted
