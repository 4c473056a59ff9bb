-- ===== src/Userland.antt =====
-- The programs of Userland/SampleCodeModule, which run as processes of the kernel.
pub mod Calls
pub mod Commands
pub mod Text
pub mod Shell
pub mod Snake
pub mod Philosophers
pub mod Filters
mod Tests
