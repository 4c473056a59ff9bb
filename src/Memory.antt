-- ===== src/Memory.antt =====
-- Kernel/memMan.c: the memory manager that the rest of the kernel calls, with its two
-- implementations.
pub mod Block
pub mod Buddy
mod Managers
use peps_os.Common.{ℕ}

-- `allocMemory` and `freeMemory` on a heap of type `H`. The address 0 is NULL.
pub record Allocator (H : Type 0) : Type 0 where
  pub alloc_memory : ℕ → H → ℕ × H
  pub free_memory : ℕ → H → H
