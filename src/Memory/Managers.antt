-- ===== src/Memory/Managers.antt =====
-- The two builds of Kernel/memMan.c as instances of its interface.
use peps_os.Common.{ℕ, Option, none, some, ltb, if◌then◌else◌}
use peps_os.Memory.{Allocator}
use peps_os.Memory.Buddy.{Buddy, init_mm, malloc_buddy, free_buddy}
use peps_os.Memory.Block.{MemoryManager, create_memory_manager, alloc_memory_impl, free_memory_impl}

-- With USE_BUDDY: `initialize_memory`, and `allocMemory` with `freeMemory`.
abbrev initialized_buddy : Buddy
initialized_buddy = init_mm 0x2700000

instance abbrev buddy_memory : Allocator Buddy
buddy_memory = record {
  alloc_memory = λ size heap. malloc_buddy heap size;
  free_memory = λ ptr heap. free_buddy heap ptr;
}

-- Without: `none` is the heap after a release has run through a null pointer.
abbrev initialized_blocks : Option MemoryManager
initialized_blocks = some (create_memory_manager 0x500000)

abbrev block_max_size : ℕ
block_max_size = 4294967295

abbrev alloc_blocks : ℕ → Option MemoryManager → ℕ × Option MemoryManager
alloc_blocks size none = (0, none)
alloc_blocks size (some heap) =
    let (address, heap') = alloc_memory_impl heap size in
    if ltb block_max_size size then (0, some heap) else (address, some heap')

abbrev free_blocks : ℕ → Option MemoryManager → Option MemoryManager
free_blocks ptr none = none
free_blocks ptr (some heap) = free_memory_impl heap ptr

instance abbrev block_memory : Allocator (Option MemoryManager)
block_memory = record { alloc_memory = alloc_blocks; free_memory = free_blocks }
