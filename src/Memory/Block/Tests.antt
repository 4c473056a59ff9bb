-- ===== src/Memory/Block/Tests.antt =====
-- The theorems about Kernel/BlockMemoryManager.c at a small memory.
use peps_os.Common.{ℕ, ◌+◌, refl, arith, Bool, true, false, [], ◌∷◌}
use peps_os.Memory.Block.{
  Block, MemoryManager, alloc_memory_impl, free_memory_impl, coalesce_free_blocks,
}
use peps_os.Memory.Block.Coalesced.{Coalesces, coalesce_free_blocks-Coalesces}
use peps_os.Memory.Block.Created.{IsManaged, Allocates, alloc_memory_impl-Allocates}
use peps_os.Memory.Block.Released.{
  Releases, Restores, free_memory_impl-Releases, free_memory_impl-alloc_memory_impl,
}

abbrev block_at : ℕ → ℕ → Bool → Block
block_at a size u = record {
  address = a;
  start_address = a + 40;
  size = size;
  space_used = 0;
  is_free = u;
}

abbrev one : Block
one = block_at 1001 100 true

abbrev two : Block
two = block_at 1141 60 true

abbrev three : Block
three = block_at 1241 8 false

abbrev small : MemoryManager
small = record {
  start_address = 1000;
  size = 100000;
  space_used = 288;
  blocks = one ∷ two ∷ three ∷ [];
}

small-IsManaged : IsManaged small
small-IsManaged = ground arith

alloc_memory_impl-Allocates_example : Allocates 50 small (alloc_memory_impl small 50)
alloc_memory_impl-Allocates_example =
    alloc_memory_impl-Allocates small 50 small-IsManaged (omega arith) (omega arith)

free_memory_impl-Releases_example : Releases three small (free_memory_impl small 1281)
free_memory_impl-Releases_example =
    free_memory_impl-Releases small (one ∷ two ∷ []) three [] small-IsManaged refl refl

free_memory_impl-alloc_memory_impl_example :
    Restores small (free_memory_impl (alloc_memory_impl small 50).1 (alloc_memory_impl small 50).0)
free_memory_impl-alloc_memory_impl_example =
    free_memory_impl-alloc_memory_impl small 50 small-IsManaged (omega arith) (omega arith)

coalesce_free_blocks-Coalesces_example :
    Coalesces 1000 1289 (one ∷ two ∷ three ∷ []) (coalesce_free_blocks (one ∷ two ∷ three ∷ []))
coalesce_free_blocks-Coalesces_example =
    coalesce_free_blocks-Coalesces 1000 1289 (one ∷ two ∷ three ∷ []) small-IsManaged
