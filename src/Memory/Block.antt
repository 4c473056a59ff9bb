-- ===== src/Memory/Block.antt =====
-- Kernel/BlockMemoryManager.c: the blocks in the order of their `nextBlock` fields. `BlockCDT` has 40
-- bytes and stands directly before the bytes it manages.
pub mod Placed
pub mod Created
pub mod Coalesced
pub mod Released
mod Tests
use peps_os.Common.{
  ℕ, ◌+◌, ◌*◌, ◌%◌, Bool, true, false, ◌&&◌, Option, none, some, List, [], ◌∷◌, ◌==◌, ltb, leb,
  ◌||◌, if◌then◌else◌, u64_mod,
}

-- `BlockCDT`, with its own address.
pub record Block : Type 0 where
  pub address : ℕ
  pub start_address : ℕ
  pub size : ℕ
  pub space_used : ℕ
  pub is_free : Bool

-- `MemoryManagerCDT`.
pub record MemoryManager : Type 0 where
  pub start_address : ℕ
  pub size : ℕ
  pub space_used : ℕ
  pub blocks : List Block

abbrev pub sizeof_block : ℕ
sizeof_block = 40

abbrev pub user_memory_size : ℕ
user_memory_size = 0xFFFFFFFFFFFAFFFF

-- `createMemoryManagerImpl`.
unfoldable pub create_memory_manager : ℕ → MemoryManager
create_memory_manager managed_memory = record {
  start_address = managed_memory;
  size = user_memory_size;
  space_used = 0;
  blocks = [];
}

abbrev pub new_block : ℕ → ℕ → Block
new_block address size = record {
  address = address;
  start_address = (address + sizeof_block) % u64_mod;
  size = size;
  space_used = 0;
  is_free = false;
}

abbrev pub taken : Block → Block
taken b = record b { space_used = 0; is_free = false }

abbrev pub freed : Block → Block
freed b = record b { is_free = true }

-- `createBlock`: the list, and `*result`.
unfoldable pub create_block : ℕ → ℕ → List Block → List Block × Block
create_block address size [] = (new_block address size ∷ [], new_block address size)
create_block address size (b ∷ bs) =
    let (rest, result) = create_block address size bs in
    if b.is_free && leb size b.size then (taken b ∷ bs, taken b) else (b ∷ rest, result)

-- `allocMemoryImpl`: the address, 0 for NULL.
unfoldable pub alloc_memory_impl : MemoryManager → ℕ → ℕ × MemoryManager
alloc_memory_impl m n =
    let (blocks, block) =
      create_block ((m.start_address + m.space_used + 1) % u64_mod) n m.blocks in
    if leb ((m.space_used + n) % u64_mod) m.size
    then ((
      block.start_address,
      record m { blocks = blocks; space_used = (m.space_used + (n + sizeof_block)) % u64_mod },
    ))
    else (0, m)

-- `freeMemoryRec`; `none` when it runs through the null pointer at the end of the list.
unfoldable pub free_memory_rec : ℕ → List Block → Option (List Block)
free_memory_rec ptr [] = none
free_memory_rec ptr (b ∷ bs) =
    if (ptr == b.start_address) || ltb ptr ((b.start_address + b.size) % u64_mod)
    then some (freed b ∷ bs)
    else (elim (free_memory_rec ptr bs) [ none ↦ none | some r ↦ some (b ∷ r) ])

-- `coalesceFreeBlocksRec` on a block and those behind it.
unfoldable pub coalesce_from : Block → List Block → List Block
coalesce_from b [] = b ∷ []
coalesce_from b (c ∷ cs) = elim (b.is_free && c.is_free) [
  | true ↦ coalesce_from (record b { size = (b.size + (c.size + sizeof_block)) % u64_mod }) cs
  | false ↦ b ∷ coalesce_from c cs
]

-- `coalesceFreeBlocks`.
unfoldable pub coalesce_free_blocks : List Block → List Block
coalesce_free_blocks [] = []
coalesce_free_blocks (b ∷ bs) = coalesce_from b bs

unfoldable pub coalesced : MemoryManager → Option (List Block) → Option MemoryManager
coalesced m none = none
coalesced m (some l) = some (record m { blocks = coalesce_free_blocks l })

-- `freeMemoryImpl`; freeing NULL only joins blocks.
unfoldable pub free_memory_impl : MemoryManager → ℕ → Option MemoryManager
unfolding coalesced
free_memory_impl m ptr =
    if ptr == 0 then coalesced m (some m.blocks) else coalesced m (free_memory_rec ptr m.blocks)

-- `memStateRec`: what it adds to `*freeMemory` and to `*allocatedMemory`.
unfoldable pub mem_state_rec : ℕ × ℕ → List Block → ℕ × ℕ
mem_state_rec (free, allocated) [] = (free, allocated)
mem_state_rec (free, allocated) (b ∷ bs) =
    mem_state_rec
      (if b.is_free
        then ((free + b.size) % u64_mod, allocated)
        else (free, (allocated + b.size) % u64_mod))
      bs

-- `memStateImpl`: `*freeMemory`, `*totalMemory` and `*allocatedMemory` after the call.
unfoldable pub mem_state_impl : ℕ → ℕ → MemoryManager → ℕ × ℕ × ℕ
mem_state_impl free allocated m =
    let (f, a) = mem_state_rec (free, allocated) m.blocks in (f, m.size, a)
