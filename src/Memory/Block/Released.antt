-- ===== src/Memory/Block/Released.antt =====
-- `freeMemoryImpl` of Kernel/BlockMemoryManager.c.
use peps_os.Common.{
  ℕ, ◌+◌, ◌≤◌, ◌≡◌, refl, subst, ap, ◌∙◌, arith, false, Option, some, List, [], ◌∷◌, ◌++◌, ◌==◌,
}
use peps_os.Memory.Block.{
  Block, MemoryManager, freed, alloc_memory_impl, free_memory_impl, coalesce_free_blocks, coalesced,
}
use peps_os.Memory.Block.Placed.{
  IsPlaced, placed_behind, weigh_used, weigh_used-append, used_weight, free_memory_rec-IsPlaced,
}
use peps_os.Memory.Block.Coalesced.{IsCoalesced, coalesce_free_blocks-Coalesces}
use peps_os.Memory.Block.Created.{IsManaged, HasRoom, alloc_memory_impl-Allocates}

freed-IsPlaced :
    (lo hi : ℕ) (before : List Block) (b : Block) (after : List Block)
    → IsPlaced lo hi (before ++ b ∷ after)
    → IsPlaced lo hi (before ++ freed b ∷ after)
freed-IsPlaced lo hi [] b after v = v
freed-IsPlaced lo hi (c ∷ cs) b after v =
    (v.0, v.1, freed-IsPlaced (c.start_address + c.size) hi cs b after v.2)

-- A call that comes to an end, with the block and no other out of use, no two free blocks in a row,
-- and the blocks one behind the other.
pub record Releases (b : Block) (m : MemoryManager) (r : Option MemoryManager) : Type 0 where
  pub manager : MemoryManager
  pub returns : r ≡ some manager
  pub managed : IsManaged manager
  pub used :
      (w : ℕ → ℕ → ℕ)
      → weigh_used w manager.blocks + w b.start_address b.size ≡ weigh_used w m.blocks
  pub apart : IsCoalesced manager.blocks

used_block :
    (w : ℕ → ℕ → ℕ) (b : Block)
    → b.is_free ≡ false
    → used_weight w b.is_free b.start_address b.size ≡ w b.start_address b.size
used_block w b e = rw e refl

-- Among blocks that stand one behind the other, giving `freeMemoryImpl` the address that a block in
-- use starts at takes that block, and no other, out of use, and leaves blocks one behind the other
-- with no two free ones in a row.
pub free_memory_impl-Releases :
    (m : MemoryManager) (before : List Block) (b : Block) (after : List Block)
    → IsManaged m
    → m.blocks ≡ before ++ b ∷ after
    → b.is_free ≡ false
    → Releases b m (free_memory_impl m b.start_address)
unfolding free_memory_impl coalesced
free_memory_impl-Releases m before b after v e busy =
    let hi : ℕ = m.start_address + m.space_used + 1 in
    let placed : IsPlaced m.start_address hi (before ++ b ∷ after) =
      subst (IsPlaced m.start_address hi) e v in
    let c =
      coalesce_free_blocks-Coalesces m.start_address hi (before ++ freed b ∷ after)
        (freed-IsPlaced m.start_address hi before b after placed) in
    let some_address : (b.start_address == 0) ≡ false =
      ground (arith, (placed_behind m.start_address hi before b after placed).0) in
    record {
      manager = record m { blocks = coalesce_free_blocks (before ++ freed b ∷ after) };
      returns =
          rw (some_address, e, free_memory_rec-IsPlaced m.start_address hi before b after placed)
            refl;
      managed = c.placed;
      used = λ w. omega (
        arith,
        c.used w,
        ap (weigh_used w) e,
        weigh_used-append w before (b ∷ after),
        weigh_used-append w before (freed b ∷ after),
        used_block w b busy,
      );
      apart = c.apart;
    }

-- The manager after a block was handed out and given back.
pub record Restores (m : MemoryManager) (r : Option MemoryManager) : Type 0 where
  pub manager : MemoryManager
  pub returns : r ≡ some manager
  pub managed : IsManaged manager
  pub used : (w : ℕ → ℕ → ℕ) → weigh_used w manager.blocks ≡ weigh_used w m.blocks

-- With room in the address space, and no more than the manager's size used up with the `n` bytes,
-- on blocks that stand one behind the other, giving back what `allocMemoryImpl` has just handed out
-- ends with the blocks in use that there were before, one behind the other.
pub free_memory_impl-alloc_memory_impl :
    (m : MemoryManager) (n : ℕ)
    → IsManaged m
    → HasRoom n m
    → m.space_used + n ≤ m.size
    → Restores m (free_memory_impl (alloc_memory_impl m n).1 (alloc_memory_impl m n).0)
free_memory_impl-alloc_memory_impl m n v room fits =
    let a = alloc_memory_impl-Allocates m n v room fits in
    let r =
      free_memory_impl-Releases (alloc_memory_impl m n).1 a.before a.block a.after a.managed a.list
        a.busy in
    record {
      manager = r.manager;
      returns = ap (free_memory_impl (alloc_memory_impl m n).1) a.address ∙ r.returns;
      managed = r.managed;
      used = λ w. omega (arith, a.used w, r.used w);
    }
