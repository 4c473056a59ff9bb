-- ===== src/Memory/Block/Created.antt =====
-- `createBlock`, `allocMemoryImpl` and `freeMemoryImpl` of Kernel/BlockMemoryManager.c.
use peps_os.Common.{
  ℕ, ◌+◌, ◌%◌, ◌<◌, ◌≤◌, ◌≡◌, refl, subst, ap, arith, inl, inr, Bool, true, false, ◌&&◌, List, [],
  ◌∷◌, ◌++◌, leb, u64_mod, Bool-cases,
}
use peps_os.Memory.Block.{Block, MemoryManager, create_block, alloc_memory_impl, sizeof_block}
use peps_os.Memory.Block.Placed.{IsPlaced, weigh_used, weigh_used-append, used_weight}

unused : (w : ℕ → ℕ → ℕ) (u : Bool) (start size : ℕ) → u ≡ true → used_weight w u start size ≡ 0
unused w true start size e = refl
unused w false start size e = cc

fitting : (u : Bool) (n size : ℕ) → (u && leb n size) ≡ true → (u ≡ true) × (n ≤ size)
fitting u n size e = ground arith

-- The block that `createBlock` hands out: a free one of the list that is large enough, or a new one
-- behind the list.
pub record Places (address n : ℕ) (bs : List Block) (r : List Block × Block) : Type 0 where
  pub before : List Block
  pub after : List Block
  pub list : r.0 ≡ before ++ r.1 ∷ after
  pub used : r.1.is_free ≡ false
  pub enough : n ≤ r.1.size
  pub weight : (w : ℕ → ℕ → ℕ) → weigh_used w bs ≡ weigh_used w before + weigh_used w after

create_block-Places :
    (address n : ℕ) (bs : List Block) → Places address n bs (create_block address n bs)
unfolding create_block
create_block-Places address n [] = record {
  before = [];
  after = [];
  list = refl;
  used = refl;
  enough = omega arith;
  weight = λ w. refl;
}
create_block-Places address n (b ∷ bs) = elim (Bool-cases (b.is_free && leb n b.size)) [
  | inl fits ↦
      let both : (b.is_free ≡ true) × (n ≤ b.size) = fitting b.is_free n b.size fits in
      rw fits (record {
        before = [];
        after = bs;
        list = refl;
        used = refl;
        enough = both.1;
        weight = λ w. omega (arith, unused w b.is_free b.start_address b.size both.0);
      })
  | inr other ↦
      let rest = create_block-Places address n bs in
      rw other (record {
        before = b ∷ rest.before;
        after = rest.after;
        list = ap (◌∷◌ b) rest.list;
        used = rest.used;
        enough = rest.enough;
        weight = λ w. omega (arith, rest.weight w);
      })
]

raised :
    (lo hi hi' : ℕ) (bs : List Block)
    → hi ≤ hi'
    → hi' < u64_mod
    → IsPlaced lo hi bs
    → IsPlaced lo hi' bs
raised lo hi hi' [] h u v = (omega (arith, v.0), u)
raised lo hi hi' (b ∷ bs) h u v = (v.0, v.1, raised (b.start_address + b.size) hi hi' bs h u v.2)

create_block-IsPlaced :
    (lo hi n : ℕ) (bs : List Block)
    → hi + (n + sizeof_block) < u64_mod
    → IsPlaced lo hi bs
    → IsPlaced lo (hi + (n + sizeof_block)) (create_block hi n bs).0
unfolding create_block
create_block-IsPlaced lo hi n [] h v =
    let no_wrap : (hi + sizeof_block) % u64_mod ≡ hi + sizeof_block = omega arith in
    (v.0, no_wrap, (omega (arith, no_wrap), h))
create_block-IsPlaced lo hi n (b ∷ bs) h v = elim (Bool-cases (b.is_free && leb n b.size)) [
  | inl fits ↦ rw fits (v.0, v.1, raised (b.start_address + b.size) hi _ bs (omega arith) h v.2)
  | inr other ↦ rw other (v.0, v.1, create_block-IsPlaced (b.start_address + b.size) hi n bs h v.2)
]

-- The blocks of a memory manager stand one behind the other in the part of the memory that it has
-- used up.
abbrev pub IsManaged : MemoryManager → Type 0
IsManaged m = IsPlaced m.start_address (m.start_address + m.space_used + 1) m.blocks

-- The address space has room for a block of `n` bytes at the end.
abbrev pub HasRoom : ℕ → MemoryManager → Type 0
HasRoom n m = m.start_address + m.space_used + 1 + (n + sizeof_block) < u64_mod

-- A call that hands out a block of at least `n` bytes besides those in use, at an address that
-- `freeMemoryImpl` takes back.
pub record Allocates (n : ℕ) (m : MemoryManager) (r : ℕ × MemoryManager) : Type 0 where
  pub before : List Block
  pub block : Block
  pub after : List Block
  pub list : r.1.blocks ≡ before ++ block ∷ after
  pub address : r.0 ≡ block.start_address
  pub busy : block.is_free ≡ false
  pub enough : n ≤ block.size
  pub managed : IsManaged r.1
  pub used :
      (w : ℕ → ℕ → ℕ)
      → weigh_used w r.1.blocks ≡ weigh_used w m.blocks + w block.start_address block.size

used_block :
    (w : ℕ → ℕ → ℕ) (b : Block)
    → b.is_free ≡ false
    → used_weight w b.is_free b.start_address b.size ≡ w b.start_address b.size
used_block w b e = rw e refl

-- With room in the address space, and no more than the manager's size used up with the `n` bytes,
-- on blocks that stand one behind the other, `allocMemoryImpl` hands out a block of at least `n`
-- bytes besides those in use, and the blocks still stand one behind the other.
pub alloc_memory_impl-Allocates :
    (m : MemoryManager) (n : ℕ)
    → IsManaged m
    → HasRoom n m
    → m.space_used + n ≤ m.size
    → Allocates n m (alloc_memory_impl m n)
unfolding alloc_memory_impl
alloc_memory_impl-Allocates m n v room fits =
    let hi : ℕ = m.start_address + m.space_used + 1 in
    let no_wrap : hi % u64_mod ≡ hi = omega arith in
    let accepted : leb ((m.space_used + n) % u64_mod) m.size ≡ true = ground arith in
    let grown : (m.space_used + (n + sizeof_block)) % u64_mod ≡ m.space_used + (n + sizeof_block) =
      omega arith in
    let p = create_block-Places hi n m.blocks in
    rw (no_wrap, accepted)
      (record {
        before = p.before;
        block = (create_block hi n m.blocks).1;
        after = p.after;
        list = p.list;
        address = refl;
        busy = p.used;
        enough = p.enough;
        managed =
            subst (λ k. IsPlaced m.start_address k (create_block hi n m.blocks).0)
              (omega (arith, grown)) (create_block-IsPlaced m.start_address hi n m.blocks room v);
        used = λ w. omega (
          arith,
          p.weight w,
          ap (weigh_used w) p.list,
          weigh_used-append w p.before ((create_block hi n m.blocks).1 ∷ p.after),
          used_block w (create_block hi n m.blocks).1 p.used,
        );
      })
