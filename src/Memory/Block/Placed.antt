-- ===== src/Memory/Block/Placed.antt =====
-- The blocks of Kernel/BlockMemoryManager.c stand one behind the other.
use peps_os.Common.{
  ℕ, ◌+◌, ◌%◌, ◌<◌, ◌≤◌, ◌≡◌, refl, arith, inl, inr, Bool, true, false, ◌||◌, some, List, [], ◌∷◌,
  ◌++◌, ◌==◌, ltb, leb, ◌&&◌, if◌then◌else◌, u64_mod, Bool-cases,
}
use peps_os.Memory.Block.{Block, free_memory_rec, freed, sizeof_block}

-- From `lo` up to `hi`, below the top of the address space.
abbrev pub IsPlaced : ℕ → ℕ → List Block → Type 0
IsPlaced lo hi [] = (lo ≤ hi) × (hi < u64_mod)
IsPlaced lo hi (b ∷ bs) =
    (lo ≤ b.address)
    × (b.start_address ≡ b.address + sizeof_block)
    × IsPlaced (b.start_address + b.size) hi bs

abbrev pub used_weight : (ℕ → ℕ → ℕ) → Bool → ℕ → ℕ → ℕ
used_weight w true start size = 0
used_weight w false start size = w start size

-- The sum of a weight over the blocks that are in use.
abbrev pub weigh_used : (ℕ → ℕ → ℕ) → List Block → ℕ
weigh_used w [] = 0
weigh_used w (b ∷ bs) = used_weight w b.is_free b.start_address b.size + weigh_used w bs

pub weigh_used-append :
    (w : ℕ → ℕ → ℕ) (xs ys : List Block)
    → weigh_used w (xs ++ ys) ≡ weigh_used w xs + weigh_used w ys
weigh_used-append w [] ys = omega arith
weigh_used-append w (x ∷ xs) ys = omega (arith, weigh_used-append w xs ys)

pub IsPlaced-range : (lo hi : ℕ) (bs : List Block) → IsPlaced lo hi bs → (lo ≤ hi) × (hi < u64_mod)
IsPlaced-range lo hi [] v = v
IsPlaced-range lo hi (b ∷ bs) v =
    let r = IsPlaced-range (b.start_address + b.size) hi bs v.2 in (omega (arith, r.0, v.1), r.1)

-- A block in the list lies behind where the list starts.
pub placed_behind :
    (lo hi : ℕ) (before : List Block) (b : Block) (after : List Block)
    → IsPlaced lo hi (before ++ b ∷ after)
    → (lo < b.start_address) × (b.start_address + b.size < u64_mod)
placed_behind lo hi [] b after v =
    let r = IsPlaced-range (b.start_address + b.size) hi after v.2 in
    (omega (arith, v.0, v.1), omega (arith, r.0, r.1))
placed_behind lo hi (c ∷ cs) b after v =
    let rest = placed_behind (c.start_address + c.size) hi cs b after v.2 in
    (omega (arith, v.0, v.1, rest.0), rest.1)

found :
    (b : Block) (bs l : List Block) (ptr : ℕ)
    → free_memory_rec ptr bs ≡ some l
    → ((ptr == b.start_address) || ltb ptr ((b.start_address + b.size) % u64_mod)) ≡ false
    → free_memory_rec ptr (b ∷ bs) ≡ some (b ∷ l)
unfolding free_memory_rec
found b bs l ptr e past = rw (past, e) refl

-- In blocks that stand one behind the other, freeing the address that a block starts at frees that
-- block and changes nothing else.
pub free_memory_rec-IsPlaced :
    (lo hi : ℕ) (before : List Block) (b : Block) (after : List Block)
    → IsPlaced lo hi (before ++ b ∷ after)
    → free_memory_rec b.start_address (before ++ b ∷ after) ≡ some (before ++ freed b ∷ after)
unfolding free_memory_rec
free_memory_rec-IsPlaced lo hi [] b after v =
    let here : ((b.start_address == b.start_address)
          || ltb b.start_address ((b.start_address + b.size) % u64_mod))
        ≡ true =
      ground arith in
    rw here refl
free_memory_rec-IsPlaced lo hi (c ∷ cs) b after v =
    let behind = placed_behind (c.start_address + c.size) hi cs b after v.2 in
    let no_wrap : (c.start_address + c.size) % u64_mod ≡ c.start_address + c.size =
      omega (arith, behind.0, behind.1) in
    found c (cs ++ b ∷ after) (cs ++ freed b ∷ after) b.start_address
      (free_memory_rec-IsPlaced (c.start_address + c.size) hi cs b after v.2)
      (rw no_wrap (ground (arith, behind.0)))

-- 1 if the block holds the address.
abbrev pub holds : ℕ → ℕ → ℕ → ℕ
holds a start size = if leb start a && ltb a (start + size) then 1 else 0

holds_behind :
    (a lo hi : ℕ) (bs : List Block) → IsPlaced lo hi bs → a < lo → weigh_used (holds a) bs ≡ 0
holds_behind a lo hi [] v h = refl
holds_behind a lo hi (b ∷ bs) v h =
    let rest = holds_behind a (b.start_address + b.size) hi bs v.2 (omega (arith, v.0, v.1)) in
    by_use b.is_free rest
  where
    by_use :
        (u : Bool)
        → weigh_used (holds a) bs ≡ 0
        → used_weight (holds a) u b.start_address b.size + weigh_used (holds a) bs ≡ 0
    by_use true r = omega (arith, r)
    by_use false r = ground (arith, r, v.0, v.1)

-- In blocks that stand one behind the other, no address lies in two that are in use.
pub IsPlaced-disjoint :
    (a lo hi : ℕ) (bs : List Block) → IsPlaced lo hi bs → weigh_used (holds a) bs ≤ 1
IsPlaced-disjoint a lo hi [] v = omega arith
IsPlaced-disjoint a lo hi (b ∷ bs) v = elim (Bool-cases (ltb a (b.start_address + b.size))) [
  | inl inside ↦
      let rest = holds_behind a (b.start_address + b.size) hi bs v.2 (ground arith) in
      omega (arith, rest, at_most b.is_free)
  | inr past ↦
      let none_here : used_weight (holds a) b.is_free b.start_address b.size ≡ 0 =
        outside b.is_free (ground arith) in
      omega (arith, none_here, IsPlaced-disjoint a (b.start_address + b.size) hi bs v.2)
]
  where
    at_most : (u : Bool) → used_weight (holds a) u b.start_address b.size ≤ 1
    at_most true = omega arith
    at_most false = ground arith

    outside :
        (u : Bool)
        → b.start_address + b.size ≤ a
        → used_weight (holds a) u b.start_address b.size ≡ 0
    outside true h = refl
    outside false h = ground (arith, h)
