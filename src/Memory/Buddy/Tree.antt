-- ===== src/Memory/Buddy/Tree.antt =====
-- The tree of Kernel/BuddyMemoryManager.c: what is well-formed, and which blocks are given out.
use peps_os.Common.{
  ℕ, ◌+◌, ◌/◌, ◌≤◌, ◌<◌, ◌≡◌, refl, sym, ◌∙◌, arith, inl, inr, ◌&&◌, ltb, leb, if◌then◌else◌,
  u64_mod, zero_or_pos,
}
use peps_os.Memory.Buddy.{
  NodeState, free, allocated, parcial, Node, leaf, branch, state_of, start_of, size_of, check_state,
}

abbrev pub IsLeafState : NodeState → Type 0
IsLeafState free = Unit {0}
IsLeafState allocated = Unit {0}
IsLeafState parcial = ⊥

-- A block is not empty, and lies behind address 0 and below the top of the address space.
abbrev pub IsBlock : ℕ → ℕ → Type 0
IsBlock start size = (0 < start) × (0 < size) × (start + size < u64_mod)

-- A node with children covers the two halves of its block, and its state sums theirs up.
abbrev pub IsWellFormed : Node → Type 0
IsWellFormed (leaf start size st index) = IsLeafState st × IsBlock start size
IsWellFormed (branch start size st index l r) =
    (start_of l ≡ start)
    × (size_of l ≡ size / 2)
    × (start_of r ≡ start + size / 2)
    × (size_of r ≡ size / 2)
    × (st ≡ check_state (state_of l) (state_of r))
    × IsBlock start size
    × IsWellFormed l
    × IsWellFormed r

abbrev leaf_weight : (ℕ → ℕ → ℕ) → ℕ → ℕ → NodeState → ℕ
leaf_weight w start size free = 0
leaf_weight w start size allocated = w start size
leaf_weight w start size parcial = 0

-- The sum of a weight over the blocks that are given out.
abbrev pub weigh_blocks : (ℕ → ℕ → ℕ) → Node → ℕ
weigh_blocks w (leaf start size st index) = leaf_weight w start size st
weigh_blocks w (branch start size st index l r) = weigh_blocks w l + weigh_blocks w r

pub both_free : (a b : NodeState) → check_state a b ≡ free → (a ≡ free) × (b ≡ free)
both_free a b e = ground arith

pub both_allocated :
    (a b : NodeState) → check_state a b ≡ allocated → (a ≡ allocated) × (b ≡ allocated)
both_allocated a b e = ground arith

-- 1 if the block holds the address.
abbrev pub holds : ℕ → ℕ → ℕ → ℕ
holds a start size = if leb start a && ltb a (start + size) then 1 else 0

-- The blocks of a tree lie in its range.
pub holds-range :
    (a : ℕ) (n : Node)
    → IsWellFormed n
    → 1 ≤ weigh_blocks (holds a) n
    → (start_of n ≤ a) × (a < start_of n + size_of n)
holds-range a (leaf s z free i) v h = absurd (omega arith)
holds-range a (leaf s z allocated i) v h = ground arith
holds-range a (leaf s z parcial i) v h = absurd (omega arith)
holds-range a (branch s z st i l r) v h = elim (zero_or_pos (weigh_blocks (holds a) l)) [
  | inr in_left ↦ omega (arith, holds-range a l v.6 in_left, v.0, v.1)
  | inl not_left ↦ omega (arith, holds-range a r v.7 (omega arith), v.2, v.3)
]

-- No address lies in two of the blocks that are given out.
pub blocks_disjoint : (a : ℕ) (n : Node) → IsWellFormed n → weigh_blocks (holds a) n ≤ 1
blocks_disjoint a (leaf s z free i) v = omega arith
blocks_disjoint a (leaf s z allocated i) v = ground arith
blocks_disjoint a (leaf s z parcial i) v = omega arith
blocks_disjoint a (branch s z st i l r) v = elim (zero_or_pos (weigh_blocks (holds a) l)) [
  | inl not_left ↦ omega (arith, blocks_disjoint a r v.7)
  | inr in_left ↦ elim (zero_or_pos (weigh_blocks (holds a) r)) [
    | inl not_right ↦ omega (arith, blocks_disjoint a l v.6)
    | inr in_right ↦
        absurd
          (omega (arith, holds-range a l v.6 in_left, holds-range a r v.7 in_right, v.0, v.1, v.2))
  ]
]

-- The state of a well-formed node says whether blocks in it are given out.
pub free-weigh :
    (w : ℕ → ℕ → ℕ) (n : Node) → IsWellFormed n → state_of n ≡ free → weigh_blocks w n ≡ 0
free-weigh w (leaf s z free i) v e = refl
free-weigh w (leaf s z allocated i) v e = cc
free-weigh w (leaf s z parcial i) v e = refl
free-weigh w (branch s z st i l r) v e =
    let both : (state_of l ≡ free) × (state_of r ≡ free) =
      both_free (state_of l) (state_of r) (sym v.4 ∙ e) in
    omega (arith, free-weigh w l v.6 both.0, free-weigh w r v.7 both.1)
