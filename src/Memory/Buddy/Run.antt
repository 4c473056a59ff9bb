-- ===== src/Memory/Buddy/Run.antt =====
-- Runs of `mallocBuddy` and `freeBuddy` of Kernel/BuddyMemoryManager.c after `init_mm`.
use peps_os.Common.{
  ℕ, ◌+◌, ◌^◌, ◌%◌, ◌≤◌, ◌<◌, ◌≡◌, ◌≢◌, refl, ap, ◌∙◌, arith, inl, inr, ◌⊎◌, true, false, ◌==◌, ltb,
  Bool-cases, u64_mod,
}
use peps_os.Memory.Buddy.{
  free, allocated, parcial, Node, leaf, branch, size_of, malloc_rec, free_rec, Answer, Buddy,
  init_mm, malloc_buddy, free_buddy, rounded,
}
use peps_os.Memory.Buddy.Tree.{IsWellFormed, weigh_blocks, holds, blocks_disjoint}
use peps_os.Memory.Buddy.Malloc.{Mallocs, Grants, Refuses, IsFull, malloc_rec-Mallocs}
use peps_os.Memory.Buddy.Free.{elsewhere, free_rec-Frees}
use peps_os.Memory.Buddy.Rounded.{rounded_enough}

-- A tree in which no block holds an address has none that starts there.
elsewhere_all :
    (ptr : ℕ) (w : ℕ → ℕ → ℕ) (n : Node)
    → IsWellFormed n
    → weigh_blocks (holds ptr) n ≡ 0
    → weigh_blocks (elsewhere ptr w) n ≡ weigh_blocks w n
elsewhere_all ptr w (leaf s z free i) v h = refl
elsewhere_all ptr w (leaf s z allocated i) v h =
    let other : (s == ptr) ≡ false = ground arith in rw other refl
elsewhere_all ptr w (leaf s z parcial i) v h = refl
elsewhere_all ptr w (branch s z st i l r) v h =
    omega (arith, elsewhere_all ptr w l v.6 (omega arith), elsewhere_all ptr w r v.7 (omega arith))

-- On a well-formed tree, freeing the block that `malloc_rec` has given out leaves exactly the
-- blocks there were before: every weight of blocks has the same sum.
pub free_rec-malloc_rec :
    (n : Node) (bytes mem mem' : ℕ) (w : ℕ → ℕ → ℕ)
    → IsWellFormed n
    → (malloc_rec n bytes mem).address ≢ 0
    → weigh_blocks w
        (free_rec (malloc_rec n bytes mem).node (malloc_rec n bytes mem).address mem').0
      ≡ weigh_blocks w n
free_rec-malloc_rec n bytes mem mem' w v given =
    by_outcome (malloc_rec-Mallocs n bytes mem v) (malloc_rec-Mallocs n bytes mem v).outcome
  where
    by_outcome :
        Mallocs bytes mem n (malloc_rec n bytes mem)
        → Grants bytes mem n (malloc_rec n bytes mem) ⊎ Refuses bytes mem n (malloc_rec n bytes mem)
        → weigh_blocks w
            (free_rec (malloc_rec n bytes mem).node (malloc_rec n bytes mem).address mem').0
          ≡ weigh_blocks w n
    by_outcome m (inr r) = absurd (given r.null)
    by_outcome m (inl g) =
        let ptr : ℕ = (malloc_rec n bytes mem).address in
        let here : (ptr == ptr) ≡ true = ground arith in
        let inside : holds ptr ptr g.size ≡ 1 = ground (arith, g.block) in
        let fresh : weigh_blocks (holds ptr) n ≡ 0 = omega (
          arith,
          g.blocks (holds ptr),
          inside,
          blocks_disjoint ptr (malloc_rec n bytes mem).node m.form,
        ) in
        let gone : elsewhere ptr w ptr g.size ≡ 0 = rw here refl in
        omega (
          arith,
          (free_rec-Frees (malloc_rec n bytes mem).node ptr mem' m.form).blocks w,
          g.blocks (elsewhere ptr w),
          gone,
          elsewhere_all ptr w n v fresh,
        )

-- The states that calls of the two functions lead to.
pub data Runs : Buddy → Buddy → Type 0 where
  none : (b : Buddy) → Runs b b
  malloc_next : (b b' : Buddy) (bytes : ℕ) → Runs b b' → Runs b (malloc_buddy b' bytes).1
  free_next : (b b' : Buddy) (ptr : ℕ) → Runs b b' → Runs b (free_buddy b' ptr)

malloc_buddy-IsWellFormed :
    (b : Buddy) (bytes : ℕ) → IsWellFormed b.root → IsWellFormed (malloc_buddy b bytes).1.root
unfolding malloc_buddy
malloc_buddy-IsWellFormed b bytes v = elim (Bool-cases (ltb (size_of b.root) bytes)) [
  | inl large ↦ rw large v
  | inr fits ↦ rw fits (malloc_rec-Mallocs b.root (rounded bytes) b.mem_allocated v).form
]

Runs-IsWellFormed : {b b' : Buddy} → Runs b b' → IsWellFormed b.root → IsWellFormed b'.root
unfolding free_buddy
Runs-IsWellFormed (none b) v = v
Runs-IsWellFormed (malloc_next b b' bytes h) v =
    malloc_buddy-IsWellFormed b' bytes (Runs-IsWellFormed h v)
Runs-IsWellFormed (free_next b b' ptr h) v =
    (free_rec-Frees b'.root ptr b'.mem_allocated (Runs-IsWellFormed h v)).form

-- Whatever calls of `mallocBuddy` and `freeBuddy` come after `init_mm`, on a memory of at least one
-- and fewer than 2 ^ 62 bytes, the tree is well-formed, and no address lies in two of the blocks
-- that are given out.
pub init_mm-Runs :
    (amount : ℕ) (b : Buddy) (a : ℕ)
    → 0 < amount
    → amount < 2 ^ 62
    → Runs (init_mm amount) b
    → IsWellFormed b.root × (weigh_blocks (holds a) b.root ≤ 1)
unfolding init_mm
init_mm-Runs amount b a p h run =
    let v : IsWellFormed b.root = Runs-IsWellFormed run (tt, (p, p, omega arith)) in
    (v, blocks_disjoint a b.root v)

-- A call of `mallocBuddy` that gives out a block with room for the bytes, besides the others.
pub record Serves (bytes : ℕ) (b : Buddy) (r : ℕ × Buddy) : Type 0 where
  pub size : ℕ
  pub nonzero : 0 < r.0
  pub enough : bytes ≤ size
  pub blocks : (w : ℕ → ℕ → ℕ) → weigh_blocks w r.1.root ≡ weigh_blocks w b.root + w r.0 size
  pub accounted : r.1.mem_allocated ≡ (b.mem_allocated + rounded bytes) % u64_mod

-- A call of `mallocBuddy` that gives NULL.
pub record Denies (bytes : ℕ) (b : Buddy) (r : ℕ × Buddy) : Type 0 where
  pub null : r.0 ≡ 0
  pub unchanged : r.1 ≡ b
  pub no_room : (size_of b.root < bytes) ⊎ IsFull (rounded bytes) b.root

-- On a well-formed tree `mallocBuddy` of up to 2 ^ 30 bytes gives out a new block with room for
-- them besides the others, with `mem_allocated` raised by the rounded size, or it gives NULL and
-- changes nothing, because the bytes exceed the memory or no free leaf has room for the rounded
-- size.
pub malloc_buddy-Serves :
    (b : Buddy) (bytes : ℕ)
    → IsWellFormed b.root
    → bytes ≤ 1073741824
    → Serves bytes b (malloc_buddy b bytes) ⊎ Denies bytes b (malloc_buddy b bytes)
unfolding malloc_buddy
malloc_buddy-Serves b bytes v h = elim (Bool-cases (ltb (size_of b.root) bytes)) [
  | inl large ↦
      rw large (inr (record { null = refl; unchanged = refl; no_room = inl (ground arith) }))
  | inr fits ↦ rw fits (
      by_outcome (malloc_rec b.root (rounded bytes) b.mem_allocated)
        (malloc_rec-Mallocs b.root (rounded bytes) b.mem_allocated v).outcome)
]
  where
    by_outcome :
        (a : Answer)
        → Grants (rounded bytes) b.mem_allocated b.root a
          ⊎ Refuses (rounded bytes) b.mem_allocated b.root a
        → Serves bytes b (a.address, record { root = a.node; mem_allocated = a.mem_allocated })
          ⊎ Denies bytes b (a.address, record { root = a.node; mem_allocated = a.mem_allocated })
    by_outcome a (inl g) = inl (record {
      size = g.size;
      nonzero = g.block.0;
      enough = omega (arith, g.enough, rounded_enough bytes h);
      blocks = g.blocks;
      accounted = g.accounted;
    })
    by_outcome a (inr r) = inr (record {
      null = r.null;
      unchanged =
          ap (λ x. record { root = x; mem_allocated = a.mem_allocated }) r.unchanged
          ∙ ap (λ x. record { root = b.root; mem_allocated = x }) r.accounted;
      no_room = inr r.full;
    })
