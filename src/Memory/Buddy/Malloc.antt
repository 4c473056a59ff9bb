-- ===== src/Memory/Buddy/Malloc.antt =====
-- `malloc_rec` of Kernel/BuddyMemoryManager.c on a well-formed tree.
use peps_os.Common.{
  ℕ, zero, suc, ◌+◌, ◌*◌, ◌/◌, ◌%◌, ◌≤◌, ◌<◌, ◌≡◌, refl, sym, ap, ◌∙◌, arith, inl, inr, ◌⊎◌, true,
  false, ◌&&◌, ◌==◌, ltb, leb, if◌then◌else◌, Bool-cases, u64_mod,
}
use peps_os.Memory.Buddy.{
  NodeState, free, allocated, parcial, Node, leaf, branch, state_of, start_of, size_of, check_state,
  Answer, malloc_leaf, malloc_rec, min_block, with_left, take_leaf, refused, right_child,
  is_allocated,
}
use peps_os.Memory.Buddy.Tree.{IsWellFormed, IsBlock, weigh_blocks, both_allocated}

-- No free leaf of the tree holds that many bytes.
abbrev LeafRoom : ℕ → ℕ → NodeState → Type 0
LeafRoom bytes size free = size < bytes
LeafRoom bytes size allocated = Unit {0}
LeafRoom bytes size parcial = Unit {0}

abbrev pub IsFull : ℕ → Node → Type 0
IsFull bytes (leaf start size st index) = LeafRoom bytes size st
IsFull bytes (branch start size st index l r) = IsFull bytes l × IsFull bytes r

-- A call that gives out a block: a new one, at least as large as was asked for, besides the others.
pub record Grants (bytes mem : ℕ) (n : Node) (a : Answer) : Type 0 where
  pub size : ℕ
  pub block : IsBlock a.address size
  pub enough : bytes ≤ size
  pub blocks : (w : ℕ → ℕ → ℕ) → weigh_blocks w a.node ≡ weigh_blocks w n + w a.address size
  pub accounted : a.mem_allocated ≡ (mem + bytes) % u64_mod

-- A call that gives out none.
pub record Refuses (bytes mem : ℕ) (n : Node) (a : Answer) : Type 0 where
  pub null : a.address ≡ 0
  pub unchanged : a.node ≡ n
  pub full : IsFull bytes n
  pub accounted : a.mem_allocated ≡ mem

pub record Mallocs (bytes mem : ℕ) (n : Node) (a : Answer) : Type 0 where
  pub form : IsWellFormed a.node
  pub start : start_of a.node ≡ start_of n
  pub size : size_of a.node ≡ size_of n
  pub outcome : Grants bytes mem n a ⊎ Refuses bytes mem n a

refuses :
    (bytes mem : ℕ) (n : Node)
    → IsWellFormed n
    → IsFull bytes n
    → Mallocs bytes mem n (refused n mem)
refuses bytes mem n v f = record {
  form = v;
  start = refl;
  size = refl;
  outcome = inr (record { null = refl; unchanged = refl; full = f; accounted = refl });
}

takes :
    (bytes mem s z i : ℕ)
    → IsBlock s z
    → bytes ≤ z
    → Mallocs bytes mem (leaf s z free i) (take_leaf s z i bytes mem)
takes bytes mem s z i b h = record {
  form = (tt, b);
  start = refl;
  size = refl;
  outcome =
      inl (record { size = z; block = b; enough = h; blocks = λ w. omega arith; accounted = refl });
}

-- Half a block that has room gives out a block.
splits :
    (bytes mem s z i : ℕ) (a : Answer)
    → IsBlock s z
    → bytes ≤ z / 2
    → min_block < z
    → Mallocs bytes mem (leaf s (z / 2) free (i * 2 + 1)) a
    → Mallocs bytes mem (leaf s z free i) (with_left s z i (right_child s z i) a)
splits bytes mem s z i a b h large k = record {
  form = (
    k.start,
    k.size,
    wrap,
    refl,
    refl,
    b,
    k.form,
    (tt, (omega (arith, wrap), omega arith, omega (arith, wrap))),
  );
  start = refl;
  size = refl;
  outcome = by_outcome k.outcome;
}
  where
    wrap : (s + z / 2) % u64_mod ≡ s + z / 2
    wrap = omega arith

    by_outcome :
        Grants bytes mem (leaf s (z / 2) free (i * 2 + 1)) a
          ⊎ Refuses bytes mem (leaf s (z / 2) free (i * 2 + 1)) a
        → Grants bytes mem (leaf s z free i) (with_left s z i (right_child s z i) a)
          ⊎ Refuses bytes mem (leaf s z free i) (with_left s z i (right_child s z i) a)
    by_outcome (inl g) = inl (record {
      size = g.size;
      block = g.block;
      enough = g.enough;
      blocks = λ w. omega (arith, g.blocks w);
      accounted = g.accounted;
    })
    by_outcome (inr r) = absurd (omega (arith, r.full))

half_block : (s z : ℕ) → min_block < z → IsBlock s z → IsBlock s (z / 2)
half_block s z h b = (b.0, omega arith, omega (arith, b.2))

malloc_leaf-Mallocs :
    (f s z i bytes mem : ℕ)
    → z ≤ f
    → IsBlock s z
    → Mallocs bytes mem (leaf s z free i) (malloc_leaf f s z free i bytes mem)
unfolding malloc_leaf
malloc_leaf-Mallocs zero s z i bytes mem h b = elim (Bool-cases (ltb z bytes)) [
  | inl small ↦ rw small (refuses bytes mem (leaf s z free i) (tt, b) (ground arith))
  | inr fits ↦ rw fits (takes bytes mem s z i b (ground arith))
]
malloc_leaf-Mallocs (suc f) s z i bytes mem h b = elim (Bool-cases (ltb z bytes)) [
  | inl small ↦ rw small (refuses bytes mem (leaf s z free i) (tt, b) (ground arith))
  | inr fits ↦ elim (Bool-cases (leb bytes (z / 2) && ltb min_block z)) [
    | inr no_split ↦ rw (fits, no_split) (takes bytes mem s z i b (ground arith))
    | inl split ↦
        rw (fits, split)
          (splits bytes mem s z i (malloc_leaf f s (z / 2) free (i * 2 + 1) bytes mem) b
            (ground arith) (ground arith)
            (malloc_leaf-Mallocs f s (z / 2) (i * 2 + 1) bytes mem (ground arith)
              (half_block s z (ground arith) b)))
  ]
]

-- A node that is allocated has no room at all.
allocated-IsFull : (bytes : ℕ) (n : Node) → IsWellFormed n → state_of n ≡ allocated → IsFull bytes n
allocated-IsFull bytes (leaf s z free i) v e = cc
allocated-IsFull bytes (leaf s z allocated i) v e = tt
allocated-IsFull bytes (leaf s z parcial i) v e = tt
allocated-IsFull bytes (branch s z st i l r) v e =
    let both : (state_of l ≡ allocated) × (state_of r ≡ allocated) =
      both_allocated (state_of l) (state_of r) (sym v.4 ∙ e) in
    (allocated-IsFull bytes l v.6 both.0, allocated-IsFull bytes r v.7 both.1)

is_allocated_inv : (st : NodeState) → is_allocated st ≡ true → st ≡ allocated
is_allocated_inv free e = cc
is_allocated_inv allocated e = refl
is_allocated_inv parcial e = cc

parent : ℕ → ℕ → ℕ → Node → Node → Node
parent s z i l r = branch s z (check_state (state_of l) (state_of r)) i l r

-- The left subtree gives out a block.
left-Grants :
    (bytes mem s z i : ℕ) (st : NodeState) (l r : Node) (a : Answer)
    → IsWellFormed (branch s z st i l r)
    → Mallocs bytes mem l a
    → Grants bytes mem l a
    → Mallocs bytes mem (branch s z st i l r) (with_left s z i r a)
left-Grants bytes mem s z i st l r a v k g = record {
  form = (k.start ∙ v.0, k.size ∙ v.1, v.2, v.3, refl, v.5, k.form, v.7);
  start = refl;
  size = refl;
  outcome = inl (record {
    size = g.size;
    block = g.block;
    enough = g.enough;
    blocks = λ w. omega (arith, g.blocks w);
    accounted = g.accounted;
  });
}

-- The left subtree refuses, and the right one answers.
abbrev with_right : ℕ → ℕ → ℕ → Answer → Answer → Answer
with_right s z i a b = record b {
  node = branch s z (check_state (state_of a.node) (state_of b.node)) i a.node b.node;
}

right_answers :
    (bytes mem s z i : ℕ) (st : NodeState) (l r : Node) (a b : Answer)
    → IsWellFormed (branch s z st i l r)
    → Mallocs bytes mem l a
    → Refuses bytes mem l a
    → Mallocs bytes a.mem_allocated r b
    → Mallocs bytes mem (branch s z st i l r) (with_right s z i a b)
unfolding parent
right_answers bytes mem s z i st l r a b v k n m = record {
  form = (k.start ∙ v.0, k.size ∙ v.1, m.start ∙ v.2, m.size ∙ v.3, refl, v.5, k.form, m.form);
  start = refl;
  size = refl;
  outcome = by_outcome m.outcome;
}
  where
    by_outcome :
        Grants bytes a.mem_allocated r b ⊎ Refuses bytes a.mem_allocated r b
        → Grants bytes mem (branch s z st i l r) (with_right s z i a b)
          ⊎ Refuses bytes mem (branch s z st i l r) (with_right s z i a b)
    by_outcome (inl g) = inl (record {
      size = g.size;
      block = g.block;
      enough = g.enough;
      blocks = λ w. omega (arith, g.blocks w, ap (λ x. weigh_blocks w x) n.unchanged);
      accounted = g.accounted ∙ ap (λ x. (x + bytes) % u64_mod) n.accounted;
    })
    by_outcome (inr f) = inr (record {
      null = f.null;
      unchanged =
          ap (λ x. parent s z i x b.node) n.unchanged
          ∙ ap (λ y. parent s z i l y) f.unchanged
          ∙ ap (λ x. branch s z x i l r) (sym v.4);
      full = (n.full, f.full);
      accounted = f.accounted ∙ n.accounted;
    })

-- On a well-formed tree a call of `malloc_rec` gives out a new block of at least that size besides
-- the others, with `mem_allocated` raised by the bytes, or it gives NULL, changes nothing, and no
-- free leaf of the tree holds that many bytes; the tree stays well-formed over the same range.
pub malloc_rec-Mallocs :
    (n : Node) (bytes mem : ℕ) → IsWellFormed n → Mallocs bytes mem n (malloc_rec n bytes mem)
unfolding malloc_rec
malloc_rec-Mallocs (leaf s z free i) bytes mem v =
    malloc_leaf-Mallocs z s z i bytes mem (omega arith) v.1
malloc_rec-Mallocs (leaf s z allocated i) bytes mem v =
    refuses bytes mem (leaf s z allocated i) v tt
malloc_rec-Mallocs (leaf s z parcial i) bytes mem v = absurd v.0
malloc_rec-Mallocs (branch s z st i l r) bytes mem v = elim (Bool-cases (is_allocated st)) [
  | inl taken ↦ rw taken (
      refuses bytes mem (branch s z st i l r) v
        (allocated-IsFull bytes (branch s z st i l r) v (is_allocated_inv st taken)))
  | inr open_node ↦ rw open_node (
      by_left (malloc_rec l bytes mem) (malloc_rec-Mallocs l bytes mem v.6)
        (malloc_rec r bytes (malloc_rec l bytes mem).mem_allocated)
        (malloc_rec-Mallocs r bytes (malloc_rec l bytes mem).mem_allocated v.7))
]
  where
    by_left :
        (a : Answer)
        → Mallocs bytes mem l a
        → (b : Answer) → Mallocs bytes a.mem_allocated r b
        → Mallocs bytes mem
            (branch s z st i l r)
            (if a.address == 0 then with_right s z i a b else with_left s z i r a)
    by_left a k b m = elim k.outcome [
      | inl g ↦
          let nonzero : (a.address == 0) ≡ false = ground (arith, g.block.0) in
          rw nonzero (left-Grants bytes mem s z i st l r a v k g)
      | inr n ↦
          let null : (a.address == 0) ≡ true = ground (arith, n.null) in
          rw null (right_answers bytes mem s z i st l r a b v k n m)
    ]
