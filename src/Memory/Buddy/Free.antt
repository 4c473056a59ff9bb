-- ===== src/Memory/Buddy/Free.antt =====
-- `free_rec` of Kernel/BuddyMemoryManager.c on a well-formed tree.
use peps_os.Common.{
  ℕ, ◌+◌, ◌≤◌, ◌<◌, ◌≡◌, refl, sym, ◌∙◌, arith, inl, inr, false, ◌==◌, ltb, if◌then◌else◌,
  Bool-cases,
}
use peps_os.Memory.Buddy.{
  NodeState, free, allocated, parcial, Node, leaf, branch, state_of, start_of, size_of, check_state,
  joined, free_rec,
}
use peps_os.Memory.Buddy.Tree.{IsWellFormed, weigh_blocks, both_free, free-weigh}

-- The weight of the blocks other than those that start at an address.
abbrev pub elsewhere : ℕ → (ℕ → ℕ → ℕ) → ℕ → ℕ → ℕ
elsewhere ptr w start size = if start == ptr then 0 else w start size

-- A tree after a call of `free_rec`: still well-formed over the same range, with the blocks that do
-- not start at the address as they were, and none that does.
pub record Frees (ptr : ℕ) (n n' : Node) : Type 0 where
  pub form : IsWellFormed n'
  pub start : start_of n' ≡ start_of n
  pub size : size_of n' ≡ size_of n
  pub blocks : (w : ℕ → ℕ → ℕ) → weigh_blocks w n' ≡ weigh_blocks (elsewhere ptr w) n

-- Joining two free halves changes no block.
joined-Frees :
    (ptr s z i : ℕ) (st : NodeState) (l r l' r' : Node)
    → IsWellFormed (branch s z st i l r)
    → Frees ptr l l'
    → Frees ptr r r'
    → (st' : NodeState) → check_state (state_of l') (state_of r') ≡ st'
    → Frees ptr (branch s z st i l r) (joined s z st' i l' r')
joined-Frees ptr s z i st l r l' r' v f g free e = record {
  form = (tt, v.5);
  start = refl;
  size = refl;
  blocks = λ w.
      let both : (state_of l' ≡ free) × (state_of r' ≡ free) =
        both_free (state_of l') (state_of r') e in
      omega (
        arith,
        f.blocks w,
        g.blocks w,
        free-weigh w l' f.form both.0,
        free-weigh w r' g.form both.1,
      );
}
joined-Frees ptr s z i st l r l' r' v f g allocated e = record {
  form = (f.start ∙ v.0, f.size ∙ v.1, g.start ∙ v.2, g.size ∙ v.3, sym e, v.5, f.form, g.form);
  start = refl;
  size = refl;
  blocks = λ w. omega (arith, f.blocks w, g.blocks w);
}
joined-Frees ptr s z i st l r l' r' v f g parcial e = record {
  form = (f.start ∙ v.0, f.size ∙ v.1, g.start ∙ v.2, g.size ∙ v.3, sym e, v.5, f.form, g.form);
  start = refl;
  size = refl;
  blocks = λ w. omega (arith, f.blocks w, g.blocks w);
}

-- A tree whose blocks lie behind an address, or all end before it, has none that starts there.
behind :
    (ptr : ℕ) (w : ℕ → ℕ → ℕ) (n : Node)
    → IsWellFormed n
    → ptr < start_of n
    → weigh_blocks (elsewhere ptr w) n ≡ weigh_blocks w n
behind ptr w (leaf s z free i) v h = refl
behind ptr w (leaf s z allocated i) v h =
    let other : (s == ptr) ≡ false = ground arith in rw other refl
behind ptr w (leaf s z parcial i) v h = refl
behind ptr w (branch s z st i l r) v h =
    omega (arith, behind ptr w l v.6 (omega (arith, v.0)), behind ptr w r v.7 (omega (arith, v.2)))

ahead :
    (ptr : ℕ) (w : ℕ → ℕ → ℕ) (n : Node)
    → IsWellFormed n
    → start_of n + size_of n ≤ ptr
    → weigh_blocks (elsewhere ptr w) n ≡ weigh_blocks w n
ahead ptr w (leaf s z free i) v h = refl
ahead ptr w (leaf s z allocated i) v h =
    let other : (s == ptr) ≡ false = ground (arith, v.1) in rw other refl
ahead ptr w (leaf s z parcial i) v h = refl
ahead ptr w (branch s z st i l r) v h = omega (
  arith,
  ahead ptr w l v.6 (omega (arith, v.0, v.1)),
  ahead ptr w r v.7 (omega (arith, v.2, v.3)),
)

behind-Frees : (ptr : ℕ) (n : Node) → IsWellFormed n → ptr < start_of n → Frees ptr n n
behind-Frees ptr n v h = record {
  form = v;
  start = refl;
  size = refl;
  blocks = λ w. sym (behind ptr w n v h);
}

ahead-Frees : (ptr : ℕ) (n : Node) → IsWellFormed n → start_of n + size_of n ≤ ptr → Frees ptr n n
ahead-Frees ptr n v h = record {
  form = v;
  start = refl;
  size = refl;
  blocks = λ w. sym (ahead ptr w n v h);
}

-- A call of `free_rec` on a well-formed tree keeps it well-formed over the same range, takes back
-- the block that starts at the address, if there is one, and leaves every other block given out.
pub free_rec-Frees : (n : Node) (ptr mem : ℕ) → IsWellFormed n → Frees ptr n (free_rec n ptr mem).0
unfolding free_rec
free_rec-Frees (leaf s z free i) ptr mem v = record {
  form = v;
  start = refl;
  size = refl;
  blocks = λ w. refl;
}
free_rec-Frees (leaf s z allocated i) ptr mem v = elim (Bool-cases (s == ptr)) [
  | inl here ↦
      rw here (record { form = (tt, v.1); start = refl; size = refl; blocks = λ w. rw here refl })
  | inr other ↦
      rw other (record { form = v; start = refl; size = refl; blocks = λ w. rw other refl })
]
free_rec-Frees (leaf s z parcial i) ptr mem v = absurd v.0
free_rec-Frees (branch s z st i l r) ptr mem v = elim (Bool-cases (ltb ptr (start_of r))) [
  | inl in_left ↦ rw in_left (
      joined-Frees ptr s z i st l r (free_rec l ptr mem).0 r v (free_rec-Frees l ptr mem v.6)
        (behind-Frees ptr r v.7 (ground arith))
        (check_state (state_of (free_rec l ptr mem).0) (state_of r)) refl)
  | inr in_right ↦ rw in_right (
      joined-Frees ptr s z i st l r l (free_rec r ptr mem).0 v
        (ahead-Frees ptr l v.6 (ground (arith, v.0, v.1, v.2, v.3))) (free_rec-Frees r ptr mem v.7)
        (check_state (state_of l) (state_of (free_rec r ptr mem).0)) refl)
]
