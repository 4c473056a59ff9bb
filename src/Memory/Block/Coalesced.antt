-- ===== src/Memory/Block/Coalesced.antt =====
-- `coalesceFreeBlocks` of Kernel/BlockMemoryManager.c.
use peps_os.Common.{
  ℕ, ◌+◌, ◌%◌, ◌≤◌, ◌≡◌, refl, arith, inl, inr, Bool, true, false, ◌&&◌, List, [], ◌∷◌, u64_mod,
  Bool-cases,
}
use peps_os.Memory.Block.{Block, coalesce_from, coalesce_free_blocks, sizeof_block}
use peps_os.Memory.Block.Placed.{IsPlaced, IsPlaced-range, weigh_used, used_weight}

abbrev joined : Block → Block → Block
joined b c = record b { size = (b.size + (c.size + sizeof_block)) % u64_mod }

abbrev pub IsApart : Block → List Block → Type 0
IsApart b [] = Unit {0}
IsApart b (c ∷ cs) = (b.is_free && c.is_free) ≡ false

-- No two blocks in a row are free.
abbrev pub IsCoalesced : List Block → Type 0
IsCoalesced [] = Unit {0}
IsCoalesced (b ∷ bs) = IsApart b bs × IsCoalesced bs

-- The same blocks in use, and none of the free ones next to another.
pub record Coalesces (lo hi : ℕ) (bs bs' : List Block) : Type 0 where
  pub placed : IsPlaced lo hi bs'
  pub used : (w : ℕ → ℕ → ℕ) → weigh_used w bs' ≡ weigh_used w bs
  pub apart : IsCoalesced bs'

-- What starts with a block that is free exactly if `u`.
abbrev Heads : Bool → List Block → Type 0
Heads u [] = ⊥
Heads u (b ∷ bs) = b.is_free ≡ u

lower : (lo lo' hi : ℕ) (bs : List Block) → lo' ≤ lo → IsPlaced lo hi bs → IsPlaced lo' hi bs
lower lo lo' hi [] h v = (omega (arith, v.0), v.1)
lower lo lo' hi (b ∷ bs) h v = (omega (arith, v.0), v.1, v.2)

joined-IsPlaced :
    (lo hi : ℕ) (b c : Block) (cs : List Block)
    → IsPlaced lo hi (b ∷ c ∷ cs)
    → IsPlaced lo hi (joined b c ∷ cs)
joined-IsPlaced lo hi b c cs v =
    let rest = v.2 in
    let r = IsPlaced-range (c.start_address + c.size) hi cs rest.2 in
    let no_wrap : (b.size + (c.size + sizeof_block)) % u64_mod ≡ b.size + (c.size + sizeof_block) =
      omega (arith, r.0, r.1, rest.0, rest.1) in
    (
      v.0,
      v.1,
      lower (c.start_address + c.size) _ hi cs (omega (arith, no_wrap, rest.0, rest.1)) rest.2,
    )

unused : (w : ℕ → ℕ → ℕ) (u : Bool) (start size : ℕ) → u ≡ true → used_weight w u start size ≡ 0
unused w true start size e = refl
unused w false start size e = cc

both_true : (u v : Bool) → (u && v) ≡ true → (u ≡ true) × (v ≡ true)
both_true u v e = ground arith

IsApart-of :
    (b c : Block) (l : List Block)
    → (b.is_free && c.is_free) ≡ false
    → Heads c.is_free l
    → IsApart b l
IsApart-of b c [] e h = tt
IsApart-of b c (x ∷ xs) e h = ground (arith, e, h)

coalesce_from-Coalesces :
    (lo hi : ℕ) (b : Block) (bs : List Block)
    → IsPlaced lo hi (b ∷ bs)
    → Coalesces lo hi (b ∷ bs) (coalesce_from b bs) × Heads b.is_free (coalesce_from b bs)
unfolding coalesce_from
coalesce_from-Coalesces lo hi b [] v =
    (record { placed = v; used = λ w. refl; apart = (tt, tt) }, refl)
coalesce_from-Coalesces lo hi b (c ∷ cs) v = elim (Bool-cases (b.is_free && c.is_free)) [
  | inl both ↦
      let free = both_true b.is_free c.is_free both in
      let rest = coalesce_from-Coalesces lo hi (joined b c) cs (joined-IsPlaced lo hi b c cs v) in
      rw (coalesce_from, both)
        (
          record {
            placed = rest.0.placed;
            used = λ w. omega (
              arith,
              rest.0.used w,
              unused w b.is_free b.start_address b.size free.0,
              unused w b.is_free b.start_address ((b.size + (c.size + sizeof_block)) % u64_mod)
                  free.0,
              unused w c.is_free c.start_address c.size free.1,
            );
            apart = rest.0.apart;
          },
          rest.1,
        )
  | inr apart ↦
      let rest = coalesce_from-Coalesces (b.start_address + b.size) hi c cs v.2 in
      rw (coalesce_from, apart)
        (
          record {
            placed = (v.0, v.1, rest.0.placed);
            used = λ w. omega (arith, rest.0.used w);
            apart = (IsApart-of b c (coalesce_from c cs) apart rest.1, rest.0.apart);
          },
          refl,
        )
]

-- On blocks that stand one behind the other, `coalesceFreeBlocks` leaves such blocks, with the same
-- ones in use and no two free ones in a row.
pub coalesce_free_blocks-Coalesces :
    (lo hi : ℕ) (bs : List Block) → IsPlaced lo hi bs → Coalesces lo hi bs (coalesce_free_blocks bs)
unfolding coalesce_free_blocks
coalesce_free_blocks-Coalesces lo hi [] v = record { placed = v; used = λ w. refl; apart = tt }
coalesce_free_blocks-Coalesces lo hi (b ∷ bs) v = (coalesce_from-Coalesces lo hi b bs v).0
