-- ===== src/Userland/Snake/Food.antt =====
-- Where the food of Userland/SampleCodeModule/snake.c comes to lie.
use peps_os.Common.{
  ℕ, ◌+◌, ◌-◌, ◌%◌, ◌≤◌, ◌<◌, ◌≡◌, refl, arith, ◌↔◌, ◌⊎◌, inl, inr, Bool, false, ◌&&◌, List, [],
  ◌∷◌, ltb, All, Bool-cases, u32_mod,
}
use native.Mathlib.Nat.{mod-lt}
use peps_os.Userland.Snake.{
  Point, get_random, rand, check_self_collision, face_tried, square_size, interface_length,
}

bounded :
    (r d low high : ℕ)
    → 0 < d
    → d + low ≡ high + 1
    → high + 1 < u32_mod
    → (low ≤ (r % d + low) % u32_mod) × ((r % d + low) % u32_mod ≤ high)
bounded r d low high p e lt =
    let less = mod-lt r {m = d} (omega arith) in (omega (arith, less), omega (arith, less))

-- A random number lies between its bounds.
pub get_random-bounds :
    (seed low high : ℕ)
    → low ≤ high
    → high + 1 < u32_mod
    → (low ≤ (get_random seed low high).0) × ((get_random seed low high).0 ≤ high)
unfolding get_random
get_random-bounds seed low high h lt =
    let span : (high + (u32_mod - low) + 1) % u32_mod ≡ (high - low) + 1 = omega arith in
    rw span (bounded (rand seed) ((high - low) + 1) low high (omega arith) (omega arith) lt)

-- The squares of two points do not overlap.
abbrev pub IsApart : ℕ → ℕ → Point → Type 0
IsApart x y p =
    ((x + square_size ≤ p.x) ⊎ (p.x + square_size ≤ x))
    ⊎ ((y + square_size ≤ p.y) ⊎ (p.y + square_size ≤ y))

-- The square of a point ends before 2 ^ 32.
abbrev pub HasRoom : Point → Type 0
HasRoom p = (p.x + square_size < u32_mod) × (p.y + square_size < u32_mod)

abbrev touches : ℕ → ℕ → Point → Bool
touches x y p =
    (ltb x ((p.x + square_size) % u32_mod) && ltb p.x ((x + square_size) % u32_mod))
    && (ltb y ((p.y + square_size) % u32_mod) && ltb p.y ((y + square_size) % u32_mod))

touches-IsApart :
    (x y : ℕ) (p : Point)
    → x + square_size < u32_mod
    → y + square_size < u32_mod
    → HasRoom p
    → (touches x y p ≡ false) ↔ IsApart x y p
touches-IsApart x y p hx hy (px, py) =
    let a : (p.x + square_size) % u32_mod ≡ p.x + square_size = omega arith in
    let b : (x + square_size) % u32_mod ≡ x + square_size = omega arith in
    let c : (p.y + square_size) % u32_mod ≡ p.y + square_size = omega arith in
    let d : (y + square_size) % u32_mod ≡ y + square_size = omega arith in
    rw (a, b, c, d) (ground arith)

-- `checkSelfCollision` is false exactly if the square at (x, y) overlaps none of the snake's squares,
-- where all these squares end before 2 ^ 32.
pub check_self_collision-IsApart :
    (x y : ℕ) (body : List Point)
    → x + square_size < u32_mod
    → y + square_size < u32_mod
    → All HasRoom body
    → (check_self_collision x y body ≡ false) ↔ All (IsApart x y) body
unfolding check_self_collision
check_self_collision-IsApart x y [] hx hy h = (λ e. tt, λ a. refl)
check_self_collision-IsApart x y (p ∷ ps) hx hy (hp, hs) =
    let here = touches-IsApart x y p hx hy hp in
    let there = check_self_collision-IsApart x y ps hx hy hs in
    elim (Bool-cases (touches x y p)) [
      | inl e ↦ rw e (λ f. absurd (ground (arith, f)), λ a. absurd (ground (arith, e, here.1 a.0)))
      | inr e ↦ rw e (λ f. (here.0 e, there.0 f), λ a. there.1 a.1)
    ]

-- On a screen at least 40 wide and 140 high, a face that the loop of `drawRandomFace` tries lies
-- below the score and a square away from the right and lower edge, and the loop ends with it
-- exactly if it overlaps no square of the snake, where these squares end before 2 ^ 32.
pub face_tried-free :
    (seed width height : ℕ) (body : List Point)
    → 40 ≤ width
    → width < 65536
    → 140 ≤ height
    → height < 65536
    → All HasRoom body
    → let (face, collision, seed') = face_tried seed width height body in
      ((square_size ≤ face.x) × (face.x + square_size ≤ width))
      × ((square_size + interface_length ≤ face.y) × (face.y + square_size ≤ height))
      × ((collision ≡ false) ↔ All (IsApart face.x face.y) body)
unfolding face_tried
face_tried-free seed width height body w1 w2 h1 h2 room =
    let right : (width + (u32_mod - square_size)) % u32_mod ≡ width - square_size = omega arith in
    let lower : (height + (u32_mod - square_size)) % u32_mod ≡ height - square_size = omega arith in
    rw (right, lower)
      (let in_x =
          get_random-bounds seed square_size (width - square_size) (omega arith) (omega arith) in
        let in_y =
          get_random-bounds (get_random seed square_size (width - square_size)).1
            (square_size + interface_length) (height - square_size) (omega arith) (omega arith) in
        (
          (in_x.0, omega (arith, in_x.1)),
          (in_y.0, omega (arith, in_y.1)),
          check_self_collision-IsApart _ _ body (omega (arith, in_x.1)) (omega (arith, in_y.1))
              room,
        ))
