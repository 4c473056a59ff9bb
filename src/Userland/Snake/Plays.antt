-- ===== src/Userland/Snake/Plays.antt =====
-- A snake of Userland/SampleCodeModule/snake.c in play, and how an update keeps it so.
use peps_os.Common.{
  Option, some, ltb, ℕ, zero, suc, ◌-◌, ◌<◌, ◌≡◌, ◌≢◌, refl, sym, ap, subst, ◌∙◌, arith, Bool, true,
  false, ◌&&◌, not, inl, inr, ◌⊎◌, List, [], ◌∷◌, ◌++◌, ◌==◌, All, length, get_or, take, Bool-cases,
  length-append, u32_mod,
}
use peps_os.Userland.Snake.{
  Update, go_on, fed, max_length, Movement, down, up, right, left, Point, Snake, origin, moved_head,
  hits_body, same_point, advance, eat, update_snake, tail_of, initialize_snake, initial_points,
  is_at_face, is_outside,
}
use peps_os.Userland.Snake.Moves.{advanced_points}

-- Two points next to each other, or the same.
abbrev pub IsLinked : Point → Point → Type 0
IsLinked p q = (p ≡ q) ⊎ ((m : Movement) × (p ≡ moved_head m q))

abbrev pub Chained : Point → List Point → Type 0
Chained p [] = Unit
Chained p (q ∷ qs) = IsLinked p q × Chained q qs

-- No two points are the same.
abbrev pub Distinct : List Point → Type 0
Distinct [] = Unit
Distinct (p ∷ ps) = All (λ q. p ≢ q) ps × Distinct ps

abbrev pub On32 : Point → Type 0
On32 p = (p.x < u32_mod) × (p.y < u32_mod)

-- A snake in play: its points hang together, and no two are the same.
pub record IsSnake (s : Snake) : Type 0 where
  pub head : Point
  pub rest : List Point
  pub points : s.body ≡ head ∷ rest
  pub chained : Chained head rest
  pub distinct : Distinct (head ∷ rest)
  pub words : All On32 (head ∷ rest)

-- An update whose new head is `head` comes back: the head is outside, or on the snake, and the flag says so,
-- or the snake is in play.
pub data Plays (head : Point) (w h : ℕ) (r : Option (Bool × Update)) : Type 0 where
  hits_wall :
      (eaten : Bool) (u : Update)
      → r ≡ some (eaten, u)
      → u.flag_wall ≡ true
      → is_outside head w h ≡ true
      → Plays head w h r
  hits_itself :
      (eaten : Bool) (u : Update)
      → r ≡ some (eaten, u)
      → u.flag_snake ≡ true
      → hits_body head (tail_of u.snake.body) ≡ true
      → Plays head w h r
  in_play :
      (eaten : Bool) (u : Update)
      → r ≡ some (eaten, u)
      → u.flag_wall ≡ false
      → u.flag_snake ≡ false
      → IsSnake u.snake
      → Plays head w h r

module _ {ℓ κ} {A : Type ℓ} (P : A → Type κ) where
  All-take : (n : ℕ) (l : List A) → All P l → All P (take n l)
  All-take zero l h = tt
  All-take (suc n) [] h = tt
  All-take (suc n) (x ∷ l) (hx, h) = (hx, All-take n l h)

Chained-take : (n : ℕ) (p : Point) (l : List Point) → Chained p l → Chained p (take n l)
Chained-take zero p l h = tt
Chained-take (suc n) p [] h = tt
Chained-take (suc n) p (q ∷ l) (hq, h) = (hq, Chained-take n q l h)

Distinct-take : (n : ℕ) (l : List Point) → Distinct l → Distinct (take n l)
Distinct-take zero l h = tt
Distinct-take (suc n) [] h = tt
Distinct-take (suc n) (p ∷ l) (hp, h) = (All-take (λ q. p ≢ q) n l hp, Distinct-take n l h)

hits_body-free : (p : Point) (l : List Point) → hits_body p l ≡ false → All (λ q. p ≢ q) l
unfolding hits_body
hits_body-free p [] h = tt
hits_body-free p (q ∷ l) h = elim (Bool-cases (same_point p q)) [
  | inl e ↦ absurd (ground (arith, rw e at h))
  | inr e ↦ (
    λ same. absurd (ground (arith, e, ap (λ r. r.x) same, ap (λ r. r.y) same)),
    hits_body-free p l (rw e at h),
  )
]

moved_head-ne : (m : Movement) (p : Point) → On32 p → moved_head m p ≢ p
unfolding moved_head
moved_head-ne down p (hx, hy) e = absurd (omega (arith, ap (λ r. r.y) e))
moved_head-ne up p (hx, hy) e = absurd (omega (arith, ap (λ r. r.y) e))
moved_head-ne right p (hx, hy) e = absurd (omega (arith, ap (λ r. r.x) e))
moved_head-ne left p (hx, hy) e = absurd (omega (arith, ap (λ r. r.x) e))

moved_head-On32 : (m : Movement) (p : Point) → On32 p → On32 (moved_head m p)
unfolding moved_head
moved_head-On32 down p (hx, hy) = (hx, omega arith)
moved_head-On32 up p (hx, hy) = (hx, omega arith)
moved_head-On32 right p (hx, hy) = (omega arith, hy)
moved_head-On32 left p (hx, hy) = (omega arith, hy)

-- The points that stay, which begin at the old head.
abbrev pub BeginsAt : Point → List Point → Type 0
BeginsAt p [] = Unit
BeginsAt p (q ∷ qs) = (q ≡ p) × Chained q qs

Chained-BeginsAt :
    (m : Movement) (p : Point) (kept : List Point) → BeginsAt p kept → Chained (moved_head m p) kept
Chained-BeginsAt m p [] h = tt
Chained-BeginsAt m p (q ∷ qs) (e, h) = (inr (m, ap (moved_head m) (sym e)), h)

-- A snake that goes on has the new head before the points that stay.
advance-Plays :
    (s : Snake) (m : Movement) (p : Point) (b : List Point) (w h : ℕ) (eaten : Bool)
    → s.body ≡ p ∷ b
    → On32 p
    → BeginsAt p (take (length b) (p ∷ b))
    → Distinct (take (length b) (p ∷ b))
    → All On32 (take (length b) (p ∷ b))
    → Plays (moved_head m p) w h (some (eaten, advance s (moved_head m p) w h false false))
unfolding advance
advance-Plays s m p b w h eaten e hp begins distinct words =
    elim (Bool-cases (is_outside (moved_head m p) w h)) [
      | inl outside ↦ rw outside (hits_wall eaten _ refl refl outside)
      | inr inside ↦ elim (Bool-cases (hits_body (moved_head m p) (tail_of s.body))) [
        | inl hit ↦ rw (inside, hit) (hits_itself eaten _ refl refl hit)
        | inr free ↦
            let apart : All (λ q. moved_head m p ≢ q) (p ∷ b) =
              (moved_head-ne m p hp, hits_body-free (moved_head m p) b (rw e at free)) in
            rw (inside, free)
              (in_play eaten _ refl refl refl (record {
                head = moved_head m p;
                rest = take (length b) (p ∷ b);
                points = rw e (advanced_points (moved_head m p) p b);
                chained = Chained-BeginsAt m p (take (length b) (p ∷ b)) begins;
                distinct = (All-take (λ q. moved_head m p ≢ q) (length b) (p ∷ b) apart, distinct);
                words = (moved_head-On32 m p hp, words);
              }))
      ]
    ]

take-append : (b c : List Point) → take (length b) (b ++ c) ≡ b
take-append [] c = refl
take-append (x ∷ b) c = ap (◌∷◌ x) (take-append b c)

grown_take :
    (p q : Point) (b : List Point) → take (length (b ++ q ∷ [])) (p ∷ (b ++ q ∷ [])) ≡ p ∷ b
grown_take p q b =
    ap (λ n. take n (p ∷ (b ++ q ∷ []))) {y = suc (length b)}
      (omega (arith, length-append b (q ∷ [])))
    ∙ ap (◌∷◌ p) (take-append b (q ∷ []))

BeginsAt-take : (n : ℕ) (p : Point) (b : List Point) → Chained p b → BeginsAt p (take n (p ∷ b))
BeginsAt-take zero p b h = tt
BeginsAt-take (suc n) p b h = (refl, Chained-take n p b h)

-- The snake after its meal: longer by its last point, or as it was.
fed-some :
    (grows : Bool) (s : Snake) (p : Point) (b : List Point) (w h : ℕ) (eaten : Bool)
    → s.body ≡ p ∷ b
    → Chained p b
    → Distinct (p ∷ b)
    → All On32 (p ∷ b)
    → length s.body < max_length
    → Plays
        (moved_head s.mov p)
        w
        h
        (go_on (fed grows s) eaten (moved_head s.mov p) w h false false)
unfolding fed eat go_on
fed-some false s p b w h eaten e chained distinct words room =
    advance-Plays s s.mov p b w h eaten e words.0 (BeginsAt-take (length b) p b chained)
      (Distinct-take (length b) (p ∷ b) distinct) (All-take On32 (length b) (p ∷ b) words)
fed-some true s p b w h eaten e chained distinct words room =
    let last = get_or s.body (length s.body - 1) origin in
    let same = sym (grown_take p last b) in
    let fits : ltb (length s.body) max_length ≡ true = ground (arith, room) in
    rw fits (
      advance-Plays (record s { body = s.body ++ last ∷ [] }) s.mov p (b ++ last ∷ []) w h eaten
        (ap (λ l. l ++ last ∷ []) e) words.0 (subst (BeginsAt p) same (refl, chained))
        (subst Distinct same distinct) (subst (All On32) same words))

-- An update of a snake in play of fewer than 500 points comes back without a store outside of the
-- array: the new head is outside of the map and the wall's flag is set, or it stands on a point of
-- the snake behind the head and the snake's flag is set, or neither flag is set and the snake is in
-- play again, whether it has eaten or not: its points hang together, no two are the same, and it
-- has a head.
pub update_snake-Plays :
    (s : Snake) (w h mode : ℕ) (face : Point)
    → IsSnake s
    → length s.body < max_length
    → Plays
        (moved_head s.mov (get_or s.body 0 origin))
        w
        h
        (update_snake s w h false false mode face)
unfolding update_snake
update_snake-Plays s w h mode face v room =
    let first : get_or s.body 0 origin ≡ v.head = ap (λ l. get_or l 0 origin) v.points in
    rw first (
      fed-some (is_at_face (moved_head s.mov v.head) face && not (mode == 1)) s v.head v.rest w h
        (is_at_face (moved_head s.mov v.head) face) v.points v.chained v.distinct v.words room)

further : (p q : Point) → q.x < p.x → p ≢ q
further p q h e = absurd (omega (arith, h, ap (λ r. r.x) e))

-- A new snake is in play.
pub initialize_snake-IsSnake :
    (x y color : ℕ) → x < 65536 → y < 65536 → IsSnake (initialize_snake x y color)
unfolding initialize_snake initial_points moved_head
initialize_snake-IsSnake x y color hx hy = record {
  head = _;
  rest = _;
  points = refl;
  chained = (
    inr (right, ap (λ z. record { x = z; y = y }) (omega arith)),
    (
      inr (right, ap (λ z. record { x = z; y = y }) (omega arith)),
      (
        inr (right, ap (λ z. record { x = z; y = y }) (omega arith)),
        (
          inr (right, ap (λ z. record { x = z; y = y }) (omega arith)),
          (inr (right, ap (λ z. record { x = z; y = y }) (omega arith)), tt),
        ),
      ),
    ),
  );
  distinct = (
    (
      further _ _ (omega arith),
      (
        further _ _ (omega arith),
        (further _ _ (omega arith), (further _ _ (omega arith), (further _ _ (omega arith), tt))),
      ),
    ),
    (
      (
        further _ _ (omega arith),
        (further _ _ (omega arith), (further _ _ (omega arith), (further _ _ (omega arith), tt))),
      ),
      (
        (further _ _ (omega arith), (further _ _ (omega arith), (further _ _ (omega arith), tt))),
        (
          (further _ _ (omega arith), (further _ _ (omega arith), tt)),
          ((further _ _ (omega arith), tt), (tt, tt)),
        ),
      ),
    ),
  );
  words = (
    (omega arith, omega arith),
    (
      (omega arith, omega arith),
      (
        (omega arith, omega arith),
        (
          (omega arith, omega arith),
          ((omega arith, omega arith), ((omega arith, omega arith), tt)),
        ),
      ),
    ),
  );
}
