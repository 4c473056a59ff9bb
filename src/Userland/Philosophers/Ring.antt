-- ===== src/Userland/Philosophers/Ring.antt =====
-- The ring of Userland/SampleCodeModule/philosophers.c: who sits beside whom, and sums over the ring.
use peps_os.Common.{
  ℕ, zero, suc, ◌+◌, ◌≤◌, ◌<◌, ◌≡◌, ◌≢◌, refl, ap, arith, Bool, true, ◌&&◌, ◌||◌, not, List, [],
  ◌∷◌, ◌==◌, ltb, get_or, set, length, length-set, get_or-set_ne, all_below, all_below-true,
}
use peps_os.Userland.Philosophers.{
  Point, starts, wants_lock, hungers, tests, seats, posts, unlocks, takes_first, takes_second,
  puts_first, puts_second, relocks, rethinks, reunlocks, left, right,
}

-- At the points of the critical region of `stateLock`.
abbrev pub inside : Point → ℕ
inside starts = 0
inside wants_lock = 0
inside hungers = 1
inside (tests st) = 1
inside (seats st) = 1
inside (posts st) = 1
inside unlocks = 1
inside takes_first = 0
inside takes_second = 0
inside puts_first = 0
inside puts_second = 0
inside relocks = 0
inside rethinks = 1
inside reunlocks = 1

-- The sum over all philosophers.
abbrev pub weigh : (Point → ℕ) → List Point → ℕ
weigh f [] = 0
weigh f (p ∷ ps) = f p + weigh f ps

pub weigh-set :
    (f : Point → ℕ) (l : List Point) (i : ℕ) (q : Point)
    → i < length l
    → weigh f (set l i q) + f (get_or l i starts) ≡ weigh f l + f q
weigh-set f [] i q h = absurd (omega arith)
weigh-set f (p ∷ l) zero q h = omega arith
weigh-set f (p ∷ l) (suc i) q h = omega (arith, weigh-set f l i q (omega arith))

weigh-get_or :
    (f : Point → ℕ) (l : List Point) (k : ℕ) → k < length l → f (get_or l k starts) ≤ weigh f l
weigh-get_or f [] k h = absurd (omega arith)
weigh-get_or f (p ∷ l) zero h = omega arith
weigh-get_or f (p ∷ l) (suc k) h = omega (arith, weigh-get_or f l k (omega arith))

-- Two different philosophers inside are two in the sum.
pub weigh-two :
    (l : List Point) (i k : ℕ)
    → i < length l
    → k < length l
    → i ≢ k
    → inside (get_or l i starts) + inside (get_or l k starts) ≤ weigh inside l
weigh-two l i k hi hk ne = omega (
  arith,
  weigh-set inside l i starts hi,
  weigh-get_or inside (set l i starts) k (omega (arith, length-set l i starts)),
  ap inside (get_or-set_ne l i k starts starts ne),
)

-- The neighbours on a table of 3 to 8.
ring : ℕ → ℕ → Bool
ring q x =
    (left q (right q x) == x) && (not (right q x == x) && (ltb (right q x) q && ltb (left q x) q))

ring_table : all_below 9 (λ q. ltb q 3 || all_below q (ring q)) ≡ true
unfolding ring all_below
ring_table = refl

pub record Neighbours (q x : ℕ) : Type 0 where
  pub back : left q (right q x) ≡ x
  pub other : right q x ≢ x
  pub right_in : right q x < q
  pub left_in : left q x < q

pub neighbours : (q x : ℕ) → 3 ≤ q → q ≤ 8 → x < q → Neighbours q x
unfolding ring
neighbours q x low high h =
    let here = all_below-true 9 (λ n. ltb n 3 || all_below n (ring n)) q ring_table (omega arith) in
    let inner : all_below q (ring q) ≡ true = ground (arith, here) in
    let all = all_below-true q (ring q) x inner h in
    record {
      back = ground (arith, all);
      other = λ e. absurd (ground (arith, all, e));
      right_in = ground (arith, all);
      left_in = ground (arith, all);
    }
