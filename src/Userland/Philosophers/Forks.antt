-- ===== src/Userland/Philosophers/Forks.antt =====
-- How many forks there are at the table of Userland/SampleCodeModule/philosophers.c.
use peps_os.Common.{
  ℕ, zero, suc, ◌+◌, ◌-◌, ◌≤◌, ◌<◌, ◌≡◌, refl, sym, ap, ◌∙◌, subst, arith, Bool, true, false, inl,
  inr, Option, none, some, List, [], ◌∷◌, ◌==◌, if◌then◌else◌, get_or, set, length, Bool-cases,
}
use peps_os.Userland.Philosophers.{
  Dinner, Stage, own, lefts, rights, Point, starts, wants_lock, hungers, tests, seats, posts,
  unlocks, takes_first, takes_second, puts_first, puts_second, relocks, rethinks, reunlocks, right,
  point_at, fork_at, tested, after_test, may_eat, act_at, act, wait_fork, wait_lock, max_philos,
}
use peps_os.Userland.Philosophers.Ring.{weigh, weigh-set, neighbours}
use peps_os.Userland.Philosophers.Order.{InOrder}

-- The forks that a philosopher holds at a point.
abbrev pub held : Point → ℕ
held starts = 0
held wants_lock = 0
held hungers = 0
held (tests st) = 0
held (seats st) = 0
held (posts st) = 0
held unlocks = 0
held takes_first = 0
held takes_second = 1
held puts_first = 2
held puts_second = 1
held relocks = 0
held rethinks = 0
held reunlocks = 0

abbrev pub sum : List ℕ → ℕ
sum [] = 0
sum (n ∷ ns) = n + sum ns

-- The forks on the table and in hands.
abbrev pub fork_count : Dinner → ℕ
fork_count d = sum d.forks + weigh held d.points

-- 1 at the `sem_post` of `testPhilo`.
abbrev pub adds : Point → ℕ
adds (posts st) = 1
adds p = 0

sum-set : (l : List ℕ) (i n : ℕ) → i < length l → sum (set l i n) + get_or l i 0 ≡ sum l + n
sum-set [] i n h = absurd (omega arith)
sum-set (x ∷ l) zero n h = omega arith
sum-set (x ∷ l) (suc i) n h = omega (arith, sum-set l i n (omega arith))

module _ (d : Dinner) (v : InOrder d) (forks : length d.forks ≡ max_philos) (i : ℕ)
    (h : i < d.qty) where
  in_points : i < length d.points
  in_points = omega (arith, h, v.points)

  abbrev Adds : ℕ → Option Dinner → Type 0
  Adds n none = Unit
  Adds n (some e) = fork_count e ≡ fork_count d + n

  moves_on :
      (q : Point)
      → held q ≡ held (point_at d i)
      → weigh held (set d.points i q) ≡ weigh held d.points
  moves_on q e = omega (arith, e, weigh-set held d.points i q in_points)

  held-test : (st : Stage) (b : Bool) → held (if b then seats st else after_test st) ≡ 0
  held-test st true = refl
  held-test own false = refl
  held-test lefts false = refl
  held-test rights false = refl

  in_forks : (j : ℕ) → j < d.qty → j < length d.forks
  in_forks j lt = omega (arith, lt, v.high, forks)

  beside : right d.qty i < d.qty
  beside = (neighbours d.qty i v.low v.high h).right_in

  tested_in : (st : Stage) → tested d.qty st i < d.qty
  tested_in own = h
  tested_in lefts = (neighbours d.qty i v.low v.high h).left_in
  tested_in rights = beside

  wait_lock-Adds : (q : Point) → held q ≡ held (point_at d i) → Adds 0 (wait_lock d i q)
  unfolding wait_lock
  wait_lock-Adds q e = elim (Bool-cases (d.state_lock == 0)) [
    | inl z ↦ rw z tt
    | inr z ↦ rw z (omega (arith, moves_on q e))
  ]

  wait_fork-Adds :
      (j : ℕ) (q : Point)
      → j < d.qty
      → held q ≡ held (point_at d i) + 1
      → Adds 0 (wait_fork d i j q)
  unfolding wait_fork
  wait_fork-Adds j q lt e = elim (Bool-cases (fork_at d j == 0)) [
    | inl z ↦ rw z tt
    | inr z ↦
        let some_fork : 1 ≤ fork_at d j = ground (arith, z) in
        rw z (
          omega (
            arith,
            e,
            some_fork,
            weigh-set held d.points i q in_points,
            sum-set d.forks j (fork_at d j - 1) (in_forks j lt),
          ))
  ]

  -- A `sem_post` of fork `j` on the way to `q`.
  posted :
      (j n : ℕ) (q : Point)
      → j < d.qty
      → held q + 1 ≡ held (point_at d i) + n
      → sum (set d.forks j (fork_at d j + 1)) + weigh held (set d.points i q) ≡ fork_count d + n
  posted j n q lt e = omega (
    arith,
    e,
    weigh-set held d.points i q in_points,
    sum-set d.forks j (fork_at d j + 1) (in_forks j lt),
  )

  act_at-Adds : (p : Point) → point_at d i ≡ p → Adds (adds p) (act_at p d i)
  unfolding act_at
  act_at-Adds starts e = omega (arith, moves_on wants_lock (ap held (sym e)))
  act_at-Adds wants_lock e = wait_lock-Adds hungers (ap held (sym e))
  act_at-Adds hungers e = omega (arith, moves_on (tests own) (ap held (sym e)))
  act_at-Adds (tests st) e =
      let b = may_eat d (tested d.qty st i) in
      omega
        (arith, moves_on (if b then seats st else after_test st) (held-test st b ∙ ap held (sym e)))
  act_at-Adds (seats st) e = omega (arith, moves_on (posts st) (ap held (sym e)))
  act_at-Adds (posts st) e =
      posted (tested d.qty st i) 1 (after_test st) (tested_in st)
        (omega (arith, held-test st false, ap held e))
  act_at-Adds unlocks e = omega (arith, moves_on takes_first (ap held (sym e)))
  act_at-Adds takes_first e = wait_fork-Adds i takes_second h (omega (arith, ap held e))
  act_at-Adds takes_second e =
      wait_fork-Adds (right d.qty i) puts_first beside (omega (arith, ap held e))
  act_at-Adds puts_first e = posted i 0 puts_second h (omega (arith, ap held e))
  act_at-Adds puts_second e = posted (right d.qty i) 0 relocks beside (omega (arith, ap held e))
  act_at-Adds relocks e = wait_lock-Adds rethinks (ap held (sym e))
  act_at-Adds rethinks e = omega (arith, moves_on (tests lefts) (ap held (sym e)))
  act_at-Adds reunlocks e = omega (arith, moves_on wants_lock (ap held (sym e)))

-- Taking and putting back moves forks between table and hands, and each `sem_post` of `testPhilo`
-- adds one that was not there: at a dinner in order, with 8 forks, a step leaves the number of
-- forks as it is, but for that one, which raises it.
pub act-fork_count :
    (d e : Dinner) (i : ℕ)
    → InOrder d
    → length d.forks ≡ max_philos
    → i < d.qty
    → act d i ≡ some e
    → fork_count e ≡ fork_count d + adds (point_at d i)
unfolding act
act-fork_count d e i v forks h moves =
    subst (Adds d v forks i h (adds (point_at d i))) moves
      (act_at-Adds d v forks i h (point_at d i) refl)
