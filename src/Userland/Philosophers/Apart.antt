-- ===== src/Userland/Philosophers/Apart.antt =====
-- No two philosophers who sit side by side are marked as eating (Userland/SampleCodeModule/philosophers.c).
use peps_os.Common.{
  ℕ, zero, suc, ◌+◌, ◌-◌, ◌≤◌, ◌<◌, ◌≡◌, ◌≢◌, refl, ap, ◌∙◌, subst, arith, Bool, true, false, inl,
  inr, Option, none, some, ◌==◌, if◌then◌else◌, get_or, set, Bool-cases, length-set, get_or-set_ne,
  replicate, length-replicate,
}
use peps_os.Userland.Philosophers.{
  Dinner, absent, eating, hungry, thinking, Stage, own, lefts, rights, Point, starts, wants_lock,
  hungers, tests, seats, posts, unlocks, takes_first, takes_second, puts_first, puts_second,
  relocks, rethinks, reunlocks, left, right, state_at, point_at, is_hungry, is_eating, tested,
  after_test, goes, set_state, may_eat, act_at, act, wait_fork, wait_lock, fork_at, max_philos,
  laid, Eats, seated, moved,
}
use peps_os.Common.Swaps.{same_or_not}
use peps_os.Userland.Philosophers.Ring.{inside, weigh, weigh-set, neighbours}
use peps_os.Userland.Philosophers.Order.{
  InOrder, IsReady, still, changed, calm_state, IsReady-after, calm-IsApart, eating-IsApart,
  in_points,
}

module _ (d : Dinner) (v : InOrder d) (i : ℕ) (h : i < d.qty) where
  tested_in : (st : Stage) → tested d.qty st i < d.qty
  tested_in own = h
  tested_in lefts = (neighbours d.qty i v.low v.high h).left_in
  tested_in rights = (neighbours d.qty i v.low v.high h).right_in

  -- After a test, whether it succeeded or not.
  tested-IsReady :
      (st : Stage) (b : Bool)
      → may_eat d (tested d.qty st i) ≡ b
      → IsReady d (if b then seats st else after_test st) i
  tested-IsReady st true e = e
  tested-IsReady own false e = tt
  tested-IsReady lefts false e = tt
  tested-IsReady rights false e = tt

  inside-tested : (st : Stage) (b : Bool) → inside (if b then seats st else after_test st) ≡ 1
  inside-tested st true = refl
  inside-tested own false = refl
  inside-tested lefts false = refl
  inside-tested rights false = refl

  i_small : i < max_philos
  i_small = omega (arith, h, v.high)

  -- One that sits down does not keep others from eating.
  may_eat-started :
      (j : ℕ)
      → state_at d i ≡ absent
      → may_eat d j ≡ true
      → may_eat (set_state d i thinking) j ≡ true
  may_eat-started j a may = elim (same_or_not i j) [
    | inl same ↦
        absurd (ground (arith, may, ap (λ n. is_hungry (state_at d n)) same, ap is_hungry a))
    | inr ne ↦
        let kept : state_at (set_state d i thinking) j ≡ state_at d j =
          get_or-set_ne d.philo_states i j thinking absent ne in
        ground (
          arith,
          may,
          ap is_hungry kept,
          calm_state d v i h i thinking (left d.qty j) refl i_small,
          calm_state d v i h i thinking (right d.qty j) refl i_small,
        )
  ]

  started-IsReady :
      (p : Point) (k : ℕ)
      → state_at d i ≡ absent
      → i ≢ k
      → IsReady d p k
      → IsReady (set_state d i thinking) p k
  started-IsReady (seats st) k a ne r = may_eat-started (tested d.qty st k) a r
  started-IsReady starts k a ne r = get_or-set_ne d.philo_states i k thinking absent ne ∙ r
  started-IsReady wants_lock k a ne r = tt
  started-IsReady hungers k a ne r = tt
  started-IsReady (tests st) k a ne r = tt
  started-IsReady (posts st) k a ne r = tt
  started-IsReady unlocks k a ne r = tt
  started-IsReady takes_first k a ne r = tt
  started-IsReady takes_second k a ne r = tt
  started-IsReady puts_first k a ne r = tt
  started-IsReady puts_second k a ne r = tt
  started-IsReady relocks k a ne r = tt
  started-IsReady rethinks k a ne r = tt
  started-IsReady reunlocks k a ne r = tt

  started : point_at d i ≡ starts → InOrder (goes (set_state d i thinking) i wants_lock)
  started e =
      let a : state_at d i ≡ absent = subst (λ p. IsReady d p i) e (v.ready i h) in
      record {
        low = v.low;
        high = v.high;
        states = length-set d.philo_states i thinking ∙ v.states;
        points = length-set d.points i wants_lock ∙ v.points;
        lock = omega (
          arith,
          ap inside e,
          v.lock,
          weigh-set inside d.points i wants_lock (in_points d v i h),
        );
        ready =
            IsReady-after d v i h (goes (set_state d i thinking) i wants_lock) wants_lock refl tt
              (λ k lt ne. started-IsReady (point_at d k) k a ne (v.ready k lt));
        apart = λ k lt. calm-IsApart d v i h i thinking k refl i_small lt;
      }

  abbrev IfMoved : Option Dinner → Type 0
  IfMoved none = Unit
  IfMoved (some e) = InOrder e

  wait_lock-IfMoved :
      (q : Point)
      → inside (point_at d i) ≡ 0
      → inside q ≡ 1
      → IsReady d q i
      → IfMoved (wait_lock d i q)
  unfolding wait_lock
  wait_lock-IfMoved q out in_ r = elim (Bool-cases (d.state_lock == 0)) [
    | inl z ↦ rw z tt
    | inr z ↦ rw z (still d v i h (d.state_lock - 1) d.forks q (ground (arith, z, out, in_)) r)
  ]

  wait_fork-IfMoved :
      (j : ℕ) (q : Point)
      → inside (point_at d i) ≡ 0
      → inside q ≡ 0
      → IsReady d q i
      → IfMoved (wait_fork d i j q)
  unfolding wait_fork
  wait_fork-IfMoved j q out in_ r = elim (Bool-cases (fork_at d j == 0)) [
    | inl z ↦ rw z tt
    | inr z ↦
        rw z (
          still d v i h d.state_lock (set d.forks j (fork_at d j - 1)) q (omega (arith, out, in_))
            r)
  ]

  absent-other : (j : ℕ) → may_eat d j ≡ true → (k : ℕ) → i ≢ k → state_at d k ≡ absent → j ≢ k
  absent-other j may k ne a e =
      absurd (ground (arith, may, ap (λ n. is_hungry (state_at d n)) e, ap is_hungry a))

  act_at-IfMoved : (p : Point) → point_at d i ≡ p → IfMoved (act_at p d i)
  unfolding act_at
  act_at-IfMoved starts e = started e
  act_at-IfMoved wants_lock e = wait_lock-IfMoved hungers (ap inside e) refl tt
  act_at-IfMoved hungers e =
      changed d v i h i hungry (tests own) (ap inside e) refl tt (λ k ne a. ne)
        (λ k lt. calm-IsApart d v i h i hungry k refl i_small lt)
  act_at-IfMoved (tests st) e =
      let b = may_eat d (tested d.qty st i) in
      still d v i h d.state_lock d.forks (if b then seats st else after_test st)
        (omega (arith, ap inside e, inside-tested st b)) (tested-IsReady st b refl)
  act_at-IfMoved (seats st) e =
      let may : may_eat d (tested d.qty st i) ≡ true = subst (λ p. IsReady d p i) e (v.ready i h) in
      changed d v i h (tested d.qty st i) eating (posts st) (ap inside e) refl tt
        (absent-other (tested d.qty st i) may)
        (λ k lt. eating-IsApart d v i h (tested d.qty st i) k (tested_in st) lt may)
  act_at-IfMoved (posts st) e =
      still d v i h d.state_lock _ (after_test st)
        (omega (arith, ap inside e, inside-tested st false)) (posted_ready st)
    where
      posted_ready : (st : Stage) → IsReady d (after_test st) i
      posted_ready own = tt
      posted_ready lefts = tt
      posted_ready rights = tt
  act_at-IfMoved unlocks e =
      still d v i h (d.state_lock + 1) d.forks takes_first (omega (arith, ap inside e)) tt
  act_at-IfMoved takes_first e = wait_fork-IfMoved i takes_second (ap inside e) refl tt
  act_at-IfMoved takes_second e = wait_fork-IfMoved (right d.qty i) puts_first (ap inside e) refl tt
  act_at-IfMoved puts_first e =
      still d v i h d.state_lock _ puts_second (omega (arith, ap inside e)) tt
  act_at-IfMoved puts_second e =
      still d v i h d.state_lock _ relocks (omega (arith, ap inside e)) tt
  act_at-IfMoved relocks e = wait_lock-IfMoved rethinks (ap inside e) refl tt
  act_at-IfMoved rethinks e =
      changed d v i h i thinking (tests lefts) (ap inside e) refl tt (λ k ne a. ne)
        (λ k lt. calm-IsApart d v i h i thinking k refl i_small lt)
  act_at-IfMoved reunlocks e =
      still d v i h (d.state_lock + 1) d.forks wants_lock (omega (arith, ap inside e)) tt

  act-InOrder : (e : Dinner) → act d i ≡ some e → InOrder e
  unfolding act
  act-InOrder e moves = subst IfMoved moves (act_at-IfMoved (point_at d i) refl)

get_or-replicate {ℓ} : {A : Type ℓ} (n i : ℕ) (a : A) → get_or (replicate n a) i a ≡ a
get_or-replicate zero i a = refl
get_or-replicate (suc n) zero a = refl
get_or-replicate (suc n) (suc i) a = get_or-replicate n i a

nobody_inside : (n : ℕ) → weigh inside (replicate n starts) ≡ 0
nobody_inside zero = refl
nobody_inside (suc n) = omega (arith, nobody_inside n)

pub laid-InOrder : (qty : ℕ) → 3 ≤ qty → qty ≤ max_philos → InOrder (laid qty)
unfolding laid
laid-InOrder qty low high = record {
  low = low;
  high = high;
  states = refl;
  points = length-replicate qty starts;
  lock = omega (arith, nobody_inside qty);
  ready = λ i lt. rw (get_or-replicate qty i starts) (get_or-replicate max_philos i absent);
  apart = λ i lt. rw (get_or-replicate max_philos i absent) refl;
}

-- Whoever moves and in whatever order, from the start on with 3 to 8 philosophers: no two
-- neighbours are marked as eating.
pub Eats-apart :
    (qty : ℕ) (d : Dinner) (i : ℕ)
    → 3 ≤ qty
    → qty ≤ max_philos
    → Eats (laid qty) d
    → i < d.qty
    → ¬ ((state_at d i ≡ eating) × (state_at d (right d.qty i) ≡ eating))
Eats-apart qty d i low high e h (one, two) =
    absurd (ground (arith, (reached e).apart i h, ap is_eating one, ap is_eating two))
  where
    reached : {d : Dinner} → Eats (laid qty) d → InOrder d
    reached seated = laid-InOrder qty low high
    reached (moved {e} {f} i r h m) = act-InOrder e (reached r) i h f m
