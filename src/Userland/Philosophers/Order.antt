-- ===== src/Userland/Philosophers/Order.antt =====
-- The order that a dinner of Userland/SampleCodeModule/philosophers.c keeps, and the two kinds of step
-- that keep it: one that sets no state, and one that sets one inside the critical region.
use peps_os.Common.{
  ℕ, ◌+◌, ◌≤◌, ◌<◌, ◌≡◌, ◌≢◌, refl, sym, ap, ◌∙◌, subst, arith, true, false, ◌&&◌, inl, inr, List,
  get_or, set, length, length-set, get_or-set_self, get_or-set_ne,
}
use peps_os.Userland.Philosophers.{
  Dinner, PhilosopherState, absent, eating, Point, starts, wants_lock, hungers, tests, seats, posts,
  unlocks, takes_first, takes_second, puts_first, puts_second, relocks, rethinks, reunlocks, left,
  right, state_at, point_at, is_eating, tested, goes, set_state, may_eat, max_philos,
}
use peps_os.Common.Swaps.{same_or_not}
use peps_os.Userland.Philosophers.Ring.{inside, weigh, weigh-set, weigh-two, neighbours}

-- What holds of a philosopher at a point: about to be seated, it may eat; about to start, it is absent.
abbrev pub IsReady : Dinner → Point → ℕ → Type 0
IsReady d (seats st) i = may_eat d (tested d.qty st i) ≡ true
IsReady d starts i = state_at d i ≡ absent
IsReady d q i = Unit

abbrev pub IsApart : Dinner → ℕ → Type 0
IsApart d i = (is_eating (state_at d i) && is_eating (state_at d (right d.qty i))) ≡ false

pub record InOrder (d : Dinner) : Type 0 where
  pub low : 3 ≤ d.qty
  pub high : d.qty ≤ max_philos
  pub states : length d.philo_states ≡ max_philos
  pub points : length d.points ≡ d.qty
  pub lock : d.state_lock + weigh inside d.points ≡ 1
  pub ready : (i : ℕ) → i < d.qty → IsReady d (point_at d i) i
  pub apart : (i : ℕ) → i < d.qty → IsApart d i

-- A point inside is not the start, and one outside is neither a seat nor a test.
outside-IsReady :
    (d d' : Dinner) (p : Point) (k : ℕ)
    → inside p ≡ 0
    → IsReady d p k
    → (state_at d k ≡ absent → state_at d' k ≡ absent)
    → IsReady d' p k
outside-IsReady d d' starts k z r f = f r
outside-IsReady d d' wants_lock k z r f = tt
outside-IsReady d d' hungers k z r f = tt
outside-IsReady d d' (tests st) k z r f = tt
outside-IsReady d d' (seats st) k z r f = absurd (omega (arith, z))
outside-IsReady d d' (posts st) k z r f = tt
outside-IsReady d d' unlocks k z r f = tt
outside-IsReady d d' takes_first k z r f = tt
outside-IsReady d d' takes_second k z r f = tt
outside-IsReady d d' puts_first k z r f = tt
outside-IsReady d d' puts_second k z r f = tt
outside-IsReady d d' relocks k z r f = tt
outside-IsReady d d' rethinks k z r f = tt
outside-IsReady d d' reunlocks k z r f = tt

module _ (d : Dinner) (v : InOrder d) (i : ℕ) (h : i < d.qty) where
  pub in_points : i < length d.points
  in_points = omega (arith, h, v.points)

  -- Readiness after philosopher `i` has moved to `q`.
  pub IsReady-after :
      (d' : Dinner) (q : Point)
      → d'.points ≡ set d.points i q
      → IsReady d' q i
      → ((k : ℕ) → k < d.qty → i ≢ k → IsReady d' (point_at d k) k)
      → (k : ℕ) → k < d.qty
      → IsReady d' (point_at d' k) k
  IsReady-after d' q e here others k lt = elim (same_or_not i k) [
    | inl same ↦
        let at_new : point_at d' i ≡ q =
          ap (λ l. get_or l i starts) e ∙ get_or-set_self d.points i q starts in_points in
        subst (λ n. IsReady d' (point_at d' n) n) same (rw at_new here)
    | inr ne ↦
        let at_old : point_at d' k ≡ point_at d k =
          ap (λ l. get_or l k starts) e ∙ get_or-set_ne d.points i k q starts ne in
        rw at_old (others k lt ne)
  ]

  -- A step that changes no state.
  pub still :
      (lock : ℕ) (forks : List ℕ) (q : Point)
      → lock + inside q ≡ d.state_lock + inside (point_at d i)
      → IsReady d q i
      → InOrder (record d { forks = forks; state_lock = lock; points = set d.points i q })
  still lock forks q e here = record {
    low = v.low;
    high = v.high;
    states = v.states;
    points = length-set d.points i q ∙ v.points;
    lock = omega (arith, e, v.lock, weigh-set inside d.points i q in_points);
    ready =
        IsReady-after (record d { forks = forks; state_lock = lock; points = set d.points i q }) q
          refl here (λ k lt ne. v.ready k lt);
    apart = v.apart;
  }

  -- Nobody else is inside.
  pub alone : (k : ℕ) → k < d.qty → i ≢ k → inside (point_at d i) ≡ 1 → inside (point_at d k) ≡ 0
  alone k lt ne e =
      omega (arith, e, v.lock, weigh-two d.points i k in_points (omega (arith, lt, v.points)) ne)

  -- A step that sets the state of `j`, inside.
  pub changed :
      (j : ℕ) (s : PhilosopherState) (q : Point)
      → inside (point_at d i) ≡ 1
      → inside q ≡ 1
      → IsReady (set_state d j s) q i
      → ((k : ℕ) → i ≢ k → state_at d k ≡ absent → j ≢ k)
      → ((k : ℕ) → k < d.qty → IsApart (set_state d j s) k)
      → InOrder (goes (set_state d j s) i q)
  changed j s q was is here others apart = record {
    low = v.low;
    high = v.high;
    states = length-set d.philo_states j s ∙ v.states;
    points = length-set d.points i q ∙ v.points;
    lock = omega (arith, was, is, v.lock, weigh-set inside d.points i q in_points);
    ready = IsReady-after (goes (set_state d j s) i q) q refl here (λ k lt ne.
        outside-IsReady d (set_state d j s) (point_at d k) k (alone k lt ne was) (v.ready k lt)
          (λ a. get_or-set_ne d.philo_states j k s absent (others k ne a) ∙ a));
    apart = apart;
  }

  -- A state that is not eating keeps neighbours apart.
  pub calm_state :
      (j : ℕ) (s : PhilosopherState) (k : ℕ)
      → is_eating s ≡ false
      → j < max_philos
      → is_eating (state_at (set_state d j s) k) ≡ true
      → is_eating (state_at d k) ≡ true
  calm_state j s k calm lt e = elim (same_or_not j k) [
    | inl same ↦
        let at_new : state_at (set_state d j s) j ≡ s =
          get_or-set_self d.philo_states j s absent (omega (arith, lt, v.states)) in
        absurd (
          ground (
            arith,
            calm,
            e,
            ap (λ n. is_eating (state_at (set_state d j s) n)) same,
            ap is_eating at_new,
          ))
    | inr ne ↦ ap is_eating (sym (get_or-set_ne d.philo_states j k s absent ne)) ∙ e
  ]

  pub calm-IsApart :
      (j : ℕ) (s : PhilosopherState) (k : ℕ)
      → is_eating s ≡ false
      → j < max_philos
      → k < d.qty
      → IsApart (set_state d j s) k
  calm-IsApart j s k calm lt hk =
      ground (arith, calm_state j s k calm lt, calm_state j s (right d.qty k) calm lt, v.apart k hk)

  -- Marking one that may eat keeps neighbours apart.
  pub eating-IsApart :
      (j k : ℕ) → j < d.qty → k < d.qty → may_eat d j ≡ true → IsApart (set_state d j eating) k
  eating-IsApart j k hj hk may =
      let n = neighbours d.qty k v.low v.high hk in
      let m = neighbours d.qty j v.low v.high hj in
      elim (same_or_not j k) [
        | inl same ↦
            let beside : state_at (set_state d j eating) (right d.qty j)
                ≡ state_at d (right d.qty j) =
              get_or-set_ne d.philo_states j (right d.qty j) eating absent (λ e. m.other (sym e)) in
            subst (IsApart (set_state d j eating)) same (rw beside (ground (arith, may)))
        | inr ne ↦ elim (same_or_not j (right d.qty k)) [
          | inl beside ↦
              let at_left : left d.qty j ≡ k = ap (left d.qty) beside ∙ n.back in
              let old : state_at (set_state d j eating) k ≡ state_at d k =
                get_or-set_ne d.philo_states j k eating absent ne in
              rw old (ground (arith, may, ap (λ x. is_eating (state_at d x)) at_left))
          | inr away ↦
              rw
                (
                  get_or-set_ne d.philo_states j k eating absent ne,
                  get_or-set_ne d.philo_states j (right d.qty k) eating absent away,
                )
                (v.apart k hk)
        ]
      ]
