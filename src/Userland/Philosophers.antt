-- ===== src/Userland/Philosophers.antt =====
-- The dining philosophers, Userland/SampleCodeModule/philosophers.c, as a step relation: each philosopher is at a point
-- of its program, and any of them may take the next step. A semaphore is its counter: a wait goes on when
-- it is positive. Sleeping, drawing, and the adding and removing of philosophers are left out, so the
-- number at the table stays.
pub mod Ring
pub mod Order
pub mod Apart
pub mod Forks
mod Tests
use peps_os.Common.{
  ℕ, ◌+◌, ◌-◌, ◌%◌, ◌<◌, ◌≡◌, Bool, true, false, ◌&&◌, not, Option, none, some, List, [], ◌∷◌, ◌==◌,
  if◌then◌else◌, get_or, set, replicate,
}

-- `PHILOSOPHER_STATE`.
pub data PhilosopherState : Type 0 where
  absent eating hungry thinking : PhilosopherState

-- Whom a philosopher tests: itself, or a neighbour when it has eaten.
pub data Stage : Type 0 where
  own lefts rights : Stage

-- The points of `philosopher`, `takeForks` and `putForks`. At `tests` stands the condition of `testPhilo`, at
-- `seats` and `posts` its two statements.
pub data Point : Type 0 where
  starts wants_lock hungers : Point
  tests seats posts : Stage → Point
  unlocks takes_first takes_second puts_first puts_second relocks rethinks reunlocks : Point

-- The shared variables, and the point of each philosopher.
pub record Dinner : Type 0 where
  pub qty : ℕ
  pub philo_states : List PhilosopherState
  pub forks : List ℕ
  pub state_lock : ℕ
  pub points : List Point

abbrev pub max_philos : ℕ
max_philos = 8

-- `left(i)` and `right(i)`.
abbrev pub left : ℕ → ℕ → ℕ
left qty i = (i + qty - 1) % qty

abbrev pub right : ℕ → ℕ → ℕ
right qty i = (i + 1) % qty

abbrev pub state_at : Dinner → ℕ → PhilosopherState
state_at d i = get_or d.philo_states i absent

abbrev pub fork_at : Dinner → ℕ → ℕ
fork_at d i = get_or d.forks i 0

abbrev pub point_at : Dinner → ℕ → Point
point_at d i = get_or d.points i starts

abbrev pub is_hungry : PhilosopherState → Bool
is_hungry hungry = true
is_hungry s = false

abbrev pub is_eating : PhilosopherState → Bool
is_eating eating = true
is_eating s = false

-- The philosopher that a stage is about.
abbrev pub tested : ℕ → Stage → ℕ → ℕ
tested qty own i = i
tested qty lefts i = left qty i
tested qty rights i = right qty i

-- What follows a test.
abbrev pub after_test : Stage → Point
after_test own = unlocks
after_test lefts = tests rights
after_test rights = reunlocks

abbrev pub goes : Dinner → ℕ → Point → Dinner
goes d i q = record d { points = set d.points i q }

-- `philoStates[j] = s`.
abbrev pub set_state : Dinner → ℕ → PhilosopherState → Dinner
set_state d j s = record d { philo_states = set d.philo_states j s }

-- `call_sem_post(forks[j])`.
abbrev pub post_fork : Dinner → ℕ → Dinner
post_fork d j = record d { forks = set d.forks j (fork_at d j + 1) }

-- The condition of `testPhilo`.
abbrev pub may_eat : Dinner → ℕ → Bool
may_eat d j =
    is_hungry (state_at d j)
    && (not (is_eating (state_at d (left d.qty j))) && not (is_eating (state_at d (right d.qty j))))

-- `call_sem_wait(forks[j])`, for philosopher `i`, who goes on at `q`.
unfoldable pub wait_fork : Dinner → ℕ → ℕ → Point → Option Dinner
wait_fork d i j q =
    if fork_at d j == 0
    then none
    else some (goes (record d { forks = set d.forks j (fork_at d j - 1) }) i q)

-- `call_sem_wait(stateLock)`.
unfoldable pub wait_lock : Dinner → ℕ → Point → Option Dinner
wait_lock d i q =
    if d.state_lock == 0 then none else some (goes (record d { state_lock = d.state_lock - 1 }) i q)

abbrev pub post_lock : Dinner → Dinner
post_lock d = record d { state_lock = d.state_lock + 1 }

-- The step of philosopher `i` at a point; `none` where it has to wait.
unfoldable pub act_at : Point → Dinner → ℕ → Option Dinner
unfolding wait_fork wait_lock
act_at starts d i = some (goes (set_state d i thinking) i wants_lock)
act_at wants_lock d i = wait_lock d i hungers
act_at hungers d i = some (goes (set_state d i hungry) i (tests own))
act_at (tests st) d i =
    some (goes d i (if may_eat d (tested d.qty st i) then seats st else after_test st))
act_at (seats st) d i = some (goes (set_state d (tested d.qty st i) eating) i (posts st))
act_at (posts st) d i = some (goes (post_fork d (tested d.qty st i)) i (after_test st))
act_at unlocks d i = some (goes (post_lock d) i takes_first)
act_at takes_first d i = wait_fork d i i takes_second
act_at takes_second d i = wait_fork d i (right d.qty i) puts_first
act_at puts_first d i = some (goes (post_fork d i) i puts_second)
act_at puts_second d i = some (goes (post_fork d (right d.qty i)) i relocks)
act_at relocks d i = wait_lock d i rethinks
act_at rethinks d i = some (goes (set_state d i thinking) i (tests lefts))
act_at reunlocks d i = some (goes (post_lock d) i wants_lock)

-- The next step of philosopher `i`.
unfoldable pub act : Dinner → ℕ → Option Dinner
unfolding act_at
act d i = act_at (point_at d i) d i

-- `initializePhilosophers`, with `qty` philosophers that are about to start.
unfoldable pub laid : ℕ → Dinner
laid qty = record {
  qty = qty;
  philo_states = replicate max_philos absent;
  forks = replicate max_philos 1;
  state_lock = 1;
  points = replicate qty starts;
}

-- The steps from a dinner on.
pub data Eats (d : Dinner) : Dinner → Type 0 where
  seated : Eats d d
  moved : {e f : Dinner} (i : ℕ) → Eats d e → i < e.qty → act e i ≡ some f → Eats d f
