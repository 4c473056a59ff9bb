-- ===== src/Userland/Philosophers/Tests.antt =====
-- Three philosophers, of whom the first starts.
use peps_os.Common.{◌+◌, ◌≡◌, refl, arith, some}
use peps_os.Userland.Philosophers.{
  Dinner, laid, seated, moved, act, act_at, goes, set_state, state_at, right, eating, starts,
  wants_lock, thinking,
}
use peps_os.Userland.Philosophers.Apart.{laid-InOrder, Eats-apart}
use peps_os.Userland.Philosophers.Forks.{fork_count, adds, act-fork_count}

abbrev first_moved : Dinner
first_moved = goes (set_state (laid 3) 0 thinking) 0 wants_lock

first_moves : act (laid 3) 0 ≡ some first_moved
unfolding act act_at laid
first_moves = refl

Eats-apart_example :
    ¬ ((state_at first_moved 1 ≡ eating) × (state_at first_moved (right 3 1) ≡ eating))
unfolding laid
Eats-apart_example =
    Eats-apart 3 first_moved 1 (omega arith) (omega arith)
      (moved 0 seated (omega arith) first_moves) (omega arith)

act-fork_count_example : fork_count first_moved ≡ fork_count (laid 3) + adds starts
unfolding laid
act-fork_count_example =
    act-fork_count (laid 3) first_moved 0 (laid-InOrder 3 (omega arith) (omega arith)) refl
      (omega arith) first_moves
