-- ===== src/Scheduler/Invariant/Queued.antt =====
-- `enqueue` and `requeue` on a sound table: the process comes last in its list.
use peps_os.Common.{
  ℕ, zero, suc, ◌+◌, ◌≤◌, ◌<◌, ◌≡◌, List, [], ◌∷◌, arith, length, get_or, set, length-set, All,
  All-append, All-set, All-get_or,
}
use peps_os.Common.Chain.{weigh, is_key, weigh-append, IsTail-append}
use peps_os.Scheduler.Table.{Process, ReadyList, ProcessTable, queue, empty_list}
use peps_os.Scheduler.Queues.{pid_of, enqueue}
use peps_os.Scheduler.Queues.Append.{extended, enqueue-extended}
use peps_os.Scheduler.Invariant.{weigh_queues, IsReady, IsQueue}

pub IsQueue-queue : (t : ProcessTable) (i : ℕ) → All IsQueue t.priority_queue → IsQueue (queue t i)
IsQueue-queue t i h = All-get_or IsQueue t.priority_queue i empty_list h (tt, tt)

pub extended-IsQueue :
    (q : ReadyList) (p : Process)
    → IsQueue q
    → IsReady p
    → weigh pid_of (is_key p.pid) q.ready ≡ 0
    → IsQueue (extended q p)
extended-IsQueue q p h r new =
    (IsTail-append pid_of p q.ready new, All-append IsReady q.ready (p ∷ []) h.1 (r, tt))

pub weigh-get_or-le :
    (w : ℕ → ℕ) (qs : List ReadyList) (i : ℕ)
    → weigh pid_of w (get_or qs i empty_list).ready ≤ weigh_queues w qs
weigh-get_or-le w [] i = omega arith
weigh-get_or-le w (q ∷ qs) zero = omega arith
weigh-get_or-le w (q ∷ qs) (suc i) = omega (arith, weigh-get_or-le w qs i)

pub weigh_queues-set :
    (w : ℕ → ℕ) (qs : List ReadyList) (i : ℕ) (q : ReadyList)
    → i < length qs
    → weigh_queues w (set qs i q) + weigh pid_of w (get_or qs i empty_list).ready
      ≡ weigh_queues w qs + weigh pid_of w q.ready
weigh_queues-set w [] i q h = absurd (omega arith)
weigh_queues-set w (x ∷ qs) zero q h = omega arith
weigh_queues-set w (x ∷ qs) (suc i) q h = omega (arith, weigh_queues-set w qs i q (omega arith))

-- The lists with `p` at the end of number `i`.
abbrev pub appended : ProcessTable → ℕ → Process → List ReadyList
appended t i p = set t.priority_queue i (extended (queue t i) p)

module _ (t : ProcessTable) (i : ℕ) (p : Process) (lt : i < length t.priority_queue) where
  pub appended-weigh :
      (w : ℕ → ℕ) → weigh_queues w (appended t i p) ≡ weigh_queues w t.priority_queue + w p.pid
  appended-weigh w = omega (
    arith,
    weigh_queues-set w t.priority_queue i (extended (queue t i) p) lt,
    weigh-append pid_of w (queue t i).ready (p ∷ []),
  )

  pub length-appended : length (appended t i p) ≡ length t.priority_queue
  length-appended = length-set t.priority_queue i (extended (queue t i) p)

  pub appended-IsQueue :
      All IsQueue t.priority_queue
      → IsReady p
      → weigh_queues (is_key p.pid) t.priority_queue ≡ 0
      → All IsQueue (appended t i p)
  appended-IsQueue h r new = All-set IsQueue t.priority_queue i (extended (queue t i) p) h (
      extended-IsQueue (queue t i) p (IsQueue-queue t i h) r
        (omega (arith, weigh-get_or-le (is_key p.pid) t.priority_queue i)))

  pub enqueue-appended :
      All IsQueue t.priority_queue → enqueue t i p ≡ record t { priority_queue = appended t i p }
  enqueue-appended h = enqueue-extended t i p lt (IsQueue-queue t i h).0
