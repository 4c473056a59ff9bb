-- ===== src/Scheduler/Invariant/Requeued.antt =====
-- How `priorityScheduler` of Kernel/scheduler.c puts the running process back into a ready list, and
-- takes the next one out.
use peps_os.Common.{
  ℕ, ◌+◌, ◌<◌, ◌≡◌, refl, sym, subst, ap, Option, none, some, List, [], ◌∷◌, arith, length,
  length-set, set, set-set, get_or-set_self, All, All-set,
}
use peps_os.Common.Chain.{weigh, IsTail}
use peps_os.Scheduler.Table.{Process, ReadyList, ProcessTable, at, queue, empty_list}
use peps_os.Scheduler.Queues.{pid_of, store_next, link_last, pop_to}
use peps_os.Scheduler.Queues.Append.{link_last-extended, queue-set_queue}
use peps_os.Scheduler.Unlink.Tail.{pop-IsTail}
use peps_os.Scheduler.Switch.{requeue, start_list, take_head, take_head_on}
use peps_os.Scheduler.Invariant.{weigh_queues, IsQueue, IsReady}
use peps_os.Scheduler.Invariant.Queued.{appended, IsQueue-queue, weigh_queues-set}

-- The pointer at address 0 afterwards: it is overwritten exactly if the list was empty.
abbrev pub null_store : List Process → Process → Option ℕ → Option ℕ
null_store [] p o = some p.pid
null_store (_ ∷ _) p o = o

abbrev pub requeued : ProcessTable → Process → ProcessTable
requeued t p = record t {
  priority_queue = appended t p.priority p;
  null_next = null_store (queue t p.priority).ready p t.null_next;
}

module _ (t : ProcessTable) (p : Process) (lt : p.priority < length t.priority_queue) where
  -- For a priority that has a list, with a proper tail pointer and ready processes, the process
  -- that `priorityScheduler` preempts comes last in that list and the tail pointer leads to it; the
  -- only other change is a store through a null pointer on the way, exactly if the list was empty.
  pub requeue-requeued : IsQueue (queue t p.priority) → requeue t p ≡ requeued t p
  unfolding requeue start_list link_last store_next
  requeue-requeued q =
      by_head (queue t p.priority).ready (queue t p.priority).last_ready refl refl q.0
    where
      by_head :
          (l : List Process) (last : Option ℕ)
          → (queue t p.priority).ready ≡ l
          → (queue t p.priority).last_ready ≡ last
          → IsTail pid_of last l
          → link_last (start_list l t p.priority p) p.priority p ≡ record t {
            priority_queue = appended t p.priority p;
            null_next = null_store l p t.null_next;
          }
      by_head [] none e f tail =
          let alone : ReadyList = record { ready = p ∷ []; last_ready = none } in
          rw (
            queue-set_queue t p.priority p (record (queue t p.priority) { ready = p ∷ [] }) lt,
            f,
            store_next,
            get_or-set_self t.priority_queue p.priority alone empty_list lt,
            set-set,
            e,
          )
      by_head [] (some k) e f tail = absurd tail
      by_head (x ∷ xs) none e f tail = absurd tail
      by_head (x ∷ xs) (some k) e f tail =
          link_last-extended t p.priority p k lt f (subst (IsTail pid_of (some k)) (sym e) tail)

-- List `i` without its head.
abbrev pub headed : ProcessTable → ℕ → Process → List Process → ProcessTable
headed t i x xs = record t {
  running = at x;
  priority_queue = set t.priority_queue i (pop_to xs (queue t i));
}

pub take_head-headed :
    (t : ProcessTable) (i : ℕ) (x : Process) (xs : List Process)
    → (queue t i).ready ≡ x ∷ xs
    → take_head t i ≡ headed t i x xs
unfolding take_head
take_head-headed t i x xs e = rw (e, take_head_on)

pop_to-ready : (xs : List Process) (q : ReadyList) → (pop_to xs q).ready ≡ xs
unfolding pop_to
pop_to-ready [] q = refl
pop_to-ready (x ∷ xs) q = refl

module _ (t : ProcessTable) (i : ℕ) (x : Process) (xs : List Process)
    (lt : i < length t.priority_queue) (e : (queue t i).ready ≡ x ∷ xs) where
  pub headed-weigh :
      (w : ℕ → ℕ)
      → w x.pid + weigh_queues w (headed t i x xs).priority_queue ≡ weigh_queues w t.priority_queue
  headed-weigh w = omega (
    arith,
    weigh_queues-set w t.priority_queue i (pop_to xs (queue t i)) lt,
    ap (weigh pid_of w) (pop_to-ready xs (queue t i)),
    ap (weigh pid_of w) e,
  )

  pub headed-IsQueue :
      All IsQueue t.priority_queue → IsReady x × All IsQueue (headed t i x xs).priority_queue
  headed-IsQueue h =
      let q = IsQueue-queue t i h in
      let tail = subst (IsTail pid_of (queue t i).last_ready) e q.0 in
      let waiting = subst (All IsReady) e q.1 in
      (
        waiting.0,
        All-set IsQueue t.priority_queue i (pop_to xs (queue t i)) h (
          subst (IsTail pid_of (pop_to xs (queue t i)).last_ready)
              (sym (pop_to-ready xs (queue t i))) (pop-IsTail x xs (queue t i) tail),
          subst (All IsReady) (sym (pop_to-ready xs (queue t i))) waiting.1,
        ),
      )

  pub length-headed : length (headed t i x xs).priority_queue ≡ length t.priority_queue
  length-headed = length-set t.priority_queue i (pop_to xs (queue t i))
