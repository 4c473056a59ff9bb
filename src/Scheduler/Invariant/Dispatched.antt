-- ===== src/Scheduler/Invariant/Dispatched.antt =====
-- The state in which `priorityScheduler` of Kernel/scheduler.c leaves the table when it switches.
use peps_os.Common.{
  ℕ, ◌+◌, ◌<◌, ◌≡◌, refl, sym, subst, ap, ◌∙◌, inl, inr, List, [], ◌∷◌, ◌++◌, arith, length, All,
  ◌==◌, Bool-cases, if◌then◌else◌, ==_iff, get_or-set_self, get_or-set_ne,
}
use peps_os.Common.Chain.{weigh, is_key, is_key_self}
use peps_os.Scheduler.Table.{
  Process, ProcessTable, ready, at_halt, at, current_of, queue, empty_list, max_priority,
}
use peps_os.Scheduler.Queues.{pid_of}
use peps_os.Scheduler.Queues.Append.{extended}
use peps_os.Scheduler.Switch.{switch_to, mark_running, take_head, requeue}
use peps_os.Scheduler.Invariant.{
  weigh_table, weigh_running, weigh_queues, IsSound, IsValid, IsQueue, IsRunner,
}
use peps_os.Scheduler.Invariant.Queued.{
  appended-weigh, appended-IsQueue, length-appended, IsQueue-queue,
}
use peps_os.Scheduler.Invariant.Requeued.{
  requeued, requeue-requeued, headed, take_head-headed, headed-weigh, headed-IsQueue, length-headed,
}
use peps_os.Scheduler.Invariant.Picked.{started, paused}

-- The process `x` from the head of list `i` runs instead of the halt process.
module _ (t : ProcessTable) (i : ℕ) (x : Process) (xs : List Process) (s : IsSound t)
    (lt : i < max_priority) (e : (queue t i).ready ≡ x ∷ xs) where
  in_range : i < length t.priority_queue
  in_range = omega (arith, s.lists)

  unfoldable pub from_halt : ProcessTable
  from_halt = record (headed t i x xs) { running = at (started x) }

  pub from_halt-eq : t.running ≡ at_halt → mark_running (switch_to t.running t i) ≡ from_halt
  unfolding from_halt switch_to
  from_halt-eq r =
      ap (λ q. mark_running (switch_to q t i)) r ∙ ap mark_running (take_head-headed t i x xs e)

  pub from_halt-weigh :
      t.running ≡ at_halt → (w : ℕ → ℕ) → weigh_table w from_halt ≡ weigh_table w t
  unfolding from_halt
  from_halt-weigh r w = omega (arith, headed-weigh t i x xs in_range e w, ap (weigh_running w) r)

  pub from_halt-count : from_halt.process_count ≡ t.process_count
  unfolding from_halt
  from_halt-count = refl

  pub from_halt-IsValid : t.running ≡ at_halt → IsValid from_halt
  unfolding from_halt
  from_halt-IsValid r = record {
    sound = record {
      lists = length-headed t i x xs in_range e ∙ s.lists;
      queues = (headed-IsQueue t i x xs in_range e s.queues).1;
      waiting = s.waiting;
      distinct = λ k. omega (arith, from_halt-weigh r (is_key k), s.distinct k);
      runner = (headed-IsQueue t i x xs in_range e s.queues).0.1;
      idle = s.idle;
    };
    active = (λ e. cc, λ e. cc);
  }

-- What stands behind `x` in list `i` once `p` was put back into the list of its priority.
abbrev pub behind : Process → ℕ → List Process → List Process
behind p i xs = if p.priority == i then xs ++ paused p ∷ [] else xs

module _ (t : ProcessTable) (i : ℕ) (x : Process) (xs : List Process) (s : IsSound t)
    (lt : i < max_priority) (e : (queue t i).ready ≡ x ∷ xs) (p : Process)
    (runs : t.running ≡ at p) where
  unfoldable pub back : ProcessTable
  back = requeued t (paused p)

  unfoldable pub from_process : ProcessTable
  unfolding back
  from_process = record (headed back i x (behind p i xs)) { running = at (started x) }

  own_list : p.priority < length t.priority_queue
  own_list = omega (arith, s.lists, subst IsRunner runs s.runner)

  still_first : (queue back i).ready ≡ x ∷ behind p i xs
  unfolding back
  still_first = elim (Bool-cases (p.priority == i)) [
    | inl same ↦
        let k : p.priority ≡ i = (==_iff p.priority i).0 same in
        let there : (queue back i).ready ≡ (queue t p.priority).ready ++ paused p ∷ [] =
          ap (λ q. q.ready)
            (subst (λ j. queue back j ≡ extended (queue t p.priority) (paused p)) k
              (get_or-set_self t.priority_queue p.priority
                (extended (queue t p.priority) (paused p)) empty_list own_list)) in
        rw same
          (there ∙ ap (λ l. l ++ paused p ∷ []) (subst (λ j. (queue t j).ready ≡ x ∷ xs) (sym k) e))
    | inr other ↦ rw other (
        ap (λ q. q.ready)
          (get_or-set_ne t.priority_queue p.priority i (extended (queue t p.priority) (paused p))
            empty_list (ground arith))
        ∙ e)
  ]

  pub from_process-eq : mark_running (switch_to t.running t i) ≡ from_process
  unfolding from_process switch_to back
  from_process-eq =
      ap (λ q. mark_running (switch_to q t i)) runs
      ∙ ap mark_running (
          ap (λ c. take_head (requeue t (record c { state = ready })) i)
            (ap (λ q. current_of q t.halt t.at_null) runs)
          ∙ ap (λ t'. take_head t' i)
              (requeue-requeued t (paused p) own_list (IsQueue-queue t p.priority s.queues))
          ∙ take_head-headed back i x (behind p i xs) still_first)

  back-weigh :
      (w : ℕ → ℕ) → weigh_queues w back.priority_queue ≡ weigh_queues w t.priority_queue + w p.pid
  unfolding back
  back-weigh w = appended-weigh t p.priority (paused p) own_list w

  back_lists : i < length back.priority_queue
  unfolding back
  back_lists = omega (arith, s.lists, length-appended t p.priority (paused p) own_list)

  pub from_process-weigh : (w : ℕ → ℕ) → weigh_table w from_process ≡ weigh_table w t
  unfolding from_process
  from_process-weigh w = omega (
    arith,
    headed-weigh back i x (behind p i xs) back_lists still_first w,
    back-weigh w,
    ap (weigh_running w) runs,
    same_blocked,
  )
    where
      same_blocked : weigh pid_of w back.blocked ≡ weigh pid_of w t.blocked
      same_blocked = unfold back in refl

  pub from_process-count : from_process.process_count ≡ t.process_count
  unfolding from_process back
  from_process-count = refl

  back-IsQueue : All IsQueue back.priority_queue
  unfolding back
  back-IsQueue =
      appended-IsQueue t p.priority (paused p) own_list s.queues
        (refl, subst IsRunner runs s.runner) new
    where
      new : weigh_queues (is_key p.pid) t.priority_queue ≡ 0
      new =
          omega (arith, s.distinct p.pid, ap (weigh_running (is_key p.pid)) runs, is_key_self p.pid)

  pub from_process-IsValid : IsValid from_process
  unfolding from_process back
  from_process-IsValid = record {
    sound = record {
      lists =
          length-headed back i x (behind p i xs) back_lists still_first
          ∙ length-appended t p.priority (paused p) own_list
          ∙ s.lists;
      queues = (headed-IsQueue back i x (behind p i xs) back_lists still_first back-IsQueue).1;
      waiting = s.waiting;
      distinct = λ k. omega (arith, from_process-weigh (is_key k), s.distinct k);
      runner = (headed-IsQueue back i x (behind p i xs) back_lists still_first back-IsQueue).0.1;
      idle = s.idle;
    };
    active = (λ e. cc, λ e. cc);
  }
