-- ===== src/Scheduler/Invariant/Pids.antt =====
-- Only `createProcess` of Kernel/scheduler.c gives out a pid: the other operations leave `nextPid`.
use peps_os.Common.{
  ℕ, ◌≡◌, refl, ◌∙◌, Option, none, some, List, [], ◌∷◌, ◌==◌, inl, inr, Bool-cases, arith,
}
use peps_os.Memory.{Allocator}
use peps_os.Scheduler.Table.{
  Process, ProcSleep, Sched, State, blocked, ready, running, exited, current,
}
use peps_os.Scheduler.Unlink.{Unlinked, UnlinkedQueues, unlink_queues, unlink_blocked}
use peps_os.Scheduler.Timer.{check_timers, timer_handler, add_proc_sleep}
use peps_os.Scheduler.Switch.{
  leave, depart, priority_scheduler, fire_timer_int, block, move_to_blocked,
}
use peps_os.Scheduler.Kill.{
  after, after_kill, kill_or_ready, kill_ready, kill_ready_on, kill_blocked, kill_blocked_on,
  kill_other, kill, exit,
}
use peps_os.Scheduler.Table.{console_pid}

module _ {H : Type 0} ⦃m : Allocator H⦄ where
  leave-next_pid : (st : State) (p : Process) (s : Sched H) → (leave st p s).next_pid ≡ s.next_pid
  unfolding leave
  leave-next_pid exited p s = refl
  leave-next_pid blocked p s = refl
  leave-next_pid ready p s = refl
  leave-next_pid running p s = refl

  check_timers-next_pid :
      (l : List ProcSleep) (s : Sched H) → (check_timers l s).1.next_pid ≡ s.next_pid
  unfolding check_timers
  check_timers-next_pid [] s = refl
  check_timers-next_pid (p ∷ ps) s = ground (arith, check_timers-next_pid ps s)

  pub fire_timer_int-next_pid : (s : Sched H) → (fire_timer_int s).next_pid ≡ s.next_pid
  unfolding fire_timer_int timer_handler priority_scheduler depart
  fire_timer_int-next_pid s = check_timers-next_pid _ _ ∙ leave-next_pid _ _ _

  pub block-next_pid : (s : Sched H) (pid : ℕ) → (block s pid).0.next_pid ≡ s.next_pid
  unfolding block
  block-next_pid s pid = elim (Bool-cases ((current s.pcb).pid == pid)) [
    | inl e ↦ rw e (fire_timer_int-next_pid _)
    | inr e ↦ rw e (moves (unlink_queues pid s.priority_queue))
  ]
    where
      moves : (r : Option UnlinkedQueues) → (move_to_blocked s r).0.next_pid ≡ s.next_pid
      moves none = refl
      moves (some u) = refl

  pub add_proc_sleep-next_pid :
      (s : Sched H) (pid n : ℕ) → (add_proc_sleep s pid n).next_pid ≡ s.next_pid
  unfolding add_proc_sleep
  add_proc_sleep-next_pid s pid n = ground arith

  on_blocked-next_pid :
      (s : Sched H) (r : Option Unlinked) → (kill_blocked_on s r).0.next_pid ≡ s.next_pid
  unfolding kill_blocked_on
  on_blocked-next_pid s none = refl
  on_blocked-next_pid s (some u) = refl

  on_ready-next_pid :
      (s : Sched H) (r : Option UnlinkedQueues) → (kill_ready_on s r).0.next_pid ≡ s.next_pid
  unfolding kill_ready_on
  on_ready-next_pid s none = refl
  on_ready-next_pid s (some u) = refl

  after_kill-next_pid : (r : Sched H × Option ℕ) → (after_kill r).0.next_pid ≡ r.0.next_pid
  unfolding after_kill
  after_kill-next_pid (s, none) = refl
  after_kill-next_pid (s, some parent) = refl

  or_ready-next_pid :
      (pid : ℕ) (r : Sched H × Option ℕ) → (kill_or_ready pid r).0.next_pid ≡ r.0.next_pid
  unfolding kill_or_ready kill_ready
  or_ready-next_pid pid (s, none) = on_ready-next_pid s (unlink_queues pid s.priority_queue)
  or_ready-next_pid pid (s, some parent) = refl

  kill_other-next_pid : (s : Sched H) (pid : ℕ) → (kill_other s pid).0.next_pid ≡ s.next_pid
  unfolding kill_other kill_blocked
  kill_other-next_pid s pid =
      after_kill-next_pid _
      ∙ or_ready-next_pid pid _
      ∙ on_blocked-next_pid s (unlink_blocked pid s.pcb.blocked)

  pub exit-next_pid : (s : Sched H) → (after (exit s)).next_pid ≡ s.next_pid
  unfolding exit
  exit-next_pid s = fire_timer_int-next_pid _

  pub kill-next_pid : (s : Sched H) (pid : ℕ) → (after (kill s pid)).next_pid ≡ s.next_pid
  unfolding kill
  kill-next_pid s pid = elim (Bool-cases (pid == console_pid)) [
    | inl e ↦ rw e refl
    | inr e ↦ elim (Bool-cases ((current s.pcb).pid == pid)) [
      | inl self ↦ rw (e, self) (fire_timer_int-next_pid _)
      | inr other ↦ rw (e, other) (kill_other-next_pid s pid)
    ]
  ]
