-- ===== src/Scheduler/Invariant/Switched.antt =====
-- `priorityScheduler` of Kernel/scheduler.c and the timer interrupt, on a sound table.
use peps_os.Common.{ℕ, ◌+◌, ◌<◌, ◌≡◌, refl, sym, subst, ◌∙◌, List, ◌∷◌, arith}
use peps_os.Memory.{Allocator}
use peps_os.Scheduler.Table.{
  Process, ProcessTable, Sched, Running, null, at_halt, at, current, current_of, queue,
  max_priority,
}
use peps_os.Scheduler.Switch.{
  depart, pick, priority_scheduler, fire_timer_int, mark_running, switch_to,
}
use peps_os.Scheduler.Invariant.{weigh_table, IsSound, IsValid, IsRunner, IsRunning}
use peps_os.Scheduler.Invariant.Timers.{timer_handler-keeps}
use peps_os.Scheduler.Invariant.Picked.{Picks, stays, switches, pick-Picks}
use peps_os.Scheduler.Invariant.Dispatched.{
  from_halt-eq, from_halt-IsValid, from_halt-weigh, from_halt-count, from_process-eq,
  from_process-IsValid, from_process-weigh, from_process-count,
}
use peps_os.Scheduler.Invariant.Departed.{gone_weight, counted_after, depart-Departs}

-- The priority of the process that runs is one of the lists'.
current_in : (t : ProcessTable) → IsSound t → (current t).priority < max_priority
current_in t h = by_runner t.running h.runner
  where
    by_runner : (r : Running) → IsRunner r → (current_of r t.halt t.at_null).priority < max_priority
    by_runner null c = absurd c
    by_runner at_halt c = omega (arith, h.idle.0)
    by_runner (at p) c = c

module _ (w : ℕ → ℕ) (t : ProcessTable) (s : IsSound t) (active : IsRunning t.running) where
  abbrev Result : ProcessTable → Type 0
  Result r = IsValid r × (weigh_table w r ≡ weigh_table w t) × (r.process_count ≡ t.process_count)

  switched :
      (i : ℕ) (x : Process) (xs : List Process)
      → i < max_priority
      → (queue t i).ready ≡ x ∷ xs
      → Result (mark_running (switch_to t.running t i))
  switched i x xs lt e = by_runner t.running refl s.runner
    where
      by_runner :
          (r : Running)
          → t.running ≡ r
          → IsRunner r
          → Result (mark_running (switch_to t.running t i))
      by_runner null f c = absurd c
      by_runner at_halt f c = rw (from_halt-eq t i x xs s lt e f) (
        from_halt-IsValid t i x xs s lt e f,
        from_halt-weigh t i x xs s lt e f w,
        from_halt-count t i x xs s lt e,
      )
      by_runner (at p) f c = rw (from_process-eq t i x xs s lt e p f) (
        from_process-IsValid t i x xs s lt e p f,
        from_process-weigh t i x xs s lt e p f w,
        from_process-count t i x xs s lt e p f,
      )

  pick-Result : Result (pick max_priority t)
  pick-Result = by_pick (pick max_priority t) (pick-Picks t max_priority (current_in t s))
    where
      by_pick : (r : ProcessTable) → Picks t max_priority r → Result r
      by_pick r (stays _ e) =
          subst Result (sym e) (record { sound = s; active = active }, refl, refl)
      by_pick r (switches i x xs _ lt f _ e) = subst Result (sym e) (switched i x xs lt f)

module _ {H : Type 0} ⦃m : Allocator H⦄ (rsp rbp : ℕ) (s : Sched H) (h : IsSound s.pcb) where
  -- On a sound table `priorityScheduler`, whatever registers it saves, leaves a valid table, in
  -- which a process runs that is neither blocked nor done, or the halt process.
  pub priority_scheduler-IsValid : IsValid (priority_scheduler rsp rbp s).0.pcb
  unfolding priority_scheduler
  priority_scheduler-IsValid =
      let d = depart-Departs (λ _. 0) rsp rbp s h in
      (pick-Result (λ _. 0) (depart rsp rbp s).pcb d.sound d.active).0

  -- On a sound table `priorityScheduler` loses and doubles no process: for every weight of pids,
  -- the sum over the table afterwards, and the weight of the process that ran if it had exited, is
  -- the sum before.
  pub priority_scheduler-weigh :
      (w : ℕ → ℕ)
      → weigh_table w (priority_scheduler rsp rbp s).0.pcb + gone_weight w s.running
        ≡ weigh_table w s.pcb
  unfolding priority_scheduler
  priority_scheduler-weigh w =
      let d = depart-Departs w rsp rbp s h in
      omega (arith, (pick-Result w (depart rsp rbp s).pcb d.sound d.active).1, d.weight)

  -- On a sound table `priorityScheduler` lowers `processCount` by one if the process that ran had
  -- exited, and else leaves it.
  pub priority_scheduler-count :
      (priority_scheduler rsp rbp s).0.pcb.process_count
      ≡ counted_after s.running s.pcb.process_count
  unfolding priority_scheduler
  priority_scheduler-count =
      let d = depart-Departs (λ _. 0) rsp rbp s h in
      (pick-Result (λ _. 0) (depart rsp rbp s).pcb d.sound d.active).2 ∙ d.count

  -- On a sound table `priorityScheduler` first leaves the running process and then chooses: if no
  -- list at the priority of what now runs or above has a process, the table stays as it was left;
  -- else the highest list with a process is not below that priority, all lists above it are empty,
  -- and the code's switch to the head of that list follows.
  pub priority_scheduler-Picks :
      Picks (depart rsp rbp s).pcb max_priority (priority_scheduler rsp rbp s).0.pcb
  unfolding priority_scheduler
  priority_scheduler-Picks =
      pick-Picks (depart rsp rbp s).pcb max_priority
        (current_in _ (depart-Departs (λ _. 0) rsp rbp s h).sound)

module _ {H : Type 0} ⦃m : Allocator H⦄ (s : Sched H) (h : IsSound s.pcb) where
  -- The timer interrupt on a sound table, with the sleeping processes that it wakes, leaves a valid
  -- table.
  pub fire_timer_int-IsValid : IsValid (fire_timer_int s).pcb
  unfolding fire_timer_int
  fire_timer_int-IsValid =
      let v = priority_scheduler-IsValid s.cpu_rsp s.cpu_rbp s h in
      let k = timer_handler-keeps _ (λ _. 0) v.sound in
      record { sound = k.0; active = subst IsRunning (sym k.2) v.active }

  -- The timer interrupt on a sound table loses and doubles no process, but for the one that ran if
  -- it had exited: every weight of pids has the same sum before, and afterwards with that process.
  pub fire_timer_int-weigh :
      (w : ℕ → ℕ)
      → weigh_table w (fire_timer_int s).pcb + gone_weight w s.running ≡ weigh_table w s.pcb
  unfolding fire_timer_int
  fire_timer_int-weigh w =
      let v = priority_scheduler-IsValid s.cpu_rsp s.cpu_rbp s h in
      omega (
        arith,
        (timer_handler-keeps _ w v.sound).1,
        priority_scheduler-weigh s.cpu_rsp s.cpu_rbp s h w,
      )

  -- A process that exited is no longer counted.
  pub fire_timer_int-count :
      (fire_timer_int s).pcb.process_count ≡ counted_after s.running s.pcb.process_count
  unfolding fire_timer_int
  fire_timer_int-count =
      let v = priority_scheduler-IsValid s.cpu_rsp s.cpu_rbp s h in
      (timer_handler-keeps _ (λ _. 0) v.sound).3 ∙ priority_scheduler-count s.cpu_rsp s.cpu_rbp s h
