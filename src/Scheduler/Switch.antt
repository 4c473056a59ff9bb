-- ===== src/Scheduler/Switch.antt =====
-- `priorityScheduler`, `block`, `yield`, `wait` and `sleep` of Kernel/scheduler.c, and the timer
-- interrupt `_irq00Handler` of Kernel/asm/interrupts.asm, which `fireTimerInt` raises.
--
-- The scheduler returns when another process runs. A function that blocks its caller gives the
-- state in which that other process runs, with the value that the caller gets once it runs again.
use peps_os.Common.{
  ℕ, zero, suc, ◌-◌, Bool, ◌&&◌, Option, none, some, List, [], ◌∷◌, ◌==◌, ltb, if◌then◌else◌, dec32,
  ◌^◌,
}
use peps_os.Memory.{Allocator}
use peps_os.Scheduler.Table.{
  Process, ProcessTable, Sched, State, blocked, ready, running, exited, Running, null, at_halt, at,
  current, set_current, queue, set_queue, max_priority,
}
use peps_os.Scheduler.Queues.{link_last, pop_to}
use peps_os.Scheduler.Unlink.{unlink_queues, UnlinkedQueues}
use peps_os.Scheduler.Timer.{timer_handler, add_proc_sleep}

-- `x > 0` for an `int`.
abbrev pub is_positive : ℕ → Bool
is_positive x = ltb 0 x && ltb x (2 ^ 31)

-- `pcb.running->rbp = rbp; pcb.running->rsp = rsp;`.
abbrev pub save_context : ℕ → ℕ → ProcessTable → ProcessTable
save_context rsp rbp t = set_current (record (current t) { rsp = rsp; rbp = rbp }) t

-- `if (pcb.running->priority > 0) pcb.running->priority--;`.
abbrev pub decayed : ℕ → ℕ
decayed p = if is_positive p then p - 1 else p

abbrev pub decay : ProcessTable → ProcessTable
decay t = set_current (record (current t) { priority = decayed (current t).priority }) t

abbrev pub mark_running : ProcessTable → ProcessTable
mark_running t = set_current (record (current t) { state = running }) t

module _ {H : Type 0} ⦃m : Allocator H⦄ where
  -- The processor leaves an exited process, whose memory is freed, or a blocked one.
  unfoldable pub leave : State → Process → Sched H → Sched H
  leave exited p s = record s {
    heap = m.free_memory p.address (m.free_memory p.mem_start_adress s.heap);
    pcb = record s.pcb { process_count = dec32 s.process_count; running = at_halt };
  }
  leave blocked p s = record s {
    pcb = record s.pcb { blocked = p ∷ s.pcb.blocked; running = at_halt };
  }
  leave ready p s = s
  leave running p s = s

-- `pcb.running = ready; ready = ready->next;` on list `i`, whose head the loop has seen.
unfoldable pub take_head_on : List Process → ProcessTable → ℕ → ProcessTable
unfolding pop_to
take_head_on [] t i = record t { running = null }
take_head_on (p ∷ ps) t i = set_queue (record t { running = at p }) i (pop_to ps (queue t i))

unfoldable pub take_head : ProcessTable → ℕ → ProcessTable
unfolding take_head_on
take_head t i = take_head_on (queue t i).ready t i

-- `if (ready == NULL) ready = pcb.running;`, which leaves `lastReady` as it was.
unfoldable pub start_list : List Process → ProcessTable → ℕ → Process → ProcessTable
start_list [] t i p = set_queue t i (record (queue t i) { ready = p ∷ [] })
start_list (_ ∷ _) t i p = t

-- The running process goes to the end of the list of its priority.
unfoldable pub requeue : ProcessTable → Process → ProcessTable
unfolding start_list
requeue t p = link_last (start_list (queue t p.priority).ready t p.priority p) p.priority p

unfoldable pub switch_to : Running → ProcessTable → ℕ → ProcessTable
switch_to at_halt t i = take_head t i
switch_to null t i = take_head (requeue t (record (current t) { state = ready })) i
switch_to (at _) t i = take_head (requeue t (record (current t) { state = ready })) i

-- The loop from the highest priority down, with `n` lists left.
unfoldable pub pick : ℕ → ProcessTable → ProcessTable
pick zero t = mark_running t
pick (suc i) t = elim (queue t i).ready [
  | [] ↦ if (current t).priority == i then t else pick i t
  | _ ∷ _ ↦ mark_running (switch_to t.running t i)
]

module _ {H : Type 0} ⦃m : Allocator H⦄ where
  -- `priorityScheduler` up to its loop: the registers are saved, a process that is done or blocked
  -- is left, and the priority falls.
  unfoldable pub depart : ℕ → ℕ → Sched H → Sched H
  depart rsp rbp s =
      let saved = save_context rsp rbp s.pcb in
      let left = leave (current saved).state (current saved) (record s { pcb = saved }) in
      record left { pcb = decay left.pcb }

  -- `priorityScheduler(rsp, rbp)`: the state and the stack pointer that it returns.
  unfoldable pub priority_scheduler : ℕ → ℕ → Sched H → Sched H × ℕ
  priority_scheduler rsp rbp s =
      let left = depart rsp rbp s in
      let t = pick max_priority left.pcb in (record left { pcb = t }, (current t).rsp)

  -- `fireTimerInt`: `priorityScheduler` with the processor's registers, then `timer_handler`.
  unfoldable pub fire_timer_int : Sched H → Sched H
  fire_timer_int s =
      let (s', rsp) = priority_scheduler s.cpu_rsp s.cpu_rbp s in
      timer_handler (record s' { cpu_rsp = rsp })

  -- `yield`.
  unfoldable pub yield : Sched H → Sched H
  yield s = fire_timer_int s

  unfoldable pub move_to_blocked : Sched H → Option UnlinkedQueues → Sched H × ℕ
  move_to_blocked s none = (s, 0)
  move_to_blocked s (some u) =
      let t = s.pcb in
      (
        record s {
          pcb = record t {
            priority_queue = u.queues;
            blocked = record u.node { state = blocked } ∷ t.blocked;
          };
        },
        1,
      )

  -- `block`.
  unfoldable pub block : Sched H → ℕ → Sched H × ℕ
  unfolding move_to_blocked
  block s pid =
      if (current s.pcb).pid == pid
      then (
        fire_timer_int
            (record s { pcb = set_current (record (current s.pcb) { state = blocked }) s.pcb }),
        1,
      )
      else move_to_blocked s (unlink_queues pid s.priority_queue)

  -- `wait`: 0 with no children, and else 1 after the caller was blocked.
  unfoldable pub wait : Sched H → Sched H × ℕ
  wait s = if (current s.pcb).kids_count == 0 then (s, 0) else ((block s (current s.pcb).pid).0, 1)

  -- `sleep`.
  unfoldable pub sleep : Sched H → ℕ → Sched H
  sleep s n =
      if is_positive n
      then (let s' = add_proc_sleep s (current s.pcb).pid n in (block s' (current s'.pcb).pid).0)
      else s
