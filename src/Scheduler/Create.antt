-- ===== src/Scheduler/Create.antt =====
-- Kernel/scheduler.c: `createPCB`, `createProcessStruct`, `createProcess` and its callers, and
-- `startFirstProcess`. The bytes of the new stack are those of `prepareStack` (Kernel/asm/scheduler.asm)
-- and `copyArgvOnStack`; here only its addresses count.
use peps_os.Common.{
  ℕ, ◌+◌, ◌-◌, ◌*◌, ◌&&◌, not, Option, none, some, List, [], ◌∷◌, ◌==◌, ltb, if◌then◌else◌, inc32,
  minus_one, is_negative, get_or,
}
use peps_os.Memory.{Allocator}
use peps_os.Scheduler.Table.{
  Process, ProcessTable, Sched, ready, ProcessType, foreground, background, Running, null, at_halt,
  at, current, queue, set_queue, empty_list, max_priority, process_stack_size, sizeof_process,
  set_priority_queues_null,
}
use peps_os.Scheduler.Queues.{enqueue}
use peps_os.Scheduler.Timer.{set_sleeped}
use peps_os.Scheduler.Switch.{block}

-- `prepareStack`: five words for `iretq` and fifteen registers are pushed.
abbrev pub prepare_stack : ℕ → ℕ
prepare_stack rsp = rsp - 20 * 8

-- What the caller of `createProcess` asks for.
pub record Request : Type 0 where
  pub process : ℕ
  pub argc : ℕ
  pub argv : List ℕ

-- The two pipes that `rw_pipes` points to; null is `none`.
abbrev pub Pipes : Type 0
Pipes = Option (ℕ × ℕ)

abbrev pub stdin_pipe : ℕ
stdin_pipe = 0

abbrev pub stdout_pipe : ℕ
stdout_pipe = 1

abbrev pub with_pipes : Pipes → Process → Process
with_pipes none p = record p { in_pipe = stdin_pipe; out_pipe = stdout_pipe }
with_pipes (some (r, w)) p = record p { in_pipe = r; out_pipe = w }

-- The new process gets its parent, which has one child more.
unfoldable pub adopt : Running → Process → ProcessTable → Process × ProcessTable
adopt null p t = (record p { parent_pid = 0 }, t)
adopt at_halt p t = (
  record p { parent_pid = t.halt.pid },
  record t { halt = record t.halt { kids_count = inc32 t.halt.kids_count } },
)
adopt (at c) p t = (
  record p { parent_pid = c.pid },
  record t { running = at (record c { kids_count = inc32 c.kids_count }) },
)

abbrev pub first_of_list : List Process → Running
first_of_list [] = null
first_of_list (p ∷ ps) = at p

-- `lastReady->next = NULL`: what was linked behind the process of that pid is lost.
unfoldable pub cut_after : ℕ → List Process → List Process
cut_after k [] = []
cut_after k (p ∷ ps) = let rest = cut_after k ps in if p.pid == k then p ∷ [] else p ∷ rest

unfoldable pub store_null : Option ℕ → ProcessTable → ℕ → ProcessTable
unfolding cut_after
store_null none t i = record t { null_next = none }
store_null (some k) t i =
    set_queue t i (record (queue t i) { ready = cut_after k (queue t i).ready })

-- A null `newProcess` is linked: an empty list stays empty, and another one loses its `lastReady`.
unfoldable pub enqueue_null : List Process → ProcessTable → ℕ → ProcessTable
unfolding store_null
enqueue_null [] t i = set_queue t i empty_list
enqueue_null (_ ∷ _) t i =
    let t' = store_null (queue t i).last_ready t i in
    set_queue t' i (record (queue t' i) { last_ready = none })

-- What `allocMemory` returned for the structure decides what is queued.
unfoldable pub enqueue_new : ProcessTable → ℕ → Process → ProcessTable
unfolding enqueue_null
enqueue_new t i p =
    if p.address == 0
    then enqueue_null (queue t i).ready (record t { at_null = p; null_next = none }) i
    else enqueue t i p

module _ {H : Type 0} ⦃m : Allocator H⦄ where
  -- `createProcessStruct`. Neither result of `allocMemory` is looked at: a null stack or structure
  -- gives a process with the address 0. Four fields are left to the caller, who sets them: `tipo`, `parent_pid`
  -- and the pipes.
  unfoldable pub create_process_struct : Sched H → Request → Sched H × Process
  create_process_struct s r =
      let (start, heap) = m.alloc_memory process_stack_size s.heap in
      let (address, heap') = m.alloc_memory sizeof_process heap in
      let new_process_stack = prepare_stack (start + process_stack_size) in
      (
        record s { heap = heap'; next_pid = inc32 s.next_pid },
        record {
          rsp = new_process_stack;
          rbp = new_process_stack;
          mem_start_adress = start;
          pid = s.next_pid;
          state = ready;
          priority = 0;
          parent_pid = 0;
          tipo = foreground;
          name = get_or r.argv 0 0;
          kids_count = 0;
          in_pipe = 0;
          out_pipe = 0;
          address = address;
        },
      )

  unfoldable pub admit : Sched H → Process → ℕ → Sched H × ℕ
  unfolding adopt enqueue_new
  admit s p priority =
      let t = record s.pcb { process_count = inc32 s.process_count } in
      let (p', t') = adopt t.running p t in (record s { pcb = enqueue_new t' priority p' }, p'.pid)

  -- `createProcess`: -1 for a priority that is out of range, else the new pid.
  unfoldable pub create_process : Sched H → Request → ℕ → ProcessType → Pipes → Sched H × ℕ
  unfolding admit
  create_process s r priority tipo rw_pipes =
      if not (is_negative priority) && ltb priority max_priority
      then (let (s', p) = create_process_struct s r in
          admit s' (with_pipes rw_pipes (record p { tipo = tipo; priority = priority })) priority)
      else (s, minus_one)

  -- `createBackgroundProcess`.
  unfoldable pub create_background_process : Sched H → Request → ℕ → Pipes → Sched H × ℕ
  create_background_process s r priority rw_pipes = create_process s r priority background rw_pipes

  -- `createForegroundProcess`: the caller is blocked, whatever `createProcess` returned.
  unfoldable pub create_foreground_process : Sched H → Request → ℕ → Pipes → Sched H × ℕ
  create_foreground_process s r priority rw_pipes =
      let (s', pid) = create_process s r priority foreground rw_pipes in
      ((block s' (current s'.pcb).pid).0, pid)

  -- `createProcessWithPipes`.
  unfoldable pub create_process_with_pipes : Sched H → Request → Request → Pipes → Pipes → Sched H
  create_process_with_pipes s r1 r2 pipes1 pipes2 =
      let s1 = (create_process s r1 0 foreground pipes1).0 in
      let s2 = (create_process s1 r2 0 foreground pipes2).0 in (block s2 (current s2.pcb).pid).0

  -- `createPCB`; `halt` is the request for the process that runs `haltCpu`. With a null structure the
  -- halt process is what its fields spell at address 0.
  unfoldable pub create_pcb : Sched H → Request → Sched H
  create_pcb s halt =
      let t = set_priority_queues_null (record s.pcb { process_count = 0; running = null }) in
      let (s', p) = create_process_struct (record s { pcb = record t { blocked = [] } }) halt in
      set_sleeped (record s' { pcb = record s'.pcb { halt = p } })

  -- `startFirstProcess`: the head of list 0 runs, and the list is emptied.
  unfoldable pub start_first_process : Sched H → Sched H
  start_first_process s =
      let t = record s.pcb { running = first_of_list (queue s.pcb 0).ready } in
      let t' = set_queue t 0 empty_list in record s { pcb = t'; cpu_rsp = (current t').rsp }
