-- ===== src/Scheduler/Table.antt =====
-- The process table of Kernel/include/scheduler.h and the variables of Kernel/scheduler.c and
-- Kernel/time.c.
--
-- A pointer to a `Process` is the process's pid. The `next` fields are the order of the lists; the
-- running process and the halt process are in no list. Address 0 is mapped memory in this kernel:
-- `at_null` is the `Process` that its bytes spell, and `null_next` is the pointer in the `next` field
-- there, which a store through a null `lastReady` overwrites.
use peps_os.Common.{ℕ, Option, none, List, [], get_or, set, replicate}

pub data State : Type 0 where
  blocked ready running exited : State

pub data ProcessType : Type 0 where
  foreground background : ProcessType

pub record Process : Type 0 where
  pub rsp : ℕ
  pub rbp : ℕ
  pub mem_start_adress : ℕ
  pub pid : ℕ
  pub state : State
  pub priority : ℕ
  pub parent_pid : ℕ
  pub tipo : ProcessType
  pub name : ℕ
  pub kids_count : ℕ
  pub in_pipe : ℕ
  pub out_pipe : ℕ
  -- The address of the struct itself, as `allocMemory` returned it.
  pub address : ℕ

pub record ReadyList : Type 0 where
  pub ready : List Process
  pub last_ready : Option ℕ

-- `pcb.running`: null, the same pointer as `pcb.halt`, or another process.
pub data Running : Type 0 where
  null : Running
  at_halt : Running
  at : Process → Running

pub record ProcessTable : Type 0 where
  pub process_count : ℕ
  pub running : Running
  pub priority_queue : List ReadyList
  pub blocked : List Process
  pub halt : Process
  pub at_null : Process
  pub null_next : Option ℕ

-- `procSleep` of Kernel/time.c, with its own address.
pub record ProcSleep : Type 0 where
  pub pid : ℕ
  pub ticks_left : ℕ
  pub address : ℕ

-- All of it, with the heap of the memory manager. `cpu_rsp` and `cpu_rbp` are what the processor
-- holds when it next enters the timer interrupt.
pub record Sched (H : Type 0) : Type 0 where
  pub pcb : ProcessTable
  pub open pcb use {process_count, running, priority_queue, blocked, halt, at_null, null_next}
  pub next_pid : ℕ
  pub heap : H
  pub sleeped : List ProcSleep
  pub ticks : ℕ
  pub cpu_rsp : ℕ
  pub cpu_rbp : ℕ

abbrev pub max_priority : ℕ
max_priority = 5

abbrev pub console_pid : ℕ
console_pid = 1

abbrev pub process_stack_size : ℕ
process_stack_size = 10000

-- `sizeof(Process)` and `sizeof(procSleep)`.
abbrev pub sizeof_process : ℕ
sizeof_process = 80

abbrev pub sizeof_proc_sleep : ℕ
sizeof_proc_sleep = 16

abbrev pub empty_list : ReadyList
empty_list = record { ready = []; last_ready = none }

-- `pcb.priorityQueue[i]`.
abbrev pub queue : ProcessTable → ℕ → ReadyList
queue t i = get_or t.priority_queue i empty_list

abbrev pub set_queue : ProcessTable → ℕ → ReadyList → ProcessTable
set_queue t i q = record t { priority_queue = set t.priority_queue i q }

-- `*pcb.running`: the process that the pointer leads to, and a store through the pointer.
abbrev pub current_of : Running → Process → Process → Process
current_of null halt nil = nil
current_of at_halt halt nil = halt
current_of (at p) halt nil = p

abbrev pub current : ProcessTable → Process
current t = current_of t.running t.halt t.at_null

abbrev pub store_current : Running → Process → ProcessTable → ProcessTable
store_current null p t = record t { at_null = p }
store_current at_halt p t = record t { halt = p }
store_current (at _) p t = record t { running = at p }

abbrev pub set_current : Process → ProcessTable → ProcessTable
set_current p t = store_current t.running p t

-- `setPriorityQueuesNull`.
unfoldable pub set_priority_queues_null : ProcessTable → ProcessTable
set_priority_queues_null t = record t { priority_queue = replicate max_priority empty_list }
