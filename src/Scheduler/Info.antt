-- ===== src/Scheduler/Info.antt =====
-- Kernel/scheduler.c: `getAllProcessInfo`, `getRunningProcessStdin`, `getPid`, `currentProcType`.
use peps_os.Common.{ℕ, ◌*◌, List, [], ◌∷◌, ◌++◌, length}
use peps_os.Memory.{Allocator}
use peps_os.Scheduler.Table.{
  Process, ReadyList, ProcessTable, Sched, State, ProcessType, foreground, background, current,
}

-- `processInfo` of Shared/include/ps.h.
pub record ProcessInfo : Type 0 where
  pub name : ℕ
  pub rsp : ℕ
  pub rbp : ℕ
  pub pid : ℕ
  pub parent_pid : ℕ
  pub priority : ℕ
  pub state : State
  pub tipo : ProcessType

abbrev pub sizeof_process_info : ℕ
sizeof_process_info = 48

-- `copyProcToArray`: the entry that it writes.
unfoldable pub copy_proc : Process → ProcessInfo
copy_proc p = record {
  name = p.name;
  rsp = p.rsp;
  rbp = p.rbp;
  pid = p.pid;
  parent_pid = p.parent_pid;
  priority = p.priority;
  state = p.state;
  tipo = p.tipo;
}

-- `copyListOnArrayFromIndex`: the entries that it writes, one behind the other.
unfoldable pub copy_list : List Process → List ProcessInfo
copy_list [] = []
copy_list (p ∷ ps) = copy_proc p ∷ copy_list ps

unfoldable pub copy_queues : List ReadyList → List ProcessInfo
copy_queues [] = []
copy_queues (q ∷ qs) = copy_list q.ready ++ copy_queues qs

-- The array, its length in bytes, its entries, and `*count`.
pub record Listing : Type 0 where
  pub procs : ℕ
  pub size : ℕ
  pub entries : List ProcessInfo
  pub count : ℕ

unfoldable pub all_entries : ProcessTable → List ProcessInfo
all_entries t = copy_list t.blocked ++ copy_queues t.priority_queue ++ copy_proc (current t) ∷ []

-- `getPid`.
unfoldable pub get_pid : ProcessTable → ℕ
get_pid t = (current t).pid

proc_type : ProcessType → ℕ
proc_type foreground = 1
proc_type background = 0

-- `currentProcType`.
unfoldable pub current_proc_type : ProcessTable → ℕ
unfolding proc_type
current_proc_type t = proc_type (current t).tipo

module _ {H : Type 0} ⦃m : Allocator H⦄ where
  -- `getAllProcessInfo`.
  unfoldable pub get_all_process_info : Sched H → Sched H × Listing
  get_all_process_info s =
      let size = s.process_count * sizeof_process_info in
      let (procs, heap) = m.alloc_memory size s.heap in
      (
        record s { heap = heap },
        record {
          procs = procs;
          size = size;
          entries = all_entries s.pcb;
          count = length (all_entries s.pcb);
        },
      )

  -- `getRunningProcessStdin`: the address of the two bytes, and the two `int`s stored there.
  unfoldable pub get_running_process_stdin : Sched H → Sched H × ℕ × ℕ × ℕ
  get_running_process_stdin s =
      let (to_ret, heap) = m.alloc_memory 2 s.heap in
      (record s { heap = heap }, to_ret, (current s.pcb).in_pipe, (current s.pcb).out_pipe)
