-- ===== src/Scheduler/Tests.antt =====
-- The theorems about Kernel/scheduler.c and Kernel/time.c at a system with two processes, with a
-- memory manager that only hands out.
use peps_os.Common.{
  ℕ, zero, suc, ◌+◌, ◌*◌, ◌^◌, ◌<◌, ◌≡◌, refl, arith, none, some, List, [], ◌∷◌, length,
}
use peps_os.Common.Chain.{is_key}
use peps_os.Memory.{Allocator}
use peps_os.Scheduler.Table.{
  Process, ReadyList, ProcessTable, ProcSleep, Sched, foreground, background, blocked, ready, null,
  at, empty_list, current, set_priority_queues_null,
}
use peps_os.Scheduler.Queues.{enqueue}
use peps_os.Scheduler.Timer.{unblock, timer_handler}
use peps_os.Scheduler.Invariant.Sleepers.{WokenWithin, timer_handler-WokenWithin}
use peps_os.Scheduler.Switch.{block, depart, priority_scheduler}
use peps_os.Scheduler.Create.{
  Request, enqueue_new, create_process, create_process_struct, admit, adopt, create_pcb,
  start_first_process,
}
use peps_os.Scheduler.Kill.{kill, exit, after}
use peps_os.Scheduler.Info.{get_all_process_info, sizeof_process_info}
use peps_os.Scheduler.Invariant.{IsSound, weigh_table}
use peps_os.Scheduler.Invariant.Woken.{Unblocks, unblock-Unblocks}
use peps_os.Scheduler.Invariant.Picked.{Picks}
use peps_os.Scheduler.Invariant.Departed.{gone_weight}
use peps_os.Scheduler.Invariant.Switched.{priority_scheduler-weigh, priority_scheduler-Picks}
use peps_os.Scheduler.Invariant.Leaves.{Loses, KillLoses, exit-Loses, kill-KillLoses}
use peps_os.Scheduler.Invariant.Creates.{Creates, HasRoomFor, create_process-Creates}
use peps_os.Scheduler.Invariant.System.{Inv, Reach, here, next, call, Call, creates, perform}
use peps_os.Scheduler.Invariant.Booted.{boot, system_Inv}
use peps_os.Scheduler.Invariant.Listed.{weigh_entries, get_all_process_info-fits}

instance abbrev bump : Allocator ℕ
bump = record { alloc_memory = λ n h. (h + 16, h + 16 + n); free_memory = λ p h. h }

abbrev nobody : Process
nobody = record {
  rsp = 0;
  rbp = 0;
  mem_start_adress = 0;
  pid = 0;
  state = blocked;
  priority = 0;
  parent_pid = 0;
  tipo = foreground;
  name = 0;
  kids_count = 0;
  in_pipe = 0;
  out_pipe = 0;
  address = 0;
}

abbrev loading : Sched ℕ
loading = record {
  pcb = record {
    process_count = 0;
    running = null;
    priority_queue = [];
    blocked = [];
    halt = nobody;
    at_null = nobody;
    null_next = none;
  };
  next_pid = 0;
  heap = 5242880;
  sleeped = [];
  ticks = 0;
  cpu_rsp = 4096;
  cpu_rbp = 4100;
}

abbrev program : ℕ → Request
program f = record { process = f; argc = 1; argv = 77 ∷ [] }

-- The menu runs, after the boot, and then starts a second process.
abbrev booted : Sched ℕ
booted = boot loading (program 1) (program 2)

abbrev second : Call
second = creates (program 3) 1 background none

abbrev two : Sched ℕ
two = perform booted second

booted_runs : booted.running ≡ at (current booted.pcb)
unfolding boot start_first_process create_process create_pcb create_process_struct admit adopt
    enqueue enqueue_new set_priority_queues_null
booted_runs = refl

memory_left : HasRoomFor 1 booted.heap
unfolding boot start_first_process create_process create_pcb create_process_struct admit adopt
    enqueue enqueue_new set_priority_queues_null
memory_left = (λ e. omega (arith, e), (λ e. omega (arith, e), tt))

memory_for_more : HasRoomFor 1 two.heap
unfolding boot start_first_process create_process create_pcb create_process_struct admit adopt
    enqueue enqueue_new set_priority_queues_null perform
memory_for_more = (λ e. omega (arith, e), (λ e. omega (arith, e), tt))

has_a_pid : booted.next_pid + 1 < 2 ^ 32
unfolding boot start_first_process create_process create_pcb create_process_struct admit adopt
    enqueue enqueue_new set_priority_queues_null
has_a_pid = omega arith

two_runs : two.running ≡ at (current two.pcb)
unfolding boot start_first_process create_process create_pcb create_process_struct admit adopt
    enqueue enqueue_new set_priority_queues_null perform
two_runs = refl

starts_second : Reach booted two
starts_second =
    next here (call (current booted.pcb) second booted_runs (has_a_pid, memory_left) refl)

two-Inv : Inv two
two-Inv =
    system_Inv loading (program 1) (program 2)
      (
        λ e. omega (arith, e),
        (λ e. omega (arith, e), (λ e. omega (arith, e), (λ e. omega (arith, e), tt))),
      )
      starts_second

two_IsSound : IsSound two.pcb
two_IsSound = two-Inv.valid.sound

priority_scheduler-Picks_example :
    Picks (depart 100 200 two).pcb 5 (priority_scheduler 100 200 two).0.pcb
priority_scheduler-Picks_example = priority_scheduler-Picks 100 200 two two_IsSound

priority_scheduler-weigh_example :
    weigh_table (is_key 2) (priority_scheduler 100 200 two).0.pcb
      + gone_weight (is_key 2) two.running
    ≡ weigh_table (is_key 2) two.pcb
priority_scheduler-weigh_example = priority_scheduler-weigh 100 200 two two_IsSound (is_key 2)

kill-KillLoses_example : KillLoses 2 two (kill two 2)
kill-KillLoses_example = kill-KillLoses two (current two.pcb) two_runs two-Inv.valid 2 (omega arith)

exit-Loses_example : Loses (current two.pcb).pid two.pcb (after (exit two)).pcb
exit-Loses_example = exit-Loses two (current two.pcb) two_runs two-Inv.valid

create_process-Creates_example :
    Creates 2 two (create_process two (program 4) 2 foreground (some (3, 4)))
create_process-Creates_example =
    create_process-Creates two (current two.pcb) two_runs (program 4) 2 foreground (some (3, 4))
      two-Inv.valid two-Inv.fresh memory_for_more

unblock-Unblocks_example : Unblocks two.pcb 2 (unblock two.pcb 2)
unblock-Unblocks_example = unblock-Unblocks two.pcb 2 two_IsSound

get_all_process_info-fits_example :
    let l = (get_all_process_info two).1 in
    (length l.entries * sizeof_process_info ≡ l.size)
    × (l.count ≡ length l.entries)
    × ((w : ℕ → ℕ) → weigh_entries w l.entries ≡ weigh_table w two.pcb)
get_all_process_info-fits_example = get_all_process_info-fits two (current two.pcb) two_runs two-Inv

abbrev sleeper : ℕ → ℕ → ProcSleep
sleeper pid left = record { pid = pid; ticks_left = left; address = 64 }

-- Lists of processes.
abbrev process : ℕ → Process
process k = record nobody { pid = k; state = ready; priority = 1 }

abbrev pair : ReadyList
pair = record { ready = process 4 ∷ process 7 ∷ []; last_ready = some 7 }

abbrev lists : List ReadyList
lists = empty_list ∷ pair ∷ empty_list ∷ []

abbrev table : ProcessTable
table = record two.pcb { priority_queue = lists }

-- Two processes that sleep, of whom one is blocked, and only timer interrupts.
abbrev ticking : ℕ → Sched ℕ
ticking zero = record (block two 2).0 { sleeped = sleeper 1 1 ∷ sleeper 2 3 ∷ [] }
ticking (suc i) = timer_handler (ticking i)

timer_handler-WokenWithin_example : WokenWithin 2 4 ticking
timer_handler-WokenWithin_example =
    timer_handler-WokenWithin 2 3 1 ticking (omega arith) (omega arith) (λ i. refl) (refl, refl)
