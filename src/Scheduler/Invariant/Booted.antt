-- ===== src/Scheduler/Invariant/Booted.antt =====
-- The scheduler's part of `main` in Kernel/kernel.c: `createPCB`, `createProcess` of the menu and
-- `startFirstProcess`.
use peps_os.Common.{refl, arith, none}
use peps_os.Memory.{Allocator}
use peps_os.Scheduler.Table.{Sched, foreground, set_priority_queues_null}
use peps_os.Scheduler.Queues.{enqueue}
use peps_os.Scheduler.Create.{
  Request, create_process_struct, create_process, admit, adopt, create_pcb, start_first_process,
  enqueue_new,
}
use peps_os.Scheduler.Invariant.Creates.{HasRoomFor, not_zero}
use peps_os.Scheduler.Invariant.System.{Inv, Reach, Reach-Inv}

module _ {H : Type 0} ⦃m : Allocator H⦄ where
  -- `static int nextPid = 0;` and `static unsigned long ticks = 0;`.
  abbrev pub loaded : Sched H → Sched H
  loaded s = record s { next_pid = 0; ticks = 0 }

  unfoldable pub boot : Sched H → Request → Request → Sched H
  boot s halt menu =
      start_first_process (create_process (create_pcb (loaded s) halt) menu 0 foreground none).0

  pub boot-Inv : (s : Sched H) (halt menu : Request) → HasRoomFor 2 s.heap → Inv (boot s halt menu)
  unfolding boot start_first_process create_process create_pcb create_process_struct admit adopt
      enqueue enqueue_new set_priority_queues_null
  boot-Inv s halt menu room =
      let given = not_zero _ room.1.1.1.0 in
      rw given (record {
        valid = record {
          sound = record {
            lists = refl;
            queues = ((tt, tt), ((tt, tt), ((tt, tt), ((tt, tt), ((tt, tt), tt)))));
            waiting = tt;
            distinct = λ k. ground arith;
            runner = omega arith;
            idle = (refl, λ e. cc, λ e. cc);
          };
          active = (λ e. cc, λ e. cc);
        };
        fresh = λ k h. ground arith;
        counted = refl;
        bounded = omega arith;
        small = omega arith;
      })

  -- After the boot, whatever timer interrupts come and whatever calls of `block`, `unblock`,
  -- `kill`, `exit`, `wait`, `yield`, `sleep`, `createProcess`, `createForegroundProcess` and
  -- `changePriority` the running process makes, in any order, as long as there is memory for new processes and no new process would get
  -- the pid 2 ^ 32 - 1 or a later one: the table is valid (tail pointers right, states and
  -- priorities as the lists promise, no pid twice, some process or the halt process running), no
  -- process has a pid that is still to be given out, and `processCount` is the number of processes.
  pub system_Inv :
      (s : Sched H) (halt menu : Request) {s' : Sched H}
      → HasRoomFor 2 s.heap
      → Reach (boot s halt menu) s'
      → Inv s'
  system_Inv s halt menu room r = Reach-Inv (boot-Inv s halt menu room) r
