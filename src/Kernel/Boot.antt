-- ===== src/Kernel/Boot.antt =====
-- `main` of Kernel/kernel.c: how the kernel starts.
use peps_os.Common.{ℕ, none}
use peps_os.Memory.{Allocator}
use peps_os.Scheduler.Table.{foreground}
use peps_os.Scheduler.Create.{Request, create_pcb, create_process, start_first_process}
use peps_os.Sem.{start_sems}
use peps_os.Pipes.{initialize_pipes}
use peps_os.Console.{initial_state}
use peps_os.Kernel.{Kernel, sched_of, set_sched, set_sems}

module _ {H : Type 0} ⦃m : Allocator H⦄ where
  -- From `initialState` on, with `nextPid` and `ticks` at 0 as the program is loaded, with the size of the screen, the heap that `initialize_memory` sets up, and
  -- the requests for the halt process and the menu.
  unfoldable pub booted : Kernel H → ℕ → ℕ → H → Request → Request → Kernel H
  booted k width height heap halt menu =
      let k1 = record k { video = initial_state width height } in
      let k2 =
        set_sched k1
          (create_pcb (record (sched_of k1) { heap = heap; next_pid = 0; ticks = 0 }) halt) in
      let k3 = set_sems k2 (start_sems k2.pipes.sems) in
      let k4 = record k3 { pipes = (initialize_pipes k3.pipes).1 } in
      let k5 = set_sched k4 (create_process (sched_of k4) menu 0 foreground none).0 in
      set_sched k5 (start_first_process (sched_of k5))
