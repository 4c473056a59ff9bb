-- ===== src/Kernel/Invariant/Reached.antt =====
-- Every state that the kernel comes to by system calls, the keyboard and the timer.
use peps_os.Common.{ℕ, ◌+◌, ◌<◌, ◌≡◌, Option, none, some, [], ◌∷◌, u32_mod}
use peps_os.Memory.{Allocator}
use peps_os.Scheduler.Table.{Process, at}
use peps_os.Scheduler.Switch.{fire_timer_int}
use peps_os.Scheduler.Invariant.System.{Inv, tick_Inv}
use peps_os.Keyboard.{Keyboard, key_act}
use peps_os.Kernel.{Kernel, Memory, Places, sched_of, set_sched}
use peps_os.Kernel.Calls.{Args, int_80, irq_dispatcher, key_handled, ignored}
use peps_os.Kernel.Invariant.Pipes.{write_to_pipe-GoesOn}
use peps_os.Kernel.Invariant.Streams.{kernel_of, IsOrdered, of_progress-Ordered}
use peps_os.Kernel.Invariant.Performed.{int_80-Ordered, made_by}
use peps_os.Kernel.Numbers.{call_of}
use peps_os.Scheduler.Invariant.Creates.{HasRoomFor}

module _ {H : Type 0} ⦃m : Allocator H⦄ (mem_state : H → ℕ × ℕ × ℕ) (clock : ℕ → ℕ) (mem : Memory)
    (places : Places) where
  -- The timer interrupt, which switches processes, comes at any time; a key and a system call come
  -- while a process runs, a system call with two pids left, and memory
  -- for the processes that it creates.
  pub data KernelStep (k : Kernel H) (k' : Kernel H) : Type 0 where
    tick : k' ≡ set_sched k (fire_timer_int (sched_of k)) → KernelStep k k'
    key :
        (p : Process) (unset scan : ℕ) (a : Args)
        → (sched_of k).running ≡ at p
        → k' ≡ kernel_of (irq_dispatcher mem_state clock mem places unset scan 1 a k)
        → KernelStep k k'
    call :
        (p : Process) (a : Args)
        → (sched_of k).running ≡ at p
        → (sched_of k).next_pid + 2 < u32_mod
        → HasRoomFor (made_by (call_of a.rdi)) (sched_of k).heap
        → k' ≡ kernel_of (int_80 mem_state clock mem places a k)
        → KernelStep k k'

  pub data KernelReach (k : Kernel H) : Kernel H → Type 0 where
    here : KernelReach k k
    next : {t u : Kernel H} → KernelReach k t → KernelStep t u → KernelReach k u

  key-Ordered :
      (p : Process) (unset scan : ℕ) (a : Args) (k : Kernel H)
      → (sched_of k).running ≡ at p
      → Inv (sched_of k)
      → IsOrdered (irq_dispatcher mem_state clock mem places unset scan 1 a k)
  unfolding irq_dispatcher
  key-Ordered p unset scan a k e v = by_key (key_act unset k.keyboard scan)
    where
      by_key : (r : Keyboard × Option ℕ) → IsOrdered (key_handled mem_state clock mem places k r)
      by_key (keyboard, none) = v
      by_key (keyboard, some c) =
          of_progress-Ordered p (record k { keyboard = keyboard }) ignored _
            (write_to_pipe-GoesOn p k.pipes 0 (c ∷ 0 ∷ []) (v, e))

  KernelStep-Inv : {k k' : Kernel H} → KernelStep k k' → Inv (sched_of k) → Inv (sched_of k')
  KernelStep-Inv {k} (tick e) v = rw e (tick_Inv (sched_of k) v)
  KernelStep-Inv {k} (key p unset scan a e f) v = rw f (key-Ordered p unset scan a k e v)
  KernelStep-Inv {k} (call p a e lt room f) v =
      rw f (int_80-Ordered mem_state clock mem places p a k e lt room v)

  -- Whatever such steps come, in whatever order, the process table stays
  -- in order: each process is in it once, in the place that its state says, new pids are new, and
  -- `processCount` counts it.
  pub KernelReach-Inv : {k k' : Kernel H} → Inv (sched_of k) → KernelReach k k' → Inv (sched_of k')
  KernelReach-Inv v here = v
  KernelReach-Inv v (next r st) = KernelStep-Inv st (KernelReach-Inv v r)
