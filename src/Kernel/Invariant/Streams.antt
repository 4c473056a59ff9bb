-- ===== src/Kernel/Invariant/Streams.antt =====
-- The process table across `system_write` and `system_read` of Kernel/irqDispatcher.c.
use peps_os.Common.{
  ℕ, zero, suc, Bool, true, false, ◌&&◌, ◌||◌, not, inl, inr, List, ◌==◌, Bool-cases, get_or, set,
}
use peps_os.Memory.{Allocator}
use peps_os.Scheduler.Table.{Process, current}
use peps_os.Scheduler.Create.{stdin_pipe, stdout_pipe}
use peps_os.Scheduler.Info.{current_proc_type}
use peps_os.Scheduler.Invariant.System.{Inv}
use peps_os.Pipes.{Pipes, Progress, write_to_pipe, read_pipe}
use peps_os.Kernel.{Kernel, Result, returned, gone, again, posting, ticking, sched_of}
use peps_os.Kernel.Streams.{of_progress, system_write, system_read, read_from, read_on, below}
use peps_os.Kernel.Invariant.Sems.{Runs}
use peps_os.Kernel.Invariant.Pipes.{GoesOn, read_pipe-GoesOn, write_to_pipe-GoesOn}

-- The kernel in which a call leaves the machine, and the order of its process table.
abbrev pub kernel_of : {H : Type 0} → Result (Kernel H) → Kernel H
kernel_of (returned k n) = k
kernel_of (gone k) = k
kernel_of (again k) = k
kernel_of (posting k n) = k
kernel_of (ticking k start time) = k

abbrev pub IsOrdered : {H : Type 0} → Result (Kernel H) → Type 0
IsOrdered r = Inv (sched_of (kernel_of r))

module _ {H : Type 0} ⦃m : Allocator H⦄ (p : Process) where
  pub of_progress-Ordered :
      (k : Kernel H) (f : ℕ → ℕ) (r : Progress (Pipes H))
      → GoesOn p r
      → IsOrdered (of_progress k f r)
  unfolding of_progress
  of_progress-Ordered k f (Progress.returns t n) (v, e) = v
  of_progress-Ordered k f (Progress.again t) v = v
  of_progress-Ordered k f (Progress.posting t n) v = v

  pub system_write-Ordered :
      (k : Kernel H) (string : List ℕ) → Runs p (sched_of k) → IsOrdered (system_write k string).1
  unfolding system_write
  system_write-Ordered k string r =
      let pipe = (current (sched_of k).pcb).out_pipe in
      elim (Bool-cases ((pipe == stdout_pipe) && not (current_proc_type (sched_of k).pcb == 0))) [
        | inl e ↦ rw e r.0
        | inr e ↦ rw e (
            of_progress-Ordered k (λ n. 0) (write_to_pipe k.pipes pipe string).1
              (write_to_pipe-GoesOn p k.pipes pipe string r))
      ]

  read_on-Ordered :
      (k : Kernel H) (looks : Bool) (buffer : List ℕ) (i length : ℕ)
      (next : Kernel H → List ℕ → List ℕ × ℕ × Result (Kernel H)) (r : Progress (Pipes H))
      → ((k' : Kernel H) (b : List ℕ) → Runs p (sched_of k') → IsOrdered (next k' b).2)
      → GoesOn p r
      → IsOrdered (read_on k looks buffer i length next r).2
  unfolding read_on
  read_on-Ordered k looks buffer i length next (Progress.returns t c) f r =
      let b = set buffer i c in
      let behind = get_or b (suc i) 0 in
      elim (Bool-cases
        ((looks && ((behind == 0) || (behind == 4))) || not (below (suc i) length))) [
          | inl e ↦ rw e r.0
          | inr e ↦ rw e (f (record k { pipes = t }) b r)
        ]
  read_on-Ordered k looks buffer i length next (Progress.again t) f r = r
  read_on-Ordered k looks buffer i length next (Progress.posting t c) f r = r

  read_from-Ordered :
      (fuel : ℕ) (looks : Bool) (k : Kernel H) (pipe : ℕ) (buffer : List ℕ) (i length : ℕ)
      → Runs p (sched_of k)
      → IsOrdered (read_from fuel looks k pipe buffer i length).2
  unfolding read_from
  read_from-Ordered zero looks k pipe buffer i length r = r.0
  read_from-Ordered (suc fuel) looks k pipe buffer i length r =
      read_on-Ordered k looks buffer i length
        (λ k' b. read_from fuel looks k' pipe b (suc i) length) (read_pipe k.pipes pipe)
        (λ k' b q. read_from-Ordered fuel looks k' pipe b (suc i) length q)
        (read_pipe-GoesOn p k.pipes pipe r)

  pub system_read-Ordered :
      (k : Kernel H) (buffer : List ℕ) (length : ℕ)
      → Runs p (sched_of k)
      → IsOrdered (system_read k buffer length).2
  unfolding system_read
  system_read-Ordered k buffer length r =
      let pipe = (current (sched_of k).pcb).in_pipe in
      elim (Bool-cases ((pipe == stdin_pipe) && not (current_proc_type (sched_of k).pcb == 0))) [
        | inl e ↦ rw e (read_from-Ordered (suc length) true k stdin_pipe buffer 0 length r)
        | inr e ↦ elim (Bool-cases (below 0 length)) [
          | inl f ↦ rw (e, f) (read_from-Ordered length false k pipe buffer 0 length r)
          | inr f ↦ rw (e, f) r.0
        ]
      ]
