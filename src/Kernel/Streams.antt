-- ===== src/Kernel/Streams.antt =====
-- `system_write` and `system_read` of Kernel/irqDispatcher.c: the process's own input and output.
use peps_os.Common.{
  ℕ, zero, suc, Bool, true, false, ◌&&◌, ◌||◌, not, List, [], ◌==◌, ltb, if◌then◌else◌, get_or, set,
  is_negative,
}
use peps_os.Memory.{Allocator}
use peps_os.Scheduler.Table.{current}
use peps_os.Scheduler.Create.{stdin_pipe, stdout_pipe}
use peps_os.Scheduler.Info.{current_proc_type}
use peps_os.Pipes.{Pipes, Progress, write_to_pipe, read_pipe}
use peps_os.Console.{draw_string_def}
use peps_os.Kernel.{Kernel, sched_of, Result, returned, again, posting}

module _ {H : Type 0} where
  abbrev pub with_pipes : Kernel H → Pipes H → Kernel H
  with_pipes k p = record k { pipes = p }

  -- The result of a call on the pipes, with a conversion of its value.
  unfoldable pub of_progress : Kernel H → (ℕ → ℕ) → Progress (Pipes H) → Result (Kernel H)
  of_progress k f (Progress.returns p n) = returned (with_pipes k p) (f n)
  of_progress k f (Progress.again p) = again (with_pipes k p)
  of_progress k f (Progress.posting p n) = posting (with_pipes k p) (f n)

-- `indx < length` for an `int`, at an index that is not negative.
abbrev pub below : ℕ → ℕ → Bool
below i length = not (is_negative length) && ltb i length

module _ {H : Type 0} ⦃m : Allocator H⦄ where
  -- `system_write`: what is left to be written when the caller is blocked, and the result.
  unfoldable pub system_write : Kernel H → List ℕ → List ℕ × Result (Kernel H)
  unfolding of_progress
  system_write k string =
      let p = current (sched_of k).pcb in
      let (rest, progress) = write_to_pipe k.pipes p.out_pipe string in
      if (p.out_pipe == stdout_pipe) && not (current_proc_type (sched_of k).pcb == 0)
      then ([], returned (record k { video = draw_string_def k.video string }) 0)
      else (rest, of_progress k (λ n. 0) progress)

  -- A turn of the loop of `system_read` behind `read_pipe`, at index `i`: the bytes at `retAddress`, the
  -- index and how the call goes on. The `do` loop (`looks`) looks at the byte behind the one that it
  -- read; `next` is the rest of the loop.
  unfoldable pub read_on :
      Kernel H
      → Bool
      → List ℕ
      → ℕ
      → ℕ
      → (Kernel H → List ℕ → List ℕ × ℕ × Result (Kernel H))
      → Progress (Pipes H)
      → List ℕ × ℕ × Result (Kernel H)
  read_on k looks buffer i length next (Progress.returns p c) =
      let buffer' = set buffer i c in
      let behind = get_or buffer' (suc i) 0 in
      if (looks && ((behind == 0) || (behind == 4))) || not (below (suc i) length)
      then (buffer', suc i, returned (with_pipes k p) 0)
      else next (with_pipes k p) buffer'
  read_on k looks buffer i length next (Progress.again p) = (buffer, i, again (with_pipes k p))
  read_on k looks buffer i length next (Progress.posting p c) =
      (buffer, i, posting (with_pipes k p) c)

  -- The loop of `system_read` from index `i` on, on one pipe.
  unfoldable pub read_from :
      ℕ → Bool → Kernel H → ℕ → List ℕ → ℕ → ℕ → List ℕ × ℕ × Result (Kernel H)
  unfolding read_on
  read_from zero looks k pipe buffer i length = (buffer, i, returned k 0)
  read_from (suc fuel) looks k pipe buffer i length =
      read_on k looks buffer i length
        (λ k' buffer'. read_from fuel looks k' pipe buffer' (suc i) length) (read_pipe k.pipes pipe)

  -- `system_read`, from index 0; each turn moves the index on by one, so `length` turns are enough,
  -- and the `do` loop makes one even for no length or a negative one.
  unfoldable pub system_read : Kernel H → List ℕ → ℕ → List ℕ × ℕ × Result (Kernel H)
  unfolding read_from
  system_read k buffer length =
      let p = current (sched_of k).pcb in
      if (p.in_pipe == stdin_pipe) && not (current_proc_type (sched_of k).pcb == 0)
      then read_from (suc length) true k stdin_pipe buffer 0 length
      else (if below 0 length
          then read_from length false k p.in_pipe buffer 0 length
          else (buffer, 0, returned k 0))
