-- ===== src/Kernel/Invariant/Performed.antt =====
-- Each system call of Kernel/irqDispatcher.c keeps the process table in order.
use peps_os.Common.{
  ℕ, ◌+◌, ◌<◌, ◌≤◌, ap, ◌≡◌, sym, subst, arith, Option, none, some, inl, inr, ◌==◌, Bool-cases,
  u32_mod,
}
use peps_os.Memory.{Allocator}
use peps_os.Scheduler.Table.{Process, Sched, at, background, foreground, ProcessType}
use peps_os.Scheduler.Create.{
  Request, create_process, create_process_with_pipes, create_background_process,
  create_foreground_process,
}
use peps_os.Scheduler.Kill.{Outcome, after, kill, exit}
use peps_os.Scheduler.Invariant.System
use peps_os.Scheduler.Invariant.System.{Inv, perform-Inv, block_Inv, unblock_Inv, create_Inv}
use peps_os.Scheduler.Invariant.Creates.{HasRoomFor, create_process-Creates, create_process-heap}
use peps_os.Scheduler.Info.{get_all_process_info}
use peps_os.Sem.{Sems, Attempt, passes, misses, sem_wait, sem_post}
use peps_os.Kernel.Streams.{system_read}
use peps_os.Kernel.{
  bytes, Kernel, Memory, Places, Store, Result, returned, gone, again, posting, ticking, sched_of,
  signed_32, signed_8,
}
use peps_os.Kernel.Numbers.{
  Call, call_of, printing_regs, clearing, drawing_rectangle, drawing_circle, drawing_face,
  getting_char, waiting_ticks, getting_ticks, setting_size, beeping, getting_width, getting_height,
  deleting_letter, drawing_letter, getting_size, setting_x, setting_y, getting_x, getting_y,
  getting_bg, getting_fg, pointing_fg, pointing_x, pointing_y, setting_fg, setting_bg,
  putting_pixels, getting_seconds, painting, printing_integer, formatting_letter, formatting_string,
  formatting_integer, getting_minutes, getting_hours, getting_day, getting_month, getting_year,
  allocating, getting_pid, creating_background, creating_foreground, exiting, freeing, opening_sem,
  closing_sem, creating_sem, posting_sem, waiting_sem, opening_pipe, closing_pipe, writing_pipe,
  reading_pipe, changing_priority, listing, killing, blocking, unblocking, yielding,
  getting_mem_state, printing_process, sleeping, printing_hex, printing_long, waiting_kids,
  starting_gameplay, ending_gameplay, breaking_line, getting_sem_index, writing, reading,
  resetting_color, setting_color, creating_with_pipes,
}
use peps_os.Kernel.Calls.{
  Args, perform, perform_known, int_80, of_outcome, of_attempt, of_post, stored, ignored, u32,
  request, pipes_at,
}
use peps_os.Kernel.Invariant.Sems.{
  Tries, with_heap-Inv, create_sem-sched, sem_open-sched, sem_close-Runs, sem_wait-Tries,
  sem_post-Tries,
}
use peps_os.Kernel.Invariant.Pipes.{
  open_pipe-GoesOn, close_pipe-GoesOn, read_pipe-GoesOn, write_to_pipe-GoesOn,
}
use peps_os.Kernel.Invariant.Streams.{
  IsOrdered, of_progress-Ordered, system_write-Ordered, system_read-Ordered,
}

-- The processes that a call creates.
abbrev pub processes_made : Call → ℕ
processes_made creating_background = 1
processes_made creating_foreground = 1
processes_made creating_with_pipes = 2
processes_made c = 0

abbrev pub made_by : Option Call → ℕ
made_by none = 0
made_by (some c) = processes_made c

module _ {H : Type 0} where
  of_outcome-Ordered :
      (k : Kernel H) (o : Outcome (Sched H)) → Inv (after o) → IsOrdered (of_outcome k o)
  unfolding of_outcome
  of_outcome-Ordered k (Outcome.returns s n) v = v
  of_outcome-Ordered k (Outcome.gone s) v = v

  of_attempt-Ordered :
      (p : Process) (k : Kernel H) (a : Attempt (Sems H)) → Tries p a → IsOrdered (of_attempt k a)
  unfolding of_attempt
  of_attempt-Ordered p k (passes s n) (v, e) = v
  of_attempt-Ordered p k (misses s) v = v

  of_post-Ordered :
      (p : Process) (k : Kernel H) (a : Attempt (Sems H)) → Tries p a → IsOrdered (of_post k a)
  unfolding of_post
  of_post-Ordered p k (passes s n) (v, e) = v
  of_post-Ordered p k (misses s) v = v

  stored-Ordered : (st : Store) (r : Result (Kernel H)) → IsOrdered r → IsOrdered (stored st r)
  unfolding stored
  stored-Ordered st (returned k n) v = v
  stored-Ordered st (gone k) v = v
  stored-Ordered st (again k) v = v
  stored-Ordered st (posting k n) v = v
  stored-Ordered st (ticking k start time) v = v

module _ {H : Type 0} ⦃m : Allocator H⦄ where
  next_pid-create_process :
      (s : Sched H) (p : Process) (r : Request) (priority : ℕ) (tipo : ProcessType)
      (pipes : Option (ℕ × ℕ))
      → s.running ≡ at p
      → HasRoomFor 1 s.heap
      → Inv s
      → (create_process s r priority tipo pipes).0.next_pid ≤ s.next_pid + 1
  next_pid-create_process s p r priority tipo pipes e room v =
      elim (create_process-Creates s p e r priority tipo pipes v.valid v.fresh room) [
        | inl (_, _, same) ↦ omega (arith, ap (λ t. t.next_pid) same)
        | inr (_, _, g) ↦ omega (arith, g.next)
      ]

  create_two-Inv :
      (s : Sched H) (p : Process) (r1 r2 : Request) (pipes1 pipes2 : Option (ℕ × ℕ))
      → s.running ≡ at p
      → s.next_pid + 2 < u32_mod
      → HasRoomFor 2 s.heap
      → Inv s
      → Inv (create_process_with_pipes s r1 r2 pipes1 pipes2)
  unfolding create_process_with_pipes
  create_two-Inv s p r1 r2 pipes1 pipes2 e lt (start, (address, room)) v =
      let one_room : HasRoomFor 1 s.heap = (start, (address, tt)) in
      let (v1, (p1, e1)) = create_Inv s p r1 0 foreground pipes1 e (omega arith) one_room v in
      let s1 = (create_process s r1 0 foreground pipes1).0 in
      let (v2, (p2, e2)) =
        create_Inv s1 p1 r2 0 foreground pipes2 e1
          (omega (arith, lt, next_pid-create_process s p r1 0 foreground pipes1 e one_room v))
          (subst (HasRoomFor 1) (sym (create_process-heap s r1 foreground pipes1)) room) v1 in
      block_Inv _ p2 _ e2 v2

module _ {H : Type 0} ⦃m : Allocator H⦄ (mem_state : H → ℕ × ℕ × ℕ) (clock : ℕ → ℕ) (mem : Memory)
    (places : Places) (p : Process) where
  perform-Ordered :
      (c : Call) (a : Args) (k : Kernel H)
      → (sched_of k).running ≡ at p
      → (sched_of k).next_pid + 2 < u32_mod
      → HasRoomFor (processes_made c) (sched_of k).heap
      → Inv (sched_of k)
      → IsOrdered (perform mem_state clock mem places c a k)
  unfolding perform create_background_process create_foreground_process create_process_with_pipes
      System.perform get_all_process_info
  perform-Ordered printing_regs a k e lt room v = v
  perform-Ordered clearing a k e lt room v = v
  perform-Ordered drawing_rectangle a k e lt room v = v
  perform-Ordered drawing_circle a k e lt room v = v
  perform-Ordered drawing_face a k e lt room v = v
  perform-Ordered getting_char a k e lt room v = v
  perform-Ordered waiting_ticks a k e lt room v = elim (Bool-cases (signed_32 (u32 a.rsi) == 0)) [
    | inl z ↦ rw z v
    | inr z ↦ rw z v
  ]
  perform-Ordered getting_ticks a k e lt room v = v
  perform-Ordered setting_size a k e lt room v = v
  perform-Ordered beeping a k e lt room v = v
  perform-Ordered getting_width a k e lt room v = v
  perform-Ordered getting_height a k e lt room v = v
  perform-Ordered deleting_letter a k e lt room v = v
  perform-Ordered drawing_letter a k e lt room v = v
  perform-Ordered getting_size a k e lt room v = v
  perform-Ordered setting_x a k e lt room v = v
  perform-Ordered setting_y a k e lt room v = v
  perform-Ordered getting_x a k e lt room v = v
  perform-Ordered getting_y a k e lt room v = v
  perform-Ordered getting_bg a k e lt room v = v
  perform-Ordered getting_fg a k e lt room v = v
  perform-Ordered pointing_fg a k e lt room v = v
  perform-Ordered pointing_x a k e lt room v = v
  perform-Ordered pointing_y a k e lt room v = v
  perform-Ordered setting_fg a k e lt room v = v
  perform-Ordered setting_bg a k e lt room v = v
  perform-Ordered putting_pixels a k e lt room v = v
  perform-Ordered getting_seconds a k e lt room v = v
  perform-Ordered painting a k e lt room v = v
  perform-Ordered printing_integer a k e lt room v = v
  perform-Ordered formatting_letter a k e lt room v = v
  perform-Ordered formatting_string a k e lt room v = v
  perform-Ordered formatting_integer a k e lt room v = v
  perform-Ordered getting_minutes a k e lt room v = v
  perform-Ordered getting_hours a k e lt room v = v
  perform-Ordered getting_day a k e lt room v = v
  perform-Ordered getting_month a k e lt room v = v
  perform-Ordered getting_year a k e lt room v = v
  perform-Ordered allocating a k e lt room v =
      let s = sched_of k in with_heap-Inv s (m.alloc_memory a.rsi s.heap).1 v
  perform-Ordered getting_pid a k e lt room v = v
  perform-Ordered creating_background a k e lt room v =
      let s = sched_of k in
      (create_Inv s p (request mem a.rsi a.rdx a.rcx) (u32 a.r8) background (pipes_at mem a.r9) e
        (omega arith) room v).0
  perform-Ordered creating_foreground a k e lt room v =
      let s = sched_of k in
      perform-Inv s p
        (System.runs_in_front (request mem a.rsi a.rdx a.rcx) (u32 a.r8) (pipes_at mem a.r9)) e
        (omega arith, room) v
  perform-Ordered exiting a k e lt room v =
      let s = sched_of k in of_outcome-Ordered k (exit s) (perform-Inv s p System.exits e tt v)
  perform-Ordered freeing a k e lt room v =
      let s = sched_of k in with_heap-Inv s (m.free_memory a.rsi s.heap) v
  perform-Ordered opening_sem a k e lt room v =
      subst Inv (sym (sem_open-sched k.pipes.sems (u32 a.rsi) (mem.text_at a.rdx))) v
  perform-Ordered closing_sem a k e lt room v =
      (sem_close-Runs p k.pipes.sems (mem.text_at a.rsi) (v, e)).0
  perform-Ordered creating_sem a k e lt room v =
      subst Inv (sym (create_sem-sched k.pipes.sems a.rsi _)) v
  perform-Ordered posting_sem a k e lt room v =
      of_post-Ordered p k (sem_post k.pipes.sems (u32 a.rsi))
        (sem_post-Tries p k.pipes.sems (u32 a.rsi) (v, e))
  perform-Ordered waiting_sem a k e lt room v =
      of_attempt-Ordered p k (sem_wait k.pipes.sems (u32 a.rsi))
        (sem_wait-Tries p k.pipes.sems (u32 a.rsi) (v, e))
  perform-Ordered opening_pipe a k e lt room v =
      of_progress-Ordered p k signed_32 _ (open_pipe-GoesOn p k.pipes (mem.text_at a.rsi) (v, e))
  perform-Ordered closing_pipe a k e lt room v =
      of_progress-Ordered p k ignored _ (close_pipe-GoesOn p k.pipes (u32 a.rsi) (v, e))
  perform-Ordered writing_pipe a k e lt room v =
      of_progress-Ordered p k ignored _
        (write_to_pipe-GoesOn p k.pipes (u32 a.rsi) (mem.text_at a.rdi) (v, e))
  perform-Ordered reading_pipe a k e lt room v =
      of_progress-Ordered p k signed_8 _ (read_pipe-GoesOn p k.pipes (u32 a.rsi) (v, e))
  perform-Ordered changing_priority a k e lt room v =
      let s = sched_of k in perform-Inv s p (System.changes_priority (u32 a.rsi) (u32 a.rdx)) e tt v
  perform-Ordered listing a k e lt room v = let s = sched_of k in with_heap-Inv s _ v
  perform-Ordered killing a k e lt room v =
      let s = sched_of k in
      of_outcome-Ordered k (kill s (u32 a.rsi)) (perform-Inv s p (System.kills (u32 a.rsi)) e tt v)
  perform-Ordered blocking a k e lt room v = let s = sched_of k in block_Inv s p (u32 a.rsi) e v
  perform-Ordered unblocking a k e lt room v = let s = sched_of k in unblock_Inv s (u32 a.rsi) v
  perform-Ordered yielding a k e lt room v =
      let s = sched_of k in perform-Inv s p System.yields e tt v
  perform-Ordered getting_mem_state a k e lt room v = v
  perform-Ordered printing_process a k e lt room v = v
  perform-Ordered sleeping a k e lt room v =
      let s = sched_of k in perform-Inv s p (System.sleeps (u32 a.rsi)) e tt v
  perform-Ordered printing_hex a k e lt room v = v
  perform-Ordered printing_long a k e lt room v = v
  perform-Ordered waiting_kids a k e lt room v =
      let s = sched_of k in perform-Inv s p System.waits e tt v
  perform-Ordered starting_gameplay a k e lt room v = v
  perform-Ordered ending_gameplay a k e lt room v = v
  perform-Ordered breaking_line a k e lt room v = v
  perform-Ordered getting_sem_index a k e lt room v = v
  perform-Ordered writing a k e lt room v = system_write-Ordered p k (mem.text_at a.rsi) (v, e)
  perform-Ordered reading a k e lt room v =
      stored-Ordered (bytes a.rsi (system_read k (mem.text_at a.rsi) (u32 a.rdx)).0)
        (system_read k (mem.text_at a.rsi) (u32 a.rdx)).2
        (system_read-Ordered p k (mem.text_at a.rsi) (u32 a.rdx) (v, e))
  perform-Ordered resetting_color a k e lt room v = v
  perform-Ordered setting_color a k e lt room v = v
  perform-Ordered creating_with_pipes a k e lt room v =
      create_two-Inv (sched_of k) p _ _ _ _ e lt room v

  -- A system call of the process that runs, with two pids left at least, keeps the process table in
  -- order: whatever it is, returns, ends its caller or blocks it.
  pub int_80-Ordered :
      (a : Args) (k : Kernel H)
      → (sched_of k).running ≡ at p
      → (sched_of k).next_pid + 2 < u32_mod
      → HasRoomFor (made_by (call_of a.rdi)) (sched_of k).heap
      → Inv (sched_of k)
      → IsOrdered (int_80 mem_state clock mem places a k)
  unfolding int_80
  int_80-Ordered a k e lt room v = by_case (call_of a.rdi) room
    where
      by_case :
          (o : Option Call)
          → HasRoomFor (made_by o) (sched_of k).heap
          → IsOrdered (perform_known mem_state clock mem places o a k)
      by_case none r = v
      by_case (some c) r = perform-Ordered c a k e lt r v
