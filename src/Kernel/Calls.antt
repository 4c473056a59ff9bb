-- ===== src/Kernel/Calls.antt =====
-- `int_80` and `irqDispatcher` of Kernel/irqDispatcher.c: what each system call does to the kernel.
use peps_os.Common.{
  ℕ, ◌-◌, ◌%◌, Option, none, some, [], ◌∷◌, ◌==◌, if◌then◌else◌, get_or, u32_mod, u64_mod,
}
use peps_os.Memory.{Allocator}
use peps_os.Clib.{get_kb_char}
use peps_os.Scheduler.Table.{Sched}
use peps_os.Scheduler.Timer.{unblock, timer_handler}
use peps_os.Scheduler.Switch.{block, yield, sleep, wait}
use peps_os.Scheduler.Create.{
  Request, create_background_process, create_foreground_process, create_process_with_pipes,
}
use peps_os.Scheduler.Kill.{Outcome, kill, exit}
use peps_os.Scheduler.Priorities.{change_priority}
use peps_os.Scheduler.Info.{get_pid, get_all_process_info}
use peps_os.Sem.{
  Sems, Attempt, passes, misses, create_sem, sem_open, sem_close, sem_post, sem_wait, get_sem_indx,
}
use peps_os.Pipes.{open_pipe, close_pipe, write_to_pipe, read_pipe}
use peps_os.Keyboard.{Keyboard, gameplay_on, gameplay_off, key_act}
use peps_os.Console.{
  Video, clear, set_size, set_x_buffer, set_y_buffer, delete_letter_buffered, draw_letter_from_char,
  print_integer, print_hex, print_long_long_int, draw_letter_formatted, draw_string_formatted,
  print_int_formatted, new_line, color_reset, set_color,
}
use peps_os.Console.Shapes.{
  draw_rectangle, draw_circle, draw_face, paint_screen, putpixel_resizable,
}
use peps_os.Console.Reports.{print_regs, print_process_info, clock_read}
use peps_os.Kernel.Numbers.{
  Call, call_of, printing_regs, clearing, drawing_rectangle, drawing_circle, drawing_face,
  getting_char, waiting_ticks, getting_ticks, setting_size, beeping, getting_width, getting_height,
  deleting_letter, drawing_letter, getting_size, setting_x, setting_y, getting_x, getting_y,
  getting_bg, getting_fg, pointing_fg, pointing_x, pointing_y, setting_fg, setting_bg,
  putting_pixels, getting_seconds, painting, printing_integer, formatting_letter, formatting_string,
  formatting_integer, getting_minutes, getting_hours, getting_day, getting_month, getting_year,
  allocating, getting_pid, creating_background, creating_foreground, exiting, freeing, opening_sem,
  closing_sem, creating_sem, posting_sem, waiting_sem, opening_pipe, closing_pipe, writing_pipe,
  reading_pipe, changing_priority, listing, killing, blocking, unblocking, yielding,
  getting_mem_state, printing_process, sleeping, printing_hex, printing_long, waiting_kids,
  starting_gameplay, ending_gameplay, breaking_line, getting_sem_index, writing, reading,
  resetting_color, setting_color, creating_with_pipes,
}
use peps_os.Kernel.Streams.{of_progress, system_write, system_read}
use peps_os.Kernel.{
  Kernel, Memory, Places, Store, word, bytes, infos, sched_of, set_sched, set_sems, Result,
  returned, gone, again, posting, ticking, signed_32, signed_8,
}

-- The registers of a system call behind its number.
pub record Args : Type 0 where
  pub rdi : ℕ
  pub rsi : ℕ
  pub rdx : ℕ
  pub rcx : ℕ
  pub r8 : ℕ
  pub r9 : ℕ

abbrev pub u32 : ℕ → ℕ
u32 n = n % u32_mod

abbrev pub ignored : ℕ → ℕ
ignored n = 0

abbrev pub of_index : Option ℕ → ℕ
of_index none = u64_mod - 1
of_index (some i) = i

module _ {H : Type 0} where
  -- A case that ends in `break`.
  abbrev pub done : Kernel H → Result (Kernel H)
  done k = returned k 0

  abbrev pub drawn : Kernel H → Video → Result (Kernel H)
  drawn k v = done (record k { video = v })

  abbrev pub scheduled : Kernel H → (ℕ → ℕ) → Sched H × ℕ → Result (Kernel H)
  scheduled k f (s, n) = returned (set_sched k s) (f n)

  unfoldable pub of_outcome : Kernel H → Outcome (Sched H) → Result (Kernel H)
  of_outcome k (Outcome.returns s n) = returned (set_sched k s) (signed_32 n)
  of_outcome k (Outcome.gone s) = gone (set_sched k s)

  unfoldable pub of_attempt : Kernel H → Attempt (Sems H) → Result (Kernel H)
  of_attempt k (passes s n) = returned (set_sems k s) 0
  of_attempt k (misses s) = again (set_sems k s)

  -- A `sem_post` that misses is still to be done from `enter_region` on.
  unfoldable pub of_post : Kernel H → Attempt (Sems H) → Result (Kernel H)
  of_post k (passes s n) = returned (set_sems k s) 0
  of_post k (misses s) = posting (set_sems k s) 0

  -- The result of a call that stored something on its way.
  abbrev pub with_store : Store → Kernel H → Kernel H
  with_store st k = record k { stores = st ∷ k.stores }

  unfoldable pub stored : Store → Result (Kernel H) → Result (Kernel H)
  stored st (returned k n) = returned (with_store st k) n
  stored st (gone k) = gone (with_store st k)
  stored st (again k) = again (with_store st k)
  stored st (posting k n) = posting (with_store st k) n
  stored st (ticking k start time) = ticking (with_store st k) start time

-- The pipes that `rw_pipes` leads to.
abbrev pub pipes_at : Memory → ℕ → Option (ℕ × ℕ)
pipes_at mem address =
    if address == 0
    then none
    else some (get_or (mem.ints_at address) 0 0, get_or (mem.ints_at address) 1 0)

abbrev pub request : Memory → ℕ → ℕ → ℕ → Request
request mem process argc argv = record {
  process = process;
  argc = u32 argc;
  argv = mem.words_at argv;
}

module _ {H : Type 0} ⦃m : Allocator H⦄ (mem_state : H → ℕ × ℕ × ℕ) (clock : ℕ → ℕ) (mem : Memory)
    (places : Places) where
  unfoldable pub mem_state_told : Kernel H → Args → ℕ × ℕ × ℕ → Result (Kernel H)
  mem_state_told k a (free, total, allocated) =
      done
        (record k { stores = word a.rcx allocated ∷ word a.rdx total ∷ word a.rsi free ∷ k.stores })

  -- The `switch` of `int_80`.
  unfoldable pub perform : Call → Args → Kernel H → Result (Kernel H)
  unfolding of_outcome of_attempt of_post of_progress mem_state_told stored
  perform printing_regs a k = drawn k (print_regs k.registers k.video)
  perform clearing a k = drawn k (clear k.video)
  perform drawing_rectangle a k =
      drawn k (draw_rectangle k.video (u32 a.rsi) (u32 a.rdx) (u32 a.rcx) (u32 a.r8) (u32 a.r9))
  perform drawing_circle a k =
      drawn k (draw_circle k.video (u32 a.rsi) (u32 a.rdx) (u32 a.rcx) (u32 a.r8))
  perform drawing_face a k = drawn k (draw_face k.video (u32 a.rsi) (u32 a.rdx) (u32 a.rcx))
  perform getting_char a k =
      let (c, keys) = get_kb_char k.keyboard.keys in
      returned (record k { keyboard = record k.keyboard { keys = keys } }) (signed_8 c)
  perform waiting_ticks a k =
      if signed_32 (u32 a.rsi) == 0
      then done k
      else ticking k (signed_32 (u32 (sched_of k).ticks)) (signed_32 (u32 a.rsi))
  perform getting_ticks a k = returned k (signed_32 (u32 (sched_of k).ticks))
  perform setting_size a k = drawn k (set_size k.video (u32 a.rsi))
  perform beeping a k = done (record k { beeps = (u32 a.rsi, a.rdx % 256) ∷ k.beeps })
  perform getting_width a k = returned k k.video.width
  perform getting_height a k = returned k k.video.height
  perform deleting_letter a k = drawn k (delete_letter_buffered k.video)
  perform drawing_letter a k = drawn k (draw_letter_from_char k.video (a.rsi % 256))
  perform getting_size a k = returned k (signed_32 k.video.size)
  perform setting_x a k = drawn k (set_x_buffer k.video a.rsi)
  perform setting_y a k = drawn k (set_y_buffer k.video a.rsi)
  perform getting_x a k = returned k k.video.x
  perform getting_y a k = returned k k.video.y
  perform getting_bg a k = returned k k.video.bg
  perform getting_fg a k = returned k k.video.fg
  perform pointing_fg a k = returned k places.fg_color
  perform pointing_x a k = returned k places.x_buffer
  perform pointing_y a k = returned k places.y_buffer
  perform setting_fg a k = drawn k (record k.video { fg = u32 a.rsi })
  perform setting_bg a k = drawn k (record k.video { bg = u32 a.rsi })
  perform putting_pixels a k =
      drawn k (putpixel_resizable k.video (u32 a.rsi) (u32 a.rdx) (u32 a.rcx) (u32 a.r8))
  perform getting_seconds a k = returned k (clock_read clock 0)
  perform painting a k = drawn k (paint_screen k.video (u32 a.rsi))
  perform printing_integer a k = drawn k (print_integer k.video (u32 a.rsi))
  perform formatting_letter a k =
      drawn k (draw_letter_formatted k.video (a.rsi % 256) (u32 a.rdx) (u32 a.rcx) (u32 a.r8))
  perform formatting_string a k =
      drawn k (draw_string_formatted k.video (mem.text_at a.rsi) (u32 a.rdx) (u32 a.rcx) (u32 a.r8))
  perform formatting_integer a k =
      drawn k (print_int_formatted k.video (u32 a.rsi) (u32 a.rdx) (u32 a.rcx) (u32 a.r8))
  perform getting_minutes a k = returned k (clock_read clock 2)
  perform getting_hours a k = returned k (clock_read clock 4)
  perform getting_day a k = returned k (clock_read clock 7)
  perform getting_month a k = returned k (clock_read clock 8)
  perform getting_year a k = returned k (clock_read clock 9)
  perform allocating a k =
      let (address, heap) = m.alloc_memory a.rsi (sched_of k).heap in
      returned (set_sched k (record (sched_of k) { heap = heap })) address
  perform getting_pid a k = returned k (signed_32 (get_pid (sched_of k).pcb))
  perform creating_background a k = scheduled k signed_32 (
      create_background_process (sched_of k) (request mem a.rsi a.rdx a.rcx) (u32 a.r8)
        (pipes_at mem a.r9))
  perform creating_foreground a k = scheduled k signed_32 (
      create_foreground_process (sched_of k) (request mem a.rsi a.rdx a.rcx) (u32 a.r8)
        (pipes_at mem a.r9))
  perform exiting a k = of_outcome k (exit (sched_of k))
  perform freeing a k =
      let s = sched_of k in done (set_sched k (record s { heap = m.free_memory a.rsi s.heap }))
  perform opening_sem a k =
      let (i, s) = sem_open k.pipes.sems (u32 a.rsi) (mem.text_at a.rdx) in
      returned (set_sems k s) (signed_32 i)
  perform closing_sem a k = done (set_sems k (sem_close k.pipes.sems (mem.text_at a.rsi)).1)
  perform creating_sem a k =
      let id = if a.rdx == 0 then none else some (mem.text_at a.rdx) in
      let (i, s) = create_sem k.pipes.sems a.rsi id in returned (set_sems k s) i
  perform posting_sem a k = of_post k (sem_post k.pipes.sems (u32 a.rsi))
  perform waiting_sem a k = of_attempt k (sem_wait k.pipes.sems (u32 a.rsi))
  perform opening_pipe a k = of_progress k signed_32 (open_pipe k.pipes (mem.text_at a.rsi))
  perform closing_pipe a k = of_progress k ignored (close_pipe k.pipes (u32 a.rsi))
  -- The string is read at `rdi`, which holds the number of the call.
  perform writing_pipe a k =
      of_progress k ignored (write_to_pipe k.pipes (u32 a.rsi) (mem.text_at a.rdi)).1
  perform reading_pipe a k = of_progress k signed_8 (read_pipe k.pipes (u32 a.rsi))
  perform changing_priority a k =
      let (t, n) = change_priority (sched_of k).pcb (u32 a.rsi) (u32 a.rdx) in
      returned (set_sched k (record (sched_of k) { pcb = t })) n
  perform listing a k =
      let (s, l) = get_all_process_info (sched_of k) in
      returned
        (record (set_sched k s) {
          stores = infos l.procs l.entries ∷ word a.rsi l.count ∷ k.stores;
        })
        l.procs
  perform killing a k = of_outcome k (kill (sched_of k) (u32 a.rsi))
  perform blocking a k = scheduled k signed_32 (block (sched_of k) (u32 a.rsi))
  perform unblocking a k =
      let (t, n) = unblock (sched_of k).pcb (u32 a.rsi) in
      returned (set_sched k (record (sched_of k) { pcb = t })) n
  perform yielding a k = done (set_sched k (yield (sched_of k)))
  perform getting_mem_state a k = mem_state_told k a (mem_state (sched_of k).heap)
  perform printing_process a k =
      let p = mem.process_info_at a.rsi in
      drawn k (print_process_info p (mem.text_at p.name) k.video)
  perform sleeping a k = done (set_sched k (sleep (sched_of k) (u32 a.rsi)))
  perform printing_hex a k = drawn k (print_hex k.video a.rsi)
  perform printing_long a k = drawn k (print_long_long_int k.video a.rsi)
  perform waiting_kids a k = scheduled k signed_32 (wait (sched_of k))
  perform starting_gameplay a k = done (record k { keyboard = gameplay_on k.keyboard })
  perform ending_gameplay a k = done (record k { keyboard = gameplay_off k.keyboard })
  perform breaking_line a k = drawn k (new_line k.video)
  perform getting_sem_index a k =
      returned k (of_index (get_sem_indx k.pipes.sems (mem.text_at a.rsi)))
  perform writing a k = (system_write k (mem.text_at a.rsi)).1
  perform reading a k =
      let (buffer, i, result) = system_read k (mem.text_at a.rsi) (u32 a.rdx) in
      stored (bytes a.rsi buffer) result
  perform resetting_color a k = drawn k (color_reset k.video)
  perform setting_color a k = drawn k (set_color k.video (u32 a.rsi) (u32 a.rdx))
  perform creating_with_pipes a k =
      let argcs = mem.ints_at a.rcx in
      let argvs = mem.words_at a.r8 in
      let pipes = mem.words_at a.r9 in
      done (
        set_sched k (
          create_process_with_pipes (sched_of k)
            (request mem a.rsi (get_or argcs 0 0) (get_or argvs 0 0))
            (request mem a.rdx (get_or argcs 1 0) (get_or argvs 1 0))
            (pipes_at mem (get_or pipes 0 0)) (pipes_at mem (get_or pipes 1 0))))

  abbrev pub perform_known : Option Call → Args → Kernel H → Result (Kernel H)
  perform_known none a k = done k
  perform_known (some c) a k = perform c a k

  -- `int_80`.
  unfoldable pub int_80 : Args → Kernel H → Result (Kernel H)
  unfolding perform
  int_80 a k = perform_known (call_of a.rdi) a k

  -- `int_21`: `keyAct` with the scan code, and what it writes to the pipe of the keyboard.
  abbrev pub typed : Kernel H → Option ℕ → Result (Kernel H)
  typed k none = done k
  typed k (some c) = of_progress k ignored (write_to_pipe k.pipes 0 (c ∷ 0 ∷ [])).1

  abbrev pub key_handled : Kernel H → Keyboard × Option ℕ → Result (Kernel H)
  key_handled k (keyboard, written) = typed (record k { keyboard = keyboard }) written

  -- `irqDispatcher`: the timer (0), the keyboard (1) and the system calls (96).
  unfoldable pub irq_dispatcher : ℕ → ℕ → ℕ → Args → Kernel H → Result (Kernel H)
  unfolding int_80
  irq_dispatcher unset scan irq a k =
      if irq == 0
      then done (set_sched k (timer_handler (sched_of k)))
      else (if irq == 1
          then key_handled k (key_act unset k.keyboard scan)
          else (if irq == 96 then int_80 a k else done k))
