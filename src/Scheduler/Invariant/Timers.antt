-- ===== src/Scheduler/Invariant/Timers.antt =====
-- `checkTimers` and `timer_handler` of Kernel/time.c on a sound table.
use peps_os.Common.{
  ℕ, ◌+◌, ◌%◌, ◌≡◌, ◌≢◌, refl, ◌∙◌, inl, inr, List, [], ◌∷◌, ◌++◌, map, arith, All, dec32, u64_mod,
  ◌==◌, Bool-cases,
}
use peps_os.Memory.{Allocator}
use peps_os.Scheduler.Table.{ProcessTable, ProcSleep, Sched}
use peps_os.Scheduler.Timer.{unblock, unblock_in, check_timers, timer_handler}
use peps_os.Scheduler.Invariant.{weigh_table, IsSound}
use peps_os.Scheduler.Invariant.Woken.{
  unblock-weigh, unblock-IsSound, unblock-running, unblock-count,
}

-- The entry after a tick, and whether that tick was its last.
abbrev pub ticked : ProcSleep → ProcSleep
ticked p = record p { ticks_left = dec32 p.ticks_left }

abbrev pub IsAsleep : ProcSleep → Type 0
IsAsleep p = dec32 p.ticks_left ≢ 0

module _ {H : Type 0} ⦃m : Allocator H⦄ where
  -- What the end of a sleep does to the state.
  abbrev pub wake_up : ProcSleep → Sched H → Sched H
  wake_up p s = record (unblock_in s p.pid) { heap = m.free_memory p.address s.heap }

  -- If the tick is the last one of no sleep, `checkTimers` counts down each entry and does nothing
  -- else.
  pub check_timers-asleep :
      (l : List ProcSleep) (s : Sched H) → All IsAsleep l → check_timers l s ≡ (map ticked l, s)
  unfolding check_timers
  check_timers-asleep [] s h = refl
  check_timers-asleep (p ∷ ps) s h = ground (arith, check_timers-asleep ps s h.1)

  -- If the tick is the last one of a sleep, and of none before it in the list, `checkTimers` counts
  -- down the entries before it, takes it out, frees it and unblocks its process; the entries behind
  -- it are not counted down.
  pub check_timers-first :
      (before : List ProcSleep) (p : ProcSleep) (after : List ProcSleep) (s : Sched H)
      → All IsAsleep before
      → dec32 p.ticks_left ≡ 0
      → check_timers (before ++ p ∷ after) s ≡ (map ticked before ++ after, wake_up p s)
  unfolding check_timers
  check_timers-first [] p after s h e = ground arith
  check_timers-first (b ∷ bs) p after s h e = ground (arith, check_timers-first bs p after s h.1 e)

  -- A relation between tables that every wake-up keeps is kept by the walk.
  check_timers_inv :
      (P : ProcessTable → Type 0)
      → ((t : ProcessTable) (pid : ℕ) → P t → P (unblock t pid).0)
      → (l : List ProcSleep) (s : Sched H) → P s.pcb
      → P (check_timers l s).1.pcb
  unfolding check_timers
  check_timers_inv P keep [] s h = h
  check_timers_inv P keep (p ∷ ps) s h = elim (Bool-cases (dec32 p.ticks_left == 0)) [
    | inl e ↦ rw e (keep s.pcb p.pid h)
    | inr e ↦ rw e (check_timers_inv P keep ps s h)
  ]

  -- On a sound table `timer_handler` leaves a sound one, with the same processes, the same one
  -- running, and the same `processCount`.
  pub timer_handler-keeps :
      (s : Sched H) (w : ℕ → ℕ)
      → IsSound s.pcb
      → let t = (timer_handler s).pcb in
        IsSound t
        × (weigh_table w t ≡ weigh_table w s.pcb)
        × (t.running ≡ s.pcb.running)
        × (t.process_count ≡ s.pcb.process_count)
  unfolding timer_handler
  timer_handler-keeps s w h =
      check_timers_inv
        (λ t.
          IsSound t
          × (weigh_table w t ≡ weigh_table w s.pcb)
          × (t.running ≡ s.pcb.running)
          × (t.process_count ≡ s.pcb.process_count))
        (λ t pid k. (
          unblock-IsSound t pid k.0,
          unblock-weigh t pid k.0 w ∙ k.1,
          unblock-running t pid k.0 ∙ k.2,
          unblock-count t pid k.0 ∙ k.3,
        ))
        s.sleeped (record s { ticks = (s.ticks + 1) % u64_mod }) (h, refl, refl, refl)
