-- ===== src/Scheduler/Timer.antt =====
-- `unblock` of Kernel/scheduler.c, and the sleeping processes of Kernel/time.c.
use peps_os.Common.{
  ℕ, ◌+◌, ◌%◌, Option, none, some, List, [], ◌∷◌, ◌==◌, if◌then◌else◌, u32_mod, u64_mod, dec32,
}
use peps_os.Memory.{Allocator}
use peps_os.Scheduler.Table.{ProcessTable, ProcSleep, Sched, ready, sizeof_proc_sleep}
use peps_os.Scheduler.Queues.{enqueue}
use peps_os.Scheduler.Unlink.{Unlinked, unlink_blocked}

make_ready : ProcessTable → Option Unlinked → ProcessTable × ℕ
make_ready t none = (t, 0)
make_ready t (some u) =
    (enqueue (record t { blocked = u.rest }) u.node.priority (record u.node { state = ready }), 1)

-- The table after the call, and 1 if the process was blocked, else 0.
unfoldable pub unblock : ProcessTable → ℕ → ProcessTable × ℕ
unfolding make_ready
unblock t pid = make_ready t (unlink_blocked pid t.blocked)

abbrev pub unblock_in : {H : Type 0} → Sched H → ℕ → Sched H
unblock_in s pid = record s { pcb = (unblock s.pcb pid).0 }

-- `setSleeped`.
abbrev pub set_sleeped : {H : Type 0} → Sched H → Sched H
set_sleeped s = record s { sleeped = [] }

-- The walk over the list: an entry with the pid gains the ticks, or there is none.
unfoldable pub add_to_sleep : ℕ → ℕ → List ProcSleep → Option (List ProcSleep)
add_to_sleep pid more [] = none
add_to_sleep pid more (p ∷ ps) =
    if p.pid == pid
    then some (record p { ticks_left = (p.ticks_left + more) % u32_mod } ∷ ps)
    else (elim (add_to_sleep pid more ps) [ none ↦ none | some r ↦ some (p ∷ r) ])

module _ {H : Type 0} ⦃m : Allocator H⦄ where
  -- `addProcSleep`. The result of `allocMemory` is not looked at: with a null one the list is null.
  unfoldable pub add_proc_sleep : Sched H → ℕ → ℕ → Sched H
  unfolding add_to_sleep
  add_proc_sleep s pid more = elim (add_to_sleep pid more s.sleeped) [
    | some l ↦ record s { sleeped = l }
    | none ↦
        let (address, heap) = m.alloc_memory sizeof_proc_sleep s.heap in
        record s {
          heap = heap;
          sleeped =
              if address == 0
              then []
              else record { pid = pid; ticks_left = more; address = address } ∷ s.sleeped;
        }
  ]

  -- `checkTimers`: the list that it returns, and the state.
  unfoldable pub check_timers : List ProcSleep → Sched H → List ProcSleep × Sched H
  check_timers [] s = ([], s)
  check_timers (p ∷ ps) s =
      let left = dec32 p.ticks_left in
      let rest = check_timers ps s in
      if left == 0
      then (ps, record (unblock_in s p.pid) { heap = m.free_memory p.address s.heap })
      else (record p { ticks_left = left } ∷ rest.0, rest.1)

  -- `timer_handler`.
  unfoldable pub timer_handler : Sched H → Sched H
  timer_handler s =
      let (l, s') = check_timers s.sleeped (record s { ticks = (s.ticks + 1) % u64_mod }) in
      record s' { sleeped = l }
