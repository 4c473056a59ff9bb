-- ===== src/Scheduler/Kill.antt =====
-- Kernel/scheduler.c: `killBlocked`, `killReady`, `kill` and `exit`.
use peps_os.Common.{ℕ, Option, none, some, ◌==◌, if◌then◌else◌, dec32}
use peps_os.Memory.{Allocator}
use peps_os.Scheduler.Table.{Process, Sched, exited, current, set_current, console_pid}
use peps_os.Scheduler.Unlink.{Unlinked, UnlinkedQueues, unlink_blocked, unlink_queues}
use peps_os.Scheduler.Timer.{unblock, unblock_in}
use peps_os.Scheduler.Switch.{fire_timer_int}
use peps_os.Scheduler.Kids.{decrement_kids_count}

-- A system call comes back to its caller with a value, or the caller is gone.
pub data Outcome (S : Type 0) : Type 0 where
  returns : S → ℕ → Outcome S
  gone : S → Outcome S

-- The state in which the system goes on.
abbrev pub after : {S : Type 0} → Outcome S → S
after (returns s n) = s
after (gone s) = s

module _ {H : Type 0} ⦃m : Allocator H⦄ where
  -- `freeMemory(p->memStartAdress); freeMemory(p);`.
  abbrev pub release : Process → H → H
  release p heap = m.free_memory p.address (m.free_memory p.mem_start_adress heap)

  -- The process that was killed is handed out beside the state, for its parent's pid.
  unfoldable pub kill_blocked_on : Sched H → Option Unlinked → Sched H × Option ℕ
  kill_blocked_on s none = (s, none)
  kill_blocked_on s (some u) = (
    record s { heap = release u.node s.heap; pcb = record s.pcb { blocked = u.rest } },
    some u.node.parent_pid,
  )

  -- `killBlocked`: `none` stands for 0, `some parent` for 1 with `*parent` set.
  unfoldable pub kill_blocked : Sched H → ℕ → Sched H × Option ℕ
  unfolding kill_blocked_on
  kill_blocked s pid = kill_blocked_on s (unlink_blocked pid s.pcb.blocked)

  unfoldable pub kill_ready_on : Sched H → Option UnlinkedQueues → Sched H × Option ℕ
  kill_ready_on s none = (s, none)
  kill_ready_on s (some u) = (
    record s { heap = release u.node s.heap; pcb = record s.pcb { priority_queue = u.queues } },
    some u.node.parent_pid,
  )

  -- `killReady`.
  unfoldable pub kill_ready : Sched H → ℕ → Sched H × Option ℕ
  unfolding kill_ready_on
  kill_ready s pid = kill_ready_on s (unlink_queues pid s.priority_queue)

  -- `if (!wasKilled) wasKilled = killReady(pid, &parentPid);`.
  unfoldable pub kill_or_ready : ℕ → Sched H × Option ℕ → Sched H × Option ℕ
  kill_or_ready pid (s, none) = kill_ready s pid
  kill_or_ready pid (s, some parent) = (s, some parent)

  unfoldable pub after_kill : Sched H × Option ℕ → Sched H × ℕ
  after_kill (s, none) = (s, 0)
  after_kill (s, some parent) =
      let t = record s.pcb { process_count = dec32 s.process_count } in
      (record s { pcb = (unblock (decrement_kids_count t parent) parent).0 }, 1)

  -- `kill` of a process that does not run.
  unfoldable pub kill_other : Sched H → ℕ → Sched H × ℕ
  unfolding kill_or_ready after_kill
  kill_other s pid = after_kill (kill_or_ready pid (kill_blocked s pid))

  abbrev pub set_exited : Sched H → Sched H
  set_exited s = record s { pcb = set_current (record (current s.pcb) { state = exited }) s.pcb }

  -- `kill`. An exited process does not come back from `fireTimerInt`.
  unfoldable pub kill : Sched H → ℕ → Outcome (Sched H)
  kill s pid =
      if pid == console_pid
      then returns s 0
      else (if (current s.pcb).pid == pid
          then (let s' = set_exited s in
              gone (fire_timer_int (unblock_in s' (current s'.pcb).parent_pid)))
          else returns (kill_other s pid).0 (kill_other s pid).1)

  -- `exit`.
  unfoldable pub exit : Sched H → Outcome (Sched H)
  exit s =
      let s' = set_exited s in
      let s'' = unblock_in s' (current s'.pcb).parent_pid in
      gone (
        fire_timer_int
          (record s'' { pcb = decrement_kids_count s''.pcb (current s''.pcb).parent_pid }))
