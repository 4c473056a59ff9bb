-- ===== src/Scheduler/Priorities.antt =====
-- Kernel/scheduler.c: `changePriority` and its two searches.
use peps_os.Common.{
  ℕ, suc, ◌||◌, Option, none, some, List, [], ◌∷◌, ◌==◌, leb, if◌then◌else◌, is_negative,
}
use peps_os.Scheduler.Table.{
  Process, ReadyList, ProcessTable, current, set_current, set_queue, max_priority,
}
use peps_os.Scheduler.Queues.{enqueue, pop_to}
use peps_os.Scheduler.Unlink.{Unlinked, unlink_after}

unfoldable pub set_priority_in : ℕ → ℕ → List Process → Option (List Process)
set_priority_in pid priority [] = none
set_priority_in pid priority (p ∷ ps) =
    if p.pid == pid
    then some (record p { priority = priority } ∷ ps)
    else (elim (set_priority_in pid priority ps) [ none ↦ none | some r ↦ some (p ∷ r) ])

unfoldable pub blocked_changed : ProcessTable → Option (List Process) → ProcessTable × ℕ
blocked_changed t none = (t, 0)
blocked_changed t (some l) = (record t { blocked = l }, 1)

-- `changeBlockedProcessPriority`.
unfoldable pub change_blocked_process_priority : ProcessTable → ℕ → ℕ → ProcessTable × ℕ
unfolding blocked_changed
change_blocked_process_priority t pid priority =
    blocked_changed t (set_priority_in pid priority t.blocked)

abbrev pub prioritise : ℕ → Option Unlinked → Option Unlinked
prioritise priority none = none
prioritise priority (some u) = some (record u { node = record u.node { priority = priority } })

-- One list: a process at its head keeps its `priority` field, one behind the head has it set.
unfoldable pub unlink_to_change_on : ℕ → ℕ → ReadyList → List Process → Option Unlinked
unlink_to_change_on pid priority q [] = none
unlink_to_change_on pid priority q (p ∷ ps) =
    if p.pid == pid
    then some (record { node = p; rest = ps; tail = (pop_to ps q).last_ready })
    else prioritise priority (unlink_after pid q.last_ready p ps)

unfoldable pub unlink_to_change : ℕ → ℕ → ReadyList → Option Unlinked
unfolding unlink_to_change_on
unlink_to_change pid priority q = unlink_to_change_on pid priority q q.ready

-- The process goes to the end of list number `priority`.
unfoldable pub move_to : ProcessTable → ℕ → ℕ → Unlinked → ProcessTable
move_to t i priority u =
    enqueue (set_queue t i (record { ready = u.rest; last_ready = u.tail })) priority u.node

unfoldable pub moved : ProcessTable → ℕ → ℕ → Option Unlinked → ProcessTable × ℕ → ProcessTable × ℕ
moved t i priority (some u) later = (move_to t i priority u, 1)
moved t i priority none later = later

-- The loop over the lists from number `i` on.
unfoldable pub change_from : List ReadyList → ℕ → ℕ → ℕ → ProcessTable → ProcessTable × ℕ
unfolding moved
change_from [] i pid priority t = (t, 0)
change_from (q ∷ qs) i pid priority t =
    moved t i priority (unlink_to_change pid priority q) (change_from qs (suc i) pid priority t)

-- `changeReadyProcessPriority`.
unfoldable pub change_ready_process_priority : ProcessTable → ℕ → ℕ → ProcessTable × ℕ
change_ready_process_priority t pid priority = change_from t.priority_queue 0 pid priority t

-- `if (!wasChanged) wasChanged = changeReadyProcessPriority(pid, priority);`.
unfoldable pub ready_unless : ℕ → ℕ → ProcessTable × ℕ → ProcessTable × ℕ
ready_unless pid priority (t, was_changed) =
    if was_changed == 0 then change_ready_process_priority t pid priority else (t, was_changed)

-- `changePriority`.
unfoldable pub change_priority : ProcessTable → ℕ → ℕ → ProcessTable × ℕ
unfolding ready_unless
change_priority t pid priority =
    if is_negative priority || leb max_priority priority
    then (t, 0)
    else (if (current t).pid == pid
        then (set_current (record (current t) { priority = priority }) t, 1)
        else ready_unless pid priority (change_blocked_process_priority t pid priority))
