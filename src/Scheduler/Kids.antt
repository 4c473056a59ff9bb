-- ===== src/Scheduler/Kids.antt =====
-- Kernel/scheduler.c: `decrementKidsCount` and its two searches.
use peps_os.Common.{ℕ, Option, none, some, List, [], ◌∷◌, ◌==◌, if◌then◌else◌, dec32}
use peps_os.Scheduler.Table.{Process, ReadyList, ProcessTable}

-- The first process with the pid has one child less; `none` if the list has no such process.
unfoldable pub decrement_in : ℕ → List Process → Option (List Process)
decrement_in pid [] = none
decrement_in pid (p ∷ ps) =
    if p.pid == pid
    then some (record p { kids_count = dec32 p.kids_count } ∷ ps)
    else (elim (decrement_in pid ps) [ none ↦ none | some r ↦ some (p ∷ r) ])

unfoldable pub blocked_with : ProcessTable → Option (List Process) → ProcessTable × ℕ
blocked_with t none = (t, 0)
blocked_with t (some l) = (record t { blocked = l }, 1)

-- `decrementKidsCountOnBlockedProcess`.
unfoldable pub decrement_kids_count_on_blocked_process : ProcessTable → ℕ → ProcessTable × ℕ
unfolding blocked_with
decrement_kids_count_on_blocked_process t pid = blocked_with t (decrement_in pid t.blocked)

unfoldable pub queues_with :
    ReadyList
    → List ReadyList
    → Option (List Process)
    → Option (List ReadyList)
    → Option (List ReadyList)
queues_with q qs (some l) later = some (record q { ready = l } ∷ qs)
queues_with q qs none none = none
queues_with q qs none (some r) = some (q ∷ r)

unfoldable pub decrement_in_queues : ℕ → List ReadyList → Option (List ReadyList)
unfolding queues_with
decrement_in_queues pid [] = none
decrement_in_queues pid (q ∷ qs) =
    queues_with q qs (decrement_in pid q.ready) (decrement_in_queues pid qs)

unfoldable pub table_with : ProcessTable → Option (List ReadyList) → ProcessTable × ℕ
table_with t none = (t, 0)
table_with t (some qs) = (record t { priority_queue = qs }, 1)

-- `decrementKidsCountOnReadyProcess`.
unfoldable pub decrement_kids_count_on_ready_process : ProcessTable → ℕ → ProcessTable × ℕ
unfolding table_with
decrement_kids_count_on_ready_process t pid =
    table_with t (decrement_in_queues pid t.priority_queue)

-- `if (!wasDecremented) decrementKidsCountOnReadyProcess(pid);`.
unfoldable pub on_ready_unless : ℕ → ProcessTable × ℕ → ProcessTable
on_ready_unless pid (t, was_decremented) =
    if was_decremented == 0 then (decrement_kids_count_on_ready_process t pid).0 else t

-- `decrementKidsCount`.
unfoldable pub decrement_kids_count : ProcessTable → ℕ → ProcessTable
unfolding on_ready_unless
decrement_kids_count t pid = on_ready_unless pid (decrement_kids_count_on_blocked_process t pid)
