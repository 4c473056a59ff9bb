-- ===== src/Scheduler/Queues.antt =====
-- Kernel/scheduler.c: linking a process at the end of a ready list, as `unblock`, `createProcess`,
-- `priorityScheduler` and `changeReadyProcessPriority` do.
pub mod Append
use peps_os.Common.{ℕ, Option, none, some, List, [], ◌∷◌}
use peps_os.Common.Chain.{link_after}
use peps_os.Scheduler.Table.{Process, ReadyList, ProcessTable, queue, set_queue}

abbrev pub pid_of : Process → ℕ
pid_of p = p.pid

-- `lastReady->next = p`, which through a null `lastReady` stores into the bytes at address 0.
unfoldable pub store_next : Option ℕ → ProcessTable → ℕ → Process → ProcessTable
store_next none t i p = record t { null_next = some p.pid }
store_next (some k) t i p =
    set_queue t i (record (queue t i) { ready = link_after pid_of k p (queue t i).ready })

-- `lastReady->next = p; lastReady = p;`.
unfoldable pub link_last : ProcessTable → ℕ → Process → ProcessTable
unfolding store_next
link_last t i p =
    let t' = store_next (queue t i).last_ready t i p in
    set_queue t' i (record (queue t' i) { last_ready = some p.pid })

unfoldable pub enqueue_on : List Process → ProcessTable → ℕ → Process → ProcessTable
enqueue_on [] t i p = set_queue t i (record { ready = p ∷ []; last_ready = some p.pid })
enqueue_on (_ ∷ _) t i p = link_last t i p

-- `if (ready == NULL) { ready = p; lastReady = p; } else { lastReady->next = p; lastReady = p; }`.
unfoldable pub enqueue : ProcessTable → ℕ → Process → ProcessTable
unfolding enqueue_on
enqueue t i p = enqueue_on (queue t i).ready t i p

-- `ready = rest; if (ready == NULL) lastReady = NULL;`.
unfoldable pub pop_to : List Process → ReadyList → ReadyList
pop_to [] q = record { ready = []; last_ready = none }
pop_to (x ∷ xs) q = record q { ready = x ∷ xs }
