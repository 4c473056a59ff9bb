-- ===== src/Scheduler/Unlink.antt =====
-- Kernel/scheduler.c: the search for a pid in a list and its removal, the loops of `block`,
-- `unblock`, `killBlocked`, `killReady` and `changeReadyProcessPriority`.
pub mod Cut
pub mod Tail
use peps_os.Common.{ℕ, Option, none, some, List, [], ◌∷◌, ◌==◌, if◌then◌else◌}
use peps_os.Scheduler.Table.{Process, ReadyList}
use peps_os.Scheduler.Queues.{pop_to}

-- `if (node == lastReady) lastReady = aux;`.
abbrev pub retarget : Option ℕ → Process → Process → Option ℕ
retarget none node aux = none
retarget (some k) node aux = if k == node.pid then some aux.pid else some k

-- A process that was unlinked, what its list still reaches, and the tail pointer.
pub record Unlinked : Type 0 where
  pub node : Process
  pub rest : List Process
  pub tail : Option ℕ

abbrev pub keep : Process → Option Unlinked → Option Unlinked
keep aux none = none
keep aux (some u) = some (record u { rest = aux ∷ u.rest })

-- `while (aux != NULL) { if (aux->next != NULL && aux->next->pid == pid) { unlink aux->next } … }`.
unfoldable pub unlink_after : ℕ → Option ℕ → Process → List Process → Option Unlinked
unlink_after pid last aux [] = none
unlink_after pid last aux (n ∷ ns) =
    if n.pid == pid
    then some (record { node = n; rest = aux ∷ ns; tail = retarget last n aux })
    else keep aux (unlink_after pid last n ns)

-- One ready list: the head first, then the loop.
unlink_ready_on : ℕ → ReadyList → List Process → Option Unlinked
unlink_ready_on pid q [] = none
unlink_ready_on pid q (p ∷ ps) =
    if p.pid == pid
    then some (record { node = p; rest = ps; tail = (pop_to ps q).last_ready })
    else unlink_after pid q.last_ready p ps

unfoldable pub unlink_ready : ℕ → ReadyList → Option Unlinked
unfolding unlink_ready_on
unlink_ready pid q = unlink_ready_on pid q q.ready

pub record UnlinkedQueues : Type 0 where
  pub node : Process
  pub queues : List ReadyList

abbrev pub unlinked_here :
    ReadyList → List ReadyList → Option Unlinked → Option UnlinkedQueues → Option UnlinkedQueues
unlinked_here q qs none none = none
unlinked_here q qs none (some r) = some (record r { queues = q ∷ r.queues })
unlinked_here q qs (some u) later =
    some (record { node = u.node; queues = record { ready = u.rest; last_ready = u.tail } ∷ qs })

-- `for (int i = 0; i < MAX_PRIORITY; i++)`: the first list that holds the pid loses it.
unfoldable pub unlink_queues : ℕ → List ReadyList → Option UnlinkedQueues
unlink_queues pid [] = none
unlink_queues pid (q ∷ qs) = unlinked_here q qs (unlink_ready pid q) (unlink_queues pid qs)

unlink_head : ℕ → List Process → Option Unlinked
unlink_head pid [] = none
unlink_head pid (p ∷ ps) =
    if p.pid == pid
    then some (record { node = p; rest = ps; tail = none })
    else unlink_after pid none p ps

-- The list of blocked processes, which has no tail pointer.
unfoldable pub unlink_blocked : ℕ → List Process → Option Unlinked
unfolding unlink_head
unlink_blocked pid ps = unlink_head pid ps
