-- ===== src/Scheduler/Invariant.antt =====
-- What holds of the process table of Kernel/scheduler.c between its operations.
pub mod Queued
pub mod Woken
pub mod Timers
pub mod Sleepers
pub mod Requeued
pub mod Picked
pub mod Dispatched
pub mod Departed
pub mod Switched
pub mod Taken
pub mod Blocks
pub mod Alike
pub mod Kills
pub mod Leaves
pub mod Creates
pub mod Changes
pub mod Pids
pub mod System
pub mod Booted
pub mod Listed
use peps_os.Common.{ℕ, ◌+◌, ◌≤◌, ◌<◌, ◌≡◌, ◌≢◌, List, [], ◌∷◌, length, All}
use peps_os.Common.Chain.{weigh, is_key, IsTail}
use peps_os.Scheduler.Table.{
  Process, ReadyList, ProcessTable, State, blocked, ready, running, exited, Running, null, at_halt,
  at, max_priority,
}
use peps_os.Scheduler.Queues.{pid_of}

-- Sums of a weight of the pids: over the ready lists, the running process, and the whole table. The
-- halt process is not counted.
abbrev pub weigh_queues : (ℕ → ℕ) → List ReadyList → ℕ
weigh_queues w [] = 0
weigh_queues w (q ∷ qs) = weigh pid_of w q.ready + weigh_queues w qs

abbrev pub weigh_running : (ℕ → ℕ) → Running → ℕ
weigh_running w null = 0
weigh_running w at_halt = 0
weigh_running w (at p) = w p.pid

abbrev pub weigh_table : (ℕ → ℕ) → ProcessTable → ℕ
weigh_table w t =
    weigh_running w t.running + weigh pid_of w t.blocked + weigh_queues w t.priority_queue

abbrev pub IsReady : Process → Type 0
IsReady p = (p.state ≡ ready) × (p.priority < max_priority)

abbrev pub IsBlocked : Process → Type 0
IsBlocked p = (p.state ≡ blocked) × (p.priority < max_priority)

-- A ready list: its tail pointer is right, and its processes are ready.
abbrev pub IsQueue : ReadyList → Type 0
IsQueue q = IsTail pid_of q.last_ready q.ready × All IsReady q.ready

-- Some process runs, or the halt process.
abbrev pub IsRunner : Running → Type 0
IsRunner null = ⊥
IsRunner at_halt = Unit {0}
IsRunner (at p) = p.priority < max_priority

abbrev pub IsRunning : Running → Type 0
IsRunning null = ⊥
IsRunning at_halt = Unit {0}
IsRunning (at p) = (p.state ≢ blocked) × (p.state ≢ exited)

abbrev pub IsIdle : Process → Type 0
IsIdle p = (p.priority ≡ 0) × (p.state ≢ exited) × (p.state ≢ blocked)

-- No pid stands twice in the table.
abbrev pub IsDistinct : ProcessTable → Type 0
IsDistinct t = (k : ℕ) → weigh_table (is_key k) t ≤ 1

pub record IsSound (t : ProcessTable) : Type 0 where
  pub lists : length t.priority_queue ≡ max_priority
  pub queues : All IsQueue t.priority_queue
  pub waiting : All IsBlocked t.blocked
  pub distinct : IsDistinct t
  pub runner : IsRunner t.running
  pub idle : IsIdle t.halt

-- Between two interrupts the process that runs is neither blocked nor done. (The first process of all
-- is still marked as ready.)
pub record IsValid (t : ProcessTable) : Type 0 where
  pub sound : IsSound t
  pub active : IsRunning t.running

-- What an operation does that starts and ends no process and leaves the processor alone: the table
-- is sound, with the same processes and the same one running.
pub record Stays (t t' : ProcessTable) : Type 0 where
  pub sound : IsSound t'
  pub weight : (w : ℕ → ℕ) → weigh_table w t' ≡ weigh_table w t
  pub same : t'.running ≡ t.running
  pub count : t'.process_count ≡ t.process_count
