-- ===== src/Scheduler/Invariant/Woken.antt =====
-- `unblock` of Kernel/scheduler.c on a sound table.
use peps_os.Common.{ℕ, ◌<◌, ◌≡◌, refl, ap, ◌∙◌, Option, none, some, List, arith, length}
use peps_os.Common.Chain.{weigh, is_key}
use peps_os.Scheduler.Table.{Process, ProcessTable, ready}
use peps_os.Scheduler.Queues.{pid_of}
use peps_os.Scheduler.Unlink.{Unlinked, unlink_blocked}
use peps_os.Scheduler.Unlink.Cut.{Cut, Search, unlink_blocked-Search, Cut-weigh, Cut-All}
use peps_os.Scheduler.Timer.{unblock}
use peps_os.Scheduler.Invariant.{weigh_table, weigh_queues, IsSound, IsBlocked, Stays}
use peps_os.Scheduler.Invariant.Queued.{
  appended, appended-weigh, appended-IsQueue, length-appended, enqueue-appended,
}

abbrev pub awake : Process → Process
awake p = record p { state = ready }

-- The table in which `p`, taken out of the blocked processes, waits in its ready list.
abbrev pub woken : ProcessTable → List Process → Process → ProcessTable
woken t rest p = record t { blocked = rest; priority_queue = appended t p.priority (awake p) }

-- What `unblock` may give: nothing was blocked under the pid, or the first such process is ready.
pub data Unblocks (t : ProcessTable) (pid : ℕ) (r : ProcessTable × ℕ) : Type 0 where
  missing : weigh pid_of (is_key pid) t.blocked ≡ 0 → r ≡ (t, 0) → Unblocks t pid r
  wakes : (u : Unlinked) → Cut pid t.blocked u → r ≡ (woken t u.rest u.node, 1) → Unblocks t pid r

module _ (t : ProcessTable) (pid : ℕ) (s : IsSound t) where
  -- On a sound table `unblock` returns 0 and changes nothing if no process is blocked under the
  -- pid; else it returns 1, and the first such process has left the blocked ones for the end of the
  -- ready list of its priority, as the only change.
  pub unblock-Unblocks : Unblocks t pid (unblock t pid)
  unfolding unblock
  unblock-Unblocks =
      by_result (unlink_blocked pid t.blocked) refl (unlink_blocked-Search pid t.blocked)
    where
      by_result :
          (r : Option Unlinked)
          → unlink_blocked pid t.blocked ≡ r
          → Search pid t.blocked r
          → Unblocks t pid (unblock t pid)
      by_result none e c = missing c (rw e)
      by_result (some u) e c = wakes u c (
          rw e (
            ap (λ t'. (t', 1))
              (enqueue-appended (record t { blocked = u.rest }) u.node.priority (awake u.node)
                (omega (arith, s.lists, (Cut-All IsBlocked pid t.blocked u c s.waiting).0.1))
                s.queues)))

module _ (t : ProcessTable) (pid : ℕ) (s : IsSound t) (u : Unlinked) (c : Cut pid t.blocked u) where
  prio : u.node.priority < length t.priority_queue
  prio = omega (arith, s.lists, (Cut-All IsBlocked pid t.blocked u c s.waiting).0.1)

  woken-weigh : (w : ℕ → ℕ) → weigh_table w (woken t u.rest u.node) ≡ weigh_table w t
  woken-weigh w =
      omega (
        arith,
        appended-weigh t u.node.priority (awake u.node) prio w,
        Cut-weigh w pid t.blocked u c,
      )

  woken-IsSound : IsSound (woken t u.rest u.node)
  woken-IsSound = record {
    lists = length-appended t u.node.priority (awake u.node) prio ∙ s.lists;
    queues =
        appended-IsQueue t u.node.priority (awake u.node) prio s.queues
          (refl, (Cut-All IsBlocked pid t.blocked u c s.waiting).0.1) new;
    waiting = (Cut-All IsBlocked pid t.blocked u c s.waiting).1;
    distinct = λ k. omega (arith, woken-weigh (is_key k), s.distinct k);
    runner = s.runner;
    idle = s.idle;
  }
    where
      self : is_key u.node.pid u.node.pid ≡ 1
      self = ground arith

      new : weigh_queues (is_key u.node.pid) t.priority_queue ≡ 0
      new =
          omega
            (arith, self, Cut-weigh (is_key u.node.pid) pid t.blocked u c, s.distinct u.node.pid)

module _ (t : ProcessTable) (pid : ℕ) (s : IsSound t) where
  -- `unblock` moves processes about, and none is lost or doubled: a weight of the pids sums up to
  -- the same.
  pub unblock-weigh : (w : ℕ → ℕ) → weigh_table w (unblock t pid).0 ≡ weigh_table w t
  unblock-weigh w = by_case (unblock-Unblocks t pid s)
    where
      by_case : Unblocks t pid (unblock t pid) → weigh_table w (unblock t pid).0 ≡ weigh_table w t
      by_case (missing c e) = rw e
      by_case (wakes u c e) = rw e (woken-weigh t pid s u c w)

  pub unblock-IsSound : IsSound (unblock t pid).0
  unblock-IsSound = by_case (unblock-Unblocks t pid s)
    where
      by_case : Unblocks t pid (unblock t pid) → IsSound (unblock t pid).0
      by_case (missing c e) = rw e s
      by_case (wakes u c e) = rw e (woken-IsSound t pid s u c)

  pub unblock-running : (unblock t pid).0.running ≡ t.running
  unblock-running = by_case (unblock-Unblocks t pid s)
    where
      by_case : Unblocks t pid (unblock t pid) → (unblock t pid).0.running ≡ t.running
      by_case (missing c e) = rw e
      by_case (wakes u c e) = rw e

  pub unblock-count : (unblock t pid).0.process_count ≡ t.process_count
  unblock-count = by_case (unblock-Unblocks t pid s)
    where
      by_case : Unblocks t pid (unblock t pid) → (unblock t pid).0.process_count ≡ t.process_count
      by_case (missing c e) = rw e
      by_case (wakes u c e) = rw e

  -- On a sound table `unblock` leaves a sound one, with the same processes, the same one running,
  -- and the same `processCount`.
  pub unblock-Stays : Stays t (unblock t pid).0
  unblock-Stays = record {
    sound = unblock-IsSound;
    weight = unblock-weigh;
    same = unblock-running;
    count = unblock-count;
  }
