-- ===== src/Scheduler/Invariant/Kills.antt =====
-- `kill` and `exit` of Kernel/scheduler.c on a valid table.
use peps_os.Common.{
  ℕ, ◌+◌, ◌≡◌, refl, sym, subst, ap, ◌∙◌, Option, none, some, arith, inl, inr, dec32, ◌⊎◌,
}
use peps_os.Common.Chain.{weigh, is_key}
use peps_os.Memory.{Allocator}
use peps_os.Scheduler.Table.{ProcessTable, Sched}
use peps_os.Scheduler.Queues.{pid_of}
use peps_os.Scheduler.Unlink.{Unlinked, UnlinkedQueues, unlink_blocked, unlink_queues}
use peps_os.Scheduler.Unlink.Cut.{Search, unlink_blocked-Search, Cut-weigh, Cut-All}
use peps_os.Scheduler.Kids.{decrement_kids_count}
use peps_os.Scheduler.Kill.{
  kill_blocked, kill_blocked_on, kill_ready, kill_ready_on, kill_or_ready, after_kill, kill_other,
}
use peps_os.Scheduler.Invariant.{weigh_table, weigh_queues, IsSound, IsBlocked}
use peps_os.Scheduler.Invariant.Woken.{unblock-Stays}
use peps_os.Scheduler.Invariant.Alike.{decrement_kids_count-Stays}
use peps_os.Scheduler.Invariant.Taken.{Takes, unlink_queues-Takes}

-- How many processes that are blocked or ready have the pid.
abbrev pub waiting_with : ℕ → ProcessTable → ℕ
waiting_with pid t =
    weigh pid_of (is_key pid) t.blocked + weigh_queues (is_key pid) t.priority_queue

-- The table without the process of that pid, which did not run.
pub record Without (pid : ℕ) (t t' : ProcessTable) : Type 0 where
  pub sound : IsSound t'
  pub weight : (w : ℕ → ℕ) → weigh_table w t' + w pid ≡ weigh_table w t
  pub same : t'.running ≡ t.running
  pub count : t'.process_count ≡ t.process_count

-- The same, when the kill is complete.
pub record Killed (pid : ℕ) (t t' : ProcessTable) : Type 0 where
  pub sound : IsSound t'
  pub weight : (w : ℕ → ℕ) → weigh_table w t' + w pid ≡ weigh_table w t
  pub same : t'.running ≡ t.running
  pub count : t'.process_count ≡ dec32 t.process_count

recount : (t : ProcessTable) (n : ℕ) → IsSound t → IsSound (record t { process_count = n })
recount t n h = record {
  lists = h.lists;
  queues = h.queues;
  waiting = h.waiting;
  distinct = h.distinct;
  runner = h.runner;
  idle = h.idle;
}

module _ {H : Type 0} ⦃m : Allocator H⦄ (pid : ℕ) (s : Sched H) (h : IsSound s.pcb) where
  -- What a search that may unlink a process has done so far.
  abbrev Removes : ℕ → Sched H × Option ℕ → Type 0
  Removes found (s', none) = (s' ≡ s) × (found ≡ 0)
  Removes found (s', some parent) = Without pid s.pcb s'.pcb

  from_blocked :
      (r : Option Unlinked)
      → Search pid s.pcb.blocked r
      → Removes (weigh pid_of (is_key pid) s.pcb.blocked) (kill_blocked_on s r)
  unfolding kill_blocked_on
  from_blocked none c = (refl, c)
  from_blocked (some u) c =
      let weight : (w : ℕ → ℕ) → w pid + weigh pid_of w u.rest ≡ weigh pid_of w s.pcb.blocked =
        λ w. omega (arith, Cut-weigh w pid s.pcb.blocked u c, ap w c.hit) in
      record {
        sound = record {
          lists = h.lists;
          queues = h.queues;
          waiting = (Cut-All IsBlocked pid s.pcb.blocked u c h.waiting).1;
          distinct = λ k. omega (arith, weight (is_key k), h.distinct k);
          runner = h.runner;
          idle = h.idle;
        };
        weight = λ w. omega (arith, weight w);
        same = refl;
        count = refl;
      }

  from_ready :
      (r : Option UnlinkedQueues)
      → Takes pid s.pcb.priority_queue r
      → Removes (weigh_queues (is_key pid) s.pcb.priority_queue) (kill_ready_on s r)
  unfolding kill_ready_on
  from_ready none c = (refl, c)
  from_ready (some u) c =
      let weight : (w : ℕ → ℕ)
          → w pid + weigh_queues w u.queues ≡ weigh_queues w s.pcb.priority_queue =
        λ w. omega (arith, c.weight w, ap w c.hit) in
      record {
        sound = record {
          lists = c.lists ∙ h.lists;
          queues = c.queues;
          waiting = h.waiting;
          distinct = λ k. omega (arith, weight (is_key k), h.distinct k);
          runner = h.runner;
          idle = h.idle;
        };
        weight = λ w. omega (arith, weight w);
        same = refl;
        count = refl;
      }

  -- The end of `kill`: one process less, the parent has one child less and is woken.
  finish :
      (s' : Sched H) (parent : ℕ)
      → Without pid s.pcb s'.pcb
      → Killed pid s.pcb (after_kill (s', some parent)).0.pcb
  unfolding after_kill
  finish s' parent c =
      let t = record s'.pcb { process_count = dec32 s'.process_count } in
      let d =
        decrement_kids_count-Stays t (recount s'.pcb (dec32 s'.process_count) c.sound) parent in
      let u = unblock-Stays (decrement_kids_count t parent) parent d.sound in
      record {
        sound = u.sound;
        weight = λ w. omega (arith, u.weight w, d.weight w, c.weight w);
        same = u.same ∙ d.same ∙ c.same;
        count = u.count ∙ d.count ∙ ap dec32 c.count;
      }

  -- 0 and nothing changed, or 1 and the process is gone.
  abbrev pub KillResult : Sched H × ℕ → Type 0
  KillResult r =
      ((r.1 ≡ 0) × (r.0 ≡ s) × (waiting_with pid s.pcb ≡ 0))
      ⊎ ((r.1 ≡ 1) × Killed pid s.pcb r.0.pcb)

  ready_next :
      (r : Sched H × Option ℕ)
      → Removes (weigh_queues (is_key pid) s.pcb.priority_queue) r
      → weigh pid_of (is_key pid) s.pcb.blocked ≡ 0
      → KillResult (after_kill r)
  unfolding after_kill
  ready_next (s', none) c b = inl (refl, c.0, omega (arith, c.1))
  ready_next (s', some parent) c b = inr (refl, finish s' parent c)

  blocked_first :
      (r : Sched H × Option ℕ)
      → Removes (weigh pid_of (is_key pid) s.pcb.blocked) r
      → KillResult (after_kill (kill_or_ready pid r))
  unfolding kill_or_ready after_kill
  blocked_first (s', some parent) c = inr (refl, finish s' parent c)
  blocked_first (s', none) c =
      subst (λ s''. KillResult (after_kill (kill_ready s'' pid))) (sym c.0)
        (unfold kill_ready in
          ready_next (kill_ready_on s (unlink_queues pid s.pcb.priority_queue))
            (from_ready (unlink_queues pid s.pcb.priority_queue) (
              unlink_queues-Takes pid s.pcb.priority_queue (λ k. omega (arith, h.distinct k))
                h.queues))
            c.1)

  -- On a sound table the part of `kill` for a process that does not run returns 0, changes nothing,
  -- and no blocked or ready process has the pid; or it returns 1, the table is sound with the same
  -- one running, one process of that pid has left it, and `processCount` is one less.
  pub kill_other-KillResult : KillResult (kill_other s pid)
  unfolding kill_other kill_blocked
  kill_other-KillResult =
      blocked_first (kill_blocked_on s (unlink_blocked pid s.pcb.blocked))
        (from_blocked (unlink_blocked pid s.pcb.blocked) (unlink_blocked-Search pid s.pcb.blocked))
