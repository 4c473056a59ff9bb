-- ===== src/Scheduler/Invariant/Blocks.antt =====
-- `block` of Kernel/scheduler.c, called by a process on a valid table.
use peps_os.Common.{
  ℕ, ◌+◌, ◌≡◌, ◌≢◌, refl, sym, subst, Option, none, some, inl, inr, arith, ◌==◌, Bool-cases, ◌∙◌,
}
use peps_os.Common.Chain.{is_key}
use peps_os.Memory.{Allocator}
use peps_os.Scheduler.Table.{Process, ProcessTable, Sched, blocked, at}
use peps_os.Scheduler.Unlink.{UnlinkedQueues, unlink_queues}
use peps_os.Scheduler.Switch.{block, move_to_blocked, fire_timer_int}
use peps_os.Scheduler.Invariant.{weigh_table, weigh_running, weigh_queues, IsSound, IsValid}
use peps_os.Scheduler.Invariant.Taken.{Takes, unlink_queues-Takes}
use peps_os.Scheduler.Invariant.Switched.{
  fire_timer_int-IsValid, fire_timer_int-weigh, fire_timer_int-count,
}

-- How many processes that run or are ready have the pid.
abbrev pub runnable : ℕ → ProcessTable → ℕ
runnable pid t = weigh_running (is_key pid) t.running + weigh_queues (is_key pid) t.priority_queue

-- What a call that ends no process does: the table is valid, with the same processes.
pub record Keeps (t t' : ProcessTable) : Type 0 where
  pub valid : IsValid t'
  pub weight : (w : ℕ → ℕ) → weigh_table w t' ≡ weigh_table w t
  pub count : t'.process_count ≡ t.process_count

module _ {H : Type 0} ⦃m : Allocator H⦄ (pid : ℕ) (s : Sched H) (p : Process) where
  abbrev pub runs : Sched H
  runs = record s { pcb = record s.pcb { running = at p } }

  abbrev stopped : Sched H
  stopped = record s { pcb = record s.pcb { running = at (record p { state = blocked }) } }

  blocks_self : IsValid runs.pcb → Keeps runs.pcb (fire_timer_int stopped).pcb
  blocks_self v =
      let h = v.sound in
      let sound : IsSound stopped.pcb = record {
        lists = h.lists;
        queues = h.queues;
        waiting = h.waiting;
        distinct = h.distinct;
        runner = h.runner;
        idle = h.idle;
      } in
      record {
        valid = fire_timer_int-IsValid stopped sound;
        weight = λ w. omega (arith, fire_timer_int-weigh stopped sound w);
        count = fire_timer_int-count stopped sound;
      }

  moves :
      (r : Option UnlinkedQueues)
      → Takes pid s.pcb.priority_queue r
      → IsValid runs.pcb
      → p.pid ≢ pid
      → Keeps runs.pcb (move_to_blocked runs r).0.pcb
        × ((move_to_blocked runs r).1 ≡ runnable pid runs.pcb)
  unfolding move_to_blocked
  moves none t v ne = (record { valid = v; weight = λ w. refl; count = refl }, ground arith)
  moves (some u) t v ne =
      let h = v.sound in
      (
        record {
          valid = record {
            sound = record {
              lists = t.lists ∙ h.lists;
              queues = t.queues;
              waiting = ((refl, t.node.1), h.waiting);
              distinct = λ k. omega (arith, t.weight (is_key k), h.distinct k);
              runner = h.runner;
              idle = h.idle;
            };
            active = v.active;
          };
          weight = λ w. omega (arith, t.weight w);
          count = refl;
        },
        found,
      )
    where
      found : 1 ≡ runnable pid runs.pcb
      found = ground (arith, t.weight (is_key pid), v.sound.distinct pid, t.hit)

  block_runs :
      IsValid runs.pcb
      → Keeps runs.pcb (block runs pid).0.pcb × ((block runs pid).1 ≡ runnable pid runs.pcb)
  unfolding block
  block_runs v = elim (Bool-cases (p.pid == pid)) [
    | inl self ↦ rw self (blocks_self v, ground (arith, v.sound.distinct pid))
    | inr other ↦
        let searched =
          unlink_queues-Takes pid s.pcb.priority_queue (λ k. omega (arith, v.sound.distinct k))
            v.sound.queues in
        let r = moves (unlink_queues pid s.pcb.priority_queue) searched v (ground arith) in
        rw other (r.0, ground (arith, r.1))
  ]

-- Called by a process on a valid table, `block` leaves a valid table with the same processes and
-- the same `processCount`. It returns 1 if the pid is that of the running process or of a ready
-- one, and 0 if not.
pub block-Keeps :
    {H : Type 0} ⦃m : Allocator H⦄ (pid : ℕ) (s : Sched H) (p : Process)
    → s.running ≡ at p
    → IsValid s.pcb
    → Keeps s.pcb (block s pid).0.pcb × ((block s pid).1 ≡ runnable pid s.pcb)
block-Keeps {H} pid s p e =
    subst
      (λ r.
        let s' : Sched H = record s { pcb = record s.pcb { running = r } } in
        IsValid s'.pcb
        → Keeps s'.pcb (block s' pid).0.pcb × ((block s' pid).1 ≡ runnable pid s'.pcb))
      (sym e) (block_runs pid s p)
