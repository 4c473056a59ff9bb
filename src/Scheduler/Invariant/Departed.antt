-- ===== src/Scheduler/Invariant/Departed.antt =====
-- `priorityScheduler` of Kernel/scheduler.c up to its loop, on a sound table.
use peps_os.Common.{ℕ, ◌+◌, ◌≤◌, ◌<◌, ◌≡◌, ◌≢◌, refl, sym, ap, arith, dec32}
use peps_os.Memory.{Allocator}
use peps_os.Scheduler.Table.{
  Process, ProcessTable, Sched, State, blocked, ready, running, exited, Running, null, at_halt, at,
  max_priority,
}
use peps_os.Scheduler.Switch.{depart, leave, decayed}
use peps_os.Scheduler.Invariant.{weigh_table, IsSound, IsRunning, IsIdle}

-- The weight that leaves the table: that of a process that is done.
abbrev pub exited_weight : (ℕ → ℕ) → State → ℕ → ℕ
exited_weight w exited pid = w pid
exited_weight w blocked pid = 0
exited_weight w ready pid = 0
exited_weight w running pid = 0

abbrev pub gone_weight : (ℕ → ℕ) → Running → ℕ
gone_weight w null = 0
gone_weight w at_halt = 0
gone_weight w (at p) = exited_weight w p.state p.pid

-- `pcb.processCount` after the process that ran was left.
abbrev pub counted_after_state : State → ℕ → ℕ
counted_after_state exited n = dec32 n
counted_after_state blocked n = n
counted_after_state ready n = n
counted_after_state running n = n

abbrev pub counted_after : Running → ℕ → ℕ
counted_after null n = n
counted_after at_halt n = n
counted_after (at p) n = counted_after_state p.state n

pub exited_weight-zero :
    (w : ℕ → ℕ) (st : State) (pid : ℕ) → st ≢ exited → exited_weight w st pid ≡ 0
exited_weight-zero w exited pid h = absurd (h refl)
exited_weight-zero w blocked pid h = refl
exited_weight-zero w ready pid h = refl
exited_weight-zero w running pid h = refl

pub counted-same : (st : State) (n : ℕ) → st ≢ exited → counted_after_state st n ≡ n
counted-same exited n h = absurd (h refl)
counted-same blocked n h = refl
counted-same ready n h = refl
counted-same running n h = refl

pub decayed-le : (p : ℕ) → decayed p ≤ p
decayed-le p = ground arith

idle_decayed : (p : Process) → p.priority ≡ 0 → decayed p.priority ≡ 0
idle_decayed p e = ground arith

pub record Departs (w : ℕ → ℕ) (t t' : ProcessTable) : Type 0 where
  pub sound : IsSound t'
  pub active : IsRunning t'.running
  pub weight : weigh_table w t' + gone_weight w t.running ≡ weigh_table w t
  pub count : t'.process_count ≡ counted_after t.running t.process_count

module _ {H : Type 0} ⦃m : Allocator H⦄ (s : Sched H) where
  abbrev with_running : Running → Sched H
  with_running r = record s { pcb = record s.pcb { running = r } }

  goes_on : (st : State) (p : Process) → st ≢ exited → st ≢ blocked → leave st p s ≡ s
  unfolding leave
  goes_on exited p h k = absurd (h refl)
  goes_on blocked p h k = absurd (k refl)
  goes_on ready p h k = refl
  goes_on running p h k = refl

  is_left : (st : State) (p : Process) → st ≡ blocked → leave st p s ≡ leave blocked p s
  is_left st p e = ap (λ st'. leave st' p s) e

  is_freed : (st : State) (p : Process) → st ≡ exited → leave st p s ≡ leave exited p s
  is_freed st p e = ap (λ st'. leave st' p s) e

module _ {H : Type 0} ⦃m : Allocator H⦄ (w : ℕ → ℕ) (rsp rbp : ℕ) (s : Sched H) where
  -- The halt process goes on.
  depart_halt :
      IsSound (with_running s at_halt).pcb
      → Departs w (with_running s at_halt).pcb (depart rsp rbp (with_running s at_halt)).pcb
  unfolding depart
  depart_halt h = rw (goes_on _ s.pcb.halt.state _ h.idle.1 h.idle.2) (record {
    sound = record {
      lists = h.lists;
      queues = h.queues;
      waiting = h.waiting;
      distinct = h.distinct;
      runner = tt;
      idle = (idle_decayed s.pcb.halt h.idle.0, h.idle.1, h.idle.2);
    };
    active = tt;
    weight = omega arith;
    count = refl;
  })

  module _ (p : Process) (h : IsSound (with_running s (at p)).pcb) where
    abbrev DepartsAs : Type 0
    DepartsAs = Departs w (with_running s (at p)).pcb (depart rsp rbp (with_running s (at p))).pcb

    falls : decayed p.priority < max_priority
    falls = omega (arith, decayed-le p.priority, h.runner)

    left_count :
        {st : State}
        → p.state ≡ st
        → counted_after_state st s.pcb.process_count
          ≡ counted_after_state p.state s.pcb.process_count
    left_count e = sym (ap (λ st. counted_after_state st s.pcb.process_count) e)

    -- The process goes on, at the next lower priority.
    depart_goes_on : p.state ≢ exited → p.state ≢ blocked → DepartsAs
    unfolding depart
    depart_goes_on ne nb = rw (goes_on _ p.state _ ne nb) (record {
      sound = record {
        lists = h.lists;
        queues = h.queues;
        waiting = h.waiting;
        distinct = h.distinct;
        runner = falls;
        idle = h.idle;
      };
      active = (nb, ne);
      weight = omega (arith, exited_weight-zero w p.state p.pid ne);
      count = sym (counted-same p.state s.pcb.process_count ne);
    })

    IsIdle-on : IsIdle (record s.pcb.halt { priority = decayed s.pcb.halt.priority })
    IsIdle-on = (idle_decayed s.pcb.halt h.idle.0, h.idle.1, h.idle.2)

    -- The process is blocked: it comes first among the blocked ones.
    depart_blocked : p.state ≡ blocked → DepartsAs
    unfolding depart leave
    depart_blocked e = rw (is_left _ p.state _ e) (record {
      sound = record {
        lists = h.lists;
        queues = h.queues;
        waiting = ((e, h.runner), h.waiting);
        distinct = λ k. omega (arith, h.distinct k);
        runner = tt;
        idle = IsIdle-on;
      };
      active = tt;
      weight = omega (arith, ap (λ st. exited_weight w st p.pid) e);
      count = left_count e;
    })

    -- The process is done: it leaves the table.
    depart_exited : p.state ≡ exited → DepartsAs
    unfolding depart leave
    depart_exited e = rw (is_freed _ p.state _ e) (record {
      sound = record {
        lists = h.lists;
        queues = h.queues;
        waiting = h.waiting;
        distinct = λ k. omega (arith, h.distinct k);
        runner = tt;
        idle = IsIdle-on;
      };
      active = tt;
      weight = omega (arith, ap (λ st. exited_weight w st p.pid) e);
      count = left_count e;
    })

    depart_process : (st : State) → p.state ≡ st → DepartsAs
    depart_process ready e = depart_goes_on (λ x. cc) (λ x. cc)
    depart_process running e = depart_goes_on (λ x. cc) (λ x. cc)
    depart_process blocked e = depart_blocked e
    depart_process exited e = depart_exited e

  by_runner :
      (r : Running)
      → IsSound (with_running s r).pcb
      → Departs w (with_running s r).pcb (depart rsp rbp (with_running s r)).pcb
  by_runner null h = absurd h.runner
  by_runner at_halt h = depart_halt h
  by_runner (at p) h = depart_process p h p.state refl

  -- Up to the loop, the table stays sound; only an exited process leaves it, and what still runs is
  -- neither blocked nor done.
  pub depart-Departs : IsSound s.pcb → Departs w s.pcb (depart rsp rbp s).pcb
  depart-Departs h = by_runner s.running h
