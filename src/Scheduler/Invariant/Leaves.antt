-- ===== src/Scheduler/Invariant/Leaves.antt =====
-- `kill` and `exit` of Kernel/scheduler.c, called by a process on a valid table.
use peps_os.Common.{
  ℕ, ◌+◌, ◌≡◌, ◌≢◌, false, sym, subst, ap, ◌∙◌, arith, ◌==◌, ==_iff, inl, inr, ◌⊎◌, Bool-cases,
  dec32,
}
use peps_os.Common.Chain.{is_key}
use peps_os.Memory.{Allocator}
use peps_os.Scheduler.Table.{Process, ProcessTable, Sched, exited, at, console_pid}
use peps_os.Scheduler.Timer.{unblock_in}
use peps_os.Scheduler.Switch.{fire_timer_int}
use peps_os.Scheduler.Kids.{decrement_kids_count}
use peps_os.Scheduler.Kill.{Outcome, returns, gone, after, kill_other, kill, exit}
use peps_os.Scheduler.Invariant.{weigh_table, IsSound, IsValid, IsRunning, Stays}
use peps_os.Scheduler.Invariant.Woken.{unblock-Stays}
use peps_os.Scheduler.Invariant.Alike.{decrement_kids_count-Stays}
use peps_os.Scheduler.Invariant.Departed.{gone_weight, counted_after}
use peps_os.Scheduler.Invariant.Switched.{
  fire_timer_int-IsValid, fire_timer_int-weigh, fire_timer_int-count,
}
use peps_os.Scheduler.Invariant.Kills.{KillResult, kill_other-KillResult}

-- The table is valid, and the one process of that pid has left it.
pub record Loses (pid : ℕ) (t t' : ProcessTable) : Type 0 where
  pub valid : IsValid t'
  pub weight : (w : ℕ → ℕ) → weigh_table w t' + w pid ≡ weigh_table w t
  pub count : t'.process_count ≡ dec32 t.process_count

-- What `kill` did: nothing, as no process has the pid, or one process has left the table.
abbrev pub KillLoses : {H : Type 0} → ℕ → Sched H → Outcome (Sched H) → Type 0
KillLoses pid start (returns s' n) =
    ((n ≡ 0) × (s' ≡ start) × (weigh_table (is_key pid) start.pcb ≡ 0))
    ⊎ ((n ≡ 1) × Loses pid start.pcb s'.pcb)
KillLoses pid start (gone s') = Loses pid start.pcb s'.pcb

module _ {H : Type 0} ⦃m : Allocator H⦄ (s : Sched H) (p : Process) where
  abbrev pub with_process : Sched H
  with_process = record s { pcb = record s.pcb { running = at p } }

  abbrev ended : Sched H
  ended = record s { pcb = record s.pcb { running = at (record p { state = exited }) } }

  ended-IsSound : IsValid with_process.pcb → IsSound ended.pcb
  ended-IsSound v =
      let h = v.sound in
      record {
        lists = h.lists;
        queues = h.queues;
        waiting = h.waiting;
        distinct = h.distinct;
        runner = h.runner;
        idle = h.idle;
      }

  -- Once the parent is dealt with, the interrupt takes the process away.
  leaves :
      (t : ProcessTable)
      → IsValid with_process.pcb
      → Stays ended.pcb t
      → Loses p.pid with_process.pcb (fire_timer_int (record s { pcb = t })).pcb
  leaves t v k =
      let s' : Sched H = record s { pcb = t } in
      record {
        valid = fire_timer_int-IsValid s' k.sound;
        weight = λ w.
            omega (arith, fire_timer_int-weigh s' k.sound w, ap (gone_weight w) k.same, k.weight w);
        count =
            fire_timer_int-count s' k.sound
            ∙ ap (λ r. counted_after r t.process_count) k.same
            ∙ ap dec32 k.count;
      }

  then_decrement :
      (t : ProcessTable) (pid : ℕ)
      → Stays ended.pcb t
      → Stays ended.pcb (decrement_kids_count t pid)
  then_decrement t pid u =
      let d = decrement_kids_count-Stays t u.sound pid in
      record {
        sound = d.sound;
        weight = λ w. d.weight w ∙ u.weight w;
        same = d.same ∙ u.same;
        count = d.count ∙ u.count;
      }

  exit_runs :
      IsValid with_process.pcb → Loses p.pid with_process.pcb (after (exit with_process)).pcb
  unfolding exit
  exit_runs v =
      leaves _ v (then_decrement _ _ (unblock-Stays ended.pcb p.parent_pid (ended-IsSound v)))

  of_result :
      (pid : ℕ) (r : Sched H × ℕ)
      → (p.pid == pid) ≡ false
      → (v : IsValid with_process.pcb) → KillResult pid with_process v.sound r
      → KillLoses pid with_process (returns r.0 r.1)
  of_result pid (s', n) other v (inl (e, f, none_waits)) =
      inl (e, f, ground (arith, none_waits, other))
  of_result pid (s', n) other v (inr (e, k)) = inr (
    e,
    record {
      valid = record { sound = k.sound; active = subst IsRunning (sym k.same) v.active };
      weight = k.weight;
      count = k.count;
    },
  )

  kill_runs :
      (pid : ℕ)
      → IsValid with_process.pcb
      → pid ≢ console_pid
      → KillLoses pid with_process (kill with_process pid)
  unfolding kill
  kill_runs pid v ne = elim (Bool-cases (pid == console_pid)) [
    | inl e ↦ absurd (ne ((==_iff pid console_pid).0 e))
    | inr e ↦ elim (Bool-cases (p.pid == pid)) [
      | inl self ↦
          rw (e, self)
            (subst
              (λ k. Loses k with_process.pcb (fire_timer_int (unblock_in ended p.parent_pid)).pcb)
              ((==_iff p.pid pid).0 self)
              (leaves _ v (unblock-Stays ended.pcb p.parent_pid (ended-IsSound v))))
      | inr other ↦
          rw (e, other)
            (of_result pid (kill_other with_process pid) other v
              (kill_other-KillResult pid with_process v.sound))
    ]
  ]

module _ {H : Type 0} ⦃m : Allocator H⦄ (s : Sched H) (p : Process) (runs : s.running ≡ at p)
    (v : IsValid s.pcb) where
  -- Called by a process on a valid table, `exit` takes the running process, and no other, out of
  -- the table, which stays valid, with `processCount` one less.
  pub exit-Loses : Loses p.pid s.pcb (after (exit s)).pcb
  exit-Loses =
      subst
        (λ r.
          let s' : Sched H = record s { pcb = record s.pcb { running = r } } in
          IsValid s'.pcb → Loses p.pid s'.pcb (after (exit s')).pcb)
        (sym runs) (exit_runs s p) v

  -- Called by a process on a valid table, for a pid other than the console's, `kill` returns 0 and
  -- changes nothing, and then no process of the table has that pid, or it takes the process of that
  -- pid, and no other, out of the table, which stays valid, with `processCount` one less.
  pub kill-KillLoses : (pid : ℕ) → pid ≢ console_pid → KillLoses pid s (kill s pid)
  kill-KillLoses pid ne =
      subst
        (λ r.
          let s' : Sched H = record s { pcb = record s.pcb { running = r } } in
          IsValid s'.pcb → KillLoses pid s' (kill s' pid))
        (sym runs) (λ v'. kill_runs s p pid v' ne) v
