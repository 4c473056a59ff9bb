-- ===== src/Scheduler/Invariant/System.antt =====
-- The scheduler of PepsOS as a step relation: the timer interrupt, and the system calls of the
-- process that runs (Kernel/scheduler.c, Kernel/time.c, `int_80` of Kernel/irqDispatcher.c).
use peps_os.Common.{
  ℕ, ◌+◌, ◌≤◌, ◌<◌, ◌≡◌, refl, sym, subst, ap, ◌∙◌, arith, inl, inr, ◌==◌, Bool-cases, u32_mod,
}
use peps_os.Common.Chain.{is_key}
use peps_os.Memory.{Allocator}
use peps_os.Scheduler.Table.{
  Process, ProcessType, Sched, foreground, Running, null, at_halt, at, current, console_pid,
}
use peps_os.Scheduler.Timer.{unblock_in, add_proc_sleep}
use peps_os.Scheduler.Switch.{fire_timer_int, block, sleep, wait, yield, is_positive}
use peps_os.Scheduler.Create.{Request, Pipes, create_process, create_foreground_process}
use peps_os.Scheduler.Kill.{Outcome, returns, gone, after, kill, exit}
use peps_os.Scheduler.Priorities.{change_priority}
use peps_os.Scheduler.Invariant.{weigh_table, IsValid, IsRunning}
use peps_os.Scheduler.Invariant.Woken.{unblock-Stays}
use peps_os.Scheduler.Invariant.Departed.{
  gone_weight, exited_weight-zero, counted_after, counted-same,
}
use peps_os.Scheduler.Invariant.Switched.{
  fire_timer_int-IsValid, fire_timer_int-weigh, fire_timer_int-count,
}
use peps_os.Scheduler.Invariant.Blocks.{Keeps, block-Keeps}
use peps_os.Scheduler.Invariant.Leaves.{Loses, KillLoses, exit-Loses, kill-KillLoses}
use peps_os.Scheduler.Invariant.Creates.{
  IsFresh, HasRoomFor, Gains, Creates, create_process-Creates,
}
use peps_os.Scheduler.Invariant.Changes.{change_priority-Keeps}
use peps_os.Scheduler.Invariant.Pids.{
  fire_timer_int-next_pid, block-next_pid, kill-next_pid, exit-next_pid, add_proc_sleep-next_pid,
}

abbrev pub one : ℕ → ℕ
one k = 1

-- The table is valid, new pids are new, and `processCount` is the number of processes.
pub record Inv {H : Type 0} (s : Sched H) : Type 0 where
  pub valid : IsValid s.pcb
  pub fresh : IsFresh s
  pub counted : s.pcb.process_count ≡ weigh_table one s.pcb
  pub bounded : weigh_table one s.pcb ≤ s.next_pid
  pub small : s.next_pid < u32_mod

module _ {H : Type 0} {s s' : Sched H} where
  pub Keeps-Inv : Keeps s.pcb s'.pcb → s'.next_pid ≡ s.next_pid → Inv s → Inv s'
  Keeps-Inv k e v = record {
    valid = k.valid;
    fresh = λ j h. k.weight (is_key j) ∙ v.fresh j (omega arith);
    counted = k.count ∙ v.counted ∙ sym (k.weight one);
    bounded = omega (arith, k.weight one, v.bounded);
    small = omega (arith, v.small);
  }

  Loses-Inv : (pid : ℕ) → Loses pid s.pcb s'.pcb → s'.next_pid ≡ s.next_pid → Inv s → Inv s'
  Loses-Inv pid k e v = record {
    valid = k.valid;
    fresh = λ j h. omega (arith, k.weight (is_key j), v.fresh j (omega arith));
    counted = omega (arith, k.count, v.counted, k.weight one, v.bounded, v.small);
    bounded = omega (arith, k.weight one, v.bounded);
    small = omega (arith, v.small);
  }

  Gains-Inv : Gains s s' → s.next_pid + 1 < u32_mod → Inv s → Inv s'
  Gains-Inv g lt v = record {
    valid = g.valid;
    fresh = λ j h. ground (arith, g.weight (is_key j), v.fresh j, g.next);
    counted = omega (arith, g.count, v.counted, g.weight one, v.bounded);
    bounded = omega (arith, g.weight one, g.next, v.bounded);
    small = omega (arith, g.next);
  }

-- The system calls of the scheduler.
pub data Call : Type 0 where
  blocks unblocks kills : ℕ → Call
  exits waits yields : Call
  sleeps : ℕ → Call
  creates : Request → ℕ → ProcessType → Pipes → Call
  runs_in_front : Request → ℕ → Pipes → Call
  changes_priority : ℕ → ℕ → Call

-- A call that creates a process needs a pid that is left, and memory.
abbrev pub IsAllowed : {H : Type 0} ⦃m : Allocator H⦄ → Sched H → Call → Type 0
IsAllowed s (creates r priority tipo pipes) = (s.next_pid + 1 < u32_mod) × HasRoomFor 1 s.heap
IsAllowed s (runs_in_front r priority pipes) = (s.next_pid + 1 < u32_mod) × HasRoomFor 1 s.heap
IsAllowed s c = Unit {0}

module _ {H : Type 0} ⦃m : Allocator H⦄ where
  unfoldable pub perform : Sched H → Call → Sched H
  perform s (blocks pid) = (block s pid).0
  perform s (unblocks pid) = unblock_in s pid
  perform s (kills pid) = after (kill s pid)
  perform s exits = after (exit s)
  perform s waits = (wait s).0
  perform s yields = yield s
  perform s (sleeps n) = sleep s n
  perform s (creates r priority tipo pipes) = (create_process s r priority tipo pipes).0
  perform s (runs_in_front r priority pipes) = (create_foreground_process s r priority pipes).0
  perform s (changes_priority pid priority) = record s {
    pcb = (change_priority s.pcb pid priority).0;
  }

  -- The timer interrupt comes at any time; a call comes from the process that runs.
  pub data Step (s : Sched H) (s' : Sched H) : Type 0 where
    tick : s' ≡ fire_timer_int s → Step s s'
    call :
        (p : Process) (c : Call) → s.running ≡ at p → IsAllowed s c → s' ≡ perform s c → Step s s'

  pub data Reach (s : Sched H) : Sched H → Type 0 where
    here : Reach s s
    next : {t u : Sched H} → Reach s t → Step t u → Reach s u

  tick-Keeps : (s : Sched H) → IsValid s.pcb → Keeps s.pcb (fire_timer_int s).pcb
  tick-Keeps s v = record {
    valid = fire_timer_int-IsValid s v.sound;
    weight =
        λ w. omega (arith, fire_timer_int-weigh s v.sound w, nothing_gone w s.running v.active);
    count = fire_timer_int-count s v.sound ∙ nothing_counted s.running v.active s.pcb.process_count;
  }
    where
      nothing_gone : (w : ℕ → ℕ) (r : Running) → IsRunning r → gone_weight w r ≡ 0
      nothing_gone w null a = refl
      nothing_gone w at_halt a = refl
      nothing_gone w (at p) a = exited_weight-zero w p.state p.pid a.1

      nothing_counted : (r : Running) → IsRunning r → (n : ℕ) → counted_after r n ≡ n
      nothing_counted null a n = refl
      nothing_counted at_halt a n = refl
      nothing_counted (at p) a n = counted-same p.state n a.1

  pub tick_Inv : (s : Sched H) → Inv s → Inv (fire_timer_int s)
  tick_Inv s v = Keeps-Inv (tick-Keeps s v.valid) (fire_timer_int-next_pid s) v

  pub block_Inv :
      (s : Sched H) (p : Process) (pid : ℕ) → s.running ≡ at p → Inv s → Inv (block s pid).0
  block_Inv s p pid e v = Keeps-Inv (block-Keeps pid s p e v.valid).0 (block-next_pid s pid) v

  pub unblock_Inv : (s : Sched H) (pid : ℕ) → Inv s → Inv (unblock_in s pid)
  unblock_Inv s pid v =
      let k = unblock-Stays s.pcb pid v.valid.sound in
      Keeps-Inv
        (record {
          valid = record { sound = k.sound; active = subst IsRunning (sym k.same) v.valid.active };
          weight = k.weight;
          count = k.count;
        })
        refl v

  kill-Inv :
      (s : Sched H) (p : Process) (pid : ℕ) → s.running ≡ at p → Inv s → Inv (after (kill s pid))
  kill-Inv s p pid e v = elim (Bool-cases (pid == console_pid)) [
    | inl console ↦ unfold kill in rw console v
    | inr other ↦
        by_outcome (kill s pid) (kill-KillLoses s p e v.valid pid (ground arith))
          (kill-next_pid s pid)
  ]
    where
      by_outcome :
          (o : Outcome (Sched H))
          → KillLoses pid s o
          → (after o).next_pid ≡ s.next_pid
          → Inv (after o)
      by_outcome (returns s' n) (inl (_, same, _)) f = rw same v
      by_outcome (returns s' n) (inr (_, k)) f = Loses-Inv pid k f v
      by_outcome (gone s') k f = Loses-Inv pid k f v

  exit-Inv : (s : Sched H) (p : Process) → s.running ≡ at p → Inv s → Inv (after (exit s))
  exit-Inv s p e v = Loses-Inv p.pid (exit-Loses s p e v.valid) (exit-next_pid s) v

  pub create_Inv :
      (s : Sched H) (p : Process) (r : Request) (priority : ℕ) (tipo : ProcessType) (pipes : Pipes)
      → s.running ≡ at p
      → s.next_pid + 1 < u32_mod
      → HasRoomFor 1 s.heap
      → Inv s
      → let s' = (create_process s r priority tipo pipes).0 in
        Inv s' × ((p' : Process) × (s'.running ≡ at p'))
  create_Inv s p r priority tipo pipes e lt room v =
      by_result (create_process s r priority tipo pipes)
        (create_process-Creates s p e r priority tipo pipes v.valid v.fresh room)
    where
      by_result :
          (r : Sched H × ℕ)
          → Creates priority s r
          → Inv r.0 × ((p' : Process) × (r.0.running ≡ at p'))
      by_result (s', n) (inl (_, _, same)) = rw same (v, (p, e))
      by_result (s', n) (inr (_, _, g)) = (Gains-Inv g lt v, (g.caller, g.runs))

  foreground_Inv :
      (s : Sched H) (p : Process) (r : Request) (priority : ℕ) (pipes : Pipes)
      → s.running ≡ at p
      → s.next_pid + 1 < u32_mod
      → HasRoomFor 1 s.heap
      → Inv s
      → Inv (create_foreground_process s r priority pipes).0
  unfolding create_foreground_process
  foreground_Inv s p r priority pipes e lt room v =
      let (v', (p', e')) = create_Inv s p r priority foreground pipes e lt room v in
      block_Inv _ p' _ e' v'

  add_proc_sleep-pcb : (s : Sched H) (pid n : ℕ) → (add_proc_sleep s pid n).pcb ≡ s.pcb
  unfolding add_proc_sleep
  add_proc_sleep-pcb s pid n = ground arith

  sleep-Inv : (s : Sched H) (p : Process) (n : ℕ) → s.running ≡ at p → Inv s → Inv (sleep s n)
  unfolding sleep
  sleep-Inv s p n e v = elim (Bool-cases (is_positive n)) [
    | inl yes_sleeps ↦
        let s' = add_proc_sleep s (current s.pcb).pid n in
        let same = add_proc_sleep-pcb s (current s.pcb).pid n in
        rw yes_sleeps (
          block_Inv s' p (current s'.pcb).pid (ap (λ t. t.running) same ∙ e) (record {
            valid = subst IsValid (sym same) v.valid;
            fresh = λ k h.
                ap (weigh_table (is_key k)) same
                ∙ v.fresh k (omega (arith, h, add_proc_sleep-next_pid s (current s.pcb).pid n));
            counted =
                omega (arith, v.counted, ap (weigh_table one) same, ap (λ t. t.process_count) same);
            bounded = omega (
              arith,
              v.bounded,
              ap (weigh_table one) same,
              add_proc_sleep-next_pid s (current s.pcb).pid n,
            );
            small = omega (arith, v.small, add_proc_sleep-next_pid s (current s.pcb).pid n);
          }))
    | inr none_sleeps ↦ rw none_sleeps v
  ]

  wait-Inv : (s : Sched H) (p : Process) → s.running ≡ at p → Inv s → Inv (wait s).0
  unfolding wait
  wait-Inv s p e v = elim (Bool-cases ((current s.pcb).kids_count == 0)) [
    | inl childless ↦ rw childless v
    | inr parent ↦ rw parent (block_Inv s p (current s.pcb).pid e v)
  ]

  pub perform-Inv :
      (s : Sched H) (p : Process) (c : Call)
      → s.running ≡ at p
      → IsAllowed s c
      → Inv s
      → Inv (perform s c)
  unfolding perform
  perform-Inv s p (blocks pid) e a v = block_Inv s p pid e v
  perform-Inv s p (unblocks pid) e a v = unblock_Inv s pid v
  perform-Inv s p (kills pid) e a v = kill-Inv s p pid e v
  perform-Inv s p exits e a v = exit-Inv s p e v
  perform-Inv s p waits e a v = wait-Inv s p e v
  perform-Inv s p yields e a v = unfold yield in tick_Inv s v
  perform-Inv s p (sleeps n) e a v = sleep-Inv s p n e v
  perform-Inv s p (creates r priority tipo pipes) e (lt, room) v =
      (create_Inv s p r priority tipo pipes e lt room v).0
  perform-Inv s p (runs_in_front r priority pipes) e (lt, room) v =
      foreground_Inv s p r priority pipes e lt room v
  perform-Inv s p (changes_priority pid priority) e a v =
      Keeps-Inv (change_priority-Keeps s.pcb p pid priority e v.valid) refl v

  Step-Inv : {s s' : Sched H} → Step s s' → Inv s → Inv s'
  Step-Inv (tick e) v = rw e (tick_Inv _ v)
  Step-Inv (call p c e a f) v = rw f (perform-Inv _ p c e a v)

  -- Whatever calls and interrupts happen, in whatever order, the table stays valid: each process is
  -- in it once, in the place that its state says, new pids are new, and `processCount` counts it.
  pub Reach-Inv : {s s' : Sched H} → Inv s → Reach s s' → Inv s'
  Reach-Inv v here = v
  Reach-Inv v (next r st) = Step-Inv st (Reach-Inv v r)
