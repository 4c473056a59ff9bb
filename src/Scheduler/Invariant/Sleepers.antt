-- ===== src/Scheduler/Invariant/Sleepers.antt =====
-- How long a process sleeps: the list of Kernel/time.c over many timer interrupts.
use peps_os.Common.{
  ℕ, zero, suc, ◌+◌, ◌≤◌, ◌<◌, ◌≡◌, refl, sym, ap, subst, arith, inl, inr, List, [], ◌∷◌, ◌==◌,
  Bool-cases, dec32, u32_mod, u64_mod, ◌%◌,
}
use peps_os.Memory.{Allocator}
use peps_os.Scheduler.Table.{ProcSleep, Sched}
use peps_os.Scheduler.Timer.{unblock, check_timers, timer_handler}

-- The entry of `pid` has `n` ticks left, and `m` entries before it.
abbrev pub Sleeper : ℕ → ℕ → ℕ → List ProcSleep → Type 0
Sleeper pid n m [] = ⊥
Sleeper pid n zero (p ∷ ps) = (p.pid ≡ pid) × (p.ticks_left ≡ n)
Sleeper pid n (suc m) (p ∷ ps) = Sleeper pid n m ps

module _ {H : Type 0} ⦃m : Allocator H⦄ where
  -- What a tick does for a process that sleeps: it is unblocked, or its ticks and the entries before
  -- it become fewer in all.
  data Ticked (pid n k : ℕ) (s : Sched H) (r : List ProcSleep × Sched H) : Type 0 where
    woken : r.1.pcb ≡ (unblock s.pcb pid).0 → Ticked pid n k s r
    nearer :
        (n' k' : ℕ) → 0 < n' → n' ≤ n → n' + k' < n + k → Sleeper pid n' k' r.0 → Ticked pid n k s r

  -- Behind an entry that stays.
  behind :
      (p : ProcSleep) {pid n k : ℕ} {s : Sched H} {r : List ProcSleep × Sched H}
      → Ticked pid n k s r
      → Ticked pid n (suc k) s (p ∷ r.0, r.1)
  behind p (woken e) = woken e
  behind p (nearer n' k' h le lt a) = nearer n' (suc k') h le (omega (arith, lt)) a

  check_timers-Ticked :
      (pid n k : ℕ) (l : List ProcSleep) (s : Sched H)
      → 0 < n
      → n < u32_mod
      → Sleeper pid n k l
      → Ticked pid n k s (check_timers l s)
  unfolding check_timers
  check_timers-Ticked pid n k [] s h lt a = absurd a
  check_timers-Ticked pid n zero (p ∷ ps) s h lt (same, left) =
      elim (Bool-cases (dec32 p.ticks_left == 0)) [
        | inl e ↦ rw e (woken (ap (λ i. (unblock s.pcb i).0) same))
        | inr e ↦ rw e (
            nearer (dec32 p.ticks_left) 0 (ground (arith, e, left, h, lt))
              (omega (arith, left, h, lt)) (omega (arith, left, h, lt)) (same, refl))
      ]
  check_timers-Ticked pid n (suc k) (p ∷ ps) s h lt a =
      elim (Bool-cases (dec32 p.ticks_left == 0)) [
        | inl e ↦ rw e (nearer n k h (omega arith) (omega arith) a)
        | inr e ↦ rw e (
            behind (record p { ticks_left = dec32 p.ticks_left })
              (check_timers-Ticked pid n k ps s h lt a))
      ]

  -- From interrupt to interrupt, whatever happens between, as long as nothing else changes the list
  -- of sleeping processes.
  abbrev pub Interrupts : (ℕ → Sched H) → Type 0
  Interrupts states = (i : ℕ) → (states (suc i)).sleeped ≡ (timer_handler (states i)).sleeped

  -- An interrupt before the `b`-th unblocks the process.
  abbrev pub WokenWithin : ℕ → ℕ → (ℕ → Sched H) → Type 0
  WokenWithin pid b states =
      (i : ℕ) × ((i < b) × ((timer_handler (states i)).pcb ≡ (unblock (states i).pcb pid).0))

  -- The state that an interrupt gives to `checkTimers`.
  abbrev counted : Sched H → Sched H
  counted s = record s { ticks = (s.ticks + 1) % u64_mod }

  later :
      (pid f : ℕ) (states : ℕ → Sched H)
      → WokenWithin pid f (λ j. states (suc j))
      → WokenWithin pid (suc f) states
  later pid f states (j, (b, e)) = (suc j, (omega (arith, b), e))

  after_tick :
      (f pid n k : ℕ) (states : ℕ → Sched H)
      → n + k ≤ suc f
      → n < u32_mod
      → ((n' k' : ℕ)
          → n' + k' ≤ f
          → 0 < n'
          → n' < u32_mod
          → Sleeper pid n' k' (states 1).sleeped
          → WokenWithin pid f (λ j. states (suc j)))
      → (states 1).sleeped ≡ (timer_handler (states 0)).sleeped
      → Ticked pid n k (counted (states 0)) (check_timers (states 0).sleeped (counted (states 0)))
      → WokenWithin pid (suc f) states
  unfolding timer_handler
  after_tick f pid n k states le lt go next (woken e) = (0, (omega arith, e))
  after_tick f pid n k states le lt go next (nearer n' k' h' le' fewer a) = later pid f states (
      go n' k' (omega (arith, fewer, le)) h' (omega (arith, le', lt))
        (subst (Sleeper pid n' k') (sym next) a))

  within :
      (f pid n k : ℕ) (states : ℕ → Sched H)
      → n + k ≤ f
      → 0 < n
      → n < u32_mod
      → Interrupts states
      → Sleeper pid n k (states 0).sleeped
      → WokenWithin pid f states
  within zero pid n k states le h lt i a = absurd (omega (arith, le, h))
  within (suc f) pid n k states le h lt i a =
      after_tick f pid n k states le lt
        (λ n' k' le' h' lt' a'.
          within f pid n' k' (λ j. states (suc j)) le' h' lt' (λ j. i (suc j)) a')
        (i 0) (check_timers-Ticked pid n k (states 0).sleeped (counted (states 0)) h lt a)

  -- A process that sleeps with `n` ticks left, positive and below 2 ^ 32, behind `k` others in the
  -- list, is unblocked by one of the next `n + k` timer interrupts, whatever happens between them,
  -- as long as nothing else changes the list of sleeping processes.
  pub timer_handler-WokenWithin :
      (pid n k : ℕ) (states : ℕ → Sched H)
      → 0 < n
      → n < u32_mod
      → Interrupts states
      → Sleeper pid n k (states 0).sleeped
      → WokenWithin pid (n + k) states
  timer_handler-WokenWithin pid n k states h lt i a =
      within (n + k) pid n k states (omega arith) h lt i a
