-- ===== src/Sem/Counts.antt =====
-- What the values of the semaphores of Kernel/sem.c count.
use peps_os.Common.{
  ℕ, ◌+◌, ◌<◌, ◌≡◌, refl, sym, subst, ap, ◌∙◌, arith, inl, inr, ◌⊎◌, true, false, List, [], ◌∷◌,
  ◌==◌, if◌then◌else◌, get_or, set, length, length-set, get_or-set_self, Bool-cases, dec32,
  minus_one,
}
use peps_os.Memory.{Allocator}
use peps_os.Scheduler.Table.{current}
use peps_os.Sem.{
  Semaphore, Instance, Sems, SemProc, instance_at, set_sem, no_instance, Attempt, passes, misses,
  sem_wait, wake_one, sem_miss, sem_nq_proc, sem_dq_proc, enqueued, dequeued, dq_with, sem_amount,
  is_outside,
}

abbrev pub IsFreeLock : Semaphore → Type 0
IsFreeLock sem = (0 < sem.val) × (sem.val < 2147483648) × (sem.lock ≡ 0)

-- The lock is held exactly when the value is 0, and the value is no negative `int`.
abbrev pub IsCounting : Semaphore → Type 0
IsCounting sem = ((sem.val ≡ 0) × (sem.lock ≡ 1)) ⊎ IsFreeLock sem

abbrev pub sem_at : {H : Type 0} → Sems H → ℕ → Semaphore
sem_at s i = (instance_at s i).sem

-- An attempt of `sem_wait`: it goes through and the value falls by one, or the value is 0 and stays.
pub data Counted {H : Type 0} (s : Sems H) (i : ℕ) (r : Attempt (Sems H)) : Type 0 where
  through :
      (s' : Sems H)
      → r ≡ passes s' 0
      → (sem_at s' i).val + 1 ≡ (sem_at s i).val
      → IsCounting (sem_at s' i)
      → length s'.instances ≡ length s.instances
      → Counted s i r
  blocks :
      (s' : Sems H)
      → r ≡ misses s'
      → (sem_at s i).val ≡ 0
      → (sem_at s' i).val ≡ 0
      → IsCounting (sem_at s' i)
      → length s'.instances ≡ length s.instances
      → Counted s i r

-- A call of `sem_post`: it goes through and the value rises by one.
pub record Posts {H : Type 0} (s : Sems H) (i : ℕ) (r : Attempt (Sems H)) : Type 0 where
  pub after : Sems H
  pub returns : r ≡ passes after 0
  pub more : (sem_at after i).val ≡ (sem_at s i).val + 1
  pub counting : IsCounting (sem_at after i)
  pub slots : length after.instances ≡ length s.instances

abbrev pub sem_in : List Instance → ℕ → Semaphore
sem_in l i = (get_or l i no_instance).sem

-- The semaphore in a slot has the same value and the same lock.
abbrev pub SameCount : ℕ → List Instance → List Instance → Type 0
SameCount i l l' =
    ((sem_in l' i).val ≡ (sem_in l i).val)
    × ((sem_in l' i).lock ≡ (sem_in l i).lock)
    × (length l' ≡ length l)

pub set_same :
    (l : List Instance) (i : ℕ) (x : Instance)
    → i < length l
    → x.sem.val ≡ (sem_in l i).val
    → x.sem.lock ≡ (sem_in l i).lock
    → SameCount i l (set l i x)
set_same l i x h v k =
    let e = get_or-set_self l i x no_instance h in
    (ap (λ y. y.sem.val) e ∙ v, ap (λ y. y.sem.lock) e ∙ k, length-set l i x)

module _ {H : Type 0} ⦃m : Allocator H⦄ where
  sem_nq_proc-same :
      (s : Sems H) (i pid : ℕ)
      → i < length s.instances
      → SameCount i s.instances (sem_nq_proc s i pid).1.instances
  unfolding sem_nq_proc enqueued
  sem_nq_proc-same s i pid h = elim (Bool-cases (instance_at s i).availability) [
    | inl free ↦ rw free (refl, refl, refl)
    | inr used ↦ elim (Bool-cases ((m.alloc_memory 16 s.sched.heap).0 == 0)) [
      | inl null ↦ rw (used, null) (refl, refl, refl)
      | inr given ↦ rw (used, given) (set_same s.instances i _ h refl refl)
    ]
  ]

  sem_miss-same :
      (s : Sems H) (i : ℕ)
      → i < length s.instances
      → SameCount i s.instances (sem_miss s i).instances
  unfolding sem_miss
  sem_miss-same s i h = elim (Bool-cases ((current s.sched.pcb).pid == minus_one)) [
    | inl e ↦ rw e (refl, refl, refl)
    | inr e ↦ rw e (sem_nq_proc-same s i (current s.sched.pcb).pid h)
  ]

  dq_with-same :
      (s : Sems H) (i : ℕ) (l : List SemProc)
      → i < length s.instances
      → SameCount i s.instances (dq_with s i (dequeued l (sem_at s i))).1.instances
  unfolding dq_with dequeued
  dq_with-same s i [] h = (refl, refl, refl)
  dq_with-same s i (p ∷ []) h = set_same s.instances i _ h refl refl
  dq_with-same s i (p ∷ q ∷ ps) h = set_same s.instances i _ h refl refl

  sem_dq_proc-same :
      (s : Sems H) (i : ℕ)
      → i < length s.instances
      → SameCount i s.instances (sem_dq_proc s i).1.instances
  unfolding sem_dq_proc
  sem_dq_proc-same s i h = elim (Bool-cases (instance_at s i).availability) [
    | inl free ↦ rw free (refl, refl, refl)
    | inr used ↦ rw used (dq_with-same s i (sem_at s i).waiting h)
  ]

  pub wake_one-same :
      (s : Sems H) (i : ℕ)
      → i < length s.instances
      → SameCount i s.instances (wake_one s i).instances
  unfolding wake_one
  wake_one-same s i h = sem_dq_proc-same s i h

  taken_or_held :
      (s : Sems H) (i val : ℕ)
      → i < length s.instances
      → val < 2147483648
      → IsCounting (
          sem_at
            (set_sem s i (record (sem_at s i) { lock = if val == 0 then 1 else 0; val = val }))
            i)
  taken_or_held s i val h small =
      subst (λ x. IsCounting x.sem) (sym (get_or-set_self s.instances i _ no_instance h))
        (ground arith)

  -- What an attempt of `sem_wait` does to the value and the lock.
  pub sem_wait-Counted :
      (s : Sems H) (i : ℕ)
      → i < sem_amount
      → i < length s.instances
      → IsCounting (sem_at s i)
      → Counted s i (sem_wait s i)
  unfolding sem_wait
  sem_wait-Counted s i small slot c = by_lock c
    where
      inside : is_outside i ≡ false
      inside = ground arith

      by_lock : IsCounting (sem_at s i) → Counted s i (sem_wait s i)
      by_lock (inl (zero_val, held)) =
          let locked : ((sem_at s i).lock == 1) ≡ true = ground arith in
          let same = sem_miss-same s i slot in
          rw (inside, locked)
            (blocks (sem_miss s i) refl zero_val (same.0 ∙ zero_val)
              (inl (same.0 ∙ zero_val, same.1 ∙ held)) same.2)
      by_lock (inr (positive, bounded, open_lock)) =
          let unlocked : ((sem_at s i).lock == 1) ≡ false = ground arith in
          let less : dec32 (sem_at s i).val + 1 ≡ (sem_at s i).val = omega arith in
          rw (inside, unlocked)
            (through _ refl
              (ap (λ x. x.sem.val + 1) (get_or-set_self s.instances i _ no_instance slot) ∙ less)
              (taken_or_held s i (dec32 (sem_at s i).val) slot (omega arith))
              (length-set s.instances i _))
