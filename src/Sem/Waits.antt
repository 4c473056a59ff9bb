-- ===== src/Sem/Waits.antt =====
-- Who waits at the semaphores of Kernel/sem.c.
use peps_os.Common.{
  ℕ, ◌<◌, ◌≡◌, ◌≢◌, ◌↔◌, ◌++◌, refl, sym, subst, ap, arith, inl, inr, true, false, List, [], ◌∷◌,
  ◌==◌, if◌then◌else◌, length, get_or-set_self, Bool-cases, minus_one, Option, none, some,
}
use peps_os.Common.Chain.{IsTail, link_after-IsTail}
use peps_os.Memory.{Allocator}
use peps_os.Scheduler.Table.{current}
use peps_os.Scheduler.Switch.{block}
use peps_os.Sem.{
  Semaphore, Sems, SemProc, instance_at, no_instance, Attempt, passes, misses, sem_wait, sem_miss,
  sem_nq_proc, enqueued, link_waiting, address_of, sem_amount, is_outside,
}
use peps_os.Sem.Counts.{IsCounting, sem_at, Counted, sem_wait-Counted}

-- The list of a semaphore: its tail pointer is right, and `size_list` is 0 exactly at the empty list.
pub record IsWaitList (sem : Semaphore) : Type 0 where
  pub tail : IsTail address_of sem.last_proc sem.waiting
  pub sized : (sem.size_list ≡ 0) ↔ (sem.waiting ≡ [])

-- The caller stands at the end of the list, or there was no memory for its entry, or it has no pid.
pub data Queues (sem sem' : Semaphore) (pid address : ℕ) : Type 0 where
  queued :
      address ≢ 0
      → sem'.waiting ≡ sem.waiting ++ record { pid = pid; address = address } ∷ []
      → sem'.last_proc ≡ some address
      → Queues sem sem' pid address
  no_memory : address ≡ 0 → sem' ≡ sem → Queues sem sem' pid address
  no_pid : pid ≡ minus_one → sem' ≡ sem → Queues sem sem' pid address

-- The state from which the caller of a call that misses is blocked.
pub record Missed {H : Type 0} ⦃m : Allocator H⦄ (s : Sems H) (i : ℕ) (s' : Sems H) : Type 0 where
  pub queue :
      Queues (sem_at s i) (sem_at s' i) (current s.sched.pcb).pid (m.alloc_memory 16 s.sched.heap).0
  pub heap : H
  pub blocked : s'.sched ≡ (block (record s.sched { heap = heap }) (current s.sched.pcb).pid).0

abbrev pub IsNonEmpty : List SemProc → Type 0
IsNonEmpty [] = ⊥
IsNonEmpty (p ∷ ps) = Unit

linked :
    (sem : Semaphore) (p : SemProc)
    → IsWaitList sem
    → (enqueued sem p).waiting ≡ sem.waiting ++ p ∷ []
unfolding enqueued link_waiting
linked sem p w = by_list sem.waiting sem.last_proc w.tail w.sized
  where
    by_list :
        (l : List SemProc) (o : Option ℕ)
        → IsTail address_of o l
        → (sem.size_list ≡ 0) ↔ (l ≡ [])
        → (if sem.size_list == 0 then p ∷ [] else link_waiting o p l) ≡ l ++ p ∷ []
    by_list [] o t e =
        let none_waits : (sem.size_list == 0) ≡ true = ground (arith, e.1 refl) in
        rw none_waits refl
    by_list (q ∷ qs) none t e = absurd t
    by_list (q ∷ qs) (some k) t e = elim (Bool-cases (sem.size_list == 0)) [
      | inl z ↦ absurd (subst IsNonEmpty (e.0 (ground (arith, z))) tt)
      | inr z ↦ rw z (link_after-IsTail address_of k p (q ∷ qs) t)
    ]

module _ {H : Type 0} ⦃m : Allocator H⦄ where
  sem_nq_proc-Queues :
      (s : Sems H) (i pid : ℕ)
      → i < length s.instances
      → (instance_at s i).availability ≡ false
      → IsWaitList (sem_at s i)
      → Queues
          (sem_at s i)
          (sem_at (sem_nq_proc s i pid).1 i)
          pid
          (m.alloc_memory 16 s.sched.heap).0
  unfolding sem_nq_proc
  sem_nq_proc-Queues s i pid h used w =
      elim (Bool-cases ((m.alloc_memory 16 s.sched.heap).0 == 0)) [
        | inl null ↦ rw (used, null) (no_memory (ground (arith, null)) refl)
        | inr given ↦
            rw (used, given)
              (subst (λ x. Queues (sem_at s i) x.sem pid (m.alloc_memory 16 s.sched.heap).0)
                (sym (get_or-set_self s.instances i _ no_instance h))
                (unfold enqueued in
                  queued (λ z. ground (arith, z, given)) (linked (sem_at s i) _ w) refl))
      ]

  sem_nq_proc-sched :
      (s : Sems H) (i pid : ℕ)
      → (instance_at s i).availability ≡ false
      → (sem_nq_proc s i pid).1.sched ≡ record s.sched { heap = (m.alloc_memory 16 s.sched.heap).1 }
  unfolding sem_nq_proc
  sem_nq_proc-sched s i pid used = elim (Bool-cases ((m.alloc_memory 16 s.sched.heap).0 == 0)) [
    | inl null ↦ rw (used, null) refl
    | inr given ↦ rw (used, given) refl
  ]

  sem_miss-Missed :
      (s : Sems H) (i : ℕ)
      → i < length s.instances
      → (instance_at s i).availability ≡ false
      → IsWaitList (sem_at s i)
      → Missed s i (sem_miss s i)
  unfolding sem_miss
  sem_miss-Missed s i h used w = elim (Bool-cases ((current s.sched.pcb).pid == minus_one)) [
    | inl e ↦
        rw e
          (record { queue = no_pid (ground (arith, e)) refl; heap = s.sched.heap; blocked = refl })
    | inr e ↦ rw e (record {
      queue = sem_nq_proc-Queues s i (current s.sched.pcb).pid h used w;
      heap = (m.alloc_memory 16 s.sched.heap).1;
      blocked =
          ap (λ q. (block q (current s.sched.pcb).pid).0)
            (sem_nq_proc-sched s i (current s.sched.pcb).pid used);
    })
  ]

  -- What an attempt leaves behind when it misses.
  abbrev pub MissesAt : Sems H → ℕ → Attempt (Sems H) → Type 0
  MissesAt s i (passes s' n) = Unit
  MissesAt s i (misses s') = Missed s i s'

  abbrev pub Waits : Sems H → ℕ → Attempt (Sems H) → Type 0
  Waits s i r = Counted s i r × MissesAt s i r

  -- On a semaphore in use whose list of waiting processes is in order (its tail pointer is right,
  -- and its size is 0 exactly if it is empty) and whose lock is held exactly when its value is 0,
  -- an attempt of `sem_wait` goes through and lowers the value by one, or, if the value is 0, it
  -- leaves the value and blocks the caller, who then stands at the end of the list of those who
  -- wait, unless there was no memory for its entry or its pid is -1; the lock is held exactly when
  -- the value is 0 afterwards too.
  pub sem_wait-Waits :
      (s : Sems H) (i : ℕ)
      → i < sem_amount
      → i < length s.instances
      → (instance_at s i).availability ≡ false
      → IsWaitList (sem_at s i)
      → IsCounting (sem_at s i)
      → Waits s i (sem_wait s i)
  unfolding sem_wait
  sem_wait-Waits s i small slot used list c = (sem_wait-Counted s i small slot c, attempt)
    where
      inside : is_outside i ≡ false
      inside = ground arith

      attempt : MissesAt s i (sem_wait s i)
      attempt = elim (Bool-cases ((sem_at s i).lock == 1)) [
        | inl e ↦ rw (inside, e) (sem_miss-Missed s i slot used list)
        | inr e ↦ rw (inside, e) tt
      ]
