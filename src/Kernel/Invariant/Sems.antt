-- ===== src/Kernel/Invariant/Sems.antt =====
-- The process table across the semaphores of Kernel/sem.c.
use peps_os.Common.{
  ℕ, zero, suc, ◌≡◌, refl, ◌∙◌, arith, Option, none, some, inl, inr, List, ◌==◌, ltb, Bool-cases,
  minus_one,
}
use peps_os.Memory.{Allocator}
use peps_os.Scheduler.Table.{Process, Sched, at, current}
use peps_os.Scheduler.Timer.{unblock_in}
use peps_os.Scheduler.Invariant.Woken.{unblock-running}
use peps_os.Scheduler.Invariant.System.{Inv, block_Inv, unblock_Inv}
use peps_os.Sem.{
  Sems, Instance, SemProc, Semaphore, Attempt, passes, misses, sem_wait, sem_post, sem_close,
  sem_open, create_sem, create_sem_on, create_in, sem_open_on, sem_miss, sem_nq_proc, sem_dq_proc,
  dq_with, dequeued, wake_one, wake_all, clear_sem, close_on, post_inside, post_entered,
  instance_at, is_outside, get_sem_indx, available_sem,
}

-- The table is in order, and this process runs.
abbrev pub Runs : {H : Type 0} → Process → Sched H → Type 0
Runs p s = Inv s × (s.running ≡ at p)

-- An attempt that goes through leaves its caller running.
abbrev pub Tries : {H : Type 0} → Process → Attempt (Sems H) → Type 0
Tries p (passes s n) = Runs p s.sched
Tries p (misses s) = Inv s.sched

pub with_heap-Inv : {H : Type 0} (s : Sched H) (h : H) → Inv s → Inv (record s { heap = h })
with_heap-Inv s h v = record {
  valid = v.valid;
  fresh = v.fresh;
  counted = v.counted;
  bounded = v.bounded;
  small = v.small;
}

module _ {H : Type 0} where
  create_in-sched :
      (s : Sems H) (val : ℕ) (id : Option (List ℕ)) (r : ℕ × List Instance)
      → (create_in s val id r).1.sched ≡ s.sched
  unfolding create_in
  create_in-sched s val none (i, l) = refl
  create_in-sched s val (some id) (i, l) = ground arith

  pub create_sem-sched :
      (s : Sems H) (val : ℕ) (id : Option (List ℕ)) → (create_sem s val id).1.sched ≡ s.sched
  unfolding create_sem
  create_sem-sched s val id = by_slot (available_sem s.instances)
    where
      by_slot : (o : Option (ℕ × List Instance)) → (create_sem_on s val id o).1.sched ≡ s.sched
      by_slot none = refl
      by_slot (some r) = create_in-sched s val id r

  pub sem_open-sched : (s : Sems H) (val : ℕ) (id : List ℕ) → (sem_open s val id).1.sched ≡ s.sched
  unfolding sem_open
  sem_open-sched s val id = by_index _ (get_sem_indx s id)
    where
      by_index : (v : ℕ) (o : Option ℕ) → (sem_open_on s v id o).1.sched ≡ s.sched
      by_index v (some i) = refl
      by_index v none = create_sem-sched s v (some id)

module _ {H : Type 0} ⦃m : Allocator H⦄ (p : Process) where
  unblock_Runs : (s : Sched H) (pid : ℕ) → Runs p s → Runs p (unblock_in s pid)
  unblock_Runs s pid (v, e) = (unblock_Inv s pid v, unblock-running s.pcb pid v.valid.sound ∙ e)

  sem_dq_proc-Runs : (s : Sems H) (i : ℕ) → Runs p s.sched → Runs p (sem_dq_proc s i).1.sched
  unfolding sem_dq_proc
  sem_dq_proc-Runs s i r = elim (Bool-cases (instance_at s i).availability) [
    | inl e ↦ rw e r
    | inr e ↦ rw e (by_first (dequeued (instance_at s i).sem.waiting (instance_at s i).sem))
  ]
    where
      by_first : (o : Option (SemProc × Semaphore)) → Runs p (dq_with s i o).1.sched
      by_first none = r
      by_first (some (q, sem)) = (with_heap-Inv s.sched _ r.0, r.1)

  wake_one-Runs : (s : Sems H) (i : ℕ) → Runs p s.sched → Runs p (wake_one s i).sched
  unfolding wake_one
  wake_one-Runs s i r = unblock_Runs _ _ (sem_dq_proc-Runs s i r)

  wake_all-Runs : (f : ℕ) (s : Sems H) (i : ℕ) → Runs p s.sched → Runs p (wake_all f s i).sched
  unfolding wake_all
  wake_all-Runs zero s i r = r
  wake_all-Runs (suc f) s i r = elim (Bool-cases (ltb 0 (instance_at s i).sem.size_list)) [
    | inl e ↦ rw e (wake_all-Runs f (wake_one s i) i (wake_one-Runs s i r))
    | inr e ↦ rw e r
  ]

  clear_sem-Runs : (s : Sems H) (i : ℕ) → Runs p s.sched → Runs p (clear_sem s i).sched
  unfolding clear_sem
  clear_sem-Runs s i r = elim (Bool-cases (is_outside i)) [
    | inl e ↦ rw e r
    | inr e ↦ rw e (wake_all-Runs (instance_at s i).sem.size_list s i r)
  ]

  pub sem_close-Runs : (s : Sems H) (id : List ℕ) → Runs p s.sched → Runs p (sem_close s id).1.sched
  unfolding sem_close
  sem_close-Runs s id r = by_index (get_sem_indx s id)
    where
      by_index : (o : Option ℕ) → Runs p (close_on s o).1.sched
      by_index none = r
      by_index (some i) = clear_sem-Runs s i r

  sem_nq_proc-Runs :
      (s : Sems H) (i pid : ℕ) → Runs p s.sched → Runs p (sem_nq_proc s i pid).1.sched
  unfolding sem_nq_proc
  sem_nq_proc-Runs s i pid r = elim (Bool-cases (instance_at s i).availability) [
    | inl e ↦ rw e r
    | inr e ↦ elim (Bool-cases ((m.alloc_memory 16 s.sched.heap).0 == 0)) [
      | inl f ↦ rw (e, f) (with_heap-Inv s.sched _ r.0, r.1)
      | inr f ↦ rw (e, f) (with_heap-Inv s.sched _ r.0, r.1)
    ]
  ]

  sem_miss-Inv : (s : Sems H) (i : ℕ) → Runs p s.sched → Inv (sem_miss s i).sched
  unfolding sem_miss
  sem_miss-Inv s i r = elim (Bool-cases ((current s.sched.pcb).pid == minus_one)) [
    | inl e ↦ rw e (block_Inv s.sched p (current s.sched.pcb).pid r.1 r.0)
    | inr e ↦
        let q = sem_nq_proc-Runs s i (current s.sched.pcb).pid r in
        rw e (block_Inv _ p (current s.sched.pcb).pid q.1 q.0)
  ]

  pub sem_wait-Tries : (s : Sems H) (i : ℕ) → Runs p s.sched → Tries p (sem_wait s i)
  unfolding sem_wait
  sem_wait-Tries s i r = elim (Bool-cases (is_outside i)) [
    | inl e ↦ rw e r
    | inr e ↦ elim (Bool-cases ((instance_at s i).sem.lock == 1)) [
      | inl f ↦ rw (e, f) (sem_miss-Inv s i r)
      | inr f ↦ rw (e, f) r
    ]
  ]

  post_inside-Runs : (s : Sems H) (i : ℕ) → Runs p s.sched → Runs p (post_inside s i).sched
  unfolding post_inside
  post_inside-Runs s i r = elim (Bool-cases (ltb 0 (instance_at s i).sem.size_list)) [
    | inl e ↦ rw e (wake_one-Runs _ i r)
    | inr e ↦ rw e r
  ]

  pub sem_post-Tries : (s : Sems H) (i : ℕ) → Runs p s.sched → Tries p (sem_post s i)
  unfolding sem_post post_entered
  sem_post-Tries s i r = elim (Bool-cases (is_outside i)) [
    | inl e ↦ rw e r
    | inr e ↦ elim (Bool-cases ((instance_at s i).sem.val == 0)) [
      | inl z ↦ rw (e, z) (post_inside-Runs s i r)
      | inr z ↦ elim (Bool-cases ((instance_at s i).sem.lock == 1)) [
        | inl f ↦ rw (e, z, f) (sem_miss-Inv s i r)
        | inr f ↦ rw (e, z, f) (post_inside-Runs s i r)
      ]
    ]
  ]
