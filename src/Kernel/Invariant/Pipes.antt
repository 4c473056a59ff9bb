-- ===== src/Kernel/Invariant/Pipes.antt =====
-- The process table across the pipes of Kernel/pipes.c.
use peps_os.Common.{
  ℕ, ◌≡◌, refl, sym, subst, arith, ◌||◌, Option, none, some, inl, inr, List, [], ◌∷◌, ◌==◌, leb,
  Bool-cases, minus_one, inc32,
}
use peps_os.Memory.{Allocator}
use peps_os.Clib.{string_length}
use peps_os.Scheduler.Table.{Process, Sched}
use peps_os.Scheduler.Invariant.System.{Inv}
use peps_os.Sem.{Sems, Attempt, passes, misses, sem_wait, sem_post, sem_close}
use peps_os.Pipes.{
  Pipes, PipeInstance, Progress, create_pipe, create_in, open_pipe, open_after, open_on, opened,
  posted, close_pipe, close_after, write_char, write_on, write_from, write_to_pipe, read_pipe,
  read_after, get_pipe, get_free_instance, valid_index, pipe_at, named_pipe,
}
use peps_os.Kernel.Invariant.Sems.{
  Runs, Tries, create_sem-sched, sem_close-Runs, sem_wait-Tries, sem_post-Tries,
}

abbrev pub table_of : {H : Type 0} → Pipes H → Sched H
table_of s = s.sems.sched

-- A call on the pipes that returns leaves its caller running.
abbrev pub GoesOn : {H : Type 0} → Process → Progress (Pipes H) → Type 0
GoesOn p (Progress.returns s n) = Runs p (table_of s)
GoesOn p (Progress.again s) = Inv (table_of s)
GoesOn p (Progress.posting s n) = Inv (table_of s)

module _ {H : Type 0} where
  create_in-sched :
      (s : Pipes H) (id : List ℕ) (o : Option (ℕ × List PipeInstance))
      → table_of (create_in s id o).1 ≡ table_of s
  unfolding create_in
  create_in-sched s id none = refl
  create_in-sched s id (some (i, l)) =
      let p = named_pipe (pipe_at (record s { pipe_inst = l }) i) id in
      ground (arith, create_sem-sched s.sems 0 (some p.read_sem_name))

  pub create_pipe-sched : (s : Pipes H) (id : List ℕ) → table_of (create_pipe s id).1 ≡ table_of s
  unfolding create_pipe
  create_pipe-sched s id =
      elim (Bool-cases ((string_length id == 0) || leb 15 (string_length id))) [
        | inl e ↦ rw e refl
        | inr e ↦ rw e (create_in-sched s id (get_free_instance 0 s.pipe_inst))
      ]

module _ {H : Type 0} ⦃m : Allocator H⦄ (p : Process) where
  posted-GoesOn :
      (s : Pipes H) (value : ℕ) (a : Attempt (Sems H)) → Tries p a → GoesOn p (posted s value a)
  unfolding posted
  posted-GoesOn s value (passes t n) r = r
  posted-GoesOn s value (misses t) r = r

  post-GoesOn :
      (s : Pipes H) (value i : ℕ)
      → Runs p (table_of s)
      → GoesOn p (posted s value (sem_post s.sems i))
  post-GoesOn s value i r = posted-GoesOn s value _ (sem_post-Tries p s.sems i r)

  opened-GoesOn : (s : Pipes H) (r : ℕ × Pipes H) → Runs p (table_of r.1) → GoesOn p (opened s r)
  unfolding opened
  opened-GoesOn s (i, s') r = elim (Bool-cases (i == minus_one)) [
    | inl e ↦ rw e (post-GoesOn s' minus_one s'.sem_for_pipe_man r)
    | inr e ↦ rw e (post-GoesOn _ i s'.sem_for_pipe_man r)
  ]

  pub open_pipe-GoesOn :
      (s : Pipes H) (id : List ℕ) → Runs p (table_of s) → GoesOn p (open_pipe s id)
  unfolding open_pipe
  open_pipe-GoesOn s id r =
      by_attempt (sem_wait s.sems s.sem_for_pipe_man) (sem_wait-Tries p s.sems s.sem_for_pipe_man r)
    where
      by_pipe : (t : Pipes H) (o : Option ℕ) → Runs p (table_of t) → GoesOn p (open_on t id o)
      by_pipe t (some i) q = opened-GoesOn t (i, t) q
      by_pipe t none q =
          opened-GoesOn t (create_pipe t id) (subst (Runs p) (sym (create_pipe-sched t id)) q)

      by_attempt : (a : Attempt (Sems H)) → Tries p a → GoesOn p (open_after s id a)
      by_attempt (misses t) q = q
      by_attempt (passes t n) q = elim (Bool-cases (n == 0)) [
        | inl e ↦ rw e (by_pipe (record s { sems = t }) (get_pipe 0 id s.pipe_inst) q)
        | inr e ↦ rw e q
      ]

  pub close_pipe-GoesOn : (s : Pipes H) (i : ℕ) → Runs p (table_of s) → GoesOn p (close_pipe s i)
  unfolding close_pipe
  close_pipe-GoesOn s i r = elim (Bool-cases (valid_index s i)) [
    | inr e ↦ rw e r
    | inl e ↦ rw e (
        by_attempt (sem_wait s.sems s.sem_for_pipe_man)
          (sem_wait-Tries p s.sems s.sem_for_pipe_man r))
  ]
    where
      by_attempt : (a : Attempt (Sems H)) → Tries p a → GoesOn p (close_after s i a)
      by_attempt (misses t) q = q
      by_attempt (passes t n) q =
          let name = (pipe_at s i).read_sem_name in
          elim (Bool-cases ((sem_close t name).0 == minus_one)) [
            | inl e ↦ rw e (sem_close-Runs p t name q)
            | inr e ↦ rw e (post-GoesOn _ 1 s.sem_for_pipe_man (sem_close-Runs p t name q))
          ]

  write_char-GoesOn : (s : Pipes H) (i c : ℕ) → Runs p (table_of s) → GoesOn p (write_char s i c)
  unfolding write_char
  write_char-GoesOn s i c r = elim (Bool-cases (valid_index s i)) [
    | inl e ↦ rw e (post-GoesOn _ 1 _ r)
    | inr e ↦ rw e r
  ]

  pub read_pipe-GoesOn : (s : Pipes H) (i : ℕ) → Runs p (table_of s) → GoesOn p (read_pipe s i)
  unfolding read_pipe
  read_pipe-GoesOn s i r = elim (Bool-cases (valid_index s i)) [
    | inr e ↦ rw e r
    | inl e ↦ rw e (
        by_attempt (sem_wait s.sems (pipe_at s i).read_sem)
          (sem_wait-Tries p s.sems (pipe_at s i).read_sem r))
  ]
    where
      by_attempt : (a : Attempt (Sems H)) → Tries p a → GoesOn p (read_after s i a)
      by_attempt (misses t) q = q
      by_attempt (passes t n) q = q

  write_on-GoesOn :
      (cs : List ℕ) (count : ℕ) (next : Pipes H → List ℕ × Progress (Pipes H))
      (r : Progress (Pipes H))
      → ((t : Pipes H) → Runs p (table_of t) → GoesOn p (next t).1)
      → GoesOn p r
      → GoesOn p (write_on cs count next r).1
  unfolding write_on
  write_on-GoesOn cs count next (Progress.returns t value) f r =
      elim (Bool-cases (value == minus_one)) [ inl e ↦ rw e r | inr e ↦ rw e (f t r) ]
  write_on-GoesOn cs count next (Progress.again t) f r = r
  write_on-GoesOn cs count next (Progress.posting t value) f r = r

  write_from-GoesOn :
      (s : Pipes H) (i : ℕ) (cs : List ℕ) (count : ℕ)
      → Runs p (table_of s)
      → GoesOn p (write_from s i cs count).1
  unfolding write_from
  write_from-GoesOn s i [] count r = r
  write_from-GoesOn s i (c ∷ cs) count r = elim (Bool-cases (c == 0)) [
    | inl e ↦ rw e r
    | inr e ↦ rw e (
        write_on-GoesOn cs count _ (write_char s i c)
          (λ t q. write_from-GoesOn t i cs (inc32 count) q) (write_char-GoesOn s i c r))
  ]

  pub write_to_pipe-GoesOn :
      (s : Pipes H) (i : ℕ) (str : List ℕ)
      → Runs p (table_of s)
      → GoesOn p (write_to_pipe s i str).1
  unfolding write_to_pipe
  write_to_pipe-GoesOn s i str r = elim (Bool-cases (valid_index s i)) [
    | inl e ↦ rw e (write_from-GoesOn s i str 0 r)
    | inr e ↦ rw e r
  ]
