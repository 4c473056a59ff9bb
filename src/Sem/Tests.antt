-- ===== src/Sem/Tests.antt =====
-- The theorems about Kernel/sem.c on an array of two semaphores.
use peps_os.Common.{ℕ, ◌+◌, ◌≡◌, refl, arith, inl, inr, subst, false, none, some, [], ◌∷◌}
use peps_os.Memory.{Allocator}
use peps_os.Scheduler.Table.{Process, ProcessTable, foreground, running, at}
use peps_os.Sem.{Semaphore, Sems, no_instance, sem_wait, sem_post}
use peps_os.Sem.Counts.{IsCounting, sem_at, Posts}
use peps_os.Sem.Waits.{IsWaitList, IsNonEmpty, Waits, sem_wait-Waits}
use peps_os.Sem.Runs.{start, posted, sem_post-Posts, SemRuns-balance}

instance abbrev bump : Allocator ℕ
bump = record { alloc_memory = λ n h. (h + 16, h + 16 + n); free_memory = λ p h. h }

abbrev caller : Process
caller = record {
  rsp = 0;
  rbp = 0;
  mem_start_adress = 0;
  pid = 3;
  state = running;
  priority = 0;
  parent_pid = 0;
  tipo = foreground;
  name = 0;
  kids_count = 0;
  in_pipe = 0;
  out_pipe = 0;
  address = 0;
}

abbrev table : ProcessTable
table = record {
  process_count = 1;
  running = at caller;
  priority_queue = [];
  blocked = [];
  halt = caller;
  at_null = caller;
  null_next = none;
}

abbrev open_sem : Semaphore
open_sem = record no_instance.sem { val = 2 }

abbrev sems : Sems ℕ
sems = record {
  instances = no_instance ∷ record { sem = open_sem; availability = false } ∷ [];
  sched = record {
    pcb = table;
    next_pid = 4;
    heap = 4096;
    sleeped = [];
    ticks = 0;
    cpu_rsp = 0;
    cpu_rbp = 0;
  };
}

open_IsCounting : IsCounting (sem_at sems 1)
open_IsCounting = inr (omega arith, omega arith, refl)

-- A semaphore with the value 0, at which a process waits.
abbrev held_sem : Semaphore
held_sem = record no_instance.sem {
  lock = 1;
  waiting = record { pid = 2; address = 64 } ∷ [];
  last_proc = some 64;
  size_list = 1;
}

abbrev held_sems : Sems ℕ
held_sems = record sems {
  instances = no_instance ∷ record { sem = held_sem; availability = false } ∷ [];
}

one_waits : IsWaitList held_sem
one_waits = record {
  tail = refl;
  sized = (λ e. absurd (omega (arith, e)), λ e. absurd (subst IsNonEmpty e tt));
}

sem_wait-Waits_example : Waits held_sems 1 (sem_wait held_sems 1)
sem_wait-Waits_example =
    sem_wait-Waits held_sems 1 (omega arith) (omega arith) refl one_waits (inl (refl, refl))

sem_post-Posts_example : Posts sems 1 (sem_post sems 1)
sem_post-Posts_example =
    sem_post-Posts sems 1 (omega arith) (omega arith) (omega arith) open_IsCounting

posts : Posts sems 1 (sem_post sems 1)
posts = sem_post-Posts sems 1 (omega arith) (omega arith) (omega arith) open_IsCounting

SemRuns-balance_example :
    ((sem_at posts.after 1).val + 0 ≡ (sem_at sems 1).val + 1) × IsCounting (sem_at posts.after 1)
SemRuns-balance_example =
    SemRuns-balance sems 1 (omega arith) (omega arith) open_IsCounting 0 1 posts.after
      (posted 0 0 sems posts.after start (omega arith) posts.returns)
