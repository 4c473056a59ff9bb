-- ===== src/Sem.antt =====
-- Kernel/sem.c, with `enter_region` and `leave_region` of Kernel/asm/libasm.asm.
--
-- A call of `sem_wait` or `sem_post` that misses the lock queues and blocks its caller, who tries again
-- from `enter_region` on when it next runs: an attempt either goes through (`passes`) or leaves the
-- caller blocked (`misses`). The next attempt of a `sem_wait` is `sem_wait` again, that of a `sem_post`
-- is `post_entered`. An attempt runs without an interrupt: the `sti` of `enter_region` is left out.
pub mod Counts
pub mod Waits
pub mod Runs
mod Tests
use peps_os.Common.{
  ℕ, zero, suc, ◌+◌, ◌-◌, ◌%◌, Bool, true, false, ◌&&◌, ◌||◌, not, Option, none, some, List, [],
  ◌∷◌, ◌==◌, ltb, leb, if◌then◌else◌, get_or, set, u32_mod, u64_mod, inc32, dec32, minus_one,
}
use peps_os.Common.Chain.{link_after}
use peps_os.Clib.{string_length, string_copy, same_string}
use peps_os.Memory.{Allocator}
use peps_os.Scheduler.Table.{Sched, current}
use peps_os.Scheduler.Timer.{unblock_in}
use peps_os.Scheduler.Switch.{block}

abbrev pub name_length : ℕ
name_length = 16

abbrev pub sem_amount : ℕ
sem_amount = 128

-- `sem_proc`, with its own address.
pub record SemProc : Type 0 where
  pub pid : ℕ
  pub address : ℕ

abbrev pub address_of : SemProc → ℕ
address_of p = p.address

-- `semaphore`; `waiting` is the list from `first_proc` on.
pub record Semaphore : Type 0 where
  pub name : List ℕ
  pub waiting : List SemProc
  pub last_proc : Option ℕ
  pub lock : ℕ
  pub val : ℕ
  pub size : ℕ
  pub size_list : ℕ

pub record Instance : Type 0 where
  pub sem : Semaphore
  pub availability : Bool

-- `sem_inst`, with the scheduler.
pub record Sems (H : Type 0) : Type 0 where
  pub instances : List Instance
  pub sched : Sched H

abbrev pub no_instance : Instance
no_instance = record {
  sem = record {
    name = [];
    waiting = [];
    last_proc = none;
    lock = 0;
    val = 0;
    size = 0;
    size_list = 0;
  };
  availability = false;
}

abbrev pub instance_at : {H : Type 0} → Sems H → ℕ → Instance
instance_at s i = get_or s.instances i no_instance

abbrev pub set_sem : {H : Type 0} → Sems H → ℕ → Semaphore → Sems H
set_sem s i sem = record s {
  instances = set s.instances i (record (instance_at s i) { sem = sem });
}

abbrev pub is_outside : ℕ → Bool
is_outside index = leb sem_amount index

-- The loop of `available_sem` from the list's start, which is index `i`.
unfoldable pub available_from : ℕ → List Instance → Option (ℕ × List Instance)
available_from i [] = none
available_from i (x ∷ xs) =
    let rest = available_from (suc i) xs in
    if x.availability
    then some (i, record x { availability = false } ∷ xs)
    else (elim rest [ none ↦ none | some r ↦ some (r.0, x ∷ r.1) ])

-- `available_sem`: index 0 is never looked at.
unfoldable pub available_sem : List Instance → Option (ℕ × List Instance)
unfolding available_from
available_sem [] = none
available_sem (x ∷ xs) = elim (available_from 1 xs) [ none ↦ none | some r ↦ some (r.0, x ∷ r.1) ]

unfoldable pub start_all : List Instance → List Instance
start_all [] = []
start_all (x ∷ xs) = record x { availability = true } ∷ start_all xs

-- `start_sems`.
unfoldable pub start_sems : {H : Type 0} → Sems H → Sems H
unfolding start_all
start_sems s = record s { instances = start_all s.instances }

-- The semaphore that `create_sem` sets up in its slot.
abbrev pub created : Semaphore → ℕ → List ℕ → Semaphore
created sem val id = record {
  name = string_copy id sem.name;
  waiting = [];
  last_proc = none;
  lock = if val == 0 then 1 else sem.lock;
  val = val % u32_mod;
  size = 1;
  size_list = 0;
}

abbrev pub failed : ℕ
failed = u64_mod - 1

unfoldable pub create_in :
    {H : Type 0} → Sems H → ℕ → Option (List ℕ) → ℕ × List Instance → ℕ × Sems H
create_in s val none (i, l) = (failed, record s { instances = l })
create_in s val (some id) (i, l) =
    let s' = record s { instances = l } in
    if leb name_length (string_length id)
    then (failed, s')
    else (i, set_sem s' i (created (instance_at s' i).sem val id))

unfoldable pub create_sem_on :
    {H : Type 0} → Sems H → ℕ → Option (List ℕ) → Option (ℕ × List Instance) → ℕ × Sems H
unfolding create_in
create_sem_on s val id none = (failed, s)
create_sem_on s val id (some r) = create_in s val id r

-- `create_sem`; a null name is `none`.
unfoldable pub create_sem : {H : Type 0} → Sems H → ℕ → Option (List ℕ) → ℕ × Sems H
unfolding create_sem_on
create_sem s val id = create_sem_on s val id (available_sem s.instances)

-- The loop of `get_sem_indx` from index `i` on.
unfoldable pub sem_index_from : ℕ → List ℕ → List Instance → Option ℕ
sem_index_from i id [] = none
sem_index_from i id (x ∷ xs) =
    if not x.availability && same_string id x.sem.name then some i else sem_index_from (suc i) id xs

-- `get_sem_indx`; `none` stands for -1.
unfoldable pub get_sem_indx : {H : Type 0} → Sems H → List ℕ → Option ℕ
unfolding sem_index_from
get_sem_indx s id = sem_index_from 0 id s.instances

unfoldable pub sem_open_on : {H : Type 0} → Sems H → ℕ → List ℕ → Option ℕ → ℕ × Sems H
sem_open_on s val id (some i) = (i, s)
sem_open_on s val id none = let (i, s') = create_sem s val (some id) in (i % u32_mod, s')

-- `sem_open`; an `int` becomes a `uint64_t` with its sign.
unfoldable pub sem_open : {H : Type 0} → Sems H → ℕ → List ℕ → ℕ × Sems H
unfolding sem_open_on
sem_open s val id =
    sem_open_on s (if ltb val 2147483648 then val else val + (u64_mod - u32_mod)) id
      (get_sem_indx s id)

-- An attempt of a call.
pub data Attempt (S : Type 0) : Type 0 where
  passes : S → ℕ → Attempt S
  misses : S → Attempt S

-- The first process that waits, and the semaphore without it.
unfoldable pub dequeued : List SemProc → Semaphore → Option (SemProc × Semaphore)
dequeued [] sem = none
dequeued (p ∷ []) sem = some (
  p,
  record sem {
    waiting = [];
    last_proc = none;
    size_list = (sem.size_list + (u64_mod - 1)) % u64_mod;
  },
)
dequeued (p ∷ q ∷ ps) sem =
    some (p, record sem { waiting = q ∷ ps; size_list = (sem.size_list + (u64_mod - 1)) % u64_mod })

-- `last_proc->next = new_proc`; through a null pointer nothing of the list changes.
unfoldable pub link_waiting : Option ℕ → SemProc → List SemProc → List SemProc
link_waiting none p l = l
link_waiting (some k) p l = link_after address_of k p l

-- The semaphore with one more process that waits.
unfoldable pub enqueued : Semaphore → SemProc → Semaphore
unfolding link_waiting
enqueued sem p = record sem {
  waiting = if sem.size_list == 0 then p ∷ [] else link_waiting sem.last_proc p sem.waiting;
  last_proc = some p.address;
  size_list = (sem.size_list + 1) % u64_mod;
}

module _ {H : Type 0} ⦃m : Allocator H⦄ where
  unfoldable pub dq_with : Sems H → ℕ → Option (SemProc × Semaphore) → ℕ × Sems H
  dq_with s i none = (minus_one, s)
  dq_with s i (some (p, sem)) =
      let s' = set_sem s i sem in
      (
        p.pid,
        record s' { sched = record s'.sched { heap = m.free_memory p.address s'.sched.heap } },
      )

  -- `sem_dq_proc`.
  unfoldable pub sem_dq_proc : Sems H → ℕ → ℕ × Sems H
  unfolding dequeued dq_with
  sem_dq_proc s i =
      let x = instance_at s i in
      if x.availability then (minus_one, s) else dq_with s i (dequeued x.sem.waiting x.sem)

  -- `sem_nq_proc`.
  unfoldable pub sem_nq_proc : Sems H → ℕ → ℕ → ℕ × Sems H
  unfolding enqueued
  sem_nq_proc s i pid =
      let x = instance_at s i in
      let (address, heap) = m.alloc_memory 16 s.sched.heap in
      let s' = record s { sched = record s.sched { heap = heap } } in
      if x.availability
      then (minus_one, s)
      else (if address == 0
          then (minus_one, s')
          else (0, set_sem s' i (enqueued x.sem (record { pid = pid; address = address }))))

  -- `sem_miss`, after which another process runs.
  unfoldable pub sem_miss : Sems H → ℕ → Sems H
  sem_miss s i =
      let pid = (current s.sched.pcb).pid in
      let s' = if pid == minus_one then s else (sem_nq_proc s i pid).1 in
      record s' { sched = (block s'.sched pid).0 }

  -- `unblock(sem_dq_proc(index))`.
  unfoldable pub wake_one : Sems H → ℕ → Sems H
  wake_one s i = let (pid, s') = sem_dq_proc s i in record s' { sched = unblock_in s'.sched pid }

  -- `sem_wait` from `enter_region` on: the lock is taken, and given back unless the value is now 0.
  unfoldable pub sem_wait : Sems H → ℕ → Attempt (Sems H)
  sem_wait s i =
      let sem = (instance_at s i).sem in
      let val = dec32 sem.val in
      if is_outside i
      then passes s 1
      else (if sem.lock == 1
          then misses (sem_miss s i)
          else passes (set_sem s i (record sem { lock = if val == 0 then 1 else 0; val = val })) 0)

  -- `sem_post` behind the lock: the value rises, one process is woken, and the lock is free.
  unfoldable pub post_inside : Sems H → ℕ → Sems H
  post_inside s i =
      let sem = (instance_at s i).sem in
      let s' = set_sem s i (record sem { val = inc32 sem.val }) in
      let s'' = if ltb 0 sem.size_list then wake_one s' i else s' in
      set_sem s'' i (record (instance_at s'' i).sem { lock = 0 })

  -- `sem_post` from `enter_region` on.
  unfoldable pub post_entered : Sems H → ℕ → Attempt (Sems H)
  post_entered s i =
      if (instance_at s i).sem.lock == 1 then misses (sem_miss s i) else passes (post_inside s i) 0

  -- `sem_post`: with a value of 0 the lock is not asked for.
  unfoldable pub sem_post : Sems H → ℕ → Attempt (Sems H)
  unfolding post_entered
  sem_post s i =
      let sem = (instance_at s i).sem in
      if is_outside i
      then passes s 1
      else (if sem.val == 0 then passes (post_inside s i) 0 else post_entered s i)

  -- `while (size_list > 0) unblock(sem_dq_proc(index));`, with fuel.
  unfoldable pub wake_all : ℕ → Sems H → ℕ → Sems H
  wake_all zero s i = s
  wake_all (suc f) s i =
      let rest = wake_all f (wake_one s i) i in
      if ltb 0 (instance_at s i).sem.size_list then rest else s

  -- `clear_sem`; each turn of the loop takes one process out of the list.
  unfoldable pub clear_sem : Sems H → ℕ → Sems H
  unfolding wake_all
  clear_sem s i =
      let s' = wake_all (instance_at s i).sem.size_list s i in
      if is_outside i then s else record s' {
        instances = set s'.instances i (record (instance_at s' i) { availability = true });
      }

  unfoldable pub close_on : Sems H → Option ℕ → ℕ × Sems H
  close_on s none = (minus_one, s)
  close_on s (some i) = (0, clear_sem s i)

  -- `sem_close`.
  unfoldable pub sem_close : Sems H → List ℕ → ℕ × Sems H
  unfolding close_on
  sem_close s id = close_on s (get_sem_indx s id)
