-- ===== src/Scheduler/Invariant/Creates.antt =====
-- `createProcess` of Kernel/scheduler.c, called by a process on a valid table.
use peps_os.Common.{
  ℕ, zero, suc, ◌+◌, ◌≤◌, ◌<◌, ◌≡◌, ◌≢◌, ◌==◌, refl, sym, subst, ap, ◌∙◌, none, some, arith, inl,
  inr, ◌⊎◌, ◌&&◌, not, true, false, ltb, Bool-cases, inc32, minus_one, is_negative, length,
}
use peps_os.Common.Chain.{weigh, is_key}
use peps_os.Memory.{Allocator}
use peps_os.Scheduler.Table.{
  Process, ProcessTable, ProcessType, Sched, ready, at, max_priority, process_stack_size,
  sizeof_process,
}
use peps_os.Scheduler.Queues.{pid_of}
use peps_os.Scheduler.Create.{
  Request, Pipes, with_pipes, create_process_struct, admit, adopt, create_process, enqueue_new,
}
use peps_os.Scheduler.Invariant.{weigh_table, weigh_queues, IsSound, IsValid}
use peps_os.Scheduler.Invariant.Queued.{
  appended, appended-weigh, appended-IsQueue, length-appended, enqueue-appended,
}

-- No process has a pid that is still to be given.
abbrev pub IsFresh : {H : Type 0} → Sched H → Type 0
IsFresh s = (k : ℕ) → s.next_pid ≤ k → weigh_table (is_key k) s.pcb ≡ 0

-- The table has one process more, whose pid is the next one.
pub record Gains {H : Type 0} (s s' : Sched H) : Type 0 where
  pub valid : IsValid s'.pcb
  pub weight : (w : ℕ → ℕ) → weigh_table w s'.pcb ≡ weigh_table w s.pcb + w s.next_pid
  pub count : s'.pcb.process_count ≡ inc32 s.pcb.process_count
  pub next : s'.next_pid ≡ inc32 s.next_pid
  pub caller : Process
  pub runs : s'.pcb.running ≡ at caller

-- -1 and nothing changed, or the pid of the new process.
abbrev pub Creates : {H : Type 0} → ℕ → Sched H → Sched H × ℕ → Type 0
Creates priority s (s', n) =
    ((max_priority ≤ priority) × (n ≡ minus_one) × (s' ≡ s))
    ⊎ ((priority < max_priority) × (n ≡ s.next_pid) × Gains s s')

-- `allocMemory` has a stack and a structure for each of `n` new processes, from a heap on.
abbrev pub HasRoomFor : {H : Type 0} ⦃m : Allocator H⦄ → ℕ → H → Type 0
HasRoomFor zero heap = Unit
HasRoomFor ⦃m⦄ (suc n) heap =
    let (start, heap') = m.alloc_memory process_stack_size heap in
    let (address, heap'') = m.alloc_memory sizeof_process heap' in
    (start ≢ 0) × ((address ≢ 0) × HasRoomFor n heap'')

with_pipes-address : (o : Pipes) (p : Process) → (with_pipes o p).address ≡ p.address
with_pipes-address none p = refl
with_pipes-address (some (r, w)) p = refl

with_pipes-pid : (o : Pipes) (p : Process) → (with_pipes o p).pid ≡ p.pid
with_pipes-pid none p = refl
with_pipes-pid (some (r, w)) p = refl

with_pipes-state : (o : Pipes) (p : Process) → (with_pipes o p).state ≡ p.state
with_pipes-state none p = refl
with_pipes-state (some (r, w)) p = refl

with_pipes-priority : (o : Pipes) (p : Process) → (with_pipes o p).priority ≡ p.priority
with_pipes-priority none p = refl
with_pipes-priority (some (r, w)) p = refl

pub not_zero : (n : ℕ) → n ≢ 0 → (n == 0) ≡ false
not_zero zero h = absurd (h refl)
not_zero (suc n) h = ground arith

below :
    (priority : ℕ)
    → (not (is_negative priority) && ltb priority max_priority) ≡ true
    → priority < max_priority
below priority e = ground arith

above :
    (priority : ℕ)
    → (not (is_negative priority) && ltb priority max_priority) ≡ false
    → max_priority ≤ priority
above priority e = ground arith

module _ {H : Type 0} ⦃m : Allocator H⦄ (s : Sched H) (c : Process) where
  abbrev pub with_caller : Sched H
  with_caller = record s { pcb = record s.pcb { running = at c } }

  -- The table of `admit` before the process is queued.
  abbrev adopting : ProcessTable
  adopting = record s.pcb {
    running = at (record c { kids_count = inc32 c.kids_count });
    process_count = inc32 s.pcb.process_count;
  }

  admit-Gains :
      (p : Process) (priority : ℕ) (heap : H)
      → p.address ≢ 0
      → p.pid ≡ s.next_pid
      → p.state ≡ ready
      → p.priority < max_priority
      → priority < max_priority
      → IsValid with_caller.pcb
      → IsFresh with_caller
      → Gains with_caller
          (admit (record with_caller { heap = heap; next_pid = inc32 s.next_pid }) p priority).0
  unfolding admit adopt enqueue_new
  admit-Gains p priority heap given g r lt lt' v fresh =
      let some_address : (p.address == 0) ≡ false = not_zero p.address given in
      rw (some_address, enqueue-appended adopting priority child in_range h.queues)
        (record {
          valid = record {
            sound = record {
              lists = length-appended adopting priority child in_range ∙ h.lists;
              queues = appended-IsQueue adopting priority child in_range h.queues (r, lt) new;
              waiting = h.waiting;
              distinct = λ k. omega (arith, weight (is_key k), one_more k);
              runner = h.runner;
              idle = h.idle;
            };
            active = v.active;
          };
          weight = weight;
          count = refl;
          next = refl;
          caller = record c { kids_count = inc32 c.kids_count };
          runs = refl;
        })
    where
      h : IsSound with_caller.pcb
      h = v.sound

      child : Process
      child = record p { parent_pid = c.pid }

      in_range : priority < length s.pcb.priority_queue
      in_range = omega (arith, h.lists)

      new : weigh_queues (is_key child.pid) s.pcb.priority_queue ≡ 0
      new = rw g (omega (arith, fresh s.next_pid (omega arith)))

      weight :
          (w : ℕ → ℕ)
          → w c.pid
              + weigh pid_of w s.pcb.blocked
              + weigh_queues w (appended adopting priority child)
            ≡ weigh_table w with_caller.pcb + w s.next_pid
      weight w = omega (arith, appended-weigh adopting priority child in_range w, ap w g)

      one_more : (k : ℕ) → weigh_table (is_key k) with_caller.pcb + is_key k s.next_pid ≤ 1
      one_more k = ground (arith, h.distinct k, fresh k)

  created :
      (r : Request) (priority : ℕ) (tipo : ProcessType) (pipes : Pipes)
      → IsValid with_caller.pcb
      → IsFresh with_caller
      → HasRoomFor 1 s.heap
      → Creates priority with_caller (create_process with_caller r priority tipo pipes)
  unfolding create_process create_process_struct
  created r priority tipo pipes v fresh (_, (given, _)) =
      elim (Bool-cases (not (is_negative priority) && ltb priority max_priority)) [
        | inl e ↦ rw e (
            inr (
              below priority e,
              with_pipes-pid pipes _,
              admit-Gains (with_pipes pipes _) priority _
                  (λ z. given (sym (with_pipes-address pipes _) ∙ z)) (with_pipes-pid pipes _)
                  (with_pipes-state pipes _) (rw (with_pipes-priority pipes _) (below priority e))
                  (below priority e) v fresh,
            ))
        | inr e ↦ rw e (inl (above priority e, refl, refl))
      ]

-- Called by a process on a valid table, with a next pid that no process has and memory for a stack
-- and a structure, `createProcess` returns -1 and changes nothing if the priority is out of range;
-- else it returns the next pid, and one process of that pid joins the table, which stays valid.
pub create_process-Creates :
    {H : Type 0} ⦃m : Allocator H⦄ (s : Sched H) (c : Process)
    → s.running ≡ at c
    → (r : Request) (priority : ℕ) (tipo : ProcessType) (pipes : Pipes) → IsValid s.pcb
    → IsFresh s
    → HasRoomFor 1 s.heap
    → Creates priority s (create_process s r priority tipo pipes)
create_process-Creates {H} s c runs r priority tipo pipes =
    subst
      (λ q.
        let s' : Sched H = record s { pcb = record s.pcb { running = q } } in
        IsValid s'.pcb
        → IsFresh s'
        → HasRoomFor 1 s'.heap
        → Creates priority s' (create_process s' r priority tipo pipes))
      (sym runs) (created s c r priority tipo pipes)

-- What a creation leaves of the heap.
pub create_process-heap :
    {H : Type 0} ⦃m : Allocator H⦄ (s : Sched H) (r : Request) (tipo : ProcessType) (pipes : Pipes)
    → (create_process s r 0 tipo pipes).0.heap
      ≡ (m.alloc_memory sizeof_process (m.alloc_memory process_stack_size s.heap).1).1
unfolding create_process create_process_struct admit
create_process-heap s r tipo pipes = refl
