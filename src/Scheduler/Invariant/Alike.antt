-- ===== src/Scheduler/Invariant/Alike.antt =====
-- Changes inside a process of Kernel/scheduler.c that leave the lists as they are: the number of its
-- children, and a priority.
use peps_os.Common.{
  ℕ, suc, ◌+◌, ◌<◌, ◌≡◌, refl, sym, ap, ap₂, ◌∙◌, inl, inr, Option, none, some, List, [], ◌∷◌,
  arith, length, All, ◌==◌, Bool-cases,
}
use peps_os.Common.Chain.{weigh, is_key, IsTail}
use peps_os.Scheduler.Table.{Process, ReadyList, ProcessTable, max_priority}
use peps_os.Scheduler.Queues.{pid_of}
use peps_os.Scheduler.Kids.{
  decrement_in, decrement_in_queues, decrement_kids_count, decrement_kids_count_on_blocked_process,
  decrement_kids_count_on_ready_process, queues_with, table_with, blocked_with, on_ready_unless,
}
use peps_os.Scheduler.Priorities.{set_priority_in}
use peps_os.Scheduler.Invariant.{weigh_queues, IsSound, IsReady, IsBlocked, IsQueue, Stays}

-- The same pids in the same states, and priorities in range.
abbrev pub Alike : List Process → List Process → Type 0
Alike [] [] = Unit {0}
Alike [] (q ∷ qs) = ⊥
Alike (p ∷ ps) [] = ⊥
Alike (p ∷ ps) (q ∷ qs) =
    ((q.pid ≡ p.pid)
      × (q.state ≡ p.state)
      × (p.priority < max_priority → q.priority < max_priority))
    × Alike ps qs

pub Alike-refl : (ps : List Process) → Alike ps ps
Alike-refl [] = tt
Alike-refl (p ∷ ps) = ((refl, refl, λ h. h), Alike-refl ps)

pub Alike-weigh :
    (w : ℕ → ℕ) (ps qs : List Process) → Alike ps qs → weigh pid_of w qs ≡ weigh pid_of w ps
Alike-weigh w [] [] a = refl
Alike-weigh w [] (q ∷ qs) a = absurd a
Alike-weigh w (p ∷ ps) [] a = absurd a
Alike-weigh w (p ∷ ps) (q ∷ qs) a = ap₂ ◌+◌ (ap w a.0.0) (Alike-weigh w ps qs a.1)

Alike-IsReady : (ps qs : List Process) → Alike ps qs → All IsReady ps → All IsReady qs
Alike-IsReady [] [] a h = tt
Alike-IsReady [] (q ∷ qs) a h = absurd a
Alike-IsReady (p ∷ ps) [] a h = absurd a
Alike-IsReady (p ∷ ps) (q ∷ qs) a h = ((a.0.1 ∙ h.0.0, a.0.2 h.0.1), Alike-IsReady ps qs a.1 h.1)

pub Alike-IsBlocked : (ps qs : List Process) → Alike ps qs → All IsBlocked ps → All IsBlocked qs
Alike-IsBlocked [] [] a h = tt
Alike-IsBlocked [] (q ∷ qs) a h = absurd a
Alike-IsBlocked (p ∷ ps) [] a h = absurd a
Alike-IsBlocked (p ∷ ps) (q ∷ qs) a h =
    ((a.0.1 ∙ h.0.0, a.0.2 h.0.1), Alike-IsBlocked ps qs a.1 h.1)

Alike-IsTail :
    (o : Option ℕ) (ps qs : List Process) → Alike ps qs → IsTail pid_of o ps → IsTail pid_of o qs
Alike-IsTail o [] [] a t = t
Alike-IsTail o [] (q ∷ qs) a t = absurd a
Alike-IsTail o (p ∷ ps) [] a t = absurd a
Alike-IsTail none (p ∷ ps) (q ∷ qs) a t = absurd t
Alike-IsTail (some k) (p ∷ []) (q ∷ []) a t = a.0.0 ∙ t
Alike-IsTail (some k) (p ∷ []) (q ∷ q' ∷ qs) a t = absurd a.1
Alike-IsTail (some k) (p ∷ p' ∷ ps) (q ∷ []) a t = absurd a.1
Alike-IsTail (some k) (p ∷ p' ∷ ps) (q ∷ q' ∷ qs) a t =
    (λ e. t.0 (sym a.0.0 ∙ e), Alike-IsTail (some k) (p' ∷ ps) (q' ∷ qs) a.1 t.1)

-- A search that may change one process.
abbrev pub Changes : List Process → Option (List Process) → Type 0
Changes ps none = Unit {0}
Changes ps (some qs) = Alike ps qs

pub decrement_in-Changes : (pid : ℕ) (ps : List Process) → Changes ps (decrement_in pid ps)
unfolding decrement_in
decrement_in-Changes pid [] = tt
decrement_in-Changes pid (p ∷ ps) = elim (Bool-cases (p.pid == pid)) [
  | inl e ↦ rw e ((refl, refl, λ h. h), Alike-refl ps)
  | inr e ↦ rw e (behind (decrement_in pid ps) (decrement_in-Changes pid ps))
]
  where
    behind :
        (r : Option (List Process))
        → Changes ps r
        → Changes (p ∷ ps) (elim r [ none ↦ none | some l ↦ some (p ∷ l) ])
    behind none c = tt
    behind (some l) c = ((refl, refl, λ h. h), c)

pub set_priority_in-Changes :
    (pid priority : ℕ) (ps : List Process)
    → priority < max_priority
    → Changes ps (set_priority_in pid priority ps)
unfolding set_priority_in
set_priority_in-Changes pid priority [] lt = tt
set_priority_in-Changes pid priority (p ∷ ps) lt = elim (Bool-cases (p.pid == pid)) [
  | inl e ↦ rw e ((refl, refl, λ h. lt), Alike-refl ps)
  | inr e ↦
      rw e (behind (set_priority_in pid priority ps) (set_priority_in-Changes pid priority ps lt))
]
  where
    behind :
        (r : Option (List Process))
        → Changes ps r
        → Changes (p ∷ ps) (elim r [ none ↦ none | some l ↦ some (p ∷ l) ])
    behind none c = tt
    behind (some l) c = ((refl, refl, λ h. h), c)

-- The same for the ready lists.
pub record QueuesAlike (qs rs : List ReadyList) : Type 0 where
  pub weight : (w : ℕ → ℕ) → weigh_queues w rs ≡ weigh_queues w qs
  pub queues : All IsQueue qs → All IsQueue rs
  pub lists : length rs ≡ length qs

QueueChanges : List ReadyList → Option (List ReadyList) → Type 0
QueueChanges qs none = Unit {0}
QueueChanges qs (some rs) = QueuesAlike qs rs

first_list :
    (q : ReadyList) (qs : List ReadyList) (r : Option (List Process))
    (rest : Option (List ReadyList))
    → Changes q.ready r
    → QueueChanges qs rest
    → QueueChanges (q ∷ qs) (queues_with q qs r rest)
unfolding QueueChanges queues_with
first_list q qs (some l) rest c d = record {
  weight = λ w. ap (λ n. n + weigh_queues w qs) (Alike-weigh w q.ready l c);
  queues =
      λ h. ((Alike-IsTail q.last_ready q.ready l c h.0.0, Alike-IsReady q.ready l c h.0.1), h.1);
  lists = refl;
}
first_list q qs none none c d = tt
first_list q qs none (some rest) c d = record {
  weight = λ w. ap (λ n. weigh pid_of w q.ready + n) (d.weight w);
  queues = λ h. (h.0, d.queues h.1);
  lists = ap suc d.lists;
}

decrement_in_queues-Changes :
    (pid : ℕ) (qs : List ReadyList) → QueueChanges qs (decrement_in_queues pid qs)
unfolding QueueChanges decrement_in_queues
decrement_in_queues-Changes pid [] = tt
decrement_in_queues-Changes pid (q ∷ qs) =
    first_list q qs (decrement_in pid q.ready) (decrement_in_queues pid qs)
      (decrement_in-Changes pid q.ready) (decrement_in_queues-Changes pid qs)

module _ (t : ProcessTable) (h : IsSound t) where
  pub unchanged : Stays t t
  unchanged = record { sound = h; weight = λ w. refl; same = refl; count = refl }

  pub blocked-Stays : (l : List Process) → Alike t.blocked l → Stays t (record t { blocked = l })
  blocked-Stays l a = record {
    sound = record {
      lists = h.lists;
      queues = h.queues;
      waiting = Alike-IsBlocked t.blocked l a h.waiting;
      distinct = λ k. omega (arith, Alike-weigh (is_key k) t.blocked l a, h.distinct k);
      runner = h.runner;
      idle = h.idle;
    };
    weight = λ w. omega (arith, Alike-weigh w t.blocked l a);
    same = refl;
    count = refl;
  }

  queues-Stays :
      (qs : List ReadyList)
      → QueuesAlike t.priority_queue qs
      → Stays t (record t { priority_queue = qs })
  queues-Stays qs a = record {
    sound = record {
      lists = a.lists ∙ h.lists;
      queues = a.queues h.queues;
      waiting = h.waiting;
      distinct = λ k. omega (arith, a.weight (is_key k), h.distinct k);
      runner = h.runner;
      idle = h.idle;
    };
    weight = λ w. omega (arith, a.weight w);
    same = refl;
    count = refl;
  }

  changed_queues :
      (r : Option (List ReadyList)) → QueueChanges t.priority_queue r → Stays t (table_with t r).0
  unfolding QueueChanges table_with
  changed_queues none c = unchanged
  changed_queues (some qs) c = queues-Stays qs c

  on_ready : (pid : ℕ) → Stays t (decrement_kids_count_on_ready_process t pid).0
  unfolding decrement_kids_count_on_ready_process
  on_ready pid =
      changed_queues (decrement_in_queues pid t.priority_queue)
        (decrement_in_queues-Changes pid t.priority_queue)

  changed_blocked :
      (pid : ℕ) (r : Option (List Process))
      → Changes t.blocked r
      → Stays t (on_ready_unless pid (blocked_with t r))
  unfolding on_ready_unless blocked_with
  changed_blocked pid none c = on_ready pid
  changed_blocked pid (some l) c = blocked-Stays l c

  -- On a sound table `decrementKidsCount` leaves a sound one, with the same processes, the same one
  -- running, and the same `processCount`.
  pub decrement_kids_count-Stays : (pid : ℕ) → Stays t (decrement_kids_count t pid)
  unfolding decrement_kids_count decrement_kids_count_on_blocked_process
  decrement_kids_count-Stays pid =
      changed_blocked pid (decrement_in pid t.blocked) (decrement_in-Changes pid t.blocked)
