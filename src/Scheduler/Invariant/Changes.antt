-- ===== src/Scheduler/Invariant/Changes.antt =====
-- `changePriority` of Kernel/scheduler.c, called by a process on a valid table.
use peps_os.Common.{
  ℕ, suc, ◌+◌, ◌<◌, ◌≡◌, refl, sym, subst, ap, ◌∙◌, Option, none, some, List, [], ◌∷◌, arith, inl,
  inr, length, length-set, All, All-set, ◌==◌, Bool-cases, ◌||◌, leb, is_negative, get_or,
}
use peps_os.Common.Chain.{weigh, is_key, is_key_self, IsTail}
use peps_os.Scheduler.Table.{
  Process, ProcessTable, ReadyList, at, queue, set_queue, empty_list, max_priority,
}
use peps_os.Scheduler.Queues.{pid_of, pop_to}
use peps_os.Scheduler.Unlink.{Unlinked, unlink_after}
use peps_os.Scheduler.Unlink.Cut.{Cut, Search, unlink_after-Search, Cut-weigh, Cut-All, hit_first}
use peps_os.Scheduler.Unlink.Tail.{
  Distinct, KeepsTail, pop-IsTail, behind-KeepsTail, unlink_after-tail,
}
use peps_os.Scheduler.Priorities.{
  prioritise, unlink_to_change, unlink_to_change_on, move_to, moved, change_from,
  change_ready_process_priority, change_blocked_process_priority, blocked_changed, ready_unless,
  change_priority, set_priority_in,
}
use peps_os.Scheduler.Invariant.{
  weigh_table, weigh_queues, IsSound, IsValid, IsQueue, IsReady, IsRunning, Stays,
}
use peps_os.Scheduler.Invariant.Queued.{
  appended, appended-weigh, appended-IsQueue, length-appended, enqueue-appended, weigh_queues-set,
  weigh-get_or-le, IsQueue-queue,
}
use peps_os.Scheduler.Invariant.Blocks.{Keeps}
use peps_os.Scheduler.Invariant.Alike.{Changes, set_priority_in-Changes, blocked-Stays, unchanged}

-- A ready process taken out of the list `q`, and the list that is left.
record Extracted (pid : ℕ) (q : ReadyList) (u : Unlinked) : Type 0 where
  node : IsReady u.node
  hit : u.node.pid ≡ pid
  weight : (w : ℕ → ℕ) → w pid + weigh pid_of w u.rest ≡ weigh pid_of w q.ready
  left : IsQueue (record { ready = u.rest; last_ready = u.tail })

Extracts : ℕ → ReadyList → Option Unlinked → Type 0
Extracts pid q none = Unit {0}
Extracts pid q (some u) = Extracted pid q u

module _ (pid priority : ℕ) (lt : priority < max_priority) (q : ReadyList) (h : IsQueue q) where
  of_Cut : (u : Unlinked) → Cut pid q.ready u → IsTail pid_of u.tail u.rest → Extracted pid q u
  of_Cut u c t =
      let parts = Cut-All IsReady pid q.ready u c h.1 in
      record {
        node = parts.0;
        hit = c.hit;
        weight = λ w. omega (arith, Cut-weigh w pid q.ready u c, ap w c.hit);
        left = (t, parts.1);
      }

  prioritised :
      (r : Option Unlinked)
      → Search pid q.ready r
      → KeepsTail r
      → Extracts pid q (prioritise priority r)
  unfolding Extracts
  prioritised none c t = tt
  prioritised (some u) c t =
      let e = of_Cut u c t in
      record { node = (e.node.0, lt); hit = e.hit; weight = e.weight; left = e.left }

  unlink_to_change-Extracts : Distinct q.ready → Extracts pid q (unlink_to_change pid priority q)
  unfolding Extracts unlink_to_change
  unlink_to_change-Extracts d = on q.ready refl
    where
      on :
          (ps : List Process)
          → q.ready ≡ ps
          → Extracts pid q (unlink_to_change_on pid priority q ps)
      on [] e = tt
      on (p ∷ ps) e = elim (Bool-cases (p.pid == pid)) [
        | inl here ↦
            let u : Unlinked = record { node = p; rest = ps; tail = (pop_to ps q).last_ready } in
            rw here (
              of_Cut u (subst (λ l. Cut pid l u) (sym e) (hit_first pid p ps u.tail (ground arith)))
                (pop-IsTail p ps q (subst (IsTail pid_of q.last_ready) e h.0)))
        | inr other ↦ rw other (
            prioritised (unlink_after pid q.last_ready p ps)
              (subst (λ l. Search pid l (unlink_after pid q.last_ready p ps)) (sym e)
                (unlink_after-Search pid q.last_ready p ps (ground arith)))
              (behind-KeepsTail p (unlink_after pid q.last_ready p ps) (
                unlink_after-tail pid q.last_ready p ps (subst Distinct e d)
                  (subst (IsTail pid_of q.last_ready) e h.0))))
      ]

module _ (t : ProcessTable) (h : IsSound t) (pid priority : ℕ) (lt : priority < max_priority) where
  -- The process leaves list `i` and comes last in list `priority`.
  move_to-Stays :
      (i : ℕ) (u : Unlinked)
      → i < max_priority
      → Extracted pid (queue t i) u
      → Stays t (move_to t i priority u)
  unfolding move_to
  move_to-Stays i u li e = rw (enqueue-appended t' priority u.node to_list shorter) (record {
    sound = record {
      lists =
          length-appended t' priority u.node to_list ∙ length-set t.priority_queue i left ∙ h.lists;
      queues = appended-IsQueue t' priority u.node to_list shorter e.node new;
      waiting = h.waiting;
      distinct = λ k. omega (arith, weight (is_key k), h.distinct k);
      runner = h.runner;
      idle = h.idle;
    };
    weight = weight;
    same = refl;
    count = refl;
  })
    where
      left : ReadyList
      left = record { ready = u.rest; last_ready = u.tail }

      t' : ProcessTable
      t' = set_queue t i left

      to_list : priority < length t'.priority_queue
      to_list = omega (arith, h.lists, length-set t.priority_queue i left)

      from_list : i < length t.priority_queue
      from_list = omega (arith, h.lists)

      shorter : All IsQueue t'.priority_queue
      shorter = All-set IsQueue t.priority_queue i left h.queues e.left

      less :
          (w : ℕ → ℕ)
          → weigh_queues w t'.priority_queue + w u.node.pid ≡ weigh_queues w t.priority_queue
      less w =
          omega
            (arith, weigh_queues-set w t.priority_queue i left from_list, e.weight w, ap w e.hit)

      new : weigh_queues (is_key u.node.pid) t'.priority_queue ≡ 0
      new = omega (arith, less (is_key u.node.pid), h.distinct u.node.pid, is_key_self u.node.pid)

      weight :
          (w : ℕ → ℕ)
          → weigh_table w (record t' { priority_queue = appended t' priority u.node })
            ≡ weigh_table w t
      weight w = omega (arith, appended-weigh t' priority u.node to_list w, less w)

  moved-Stays :
      (i : ℕ) (r : Option Unlinked) (later : ProcessTable × ℕ)
      → i < max_priority
      → Extracts pid (queue t i) r
      → Stays t later.0
      → Stays t (moved t i priority r later).0
  unfolding moved Extracts
  moved-Stays i none later li e s = s
  moved-Stays i (some u) later li e s = move_to-Stays i u li e

  -- The lists from number `i` on, to the end.
  change_from-Stays :
      (qs : List ReadyList) (i : ℕ)
      → length qs + i ≡ max_priority
      → ((j : ℕ) → get_or qs j empty_list ≡ queue t (j + i))
      → Stays t (change_from qs i pid priority t).0
  unfolding change_from
  change_from-Stays [] i e same = unchanged t h
  change_from-Stays (q ∷ qs) i e same =
      moved-Stays i (unlink_to_change pid priority q) (change_from qs (suc i) pid priority t)
        (omega arith)
        (subst (λ r. Extracts pid r (unlink_to_change pid priority q)) here
          (unlink_to_change-Extracts pid priority lt q
            (subst IsQueue (sym here) (IsQueue-queue t i h.queues))
            (λ k. omega (
              arith,
              ap (λ r. weigh pid_of (is_key k) r.ready) here,
              weigh-get_or-le (is_key k) t.priority_queue i,
              h.distinct k,
            ))))
        (change_from-Stays qs (suc i) (omega arith)
          (λ j. same (suc j) ∙ ap (queue t) (omega arith)))
    where
      here : q ≡ queue t i
      here = same 0 ∙ ap (queue t) (omega arith)

  blocked_or_ready :
      (r : Option (List Process))
      → Changes t.blocked r
      → Stays t (ready_unless pid priority (blocked_changed t r)).0
  unfolding ready_unless blocked_changed change_ready_process_priority
  blocked_or_ready none c =
      change_from-Stays t.priority_queue 0 (omega (arith, h.lists))
        (λ j. ap (queue t) (omega arith))
  blocked_or_ready (some l) c = blocked-Stays t h l c

  -- A priority in range, given to a process that waits, moves that process at most.
  pub change_other-Stays :
      Stays t (ready_unless pid priority (change_blocked_process_priority t pid priority)).0
  unfolding change_blocked_process_priority
  change_other-Stays =
      blocked_or_ready (set_priority_in pid priority t.blocked)
        (set_priority_in-Changes pid priority t.blocked lt)

-- The caller's own priority, or that of a process that waits.
of_caller :
    (t : ProcessTable) (p : Process) (pid priority : ℕ)
    → IsValid (record t { running = at p })
    → Keeps
        (record t { running = at p })
        (change_priority (record t { running = at p }) pid priority).0
unfolding change_priority
of_caller t p pid priority v =
    elim (Bool-cases (is_negative priority || leb max_priority priority)) [
      | inl out ↦ rw out (record { valid = v; weight = λ w. refl; count = refl })
      | inr e ↦ elim (Bool-cases (p.pid == pid)) [
        | inl self ↦
            rw (e, self)
              (record {
                valid = record {
                  sound = record {
                    lists = v.sound.lists;
                    queues = v.sound.queues;
                    waiting = v.sound.waiting;
                    distinct = v.sound.distinct;
                    runner = ground arith;
                    idle = v.sound.idle;
                  };
                  active = v.active;
                };
                weight = λ w. refl;
                count = refl;
              })
        | inr other ↦
            let k =
              change_other-Stays (record t { running = at p }) v.sound pid priority
                (ground arith) in
            rw (e, other)
              (record {
                valid = record { sound = k.sound; active = subst IsRunning (sym k.same) v.active };
                weight = k.weight;
                count = k.count;
              })
      ]
    ]

-- Called by a process on a valid table, `changePriority`, whatever pid and priority it is given,
-- leaves a valid table with the same processes and the same `processCount`.
pub change_priority-Keeps :
    (t : ProcessTable) (p : Process) (pid priority : ℕ)
    → t.running ≡ at p
    → IsValid t
    → Keeps t (change_priority t pid priority).0
change_priority-Keeps t p pid priority e =
    subst
      (λ r.
        IsValid (record t { running = r })
        → Keeps (record t { running = r })
            (change_priority (record t { running = r }) pid priority).0)
      (sym e) (of_caller t p pid priority)
