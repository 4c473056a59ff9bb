-- ===== src/Scheduler/Unlink/Tail.antt =====
-- The tail pointer of a ready list after a process was taken out of it.
use peps_os.Common.{
  ℕ, ◌≤◌, ◌≡◌, refl, ap, inl, inr, Option, none, some, List, [], ◌∷◌, arith, ◌==◌, Bool-cases,
}
use peps_os.Common.Chain.{weigh, is_key, IsTail, IsTail-cons}
use peps_os.Scheduler.Table.{Process, ReadyList}
use peps_os.Scheduler.Queues.{pid_of, pop_to}
use peps_os.Scheduler.Unlink.{Unlinked, keep, retarget, unlink_after, unlink_ready, unlink_ready_on}
use peps_os.Scheduler.Unlink.Cut.{Search, Cut-weigh, unlink_after-Search}

-- No two processes of the list have one pid.
abbrev pub Distinct : List Process → Type 0
Distinct ps = (k : ℕ) → weigh pid_of (is_key k) ps ≤ 1

abbrev pub TailBehind : Process → Option Unlinked → Type 0
TailBehind aux none = Unit {0}
TailBehind aux (some u) = (r : List Process) × (u.rest ≡ aux ∷ r) × IsTail pid_of u.tail (aux ∷ r)

hit-IsTail :
    (last : Option ℕ) (aux n : Process) (ns : List Process)
    → IsTail pid_of last (aux ∷ n ∷ ns)
    → IsTail pid_of (retarget last n aux) (aux ∷ ns)
hit-IsTail none aux n ns t = absurd t
hit-IsTail (some k) aux n [] t = ground arith
hit-IsTail (some k) aux n (y ∷ ys) t = ground arith

IsTail-of_IsTail :
    (last : Option ℕ) (aux n : Process) (ns : List Process)
    → IsTail pid_of last (aux ∷ n ∷ ns)
    → IsTail pid_of last (n ∷ ns)
IsTail-of_IsTail none aux n ns t = absurd t
IsTail-of_IsTail (some k) aux n ns t = t.1

keep_tail :
    (pid : ℕ) (aux n : Process) (ns : List Process) (r : Option Unlinked)
    → Distinct (aux ∷ n ∷ ns)
    → Search pid (n ∷ ns) r
    → TailBehind n r
    → TailBehind aux (keep aux r)
keep_tail pid aux n ns none d s t = tt
keep_tail pid aux n ns (some u) d s (r, e, tail) =
    (n ∷ r, ap (◌∷◌ aux) e, IsTail-cons pid_of u.tail aux n r distinct tail)
  where
    distinct : (k : ℕ) → weigh pid_of (is_key k) (aux ∷ n ∷ r) ≤ 1
    distinct k =
        omega (arith, d k, Cut-weigh (is_key k) pid (n ∷ ns) u s, ap (weigh pid_of (is_key k)) e)

pub unlink_after-tail :
    (pid : ℕ) (last : Option ℕ) (aux : Process) (ns : List Process)
    → Distinct (aux ∷ ns)
    → IsTail pid_of last (aux ∷ ns)
    → TailBehind aux (unlink_after pid last aux ns)
unfolding unlink_after
unlink_after-tail pid last aux [] d t = tt
unlink_after-tail pid last aux (n ∷ ns) d t = elim (Bool-cases (n.pid == pid)) [
  | inl e ↦ rw e (ns, refl, hit-IsTail last aux n ns t)
  | inr e ↦ rw e (
      keep_tail pid aux n ns (unlink_after pid last n ns) d
        (unlink_after-Search pid last n ns (ground arith))
        (unlink_after-tail pid last n ns (λ k. omega (arith, d k))
          (IsTail-of_IsTail last aux n ns t)))
]

-- The tail pointer of what is left.
abbrev pub KeepsTail : Option Unlinked → Type 0
KeepsTail none = Unit {0}
KeepsTail (some u) = IsTail pid_of u.tail u.rest

pub behind-KeepsTail : (aux : Process) (r : Option Unlinked) → TailBehind aux r → KeepsTail r
behind-KeepsTail aux none t = tt
behind-KeepsTail aux (some u) (r, e, t) = rw e t

pub pop-IsTail :
    (p : Process) (ps : List Process) (q : ReadyList)
    → IsTail pid_of q.last_ready (p ∷ ps)
    → IsTail pid_of (pop_to ps q).last_ready ps
unfolding pop_to
pop-IsTail p [] q t = tt
pop-IsTail p (y ∷ ys) q t = IsTail-of_IsTail q.last_ready p y ys t

-- Taking a process out of a ready list without a pid twice, whose tail pointer leads to its last
-- process, leaves a tail pointer that leads to the last process left, or a null one for an empty
-- list.
pub unlink_ready-KeepsTail :
    (pid : ℕ) (q : ReadyList)
    → Distinct q.ready
    → IsTail pid_of q.last_ready q.ready
    → KeepsTail (unlink_ready pid q)
unfolding unlink_ready
unlink_ready-KeepsTail pid q = on q.ready
  where
    on :
        (ps : List Process)
        → Distinct ps
        → IsTail pid_of q.last_ready ps
        → KeepsTail (unlink_ready_on pid q ps)
    on [] d t = tt
    on (p ∷ ps) d t = elim (Bool-cases (p.pid == pid)) [
      | inl e ↦ rw e (pop-IsTail p ps q t)
      | inr e ↦ rw e (
          behind-KeepsTail p (unlink_after pid q.last_ready p ps)
            (unlink_after-tail pid q.last_ready p ps d t))
    ]
