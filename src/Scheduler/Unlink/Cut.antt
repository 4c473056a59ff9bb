-- ===== src/Scheduler/Unlink/Cut.antt =====
-- What the searches of Kernel/scheduler.c take out of a list: the first process with the pid.
use peps_os.Common.{
  ℕ, ◌+◌, ◌≡◌, refl, sym, subst, ◌≢◌, inl, inr, Option, none, some, List, [], ◌∷◌, ◌++◌, arith,
  ◌==◌, Bool-cases, All, All-append, All-append_left, All-append_right,
}
use peps_os.Common.Chain.{weigh, is_key, weigh-append}
use peps_os.Scheduler.Table.{Process, ReadyList}
use peps_os.Scheduler.Queues.{pid_of, pop_to}
use peps_os.Scheduler.Unlink.{
  Unlinked, keep, unlink_after, unlink_ready, unlink_ready_on, unlink_blocked,
}

-- `u` is the list `ps` without its first process of that pid.
pub record Cut (pid : ℕ) (ps : List Process) (u : Unlinked) : Type 0 where
  pub before : List Process
  pub after : List Process
  pub whole : ps ≡ before ++ u.node ∷ after
  pub left : u.rest ≡ before ++ after
  pub hit : u.node.pid ≡ pid
  pub first : weigh pid_of (is_key pid) before ≡ 0

-- A search that fails shows that no process has the pid.
abbrev pub Search : ℕ → List Process → Option Unlinked → Type 0
Search pid ps none = weigh pid_of (is_key pid) ps ≡ 0
Search pid ps (some u) = Cut pid ps u

keep-Search :
    (pid : ℕ) (aux : Process) (ps : List Process) (r : Option Unlinked)
    → aux.pid ≢ pid
    → Search pid ps r
    → Search pid (aux ∷ ps) (keep aux r)
keep-Search pid aux ps none ne s = ground arith
keep-Search pid aux ps (some u) ne s = record {
  before = aux ∷ s.before;
  after = s.after;
  whole = cc;
  left = cc;
  hit = s.hit;
  first = ground arith;
}

pub unlink_after-Search :
    (pid : ℕ) (last : Option ℕ) (aux : Process) (ns : List Process)
    → aux.pid ≢ pid
    → Search pid (aux ∷ ns) (unlink_after pid last aux ns)
unfolding unlink_after
unlink_after-Search pid last aux [] ne = ground arith
unlink_after-Search pid last aux (n ∷ ns) ne = elim (Bool-cases (n.pid == pid)) [
  | inl e ↦ rw e (record {
    before = aux ∷ [];
    after = ns;
    whole = refl;
    left = refl;
    hit = ground arith;
    first = ground arith;
  })
  | inr e ↦ rw e (
      keep-Search pid aux (n ∷ ns) (unlink_after pid last n ns) ne
        (unlink_after-Search pid last n ns (ground arith)))
]

pub hit_first :
    (pid : ℕ) (p : Process) (ps : List Process) (o : Option ℕ)
    → p.pid ≡ pid
    → Cut pid (p ∷ ps) (record { node = p; rest = ps; tail = o })
hit_first pid p ps o e = record {
  before = [];
  after = ps;
  whole = refl;
  left = refl;
  hit = e;
  first = refl;
}

-- The search through the blocked processes finds none exactly if no process has the pid; else it
-- takes out the first one that has it, and keeps all others in their order.
pub unlink_blocked-Search : (pid : ℕ) (ps : List Process) → Search pid ps (unlink_blocked pid ps)
unfolding unlink_blocked
unlink_blocked-Search pid [] = refl
unlink_blocked-Search pid (p ∷ ps) = elim (Bool-cases (p.pid == pid)) [
  | inl e ↦ rw e (hit_first pid p ps none (ground arith))
  | inr e ↦ rw e (unlink_after-Search pid none p ps (ground arith))
]

-- The search in one ready list.
pub unlink_ready-Search : (pid : ℕ) (q : ReadyList) → Search pid q.ready (unlink_ready pid q)
unfolding unlink_ready
unlink_ready-Search pid q = on q.ready
  where
    on : (ps : List Process) → Search pid ps (unlink_ready_on pid q ps)
    on [] = refl
    on (p ∷ ps) = elim (Bool-cases (p.pid == pid)) [
      | inl e ↦ rw e (hit_first pid p ps (pop_to ps q).last_ready (ground arith))
      | inr e ↦ rw e (unlink_after-Search pid q.last_ready p ps (ground arith))
    ]

pub Cut-weigh :
    (w : ℕ → ℕ) (pid : ℕ) (ps : List Process) (u : Unlinked)
    → Cut pid ps u
    → w u.node.pid + weigh pid_of w u.rest ≡ weigh pid_of w ps
Cut-weigh w pid ps u c =
    rw (c.whole, c.left)
      (omega (
        arith,
        weigh-append pid_of w c.before (u.node ∷ c.after),
        weigh-append pid_of w c.before c.after,
      ))

pub Cut-All :
    (P : Process → Type 0) (pid : ℕ) (ps : List Process) (u : Unlinked)
    → Cut pid ps u
    → All P ps
    → P u.node × All P u.rest
Cut-All P pid ps u c h =
    let parts : All P (c.before ++ u.node ∷ c.after) = subst (All P) c.whole h in
    let right = All-append_right P c.before (u.node ∷ c.after) parts in
    (
      right.0,
      subst (All P) (sym c.left) (
          All-append P c.before c.after (All-append_left P c.before (u.node ∷ c.after) parts)
            right.1),
    )
