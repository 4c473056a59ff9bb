-- ===== src/Scheduler/Invariant/Taken.antt =====
-- The search of Kernel/scheduler.c through the ready lists, on lists that are sound.
use peps_os.Common.{
  ℕ, suc, ◌+◌, ◌≤◌, ◌≡◌, refl, ap, Option, none, some, List, [], ◌∷◌, arith, length, All,
}
use peps_os.Common.Chain.{is_key}
use peps_os.Scheduler.Table.{ReadyList}
use peps_os.Scheduler.Unlink.{Unlinked, UnlinkedQueues, unlinked_here, unlink_ready, unlink_queues}
use peps_os.Scheduler.Unlink.Cut.{Search, unlink_ready-Search, Cut-weigh, Cut-All}
use peps_os.Scheduler.Unlink.Tail.{KeepsTail, unlink_ready-KeepsTail}
use peps_os.Scheduler.Invariant.{weigh_queues, IsQueue, IsReady}

-- `u` is the lists `qs` without one process of that pid.
pub record Taken (pid : ℕ) (qs : List ReadyList) (u : UnlinkedQueues) : Type 0 where
  pub hit : u.node.pid ≡ pid
  pub weight : (w : ℕ → ℕ) → w u.node.pid + weigh_queues w u.queues ≡ weigh_queues w qs
  pub queues : All IsQueue u.queues
  pub node : IsReady u.node
  pub lists : length u.queues ≡ length qs

abbrev pub Takes : ℕ → List ReadyList → Option UnlinkedQueues → Type 0
Takes pid qs none = weigh_queues (is_key pid) qs ≡ 0
Takes pid qs (some u) = Taken pid qs u

here_or_later :
    (pid : ℕ) (q : ReadyList) (qs : List ReadyList) (u : Option Unlinked)
    (r : Option UnlinkedQueues)
    → Search pid q.ready u
    → KeepsTail u
    → Takes pid qs r
    → All IsQueue (q ∷ qs)
    → Takes pid (q ∷ qs) (unlinked_here q qs u r)
here_or_later pid q qs none none s k t h = omega arith
here_or_later pid q qs none (some r) s k t h = record {
  hit = t.hit;
  weight = λ w. omega (arith, t.weight w);
  queues = (h.0, t.queues);
  node = t.node;
  lists = ap suc t.lists;
}
here_or_later pid q qs (some u) r s k t h =
    let c = Cut-All IsReady pid q.ready u s h.0.1 in
    record {
      hit = s.hit;
      weight = λ w. omega (arith, Cut-weigh w pid q.ready u s);
      queues = ((k, c.1), h.1);
      node = c.0;
      lists = refl;
    }

-- In ready lists that are sound and hold no pid twice, the search and removal of `block` and
-- `killReady` finds a process of the pid exactly if there is one, and leaves sound lists that lack
-- that process alone.
pub unlink_queues-Takes :
    (pid : ℕ) (qs : List ReadyList)
    → ((k : ℕ) → weigh_queues (is_key k) qs ≤ 1)
    → All IsQueue qs
    → Takes pid qs (unlink_queues pid qs)
unfolding unlink_queues
unlink_queues-Takes pid [] d h = refl
unlink_queues-Takes pid (q ∷ qs) d h =
    here_or_later pid q qs (unlink_ready pid q) (unlink_queues pid qs) (unlink_ready-Search pid q)
      (unlink_ready-KeepsTail pid q (λ k. omega (arith, d k)) h.0.0)
      (unlink_queues-Takes pid qs (λ k. omega (arith, d k)) h.1) h
