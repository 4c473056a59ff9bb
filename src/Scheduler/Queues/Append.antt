-- ===== src/Scheduler/Queues/Append.antt =====
-- A process that is linked at the end of a ready list with a proper tail pointer comes last.
use peps_os.Common.{
  ℕ, ◌<◌, ◌≡◌, refl, sym, subst, ap, ◌∙◌, Option, none, some, List, [], ◌∷◌, ◌++◌, length,
  get_or-set_self, set-set,
}
use peps_os.Common.Chain.{link_after, IsTail, link_after-IsTail}
use peps_os.Scheduler.Table.{Process, ReadyList, ProcessTable, queue, set_queue, empty_list}
use peps_os.Scheduler.Queues.{pid_of, store_next, link_last, enqueue, enqueue_on}

-- The list with `p` behind its processes.
abbrev pub extended : ReadyList → Process → ReadyList
extended q p = record { ready = q.ready ++ p ∷ []; last_ready = some p.pid }

module _ (t : ProcessTable) (i : ℕ) (p : Process) where
  pub queue-set_queue :
      (q : ReadyList) → i < length t.priority_queue → queue (set_queue t i q) i ≡ q
  queue-set_queue q h = get_or-set_self t.priority_queue i q empty_list h

  pub set_queue-set_queue : (q r : ReadyList) → set_queue (set_queue t i q) i r ≡ set_queue t i r
  set_queue-set_queue q r =
      ap (λ l. record t { priority_queue = l }) (set-set t.priority_queue i q r)

  -- Two stores into one list.
  pub relink :
      (l : List Process)
      → i < length t.priority_queue
      → let t' = set_queue t i (record (queue t i) { ready = l }) in
        set_queue t' i (record (queue t' i) { last_ready = some p.pid })
        ≡ set_queue t i (record { ready = l; last_ready = some p.pid })
  relink l h =
      let r : ReadyList = record (queue t i) { ready = l } in
      ap (λ q. set_queue (set_queue t i r) i (record q { last_ready = some p.pid }))
        (queue-set_queue r h)
      ∙ set_queue-set_queue r (record { ready = l; last_ready = some p.pid })

  pub link_last-extended :
      (k : ℕ)
      → i < length t.priority_queue
      → (queue t i).last_ready ≡ some k
      → IsTail pid_of (some k) (queue t i).ready
      → link_last t i p ≡ set_queue t i (extended (queue t i) p)
  unfolding link_last store_next
  link_last-extended k h e tail =
      rw (e, store_next)
        (relink (link_after pid_of k p (queue t i).ready) h
          ∙ ap (λ l. set_queue t i (record { ready = l; last_ready = some p.pid }))
              (link_after-IsTail pid_of k p (queue t i).ready tail))

  -- For a list that exists and has a proper tail pointer, `unblock` and `createProcess` put the
  -- process behind those of the list and the tail pointer on it, and change nothing else.
  pub enqueue-extended :
      i < length t.priority_queue
      → IsTail pid_of (queue t i).last_ready (queue t i).ready
      → enqueue t i p ≡ set_queue t i (extended (queue t i) p)
  unfolding enqueue
  enqueue-extended h tail = by_head (queue t i).ready (queue t i).last_ready refl refl tail
    where
      by_head :
          (l : List Process) (last : Option ℕ)
          → (queue t i).ready ≡ l
          → (queue t i).last_ready ≡ last
          → IsTail pid_of last l
          → enqueue_on l t i p ≡ set_queue t i (extended (queue t i) p)
      by_head [] last e f tail' = rw e
      by_head (x ∷ xs) none e f tail' = absurd tail'
      by_head (x ∷ xs) (some k) e f tail' =
          link_last-extended k h f (subst (IsTail pid_of (some k)) (sym e) tail')
