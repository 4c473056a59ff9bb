-- ===== src/Scheduler/Invariant/Picked.antt =====
-- The choice that the loop of `priorityScheduler` in Kernel/scheduler.c makes, and what it leaves.
use peps_os.Common.{
  ℕ, zero, suc, ◌≤◌, ◌<◌, ◌≡◌, refl, inl, inr, List, [], ◌∷◌, arith, ◌==◌, Bool-cases,
}
use peps_os.Scheduler.Table.{Process, ProcessTable, ready, running, current, queue}
use peps_os.Scheduler.Switch.{pick, switch_to, mark_running}

-- No process waits in the lists from `lo` up to, but not including, `hi`.
abbrev pub IsEmptyFrom : ProcessTable → ℕ → ℕ → Type 0
IsEmptyFrom t lo hi = (j : ℕ) → lo ≤ j → j < hi → (queue t j).ready ≡ []

-- The loop over the lists below `n`: the running process goes on if none waits at its priority or
-- above; else the head of the highest list with a process is next.
pub data Picks (t : ProcessTable) (n : ℕ) (r : ProcessTable) : Type 0 where
  stays : IsEmptyFrom t (current t).priority n → r ≡ t → Picks t n r
  switches :
      (i : ℕ) (x : Process) (xs : List Process)
      → (current t).priority ≤ i
      → i < n
      → (queue t i).ready ≡ x ∷ xs
      → IsEmptyFrom t (suc i) n
      → r ≡ mark_running (switch_to t.running t i)
      → Picks t n r

below_or_at :
    (t : ProcessTable) (lo i : ℕ)
    → (queue t i).ready ≡ []
    → IsEmptyFrom t lo i
    → IsEmptyFrom t lo (suc i)
below_or_at t lo i e h j a b = elim (Bool-cases (j == i)) [
  | inl at_i ↦ let same : j ≡ i = ground arith in rw same e
  | inr below ↦ h j a (ground arith)
]

pub pick-Picks : (t : ProcessTable) (n : ℕ) → (current t).priority < n → Picks t n (pick n t)
unfolding pick
pick-Picks t zero h = absurd (omega arith)
pick-Picks t (suc i) h = by_list (queue t i).ready refl (pick-Picks t i)
  where
    later : Picks t i (pick i t) → (queue t i).ready ≡ [] → Picks t (suc i) (pick i t)
    later (stays none_waits e) empty =
        stays (below_or_at t (current t).priority i empty none_waits) e
    later (switches k x xs a b e none_waits r) empty =
        switches k x xs a (omega arith) e (below_or_at t (suc k) i empty none_waits) r

    by_list :
        (l : List Process)
        → (queue t i).ready ≡ l
        → ((current t).priority < i → Picks t i (pick i t))
        → Picks t (suc i) (pick (suc i) t)
    by_list (x ∷ xs) e rest =
        switches i x xs (omega arith) (omega arith) e (λ j a b. absurd (omega arith)) (rw (e, pick))
    by_list [] e rest = elim (Bool-cases ((current t).priority == i)) [
      | inl here ↦
          stays (λ j a b. let same : j ≡ i = ground arith in rw same e) (rw (e, pick, here))
      | inr above ↦ rw (e, pick, above) (later (rest (ground arith)) e)
    ]

abbrev pub started : Process → Process
started x = record x { state = running }

abbrev pub paused : Process → Process
paused p = record p { state = ready }
