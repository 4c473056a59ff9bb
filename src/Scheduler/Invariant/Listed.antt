-- ===== src/Scheduler/Invariant/Listed.antt =====
-- `getAllProcessInfo` of Kernel/scheduler.c: its entries fit into the array.
use peps_os.Common.{ℕ, ◌+◌, ◌*◌, ◌≡◌, refl, ap, List, [], ◌∷◌, ◌++◌, arith, length}
use peps_os.Common.Chain.{weigh}
use peps_os.Memory.{Allocator}
use peps_os.Scheduler.Table.{Process, ReadyList, ProcessTable, Sched, at, current, current_of}
use peps_os.Scheduler.Queues.{pid_of}
use peps_os.Scheduler.Info.{
  ProcessInfo, copy_proc, copy_list, copy_queues, all_entries, get_all_process_info,
  sizeof_process_info,
}
use peps_os.Scheduler.Invariant.{weigh_queues, weigh_table, weigh_running}
use peps_os.Scheduler.Invariant.System.{Inv, one}

-- The sum of a weight over the pids of the entries.
abbrev pub weigh_entries : (ℕ → ℕ) → List ProcessInfo → ℕ
weigh_entries w [] = 0
weigh_entries w (e ∷ es) = w e.pid + weigh_entries w es

weigh_entries-append :
    (w : ℕ → ℕ) (es fs : List ProcessInfo)
    → weigh_entries w (es ++ fs) ≡ weigh_entries w es + weigh_entries w fs
weigh_entries-append w [] fs = omega arith
weigh_entries-append w (e ∷ es) fs = omega (arith, weigh_entries-append w es fs)

copy_list-weigh :
    (w : ℕ → ℕ) (ps : List Process) → weigh_entries w (copy_list ps) ≡ weigh pid_of w ps
unfolding copy_list copy_proc
copy_list-weigh w [] = refl
copy_list-weigh w (p ∷ ps) = ap (λ n. w p.pid + n) (copy_list-weigh w ps)

copy_queues-weigh :
    (w : ℕ → ℕ) (qs : List ReadyList) → weigh_entries w (copy_queues qs) ≡ weigh_queues w qs
unfolding copy_queues
copy_queues-weigh w [] = refl
copy_queues-weigh w (q ∷ qs) = omega (
  arith,
  weigh_entries-append w (copy_list q.ready) (copy_queues qs),
  copy_list-weigh w q.ready,
  copy_queues-weigh w qs,
)

length-weigh : (es : List ProcessInfo) → length es ≡ weigh_entries one es
length-weigh [] = refl
length-weigh (e ∷ es) = omega (arith, length-weigh es)

entries-weigh :
    (w : ℕ → ℕ) (t : ProcessTable) (p : Process)
    → t.running ≡ at p
    → weigh_entries w (all_entries t) ≡ weigh_table w t
unfolding all_entries copy_proc
entries-weigh w t p e = omega (
  arith,
  weigh_entries-append w (copy_list t.blocked ++ copy_queues t.priority_queue)
      (copy_proc (current t) ∷ []),
  weigh_entries-append w (copy_list t.blocked) (copy_queues t.priority_queue),
  copy_list-weigh w t.blocked,
  copy_queues-weigh w t.priority_queue,
  ap (weigh_running w) e,
  ap (λ r. w (current_of r t.halt t.at_null).pid) e,
)

-- Called by a process in a system that keeps its invariant, `getAllProcessInfo` writes exactly as
-- many entries as it asked memory for, `*count` says so, and every process of the table has one
-- entry.
pub get_all_process_info-fits :
    {H : Type 0} ⦃m : Allocator H⦄ (s : Sched H) (p : Process)
    → s.running ≡ at p
    → Inv s
    → let l = (get_all_process_info s).1 in
      (length l.entries * sizeof_process_info ≡ l.size)
      × (l.count ≡ length l.entries)
      × ((w : ℕ → ℕ) → weigh_entries w l.entries ≡ weigh_table w s.pcb)
unfolding get_all_process_info
get_all_process_info-fits s p e v = (
  omega (arith, length-weigh (all_entries s.pcb), entries-weigh one s.pcb p e, v.counted),
  refl,
  λ w. entries-weigh w s.pcb p e,
)
