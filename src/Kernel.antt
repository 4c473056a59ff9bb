-- ===== src/Kernel.antt =====
-- The kernel as a whole: its state, and the calls that come into it (Kernel/irqDispatcher.c).
pub mod Numbers
pub mod Streams
pub mod Boot
pub mod Calls
pub mod Invariant
mod Tests
use peps_os.Common.{
  ℕ, ◌+◌, ◌-◌, Bool, Option, none, some, List, ltb, if◌then◌else◌, u32_mod, u64_mod,
}
use peps_os.Scheduler.Table.{Sched}
use peps_os.Scheduler.Info.{ProcessInfo}
use peps_os.Pipes.{Pipes}
use peps_os.Keyboard.{Keyboard}
use peps_os.Console.{Video}
use peps_os.Console.Reports.{Registers}
use peps_os.Sem.{Sems}

-- A store of the kernel through an address that a process gave: a word of 32 or 64 bits, or bytes.
pub data Store : Type 0 where
  word : (address value : ℕ) → Store
  bytes : (address : ℕ) → List ℕ → Store
  infos : (address : ℕ) → List ProcessInfo → Store

-- What the kernel reads of the memory of the processes, from an address on.
pub record Memory : Type 0 where
  pub text_at : ℕ → List ℕ
  pub words_at : ℕ → List ℕ
  pub ints_at : ℕ → List ℕ
  pub process_info_at : ℕ → ProcessInfo

-- The addresses of the variables of Kernel/video.c that the kernel hands out.
pub record Places : Type 0 where
  pub fg_color : ℕ
  pub x_buffer : ℕ
  pub y_buffer : ℕ

-- The variables of the whole kernel. `stores` is the log of what it wrote for the processes, newest
-- first, and `beeps` that of the calls of `beep`.
pub record Kernel (H : Type 0) : Type 0 where
  pub pipes : Pipes H
  pub video : Video
  pub keyboard : Keyboard
  pub registers : Registers
  pub stores : List Store
  pub beeps : List (ℕ × ℕ)

module _ {H : Type 0} where
  abbrev pub sched_of : Kernel H → Sched H
  sched_of k = k.pipes.sems.sched

  abbrev pub set_sched : Kernel H → Sched H → Kernel H
  set_sched k s = record k { pipes = record k.pipes { sems = record k.pipes.sems { sched = s } } }

  abbrev pub set_sems : Kernel H → Sems H → Kernel H
  set_sems k s = record k { pipes = record k.pipes { sems = s } }

-- How a call goes on: it returns to its caller with a value; its caller is gone; its caller is blocked
-- and makes the call again when it next runs; its caller is blocked in a `sem_post`, after which the
-- call returns the value; or it waits until the ticks have passed since a start.
pub data Result (K : Type 0) : Type 0 where
  returned : K → ℕ → Result K
  gone : K → Result K
  again : K → Result K
  posting : K → ℕ → Result K
  ticking : K → (start time : ℕ) → Result K

-- An `int` as a `uint64_t`, and a `char`.
abbrev pub signed_32 : ℕ → ℕ
signed_32 n = if ltb n 2147483648 then n else n + (u64_mod - u32_mod)

abbrev pub signed_8 : ℕ → ℕ
signed_8 c = if ltb c 128 then c else c + (u64_mod - 256)
