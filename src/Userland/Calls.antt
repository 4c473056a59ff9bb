-- ===== src/Userland/Calls.antt =====
-- The calls of the kernel that the shell makes (Userland/SampleCodeModule/include/UserSyscalls.h): the
-- wrappers of the system calls, as operations on the state `K` of the machine.
use peps_os.Common.{ℕ, List}

-- The functions that a process can run.
pub data Program : Type 0 where
  ps loop cat filter wc run_philosophers test_mm test_scheduler test_sync : Program

pub record UserCalls (K : Type 0) : Type 0 where
  pub clear : K → K
  pub draw_letter_from_char : ℕ → K → K
  pub draw_string_formatted : List ℕ → (fg bg size : ℕ) → K → K
  pub system_write : List ℕ → K → K
  pub print_long_long_int : ℕ → K → K
  pub delete_letter_buffered : K → K
  pub set_x_buffer : ℕ → K → K
  pub set_y_buffer : ℕ → K → K
  pub get_height : K → ℕ
  pub get_size : K → ℕ
  pub set_size : ℕ → K → K
  -- The free, the total and the allocated memory.
  pub mem_state : K → (ℕ × ℕ × ℕ) × K
  pub pipe_open : List ℕ → K → ℕ × K
  pub pipe_read : ℕ → K → ℕ × K
  pub create_background_process : Program → (argc : ℕ) → List (List ℕ) → (priority : ℕ) → K → ℕ × K
  pub create_foreground_process : Program → (argc : ℕ) → List (List ℕ) → (priority : ℕ) → K → ℕ × K
  -- Two programs with their arguments and the ends of their pipes.
  pub create_processes_with_pipe : (Program × List ℕ × ℕ × ℕ) → (Program × List ℕ × ℕ × ℕ) → K → K
  pub kill : ℕ → K → ℕ × K
  pub change_priority : ℕ → ℕ → K → ℕ × K
  pub block : ℕ → K → ℕ × K
  pub unblock : ℕ → K → ℕ × K
  pub excep_div_zero : K → K
  pub excep_invalid_op : K → K
  pub exit : K → K
  -- The bytes at address 0, where a null `char *` leads.
  pub null_bytes : K → List ℕ
