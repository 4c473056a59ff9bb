-- ===== src/Kernel/Tests.antt =====
-- The kernel on a small machine: memory is handed out from a counter, there are four semaphores and
-- three pipes, and the process that runs makes calls.
use peps_os.Common.{ℕ, ◌+◌, false, none, [], ◌∷◌, replicate, codes}
use peps_os.Memory.{Allocator}
use peps_os.Scheduler.Table.{Process, foreground, null, empty_list, blocked, max_priority}
use peps_os.Sem.{no_instance}
use peps_os.Pipes.{no_pipe}
use peps_os.Kernel.{Kernel, Memory, Places}
use peps_os.Kernel.Boot.{booted}
use peps_os.Kernel.Calls.{Args, int_80}
use peps_os.Kernel.Invariant.Streams.{kernel_of}

instance abbrev counter : Allocator ℕ
counter = record { alloc_memory = λ n h. (h + 16, h + 16 + n); free_memory = λ p h. h }

abbrev nobody : Process
nobody = record {
  rsp = 0;
  rbp = 0;
  mem_start_adress = 0;
  pid = 0;
  state = blocked;
  priority = 0;
  parent_pid = 0;
  tipo = foreground;
  name = 0;
  kids_count = 0;
  in_pipe = 0;
  out_pipe = 0;
  address = 0;
}

abbrev unloaded : Kernel ℕ
unloaded = record {
  pipes = record {
    pipe_inst = replicate 3 no_pipe;
    sem_for_pipe_man = 0;
    sems = record {
      instances = replicate 4 no_instance;
      sched = record {
        pcb = record {
          process_count = 0;
          running = null;
          priority_queue = replicate max_priority empty_list;
          blocked = [];
          halt = nobody;
          at_null = nobody;
          null_next = none;
        };
        next_pid = 0;
        heap = 4096;
        sleeped = [];
        ticks = 0;
        cpu_rsp = 0;
        cpu_rbp = 0;
      };
    };
  };
  video = record { fg = 0; bg = 0; size = 0; x = 0; y = 0; width = 0; height = 0; shapes = [] };
  keyboard = record {
    shift = false;
    block_mayus = false;
    ctrl = false;
    gameplay = false;
    keys = record { kb_buffer = replicate 10 0; buffer_indx = 0 };
    keys_pressed = 0;
  };
  registers = record {
    r15 = 0;
    r14 = 0;
    r13 = 0;
    r12 = 0;
    r11 = 0;
    r10 = 0;
    r9 = 0;
    r8 = 0;
    rsi = 0;
    rdi = 0;
    rbp = 0;
    rdx = 0;
    rcx = 0;
    rbx = 0;
    rax = 0;
    rip = 0;
    cs = 0;
    rflags = 0;
    rsp = 0;
    ss = 0;
  };
  stores = [];
  beeps = [];
}

abbrev memory : Memory
memory = record {
  text_at = λ a. codes "text";
  words_at = λ a. 7 ∷ [];
  ints_at = λ a. 0 ∷ 1 ∷ [];
  process_info_at = λ a. record {
    name = 0;
    rsp = 0;
    rbp = 0;
    pid = 0;
    parent_pid = 0;
    priority = 0;
    state = blocked;
    tipo = foreground;
  };
}

abbrev places : Places
places = record { fg_color = 1; x_buffer = 2; y_buffer = 3 }

abbrev started : Kernel ℕ
started =
    booted unloaded 1024 768 4096 (record { process = 1; argc = 0; argv = [] })
      (record { process = 2; argc = 0; argv = 9 ∷ [] })

-- `call_createBackgroundProcess` with priority 3.
abbrev creates : Args
creates = record { rdi = 42; rsi = 5; rdx = 0; rcx = 64; r8 = 3; r9 = 0 }

abbrev called : Kernel ℕ
called = kernel_of (int_80 (λ h. (0, 0, 0)) (λ i. 0) memory places creates started)
