-- ===== src/Console/Reports.antt =====
-- Kernel/lib.c: the saved registers, what `printRegs` and `printProcessInfo` draw, and the clock.
use peps_os.Common.{ℕ, List, get_or, codes}
use peps_os.Clib.{decode}
use peps_os.Scheduler.Table.{
  State, blocked, ready, running, exited, ProcessType, foreground, background,
}
use peps_os.Scheduler.Info.{ProcessInfo}
use peps_os.Console.{
  Video, black, set_size, new_line, draw_string_def, draw_string_formatted, print_integer,
  print_hex,
}

-- `regStruct`.
pub record Registers : Type 0 where
  pub r15 : ℕ
  pub r14 : ℕ
  pub r13 : ℕ
  pub r12 : ℕ
  pub r11 : ℕ
  pub r10 : ℕ
  pub r9 : ℕ
  pub r8 : ℕ
  pub rsi : ℕ
  pub rdi : ℕ
  pub rbp : ℕ
  pub rdx : ℕ
  pub rcx : ℕ
  pub rbx : ℕ
  pub rax : ℕ
  pub rip : ℕ
  pub cs : ℕ
  pub rflags : ℕ
  pub rsp : ℕ
  pub ss : ℕ

-- `saveRegsBuffer`: the words from `regs` on, in the order that the interrupt handler pushed them.
unfoldable pub save_regs_buffer : List ℕ → Registers
save_regs_buffer words = record {
  r15 = get_or words 0 0;
  r14 = get_or words 1 0;
  r13 = get_or words 2 0;
  r12 = get_or words 3 0;
  r11 = get_or words 4 0;
  r10 = get_or words 5 0;
  r9 = get_or words 6 0;
  r8 = get_or words 7 0;
  rsi = get_or words 8 0;
  rdi = get_or words 9 0;
  rbp = get_or words 10 0;
  rdx = get_or words 11 0;
  rcx = get_or words 12 0;
  rbx = get_or words 13 0;
  rax = get_or words 14 0;
  rip = get_or words 15 0;
  cs = get_or words 16 0;
  rflags = get_or words 17 0;
  rsp = get_or words 18 0;
  ss = get_or words 19 0;
}

-- A name, the number in hexadecimal, and a new line.
abbrev line_of : List ℕ → ℕ → Video → Video
line_of name number v = new_line (print_hex (draw_string_def v name) number)

-- `printRegs`, from (0, 45) on, in white on black; the colours come back.
unfoldable pub print_regs : Registers → Video → Video
print_regs r v =
    let start = record v { fg = 0xFFFFFF; bg = black; x = 0; y = 45 } in
    let v0 = line_of (codes "RIP = 0x") r.rip start in
    let v1 = line_of (codes "RAX = 0x") r.rax v0 in
    let v2 = line_of (codes "RBX = 0x") r.rbx v1 in
    let v3 = line_of (codes "RCX = 0x") r.rcx v2 in
    let v4 = line_of (codes "RDX = 0x") r.rdx v3 in
    let v5 = line_of (codes "RSP = 0x") r.rsp v4 in
    let v6 = line_of (codes "RBP = 0x") r.rbp v5 in
    let v7 = line_of (codes "RSI = 0x") r.rsi v6 in
    let v8 = line_of (codes "RDI = 0x") r.rdi v7 in
    let v9 = line_of (codes "R8 = 0x") r.r8 v8 in
    let v10 = line_of (codes "R9 = 0x") r.r9 v9 in
    let v11 = line_of (codes "R10 = 0x") r.r10 v10 in
    let v12 = line_of (codes "R11 = 0x") r.r11 v11 in
    let v13 = line_of (codes "R12 = 0x") r.r12 v12 in
    let v14 = line_of (codes "R13 = 0x") r.r13 v13 in
    let v15 = line_of (codes "R14 = 0x") r.r14 v14 in
    let v16 = line_of (codes "R15 = 0x") r.r15 v15 in
    let v17 = line_of (codes "CS = 0x") r.cs v16 in
    let v18 = line_of (codes "RFLAGS = 0x") r.rflags v17 in
    let v19 = line_of (codes "SS = 0x") r.ss v18 in record v19 { fg = v.fg; bg = v.bg }

abbrev gap : Video → Video
gap v = draw_string_def v (codes "  ")

-- The state of a process, in its colour.
unfoldable pub state_printed : State → Video → Video
state_printed blocked v = draw_string_formatted v (codes "BLOCKED") 0xAA0000 black 2
state_printed ready v = draw_string_formatted v (codes "READY") 0x5555FF black 2
state_printed running v = draw_string_formatted v (codes "RUNNING") 0x55FF55 black 2
state_printed exited v = draw_string_formatted v (codes "EXITED") 0xFF5555 black 2

unfoldable pub type_printed : ProcessType → Video → Video
type_printed foreground v = draw_string_def v (codes "F")
type_printed background v = draw_string_def v (codes "B")

-- `printProcessInfo`, with the bytes of the process's name.
unfoldable pub print_process_info : ProcessInfo → List ℕ → Video → Video
unfolding state_printed type_printed
print_process_info p name v =
    let named = gap (draw_string_def (new_line (set_size v 2)) name) in
    let numbers = gap (
      print_integer (gap (print_integer (gap (print_integer named p.pid)) p.parent_pid))
        p.priority) in
    let typed = gap (type_printed p.tipo (gap (state_printed p.state numbers))) in
    let stack = gap (print_hex (draw_string_def typed (codes "0x")) p.rsp) in
    new_line (print_hex (draw_string_def stack (codes "0x")) p.rbp)

-- `seconds`, `minutes`, `hours`, `day`, `month`, `year`: what `clock` reads at a place of the clock's
-- memory, as a number.
unfoldable pub clock_read : (ℕ → ℕ) → ℕ → ℕ
clock_read clock mode = decode (clock mode)
