-- ===== src/Userland/Shell.antt =====
-- The shell, Userland/SampleCodeModule/consola.c: what each command does, and the line that is typed.
pub mod Typed
pub mod Runs
pub mod Kills
use peps_os.Common.{
  ℕ, zero, suc, ◌+◌, ◌-◌, ◌*◌, ◌/◌, ◌%◌, Bool, true, false, Option, none, some, List, [], ◌∷◌, ◌==◌,
  ltb, leb, if◌then◌else◌, get_or, set, replicate, codes, u32_mod, u64_mod,
}
use peps_os.Userland.Text.{satoi, Tokenized, arg_length}
use peps_os.Userland.Calls.{
  UserCalls, Program, ps, loop, cat, filter, wc, run_philosophers, test_mm, test_scheduler,
  test_sync,
}
use peps_os.Userland.Commands.{
  CommandType, enlarge_font_size, decrease_font_size, test_div_zero, test_inv_opcode, print_help,
  print_mem_state, processes_state, process_loop, process_kill, process_nice, process_block_toggle,
  ipc_cat, ipc_phylo, cmd_test_mm, cmd_test_sch, piped_pair, test_ipc_sem, get_command_type,
  get_command_type_alone, get_function_ptr, bg_flag,
}

abbrev pub stdin : ℕ
stdin = 0

abbrev pub stdout : ℕ
stdout = 1

abbrev pub light_gray : ℕ
light_gray = 0xAAAAAA

abbrev green : ℕ
green = 0x00AA00

abbrev red : ℕ
red = 0xFF0000

-- The number of an argument, as an `int`.
abbrev pub number_of : List ℕ → ℕ
number_of arg = satoi arg % u32_mod

module _ {K : Type 0} (c : UserCalls K) where
  -- `for (int i = 0; text[i] != 0; i++) call_drawLetterFromChar(text[i]);`.
  unfoldable pub draw_text : List ℕ → K → K
  draw_text [] k = k
  draw_text (x ∷ xs) k =
      let rest = draw_text xs (c.draw_letter_from_char x k) in if x == 0 then k else rest

  -- `askForAnyletter`.
  unfoldable pub ask_for_anyletter : K → K
  unfolding draw_text
  ask_for_anyletter k =
      c.set_size (c.get_size k)
        (draw_text (codes "\n\n\n\n->PRESIONE CUALQUIER TECLA PARA CONTINUAR") (c.set_size 1 k))

  -- `askForAnyletter(); call_pipe_read(STDIN);`.
  abbrev pub asked : K → K
  asked k = (c.pipe_read stdin (ask_for_anyletter k)).1

  -- `printHelp`.
  unfoldable pub help_printed : K → K
  unfolding draw_text
  help_printed k =
      let k1 = c.clear k in
      let k2 = c.set_y_buffer 5 (c.set_x_buffer 0 (c.set_size 2 k1)) in
      c.set_size (c.get_size k1) (
        draw_text
          (codes
            "->Mostrar Procesos: ps\n->Crear proceso loop: loop\n->Matar un proceso: kill (pid)\n->Cambiar prioridad (numero de 0 a 4) de un proceso: nice (pid) (prioridad)\n->Bloquear un proceso: block (pid)\n->Testear division por cero: testdivzero\n->Testear invalid op code: testinvalidopcode\n->Reducir tamanio de fuente: reducefontsize\n->Verificar el estadode la memoria: mem\n->Aumentar tamanio de fuente: increasefontsize\n->Juego de los filosofos:phylo\n->Escribir el input a pantalla:cat\n->Filtrar vocales del input: filter \n->Contar lineas del input: wc\n->Pipear dos procesos: p1 | p2\n->Iniciar proceso de fondo: &\nVarios testeos de sistema:\ntestsem,testmm,testsch")
          k2)

  -- An amount of memory and its unit.
  abbrev pub amount_printed : ℕ → K → K
  amount_printed n k = c.draw_letter_from_char 66 (c.print_long_long_int n k)

  -- `printMemState`; 47 is `/`.
  unfoldable pub mem_state_printed : K → K
  unfolding draw_text
  mem_state_printed k =
      let k1 = c.clear k in
      let k2 = c.set_x_buffer 0 (c.set_size 2 k1) in
      let k3 = c.set_y_buffer (2 * (c.get_height k2 / 3) + 13 * c.get_size k2) k2 in
      let k4 =
        c.set_size (c.get_size k1)
          (draw_text (codes "ESTADO ACTUAL DE MEMORIA (LIBRE, ALOCADA, TOTAL):\n ") k3) in
      let ((free, total, allocated), k5) = c.mem_state k4 in
      let k6 = amount_printed ((total + (u64_mod - allocated)) % u64_mod) k5 in
      amount_printed total
        (c.draw_letter_from_char 47 (amount_printed allocated (c.draw_letter_from_char 47 k6)))

  -- A program with its arguments, in the background or not, and its two priorities.
  abbrev pub started : Bool → Program → ℕ → List (List ℕ) → ℕ → ℕ → K → K
  started background program argc argv behind before k =
      if background
      then (c.create_background_process program argc argv behind k).1
      else (c.create_foreground_process program argc argv before k).1

  unfoldable pub paired : Option Program × List ℕ → Option Program × List ℕ → K → K
  paired (none, a1) f2 k = k
  paired (some p1, a1) (none, a2) k = k
  paired (some p1, a1) (some p2, a2) k =
      let (shared_pipe, k') = c.pipe_open (codes "NewPipe") k in
      c.create_processes_with_pipe (p1, a1, stdin, shared_pipe) (p2, a2, shared_pipe, stdout) k'

  -- `case CMD_PIPED_PAIR`.
  unfoldable pub pair_run : Tokenized → K → K
  unfolding paired
  pair_run t k =
      let k' = c.clear k in
      let cmd1 = get_command_type_alone (c.null_bytes k') t.string in
      let cmd2 = get_command_type_alone (c.null_bytes k') t.s2 in
      paired (get_function_ptr cmd1 (replicate 4 0)) (get_function_ptr cmd2 (replicate 4 0)) k'

  -- `case CMD_PROCESS_KILL`, `CMD_PROCESS_NICE`, `CMD_PROCESS_BLOCK_TOGGLE` behind their system call.
  abbrev pub kill_told : ℕ × K → K
  kill_told (was_killed, k) =
      (c.pipe_read stdin (
        if was_killed == 0
        then c.system_write (codes "\nProcess not killed") k
        else c.draw_string_formatted (codes "\nProcess killed") red light_gray 2 k)).1

  abbrev pub nice_told : ℕ × K → K
  nice_told (was_changed, k) =
      (c.pipe_read stdin (
        if was_changed == 0
        then c.draw_string_formatted (codes "\nProcess priority not changed") 0 light_gray 2 k
        else c.draw_string_formatted (codes "\nProcess priority changed") green light_gray 2 k)).1

  abbrev pub toggled : ℕ → ℕ × K → K
  toggled pid (was_block, k) =
      (c.pipe_read stdin (if was_block == 0 then (c.unblock pid k).1 else k)).1

  -- The `switch` of `interpretCommand`.
  unfoldable pub run_command : CommandType → Tokenized → K → K
  unfolding pair_run ask_for_anyletter help_printed mem_state_printed bg_flag
  run_command piped_pair t k = pair_run t k
  run_command enlarge_font_size t k =
      asked (if ltb (c.get_size k) 4 then c.set_size (c.get_size k + 1) k else c.set_size 4 k)
  run_command decrease_font_size t k =
      asked (if ltb 1 (c.get_size k) then c.set_size (c.get_size k - 1) k else c.set_size 1 k)
  run_command test_div_zero t k = c.excep_div_zero k
  run_command test_inv_opcode t k = c.excep_invalid_op k
  run_command print_help t k = asked (help_printed k)
  run_command print_mem_state t k = asked (mem_state_printed k)
  run_command process_loop t k = (c.create_background_process loop 0 (codes "loop" ∷ []) 0 k).1
  run_command processes_state t k = started (bg_flag t.s1) ps 0 (codes "ps" ∷ []) 3 4 k
  run_command process_kill t k = kill_told (c.kill (number_of t.s1) k)
  run_command process_nice t k = nice_told (c.change_priority (number_of t.s1) (number_of t.s2) k)
  run_command process_block_toggle t k = toggled (number_of t.s1) (c.block (number_of t.s1) k)
  run_command ipc_cat t k = started (bg_flag t.s1) cat 0 (codes "cat" ∷ []) 3 4 (c.clear k)
  run_command ipc_phylo t k = started (bg_flag t.s1) run_philosophers 0 (codes "phylo" ∷ []) 3 4 k
  run_command cmd_test_mm t k = started (bg_flag t.s1) test_mm 1 (codes "testmm" ∷ t.s1 ∷ []) 3 4 k
  run_command cmd_test_sch t k =
      started (bg_flag t.s1) test_scheduler 1 (codes "testsch" ∷ t.s1 ∷ []) 4 4 k
  run_command test_ipc_sem t k =
      started (bg_flag t.s1) test_sync 2 (codes "testsem" ∷ t.s1 ∷ t.s2 ∷ []) 4 4 k
  run_command _ t k = k

  -- `interpretCommand`: what it leaves of the line, and the machine.
  unfoldable pub interpret_command : List ℕ → K → List ℕ × K
  unfolding run_command
  interpret_command command k =
      let (type, t) = get_command_type command (replicate arg_length 0) (replicate arg_length 0) in
      (t.string, run_command type t k)

abbrev pub line_length : ℕ
line_length = 50

-- `internalBuffer` and `bufferSize`.
pub record Line : Type 0 where
  pub internal_buffer : List ℕ
  pub buffer_size : ℕ

abbrev pub empty_line : Line
empty_line = record { internal_buffer = replicate line_length 0; buffer_size = 0 }

-- `while (bufferSize > 0) { internalBuffer[bufferSize - 1] = 0; bufferSize--; }`.
unfoldable pub wiped : ℕ → List ℕ → List ℕ
wiped zero buffer = buffer
wiped (suc n) buffer = wiped n (set buffer n 0)

-- How a turn of the shell's loop ends: it reads on, the shell exits, or, for this letter, it stores
-- behind the bytes of `internalBuffer`.
pub data Turn (K : Type 0) : Type 0 where
  reads : Line → K → Turn K
  exits : K → Turn K
  overruns : ℕ → Line → K → Turn K

-- `internalBuffer[bufferSize] = value`, and the new `bufferSize`.
unfoldable pub put_at_end : {K : Type 0} → ℕ → Line → ℕ → ℕ → K → Turn K
put_at_end letter l value size k =
    if ltb l.buffer_size line_length
    then reads
        (record { internal_buffer = set l.internal_buffer l.buffer_size value; buffer_size = size })
        k
    else overruns letter l k

module _ {K : Type 0} (c : UserCalls K) where
  -- `case '\n'`.
  unfoldable pub line_entered : Line → K → Line × K
  unfolding wiped
  line_entered l k =
      let (buffer, k') = interpret_command c l.internal_buffer k in
      (
        record { internal_buffer = wiped l.buffer_size buffer; buffer_size = 0 },
        c.set_y_buffer 10 (c.set_x_buffer 0 (c.clear k')),
      )

  -- The `switch` of `runConsole`, for the letter that `get_char` returned.
  unfoldable pub run_console : Line → ℕ → K → Turn K
  unfolding line_entered put_at_end
  run_console l letter k =
      if letter == 10
      then (let (l', k') = line_entered l k in reads l' k')
      else (if letter == 0
          then reads l k
          else (if letter == 27
              then exits (c.exit k)
              else (if letter == 8
                  then (if l.buffer_size == 0
                      then reads l k
                      else put_at_end letter l 0 (l.buffer_size - 1) (c.delete_letter_buffered k))
                  else (if leb line_length l.buffer_size
                      then reads l k
                      else put_at_end letter l letter (l.buffer_size + 1)
                          (c.draw_letter_from_char letter k)))))
