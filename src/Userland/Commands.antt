-- ===== src/Userland/Commands.antt =====
-- The commands of the shell, Userland/SampleCodeModule/consola.c.
pub mod Looked
use peps_os.Common.{
  ℕ, ◌%◌, Bool, true, false, ◌&&◌, not, Option, none, some, List, [], ◌∷◌, ◌==◌, if◌then◌else◌,
  get_or, codes,
}
use peps_os.Userland.Text.{compare_strings, string_tokenizer, Tokenized, satoi, string_copy_naive}
use peps_os.Userland.Calls.{
  Program, ps, loop, cat, filter, wc, run_philosophers, test_mm, test_scheduler, test_sync,
}

-- `CommandType`.
pub data CommandType : Type 0 where
  enlarge_font_size decrease_font_size test_div_zero test_inv_opcode print_help print_mem_state
        processes_state process_loop process_kill process_nice process_block_toggle ipc_cat
        ipc_line_count ipc_filter_vowels ipc_phylo cmd_test_mm cmd_test_sch piped_pair test_ipc_sem
        unknown :
      CommandType

abbrev pub space : ℕ
space = 32

-- `bgFlag` and `isPipe`.
unfoldable pub bg_flag : List ℕ → Bool
bg_flag arg = (get_or arg 0 0 == 38) && (get_or arg 1 0 == 0)

unfoldable pub is_pipe : List ℕ → Bool
is_pipe arg = (get_or arg 0 0 == 124) && (get_or arg 1 0 == 0)

abbrev pub is_command : List ℕ → List ℕ → Bool
is_command command name = compare_strings command name == 0

-- `isBlockCommand`, `isKillCommand` and `isNiceComand`, with the numbers that `satoi` makes of their
-- arguments.
unfoldable pub is_block_command : List ℕ → ℕ → Bool
is_block_command command n1 = is_command command (codes "block") && not (n1 == 0)

unfoldable pub is_kill_command : List ℕ → ℕ → Bool
is_kill_command command n1 = is_command command (codes "kill") && not (n1 == 0)

unfoldable pub is_nice_command : List ℕ → ℕ → ℕ → Bool
is_nice_command command n1 n2 =
    is_command command (codes "nice") && (not (n1 == 0) && not (n2 == 0))

-- The names that `getCommandType` compares the command with, in its order.
abbrev pub command_names : List (List ℕ × CommandType)
command_names =
    (codes "increasefontsize", enlarge_font_size)
    ∷ (codes "reducefontsize", decrease_font_size)
    ∷ (codes "testdivzero", test_div_zero)
    ∷ (codes "testinvalidopcode", test_inv_opcode)
    ∷ (codes "help", print_help)
    ∷ (codes "mem", print_mem_state)
    ∷ (codes "ps", processes_state)
    ∷ (codes "loop", process_loop)
    ∷ (codes "kill", process_kill)
    ∷ (codes "nice", process_nice)
    ∷ (codes "block", process_block_toggle)
    ∷ (codes "cat", ipc_cat)
    ∷ (codes "wc", ipc_line_count)
    ∷ (codes "filter", ipc_filter_vowels)
    ∷ (codes "phylo", ipc_phylo)
    ∷ (codes "testmm", cmd_test_mm)
    ∷ (codes "testsch", cmd_test_sch)
    ∷ (codes "testsem", test_ipc_sem)
    ∷ []

-- The chain of `else if (compareStrings(command, ...) == 0)`.
unfoldable pub first_match : List ℕ → List (List ℕ × CommandType) → CommandType
first_match command [] = unknown
first_match command ((name, type) ∷ names) =
    let rest = first_match command names in if is_command command name then type else rest

-- `getCommandType` behind `stringTokenizer`: the command, whether its first argument is `|`, and the
-- numbers of its two arguments.
unfoldable pub classify : List ℕ → Bool → ℕ → ℕ → CommandType
unfolding is_kill_command is_nice_command is_block_command first_match
classify command pipe n1 n2 =
    let rest = first_match command command_names in
    if pipe
    then piped_pair
    else (if is_kill_command command n1
        then process_kill
        else (if is_nice_command command n1 n2
            then process_nice
            else (if is_block_command command n1 then process_block_toggle else rest)))

-- `getCommandType(command, arg1, arg2)`, which cuts the three buffers.
unfoldable pub get_command_type : List ℕ → List ℕ → List ℕ → CommandType × Tokenized
unfolding classify is_pipe
get_command_type command arg1 arg2 =
    let t = string_tokenizer command arg1 arg2 space in
    (classify t.string (is_pipe t.s1) (satoi t.s1) (satoi t.s2), t)

-- `getCommandType(command, NULL, NULL)`, for which `satoi` is 0.
unfoldable pub get_command_type_alone : List ℕ → List ℕ → CommandType
unfolding classify is_pipe
get_command_type_alone null_bytes command =
    let t = string_tokenizer command null_bytes null_bytes space in
    classify t.string (is_pipe t.s1) 0 0

-- `getFunctionPtr`: the function, if there is one, and the bytes at `argv`.
unfoldable pub get_function_ptr : CommandType → List ℕ → Option Program × List ℕ
unfolding string_copy_naive
get_function_ptr ipc_cat argv = (some cat, string_copy_naive (codes "cat") argv)
get_function_ptr ipc_filter_vowels argv = (some filter, string_copy_naive (codes "flt") argv)
get_function_ptr ipc_line_count argv = (some wc, string_copy_naive (codes "wc") argv)
get_function_ptr cmd_test_sch argv = (some test_scheduler, string_copy_naive (codes "tsc") argv)
get_function_ptr cmd_test_mm argv = (some test_mm, string_copy_naive (codes "tmm") argv)
get_function_ptr ipc_phylo argv = (some run_philosophers, string_copy_naive (codes "phy") argv)
get_function_ptr _ argv = (none, argv)
