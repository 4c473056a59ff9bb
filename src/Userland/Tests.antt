-- ===== src/Userland/Tests.antt =====
-- The user programs' library, the shell and the game on concrete strings, keys and snakes.
use peps_os.Common.{
  ℕ, ◌+◌, ◌≤◌, ◌≡◌, refl, arith, true, false, List, [], ◌∷◌, ◌++◌, ◌↔◌, codes, replicate, All,
  reverse_aux, drop,
}
use peps_os.Clib.Strings.{text}
use peps_os.Console.{long_buffer}
use peps_os.Userland.Calls.{UserCalls}
use peps_os.Userland.Text.{compare_strings, string_tokenizer, satoi, negated}
use peps_os.Userland.Text.Compared.{Orders, compare_strings-Orders}
use peps_os.Userland.Text.Tokens.{string_tokenizer-words}
use peps_os.Userland.Text.Parsed.{satoi-long_buffer, satoi-bad}
use peps_os.Userland.Commands.{classify, command_names, piped_pair}
use peps_os.Userland.Commands.Looked.{Names, classify-Names}
use peps_os.Userland.Shell.{empty_line, reads, draw_text, kill_told}
use peps_os.Userland.Shell.Typed.{type_letters}
use peps_os.Userland.Shell.Runs.{type_letters-taken_back}
use peps_os.Userland.Shell.Kills.{word_of, type_letters-kill}
use peps_os.Userland.Snake.{
  update_snake, initialize_snake, face_tried, square_size, interface_length, initial_points,
  moved_head,
}
use peps_os.Userland.Filters.{filter, exited}
use peps_os.Userland.Filters.Vowels.{vowels_of, filter-vowels}
use peps_os.Userland.Snake.Plays.{Plays, initialize_snake-IsSnake, update_snake-Plays}
use peps_os.Userland.Snake.{Snake, origin}
use peps_os.Common.{get_or}
use peps_os.Userland.Snake.Food.{IsApart, face_tried-free}

-- A machine that notes the letters that are drawn and the pids that are killed, newest first.
abbrev machine : UserCalls (List ℕ)
machine = record {
  clear = λ k. k;
  draw_letter_from_char = λ c k. c ∷ k;
  draw_string_formatted = λ s fg bg size k. k;
  system_write = λ s k. k;
  print_long_long_int = λ n k. k;
  delete_letter_buffered = λ k. k;
  set_x_buffer = λ x k. k;
  set_y_buffer = λ y k. k;
  get_height = λ k. 768;
  get_size = λ k. 2;
  set_size = λ n k. k;
  mem_state = λ k. ((0, 0, 0), k);
  pipe_open = λ s k. (3, k);
  pipe_read = λ i k. (0, k);
  create_background_process = λ p argc argv n k. (5, k);
  create_foreground_process = λ p argc argv n k. (5, k);
  create_processes_with_pipe = λ one two k. k;
  kill = λ n k. (1, n ∷ k);
  change_priority = λ n p k. (1, k);
  block = λ n k. (1, k);
  unblock = λ n k. (1, k);
  excep_div_zero = λ k. k;
  excep_invalid_op = λ k. k;
  exit = λ k. k;
  null_bytes = λ k. [];
}

compare_strings-Orders_example :
    Orders (text (codes "ps")) (text (codes "pwd")) (compare_strings (codes "ps") (codes "pwd"))
compare_strings-Orders_example =
    compare_strings-Orders (codes "ps") (codes "pwd") (omega arith, (omega arith, tt))
      (omega arith, (omega arith, (omega arith, tt)))

string_tokenizer-words_example :
    string_tokenizer
      (codes "nice" ++ 32 ∷ (codes "7" ++ 32 ∷ (codes "2" ++ 0 ∷ 0 ∷ [])))
      (replicate 20 0)
      (replicate 20 0)
      32
    ≡ record {
      string = codes "nice" ++ 0 ∷ (codes "7" ++ 0 ∷ (codes "2" ++ 0 ∷ 0 ∷ []));
      s1 = codes "7" ++ drop 1 (replicate 20 0);
      s2 = codes "2" ++ drop 1 (replicate 20 0);
    }
string_tokenizer-words_example =
    string_tokenizer-words 32 (codes "nice") (codes "7") (codes "2") (0 ∷ []) (replicate 20 0)
      (replicate 20 0) (refl, (refl, (refl, (refl, tt)))) (refl, tt) (refl, tt) refl (omega arith)
      (omega arith) (omega arith) (omega arith)

satoi-long_buffer_example :
    (satoi (reverse_aux (long_buffer 64 1203) (0 ∷ [])) ≡ 1203)
    × (satoi (45 ∷ reverse_aux (long_buffer 64 1203) (0 ∷ [])) ≡ negated 1203)
satoi-long_buffer_example = satoi-long_buffer 1203 [] (omega arith)

satoi-bad_example : satoi (codes "12x4") ≡ 0
satoi-bad_example = satoi-bad (codes "12x4") 1 (omega arith) refl

classify-Names_example :
    Names
      (text (codes "help" ++ 0 ∷ []))
      command_names
      (classify (codes "help" ++ 0 ∷ []) false 0 0)
    × (classify (codes "help" ++ 0 ∷ []) true 0 0 ≡ piped_pair)
classify-Names_example =
    classify-Names (codes "help" ++ 0 ∷ []) 0 0
      (omega arith, (omega arith, (omega arith, (omega arith, (omega arith, tt)))))

type_letters-kill_example :
    type_letters machine empty_line (word_of machine 12 ++ 10 ∷ []) []
    ≡ reads empty_line
        (kill_told machine (machine.kill 12 (draw_text machine (word_of machine 12) [])))
type_letters-kill_example = type_letters-kill machine 12 [] (omega arith) (omega arith)

type_letters-taken_back_example :
    (type_letters machine empty_line ((codes "p" ++ 115 ∷ []) ++ 8 ∷ []) []
      ≡ reads
          (record { internal_buffer = codes "ps" ++ replicate 48 0; buffer_size = 1 })
          (draw_text machine (codes "ps") []))
    × (text (codes "ps" ++ replicate 48 0) ≡ codes "ps")
type_letters-taken_back_example =
    type_letters-taken_back machine (codes "p") 115 [] (refl, (refl, tt)) (omega arith)

abbrev snake : Snake
snake = initialize_snake 300 400 7

-- The head eats, and then stands below the point where it was.
update_snake-Plays_example :
    Plays
      (moved_head snake.mov (get_or snake.body 0 origin))
      1024
      768
      (update_snake snake 1024 768 false false 0 (record { x = 400; y = 420 }))
unfolding initialize_snake initial_points
update_snake-Plays_example =
    update_snake-Plays snake 1024 768 0 (record { x = 400; y = 420 })
      (initialize_snake-IsSnake 300 400 7 (omega arith) (omega arith)) (omega arith)

face_tried-free_example :
    let (face, collision, seed') = face_tried 5 1024 768 (record { x = 100; y = 200 } ∷ []) in
    ((square_size ≤ face.x) × (face.x + square_size ≤ 1024))
    × ((square_size + interface_length ≤ face.y) × (face.y + square_size ≤ 768))
    × ((collision ≡ false) ↔ All (IsApart face.x face.y) (record { x = 100; y = 200 } ∷ []))
face_tried-free_example =
    face_tried-free 5 1024 768 (record { x = 100; y = 200 } ∷ []) (omega arith) (omega arith)
      (omega arith) (omega arith) ((omega arith, omega arith), tt)

filter-vowels_example : filter (codes "Pepsi" ++ 4 ∷ []) ≡ exited (vowels_of (codes "Pepsi"))
filter-vowels_example =
    filter-vowels (codes "Pepsi") [] 4
      ((refl, refl), ((refl, refl), ((refl, refl), ((refl, refl), ((refl, refl), tt))))) refl
