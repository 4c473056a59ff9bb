-- ===== src/Pipes/Tests.antt =====
-- The theorems about Kernel/pipes.c on a pipe with an empty buffer.
use peps_os.Common.{ℕ, ◌≡◌, refl, arith, [], ◌∷◌, ◌++◌, replicate, length-replicate}
use peps_os.Pipes.{Pipe, store_char, fetch_char}
use peps_os.Pipes.Buffer.{Holds, unread, store_char-Holds, fetch_char-Holds}

abbrev empty : Pipe
empty = record {
  r_indx = 1020;
  w_indx = 1020;
  read_sem = 3;
  read_sem_name = [];
  buffer = replicate 1024 0;
  name = [];
  proc_count = 0;
}

empty-Holds : Holds 0 empty
empty-Holds = record {
  room = length-replicate {A = ℕ} 1024 0;
  ahead = refl;
  fits = omega arith;
  small = omega arith;
}

store_char-Holds_example :
    (unread 1 (store_char empty 65) ≡ unread 0 empty ++ 65 ∷ []) × Holds 1 (store_char empty 65)
store_char-Holds_example = store_char-Holds 0 empty 65 empty-Holds (omega arith) (omega arith)

one_stored : Holds 1 (store_char empty 65)
one_stored = (store_char-Holds 0 empty 65 empty-Holds (omega arith) (omega arith)).1

fetch_char-Holds_example :
    (unread 1 (store_char empty 65)
      ≡ (fetch_char (store_char empty 65)).0 ∷ unread 0 (fetch_char (store_char empty 65)).1)
    × Holds 0 (fetch_char (store_char empty 65)).1
fetch_char-Holds_example = fetch_char-Holds 0 (store_char empty 65) one_stored
