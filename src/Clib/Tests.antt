-- ===== src/Clib/Tests.antt =====
-- The theorems about Kernel/lib.c at small buffers. The letters are their codes.
use peps_os.Common.{ℕ, ◌<◌, arith, List, [], ◌∷◌, length}
use peps_os.Clib.{string_length, KeyBuffer}

abbrev halt_name : List ℕ
halt_name = 104 ∷ 97 ∷ 108 ∷ 116 ∷ 0 ∷ 9 ∷ []

abbrev room : List ℕ
room = 1 ∷ 2 ∷ 3 ∷ 4 ∷ 5 ∷ 6 ∷ 7 ∷ 8 ∷ []

copied_fits : string_length halt_name < length room
unfolding string_length
copied_fits = omega arith

abbrev keys : KeyBuffer
keys = record { kb_buffer = 1 ∷ 2 ∷ 3 ∷ 4 ∷ 5 ∷ 6 ∷ 7 ∷ 8 ∷ 9 ∷ 10 ∷ []; buffer_indx = 10 }
