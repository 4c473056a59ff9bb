-- ===== src/NaiveConsole.antt =====
-- The early text console, Kernel/naiveConsole.c, whose screen is memory from address 0xB8000 on: a sign
-- and a colour for each of the 80 columns of 25 rows.
pub mod Printed
pub mod Rows
mod Tests
use peps_os.Common.{
  ℕ, zero, suc, ◌+◌, ◌-◌, ◌*◌, ◌/◌, ◌%◌, Bool, Option, none, some, List, [], ◌∷◌, ◌==◌, ltb,
  if◌then◌else◌, get_or, set, replicate,
}
use peps_os.Common.Swaps.{swap_ends}

-- `buffer`, the memory by its distance from `video`, and `currentVideo` likewise.
pub record NaiveConsole : Type 0 where
  pub buffer : List ℕ
  pub video : ℕ → ℕ
  pub current_video : ℕ

-- The bytes of a row.
abbrev pub row_size : ℕ
row_size = 160

-- `ncPrintChar`.
unfoldable pub nc_print_char : NaiveConsole → ℕ → NaiveConsole
nc_print_char s c = record s {
  video = λ i. if i == s.current_video then c else s.video i;
  current_video = s.current_video + 2;
}

-- `ncPrint`, up to the first 0.
unfoldable pub nc_print : NaiveConsole → List ℕ → NaiveConsole
unfolding nc_print_char
nc_print s [] = s
nc_print s (c ∷ cs) = let rest = nc_print (nc_print_char s c) cs in if c == 0 then s else rest

-- `ncNewline`, with fuel: `none` if the loop has not ended.
unfoldable pub nc_newline : ℕ → NaiveConsole → Option NaiveConsole
unfolding nc_print_char
nc_newline zero s = none
nc_newline (suc f) s =
    let s' = nc_print_char s 32 in
    let rest = nc_newline f s' in if s'.current_video % row_size == 0 then some s' else rest

-- `(remainder < 10) ? remainder + '0' : remainder + 'A' - 10`, as a byte.
abbrev pub digit_char : ℕ → ℕ
digit_char d = if ltb d 10 then d + 48 else (d + 55) % 256

-- The loop of `uintToBase` that writes the digits, lowest first, from `p` on, with fuel: the buffer,
-- and where the loop ends.
unfoldable pub put_digits : ℕ → ℕ → ℕ → ℕ → List ℕ → Option (List ℕ × ℕ)
put_digits zero base value p buffer = none
put_digits (suc f) base value p buffer =
    let buffer' = set buffer p (digit_char (value % base)) in
    let rest = put_digits f base (value / base) (p + 1) buffer' in
    if value / base == 0 then some (buffer', p + 1) else rest

-- `*p = 0`, and the loop that swaps the ends.
abbrev pub turned : List ℕ × ℕ → List ℕ × ℕ
turned (buffer, digits) = (swap_ends digits 0 (digits - 1) (set buffer digits 0), digits)

-- `uintToBase`: the buffer, and the number of digits. A number of 64 bits has up to 64 digits.
unfoldable pub uint_to_base : ℕ → List ℕ → ℕ → Option (List ℕ × ℕ)
unfolding put_digits
uint_to_base value buffer base = elim (put_digits 64 base value 0 buffer) [
  | none ↦ none
  | some r ↦ some (turned r)
]

-- `ncPrintBase`; `ncPrintDec`, `ncPrintHex` and `ncPrintBin` give it the bases 10, 16 and 2.
unfoldable pub nc_print_base : NaiveConsole → ℕ → ℕ → Option NaiveConsole
unfolding uint_to_base nc_print
nc_print_base s value base = elim (uint_to_base value s.buffer base) [
  | none ↦ none
  | some (buffer, digits) ↦ some (nc_print (record s { buffer = buffer }) buffer)
]

-- The loop of `ncClear`: `n` signs are left to be cleared.
unfoldable pub clear_from : ℕ → ℕ → (ℕ → ℕ) → ℕ → ℕ
clear_from zero i video = video
clear_from (suc n) i video = clear_from n (i + 1) (λ k. if k == i * 2 then 32 else video k)

-- `ncClear`.
unfoldable pub nc_clear : NaiveConsole → NaiveConsole
unfolding clear_from
nc_clear s = record s { video = clear_from 2000 0 s.video; current_video = 0 }
