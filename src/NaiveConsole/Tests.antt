-- ===== src/NaiveConsole/Tests.antt =====
-- The early console with a cursor in the second row, and a number with four digits.
use peps_os.Common.{refl, arith, replicate}
use peps_os.NaiveConsole.{NaiveConsole, nc_newline, uint_to_base}
use peps_os.NaiveConsole.Printed.{Printed, uint_to_base-Printed}
use peps_os.NaiveConsole.Rows.{NextRow, nc_newline-NextRow}

abbrev second_row : NaiveConsole
second_row = record { buffer = replicate 64 0; video = λ i. 7; current_video = 166 }

uint_to_base-Printed_example :
    Printed 48879 16 (replicate 64 0) (uint_to_base 48879 (replicate 64 0) 16)
uint_to_base-Printed_example =
    uint_to_base-Printed 48879 16 (replicate 64 0) (omega arith) (omega arith) refl

nc_newline-NextRow_example : NextRow second_row 1 (nc_newline 80 second_row)
nc_newline-NextRow_example = nc_newline-NextRow 1 3 second_row (omega arith) (omega arith)
