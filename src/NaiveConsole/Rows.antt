-- ===== src/NaiveConsole/Rows.antt =====
-- The rows of the early console of Kernel/naiveConsole.c.
use peps_os.Common.{
  ℕ, zero, suc, ◌+◌, ◌*◌, ◌%◌, ◌<◌, ◌≤◌, ◌≡◌, ◌≢◌, refl, ap, ◌∙◌, arith, true, inl, inr, Option,
  some, ◌==◌, Bool-cases,
}
use peps_os.NaiveConsole.{NaiveConsole, row_size, nc_print_char, nc_newline}

-- A run of `ncNewline`: it ends at the start of the next row, has put a blank in each column up to
-- there, and left the rest of the memory, the colours among it, as it was.
pub record NextRow (s : NaiveConsole) (row : ℕ) (r : Option NaiveConsole) : Type 0 where
  pub state : NaiveConsole
  pub ends : r ≡ some state
  pub at_start : state.current_video ≡ (row + 1) * row_size
  pub same_buffer : state.buffer ≡ s.buffer
  pub blank :
      (k : ℕ)
      → s.current_video + 2 * k < (row + 1) * row_size
      → state.video (s.current_video + 2 * k) ≡ 32
  pub above : (i : ℕ) → i < s.current_video → state.video i ≡ s.video i
  pub below : (i : ℕ) → (row + 1) * row_size ≤ i → state.video i ≡ s.video i
  pub colours :
      (k : ℕ) → state.video (s.current_video + 2 * k + 1) ≡ s.video (s.current_video + 2 * k + 1)

at_cursor : (s : NaiveConsole) (i : ℕ) → i ≡ s.current_video → (nc_print_char s 32).video i ≡ 32
unfolding nc_print_char
at_cursor s i e = let here : (i == s.current_video) ≡ true = ground (arith, e) in rw here refl

off_cursor :
    (s : NaiveConsole) (i : ℕ) → i ≢ s.current_video → (nc_print_char s 32).video i ≡ s.video i
unfolding nc_print_char
off_cursor s i ne = elim (Bool-cases (i == s.current_video)) [
  | inl e ↦ absurd (ne (ground (arith, e)))
  | inr e ↦ rw e refl
]

byte_at : (v : ℕ → ℕ) (i k : ℕ) → i ≡ k → v i ≡ v k
byte_at v i k e = ap v e

-- A blank, and then those of the rest of the row.
longer :
    (s : NaiveConsole) (row : ℕ) {r : Option NaiveConsole}
    → s.current_video + 2 ≤ (row + 1) * row_size
    → NextRow (nc_print_char s 32) row r
    → NextRow s row r
unfolding nc_print_char
longer s row room t = record {
  state = t.state;
  ends = t.ends;
  at_start = t.at_start;
  same_buffer = t.same_buffer;
  blank = blanks;
  above = λ i lt. t.above i (omega (arith, lt)) ∙ off_cursor s i (λ x. omega (arith, x, lt));
  below = λ i le. t.below i le ∙ off_cursor s i (λ x. omega (arith, x, le, room));
  colours = kept;
}
  where
    blanks :
        (k : ℕ)
        → s.current_video + 2 * k < (row + 1) * row_size
        → t.state.video (s.current_video + 2 * k) ≡ 32
    blanks zero lt =
        t.above (s.current_video + 2 * 0) (omega arith)
        ∙ at_cursor s (s.current_video + 2 * 0) (omega arith)
    blanks (suc k) lt =
        byte_at t.state.video (s.current_video + 2 * suc k) (s.current_video + 2 + 2 * k)
          (omega arith)
        ∙ t.blank k (omega (arith, lt))

    kept :
        (k : ℕ)
        → t.state.video (s.current_video + 2 * k + 1) ≡ s.video (s.current_video + 2 * k + 1)
    kept zero =
        t.above (s.current_video + 2 * 0 + 1) (omega arith)
        ∙ off_cursor s (s.current_video + 2 * 0 + 1) (λ x. omega (arith, x))
    kept (suc k) =
        byte_at t.state.video (s.current_video + 2 * suc k + 1) (s.current_video + 2 + 2 * k + 1)
          (omega arith)
        ∙ (t.colours k
            ∙ (off_cursor s (s.current_video + 2 + 2 * k + 1) (λ x. omega (arith, x))
                ∙ byte_at s.video (s.current_video + 2 + 2 * k + 1)
                    (s.current_video + 2 * suc k + 1) (omega arith)))

nc_newline-NextRow_from :
    (f row column : ℕ) (s : NaiveConsole)
    → s.current_video ≡ row * row_size + 2 * column
    → column < 80
    → 80 ≤ column + f
    → NextRow s row (nc_newline f s)
unfolding nc_newline nc_print_char
nc_newline-NextRow_from zero row column s at h fuel = absurd (omega (arith, h, fuel))
nc_newline-NextRow_from (suc f) row column s at h fuel =
    elim (Bool-cases ((s.current_video + 2) % row_size == 0)) [
      | inl e ↦ rw e (record {
        state = nc_print_char s 32;
        ends = refl;
        at_start = ground (arith, at, h, e);
        same_buffer = refl;
        blank = λ k lt. at_cursor s (s.current_video + 2 * k) (ground (arith, at, h, e, lt));
        above = λ i lt. off_cursor s i (λ x. omega (arith, x, lt));
        below = λ i le. off_cursor s i (λ x. omega (arith, x, le, at, h));
        colours = λ k. off_cursor s (s.current_video + 2 * k + 1) (λ x. omega (arith, x));
      })
      | inr e ↦ rw e (
          longer s row (omega (arith, at, h)) (
            nc_newline-NextRow_from f row (column + 1) (nc_print_char s 32) (omega (arith, at))
              (ground (arith, at, h, e)) (omega (arith, fuel))))
    ]

-- From any column of a row on, the loop of `ncNewline` ends within 80 turns, at the start of the
-- next row: it has put a blank in each column up to there, and left the colours and the rest of the
-- memory as they were.
pub nc_newline-NextRow :
    (row column : ℕ) (s : NaiveConsole)
    → s.current_video ≡ row * row_size + 2 * column
    → column < 80
    → NextRow s row (nc_newline 80 s)
nc_newline-NextRow row column s at h = nc_newline-NextRow_from 80 row column s at h (omega arith)
