-- ===== src/Console/Cursor.antt =====
-- The cursor of Kernel/video.c stays on the screen.
use peps_os.Common.{
  ℕ, ◌+◌, ◌*◌, ◌%◌, ◌<◌, ◌≤◌, arith, List, [], ◌∷◌, ◌==◌, ltb, leb, u32_mod, Bool-cases, inl, inr,
}
use peps_os.Console.{
  Video, Shape, clear, move_buffer, new_line, backtrack_buffer, delete_letter_buffered,
  draw_letter_from_char, draw_letters,
}

-- A screen of 16 bits in each direction, with letters that fit on it, and the cursor on it.
pub record IsOnScreen (v : Video) : Type 0 where
  pub some_size : 0 < v.size
  pub wide : v.size * 8 ≤ v.width
  pub high : v.size * 13 ≤ v.height
  pub rows : 10 < v.height
  pub width_16 : v.width < 65536
  pub height_16 : v.height < 65536
  pub column : v.x < v.width
  pub row : v.y < v.height

abbrev same_screen : Video → ℕ → ℕ → List Shape → Video
same_screen v x y shapes = record v { x = x; y = y; shapes = shapes }

placed :
    (v : Video) (x y : ℕ) (shapes : List Shape)
    → IsOnScreen v
    → x < v.width
    → y < v.height
    → IsOnScreen (same_screen v x y shapes)
placed v x y shapes h a b = record {
  some_size = h.some_size;
  wide = h.wide;
  high = h.high;
  rows = h.rows;
  width_16 = h.width_16;
  height_16 = h.height_16;
  column = a;
  row = b;
}

move_buffer-IsOnScreen : (v : Video) → IsOnScreen v → IsOnScreen (move_buffer v)
unfolding move_buffer clear
move_buffer-IsOnScreen v h =
    elim (Bool-cases (leb v.width ((v.x + (v.size * 8) % u32_mod) % u32_mod))) [
      | inl right ↦ elim (Bool-cases (leb v.height ((v.y + (v.size * 13) % u32_mod) % u32_mod))) [
        | inl bottom ↦ rw (right, bottom) (placed v 0 10 _ h (omega (arith, h.column)) h.rows)
        | inr above ↦
            rw (right, above) (placed v 0 _ v.shapes h (omega (arith, h.column)) (ground arith))
      ]
      | inr left ↦ rw left (placed v _ v.y v.shapes h (ground arith) h.row)
    ]

new_line-IsOnScreen : (v : Video) → IsOnScreen v → IsOnScreen (new_line v)
unfolding new_line
new_line-IsOnScreen v h =
    elim (Bool-cases (ltb ((v.y + (v.size * 13) % u32_mod) % u32_mod) v.height)) [
      | inl room ↦ rw room (placed v 0 _ v.shapes h (omega (arith, h.column)) (ground arith))
      | inr last ↦ rw last h
    ]

delete_letter_buffered-IsOnScreen :
    (v : Video) → IsOnScreen v → IsOnScreen (delete_letter_buffered v)
unfolding delete_letter_buffered backtrack_buffer
delete_letter_buffered-IsOnScreen v h = elim (Bool-cases (ltb v.x ((v.size * 8) % u32_mod))) [
  | inl left ↦ elim (Bool-cases (ltb v.y ((v.size * 13) % u32_mod))) [
    | inl top ↦ rw (left, top) (placed v v.x v.y _ h h.column h.row)
    | inr below ↦
        rw (left, below)
          (placed v _ _ _ h (omega (arith, h.wide, h.some_size, h.width_16)) (omega (arith, h.row)))
  ]
  | inr inside ↦ rw inside (placed v _ v.y _ h (omega (arith, h.column)) h.row)
]

draw_letter_from_char-IsOnScreen :
    (v : Video) (c : ℕ) → IsOnScreen v → IsOnScreen (draw_letter_from_char v c)
unfolding draw_letter_from_char
draw_letter_from_char-IsOnScreen v c h = elim (Bool-cases (c == 0)) [
  | inl e ↦ rw e h
  | inr e ↦ elim (Bool-cases (c == 10)) [
    | inl n ↦ rw (e, n) (new_line-IsOnScreen v h)
    | inr n ↦ elim (Bool-cases (c == 8)) [
      | inl b ↦ rw (e, n, b) (delete_letter_buffered-IsOnScreen v h)
      | inr b ↦ rw (e, n, b) (move_buffer-IsOnScreen _ (placed v v.x v.y _ h h.column h.row))
    ]
  ]
]

-- On a screen of 16 bits in each direction, more than 10 rows high, with room for letters of the
-- size in use, which is not 0, whatever string is drawn from a cursor on the screen, the cursor
-- stays on it.
pub draw_letters-IsOnScreen :
    (v : Video) (str : List ℕ) → IsOnScreen v → IsOnScreen (draw_letters v str)
unfolding draw_letters
draw_letters-IsOnScreen v [] h = h
draw_letters-IsOnScreen v (c ∷ cs) h = elim (Bool-cases (c == 0)) [
  | inl e ↦ rw e h
  | inr e ↦ rw e (
      draw_letters-IsOnScreen (draw_letter_from_char v c) cs
        (draw_letter_from_char-IsOnScreen v c h))
]
