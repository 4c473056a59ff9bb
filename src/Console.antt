-- ===== src/Console.antt =====
-- Kernel/video.c: the text cursor, letters, strings and numbers. What goes to the frame buffer is a log
-- of the shapes, newest first; the font's pixels are left out.
pub mod Cursor
pub mod Digits
pub mod Formats
pub mod Reports
pub mod Shapes
mod Tests
use peps_os.Common.{
  ℕ, zero, suc, ◌+◌, ◌-◌, ◌*◌, ◌/◌, ◌%◌, Bool, true, false, ◌||◌, List, [], ◌∷◌, ◌==◌, ltb, leb,
  if◌then◌else◌, u32_mod, is_negative,
}

pub data Shape : Type 0 where
  letter : (c x y fg bg size : ℕ) → Shape
  rectangle : (color x y width height : ℕ) → Shape
  whole_screen : (color : ℕ) → Shape
  circle : (color x y radius : ℕ) → Shape
  pixels : (color x y size : ℕ) → Shape

-- The global variables; `width` and `height` are 16 bits, the others 32.
pub record Video : Type 0 where
  pub fg : ℕ
  pub bg : ℕ
  pub size : ℕ
  pub x : ℕ
  pub y : ℕ
  pub width : ℕ
  pub height : ℕ
  pub shapes : List Shape

abbrev pub pepsi_blue : ℕ
pepsi_blue = 0x0000FF

abbrev pub black : ℕ
black = 0

-- `initialState`, with the size of the screen from the boot loader.
unfoldable pub initial_state : ℕ → ℕ → Video
initial_state width height = record {
  fg = pepsi_blue;
  bg = black;
  size = 2;
  x = 0;
  y = 0;
  width = width;
  height = height;
  shapes = [];
}

-- `colorReset` and `setColor`.
unfoldable pub color_reset : Video → Video
color_reset v = record v { fg = pepsi_blue; bg = black }

unfoldable pub set_color : Video → ℕ → ℕ → Video
set_color v fg bg = record v { fg = fg; bg = bg }

-- `setSize`, `setXBuffer`, `setYBuffer`.
unfoldable pub set_size : Video → ℕ → Video
set_size v size = record v { size = size }

unfoldable pub set_x_buffer : Video → ℕ → Video
set_x_buffer v x = record v { x = x % 65536 }

unfoldable pub set_y_buffer : Video → ℕ → Video
set_y_buffer v y = record v { y = y % 65536 }

-- `clear`.
unfoldable pub clear : Video → Video
clear v = record v { x = 0; y = 10; shapes = whole_screen v.bg ∷ v.shapes }

-- The width and height of a letter, on 32 bits.
abbrev pub letter_width : Video → ℕ
letter_width v = (v.size * 8) % u32_mod

abbrev pub letter_height : Video → ℕ
letter_height v = (v.size * 13) % u32_mod

-- `moveBuffer`.
unfoldable pub move_buffer : Video → Video
unfolding clear
move_buffer v =
    if leb v.width ((v.x + letter_width v) % u32_mod)
    then (if leb v.height ((v.y + letter_height v) % u32_mod)
        then clear v
        else record v { y = (v.y + letter_height v) % u32_mod; x = 0 })
    else record v { x = (v.x + letter_width v) % u32_mod }

-- `newLine`.
unfoldable pub new_line : Video → Video
new_line v =
    if ltb ((v.y + letter_height v) % u32_mod) v.height
    then record v { x = 0; y = (v.y + letter_height v) % u32_mod }
    else v

-- `backtrackBuffer`.
unfoldable pub backtrack_buffer : Video → Video
backtrack_buffer v =
    if ltb v.x (letter_width v)
    then (if ltb v.y (letter_height v) then v else record v {
      y = v.y - letter_height v;
      x = ((v.width * 8) / 8 + (u32_mod - letter_width v)) % u32_mod;
    })
    else record v { x = v.x - letter_width v }

-- `deleteLetterBuffered`.
unfoldable pub delete_letter_buffered : Video → Video
unfolding backtrack_buffer
delete_letter_buffered v =
    let b = backtrack_buffer v in
    record b { shapes = rectangle b.bg b.x b.y (letter_width b) (letter_height b) ∷ b.shapes }

-- `drawLetterFromChar`.
unfoldable pub draw_letter_from_char : Video → ℕ → Video
unfolding new_line delete_letter_buffered move_buffer
draw_letter_from_char v c =
    if c == 0
    then v
    else (if c == 10
        then new_line v
        else (if c == 8
            then delete_letter_buffered v
            else move_buffer (record v { shapes = letter c v.x v.y v.fg v.bg v.size ∷ v.shapes })))

-- The loop of `drawStringFormatted`.
unfoldable pub draw_letters : Video → List ℕ → Video
draw_letters v [] = v
draw_letters v (c ∷ cs) =
    let rest = draw_letters (draw_letter_from_char v c) cs in if c == 0 then v else rest

-- The body runs under the given colours and size, and the old ones come back.
abbrev pub formatted : Video → ℕ → ℕ → ℕ → (Video → Video) → Video
formatted v fg bg size body = record (body (record v { fg = fg; bg = bg; size = size })) {
  fg = v.fg;
  bg = v.bg;
  size = v.size;
}

-- `drawLetterFormatted`, `drawStringFormatted` and `drawStringDef`.
unfoldable pub draw_letter_formatted : Video → ℕ → ℕ → ℕ → ℕ → Video
draw_letter_formatted v c fg bg size = formatted v fg bg size (λ u. draw_letter_from_char u c)

unfoldable pub draw_string_formatted : Video → List ℕ → ℕ → ℕ → ℕ → Video
draw_string_formatted v str fg bg size = formatted v fg bg size (λ u. draw_letters u str)

unfoldable pub draw_string_def : Video → List ℕ → Video
unfolding draw_string_formatted
draw_string_def v str = draw_string_formatted v str v.fg v.bg v.size

-- `for (int i = index - 1; i >= 0; i--) drawLetterFromChar(buffer[i]);`.
unfoldable pub draw_backwards : List ℕ → Video → Video
draw_backwards [] v = v
draw_backwards (c ∷ cs) v = draw_letter_from_char (draw_backwards cs v) c

-- The five characters of `printInteger` for a number that is not negative, and for -n.
unfoldable pub integer_buffer : ℕ → ℕ → List ℕ
integer_buffer zero num = []
integer_buffer (suc n) num = (num % 10 + 48) ∷ integer_buffer n (num / 10)

unfoldable pub negative_buffer : ℕ → ℕ → List ℕ
negative_buffer zero num = []
negative_buffer (suc n) num = (48 - num % 10) ∷ negative_buffer n (num / 10)

-- `printInteger`.
unfoldable pub print_integer : Video → ℕ → Video
print_integer v num =
    if is_negative num
    then draw_backwards (negative_buffer 5 (u32_mod - num)) v
    else draw_backwards (integer_buffer 5 num) v

-- `while (num > 0 && index < 64)`: no digit for 0, which `print_long_long_int` draws without it.
unfoldable pub long_buffer : ℕ → ℕ → List ℕ
long_buffer zero num = []
long_buffer (suc n) num =
    let rest = long_buffer n (num / 10) in if num == 0 then [] else (num % 10 + 48) ∷ rest

-- `print_long_long_int`.
unfoldable pub print_long_long_int : Video → ℕ → Video
print_long_long_int v num =
    if num == 0 then draw_letter_from_char v 48 else draw_backwards (long_buffer 64 num) v

abbrev pub hex_digit : ℕ → ℕ
hex_digit d = if ltb d 10 then d + 48 else (d - 10) + 65

-- `while (index < 8)`.
unfoldable pub hex_buffer : ℕ → ℕ → List ℕ
hex_buffer zero num = []
hex_buffer (suc n) num = hex_digit (num % 16) ∷ hex_buffer n (num / 16)

-- `printHex`.
unfoldable pub print_hex : Video → ℕ → Video
print_hex v num = draw_backwards (hex_buffer 8 num) v

-- `printIntFormatted`.
unfoldable pub print_int_formatted : Video → ℕ → ℕ → ℕ → ℕ → Video
print_int_formatted v num fg bg size = formatted v fg bg size (λ u. print_integer u num)
