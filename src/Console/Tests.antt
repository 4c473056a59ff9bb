-- ===== src/Console/Tests.antt =====
-- The theorems about Kernel/video.c on a screen of 800 by 600.
use peps_os.Common.{ℕ, arith, List, [], ◌∷◌}
use peps_os.Console.{Video, draw_letters}
use peps_os.Console.Cursor.{IsOnScreen, draw_letters-IsOnScreen}

abbrev screen : Video
screen = record {
  fg = 255;
  bg = 0;
  size = 2;
  x = 790;
  y = 10;
  width = 800;
  height = 600;
  shapes = [];
}

screen-IsOnScreen : IsOnScreen screen
screen-IsOnScreen = record {
  some_size = omega arith;
  wide = omega arith;
  high = omega arith;
  rows = omega arith;
  width_16 = omega arith;
  height_16 = omega arith;
  column = omega arith;
  row = omega arith;
}

abbrev greeting : List ℕ
greeting = 72 ∷ 105 ∷ 10 ∷ 8 ∷ 33 ∷ 0 ∷ []

draw_letters-IsOnScreen_example : IsOnScreen (draw_letters screen greeting)
draw_letters-IsOnScreen_example = draw_letters-IsOnScreen screen greeting screen-IsOnScreen
