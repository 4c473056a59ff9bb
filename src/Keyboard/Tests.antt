-- ===== src/Keyboard/Tests.antt =====
-- The theorems about Kernel/keyboard.c at a keyboard with caps lock on.
use peps_os.Common.{ℕ, ◌≡◌, true, false, List, [], ◌∷◌}
use peps_os.Keyboard.{Keyboard}
use peps_os.Keyboard.Acts.{
  run, held, turned, presses_shift, releases_shift, presses_ctrl, releases_ctrl, run-modifiers,
}

abbrev capitals : Keyboard
capitals = record {
  shift = false;
  block_mayus = true;
  ctrl = false;
  gameplay = false;
  keys = record { kb_buffer = []; buffer_indx = 0 };
  keys_pressed = 0;
}

abbrev typed : List ℕ
typed = 0x2A ∷ 0x10 ∷ 0x90 ∷ 0xAA ∷ 0x3A ∷ 0x1D ∷ []

run-modifiers_example :
    ((run 7 capitals typed).shift ≡ held presses_shift releases_shift false typed)
    × ((run 7 capitals typed).ctrl ≡ held presses_ctrl releases_ctrl false typed)
    × ((run 7 capitals typed).block_mayus ≡ turned 0x3A true typed)
run-modifiers_example = run-modifiers 7 capitals typed
