-- ===== src/Keyboard/Letters.antt =====
-- The table `kbArr` of Kernel/keyboard.c.
use peps_os.Common.{
  ℕ, ◌-◌, ◌<◌, ◌≡◌, refl, Bool, true, false, ◌&&◌, not, ◌==◌, leb, if◌then◌else◌, get_or, ==_iff,
  all_below, all_below-true,
}
use peps_os.Keyboard.{Keyboard, plain, shifted, hex_to_char}

abbrev pub is_lower_case : ℕ → Bool
is_lower_case c = leb 97 c && leb c 122

-- What a key should write: the capital letter, for a letter, if just one of shift and caps lock is on;
-- else the sign of the plain or of the shifted keyboard.
abbrev pub expected : Bool → Bool → ℕ → ℕ
expected shift locked hex =
    let c = get_or plain hex 0 in
    let other = if shift then not locked else locked in
    if is_lower_case c
    then (if other then c - 32 else c)
    else (if shift then get_or shifted hex 0 else c)

abbrev agrees : Bool → Bool → Keyboard → ℕ → Bool
agrees shift locked k hex =
    hex_to_char (record k { shift = shift; block_mayus = locked }) hex == expected shift locked hex

table : (k : Keyboard) (shift locked : Bool) → all_below 128 (agrees shift locked k) ≡ true
unfolding all_below hex_to_char
table k true true = refl
table k true false = refl
table k false true = refl
table k false false = refl

-- For each scan code below 128, `hexToChar` gives the capital of a letter if just one of shift and
-- caps lock is on and else the small letter; for other signs it follows shift alone.
pub hex_to_char-expected :
    (k : Keyboard) (hex : ℕ) → hex < 128 → hex_to_char k hex ≡ expected k.shift k.block_mayus hex
hex_to_char-expected k hex h =
    (==_iff (hex_to_char k hex) (expected k.shift k.block_mayus hex)).0
      (all_below-true 128 (agrees k.shift k.block_mayus k) hex (table k k.shift k.block_mayus) h)
