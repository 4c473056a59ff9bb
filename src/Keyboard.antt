-- ===== src/Keyboard.antt =====
-- Kernel/keyboard.c: the states of the modifier keys and what a key writes.
pub mod Letters
pub mod Acts
mod Tests
use peps_os.Common.{
  ℕ, ◌+◌, Bool, true, false, ◌&&◌, ◌||◌, not, Option, none, some, List, [], ◌∷◌, ◌==◌, ltb,
  if◌then◌else◌, get_or,
}
use peps_os.Clib.{KeyBuffer, add_to_buffer, key_pressed}

-- `kbArr[0]`; the entries behind those written are 0.
abbrev pub plain : List ℕ
plain =
    0 ∷ 27 ∷ 49 ∷ 50 ∷ 51 ∷ 52 ∷ 53 ∷ 54 ∷ 55 ∷ 56 ∷ 57 ∷ 48 ∷ 45 ∷ 61 ∷ 8 ∷ 9 ∷ 113 ∷ 119 ∷ 101
    ∷ 114 ∷ 116 ∷ 121 ∷ 117 ∷ 105 ∷ 111 ∷ 112 ∷ 91 ∷ 93 ∷ 10 ∷ 0 ∷ 97 ∷ 115 ∷ 100 ∷ 102 ∷ 103 ∷ 104
    ∷ 106 ∷ 107 ∷ 108 ∷ 59 ∷ 39 ∷ 96 ∷ 0 ∷ 92 ∷ 122 ∷ 120 ∷ 99 ∷ 118 ∷ 98 ∷ 110 ∷ 109 ∷ 44 ∷ 46 ∷ 47
    ∷ 0 ∷ 42 ∷ 0 ∷ 32 ∷ 0 ∷ 0 ∷ 0 ∷ 0 ∷ 0 ∷ 0 ∷ 0 ∷ 0 ∷ 0 ∷ 0 ∷ 0 ∷ 0 ∷ 0 ∷ 0 ∷ 17 ∷ 0 ∷ 0 ∷ 18 ∷ 0
    ∷ 19 ∷ 0 ∷ 0 ∷ 20 ∷ 0 ∷ 0 ∷ 0 ∷ 45 ∷ 0 ∷ 0 ∷ 43 ∷ []

-- `kbArr[1]`; the entries behind those written are 0.
abbrev pub shifted : List ℕ
shifted =
    0 ∷ 27 ∷ 33 ∷ 64 ∷ 35 ∷ 36 ∷ 37 ∷ 94 ∷ 38 ∷ 42 ∷ 40 ∷ 41 ∷ 95 ∷ 43 ∷ 8 ∷ 9 ∷ 81 ∷ 87 ∷ 69 ∷ 82
    ∷ 84 ∷ 89 ∷ 85 ∷ 73 ∷ 79 ∷ 80 ∷ 123 ∷ 125 ∷ 10 ∷ 0 ∷ 65 ∷ 83 ∷ 68 ∷ 70 ∷ 71 ∷ 72 ∷ 74 ∷ 75 ∷ 76
    ∷ 58 ∷ 34 ∷ 124 ∷ 0 ∷ 124 ∷ 90 ∷ 88 ∷ 67 ∷ 86 ∷ 66 ∷ 78 ∷ 77 ∷ 60 ∷ 62 ∷ 63 ∷ 0 ∷ 42 ∷ 0 ∷ 32
    ∷ 0 ∷ 0 ∷ 0 ∷ 0 ∷ 0 ∷ 0 ∷ 0 ∷ 0 ∷ 0 ∷ 0 ∷ 0 ∷ 0 ∷ 0 ∷ 0 ∷ 17 ∷ 0 ∷ 0 ∷ 18 ∷ 0 ∷ 19 ∷ 0 ∷ 0 ∷ 20
    ∷ 0 ∷ 0 ∷ 0 ∷ 45 ∷ 0 ∷ 0 ∷ 43 ∷ []

-- `kbArr[2]`; the entries behind those written are 0.
abbrev pub shifted_locked : List ℕ
shifted_locked =
    0 ∷ 27 ∷ 33 ∷ 64 ∷ 35 ∷ 36 ∷ 37 ∷ 94 ∷ 38 ∷ 42 ∷ 40 ∷ 41 ∷ 95 ∷ 43 ∷ 8 ∷ 9 ∷ 113 ∷ 119 ∷ 101
    ∷ 114 ∷ 116 ∷ 121 ∷ 117 ∷ 105 ∷ 111 ∷ 112 ∷ 123 ∷ 125 ∷ 10 ∷ 0 ∷ 97 ∷ 115 ∷ 100 ∷ 102 ∷ 103
    ∷ 104 ∷ 106 ∷ 107 ∷ 108 ∷ 58 ∷ 34 ∷ 124 ∷ 0 ∷ 124 ∷ 122 ∷ 120 ∷ 99 ∷ 118 ∷ 98 ∷ 110 ∷ 109 ∷ 60
    ∷ 62 ∷ 63 ∷ 0 ∷ 42 ∷ 0 ∷ 32 ∷ 0 ∷ 0 ∷ 0 ∷ 0 ∷ 0 ∷ 0 ∷ 0 ∷ 0 ∷ 0 ∷ 0 ∷ 0 ∷ 0 ∷ 0 ∷ 0 ∷ 17 ∷ 0 ∷ 0
    ∷ 18 ∷ 0 ∷ 19 ∷ 0 ∷ 0 ∷ 20 ∷ 0 ∷ 0 ∷ 0 ∷ 45 ∷ 0 ∷ 0 ∷ 43 ∷ []

-- `kbArr[3]`; the entries behind those written are 0.
abbrev pub locked : List ℕ
locked =
    0 ∷ 27 ∷ 49 ∷ 50 ∷ 51 ∷ 52 ∷ 53 ∷ 54 ∷ 55 ∷ 56 ∷ 57 ∷ 48 ∷ 45 ∷ 61 ∷ 8 ∷ 9 ∷ 81 ∷ 87 ∷ 69 ∷ 82
    ∷ 84 ∷ 89 ∷ 85 ∷ 73 ∷ 79 ∷ 80 ∷ 91 ∷ 93 ∷ 10 ∷ 0 ∷ 65 ∷ 83 ∷ 68 ∷ 70 ∷ 71 ∷ 72 ∷ 74 ∷ 75 ∷ 76
    ∷ 59 ∷ 39 ∷ 96 ∷ 0 ∷ 92 ∷ 90 ∷ 88 ∷ 67 ∷ 86 ∷ 66 ∷ 78 ∷ 77 ∷ 44 ∷ 46 ∷ 47 ∷ 0 ∷ 42 ∷ 0 ∷ 32 ∷ 0
    ∷ 0 ∷ 0 ∷ 0 ∷ 0 ∷ 0 ∷ 0 ∷ 0 ∷ 0 ∷ 0 ∷ 0 ∷ 0 ∷ 0 ∷ 0 ∷ 17 ∷ 0 ∷ 0 ∷ 18 ∷ 0 ∷ 19 ∷ 0 ∷ 0 ∷ 20 ∷ 0
    ∷ 0 ∷ 0 ∷ 45 ∷ 0 ∷ 0 ∷ 43 ∷ []

-- The variables of Kernel/keyboard.c, with those of Kernel/lib.c that it changes.
pub record Keyboard : Type 0 where
  pub shift : Bool
  pub block_mayus : Bool
  pub ctrl : Bool
  pub gameplay : Bool
  pub keys : KeyBuffer
  pub keys_pressed : ℕ

abbrev row_of : Bool → Bool → List ℕ
row_of true true = shifted_locked
row_of true false = shifted
row_of false true = locked
row_of false false = plain

-- `hexToChar`.
unfoldable pub hex_to_char : Keyboard → ℕ → ℕ
hex_to_char k hex = get_or (row_of k.shift k.block_mayus) hex 0

-- `gameplay_on`, `gameplay_off`.
unfoldable pub gameplay_on : Keyboard → Keyboard
gameplay_on k = record k { gameplay = true }

unfoldable pub gameplay_off : Keyboard → Keyboard
gameplay_off k = record k { gameplay = false }

abbrev pub kill_signal : ℕ
kill_signal = 3

abbrev pub eof : ℕ
eof = 4

-- The character under ctrl; for other keys the variable is not set, and has some value.
unfoldable pub ctrl_char : ℕ → ℕ → ℕ
ctrl_char unset hex = if hex == 0x2E then kill_signal else (if hex == 0x20 then eof else unset)

-- A key that stands for a character: the state, and what goes to the pipe `STDIN_PIPE`.
unfoldable pub type_char : Keyboard → ℕ → ℕ → Keyboard × Option ℕ
type_char k hex c =
    if ltb hex 0x53
    then (if k.gameplay
        then (record k { keys = add_to_buffer k.keys c }, none)
        else (k, if ltb c 21 && ltb 16 c then none else some c))
    else (k, none)

unfoldable pub press : Keyboard → ℕ → ℕ → Keyboard × Option ℕ
unfolding type_char ctrl_char hex_to_char
press k unset hex =
    if (hex == 0x2A) || (hex == 0x36)
    then (record k { shift = true }, none)
    else (if hex == 0x3A
        then (record k { block_mayus = not k.block_mayus }, none)
        else (if hex == 0x1D
            then (record k { ctrl = true }, none)
            else type_char k hex (if k.ctrl then ctrl_char unset hex else hex_to_char k hex)))

unfoldable pub release : Keyboard → ℕ → Keyboard
release k hex =
    if (hex == 0xAA) || (hex == 0xB6)
    then record k { shift = false }
    else (if hex == 0x9D then record k { ctrl = false } else k)

-- `keyAct` on the scan code that `getKey` reads; `unset` is what `keyChar` holds when it is not set.
unfoldable pub key_act : ℕ → Keyboard → ℕ → Keyboard × Option ℕ
unfolding press release
key_act unset k hex =
    if ltb hex 0x81
    then press (record k { keys_pressed = key_pressed true k.keys_pressed }) unset hex
    else (release (record k { keys_pressed = key_pressed false k.keys_pressed }) hex, none)
