-- ===== src/Keyboard/Acts.antt =====
-- `keyAct` of Kernel/keyboard.c over a sequence of scan codes.
use peps_os.Common.{
  ℕ, ◌≡◌, refl, arith, ap, ◌∙◌, Bool, true, false, ◌||◌, not, List, [], ◌∷◌, ◌==◌, if◌then◌else◌,
}
use peps_os.Keyboard.{Keyboard, key_act, press, release, type_char}

-- The state after the interrupts for some scan codes; what goes to the pipe is left out.
unfoldable pub run : ℕ → Keyboard → List ℕ → Keyboard
run unset k [] = k
run unset k (hex ∷ rest) = run unset (key_act unset k hex).0 rest

-- Whether a key is held after some scan codes, from those that press and those that release it.
abbrev pub held : (ℕ → Bool) → (ℕ → Bool) → Bool → List ℕ → Bool
held down up now [] = now
held down up now (hex ∷ rest) =
    held down up (if down hex then true else (if up hex then false else now)) rest

-- A lock that each press of its key turns over.
abbrev pub turned : ℕ → Bool → List ℕ → Bool
turned key now [] = now
turned key now (hex ∷ rest) = turned key (if hex == key then not now else now) rest

abbrev pub presses_shift : ℕ → Bool
presses_shift hex = (hex == 0x2A) || (hex == 0x36)

abbrev pub releases_shift : ℕ → Bool
releases_shift hex = (hex == 0xAA) || (hex == 0xB6)

abbrev pub presses_ctrl : ℕ → Bool
presses_ctrl hex = hex == 0x1D

abbrev pub releases_ctrl : ℕ → Bool
releases_ctrl hex = hex == 0x9D

step_shift :
    (unset : ℕ) (k : Keyboard) (hex : ℕ)
    → (key_act unset k hex).0.shift
      ≡ (if presses_shift hex then true else (if releases_shift hex then false else k.shift))
unfolding key_act press release type_char
step_shift unset k hex = ground arith

step_ctrl :
    (unset : ℕ) (k : Keyboard) (hex : ℕ)
    → (key_act unset k hex).0.ctrl
      ≡ (if presses_ctrl hex then true else (if releases_ctrl hex then false else k.ctrl))
unfolding key_act press release type_char
step_ctrl unset k hex = ground arith

step_lock :
    (unset : ℕ) (k : Keyboard) (hex : ℕ)
    → (key_act unset k hex).0.block_mayus
      ≡ (if hex == 0x3A then not k.block_mayus else k.block_mayus)
unfolding key_act press release type_char
step_lock unset k hex = ground arith

-- After any scan codes, shift is on exactly if the last code that presses or releases a shift key
-- was a press, or there was none and it was on before; ctrl likewise; and caps lock was turned over
-- by each press of its key.
pub run-modifiers :
    (unset : ℕ) (k : Keyboard) (codes : List ℕ)
    → ((run unset k codes).shift ≡ held presses_shift releases_shift k.shift codes)
      × ((run unset k codes).ctrl ≡ held presses_ctrl releases_ctrl k.ctrl codes)
      × ((run unset k codes).block_mayus ≡ turned 0x3A k.block_mayus codes)
unfolding run
run-modifiers unset k [] = (refl, refl, refl)
run-modifiers unset k (hex ∷ rest) =
    let r = run-modifiers unset (key_act unset k hex).0 rest in
    (
      r.0 ∙ ap (λ b. held presses_shift releases_shift b rest) (step_shift unset k hex),
      r.1 ∙ ap (λ b. held presses_ctrl releases_ctrl b rest) (step_ctrl unset k hex),
      r.2 ∙ ap (λ b. turned 0x3A b rest) (step_lock unset k hex),
    )
