-- ===== src/Console/Formats.antt =====
-- Colours and sizes around a string in Kernel/video.c.
use peps_os.Common.{ℕ, ◌≡◌, refl, sym, ap, ◌∙◌, arith, List, [], ◌∷◌, ◌==◌, Bool-cases, inl, inr}
use peps_os.Console.{
  Video, draw_letter_from_char, draw_letters, draw_string_def, draw_string_formatted, move_buffer,
  new_line, clear, backtrack_buffer, delete_letter_buffered,
}

-- The colours and the size are the same.
abbrev pub SameFormat : Video → Video → Type 0
SameFormat v u = (u.fg ≡ v.fg) × (u.bg ≡ v.bg) × (u.size ≡ v.size)

draw_letter_from_char-SameFormat : (v : Video) (c : ℕ) → SameFormat v (draw_letter_from_char v c)
unfolding draw_letter_from_char move_buffer new_line clear delete_letter_buffered backtrack_buffer
draw_letter_from_char-SameFormat v c = ground arith

draw_letters-SameFormat : (v : Video) (str : List ℕ) → SameFormat v (draw_letters v str)
unfolding draw_letters
draw_letters-SameFormat v [] = (refl, refl, refl)
draw_letters-SameFormat v (c ∷ cs) = elim (Bool-cases (c == 0)) [
  | inl e ↦ rw e (refl, refl, refl)
  | inr e ↦
      let first = draw_letter_from_char-SameFormat v c in
      let rest = draw_letters-SameFormat (draw_letter_from_char v c) cs in
      rw e (rest.0 ∙ first.0, rest.1 ∙ first.1, rest.2 ∙ first.2)
]

format_back : (v u : Video) → SameFormat v u → record u { fg = v.fg; bg = v.bg; size = v.size } ≡ u
format_back v u h =
    ap (λ x. record u { fg = x; bg = v.bg; size = v.size }) (sym h.0)
    ∙ ap (λ x. record u { bg = x; size = v.size }) (sym h.1)
    ∙ ap (λ x. record u { size = x }) (sym h.2)

-- `drawStringDef` draws the letters of the string one by one, as they would be drawn without setting
-- and restoring the colours and the size.
pub draw_string_def-draw_letters :
    (v : Video) (str : List ℕ) → draw_string_def v str ≡ draw_letters v str
unfolding draw_string_def draw_string_formatted
draw_string_def-draw_letters v str =
    format_back v (draw_letters v str) (draw_letters-SameFormat v str)
