-- ===== src/Console/Shapes.antt =====
-- Kernel/video.c: the shapes that the system calls draw. `paintScreen`, `drawRectangle`, `drawCircle`
-- and `putpixelResizable` are entries of the log.
use peps_os.Common.{ℕ, zero, suc, ◌+◌, ◌*◌, ◌/◌, ◌%◌, ◌∷◌, u32_mod}
use peps_os.Console.{Video, rectangle, whole_screen, circle, pixels}

-- `paintScreen`.
unfoldable pub paint_screen : Video → ℕ → Video
paint_screen v color = record v { shapes = whole_screen color ∷ v.shapes }

-- `drawRectangle`.
unfoldable pub draw_rectangle : Video → ℕ → ℕ → ℕ → ℕ → ℕ → Video
draw_rectangle v color x y width height = record v {
  shapes = rectangle color x y width height ∷ v.shapes;
}

-- `drawCircle`.
unfoldable pub draw_circle : Video → ℕ → ℕ → ℕ → ℕ → Video
draw_circle v color x y radius = record v { shapes = circle color x y radius ∷ v.shapes }

-- `putpixelResizable`; `putpixel` is one of size 1.
unfoldable pub putpixel_resizable : Video → ℕ → ℕ → ℕ → ℕ → Video
putpixel_resizable v color x y size = record v { shapes = pixels color x y size ∷ v.shapes }

-- One column of the mouth, three pixels high.
unfoldable pub mouth_column : Video → ℕ → ℕ → Video
unfolding putpixel_resizable
mouth_column v x y =
    putpixel_resizable (putpixel_resizable (putpixel_resizable v 0 x y 1) 0 x ((y + 1) % u32_mod) 1)
      0 x ((y + 2) % u32_mod) 1

-- The loop over the columns of the mouth, with `n` to go.
unfoldable pub mouth_from : ℕ → Video → ℕ → ℕ → Video
unfolding mouth_column
mouth_from zero v x y = v
mouth_from (suc n) v x y = mouth_from n (mouth_column v x y) ((x + 1) % u32_mod) y

-- `drawFace`: a square, two eyes and a mouth as wide as the eyes are apart.
unfoldable pub draw_face : Video → ℕ → ℕ → ℕ → Video
unfolding draw_rectangle draw_circle mouth_from
draw_face v x y size =
    let face = draw_rectangle v 0xFFFF00 x y size size in
    let eye = size / 3 in
    let one_eye = draw_circle face 0 ((x + eye) % u32_mod) ((y + eye) % u32_mod) (size / 15) in
    let eyes = draw_circle one_eye 0 ((x + 2 * eye) % u32_mod) ((y + eye) % u32_mod) (size / 15) in
    mouth_from (suc eye) eyes ((x + eye) % u32_mod) ((y + 2 * eye) % u32_mod)
