-- ===== src/Userland/Snake/Moves.antt =====
-- How the snake of Userland/SampleCodeModule/snake.c moves.
use peps_os.Common.{
  ℕ, zero, suc, ◌-◌, ◌≤◌, ◌<◌, ◌≡◌, refl, sym, ap, ◌∙◌, arith, List, [], ◌∷◌, ◌++◌, length, get_or,
  set, take, drop, length-set, append_assoc, append-nil,
}
use peps_os.Userland.Snake.{Point, origin, shift_from}

module _ {ℓ} {A : Type ℓ} where
  take-set : (i j : ℕ) (l : List A) (v : A) → i ≤ j → take i (set l j v) ≡ take i l
  take-set zero j l v h = refl
  take-set (suc i) j [] v h = refl
  take-set (suc i) zero (x ∷ l) v h = absurd (omega arith)
  take-set (suc i) (suc j) (x ∷ l) v h = ap (◌∷◌ x) (take-set i j l v (omega arith))

  drop-set : (i : ℕ) (l : List A) (v : A) → i < length l → drop i (set l i v) ≡ v ∷ drop (suc i) l
  drop-set i [] v h = absurd (omega arith)
  drop-set zero (x ∷ l) v h = refl
  drop-set (suc i) (x ∷ l) v h = drop-set i l v (omega arith)

  take-suc :
      (i : ℕ) (l : List A) (d : A) → i < length l → take (suc i) l ≡ take i l ++ get_or l i d ∷ []
  take-suc i [] d h = absurd (omega arith)
  take-suc zero (x ∷ l) d h = refl
  take-suc (suc i) (x ∷ l) d h = ap (◌∷◌ x) (take-suc i l d (omega arith))

shift_from-points :
    (i : ℕ) (q : Point) (b : List Point)
    → i ≤ length b
    → shift_from i (q ∷ b) ≡ q ∷ (take i (q ∷ b) ++ drop i b)
unfolding shift_from
shift_from-points zero q b h = refl
shift_from-points (suc i) q b h =
    let v = get_or (q ∷ b) i origin in
    shift_from-points i q (set b i v) (omega (arith, length-set b i v))
    ∙ rw (take-set i (suc i) (q ∷ b) v (omega arith), drop-set i b v (omega arith))
        (ap (◌∷◌ q) (
          sym (append_assoc (take i (q ∷ b)) (v ∷ []) (drop (suc i) b))
          ∙ ap (λ t. t ++ drop (suc i) b) (sym (take-suc i (q ∷ b) origin (omega arith)))))

drop_all : (n : ℕ) (l : List Point) → length l ≤ n → drop n l ≡ []
drop_all zero [] h = refl
drop_all zero (x ∷ l) h = absurd (omega arith)
drop_all (suc n) [] h = refl
drop_all (suc n) (x ∷ l) h = drop_all n l (omega arith)

-- The whole shift: the new head, and all points but the last.
pub advanced_points :
    (head q : Point) (b : List Point)
    → set (shift_from (length (q ∷ b) - 1) (q ∷ b)) 0 head ≡ head ∷ take (length b) (q ∷ b)
advanced_points head q b =
    ap (λ n. set (shift_from n (q ∷ b)) 0 head) {y = length b} (omega arith)
    ∙ ap (λ l. set l 0 head) (shift_from-points (length b) q b (omega arith))
    ∙ ap (◌∷◌ head) (
        ap (λ r. take (length b) (q ∷ b) ++ r) (drop_all (length b) b (omega arith))
        ∙ append-nil (take (length b) (q ∷ b)))
