-- ===== src/Common/Swaps.antt =====
-- Reversal in place: two indices that move towards each other, and swap what they stand at.
use Prim.Native.Nat.{ℕ, zero, suc, ◌+◌, ◌-◌, ◌≤◌, ◌<◌}
use mathlib.Core.Path.{◌≡◌, refl, sym, ap, ◌∙◌}
use mathlib.Core.Logic.{◌⊎◌, inl, inr, ◌≢◌}
use mathlib.Core.Bool.{true, false}
use mathlib.Core.List.{List}
use native.Mathlib.Omega.{arith}
use peps_os.Common.Tests.{ltb, leb, ◌==◌, if◌then◌else◌, Bool-cases}
use peps_os.Common.Lists.{length, get_or, set, length-set, get_or-set_self, get_or-set_ne}

-- `while (i < j) { swap l[i], l[j]; i++; j--; }`, with fuel.
unfoldable pub swap_ends : ℕ → ℕ → ℕ → List ℕ → List ℕ
swap_ends zero i j l = l
swap_ends (suc f) i j l =
    let rest = swap_ends f (i + 1) (j - 1) (set (set l i (get_or l j 0)) j (get_or l i 0)) in
    if ltb i j then rest else l

pub same_or_not : (i k : ℕ) → (i ≡ k) ⊎ (i ≢ k)
same_or_not i k = elim (Bool-cases (i == k)) [
  | inl e ↦ inl (ground (arith, e))
  | inr e ↦ inr (λ h. absurd (ground (arith, e, h)))
]

not_same : (i k : ℕ) → i ≢ k → (k == i) ≡ false
not_same i k ne = elim (Bool-cases (k == i)) [ inl e ↦ absurd (ne (ground (arith, e))) | inr e ↦ e ]

swapped : List ℕ → ℕ → ℕ → List ℕ
swapped l i j = set (set l i (get_or l j 0)) j (get_or l i 0)

length-swapped : (l : List ℕ) (i j : ℕ) → length (swapped l i j) ≡ length l
unfolding swapped
length-swapped l i j = length-set _ j _ ∙ length-set l i _

swapped_at :
    (l : List ℕ) (i j k : ℕ)
    → i < j
    → j < length l
    → get_or (swapped l i j) k 0
      ≡ (if k == i then get_or l j 0 else (if k == j then get_or l i 0 else get_or l k 0))
unfolding swapped
swapped_at l i j k lt h = elim (same_or_not j k) [
  | inl same ↦
      get_or_self_at l i j k same (omega (arith, h, length-set l i (get_or l j 0)))
      ∙ (let other : (k == i) ≡ false = ground (arith, same, lt) in
          let here : (k == j) ≡ true = ground (arith, same) in rw (other, here) refl)
  | inr ne ↦
      get_or-set_ne (set l i (get_or l j 0)) j k (get_or l i 0) 0 ne ∙ (elim (same_or_not i k) [
        | inl same ↦
            let here : (k == i) ≡ true = ground (arith, same) in
            rw here (
              ap (λ n. get_or (set l i (get_or l j 0)) n 0) (sym same)
              ∙ get_or-set_self l i (get_or l j 0) 0 (omega (arith, lt, h)))
        | inr ne' ↦
            let other : (k == i) ≡ false = not_same i k ne' in
            let other' : (k == j) ≡ false = not_same j k ne in
            rw (other, other') (get_or-set_ne l i k (get_or l j 0) 0 ne')
      ])
]
  where
    get_or_self_at :
        (l : List ℕ) (i j k : ℕ)
        → j ≡ k
        → j < length (set l i (get_or l j 0))
        → get_or (set (set l i (get_or l j 0)) j (get_or l i 0)) k 0 ≡ get_or l i 0
    get_or_self_at l i j k same h =
        ap (λ n. get_or (set (set l i (get_or l j 0)) j (get_or l i 0)) n 0) (sym same)
        ∙ get_or-set_self (set l i (get_or l j 0)) j (get_or l i 0) 0 h

-- The place that the element at `k` comes from, when the places from `i` to `j` are reversed.
abbrev pub mirrored : ℕ → ℕ → ℕ → ℕ
mirrored i j k = if leb i k then (if leb k j then (i + j) - k else k) else k

pub mirrored_in : (i j k : ℕ) → i ≤ k → k ≤ j → mirrored i j k ≡ (i + j) - k
mirrored_in i j k h h' =
    let low : leb i k ≡ true = ground (arith, h) in
    let high : leb k j ≡ true = ground (arith, h') in rw (low, high) refl

pub mirrored_out : (i j k : ℕ) → ((k < i) ⊎ (j < k)) → mirrored i j k ≡ k
mirrored_out i j k (inl h) = let low : leb i k ≡ false = ground (arith, h) in rw low refl
mirrored_out i j k (inr h) =
    let high : leb k j ≡ false = ground (arith, h) in
    elim (Bool-cases (leb i k)) [ inl e ↦ rw (e, high) refl | inr e ↦ rw e refl ]

swapped_left :
    (l : List ℕ) (i j k : ℕ)
    → i < j
    → j < length l
    → k ≡ i
    → get_or (swapped l i j) k 0 ≡ get_or l j 0
swapped_left l i j k lt h e =
    let here : (k == i) ≡ true = ground (arith, e) in swapped_at l i j k lt h ∙ rw here refl

swapped_right :
    (l : List ℕ) (i j k : ℕ)
    → i < j
    → j < length l
    → k ≡ j
    → get_or (swapped l i j) k 0 ≡ get_or l i 0
swapped_right l i j k lt h e =
    let other : (k == i) ≡ false = ground (arith, e, lt) in
    let here : (k == j) ≡ true = ground (arith, e) in
    swapped_at l i j k lt h ∙ rw (other, here) refl

swapped_else :
    (l : List ℕ) (i j k : ℕ)
    → i < j
    → j < length l
    → k ≢ i
    → k ≢ j
    → get_or (swapped l i j) k 0 ≡ get_or l k 0
swapped_else l i j k lt h ne ne' =
    let other : (k == i) ≡ false = not_same i k (λ e. ne (sym e)) in
    let other' : (k == j) ≡ false = not_same j k (λ e. ne' (sym e)) in
    swapped_at l i j k lt h ∙ rw (other, other') refl

at_place : (l : List ℕ) (a b : ℕ) → a ≡ b → get_or l a 0 ≡ get_or l b 0
at_place l a b e = ap (λ n. get_or l n 0) e

mirrored_step :
    (l : List ℕ) (i j k : ℕ)
    → i < j
    → j < length l
    → get_or (swapped l i j) (mirrored (i + 1) (j - 1) k) 0 ≡ get_or l (mirrored i j k) 0
mirrored_step l i j k lt h = elim (Bool-cases (ltb k i)) [
  | inl low ↦
      let out : mirrored (i + 1) (j - 1) k ≡ k =
        mirrored_out (i + 1) (j - 1) k (inl (ground (arith, low))) in
      swapped_else l i j (mirrored (i + 1) (j - 1) k) lt h (λ e. ground (arith, out, e, low))
        (λ e. ground (arith, out, e, low, lt))
      ∙ at_place l (mirrored (i + 1) (j - 1) k) (mirrored i j k)
          (out ∙ sym (mirrored_out i j k (inl (ground (arith, low)))))
  | inr low ↦ elim (Bool-cases (ltb j k)) [
    | inl high ↦
        let out : mirrored (i + 1) (j - 1) k ≡ k =
          mirrored_out (i + 1) (j - 1) k (inr (ground (arith, high))) in
        swapped_else l i j (mirrored (i + 1) (j - 1) k) lt h (λ e. ground (arith, out, e, high, lt))
          (λ e. ground (arith, out, e, high))
        ∙ at_place l (mirrored (i + 1) (j - 1) k) (mirrored i j k)
            (out ∙ sym (mirrored_out i j k (inr (ground (arith, high)))))
    | inr high ↦ within l i j k lt h (ground (arith, low)) (ground (arith, high))
  ]
]
  where
    strictly :
        (l : List ℕ) (i j k : ℕ)
        → i < j
        → j < length l
        → i < k
        → k < j
        → get_or (swapped l i j) (mirrored (i + 1) (j - 1) k) 0 ≡ get_or l (mirrored i j k) 0
    strictly l i j k lt h low high =
        let inner : mirrored (i + 1) (j - 1) k ≡ ((i + 1) + (j - 1)) - k =
          mirrored_in (i + 1) (j - 1) k (omega (arith, low)) (omega (arith, high)) in
        let outer : mirrored i j k ≡ (i + j) - k =
          mirrored_in i j k (omega (arith, low)) (omega (arith, high)) in
        swapped_else l i j (mirrored (i + 1) (j - 1) k) lt h
          (λ e. omega (arith, inner, e, low, high, lt))
          (λ e. omega (arith, inner, e, low, high, lt))
        ∙ at_place l (mirrored (i + 1) (j - 1) k) (mirrored i j k) (omega (arith, inner, outer, lt))

    within :
        (l : List ℕ) (i j k : ℕ)
        → i < j
        → j < length l
        → i ≤ k
        → k ≤ j
        → get_or (swapped l i j) (mirrored (i + 1) (j - 1) k) 0 ≡ get_or l (mirrored i j k) 0
    within l i j k lt h low high =
        let outer : mirrored i j k ≡ (i + j) - k = mirrored_in i j k low high in
        elim (Bool-cases (k == i)) [
          | inl e ↦
              let out : mirrored (i + 1) (j - 1) k ≡ k =
                mirrored_out (i + 1) (j - 1) k (inl (ground (arith, e))) in
              swapped_left l i j (mirrored (i + 1) (j - 1) k) lt h (out ∙ ground (arith, e))
              ∙ at_place l j (mirrored i j k) (ground (arith, outer, e))
          | inr e ↦ elim (Bool-cases (k == j)) [
            | inl e' ↦
                let out : mirrored (i + 1) (j - 1) k ≡ k =
                  mirrored_out (i + 1) (j - 1) k (inr (ground (arith, e', lt))) in
                swapped_right l i j (mirrored (i + 1) (j - 1) k) lt h (out ∙ ground (arith, e'))
                ∙ at_place l i (mirrored i j k) (ground (arith, outer, e'))
            | inr e' ↦ strictly l i j k lt h (ground (arith, e, low)) (ground (arith, e', high))
          ]
        ]

mirrored_done :
    (l : List ℕ) (i j k : ℕ) → j ≤ i → i ≤ j + 1 → get_or l k 0 ≡ get_or l (mirrored i j k) 0
mirrored_done l i j k h h' = elim (Bool-cases (leb i k)) [
  | inr low ↦ rw low refl
  | inl low ↦ elim (Bool-cases (leb k j)) [
    | inr high ↦ rw (low, high) refl
    | inl high ↦ rw (low, high) (at_place l k ((i + j) - k) (ground (arith, low, high, h, h')))
  ]
]

-- The swap loop reverses the places from `i` to `j`, given a turn for each of them.
pub swap_ends-mirrored :
    (f i j : ℕ) (l : List ℕ) (k : ℕ)
    → j ≤ i + f
    → j < length l
    → i ≤ j + 1
    → get_or (swap_ends f i j l) k 0 ≡ get_or l (mirrored i j k) 0
unfolding swap_ends swapped
swap_ends-mirrored zero i j l k fuel h le = mirrored_done l i j k (omega (arith, fuel)) le
swap_ends-mirrored (suc f) i j l k fuel h le = elim (Bool-cases (ltb i j)) [
  | inl e ↦ rw e (
      swap_ends-mirrored f (i + 1) (j - 1) (swapped l i j) k (ground (arith, e, fuel))
        (ground (arith, e, h, length-swapped l i j)) (ground (arith, e))
      ∙ mirrored_step l i j k (ground (arith, e)) h)
  | inr e ↦ rw e (mirrored_done l i j k (ground (arith, e)) le)
]
