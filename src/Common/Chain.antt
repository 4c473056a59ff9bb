-- ===== src/Common/Chain.antt =====
-- Singly linked lists with a tail pointer. A pointer to a node is the node's key, a number that is
-- its own; the nodes that are reached from the head are a list.
use peps_os.Common.Tests.{◌==◌, if◌then◌else◌}
use Prim.Native.Nat.{ℕ, ◌+◌, ◌≤◌}
use mathlib.Core.Path.{◌≡◌, refl}
use mathlib.Core.Logic.{◌≢◌}
use mathlib.Core.List.{List, [], ◌∷◌, ◌++◌}
use mathlib.Core.Option.{Option, none, some}
use native.Mathlib.Omega.{arith}

abbrev pub is_key : ℕ → ℕ → ℕ
is_key k j = if j == k then 1 else 0

pub is_key_self : (k : ℕ) → is_key k k ≡ 1
is_key_self k = ground arith

module _ {A : Type 0} (key : A → ℕ) where
  -- `p->next = x`, for the node `p` with the key `k`: what followed `p` is no longer reached.
  unfoldable pub link_after : ℕ → A → List A → List A
  link_after k x [] = []
  link_after k x (y ∷ ys) = if key y == k then y ∷ x ∷ [] else y ∷ link_after k x ys

  -- The sum of a weight over the keys: with `is_key k` it counts the nodes with the key `k`.
  abbrev pub weigh : (ℕ → ℕ) → List A → ℕ
  weigh w [] = 0
  weigh w (x ∷ xs) = w (key x) + weigh w xs

  -- The tail pointer: null at the empty list, and else the key of the last node and of no other.
  abbrev pub IsTail : Option ℕ → List A → Type 0
  IsTail none [] = Unit {0}
  IsTail (some k) [] = ⊥
  IsTail none (x ∷ xs) = ⊥
  IsTail (some k) (x ∷ []) = key x ≡ k
  IsTail (some k) (x ∷ y ∷ ys) = (key x ≢ k) × IsTail (some k) (y ∷ ys)

  pub weigh-append : (w : ℕ → ℕ) (xs ys : List A) → weigh w (xs ++ ys) ≡ weigh w xs + weigh w ys
  weigh-append w [] ys = omega arith
  weigh-append w (x ∷ xs) ys = omega (arith, weigh-append w xs ys)

  -- Linking behind the tail appends.
  pub link_after-IsTail :
      (k : ℕ) (x : A) (xs : List A) → IsTail (some k) xs → link_after k x xs ≡ xs ++ x ∷ []
  unfolding link_after
  link_after-IsTail k x [] t = absurd t
  link_after-IsTail k x (y ∷ []) t = ground arith
  link_after-IsTail k x (y ∷ z ∷ zs) t = ground (arith, link_after-IsTail k x (z ∷ zs) t.1)

  pub IsTail-append :
      (x : A) (xs : List A) → weigh (is_key (key x)) xs ≡ 0 → IsTail (some (key x)) (xs ++ x ∷ [])
  IsTail-append x [] h = refl
  IsTail-append x (y ∷ []) h = (ground arith, refl)
  IsTail-append x (y ∷ z ∷ zs) h = (ground arith, IsTail-append x (z ∷ zs) (ground arith))

  -- The tail pointer leads to a node of the list.
  pub IsTail-weigh : (k : ℕ) (xs : List A) → IsTail (some k) xs → 1 ≤ weigh (is_key k) xs
  IsTail-weigh k [] t = absurd t
  IsTail-weigh k (x ∷ []) t = ground arith
  IsTail-weigh k (x ∷ y ∷ ys) t = ground (arith, IsTail-weigh k (y ∷ ys) t.1)

  -- A node in front of a list, with a key of its own, leaves the tail pointer right.
  pub IsTail-cons :
      (o : Option ℕ) (x y : A) (ys : List A)
      → ((k : ℕ) → weigh (is_key k) (x ∷ y ∷ ys) ≤ 1)
      → IsTail o (y ∷ ys)
      → IsTail o (x ∷ y ∷ ys)
  IsTail-cons none x y ys d t = t
  IsTail-cons (some k) x y ys d t = (ground (arith, d k, IsTail-weigh k (y ∷ ys) t), t)
