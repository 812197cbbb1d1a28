-- ===== src/Prelude/Parts.antt =====
-- Parts of a list: its first elements, its last ones, and what a sort leaves.
use Prim.Native.Nat.{ℕ, zero, suc, ◌-◌, ◌≤◌, ◌<◌}
use mathlib.Core.Path.{◌≡◌, refl}
use mathlib.Core.Logic.{inl, inr}
use mathlib.Core.Bool.{Bool}
use mathlib.Core.List.{List, [], ◌∷◌, map}
use native.Mathlib.Omega.{arith}
use interviewer.Prelude.Tests.{Bool-cases}
use interviewer.Prelude.Lists.{length, take, drop, last_n, length-drop, In, here, there, In-cons}
use interviewer.Prelude.Sort.{insert_sorted, sorted}

pub length-map {ℓ κ} :
    {A : Type ℓ} {B : Type κ} (f : A → B) (xs : List A) → length (map f xs) ≡ length xs
length-map f [] = refl
length-map f (x ∷ xs) = omega (arith, length-map f xs)

module _ {ℓ} {A : Type ℓ} where
  pub length-take : (n : ℕ) (xs : List A) → length (take n xs) ≤ n
  length-take zero xs = omega arith
  length-take (suc n) [] = omega arith
  length-take (suc n) (x ∷ xs) = omega (arith, length-take n xs)

  pub length-last_n : (n : ℕ) (xs : List A) → 0 < n → length (last_n n xs) ≤ n
  length-last_n zero xs h = omega arith
  length-last_n (suc n) xs h = omega (arith, length-drop (length xs - suc n) xs)

  pub In-take : (n : ℕ) (xs : List A) (a : A) → In a (take n xs) → In a xs
  In-take zero xs a m = elim m [ ]
  In-take (suc n) [] a m = elim m [ ]
  In-take (suc n) (x ∷ xs) a m = elim (In-cons m) [
    | inl e ↦ rw e here
    | inr rest ↦ there (In-take n xs a rest)
  ]

  In-drop : (n : ℕ) (xs : List A) (a : A) → In a (drop n xs) → In a xs
  In-drop zero xs a m = m
  In-drop (suc n) [] a m = elim m [ ]
  In-drop (suc n) (x ∷ xs) a m = there (In-drop n xs a m)

  pub In-last_n : (n : ℕ) (xs : List A) (a : A) → In a (last_n n xs) → In a xs
  In-last_n zero xs a m = m
  In-last_n (suc n) xs a m = In-drop (length xs - suc n) xs a m

  In-insert_sorted :
      (lt : A → A → Bool) (x : A) (ys : List A) (a : A)
      → In a (insert_sorted lt x ys)
      → In a (x ∷ ys)
  unfolding insert_sorted
  In-insert_sorted lt x [] a m = m
  In-insert_sorted lt x (y ∷ ys) a m = elim (Bool-cases (lt y x)) [
    | inr stays ↦ rw stays at m
    | inl later ↦ elim (In-cons (rw later at m)) [
      | inl e ↦ there (rw e here)
      | inr rest ↦ elim (In-cons (In-insert_sorted lt x ys a rest)) [
        | inl e ↦ rw e here
        | inr old ↦ there (there old)
      ]
    ]
  ]

  -- What is sorted was there before.
  pub In-sorted : (lt : A → A → Bool) (xs : List A) (a : A) → In a (sorted lt xs) → In a xs
  unfolding sorted
  In-sorted lt [] a m = elim m [ ]
  In-sorted lt (x ∷ xs) a m = elim (In-cons (In-insert_sorted lt x (sorted lt xs) a m)) [
    | inl e ↦ rw e here
    | inr old ↦ there (In-sorted lt xs a old)
  ]
