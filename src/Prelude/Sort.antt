-- ===== src/Prelude/Sort.antt =====
-- `sorted(items, key=…)`: the stable sort, by an order given as a test.
use mathlib.Core.Path.{◌≡◌, refl}
use mathlib.Core.Bool.{Bool, true, false}
use mathlib.Core.List.{List, [], ◌∷◌}
use interviewer.Prelude.Tests.{if◌then◌else◌}
use mathlib.Core.Logic.{inl, inr}
use mathlib.Core.Option.{some}
use native.Mathlib.Omega.{arith}
use interviewer.Prelude.Tests.{Bool-cases}
use interviewer.Prelude.Lists.{All, In, here, there, head?}

module _ {ℓ} {A : Type ℓ} (lt : A → A → Bool) where
  -- Before the first element that is not below `x`; so equals keep their order.
  unfoldable pub insert_sorted : A → List A → List A
  insert_sorted x [] = x ∷ []
  insert_sorted x (y ∷ ys) = if lt y x then y ∷ insert_sorted x ys else x ∷ y ∷ ys

  unfoldable pub sorted : List A → List A
  sorted [] = []
  sorted (x ∷ xs) = insert_sorted x (sorted xs)

-- What makes a test a strict weak order.
pub record IsOrder {ℓ} {A : Type ℓ} (lt : A → A → Bool) : Type ℓ where
  pub asym : (a b : A) → lt a b ≡ true → lt b a ≡ false
  pub negative_trans : (a b c : A) → lt a b ≡ false → lt b c ≡ false → lt a c ≡ false

-- `y` stands in the list, and nothing in the list is below it.
abbrev pub IsLeast {ℓ} : {A : Type ℓ} → (A → A → Bool) → A → List A → Type ℓ
IsLeast lt y xs = In y xs × All (λ x. lt x y ≡ false) xs

module _ {ℓ} {A : Type ℓ} (lt : A → A → Bool) where
  -- The element that the stable sort puts first.
  unfoldable pub least : A → List A → A
  least x [] = x
  least x (y ∷ ys) = let m = least y ys in if lt m x then m else x

  head?-insert_sorted :
      (x y : A) (ys : List A)
      → head? ys ≡ some y
      → head? (insert_sorted lt x ys) ≡ some (if lt y x then y else x)
  unfolding insert_sorted
  head?-insert_sorted x y [] h = cc
  head?-insert_sorted x y (z ∷ zs) h = ground arith

  pub head?-sorted : (x : A) (xs : List A) → head? (sorted lt (x ∷ xs)) ≡ some (least x xs)
  unfolding sorted least insert_sorted
  head?-sorted x [] = refl
  head?-sorted x (y ∷ ys) =
      head?-insert_sorted x (least y ys) (sorted lt (y ∷ ys)) (head?-sorted y ys)

  In-if : (x m : A) (xs : List A) (b : Bool) → In m xs → In (if b then m else x) (x ∷ xs)
  In-if x m xs true found = there found
  In-if x m xs false found = here

  pub In-least : (x : A) (xs : List A) → In (least x xs) (x ∷ xs)
  unfolding least
  In-least x [] = here
  In-least x (y ∷ ys) = In-if x (least y ys) (y ∷ ys) _ (In-least y ys)

  module _ (o : IsOrder lt) where
    irrefl : (a : A) → lt a a ≡ false
    irrefl a = elim (Bool-cases (lt a a)) [ inl h ↦ o.asym a a h | inr h ↦ h ]

    above-All :
        (x y : A) (xs : List A)
        → lt y x ≡ false
        → All (λ z. lt z y ≡ false) xs
        → All (λ z. lt z x ≡ false) xs
    above-All x y [] h a = tt
    above-All x y (z ∷ zs) h a = (o.negative_trans z y x a.0 h, above-All x y zs h a.1)

    -- One more element in front.
    IsLeast-cons :
        (x m : A) (xs : List A) (b : Bool)
        → lt m x ≡ b
        → IsLeast lt m xs
        → IsLeast lt (if b then m else x) (x ∷ xs)
    IsLeast-cons x m xs true h (found, low) = (there found, (o.asym m x h, low))
    IsLeast-cons x m xs false h (found, low) = (here, (irrefl x, above-All x m xs h low))

    pub least-IsLeast : (x : A) (xs : List A) → IsLeast lt (least x xs) (x ∷ xs)
    unfolding least
    least-IsLeast x [] = (here, (irrefl x, tt))
    least-IsLeast x (y ∷ ys) = IsLeast-cons x (least y ys) (y ∷ ys) _ refl (least-IsLeast y ys)
