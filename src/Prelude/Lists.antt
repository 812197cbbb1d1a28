-- ===== src/Prelude/Lists.antt =====
-- Lists measured and indexed by native numbers, under the library's names.
use Prim.Native.Nat.{ℕ, zero, suc, ◌+◌, ◌-◌}
use mathlib.Core.Path.{◌≡◌, refl}
use mathlib.Core.Logic.{◌⊎◌, inl, inr}
use mathlib.Core.Bool.{Bool, true, false, ◌||◌}
use mathlib.Core.List.{List, [], ◌∷◌, ◌++◌}
use mathlib.Core.Option.{Option, none, some}
use native.Mathlib.Omega.{arith}
use interviewer.Prelude.Tests.{if◌then◌else◌, Bool-cases}

module _ {ℓ} {A : Type ℓ} where
  abbrev pub length : List A → ℕ
  length [] = 0
  length (x ∷ xs) = suc (length xs)

  abbrev pub drop : ℕ → List A → List A
  drop zero xs = xs
  drop (suc n) [] = []
  drop (suc n) (x ∷ xs) = drop n xs

  abbrev pub take : ℕ → List A → List A
  take zero xs = []
  take (suc n) [] = []
  take (suc n) (x ∷ xs) = x ∷ take n xs

  -- A comprehension's `if` clause.
  abbrev pub keep : (A → Bool) → List A → List A
  keep p [] = []
  keep p (x ∷ xs) = let rest = keep p xs in if p x then x ∷ rest else rest

  abbrev pub any : (A → Bool) → List A → Bool
  any p [] = false
  any p (x ∷ xs) = p x || any p xs

  -- Every element has the property.
  abbrev pub All {κ} : (A → Type κ) → List A → Type κ
  All P [] = Unit
  All P (x ∷ xs) = P x × All P xs

  -- Membership that can be matched.
  pub data In (a : A) : List A → Type ℓ where
    here : {xs : List A} → In a (a ∷ xs)
    there : {x : A} {xs : List A} → In a xs → In a (x ∷ xs)

module _ {ℓ} {A : Type ℓ} where
  -- `xs[-n:]` for n > 0, and the whole list for n = 0.
  abbrev pub last_n : ℕ → List A → List A
  last_n zero xs = xs
  last_n (suc n) xs = drop (length xs - suc n) xs

  abbrev pub head? : List A → Option A
  head? [] = none
  head? (x ∷ xs) = some x

  abbrev pub last? : List A → Option A
  last? [] = none
  last? (x ∷ []) = some x
  last? (x ∷ y ∷ xs) = last? (y ∷ xs)

  pub length-append : (xs ys : List A) → length (xs ++ ys) ≡ length xs + length ys
  length-append [] ys = omega arith
  length-append (x ∷ xs) ys = omega (arith, length-append xs ys)

  pub length-drop : (n : ℕ) (xs : List A) → length (drop n xs) ≡ length xs - n
  length-drop zero xs = omega arith
  length-drop (suc n) [] = omega arith
  length-drop (suc n) (x ∷ xs) = omega (arith, length-drop n xs)

  pub All-In {κ} : (P : A → Type κ) (xs : List A) {a : A} → In a xs → All P xs → P a
  All-In P [] m h = elim m [ ]
  All-In P (x ∷ xs) here h = h.0
  All-In P (x ∷ xs) (there m) h = All-In P xs m h.1

  pub In→All {κ} : (P : A → Type κ) (xs : List A) → ((a : A) → In a xs → P a) → All P xs
  In→All P [] h = tt
  In→All P (x ∷ xs) h = (h x here, In→All P xs (λ a m. h a (there m)))

  pub In-cons : {a x : A} {xs : List A} → In a (x ∷ xs) → (a ≡ x) ⊎ In a xs
  In-cons here = inl refl
  In-cons (there m) = inr m

  pub In-keep : (p : A → Bool) (xs : List A) (a : A) → In a (keep p xs) → In a xs × (p a ≡ true)
  In-keep p [] a m = elim m [ ]
  In-keep p (x ∷ xs) a m = elim (Bool-cases (p x)) [
    | inl holds ↦ elim (In-cons (rw holds at m)) [
      | inl e ↦ (rw e here, rw e holds)
      | inr rest ↦ let (old, kept) = In-keep p xs a rest in (there old, kept)
    ]
    | inr fails ↦ let (old, kept) = In-keep p xs a (rw fails at m) in (there old, kept)
  ]

  -- A kept list is empty only if no element passes.
  pub keep-eq-nil : (p : A → Bool) (xs : List A) → keep p xs ≡ [] → All (λ x. p x ≡ false) xs
  keep-eq-nil p [] h = tt
  keep-eq-nil p (x ∷ xs) h = elim (Bool-cases (p x)) [
    | inl holds ↦ cc (rw holds at h)
    | inr fails ↦ (fails, keep-eq-nil p xs (rw fails at h))
  ]

  pub keep-In : (p : A → Bool) (xs : List A) (a : A) → In a xs → p a ≡ true → In a (keep p xs)
  keep-In p [] a m h = elim m [ ]
  keep-In p (x ∷ xs) a m h = elim (Bool-cases (p x)) [
    | inl holds ↦
        rw holds (elim (In-cons m) [ inl e ↦ rw e here | inr rest ↦ there (keep-In p xs a rest h) ])
    | inr fails ↦ rw fails (elim (In-cons m) [ inl e ↦ cc | inr rest ↦ keep-In p xs a rest h ])
  ]

  pub keep-nil : (p : A → Bool) (xs : List A) → All (λ x. p x ≡ false) xs → keep p xs ≡ []
  keep-nil p [] h = refl
  keep-nil p (x ∷ xs) h = rw h.0 (keep-nil p xs h.1)
