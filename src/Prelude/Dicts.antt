-- ===== src/Prelude/Dicts.antt =====
-- Python's `dict` with text keys, in the order of insertion: a write to a key that is there
-- keeps its place.
use Prim.Native.String.{String}
use mathlib.Core.Path.{◌≡◌, refl}
use mathlib.Core.Option.{Option, none, some}
use mathlib.Core.Bool.{Bool, true, false, ◌||◌}
use mathlib.Core.List.{List, [], ◌∷◌, ◌++◌}
use native.Mathlib.Omega.{arith}
use text.Mathlib.Text.{◌==◌ as str_eq}
use text.Mathlib.TextEquality.{eq_iff}
use interviewer.Prelude.Tests.{if◌then◌else◌}

abbrev pub Dict {ℓ} : Type ℓ → Type ℓ
Dict V = List (String × V)

-- `value in items`
abbrev pub contains : List String → String → Bool
contains [] s = false
contains (x ∷ xs) s = str_eq x s || contains xs s

-- A set of texts as a list with no repetition: `s.add(x)`.
abbrev pub add : List String → String → List String
add xs s = if contains xs s then xs else xs ++ (s ∷ [])

pub contains-snoc :
    (xs : List String) (v s : String) → contains (xs ++ (v ∷ [])) s ≡ (contains xs s || str_eq v s)
contains-snoc [] v s = ground arith
contains-snoc (x ∷ xs) v s = ground (arith, contains-snoc xs v s)

pub contains-add :
    (xs : List String) (v s : String) → contains (add xs v) s ≡ (contains xs s || str_eq v s)
contains-add xs v s = ground (arith, contains-snoc xs v s, eq_iff v s)

module _ {ℓ} {V : Type ℓ} where
  unfoldable pub lookup : Dict V → String → Option V
  lookup [] k = none
  lookup ((j, v) ∷ d) k = if str_eq j k then some v else lookup d k

  unfoldable pub insert : Dict V → String → V → Dict V
  insert [] k v = (k, v) ∷ []
  insert ((j, w) ∷ d) k v = if str_eq j k then (j, v) ∷ d else (j, w) ∷ insert d k v

  pub lookup-insert :
      (d : Dict V) (k j : String) (v : V)
      → lookup (insert d k v) j ≡ (if str_eq k j then some v else lookup d j)
  unfolding lookup insert
  lookup-insert [] k j v = refl
  lookup-insert ((i, w) ∷ d) k j v =
      ground (arith, eq_iff k j, eq_iff i k, eq_iff i j, lookup-insert d k j v)

pub str_eq-same : (s t : String) → s ≡ t → str_eq s t ≡ true
str_eq-same s t e = ground (arith, eq_iff s t)
