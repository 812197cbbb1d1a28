-- ===== src/Floats.antt =====
-- Python's `float`, which the language gives and the program only uses: a type with the operations
-- that the program applies to scores, weights, coverages and confidences.
use interviewer.Prelude.{ℕ, ◌*◌, ◌≤◌, ltb, ◌≡◌, Bool, true, false, not, if◌then◌else◌}

pub record Floats : Type 1 where
  pub Float : Type 0
  pub lt : Float → Float → Bool
  pub le : Float → Float → Bool
  pub eq : Float → Float → Bool
  pub add : Float → Float → Float
  pub sub : Float → Float → Float
  pub mul : Float → Float → Float
  pub div : Float → Float → Float
  pub neg : Float → Float
  -- `round(x, 1)`
  pub round_1 : Float → Float
  -- An integer in a float's place.
  pub of_ℕ : ℕ → Float
  -- The literal m / 10 ^ k: 0.55 is `decimal 55 2`.
  pub decimal : ℕ → ℕ → Float

module _ ⦃F : Floats⦄ where
  abbrev pub Float : Type 0
  Float = F.Float

  -- `max(a, b)` and `min(a, b)`: the first argument, unless the second is above (below) it.
  abbrev pub max_float : Float → Float → Float
  max_float a b = if F.lt a b then b else a

  abbrev pub min_float : Float → Float → Float
  min_float a b = if F.lt b a then b else a

-- The laws of the order on the floats that are numbers. The program computes no NaN.
pub record FloatLaws (F : Floats) : Type 0 where
  pub lt_asym : (a b : F.Float) → F.lt a b ≡ true → F.lt b a ≡ false
  pub lt_negative_trans : (a b c : F.Float) → F.lt a b ≡ false → F.lt b c ≡ false → F.lt a c ≡ false
  pub le-not_lt : (a b : F.Float) → F.le a b ≡ not (F.lt b a)
  pub lt-neg : (a b : F.Float) → F.lt (F.neg a) (F.neg b) ≡ F.lt b a
  -- Small integers are exact, and hundredths compare with them as they are written.
  pub lt-of_ℕ : (m n : ℕ) → m ≤ 1000 → n ≤ 1000 → F.lt (F.of_ℕ m) (F.of_ℕ n) ≡ ltb m n
  pub decimal-lt-of_ℕ :
      (m n : ℕ) → m ≤ 1000 → n ≤ 1000 → F.lt (F.decimal m 2) (F.of_ℕ n) ≡ ltb m (n * 100)
  pub of_ℕ-lt-decimal :
      (m n : ℕ) → m ≤ 1000 → n ≤ 1000 → F.lt (F.of_ℕ n) (F.decimal m 2) ≡ ltb (n * 100) m
