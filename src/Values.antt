-- ===== src/Values.antt =====
-- The values of Python that the program passes on without a type of its own (`Any`), and the
-- errors that its functions raise (errors.py and the built-in ones).
use interviewer.Prelude.{ℕ, String, Bool, ◌≡◌, refl, ◌⊎◌, inl, inr}
use interviewer.Floats.{Floats, Float}

pub data ℤ : Type 0 where
  pos : ℕ → ℤ
  -- -(n + 1)
  negsuc : ℕ → ℤ

module _ ⦃F : Floats⦄ where
  mutual
    pub data Value : Type 0 where
      null : Value
      bool : Bool → Value
      int : ℤ → Value
      float : Float → Value
      str : String → Value
      list : Items → Value
      dict : Fields → Value

    pub data Items : Type 0 where
      nil : Items
      cons : Value → Items → Items

    pub data Fields : Type 0 where
      end : Fields
      field : String → Value → Fields → Fields

-- The classes of exceptions, with the message where the program reads it.
pub data Error : Type 0 where
  key_error : Error
  type_error : Error
  value_error : Error
  runtime_error : Error
  llm_provider_error : Error
  tool_permission_error : Error
  tool_execution_error : Error
  tool_timeout_error : Error
  tool_durability_error : Error
  timeout_error : Error
  -- Any other exception, of the class with this name.
  other_error : String → Error

-- What a function that may raise gives back.
pub data Result {ℓ} (A : Type ℓ) : Type ℓ where
  ok : A → Result A
  err : Error → Result A

infixl 5 ◌>>=◌
abbrev pub ◌>>=◌ {ℓ κ} : {A : Type ℓ} {B : Type κ} → Result A → (A → Result B) → Result B
ok a >>= f = f a
err e >>= f = err e

pub Result-cases :
    {A : Type 0} (r : Result A) → ((a : A) × (r ≡ ok a)) ⊎ ((e : Error) × (r ≡ err e))
Result-cases (ok a) = inl (a, refl)
Result-cases (err e) = inr (e, refl)
