-- ===== src/Checkpoint/Json.antt =====
-- Values of JSON: how fields are written and read (the parts that `_to_json` and the readers of
-- src/interview_agent_runtime/checkpoint/stores.py share). The source reads a field without looking
-- at its type; the fields of the model have types, so a value of another type is a TypeError here.
use interviewer.Prelude.{
  ℕ, ◌+◌, ◌≡◌, refl, String, Bool, true, Option, none, some, List, [], ◌∷◌, if◌then◌else◌, Dict,
  length, arith,
}
use interviewer.Floats.{Floats, Float}
use interviewer.Values.{
  Value, null, bool, int, float, str, list, dict, Items, nil, cons, Fields, end, field, pos, negsuc,
  Error, type_error, key_error, Result, ok, err, ◌>>=◌,
}
use interviewer.Batch.{get_field}
use interviewer.Evaluation.{is_true}

module _ ⦃F : Floats⦄ where
  abbrev pub Writer : Type 0 → Type 0
  Writer A = A → Value

  abbrev pub Reader : Type 0 → Type 0
  Reader A = Value → Result A

  abbrev pub number_value : Writer ℕ
  number_value n = int (pos n)

  abbrev pub optional_value : {A : Type 0} → Writer A → Writer (Option A)
  optional_value w none = null
  optional_value w (some a) = w a

  items_value : {A : Type 0} → Writer A → List A → Items
  items_value w [] = nil
  items_value w (a ∷ rest) = cons (w a) (items_value w rest)

  unfoldable pub list_value : {A : Type 0} → Writer A → Writer (List A)
  unfolding items_value
  list_value w xs = list (items_value w xs)

  abbrev items_length : Items → ℕ
  items_length nil = 0
  items_length (cons v vs) = items_length vs + 1

  -- How many items a list has; another value has none.
  abbrev pub value_length : Value → ℕ
  value_length (list vs) = items_length vs
  value_length _ = 0

  pub value_length-list_value :
      {A : Type 0} (w : Writer A) (xs : List A) → value_length (list_value w xs) ≡ length xs
  unfolding list_value items_value
  value_length-list_value w [] = refl
  value_length-list_value w (x ∷ xs) = let h = value_length-list_value w xs in omega arith

  abbrev pub texts_value : Writer (List String)
  texts_value = list_value str

  fields_value : {A : Type 0} → Writer A → Dict A → Fields
  fields_value w [] = end
  fields_value w ((k, a) ∷ rest) = field k (w a) (fields_value w rest)

  unfoldable pub dict_value : {A : Type 0} → Writer A → Writer (Dict A)
  unfolding fields_value
  dict_value w d = dict (fields_value w d)

  abbrev pub read_any : Reader Value
  read_any v = ok v

  abbrev pub read_text : Reader String
  read_text (str s) = ok s
  read_text _ = err type_error

  abbrev pub read_bool : Reader Bool
  read_bool (bool b) = ok b
  read_bool _ = err type_error

  abbrev pub read_number : Reader ℕ
  read_number (int (pos n)) = ok n
  read_number _ = err type_error

  abbrev pub read_float : Reader Float
  read_float (float x) = ok x
  read_float (int (pos n)) = ok (F.of_ℕ n)
  read_float (int (negsuc n)) = ok (F.neg (F.of_ℕ (n + 1)))
  read_float _ = err type_error

  abbrev pub read_optional : {A : Type 0} → Reader A → Reader (Option A)
  read_optional r null = ok none
  read_optional r v = r v >>= λ a. ok (some a)

  read_items : {A : Type 0} → Reader A → Items → Result (List A)
  read_items r nil = ok []
  read_items r (cons v vs) = r v >>= λ a. read_items r vs >>= λ rest. ok (a ∷ rest)

  -- `[read(item) for item in items]`
  unfoldable pub read_list : {A : Type 0} → Reader A → Reader (List A)
  unfolding read_items
  read_list r (list vs) = read_items r vs
  read_list r _ = err type_error

  abbrev pub read_texts : Reader (List String)
  read_texts = read_list read_text

  read_fields : {A : Type 0} → Reader A → Fields → Result (Dict A)
  read_fields r end = ok []
  read_fields r (field k v fs) = r v >>= λ a. read_fields r fs >>= λ rest. ok ((k, a) ∷ rest)

  unfoldable pub read_dict : {A : Type 0} → Reader A → Reader (Dict A)
  unfolding read_fields
  read_dict r (dict fs) = read_fields r fs
  read_dict r _ = err type_error

  -- A nested object.
  abbrev pub read_object : {A : Type 0} → (Fields → Result A) → Reader A
  read_object r (dict fs) = r fs
  read_object r _ = err type_error

  -- `None if not data`
  abbrev pub read_filled : {A : Type 0} → (Fields → Result A) → Reader (Option A)
  read_filled r v = if is_true v then (read_object r v >>= λ a. ok (some a)) else ok none

  abbrev found_or : {A : Type 0} → Reader A → A → Option Value → Result A
  found_or r otherwise none = ok otherwise
  found_or r otherwise (some v) = r v

  -- `data.get(key, otherwise)`
  abbrev pub get_or : {A : Type 0} → Reader A → Fields → String → A → Result A
  get_or r json key otherwise = found_or r otherwise (get_field json key)

  abbrev found_or_read : {A : Type 0} → Reader A → Result A → Option Value → Result A
  found_or_read r otherwise none = otherwise
  found_or_read r otherwise (some v) = r v

  -- `read(data.get(key, {}))`
  abbrev pub get_or_read : {A : Type 0} → Reader A → Fields → String → Result A → Result A
  get_or_read r json key otherwise = found_or_read r otherwise (get_field json key)

  abbrev found : {A : Type 0} → Reader A → Error → Option Value → Result A
  found r missing none = err missing
  found r missing (some v) = r v

  -- `data[key]`
  abbrev pub get : {A : Type 0} → Reader A → Fields → String → Result A
  get r json key = found r key_error (get_field json key)

  -- A keyword of a constructor that has no default.
  abbrev pub get_keyword : {A : Type 0} → Reader A → Fields → String → Result A
  get_keyword r json key = found r type_error (get_field json key)

  module _ {A B : Type 0} where
    -- What is written is read as `f` of it.
    abbrev pub Restores : Reader B → Writer A → (A → B) → Type 0
    Restores r w f = (a : A) → r (w a) ≡ ok (f a)

    abbrev pub map_list : (A → B) → List A → List B
    map_list f [] = []
    map_list f (x ∷ xs) = f x ∷ map_list f xs

    pub read_list-list_value :
        (r : Reader B) (w : Writer A) (f : A → B) (xs : List A)
        → Restores r w f
        → read_list r (list_value w xs) ≡ ok (map_list f xs)
    unfolding read_list list_value
    read_list-list_value r w f [] h = refl
    read_list-list_value r w f (x ∷ xs) h = rw (h x, read_list-list_value r w f xs h) refl

  module _ {A : Type 0} where
    abbrev pub map_option : (A → A) → Option A → Option A
    map_option f none = none
    map_option f (some a) = some (f a)

    pub read_filled-lem :
        (r : Fields → Result A) (w : A → Fields) (f : A → A) (o : Option A)
        → ((a : A) → r (w a) ≡ ok (f a))
        → ((a : A) → is_true (dict (w a)) ≡ true)
        → read_filled r (optional_value (λ a. dict (w a)) o) ≡ ok (map_option f o)
    read_filled-lem r w f none h filled = refl
    read_filled-lem r w f (some a) h filled = rw (filled a, h a) refl

    pub read_dict-dict_value :
        (r : Reader A) (w : Writer A) (d : Dict A)
        → Restores r w (λ a. a)
        → read_dict r (dict_value w d) ≡ ok d
    unfolding read_dict dict_value
    read_dict-dict_value r w [] h = refl
    read_dict-dict_value r w ((k, a) ∷ d) h = rw (h a, read_dict-dict_value r w d h) refl

    map_list-same : (xs : List A) → map_list (λ a. a) xs ≡ xs
    map_list-same [] = refl
    map_list-same (x ∷ xs) = rw (map_list-same xs) refl

    -- A list whose items are read back as they were.
    pub read_list-same :
        (r : Reader A) (w : Writer A) (xs : List A)
        → Restores r w (λ a. a)
        → read_list r (list_value w xs) ≡ ok xs
    read_list-same r w xs h = rw (read_list-list_value r w (λ a. a) xs h, map_list-same xs) refl

  pub read_texts-texts_value : (xs : List String) → read_texts (texts_value xs) ≡ ok xs
  read_texts-texts_value xs = read_list-same read_text str xs (λ s. refl)

  pub read_floats-lem : (d : Dict Float) → read_dict read_float (dict_value float d) ≡ ok d
  read_floats-lem d = read_dict-dict_value read_float float d (λ x. refl)

  pub read_numbers-lem : (d : Dict ℕ) → read_dict read_number (dict_value number_value d) ≡ ok d
  read_numbers-lem d = read_dict-dict_value read_number number_value d (λ n. refl)

  -- `_to_json` leaves a value as it is.
  abbrev pub any_value : Writer Value
  any_value v = v

  pub read_values-lem : (d : Dict Value) → read_dict read_any (dict_value any_value d) ≡ ok d
  read_values-lem d = read_dict-dict_value read_any any_value d (λ v. refl)

  pub read_optional_text-lem :
      (o : Option String) → read_optional read_text (optional_value str o) ≡ ok o
  read_optional_text-lem none = refl
  read_optional_text-lem (some s) = refl

  pub read_optional_float-lem :
      (o : Option Float) → read_optional read_float (optional_value float o) ≡ ok o
  read_optional_float-lem none = refl
  read_optional_float-lem (some x) = refl

-- For `simp`, on fields that were written.
pub ruleset stored = (
  read_texts-texts_value, read_floats-lem, read_numbers-lem, read_values-lem,
  read_optional_text-lem, read_optional_float-lem,
)
