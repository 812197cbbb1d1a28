-- ===== src/Unicode.antt =====
-- The character tables of the running Python, which `str.strip`, `str.lower` and `str.isalnum`
-- read, and `normalize_follow_up_target` (src/interview_agent_runtime/artifacts/models.py).
use Prim.Native.Char.{Char}
use Prim.Native.String.{String, ◌++◌}
use interviewer.Prelude.{Bool, List, [], ◌∷◌, if◌then◌else◌}

pub record Unicode : Type 0 where
  pub is_space : Char → Bool
  pub is_alnum : Char → Bool
  -- The lower case of one character may be several.
  pub lower : Char → String
  -- `text.lower()` of a whole text, where the end of a word counts.
  pub lower_text : String → String

module _ ⦃U : Unicode⦄ where
  strip_left : String → String
  strip_left String.[] = String.[]
  strip_left (String.◌∷◌ c s) = if U.is_space c then strip_left s else String.◌∷◌ c s

  -- Characters in front are put back only before one that is no space.
  strip_right : String → String
  strip_right String.[] = String.[]
  strip_right (String.◌∷◌ c s) = drop_space c (strip_right s)
    where
      drop_space : Char → String → String
      drop_space c String.[] = if U.is_space c then String.[] else String.◌∷◌ c String.[]
      drop_space c (String.◌∷◌ d t) = String.◌∷◌ c (String.◌∷◌ d t)

  unfoldable pub strip : String → String
  unfolding strip_left strip_right
  strip s = strip_right (strip_left s)

  unfoldable pub lower_alnum : String → String
  lower_alnum String.[] = String.[]
  lower_alnum (String.◌∷◌ c s) = if U.is_alnum c then U.lower c ++ lower_alnum s else lower_alnum s

  unfoldable pub normalize_follow_up_target : String → String
  unfolding strip lower_alnum
  normalize_follow_up_target value = lower_alnum (strip value)

  add_word : String × List String → List String
  add_word (String.[], ws) = ws
  add_word (String.◌∷◌ c w, ws) = String.◌∷◌ c w ∷ ws

  -- The word that a text begins with, and the words after it.
  split_from : String → String × List String
  unfolding add_word
  split_from String.[] = ("", [])
  split_from (String.◌∷◌ c s) =
      let rest = split_from s in
      if U.is_space c then ("", add_word rest) else (String.◌∷◌ c rest.0, rest.1)

  -- `s.split()`
  unfoldable pub split : String → List String
  unfolding add_word split_from
  split s = add_word (split_from s)

  -- `" ".join(words)`
  join_words : List String → String
  join_words [] = ""
  join_words (w ∷ []) = w
  join_words (w ∷ v ∷ ws) = w ++ (" " ++ join_words (v ∷ ws))

  -- `" ".join(text.strip().split())`
  unfoldable pub normalize_text : String → String
  unfolding join_words
  normalize_text text = join_words (split (strip text))
