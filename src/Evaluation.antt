-- ===== src/Evaluation.antt =====
-- `EvidenceDrivenEvaluator` (src/interview_agent_runtime/evaluation/engine.py): the evaluation of an
-- answer from the draft that a model gave, or without one. `str()` of a value and `float()` of an
-- integer are the interpreter's; identifiers and the time are arguments.
pub mod Points
pub mod Drafts
pub mod Evidences
use interviewer.Prelude.{
  ℕ, zero, suc, ◌+◌, String, str_eq, Bool, true, false, not, ◌&&◌, ◌||◌, Option, none, some, List,
  [], ◌∷◌, if◌then◌else◌, or_else, ◌==◌,
}
use interviewer.Floats.{Floats, Float, max_float, min_float}
use interviewer.Unicode.{Unicode, strip}
use interviewer.Values.{
  Value, null, bool, int, float, str, list, dict, Items, nil, cons, Fields, end, field, ℤ, pos,
  negsuc, Error, Result, ok, err, ◌>>=◌, runtime_error, other_error,
}
use interviewer.Artifacts.{QuestionArtifact, AnswerArtifact, Evidence, EvaluationArtifact}
use interviewer.Memory.{text_length}
use interviewer.Memory.Context.{take_text}
use interviewer.Batch.{get_field}
use interviewer.Score
use interviewer.Evaluation.Points.{positive_claims, missing_points, claim_skill}

-- What the interpreter makes of a value.
pub record Texts ⦃F : Floats⦄ : Type 0 where
  -- `str(value)`
  pub str_of : Value → String
  -- `float(n)`, which an integer may be too large for.
  pub float_of : ℤ → Option Float

-- What `float(n)` raises.
abbrev pub overflow_error : Error
overflow_error = other_error "OverflowError"

module _ ⦃F : Floats⦄ where
  pub record EvaluationAgentContext : Type 0 where
    pub current_question : Option QuestionArtifact
    pub current_answer : Option AnswerArtifact
    pub reference_answer : String
    pub expected_points : List String
    pub current_dimension : String
    pub relevant_evidence : List Evidence
    pub rubric : String

  abbrev is_zero : ℤ → Bool
  is_zero (pos n) = n == 0
  is_zero (negsuc n) = false

  -- Whether a value counts as true.
  abbrev pub is_true : Value → Bool
  is_true null = false
  is_true (bool b) = b
  is_true (int z) = not (is_zero z)
  is_true (float x) = not (F.eq x (F.of_ℕ 0))
  is_true (str s) = not (str_eq s "")
  is_true (list nil) = false
  is_true (list (cons v vs)) = true
  is_true (dict end) = false
  is_true (dict (field n v fs)) = true

  -- `max(0.0, min(1.0, x))`
  unfoldable pub clamp : Float → Float
  clamp x = max_float (F.of_ℕ 0) (min_float (F.of_ℕ 1) x)

  abbrev field_of : Option Fields → String → Option Value
  field_of none key = none
  field_of (some draft) key = get_field draft key

  module _ ⦃T : Texts⦄ where
    abbrev converted : Option Float → Result (Option Float)
    converted none = err overflow_error
    converted (some x) = ok (some x)

    -- `float(value)` where `isinstance(value, (int, float))`, which a bool is as well.
    abbrev pub number_in : Option Value → Result (Option Float)
    number_in (some (float x)) = ok (some x)
    number_in (some (int z)) = converted (T.float_of z)
    number_in (some (bool b)) = ok (some (if b then F.of_ℕ 1 else F.of_ℕ 0))
    number_in _ = ok none

    abbrev confidence_or : Option Float → Float → Float
    confidence_or none fallback = fallback
    confidence_or (some x) fallback = clamp x

    -- `_draft_confidence`
    unfoldable pub draft_confidence : Option Fields → Float → Result Float
    unfolding get_field
    draft_confidence draft fallback = do
      number ← number_in (field_of draft "confidence")
      ok (confidence_or number fallback)

  module _ ⦃U : Unicode⦄ ⦃T : Texts⦄ where
    texts_of : Items → List String
    texts_of nil = []
    texts_of (cons v vs) =
        let rest = texts_of vs in
        let s = T.str_of v in if str_eq (strip s) "" then rest else s ∷ rest

    abbrev texts_in : Option Value → List String
    texts_in (some (list vs)) = texts_of vs
    texts_in _ = []

    -- `_draft_list`
    unfoldable pub draft_list : Option Fields → String → List String
    unfolding texts_of
    draft_list draft key = texts_in (field_of draft key)

    -- `str(item.get(key) or otherwise)`
    abbrev text_or : Option Value → String → String
    text_or none otherwise = otherwise
    text_or (some v) otherwise = if is_true v then T.str_of v else otherwise

    -- `str(item.get(key, otherwise))`
    abbrev text_at : Option Value → String → String
    text_at none otherwise = otherwise
    text_at (some v) otherwise = T.str_of v

    -- A skill that is no text is taken as its text.
    abbrev skill_or : Option Value → Option String → Option String
    skill_or none otherwise = otherwise
    skill_or (some v) otherwise = if is_true v then some (T.str_of v) else otherwise

    abbrev known_polarity : String → String
    known_polarity p =
        if str_eq p "positive" || str_eq p "negative" || str_eq p "uncertain"
        then p
        else "uncertain"

    -- The evidence of one entry of the draft, whose claim is not empty.
    unfoldable pub drafted :
        String → QuestionArtifact → AnswerArtifact → Fields → String → Float → Evidence
    drafted id question answer item claim confidence =
        let excerpt =
          text_or (get_field item "answer_excerpt") (take_text 160 answer.normalized_text) in
        let polarity = text_at (get_field item "polarity") "positive" in
        record {
          dimension = text_or (get_field item "dimension") question.dimension;
          claim = claim;
          source_answer_id = answer.answer_id;
          quote_or_summary = excerpt;
          confidence = clamp confidence;
          evidence_id = id;
          skill = skill_or (get_field item "skill") (claim_skill claim question.related_skills);
          source_question_id = question.question_id;
          answer_excerpt = excerpt;
          evidence_type = if str_eq polarity "positive" then "positive" else "insufficient";
          polarity = known_polarity polarity;
        }

    -- The evidence of an entry, before that of the entries after it.
    unfoldable pub drafted_before :
        String
        → QuestionArtifact
        → AnswerArtifact
        → Fields
        → String
        → Result (List Evidence)
        → Result (List Evidence)
    drafted_before id question answer item claim rest = do
      number ← number_in (get_field item "confidence")
      let e = drafted id question answer item claim (or_else number (F.decimal 78 2))
      es ← rest
      ok (e ∷ es)

    -- The loop of `_evidence_from_draft`; `ids` are the identifiers from number `n` on.
    unfoldable pub evidence_of :
        (ℕ → String) → ℕ → QuestionArtifact → AnswerArtifact → Items → Result (List Evidence)
    evidence_of ids n question answer nil = ok []
    evidence_of ids n question answer (cons (dict item) items) =
        let claim = strip (text_at (get_field item "claim") "") in
        let skipped = evidence_of ids n question answer items in
        let rest = evidence_of ids (suc n) question answer items in
        if str_eq claim "" then skipped else drafted_before (ids n) question answer item claim rest
    evidence_of ids n question answer (cons _ items) = evidence_of ids n question answer items

    abbrev evidence_in :
        (ℕ → String) → QuestionArtifact → AnswerArtifact → Option Value → Result (List Evidence)
    evidence_in ids question answer (some (list items)) = evidence_of ids 0 question answer items
    evidence_in ids question answer _ = ok []

    -- `_evidence_from_draft`
    unfoldable pub evidence_from_draft :
        (ℕ → String) → Option Fields → QuestionArtifact → AnswerArtifact → Result (List Evidence)
    unfolding evidence_of
    evidence_from_draft ids draft question answer =
        evidence_in ids question answer (field_of draft "evidence")

    -- The evidence for one claim.
    unfoldable pub claimed : String → QuestionArtifact → AnswerArtifact → Float → String → Evidence
    claimed id question answer score claim = record {
      dimension = question.dimension;
      claim = claim;
      source_answer_id = answer.answer_id;
      quote_or_summary = take_text 160 answer.normalized_text;
      confidence = if F.le (F.of_ℕ 70) score then F.decimal 82 2 else F.decimal 65 2;
      evidence_id = id;
      skill = claim_skill claim question.related_skills;
      source_question_id = question.question_id;
      answer_excerpt = take_text 160 answer.normalized_text;
      evidence_type = "positive";
      polarity = "positive";
    }

    unfoldable pub claimed_all :
        (ℕ → String) → ℕ → QuestionArtifact → AnswerArtifact → Float → List String → List Evidence
    claimed_all ids n question answer score [] = []
    claimed_all ids n question answer score (c ∷ cs) =
        claimed (ids n) question answer score c ∷ claimed_all ids (suc n) question answer score cs

    abbrev first_skill : List String → Option String
    first_skill [] = none
    first_skill (s ∷ ss) = some s

    -- Where nothing else speaks for or against the answer.
    unfoldable pub insufficient : String → QuestionArtifact → AnswerArtifact → Evidence
    insufficient id question answer = record {
      dimension = question.dimension;
      claim = "回答过短或缺少可验证细节";
      source_answer_id = answer.answer_id;
      quote_or_summary = take_text 160 answer.normalized_text;
      confidence = F.decimal 55 2;
      evidence_id = id;
      skill = first_skill question.related_skills;
      source_question_id = question.question_id;
      answer_excerpt = take_text 160 answer.normalized_text;
      evidence_type = "insufficient";
      polarity = "uncertain";
    }

    abbrev or_list : {A : Type 0} → List A → List A → List A
    or_list [] otherwise = otherwise
    or_list (a ∷ rest) otherwise = a ∷ rest

    unfoldable pub all_evidence :
        (ℕ → String)
        → Option Fields
        → QuestionArtifact
        → AnswerArtifact
        → Float
        → List String
        → Result (List Evidence)
    all_evidence ids draft question answer score positives = do
      es ← evidence_from_draft ids draft question answer
      ok (
          or_list es (
            or_list (claimed_all ids 0 question answer score positives)
              (insufficient (ids 0) question answer ∷ [])))

    unfoldable pub positives_of : Option Fields → QuestionArtifact → String → List String
    positives_of draft question text = or_list (draft_list draft "matched_points") (
        or_list (draft_list draft "strengths")
          (positive_claims question.dimension (U.lower_text text) question.expected_points))

    unfoldable pub missing_of : Option Fields → QuestionArtifact → String → List String
    missing_of draft question text = or_list (draft_list draft "missing_points") (
        missing_points question.dimension (U.lower_text text) (text_length text)
          question.expected_points)

    abbrev fallback_confidence : String → Float
    fallback_confidence text = if str_eq text "" then F.decimal 3 1 else F.decimal 84 2

    -- The evaluation with this evidence and confidence.
    unfoldable pub evaluation_with :
        String
        → ℕ
        → Option Fields
        → QuestionArtifact
        → AnswerArtifact
        → List Evidence
        → Float
        → EvaluationArtifact
    evaluation_with id now draft question answer evidence confidence =
        let text = answer.normalized_text in
        let positives = positives_of draft question text in
        let missing = missing_of draft question text in
        let score = Score.score positives missing (text_length text) question.is_follow_up in
        record {
          base = record {
            kind = "evaluation";
            owner = "EvaluatorAgent";
            id = id;
            created_at = now;
            confidence = confidence;
            metadata = [];
          };
          question_id = question.question_id;
          answer_id = answer.answer_id;
          score = score;
          overall_score = score;
          dimension_scores = (question.dimension, score) ∷ [];
          strengths = positives;
          evidence = evidence;
          missing_points = missing;
        }

    unfoldable pub evaluation_of :
        (ℕ → String)
        → String
        → ℕ
        → Option Fields
        → QuestionArtifact
        → AnswerArtifact
        → Result EvaluationArtifact
    evaluation_of ids id now draft question answer = do
      let text = answer.normalized_text
      let positives = positives_of draft question text
      let missing = missing_of draft question text
      let score = Score.score positives missing (text_length text) question.is_follow_up
      evidence ← all_evidence ids draft question answer score positives
      confidence ← draft_confidence draft (fallback_confidence text)
      ok (evaluation_with id now draft question answer evidence confidence)

    abbrev evaluated :
        (ℕ → String)
        → String
        → ℕ
        → Option Fields
        → Option QuestionArtifact
        → Option AnswerArtifact
        → Result EvaluationArtifact
    evaluated ids id now draft (some question) (some answer) =
        evaluation_of ids id now draft question answer
    evaluated ids id now draft _ _ = err runtime_error

    -- `evaluate`
    unfoldable pub evaluate_answer :
        (ℕ → String)
        → String
        → ℕ
        → EvaluationAgentContext
        → Option Fields
        → Result EvaluationArtifact
    unfolding evaluation_of
    evaluate_answer ids id now context draft =
        evaluated ids id now draft context.current_question context.current_answer
