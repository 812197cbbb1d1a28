-- ===== src/Questioning/Validation.antt =====
-- The validation of a question (src/interview_agent_runtime/questioning/pipeline.py).
use interviewer.Prelude.{
  ℕ, String, str_eq, Bool, true, false, not, ◌&&◌, Option, none, some, List, [], ◌∷◌, ◌++◌,
  if◌then◌else◌, any, contains, length, ltb, last_n, keep,
}
use interviewer.Floats.{Floats}
use interviewer.Unicode.{Unicode, strip, lower_alnum}
use interviewer.Plan.{InterviewDimension, InterviewPlan, next_dimension}
use interviewer.Artifacts.{PositionProfile, QuestionArtifact}
use interviewer.Blackboard.{InterviewBlackboard, plan, with_plan}
use interviewer.Memory.{text_length}
use interviewer.Evaluation.Points.{is_part, dedupe}

-- The pairs of neighbours in a text.
unfoldable pub bigrams : String → List String
bigrams String.[] = []
bigrams (String.◌∷◌ c String.[]) = []
bigrams (String.◌∷◌ c (String.◌∷◌ d s)) = String.◌∷◌ c (String.◌∷◌ d "") ∷ bigrams (String.◌∷◌ d s)

abbrev keywords : List String
keywords =
    "redis" ∷ "缓存" ∷ "一致性" ∷ "消息队列" ∷ "agent" ∷ "状态机" ∷ "工具" ∷ "checkpoint" ∷ "恢复" ∷ "限流" ∷ "降级"
    ∷ []

abbrev or_bigrams : List String → String → List String
or_bigrams [] text = dedupe (bigrams text)
or_bigrams (t ∷ ts) text = t ∷ ts

module _ ⦃U : Unicode⦄ where
  -- `_fingerprint`, as a list without repetition.
  unfoldable pub fingerprint_of : String → List String
  unfolding lower_alnum
  fingerprint_of text =
      let normalized = lower_alnum text in
      or_bigrams (keep (λ k. is_part k normalized) keywords) normalized

-- `a & b` of sets
abbrev shared : List String → List String → List String
shared a b = keep (contains b) a

abbrev meets : List String → List String → Bool
meets a b = any (contains b) a

abbrev min_nat : ℕ → ℕ → ℕ
min_nat a b = if ltb b a then b else a

abbrev at_least_one : ℕ → ℕ
at_least_one n = if ltb 1 n then n else 1

abbrev has_items : List String → Bool
has_items [] = false
has_items (s ∷ ss) = true

-- `if test: reasons.append(reason)`
abbrev pub when : Bool → String → List String
when test reason = if test then reason ∷ [] else []

module _ ⦃F : Floats⦄ ⦃U : Unicode⦄ where
  -- The body of the loop of `_similar_to_history`.
  abbrev is_close : List String → List String → Bool
  is_close fingerprint previous =
      has_items previous
      && F.le (F.decimal 75 2) (
          F.div (F.of_ℕ (length (shared fingerprint previous)))
            (F.of_ℕ (at_least_one (min_nat (length fingerprint) (length previous)))))

  -- `_similar_to_history`
  unfoldable pub similar_to_history : QuestionArtifact → InterviewBlackboard → Bool
  unfolding fingerprint_of
  similar_to_history question board =
      any
        (λ (item : QuestionArtifact).
          is_close (fingerprint_of question.title) (fingerprint_of item.title))
        (last_n 5 board.question_history)

  abbrev pub name_or : Option InterviewDimension → String → String
  name_or none otherwise = otherwise
  name_or (some d) otherwise = d.name

  -- The dimension that the question is to have; asking the plan refreshes it.
  abbrev pub expected_in : InterviewBlackboard → Option InterviewPlan → String × InterviewBlackboard
  expected_in board none = (board.current_dimension, board)
  expected_in board (some p) =
      let (d, p') = next_dimension p board.capability_profile.dimension_coverage in
      (name_or d board.current_dimension, with_plan board p')

  unfoldable pub expected_dimension : InterviewBlackboard → String × InterviewBlackboard
  expected_dimension board = expected_in board (plan board)

  abbrev is_irrelevant : Option PositionProfile → QuestionArtifact → Bool
  is_irrelevant none question = false
  is_irrelevant (some p) question =
      let words = p.keywords ++ (p.required_skills ++ p.preferred_skills) in
      has_items words
      && not (meets words (question.related_skills ++ (question.tags ++ (question.dimension ∷ []))))
      && not (contains p.competency_dimensions question.dimension)

  abbrev pub is_sensitive : String → Bool
  is_sensitive title = any (λ word. is_part word (U.lower_text title)) ("年龄" ∷ "婚育" ∷ "宗教" ∷ [])

  -- The reasons against a question.
  unfoldable pub reasons_against : QuestionArtifact → InterviewBlackboard → String → List String
  reasons_against question board expected =
      when (str_eq (strip question.title) "") "empty_title"
      ++ (when (ltb (text_length (strip question.title)) 8) "too_short"
          ++ (when (contains board.asked_question_ids question.question_id) "duplicate_id"
              ++ (when (similar_to_history question board) "duplicate_semantic"
                  ++ (when (not (str_eq expected "") && not (str_eq question.dimension expected))
                        "dimension_mismatch"
                      ++ (when (is_sensitive question.title) "sensitive"
                          ++ when (is_irrelevant board.position_profile question)
                              "job_irrelevant")))))

  -- `validate`: the question is accepted where there is no reason against it.
  unfoldable pub validate :
      QuestionArtifact → InterviewBlackboard → List String × InterviewBlackboard
  validate question board =
      let (expected, board') = expected_dimension board in
      (reasons_against question board' expected, board')
