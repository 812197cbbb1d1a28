-- ===== src/Evaluation/Evidences.antt =====
-- The evidence and the score of an evaluation
-- (src/interview_agent_runtime/evaluation/engine.py).
use interviewer.Prelude.{
  ℕ, ◌≡◌, ◌≢◌, ◌⊎◌, inl, inr, refl, String, false, Option, none, some, List, [], ◌∷◌, All,
}
use interviewer.Floats.{Floats, Float, FloatLaws}
use interviewer.Unicode.{Unicode}
use interviewer.Values.{Value, int, list, Items, Fields, ℤ, Result, ok, err, ◌>>=◌}
use interviewer.Artifacts.{QuestionArtifact, AnswerArtifact, Evidence, EvaluationArtifact}
use interviewer.Score.Bounds.{score-bounds}
use interviewer.Evaluation.{
  Texts, EvaluationAgentContext, evidence_from_draft, evidence_in, overflow_error, draft_confidence,
  fallback_confidence, confidence_or, evaluation_with, field_of, claimed_all, insufficient,
  all_evidence, or_list, evaluation_of, evaluate_answer,
}
use interviewer.Evaluation.Drafts.{
  IsGrounded, HasTooLarge, number_in-cases, FromDraft, evidence_in-FromDraft, claimed_all-All,
  insufficient-IsGrounded,
}

module _ ⦃F : Floats⦄ where
  module _ ⦃U : Unicode⦄ ⦃T : Texts⦄ (laws : FloatLaws F) (ids : ℕ → String)
      (question : QuestionArtifact) (answer : AnswerArtifact) where
    -- At least one, and all grounded.
    abbrev Supported : List Evidence → Type 0
    Supported [] = ⊥
    Supported (e ∷ es) = All (IsGrounded question answer) (e ∷ es)

    or_list-Supported :
        (first second : List Evidence)
        → All (IsGrounded question answer) first
        → Supported second
        → Supported (or_list first second)
    or_list-Supported [] second h k = k
    or_list-Supported (e ∷ es) second h k = h

    -- Evidence that supports the evaluation, or the error of the draft's.
    abbrev AllEvidence : Option Value → Result (List Evidence) → Type 0
    AllEvidence v (ok es) = Supported es
    AllEvidence v (err e) =
        (e ≡ overflow_error) × (items : Items) × (v ≡ some (list items)) × HasTooLarge items

    all_evidence-AllEvidence :
        (draft : Option Fields) (s : Float) (claims : List String)
        → AllEvidence (field_of draft "evidence") (all_evidence ids draft question answer s claims)
    unfolding all_evidence evidence_from_draft
    all_evidence-AllEvidence draft s claims =
        completed (evidence_in ids question answer (field_of draft "evidence"))
          (evidence_in-FromDraft laws ids question answer (field_of draft "evidence"))
      where
        completed :
            (r : Result (List Evidence))
            → FromDraft laws ids question answer (field_of draft "evidence") r
            → AllEvidence (field_of draft "evidence") (
                r >>= λ es. ok (
                  or_list es (
                    or_list
                      (claimed_all ids 0 question answer s claims)
                      (insufficient (ids 0) question answer ∷ []))))
        completed (ok es) h = or_list-Supported es _ h (
            or_list-Supported (claimed_all ids 0 question answer s claims) _
              (claimed_all-All laws ids question answer 0 s claims)
              (insufficient-IsGrounded laws ids question answer (ids 0), tt))
        completed (err e) h = h

  module _ ⦃U : Unicode⦄ ⦃T : Texts⦄ where
    -- The draft gives as a confidence an integer that is too large for a float: its own, or one of
    -- an entry of its evidence.
    abbrev pub TooLarge : Option Fields → Type 0
    TooLarge draft =
        ((z : ℤ) × (field_of draft "confidence" ≡ some (int z)) × (T.float_of z ≡ none))
        ⊎ ((items : Items) × (field_of draft "evidence" ≡ some (list items)) × HasTooLarge items)

    -- The evaluation has evidence, all of it grounded, and its score is within the bounds and is the
    -- one of the question's dimension.
    pub record IsSupported (question : QuestionArtifact) (answer : AnswerArtifact)
        (e : EvaluationArtifact) : Type 0 where
      pub some_evidence : e.evidence ≢ []
      pub grounded : All (IsGrounded question answer) e.evidence
      pub not_below : F.lt e.score (F.of_ℕ 20) ≡ false
      pub not_above : F.lt (F.of_ℕ 95) e.score ≡ false
      pub of_dimension : e.dimension_scores ≡ (question.dimension, e.score) ∷ []

    evaluation_with-IsSupported :
        (laws : FloatLaws F) (ids : ℕ → String) (id : String) (now : ℕ) (draft : Option Fields)
        (question : QuestionArtifact) (answer : AnswerArtifact) (es : List Evidence) (x : Float)
        → Supported laws ids question answer es
        → IsSupported question answer (evaluation_with id now draft question answer es x)
    unfolding evaluation_with
    evaluation_with-IsSupported laws ids id now draft question answer [] x h = elim h [ ]
    evaluation_with-IsSupported laws ids id now draft question answer (p ∷ ps) x h =
        let e = evaluation_with id now draft question answer (p ∷ ps) x in
        let bounds = score-bounds laws e.strengths e.missing_points _ question.is_follow_up in
        record {
          some_evidence = λ same. cc;
          grounded = h;
          not_below = bounds.0;
          not_above = bounds.1;
          of_dimension = refl;
        }

    -- If the floats are numbers and there are a question and an answer, then one of two holds. Either
    -- an evaluation is given; it has evidence, and each piece cites this answer and this question, is
    -- positive, negative or uncertain, and has a confidence between 0 and 1; the score is between 20
    -- and 95 and is the one of the question's dimension. Or OverflowError is raised, and the draft
    -- gives as its own confidence, or as that of an entry of its evidence, an integer that is too
    -- large for a float.
    pub evaluate_answer-IsGrounded :
        (laws : FloatLaws F) (ids : ℕ → String) (id : String) (now : ℕ)
        (context : EvaluationAgentContext) (draft : Option Fields) (question : QuestionArtifact)
        (answer : AnswerArtifact)
        → context.current_question ≡ some question
        → context.current_answer ≡ some answer
        → ((e : EvaluationArtifact) × (evaluate_answer ids id now context draft ≡ ok e)
            × IsSupported question answer e)
          ⊎ ((evaluate_answer ids id now context draft ≡ err overflow_error) × TooLarge draft)
    unfolding evaluate_answer evaluation_of draft_confidence
    evaluate_answer-IsGrounded laws ids id now context draft question answer asked answered =
        rw (asked, answered)
          (from (all_evidence ids draft question answer _ _)
            (all_evidence-AllEvidence laws ids question answer draft _ _))
      where
        given : Result (List Evidence) → Result EvaluationArtifact
        given r = do
          es ← r
          confidence ← draft_confidence draft (fallback_confidence answer.normalized_text)
          ok (evaluation_with id now draft question answer es confidence)

        -- Once the evidence is there, the confidence of the draft is read.
        from :
            (r : Result (List Evidence))
            → AllEvidence laws ids question answer (field_of draft "evidence") r
            → ((e : EvaluationArtifact) × (given r ≡ ok e) × IsSupported question answer e)
              ⊎ ((given r ≡ err overflow_error) × TooLarge draft)
        from (err e) h = inr (rw h.0 refl, inr (h.1, h.2, h.3))
        from (ok es) h = elim (number_in-cases (field_of draft "confidence")) [
          | inl number ↦ inl (
            evaluation_with id now draft question answer es
                (confidence_or number.0 (fallback_confidence answer.normalized_text)),
            rw number.1 refl,
            evaluation_with-IsSupported laws ids id now draft question answer es _ h,
          )
          | inr large ↦ inr (rw large.0 refl, inl (large.1, large.2, large.3))
        ]
