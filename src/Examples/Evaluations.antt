-- ===== src/Examples/Evaluations.antt =====
-- An evaluation with a draft that names a piece of evidence.
use interviewer.Prelude.{◌≡◌, ◌⊎◌, refl, some, none, []}
use interviewer.Values.{str, list, dict, int, nil, cons, Fields, end, field, ok, err, pos, negsuc}
use interviewer.Artifacts.{AnswerArtifact, EvaluationArtifact}
use interviewer.Evaluation.{
  Texts, EvaluationAgentContext, evaluate_answer, overflow_error, evaluation_of, all_evidence,
  evidence_from_draft, draft_confidence,
}
use interviewer.Evaluation.Evidences.{IsSupported, TooLarge, evaluate_answer-IsGrounded}
use interviewer.Batch.{get_field}
use interviewer.Examples.{numbers, numbers-laws, letters, base, first_question}

instance abbrev python : Texts
python = record {
  str_of = λ v. elim v [ str s ↦ s | _ ↦ "value" ];
  float_of = λ z. elim z [ pos n ↦ some (numbers.of_ℕ n) | negsuc n ↦ none ];
}

abbrev given_answer : AnswerArtifact
given_answer = record {
  base = base;
  question_id = "q1";
  answer_id = "an1";
  text = "it yields values";
  normalized_text = "it yields values";
  source = "text";
  duration_seconds = none;
}

abbrev context : EvaluationAgentContext
context = record {
  current_question = some first_question;
  current_answer = some given_answer;
  reference_answer = "";
  expected_points = [];
  current_dimension = "python";
  relevant_evidence = [];
  rubric = "";
}

abbrev draft : Fields
draft = field "evidence" (list (cons (dict (field "claim" (str "knows yield") end)) nil)) end

evaluate_answer-IsGrounded_example :
    ((e : EvaluationArtifact) × (evaluate_answer (λ n. "e1") "a9" 6 context (some draft) ≡ ok e)
      × IsSupported first_question given_answer e)
    ⊎ ((evaluate_answer (λ n. "e1") "a9" 6 context (some draft) ≡ err overflow_error)
        × TooLarge (some draft))
evaluate_answer-IsGrounded_example =
    evaluate_answer-IsGrounded numbers-laws (λ n. "e1") "a9" 6 context (some draft) first_question
      given_answer refl refl

-- A confidence that no float holds; in this instance the negative integers are such.
abbrev large_draft : Fields
large_draft = field "confidence" (int (negsuc 0)) end

overflows : evaluate_answer (λ n. "e1") "a9" 6 context (some large_draft) ≡ err overflow_error
unfolding evaluate_answer evaluation_of all_evidence evidence_from_draft draft_confidence get_field
overflows = refl
