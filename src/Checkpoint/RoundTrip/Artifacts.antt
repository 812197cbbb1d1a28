-- ===== src/Checkpoint/RoundTrip/Artifacts.antt =====
-- Artifacts that are written and read again.
use interviewer.Prelude.{ℕ, ◌≡◌, refl, String, Option, none, some, List}
use interviewer.Floats.{Floats}
use interviewer.Unicode.{Unicode}
use interviewer.Values.{ok}
use interviewer.Artifacts.{
  PositionProfile, Evidence, CandidateProfileArtifact, InterviewPlanArtifact, QuestionArtifact,
  AnswerArtifact, EvaluationArtifact, FollowUpDecisionArtifact, InterviewReportArtifact,
}
use interviewer.Batch.{get_field}
use interviewer.Checkpoint.Json.{
  stored, read_list, list_value, read_list-same, read_object, read_filled, optional_value,
}
use interviewer.Checkpoint.Encode.{object, position_fields, evidence_fields}
use interviewer.Checkpoint.Session.{
  Times, TimeLaws, candidate_artifact_fields, plan_artifact_fields, question_fields, answer_fields,
  evaluation_fields, follow_up_fields, report_fields,
}
use interviewer.Checkpoint.Profiles.{read_position}
use interviewer.Checkpoint.Stored.{
  read_evidence, copy_base, read_candidate_artifact, read_plan_artifact, read_question, read_answer,
  read_evaluation, read_follow_up, read_report,
}
use interviewer.Checkpoint.Restored.{
  restored_candidate, restored_plan, restored_question, restored_answer, restored_evaluation,
  restored_follow_up, restored_report,
}
use interviewer.Checkpoint.RoundTrip.{position-lem, candidate-lem, plan-lem}

module _ ⦃F : Floats⦄ where
  pub optional_position-lem :
      (o : Option PositionProfile)
      → read_filled read_position (optional_value (object position_fields) o) ≡ ok o
  unfolding position_fields
  optional_position-lem none = refl
  optional_position-lem (some p) = rw (position-lem p) refl

  evidence-lem : (e : Evidence) → read_evidence (evidence_fields e) ≡ ok e
  unfolding read_evidence evidence_fields get_field
  evidence-lem e = simp stored

  pub evidences-lem :
      (es : List Evidence)
      → read_list (read_object read_evidence) (list_value (object evidence_fields) es) ≡ ok es
  evidences-lem es =
      read_list-same (read_object read_evidence) (object evidence_fields) es evidence-lem

module _ ⦃F : Floats⦄ ⦃T : Times⦄ ⦃U : Unicode⦄ (laws : TimeLaws T) (fresh : String → String)
    (now : ℕ) where
  pub candidate_artifact-lem :
      (a : CandidateProfileArtifact)
      → read_candidate_artifact fresh now (candidate_artifact_fields a) ≡ ok (restored_candidate a)
  unfolding read_candidate_artifact candidate_artifact_fields copy_base get_field
  candidate_artifact-lem a =
      simp (candidate-lem, optional_position-lem, laws.round_trip, laws.some_text, stored)

  pub plan_artifact-lem :
      (a : InterviewPlanArtifact)
      → read_plan_artifact fresh now (plan_artifact_fields a) ≡ ok (restored_plan a)
  unfolding read_plan_artifact plan_artifact_fields copy_base get_field
  plan_artifact-lem a = simp (plan-lem, laws.round_trip, laws.some_text, stored)

  pub question-lem :
      (a : QuestionArtifact)
      → read_question fresh now (question_fields a) ≡ ok (restored_question a)
  unfolding read_question question_fields copy_base get_field
  question-lem a = simp (laws.round_trip, laws.some_text, stored)

  pub answer-lem :
      (a : AnswerArtifact) → read_answer fresh now (answer_fields a) ≡ ok (restored_answer a)
  unfolding read_answer answer_fields copy_base get_field
  answer-lem a = simp (laws.round_trip, laws.some_text, stored)

  pub evaluation-lem :
      (a : EvaluationArtifact)
      → read_evaluation fresh now (evaluation_fields a) ≡ ok (restored_evaluation a)
  unfolding read_evaluation evaluation_fields copy_base get_field
  evaluation-lem a = simp (evidences-lem, laws.round_trip, laws.some_text, stored)

  pub follow_up-lem :
      (a : FollowUpDecisionArtifact)
      → read_follow_up fresh now (follow_up_fields a) ≡ ok (restored_follow_up a)
  unfolding read_follow_up follow_up_fields copy_base get_field
  follow_up-lem a = simp (laws.round_trip, laws.some_text, stored)

  pub report-lem :
      (a : InterviewReportArtifact)
      → read_report fresh now (report_fields a) ≡ ok (restored_report a)
  unfolding read_report report_fields copy_base get_field
  report-lem a = simp (evidences-lem, laws.round_trip, laws.some_text, stored)
