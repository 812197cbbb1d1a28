-- ===== src/Checkpoint/Session.antt =====
-- `_to_json` of artifacts and of a blackboard (src/interview_agent_runtime/checkpoint/stores.py): the
-- fields of the base class come first; a set is a list, a stage its value, a time is written by
-- `isoformat`.
use interviewer.Prelude.{◌≡◌, str_eq, false, ℕ, String, Option, some, List, [], ◌∷◌, ◌++◌}
use interviewer.Floats.{Floats}
use interviewer.Values.{Value, bool, float, str, Fields}
use interviewer.Stage.{
  InterviewStage, init, profile_analysis, interview_planning, question_preparing, questioning,
  listening, evaluating, decision, follow_up, next_question, next_dimension, reporting,
  waiting_human_review, finished, failed,
}
use interviewer.ToolRecords.{DurableToolExecutionRecord}
use interviewer.Artifacts.{
  ArtifactBase, CandidateProfileArtifact, InterviewPlanArtifact, QuestionArtifact, AnswerArtifact,
  EvaluationArtifact, FollowUpDecisionArtifact, InterviewReportArtifact,
}
use interviewer.Blackboard.{RuntimeMetadata, InterviewBlackboard}
use interviewer.Checkpoint.Json.{
  number_value, optional_value, list_value, texts_value, dict_value, any_value,
}
use interviewer.Checkpoint.Encode.{
  object, fields_of, position_fields, candidate_fields, plan_fields, evidence_fields,
  capability_fields, key_fields, result_fields, policy_fields,
}

-- `datetime.isoformat` and `datetime.fromisoformat`, whose ValueError is none.
pub record Times : Type 0 where
  pub isoformat : ℕ → String
  pub fromisoformat : String → Option ℕ

-- What is written is read back, and it is not the empty text.
pub record TimeLaws (T : Times) : Type 0 where
  pub round_trip : (t : ℕ) → T.fromisoformat (T.isoformat t) ≡ some t
  pub some_text : (t : ℕ) → str_eq (T.isoformat t) "" ≡ false

unfoldable pub stage_value : InterviewStage → String
stage_value init = "INIT"
stage_value profile_analysis = "PROFILE_ANALYSIS"
stage_value interview_planning = "INTERVIEW_PLANNING"
stage_value question_preparing = "QUESTION_PREPARING"
stage_value questioning = "QUESTIONING"
stage_value listening = "LISTENING"
stage_value evaluating = "EVALUATING"
stage_value decision = "DECISION"
stage_value follow_up = "FOLLOW_UP"
stage_value next_question = "NEXT_QUESTION"
stage_value next_dimension = "NEXT_DIMENSION"
stage_value reporting = "REPORTING"
stage_value waiting_human_review = "WAITING_HUMAN_REVIEW"
stage_value finished = "FINISHED"
stage_value failed = "FAILED"

module _ ⦃F : Floats⦄ ⦃T : Times⦄ where
  abbrev pub time_value : ℕ → Value
  time_value t = str (T.isoformat t)

  abbrev pub base_fields : ArtifactBase → List (String × Value)
  base_fields b =
      ("kind", str b.kind)
      ∷ ("owner", str b.owner)
      ∷ ("id", str b.id)
      ∷ ("created_at", time_value b.created_at)
      ∷ ("confidence", float b.confidence)
      ∷ ("metadata", dict_value any_value b.metadata)
      ∷ []

  unfoldable pub candidate_artifact_fields : CandidateProfileArtifact → Fields
  candidate_artifact_fields a = fields_of (
      base_fields a.base
      ++ (("candidate_profile", object candidate_fields a.candidate_profile)
          ∷ ("position_profile", optional_value (object position_fields) a.position_profile)
          ∷ ("resume_id", str a.resume_id)
          ∷ []))

  unfoldable pub plan_artifact_fields : InterviewPlanArtifact → Fields
  plan_artifact_fields a =
      fields_of (base_fields a.base ++ (("plan", object plan_fields a.plan) ∷ []))

  unfoldable pub question_fields : QuestionArtifact → Fields
  question_fields a = fields_of (
      base_fields a.base
      ++ (("question_id", str a.question_id)
          ∷ ("title", str a.title)
          ∷ ("text", str a.text)
          ∷ ("description", str a.description)
          ∷ ("dimension", str a.dimension)
          ∷ ("difficulty", str a.difficulty)
          ∷ ("question_type", str a.question_type)
          ∷ ("reference_answer", str a.reference_answer)
          ∷ ("source", str a.source)
          ∷ ("is_follow_up", bool a.is_follow_up)
          ∷ ("target_evidence", texts_value a.target_evidence)
          ∷ ("expected_points", texts_value a.expected_points)
          ∷ ("related_skills", texts_value a.related_skills)
          ∷ ("tags", texts_value a.tags)
          ∷ ("parent_question_id", optional_value str a.parent_question_id)
          ∷ []))

  unfoldable pub answer_fields : AnswerArtifact → Fields
  answer_fields a = fields_of (
      base_fields a.base
      ++ (("question_id", str a.question_id)
          ∷ ("answer_id", str a.answer_id)
          ∷ ("text", str a.text)
          ∷ ("normalized_text", str a.normalized_text)
          ∷ ("source", str a.source)
          ∷ ("duration_seconds", optional_value float a.duration_seconds)
          ∷ []))

  unfoldable pub evaluation_fields : EvaluationArtifact → Fields
  evaluation_fields a = fields_of (
      base_fields a.base
      ++ (("question_id", str a.question_id)
          ∷ ("answer_id", str a.answer_id)
          ∷ ("score", float a.score)
          ∷ ("overall_score", float a.overall_score)
          ∷ ("dimension_scores", dict_value float a.dimension_scores)
          ∷ ("strengths", texts_value a.strengths)
          ∷ ("evidence", list_value (object evidence_fields) a.evidence)
          ∷ ("missing_points", texts_value a.missing_points)
          ∷ []))

  unfoldable pub follow_up_fields : FollowUpDecisionArtifact → Fields
  follow_up_fields a = fields_of (
      base_fields a.base
      ++ (("question_id", str a.question_id)
          ∷ ("need_follow_up", bool a.need_follow_up)
          ∷ ("target", optional_value str a.target)
          ∷ ("normalized_target", str a.normalized_target)
          ∷ ("reason", optional_value str a.reason)
          ∷ ("missing_evidence", texts_value a.missing_evidence)
          ∷ []))

  unfoldable pub report_fields : InterviewReportArtifact → Fields
  report_fields a = fields_of (
      base_fields a.base
      ++ (("overall_score", float a.overall_score)
          ∷ ("role_match_score", float a.role_match_score)
          ∷ ("role_match", str a.role_match)
          ∷ ("dimension_scores", dict_value float a.dimension_scores)
          ∷ ("verified_strengths", texts_value a.verified_strengths)
          ∷ ("verified_skills", texts_value a.verified_skills)
          ∷ ("weaknesses", texts_value a.weaknesses)
          ∷ ("weak_skills", texts_value a.weak_skills)
          ∷ ("insufficient_evidence_areas", texts_value a.insufficient_evidence_areas)
          ∷ ("key_evidence", list_value (object evidence_fields) a.key_evidence)
          ∷ ("evidence", list_value (object evidence_fields) a.evidence)
          ∷ ("interview_summary", str a.interview_summary)
          ∷ ("hiring_recommendation", str a.hiring_recommendation)
          ∷ ("improvement_suggestions", texts_value a.improvement_suggestions)
          ∷ []))

  unfoldable pub durable_fields : DurableToolExecutionRecord → Fields
  durable_fields a = fields_of (
      ("invocation_key", object key_fields a.invocation_key)
      ∷ ("tool_name", str a.tool_name)
      ∷ ("status", str a.status)
      ∷ ("result", optional_value (object result_fields) a.result)
      ∷ ("result_reference", str a.result_reference)
      ∷ ("side_effect", bool a.side_effect)
      ∷ ("idempotency_key", optional_value str a.idempotency_key)
      ∷ ("completed_at", optional_value time_value a.completed_at)
      ∷ ("run_id", optional_value str a.run_id)
      ∷ ("tool_call_id", str a.tool_call_id)
      ∷ [])

  unfoldable pub metadata_fields : RuntimeMetadata → Fields
  metadata_fields a = fields_of (
      ("runtime_version", str a.runtime_version)
      ∷ ("started_at", time_value a.started_at)
      ∷ ("updated_at", time_value a.updated_at)
      ∷ ("trace_id", str a.trace_id)
      ∷ ("errors", texts_value a.errors)
      ∷ ("max_follow_up_round_per_question", number_value a.max_follow_up_round_per_question)
      ∷ ("session_timeout_seconds", number_value a.session_timeout_seconds)
      ∷ [])

  unfoldable pub board_fields : InterviewBlackboard → Fields
  board_fields a = fields_of (
      ("session_id", str a.session_id)
      ∷ ("session_inputs", dict_value any_value a.session_inputs)
      ∷ ("candidate_profile", optional_value (object candidate_artifact_fields) a.candidate_profile)
      ∷ ("position_profile", optional_value (object position_fields) a.position_profile)
      ∷ ("interview_plan", optional_value (object plan_artifact_fields) a.interview_plan)
      ∷ ("current_stage", str (stage_value a.current_stage))
      ∷ ("current_dimension", str a.current_dimension)
      ∷ ("current_question", optional_value (object question_fields) a.current_question)
      ∷ ("question_history", list_value (object question_fields) a.question_history)
      ∷ ("answers", list_value (object answer_fields) a.answers)
      ∷ ("evaluations", list_value (object evaluation_fields) a.evaluations)
      ∷ ("follow_up_decisions", list_value (object follow_up_fields) a.follow_up_decisions)
      ∷ ("report", optional_value (object report_fields) a.report)
      ∷ ("evidence", list_value (object evidence_fields) a.evidence)
      ∷ ("capability_profile", object capability_fields a.capability_profile)
      ∷ ("follow_up_budget", number_value a.follow_up_budget)
      ∷ ("question_budget", number_value a.question_budget)
      ∷ ("token_budget", number_value a.token_budget)
      ∷ ("session_allowed_tools", optional_value texts_value a.session_allowed_tools)
      ∷ ("asked_question_ids", texts_value a.asked_question_ids)
      ∷ ("followed_targets", texts_value a.followed_targets)
      ∷ ("question_follow_up_rounds", dict_value number_value a.question_follow_up_rounds)
      ∷ ("review_required", bool a.review_required)
      ∷ ("review_status", str a.review_status)
      ∷ ("review_reasons", texts_value a.review_reasons)
      ∷ ("review_reviewer", str a.review_reviewer)
      ∷ ("review_decision_reason", str a.review_decision_reason)
      ∷ ("durable_tool_records", dict_value (object durable_fields) a.durable_tool_records)
      ∷ ("runtime_metadata", object metadata_fields a.runtime_metadata)
      ∷ ("plan_policy", object policy_fields a.plan_policy)
      ∷ [])
