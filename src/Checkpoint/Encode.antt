-- ===== src/Checkpoint/Encode.antt =====
-- `_to_json` of the parts of a blackboard that have no times
-- (src/interview_agent_runtime/checkpoint/stores.py): each class with its fields in their order.
use interviewer.Prelude.{String, List, [], ◌∷◌}
use interviewer.Floats.{Floats}
use interviewer.Values.{Value, bool, float, str, dict, Fields, end, field}
use interviewer.Plan.{InterviewDimension, InterviewPlan}
use interviewer.Policy.{InterviewPlanPolicy}
use interviewer.Capability.{CapabilityProfile}
use interviewer.ToolRecords.{ToolInvocationKey, ToolResult}
use interviewer.Artifacts.{
  ProjectExperience, EducationExperience, PositionProfile, CandidateProfile, Evidence,
}
use interviewer.Checkpoint.Json.{
  number_value, optional_value, list_value, texts_value, dict_value, any_value,
}

module _ ⦃F : Floats⦄ where
  abbrev pub object : {A : Type 0} → (A → Fields) → A → Value
  object f a = dict (f a)

  abbrev pub fields_of : List (String × Value) → Fields
  fields_of [] = end
  fields_of ((k, v) ∷ rest) = field k v (fields_of rest)

  unfoldable pub project_fields : ProjectExperience → Fields
  project_fields a = fields_of (
      ("name", str a.name)
      ∷ ("role", str a.role)
      ∷ ("description", str a.description)
      ∷ ("technologies", texts_value a.technologies)
      ∷ ("highlights", texts_value a.highlights)
      ∷ [])

  unfoldable pub education_fields : EducationExperience → Fields
  education_fields a = fields_of (
      ("school", str a.school)
      ∷ ("degree", str a.degree)
      ∷ ("major", str a.major)
      ∷ ("period", str a.period)
      ∷ [])

  unfoldable pub position_fields : PositionProfile → Fields
  position_fields a = fields_of (
      ("role_name", str a.role_name)
      ∷ ("required_skills", texts_value a.required_skills)
      ∷ ("preferred_skills", texts_value a.preferred_skills)
      ∷ ("responsibilities", texts_value a.responsibilities)
      ∷ ("competency_dimensions", texts_value a.competency_dimensions)
      ∷ ("seniority", optional_value str a.seniority)
      ∷ ("keywords", texts_value a.keywords)
      ∷ [])

  unfoldable pub candidate_fields : CandidateProfile → Fields
  candidate_fields a = fields_of (
      ("candidate_id", str a.candidate_id)
      ∷ ("target_role", optional_value str a.target_role)
      ∷ ("years_of_experience", optional_value float a.years_of_experience)
      ∷ ("skills", texts_value a.skills)
      ∷ ("project_experiences", list_value (object project_fields) a.project_experiences)
      ∷ ("education", list_value (object education_fields) a.education)
      ∷ ("strengths", texts_value a.strengths)
      ∷ ("possible_weaknesses", texts_value a.possible_weaknesses)
      ∷ ("potential_gaps", texts_value a.potential_gaps)
      ∷ ("resume_keywords", texts_value a.resume_keywords)
      ∷ [])

  unfoldable pub dimension_fields : InterviewDimension → Fields
  dimension_fields a = fields_of (
      ("name", str a.name)
      ∷ ("weight", float a.weight)
      ∷ ("target_level", str a.target_level)
      ∷ ("question_budget", number_value a.question_budget)
      ∷ ("follow_up_budget", number_value a.follow_up_budget)
      ∷ ("coverage_target", float a.coverage_target)
      ∷ ("difficulty", str a.difficulty)
      ∷ ("asked_questions", number_value a.asked_questions)
      ∷ ("current_coverage", float a.current_coverage)
      ∷ ("evidence_count", number_value a.evidence_count)
      ∷ ("completed", bool a.completed)
      ∷ [])

  unfoldable pub plan_fields : InterviewPlan → Fields
  plan_fields a = fields_of (
      ("dimensions", list_value (object dimension_fields) a.dimensions)
      ∷ ("total_question_budget", number_value a.total_question_budget)
      ∷ ("total_follow_up_budget", number_value a.total_follow_up_budget)
      ∷ ("estimated_duration_minutes", number_value a.estimated_duration_minutes)
      ∷ ("current_dimension_index", number_value a.current_dimension_index)
      ∷ [])

  unfoldable pub evidence_fields : Evidence → Fields
  evidence_fields a = fields_of (
      ("dimension", str a.dimension)
      ∷ ("claim", str a.claim)
      ∷ ("source_answer_id", str a.source_answer_id)
      ∷ ("quote_or_summary", str a.quote_or_summary)
      ∷ ("confidence", float a.confidence)
      ∷ ("evidence_id", str a.evidence_id)
      ∷ ("skill", optional_value str a.skill)
      ∷ ("source_question_id", str a.source_question_id)
      ∷ ("answer_excerpt", str a.answer_excerpt)
      ∷ ("evidence_type", str a.evidence_type)
      ∷ ("polarity", str a.polarity)
      ∷ [])

  unfoldable pub capability_fields : CapabilityProfile → Fields
  capability_fields a = fields_of (
      ("verified_skills", texts_value a.verified_skills)
      ∷ ("weak_skills", texts_value a.weak_skills)
      ∷ ("uncertain_skills", texts_value a.uncertain_skills)
      ∷ ("dimension_scores", dict_value float a.dimension_scores)
      ∷ ("dimension_coverage", dict_value float a.dimension_coverage)
      ∷ ("evidence_count", dict_value number_value a.evidence_count)
      ∷ [])

  unfoldable pub key_fields : ToolInvocationKey → Fields
  key_fields a = fields_of (
      ("tool_name", str a.tool_name)
      ∷ ("normalized_arguments", str a.normalized_arguments)
      ∷ ("resource_version", optional_value str a.resource_version)
      ∷ [])

  unfoldable pub result_fields : ToolResult → Fields
  result_fields a = fields_of (
      ("tool_call_id", str a.tool_call_id)
      ∷ ("tool_name", str a.tool_name)
      ∷ ("ok", bool a.ok)
      ∷ ("value", any_value a.value)
      ∷ ("error", optional_value str a.error)
      ∷ ("duration_ms", float a.duration_ms)
      ∷ ("status", str a.status)
      ∷ ("cache_hit", bool a.cache_hit)
      ∷ ("duplicate", bool a.duplicate)
      ∷ ("retryable", bool a.retryable)
      ∷ ("execution_mode", str a.execution_mode)
      ∷ ("resource_key", optional_value str a.resource_key)
      ∷ [])

  unfoldable pub policy_fields : InterviewPlanPolicy → Fields
  policy_fields a = fields_of (
      ("weak_score_threshold", float a.weak_score_threshold)
      ∷ ("high_score_threshold", float a.high_score_threshold)
      ∷ [])
