-- ===== src/Context.antt =====
-- The views of a blackboard that agents get (src/interview_agent_runtime/context/builder.py, models.py,
-- execution.py and compression.py). `_current_dimension` asks the plan for its next dimension, which
-- refreshes the plan in place, so a view comes with the blackboard that is left.
pub mod Building
pub mod Compression
pub mod Gaps
pub mod Views
use interviewer.Prelude.{
  ℕ, ◌-◌, ◌/◌, String, str_eq, Bool, true, false, not, Option, none, some, List, [], ◌∷◌, ltb,
  if◌then◌else◌, or_else, keep, length, map, take, last_n, is_some, Dict, lookup, add, sorted,
}
use interviewer.Floats.{Floats, Float}
use interviewer.Values.{Value, null, bool, float, str, Fields, end, field, Result, ok, err, ◌>>=◌}
use interviewer.Stage.{InterviewStage}
use interviewer.Plan
use interviewer.Plan.{InterviewDimension, InterviewPlan}
use interviewer.Capability.{CapabilityProfile}
use interviewer.Artifacts.{
  CandidateProfile, PositionProfile, QuestionArtifact, AnswerArtifact, Evidence, EvaluationArtifact,
  FollowUpDecisionArtifact,
}
use interviewer.Blackboard.{
  InterviewBlackboard, candidate, plan, with_plan, latest_answer, latest_evaluation,
  current_dimension_follow_up_budget,
}
use interviewer.Skills.{ExecutionStrategy}
use interviewer.Evaluation.{EvaluationAgentContext}
use interviewer.Evaluation.Points.{add_each}
use interviewer.Memory.{
  InterviewMemorySnapshot, from_blackboard, to_dict, evidence_before, text_length,
}
use interviewer.Checkpoint.Json.{texts_value, dict_value, number_value}
use interviewer.Checkpoint.Encode.{fields_of}

module _ ⦃F : Floats⦄ where
  pub record ContextBudget : Type 0 where
    pub max_recent_questions : ℕ
    pub max_recent_answers : ℕ
    pub max_evidence_items : ℕ
    pub max_context_tokens : ℕ

  pub record ExecutionContext : Type 0 where
    pub session_id : String
    pub current_stage : InterviewStage
    pub current_agent : String
    pub current_skill : String
    pub authorized_tools : List String
    pub token_budget : ℕ
    pub timeout_seconds : Float
    pub retry : ℕ
    pub session_allowed_tools : Option (List String)
    pub execution_strategy : ExecutionStrategy

  -- The fields of `AgentContext`, which every view has.
  pub record CommonContext : Type 0 where
    pub session_id : String
    pub agent_name : String
    pub skill_name : String
    pub stage : InterviewStage
    pub authorized_tools : List String
    pub token_budget : ℕ
    pub timeout_seconds : Float
    pub retry : ℕ

  pub record ProfileAgentContext : Type 0 where
    pub raw_resume : Fields
    pub raw_jd : Fields

  pub record PlannerAgentContext : Type 0 where
    pub candidate_profile : Option CandidateProfile
    pub position_profile : Option PositionProfile
    pub capability_profile : CapabilityProfile
    pub important_evidence : List Evidence
    pub current_plan : Option InterviewPlan

  pub record QuestionAgentContext : Type 0 where
    pub candidate_profile : Option CandidateProfile
    pub position_profile : Option PositionProfile
    pub current_dimension : Option InterviewDimension
    pub current_plan : Option InterviewPlan
    pub capability_profile : CapabilityProfile
    pub missing_or_unverified_skills : List String
    pub important_evidence : List Evidence
    pub recent_questions : List QuestionArtifact

  pub record FollowUpAgentContext : Type 0 where
    pub current_question : Option QuestionArtifact
    pub current_answer : Option AnswerArtifact
    pub current_evaluation : Option EvaluationArtifact
    pub missing_points : List String
    pub relevant_evidence : List Evidence
    pub current_dimension : String
    pub follow_up_history : List FollowUpDecisionArtifact
    pub capability_summary : Fields
    pub follow_up_budget : ℕ
    pub dimension_follow_up_budget : ℕ

  pub record ReportAgentContext : Type 0 where
    pub plan_summary : List Fields
    pub capability_profile : CapabilityProfile
    pub dimension_scores : Dict Float
    pub dimension_coverage : Dict Float
    pub key_evidence : List Evidence
    pub evaluation_summary : List Fields

  -- The classes of the views, each with its own fields beside the common ones.
  pub data AgentContext : Type 0 where
    profile_view : CommonContext → ProfileAgentContext → AgentContext
    planner_view : CommonContext → PlannerAgentContext → AgentContext
    question_view : CommonContext → QuestionAgentContext → AgentContext
    evaluation_view : CommonContext → EvaluationAgentContext → AgentContext
    follow_up_view : CommonContext → FollowUpAgentContext → AgentContext
    report_view : CommonContext → ReportAgentContext → AgentContext
    plain_view : CommonContext → AgentContext

  abbrev pub coverage : InterviewBlackboard → Dict Float
  coverage board = board.capability_profile.dimension_coverage

  module _ (budget : ContextBudget) where
    unfoldable pub important_evidence : InterviewBlackboard → List Evidence
    important_evidence board =
        take budget.max_evidence_items (sorted evidence_before board.evidence)

    unfoldable pub relevant_evidence : InterviewBlackboard → String → List Evidence
    relevant_evidence board dimension =
        last_n budget.max_evidence_items
          (keep (λ item. str_eq item.dimension dimension) board.evidence)

  -- The loop over the dimensions of the plan.
  unfoldable pub add_uncovered : Dict Float → List InterviewDimension → List String → List String
  add_uncovered covered [] gaps = gaps
  add_uncovered covered (d ∷ ds) gaps =
      add_uncovered covered ds (if is_some (lookup covered d.name) then gaps else add gaps d.name)

  abbrev pub dimensions_of : Option InterviewPlan → List InterviewDimension
  dimensions_of none = []
  dimensions_of (some p) = p.dimensions

  -- `_missing_or_unverified`
  unfoldable pub missing_or_unverified : InterviewBlackboard → List String
  missing_or_unverified board =
      add_uncovered (coverage board) (dimensions_of (plan board))
        (add_each board.capability_profile.weak_skills board.capability_profile.uncertain_skills)

  unfoldable pub capability_summary : ContextBudget → InterviewBlackboard → Fields
  capability_summary budget board = fields_of (
      ("verified_skills", texts_value board.capability_profile.verified_skills)
      ∷ ("weak_skills", texts_value board.capability_profile.weak_skills)
      ∷ ("uncertain_skills", texts_value board.capability_profile.uncertain_skills)
      ∷ ("dimension_coverage", dict_value float (coverage board))
      ∷ ("key_evidence", texts_value (map (λ item. item.claim) (important_evidence budget board)))
      ∷ ("unresolved_gaps", texts_value (missing_or_unverified board))
      ∷ [])

  unfoldable pub named_dimension : String → List InterviewDimension → Option InterviewDimension
  named_dimension name [] = none
  named_dimension name (d ∷ ds) = if str_eq d.name name then some d else named_dimension name ds

  -- `plan.next_dimension(coverage)` on the blackboard's plan.
  abbrev asked_plan :
      InterviewBlackboard → InterviewPlan → Option InterviewDimension × InterviewBlackboard
  asked_plan board p =
      let (d, p') = Plan.next_dimension p (coverage board) in (d, with_plan board p')

  abbrev found_or_asked :
      InterviewBlackboard
      → InterviewPlan
      → Option InterviewDimension
      → Option InterviewDimension × InterviewBlackboard
  found_or_asked board p (some d) = (some d, board)
  found_or_asked board p none = asked_plan board p

  abbrev dimension_in :
      InterviewBlackboard → Option InterviewPlan → Option InterviewDimension × InterviewBlackboard
  dimension_in board none = (none, board)
  dimension_in board (some p) =
      if str_eq board.current_dimension ""
      then asked_plan board p
      else found_or_asked board p (named_dimension board.current_dimension p.dimensions)

  -- `_current_dimension`
  unfoldable pub current_dimension :
      InterviewBlackboard → Option InterviewDimension × InterviewBlackboard
  current_dimension board = dimension_in board (plan board)

  abbrev dimension_summary : InterviewDimension → Fields
  dimension_summary d = fields_of (
      ("name", str d.name)
      ∷ ("weight", float d.weight)
      ∷ ("difficulty", str d.difficulty)
      ∷ ("coverage", float d.current_coverage)
      ∷ ("coverage_target", float d.coverage_target)
      ∷ ("completed", bool d.completed)
      ∷ [])

  unfoldable pub plan_summary : InterviewBlackboard → List Fields
  plan_summary board = map dimension_summary (dimensions_of (plan board))

  abbrev pub evaluation_item : EvaluationArtifact → Fields
  evaluation_item e = fields_of (
      ("question_id", str e.question_id)
      ∷ ("score", float e.overall_score)
      ∷ ("missing_points", texts_value e.missing_points)
      ∷ ("evidence_count", number_value (length e.evidence))
      ∷ [])

  unfoldable pub evaluation_summary : ContextBudget → InterviewBlackboard → List Fields
  evaluation_summary budget board =
      map evaluation_item (last_n budget.max_recent_answers board.evaluations)
