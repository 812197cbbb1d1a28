-- ===== src/Blackboard.antt =====
-- The state of one interview session (src/interview_agent_runtime/blackboard/board.py). A method
-- that mutates the blackboard returns the new one. Times are microseconds, given by the caller.
pub mod FollowUps
pub mod New
pub mod Publishing
use interviewer.Prelude.{
  ℕ, ◌+◌, ◌-◌, ◌*◌, String, str_eq, Bool, true, false, not, ◌&&◌, Option, none, some, List, [], ◌∷◌,
  ◌++◌, ltb, leb, if◌then◌else◌, or_else, keep, length, last?, Dict, lookup, insert, add,
}
use interviewer.Floats.{Floats, Float}
use interviewer.Values.{Value, Error, type_error, Result, ok, err}
use interviewer.Stage.{InterviewStage}
use interviewer.Plan.{InterviewDimension, InterviewPlan, mark_question_asked}
use interviewer.Policy.{InterviewPlanPolicy, update_plan, count_evidence}
use interviewer.Capability.{CapabilityProfile, update_dimension}
use interviewer.ToolRecords.{DurableToolExecutionRecord}
use interviewer.Artifacts.{
  AgentArtifact, candidate_profile, interview_plan, question, answer, evaluation,
  follow_up_decision, interview_report, other, CandidateProfile, CandidateProfileArtifact,
  PositionProfile, InterviewPlanArtifact, QuestionArtifact, AnswerArtifact, Evidence,
  EvaluationArtifact, FollowUpDecisionArtifact, InterviewReportArtifact,
}

-- `x or y` on an optional text: an empty text counts as none.
abbrev pub or_text : Option String → String → String
or_text none d = d
or_text (some s) d = if str_eq s "" then d else s

pub record RuntimeMetadata : Type 0 where
  pub runtime_version : String
  pub started_at : ℕ
  pub updated_at : ℕ
  pub trace_id : String
  pub errors : List String
  pub max_follow_up_round_per_question : ℕ
  pub session_timeout_seconds : ℕ

module _ ⦃F : Floats⦄ where
  pub record InterviewBlackboard : Type 0 where
    pub session_id : String
    pub session_inputs : Dict Value
    pub candidate_profile : Option CandidateProfileArtifact
    pub position_profile : Option PositionProfile
    pub interview_plan : Option InterviewPlanArtifact
    pub current_stage : InterviewStage
    pub current_dimension : String
    pub current_question : Option QuestionArtifact
    pub question_history : List QuestionArtifact
    pub answers : List AnswerArtifact
    pub evaluations : List EvaluationArtifact
    pub follow_up_decisions : List FollowUpDecisionArtifact
    pub report : Option InterviewReportArtifact
    pub evidence : List Evidence
    pub capability_profile : CapabilityProfile
    pub follow_up_budget : ℕ
    pub question_budget : ℕ
    pub token_budget : ℕ
    pub session_allowed_tools : Option (List String)
    pub asked_question_ids : List String
    pub followed_targets : List String
    pub question_follow_up_rounds : Dict ℕ
    pub review_required : Bool
    pub review_status : String
    pub review_reasons : List String
    pub review_reviewer : String
    pub review_decision_reason : String
    pub durable_tool_records : Dict DurableToolExecutionRecord
    pub runtime_metadata : RuntimeMetadata
    pub plan_policy : InterviewPlanPolicy

  abbrev pub plan_of : Option InterviewPlanArtifact → Option InterviewPlan
  plan_of none = none
  plan_of (some a) = some a.plan

  -- The property `plan`.
  abbrev pub plan : InterviewBlackboard → Option InterviewPlan
  plan board = plan_of board.interview_plan

  abbrev candidate_of : Option CandidateProfileArtifact → Option CandidateProfile
  candidate_of none = none
  candidate_of (some a) = some a.candidate_profile

  -- The property `candidate`.
  abbrev pub candidate : InterviewBlackboard → Option CandidateProfile
  candidate board = candidate_of board.candidate_profile

  abbrev replace_plan : Option InterviewPlanArtifact → InterviewPlan → Option InterviewPlanArtifact
  replace_plan none p = none
  replace_plan (some a) p = some (record a { plan = p })

  -- A method of the plan mutates the object that the blackboard holds.
  abbrev pub with_plan : InterviewBlackboard → InterviewPlan → InterviewBlackboard
  with_plan board p = record board { interview_plan = replace_plan board.interview_plan p }

  publish_candidate_profile : CandidateProfileArtifact → InterviewBlackboard → InterviewBlackboard
  publish_candidate_profile a board = record board {
    candidate_profile = some a;
    position_profile = elim a.position_profile [ none ↦ board.position_profile | some p ↦ some p ];
  }

  publish_interview_plan : InterviewPlanArtifact → InterviewBlackboard → InterviewBlackboard
  publish_interview_plan a board = record board {
    interview_plan = some a;
    question_budget = a.plan.total_question_budget;
    follow_up_budget = a.plan.total_follow_up_budget;
  }

  -- The follow-up branch of a published question.
  count_follow_up : QuestionArtifact → InterviewBlackboard → InterviewBlackboard
  count_follow_up a board =
      let parent_id = or_text a.parent_question_id a.question_id in
      record board {
        question_follow_up_rounds =
            insert board.question_follow_up_rounds parent_id
              (or_else (lookup board.question_follow_up_rounds parent_id) 0 + 1);
      }

  mark_plan : Option InterviewPlanArtifact → String → Option InterviewPlanArtifact
  mark_plan none dimension = none
  mark_plan (some a) dimension = some (record a { plan = mark_question_asked a.plan dimension })

  -- The other branch: `max(0, question_budget - 1)`.
  count_question : QuestionArtifact → InterviewBlackboard → InterviewBlackboard
  unfolding mark_plan
  count_question a board = record board {
    question_budget = board.question_budget - 1;
    interview_plan = mark_plan board.interview_plan a.dimension;
  }

  publish_question : QuestionArtifact → InterviewBlackboard → InterviewBlackboard
  unfolding count_follow_up count_question
  publish_question a board =
      let asked = record board {
        current_question = some a;
        question_history = board.question_history ++ (a ∷ []);
        current_dimension = a.dimension;
        asked_question_ids = add board.asked_question_ids a.question_id;
      } in
      if a.is_follow_up then count_follow_up a asked else count_question a asked

  -- The loop over `dimension_scores`.
  update_capability : EvaluationArtifact → Dict Float → CapabilityProfile → CapabilityProfile
  update_capability a [] profile = profile
  update_capability a ((dimension, score) ∷ scores) profile = update_capability a scores (
      update_dimension profile dimension score (count_evidence dimension a.evidence)
        a.missing_points)

  revise_plan :
      InterviewPlanPolicy
      → EvaluationArtifact
      → Dict Float
      → Option InterviewPlanArtifact
      → Option InterviewPlanArtifact
  revise_plan policy e coverage none = none
  revise_plan policy e coverage (some a) =
      some (record a { plan = (update_plan policy a.plan e coverage).1 })

  publish_evaluation : EvaluationArtifact → InterviewBlackboard → InterviewBlackboard
  unfolding update_capability revise_plan
  publish_evaluation a board =
      let profile = update_capability a a.dimension_scores board.capability_profile in
      record board {
        evaluations = board.evaluations ++ (a ∷ []);
        evidence = board.evidence ++ a.evidence;
        capability_profile = profile;
        interview_plan =
            revise_plan board.plan_policy a profile.dimension_coverage board.interview_plan;
      }

  publish_artifact : AgentArtifact → InterviewBlackboard → Result (Unit {0}) × InterviewBlackboard
  unfolding publish_candidate_profile publish_interview_plan publish_question publish_evaluation
  publish_artifact (candidate_profile a) board = (ok tt, publish_candidate_profile a board)
  publish_artifact (interview_plan a) board = (ok tt, publish_interview_plan a board)
  publish_artifact (question a) board = (ok tt, publish_question a board)
  publish_artifact (answer a) board = (ok tt, record board { answers = board.answers ++ (a ∷ []) })
  publish_artifact (evaluation a) board = (ok tt, publish_evaluation a board)
  publish_artifact (follow_up_decision a) board =
      (ok tt, record board { follow_up_decisions = board.follow_up_decisions ++ (a ∷ []) })
  publish_artifact (interview_report a) board = (ok tt, record board { report = some a })
  publish_artifact (other b) board = (err type_error, board)

  -- `updated_at` is set also where the artifact is refused.
  unfoldable pub publish :
      ℕ → AgentArtifact → InterviewBlackboard → Result (Unit {0}) × InterviewBlackboard
  unfolding publish_artifact
  publish now artifact board =
      publish_artifact artifact
        (record board { runtime_metadata = record board.runtime_metadata { updated_at = now } })

  follow_up_round_of : Dict ℕ → Option QuestionArtifact → ℕ
  follow_up_round_of rounds none = 0
  follow_up_round_of rounds (some q) =
      or_else (lookup rounds (or_text q.parent_question_id q.question_id)) 0

  unfoldable pub current_question_follow_up_round : InterviewBlackboard → ℕ
  unfolding follow_up_round_of
  current_question_follow_up_round board =
      follow_up_round_of board.question_follow_up_rounds board.current_question

  unfoldable pub budget_of : String → List InterviewDimension → ℕ
  budget_of name [] = 0
  budget_of name (d ∷ ds) = if str_eq d.name name then d.follow_up_budget else budget_of name ds

  budget_in : String → Option InterviewPlan → ℕ
  unfolding budget_of
  budget_in name none = 0
  budget_in name (some p) = if str_eq name "" then 0 else budget_of name p.dimensions

  unfoldable pub current_dimension_follow_up_budget : InterviewBlackboard → ℕ
  unfolding budget_in
  current_dimension_follow_up_budget board = budget_in board.current_dimension (plan board)

  -- The first dimension of that name that has budget left gives one.
  unfoldable pub consume : String → List InterviewDimension → List InterviewDimension
  consume name [] = []
  consume name (d ∷ ds) =
      if str_eq d.name name && ltb 0 d.follow_up_budget
      then record d { follow_up_budget = d.follow_up_budget - 1 } ∷ ds
      else d ∷ consume name ds

  consume_in : String → Option InterviewPlanArtifact → Option InterviewPlanArtifact
  unfolding consume
  consume_in name none = none
  consume_in name (some a) =
      some (record a { plan = record a.plan { dimensions = consume name a.plan.dimensions } })

  unfoldable pub consume_dimension_follow_up_budget : InterviewBlackboard → InterviewBlackboard
  unfolding consume_in
  consume_dimension_follow_up_budget board = record board {
    interview_plan = consume_in board.current_dimension board.interview_plan;
  }

  unfoldable pub session_not_timeout : ℕ → InterviewBlackboard → Bool
  session_not_timeout now board =
      leb now (
        board.runtime_metadata.started_at
        + board.runtime_metadata.session_timeout_seconds * 1000000)

  abbrev pub latest_answer : InterviewBlackboard → Option AnswerArtifact
  latest_answer board = last? board.answers

  abbrev pub latest_evaluation : InterviewBlackboard → Option EvaluationArtifact
  latest_evaluation board = last? board.evaluations

  abbrev pub latest_follow_up_decision : InterviewBlackboard → Option FollowUpDecisionArtifact
  latest_follow_up_decision board = last? board.follow_up_decisions
