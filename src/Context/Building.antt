-- ===== src/Context/Building.antt =====
-- `AgentContextBuilder.build` (src/interview_agent_runtime/context/builder.py).
use interviewer.Prelude.{String, str_eq, Option, none, some, [], if◌then◌else◌, last_n, lookup}
use interviewer.Floats.{Floats}
use interviewer.Values.{Value, Fields, end, Result, ok, ◌>>=◌}
use interviewer.Blackboard.{
  InterviewBlackboard, candidate, plan, latest_answer, latest_evaluation,
  current_dimension_follow_up_budget,
}
use interviewer.Evaluation.{EvaluationAgentContext}
use interviewer.Context.{
  ContextBudget, ExecutionContext, CommonContext, ProfileAgentContext, PlannerAgentContext,
  QuestionAgentContext, FollowUpAgentContext, ReportAgentContext, AgentContext, profile_view,
  planner_view, question_view, evaluation_view, follow_up_view, report_view, plain_view, coverage,
  important_evidence, relevant_evidence, missing_or_unverified, capability_summary,
  current_dimension, plan_summary, evaluation_summary,
}

module _ ⦃F : Floats⦄ where
  -- `AgentContextBuilder`, with `dict` of a value.
  pub record AgentContextBuilder : Type 0 where
    pub budget : ContextBudget
    pub dict_of : Value → Result Fields

  abbrev pub common_of : String → InterviewBlackboard → ExecutionContext → CommonContext
  common_of agent_name board execution = record {
    session_id = board.session_id;
    agent_name = agent_name;
    skill_name = execution.current_skill;
    stage = board.current_stage;
    authorized_tools = execution.authorized_tools;
    token_budget = execution.token_budget;
    timeout_seconds = execution.timeout_seconds;
    retry = execution.retry;
  }

  -- `dict` of an input; the empty one where there is none.
  abbrev input_fields : (Value → Result Fields) → InterviewBlackboard → String → Result Fields
  input_fields dict_of board name = of_found (lookup board.session_inputs name)
    where
      of_found : Option Value → Result Fields
      of_found none = ok end
      of_found (some v) = dict_of v

  unfoldable pub profile_context :
      (Value → Result Fields) → InterviewBlackboard → Result ProfileAgentContext
  profile_context dict_of board = do
    resume ← input_fields dict_of board "resume"
    jd ← input_fields dict_of board "jd"
    ok (record { raw_resume = resume; raw_jd = jd })

  module _ (budget : ContextBudget) (board : InterviewBlackboard) where
    unfoldable pub planner_context : PlannerAgentContext
    planner_context = record {
      candidate_profile = candidate board;
      position_profile = board.position_profile;
      capability_profile = board.capability_profile;
      important_evidence = important_evidence budget board;
      current_plan = plan board;
    }

    unfoldable pub evaluator_context : EvaluationAgentContext
    evaluator_context = record {
      current_question = board.current_question;
      current_answer = latest_answer board;
      reference_answer = elim board.current_question [ none ↦ "" | some q ↦ q.reference_answer ];
      expected_points = elim board.current_question [ none ↦ [] | some q ↦ q.expected_points ];
      current_dimension = board.current_dimension;
      relevant_evidence = relevant_evidence budget board board.current_dimension;
      rubric = "";
    }

    unfoldable pub follow_up_context : FollowUpAgentContext
    follow_up_context = record {
      current_question = board.current_question;
      current_answer = latest_answer board;
      current_evaluation = latest_evaluation board;
      missing_points = elim (latest_evaluation board) [ none ↦ [] | some e ↦ e.missing_points ];
      relevant_evidence = relevant_evidence budget board board.current_dimension;
      current_dimension = board.current_dimension;
      follow_up_history = last_n budget.max_recent_questions board.follow_up_decisions;
      capability_summary = capability_summary budget board;
      follow_up_budget = board.follow_up_budget;
      dimension_follow_up_budget = current_dimension_follow_up_budget board;
    }

    unfoldable pub report_context : ReportAgentContext
    report_context = record {
      plan_summary = plan_summary board;
      capability_profile = board.capability_profile;
      dimension_scores = board.capability_profile.dimension_scores;
      dimension_coverage = coverage board;
      key_evidence = important_evidence budget board;
      evaluation_summary = evaluation_summary budget board;
    }

    -- The dimension is asked for first, so the plan is seen as it is after that.
    unfoldable pub question_context : QuestionAgentContext × InterviewBlackboard
    question_context =
        let (dimension, left) = current_dimension board in
        (
          record {
            candidate_profile = candidate left;
            position_profile = left.position_profile;
            current_dimension = dimension;
            current_plan = plan left;
            capability_profile = left.capability_profile;
            missing_or_unverified_skills = missing_or_unverified left;
            important_evidence = important_evidence budget left;
            recent_questions = last_n budget.max_recent_questions left.question_history;
          },
          left,
        )

  -- `AgentContextBuilder.build`
  unfoldable pub build :
      (Value → Result Fields)
      → ContextBudget
      → String
      → InterviewBlackboard
      → ExecutionContext
      → Result AgentContext × InterviewBlackboard
  build dict_of budget agent_name board execution =
      let common = common_of agent_name board execution in
      if str_eq agent_name "ProfileAgent"
      then (profile_context dict_of board >>= λ own. ok (profile_view common own), board)
      else if str_eq agent_name "PlannerAgent"
      then (ok (planner_view common (planner_context budget board)), board)
      else if str_eq agent_name "QuestionAgent"
      then (let (own, left) = question_context budget board in
          (ok (question_view common own), left))
      else if str_eq agent_name "EvaluatorAgent"
      then (ok (evaluation_view common (evaluator_context budget board)), board)
      else if str_eq agent_name "FollowUpAgent"
      then (ok (follow_up_view common (follow_up_context budget board)), board)
      else if str_eq agent_name "ReportAgent"
      then (ok (report_view common (report_context budget board)), board)
      else (ok (plain_view common), board)
