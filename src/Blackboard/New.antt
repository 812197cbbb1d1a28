-- ===== src/Blackboard/New.antt =====
-- A new blackboard (src/interview_agent_runtime/blackboard/board.py).
use interviewer.Prelude.{ℕ, String, false, none, []}
use interviewer.Floats.{Floats}
use interviewer.Stage.{init}
use interviewer.Blackboard.{InterviewBlackboard}

module _ ⦃F : Floats⦄ where
  -- `InterviewBlackboard(session_id=…)`: the defaults of the dataclasses.
  abbrev pub new_board : String → String → ℕ → InterviewBlackboard
  new_board session trace now = record {
    session_id = session;
    session_inputs = [];
    candidate_profile = none;
    position_profile = none;
    interview_plan = none;
    current_stage = init;
    current_dimension = "";
    current_question = none;
    question_history = [];
    answers = [];
    evaluations = [];
    follow_up_decisions = [];
    report = none;
    evidence = [];
    capability_profile = record {
      verified_skills = [];
      weak_skills = [];
      uncertain_skills = [];
      dimension_scores = [];
      dimension_coverage = [];
      evidence_count = [];
    };
    follow_up_budget = 0;
    question_budget = 0;
    token_budget = 0;
    session_allowed_tools = none;
    asked_question_ids = [];
    followed_targets = [];
    question_follow_up_rounds = [];
    review_required = false;
    review_status = "not_required";
    review_reasons = [];
    review_reviewer = "";
    review_decision_reason = "";
    durable_tool_records = [];
    runtime_metadata = record {
      runtime_version = "0.2.0";
      started_at = now;
      updated_at = now;
      trace_id = trace;
      errors = [];
      max_follow_up_round_per_question = 2;
      session_timeout_seconds = 1800;
    };
    plan_policy = record { weak_score_threshold = F.of_ℕ 65; high_score_threshold = F.of_ℕ 82 };
  }
