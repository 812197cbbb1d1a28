-- ===== src/Examples/Contexts.antt =====
-- Views of a session for its agents.
use interviewer.Prelude.{◌≡◌, ◌||◌, none, [], ◌∷◌, String, arith, contains}
use interviewer.Stage.{questioning}
use interviewer.Artifacts.{Evidence}
use interviewer.Blackboard.{InterviewBlackboard, plan}
use interviewer.Skills.{deterministic}
use interviewer.Context.{
  ContextBudget, ExecutionContext, coverage, dimensions_of, missing_or_unverified,
}
use interviewer.Context.Building.{build}
use interviewer.Context.Gaps.{is_uncovered, contains-missing_or_unverified}
use interviewer.Context.Views.{IsFitting, build-IsFitting}
use interviewer.Examples.{numbers, letters, board_in, number, only_dicts}

abbrev claim_of : String → String → Evidence
claim_of claim polarity = record {
  dimension = "python";
  claim = claim;
  source_answer_id = "an1";
  quote_or_summary = claim;
  confidence = number 1;
  evidence_id = claim;
  skill = none;
  source_question_id = "q1";
  answer_excerpt = claim;
  evidence_type = polarity;
  polarity = polarity;
}

abbrev shown : InterviewBlackboard
shown = record (board_in questioning) {
  current_dimension = "";
  evidence = claim_of "vague" "negative" ∷ claim_of "knows yield" "positive" ∷ [];
}

abbrev narrow : ContextBudget
narrow = record {
  max_recent_questions = 1;
  max_recent_answers = 1;
  max_evidence_items = 1;
  max_context_tokens = 2500;
}

abbrev execution : ExecutionContext
execution = record {
  session_id = "s1";
  current_stage = questioning;
  current_agent = "QuestionAgent";
  current_skill = "generate_question";
  authorized_tools = [];
  token_budget = 1000;
  timeout_seconds = number 30;
  retry = 1;
  session_allowed_tools = none;
  execution_strategy = deterministic;
}

build-IsFitting_example :
    IsFitting narrow shown (build only_dicts narrow "QuestionAgent" shown execution)
build-IsFitting_example =
    build-IsFitting only_dicts narrow "QuestionAgent" shown execution (omega arith) (omega arith)
      (omega arith)

contains-missing_or_unverified_example : contains (missing_or_unverified shown) "design" ≡ (
    contains [] "design"
    || contains [] "design"
    || is_uncovered (coverage shown) (dimensions_of (plan shown)) "design")
contains-missing_or_unverified_example = contains-missing_or_unverified shown "design"
