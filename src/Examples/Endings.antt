-- ===== src/Examples/Endings.antt =====
-- A run of the runtime's loop with an agent of its own.
use interviewer.Prelude.{◌≡◌, refl, ◌+◌, arith, true, none, some, List, [], ◌∷◌, lookup, String}
use interviewer.Values.{ok}
use interviewer.Stage.{evaluating}
use interviewer.Artifacts.{evaluation}
use interviewer.Blackboard.{InterviewBlackboard}
use interviewer.Skills.{SkillDefinition, deterministic}
use interviewer.Runtime.{RuntimeState, InterviewRuntime, Agent, resolve_agent}
use interviewer.Runtime.Progress.{KeepsSession}
use interviewer.Runtime.Loop.{run_until_waiting_or_done}
use interviewer.Runtime.Termination.{Ends, run_until-Ends}
use interviewer.Examples.{
  view_builder, numbers, letters, outside, board_in, strong_evaluation, number,
}

-- It takes a second, in which a tick passes outside.
abbrev evaluator : Agent
evaluator = record {
  name = "EvaluatorAgent";
  stages = λ stage. true;
  execution_strategy = deterministic;
  required_skill = λ board. "evaluate";
  execute_run =
      λ run s. (number 1, ok (evaluation strong_evaluation), record s { outside = s.outside + 1 });
}

abbrev evaluate_skill : SkillDefinition
evaluate_skill = record {
  name = "evaluate";
  description = "";
  agent = "EvaluatorAgent";
  prompt = "";
  allowed_tools = [];
  output_schema = "EvaluationArtifact";
  timeout = number 30;
  retry = 1;
  max_tokens = 1000;
  version = "1";
  execution_strategy = none;
  max_iterations = 1;
  max_tool_calls = 1;
  max_duplicate_calls = 1;
}

abbrev runtime : InterviewRuntime
runtime = record {
  guard = record {
    follow_up_confidence_threshold = record { up = 600; down = 0 };
    session_question_limit = 8;
    max_follow_up_round_per_question = 2;
  };
  agent_registry = record {
    agents = ("EvaluatorAgent", evaluator) ∷ [];
    stage_map = λ stage. some "EvaluatorAgent";
  };
  skill_registry = ("evaluate", evaluate_skill) ∷ [];
  tool_policy = [];
  human_review_policy = record {
    min_evidence_count = 1;
    min_dimension_coverage = record { up = 300; down = 0 };
    min_report_confidence = record { up = 600; down = 0 };
    require_review_for_uncertainty = true;
  };
  context_builder = view_builder;
}

abbrev start : RuntimeState
start = record {
  store = ("s1", board_in evaluating) ∷ [];
  bus = record { events = []; session_traces = [] };
  outside = 5;
}

runtime-KeepsSession : KeepsSession runtime "s1"
unfolding resolve_agent lookup
runtime-KeepsSession stage agent resolved run s =
    let same : evaluator ≡ agent = cc in rw (← same) refl

start-named :
    (board : InterviewBlackboard) → lookup start.store "s1" ≡ some board → board.session_id ≡ "s1"
unfolding lookup
start-named board h = let same : board_in evaluating ≡ board = cc in rw (← same) refl

abbrev six_runs : List String
six_runs = "r1" ∷ "r2" ∷ "r3" ∷ "r4" ∷ "r5" ∷ "r6" ∷ []

run_until-Ends_example :
    Ends runtime "s1" six_runs start (run_until_waiting_or_done runtime "s1" six_runs start)
run_until-Ends_example =
    run_until-Ends runtime "s1" six_runs start runtime-KeepsSession start-named (omega arith)
