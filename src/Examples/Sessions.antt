-- ===== src/Examples/Sessions.antt =====
-- Runs of the state machine and of the runtime.
use interviewer.Prelude.{
  List, ◌≡◌, refl, sym, true, false, none, some, [], ◌∷◌, lookup, insert, String, str_eq,
  if◌then◌else◌,
}
use interviewer.Values.{Result, ok, err, runtime_error}
use interviewer.Stage.{
  InterviewStage, questioning, decision, follow_up, listening, reporting, finished,
  waiting_human_review, evaluating,
}
use interviewer.Artifacts.{question, interview_report, follow_up_decision}
use interviewer.Unicode.{normalize_follow_up_target}
use interviewer.Blackboard.{
  InterviewBlackboard, current_dimension_follow_up_budget, session_not_timeout,
  current_question_follow_up_round,
}
use interviewer.StateMachine.{TransitionGuard, allow_follow_up, decide, take_follow_up, transition}
use interviewer.StateMachine.Diagram.{◌⟶◌, transition-⟶, transition-failed, is_failed}
use interviewer.StateMachine.FollowUps.{IsGranted, IsSpent, decide-follow_up}
use interviewer.StateMachine.Later.{SessionEvent, published, moved, after_events, follow_up_once}
use interviewer.Runtime.{RuntimeStepResult, RuntimeState, InterviewRuntime, load_context, advance}
use interviewer.Runtime.Answering.{answer_artifact, receive_answer}
use interviewer.Runtime.Start.{start_session}
use interviewer.Runtime.HumanReview.{submit_human_review}
use interviewer.Runtime.Step.{run_step}
use interviewer.Runtime.Loop.{run_until_waiting_or_done}
use interviewer.Runtime.Answers.{receive_answer_refused, receive_answer_accepted, answered}
use interviewer.Runtime.Reviews.{reviewed, submit_human_review-lookup, load_context-start_session}
use interviewer.Runtime.Completion.{run_step_over, IsAtRest, run_until-IsAtRest}
use interviewer.Runtime.Step.{accept_artifact, is_schema_valid}
use interviewer.Runtime.Step.Reports.{IsReported, report_completes}
use interviewer.Skills.{SkillDefinition}
use interviewer.Examples.{
  number, view_builder, numbers, numbers-laws, letters, outside, board_in, dig_deeper,
  first_question, spoken, final_report,
}

abbrev guard : TransitionGuard
guard = record {
  follow_up_confidence_threshold = record { up = 600; down = 0 };
  session_question_limit = 8;
  max_follow_up_round_per_question = 2;
}

transition-⟶_example :
    decision
    ⟶ (transition guard 5 decision
        (board_in decision)
        (some (follow_up_decision (dig_deeper "yield-from")))).0
transition-⟶_example =
    transition-⟶ guard 5 decision (board_in decision)
      (some (follow_up_decision (dig_deeper "yield-from")))

transition-failed_example :
    is_failed (transition guard 5 reporting (board_in reporting) none).0 ≡ true
transition-failed_example = transition-failed guard 5 reporting (board_in reporting) none

abbrev dug : InterviewBlackboard
dug = take_follow_up (dig_deeper "yield-from") (board_in decision)

granted : decide guard 5 (dig_deeper "yield-from") (board_in decision) ≡ (follow_up, dug)
unfolding decide allow_follow_up current_dimension_follow_up_budget session_not_timeout
    current_question_follow_up_round lookup
granted = refl

decide-follow_up_example :
    IsGranted guard 5 (board_in decision) (dig_deeper "yield-from")
    × IsSpent (board_in decision) dug (dig_deeper "yield-from")
decide-follow_up_example =
    decide-follow_up guard 5 (dig_deeper "yield-from") (board_in decision) dug granted

normalized : normalize_follow_up_target "yield-from" ≡ "yieldfrom"
unfolding normalize_follow_up_target
normalized = refl

normalized_again :
    normalize_follow_up_target "yield--from " ≡ normalize_follow_up_target "yield-from"
unfolding normalize_follow_up_target
normalized_again = refl

-- The question of the follow-up is published, and the session goes on to be listened to.
abbrev next_events : List SessionEvent
next_events =
    published 6 (question first_question)
    ∷ moved guard 6 follow_up (some (question first_question))
    ∷ []

follow_up_once_example :
    allow_follow_up guard 9 (after_events next_events dug) (dig_deeper "yield--from ") ≡ false
follow_up_once_example =
    follow_up_once guard 5 9 (dig_deeper "yield-from") (dig_deeper "yield--from ")
      (board_in decision) dug next_events granted (sym normalized) normalized_again

abbrev runtime : InterviewRuntime
runtime = record {
  guard = guard;
  agent_registry = record { agents = []; stage_map = λ s. none };
  skill_registry = [];
  tool_policy = [];
  human_review_policy = record {
    min_evidence_count = 1;
    min_dimension_coverage = record { up = 300; down = 0 };
    min_report_confidence = record { up = 600; down = 0 };
    require_review_for_uncertainty = true;
  };
  context_builder = view_builder;
}

abbrev state_in : InterviewStage → RuntimeState
state_in stage = record {
  store = ("s1", board_in stage) ∷ [];
  bus = record { events = []; session_traces = [] };
  outside = 5;
}

stored : (stage : InterviewStage) → lookup (state_in stage).store "s1" ≡ some (board_in stage)
unfolding lookup
stored stage = refl

receive_answer_refused_example :
    ((receive_answer runtime "s1" spoken (state_in evaluating)).0 ≡ err runtime_error)
    × ((receive_answer runtime "s1" spoken (state_in evaluating)).1.store
        ≡ (state_in evaluating).store)
receive_answer_refused_example =
    receive_answer_refused runtime "s1" spoken (state_in evaluating) (board_in evaluating)
      (stored evaluating) refl

receive_answer_accepted_example :
    lookup (receive_answer runtime "s1" spoken (state_in listening)).1.store "s1" ≡ (
      if str_eq "s1" "s1"
      then some (answered 5 (answer_artifact spoken first_question) (board_in listening))
      else lookup (state_in listening).store "s1")
receive_answer_accepted_example =
    receive_answer_accepted runtime "s1" spoken (state_in listening) (board_in listening)
      first_question (stored listening) refl refl refl "s1"

run_step_over_example :
    ((run_step runtime "s1" "r1" (state_in finished)).1.store ≡ (state_in finished).store)
    × ((run_step runtime "s1" "r1" (state_in finished)).1.outside ≡ 5)
    × ((run_step runtime "s1" "r1" (state_in finished)).1.bus.events ≡ [])
run_step_over_example =
    run_step_over runtime "s1" "r1" (state_in finished) (board_in finished) (stored finished) refl

-- From `questioning` the loop needs one step to listen.
abbrev asked_state : RuntimeState
asked_state = (run_until_waiting_or_done runtime "s1" ("r1" ∷ "r2" ∷ []) (state_in questioning)).1

ends_listening :
    run_until_waiting_or_done runtime "s1" ("r1" ∷ "r2" ∷ []) (state_in questioning)
    ≡ (ok (board_in listening), asked_state)
unfolding run_until_waiting_or_done load_context lookup run_step insert advance transition
ends_listening = refl

run_until-IsAtRest_example : IsAtRest "s1" (board_in listening) asked_state
run_until-IsAtRest_example =
    run_until-IsAtRest runtime "s1" ("r1" ∷ "r2" ∷ []) (state_in questioning) asked_state
      (board_in listening) ends_listening

abbrev report_skill : SkillDefinition
report_skill = record {
  name = "write_report";
  description = "";
  agent = "ReportAgent";
  prompt = "";
  allowed_tools = [];
  output_schema = "InterviewReportArtifact";
  timeout = number 30;
  retry = 0;
  max_tokens = 1000;
  version = "1";
  execution_strategy = none;
  max_iterations = 1;
  max_tool_calls = 1;
  max_duplicate_calls = 1;
}

abbrev after_report : Result RuntimeStepResult × RuntimeState
after_report =
    accept_artifact runtime "s1" reporting report_skill (interview_report final_report)
      (board_in reporting) (state_in reporting)

report_is_valid : is_schema_valid (interview_report final_report) "InterviewReportArtifact" ≡ true
unfolding is_schema_valid
report_is_valid = refl

report_completes_example :
    ((r : RuntimeStepResult) × (after_report.0 ≡ ok r))
    × IsReported runtime "s1" final_report (board_in reporting) after_report.1
report_completes_example =
    report_completes numbers-laws runtime "s1" report_skill final_report (board_in reporting)
      (state_in reporting) refl report_is_valid

submit_human_review-lookup_example :
    ((submit_human_review "s1" true "lead" "solid" (state_in waiting_human_review)).0
      ≡ ok (reviewed true "lead" "solid" (board_in waiting_human_review)))
    × ((other : String)
        → lookup
            (submit_human_review "s1" true "lead" "solid" (state_in waiting_human_review)).1.store
            other
          ≡ (if str_eq "s1" other
              then some (reviewed true "lead" "solid" (board_in waiting_human_review))
              else lookup (state_in waiting_human_review).store other))
submit_human_review-lookup_example =
    submit_human_review-lookup "s1" true "lead" "solid" (state_in waiting_human_review)
      (board_in waiting_human_review) (stored waiting_human_review) refl

load_context-start_session_example :
    let r = start_session "s2" "t2" none none (some "c1") none (state_in listening) in
    (load_context "s2" r.1 ≡ r)
    × ((other : String)
        → str_eq "s2" other ≡ false
        → lookup r.1.store other ≡ lookup (state_in listening).store other)
load_context-start_session_example =
    load_context-start_session "s2" "t2" none none (some "c1") none (state_in listening)
