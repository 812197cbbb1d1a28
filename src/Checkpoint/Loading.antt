-- ===== src/Checkpoint/Loading.antt =====
-- `_blackboard_from_json` (src/interview_agent_runtime/checkpoint/stores.py). The blackboard is filled
-- in the order of the source's statements.
use interviewer.Prelude.{ℕ, String, false, Option, none, some, List, [], ◌∷◌}
use interviewer.Floats.{Floats}
use interviewer.Unicode.{Unicode}
use interviewer.Values.{Fields, end, Result, ok, ◌>>=◌}
use interviewer.Blackboard.{InterviewBlackboard}
use interviewer.Blackboard.New.{new_board}
use interviewer.Evaluation.Points.{dedupe}
use interviewer.Checkpoint.Json.{
  Reader, read_any, read_text, read_number, read_optional, read_list, read_texts, read_dict,
  read_object, read_filled, get_or, get_or_read, get,
}
use interviewer.Checkpoint.Profiles.{read_position, read_capability}
use interviewer.Checkpoint.Session.{Times}
use interviewer.Checkpoint.Stored.{
  read_evidence, read_candidate_artifact, read_plan_artifact, read_question, read_answer,
  read_evaluation, read_follow_up, read_report,
}
use interviewer.Checkpoint.Records.{read_truth, stage_named, read_durable, read_metadata}

module _ ⦃F : Floats⦄ where
  -- `set(items)`
  abbrev pub read_set : Reader (List String)
  read_set v = read_texts v >>= λ xs. ok (dedupe xs)

  module _ ⦃T : Times⦄ where
    abbrev pub present : {A : Type 0} → List (Option A) → List A
    present [] = []
    present (none ∷ xs) = present xs
    present (some a ∷ xs) = a ∷ present xs

    -- `[read(item) for item in items if item]`
    abbrev pub read_present : {A : Type 0} → (Fields → Result A) → Reader (List A)
    read_present r v = read_list (λ item. read_filled r item) v >>= λ xs. ok (present xs)

    module _ ⦃U : Unicode⦄ (fresh : String → String) (now : ℕ) where
      abbrev Filler : Type 0
      Filler = Fields → InterviewBlackboard → Result InterviewBlackboard

      unfoldable pub fill_profiles : Filler
      fill_profiles json board = do
        session_inputs ← get_or (read_dict read_any) json "session_inputs" []
        stage ← get_or read_text json "current_stage" "INIT"
        current_stage ← stage_named stage
        current_dimension ← get_or read_text json "current_dimension" ""
        position_profile ← get_or (λ v. read_filled read_position v) json "position_profile" none
        candidate_profile ←
            get_or (λ v. read_filled (read_candidate_artifact fresh now) v) json "candidate_profile"
              none
        interview_plan ←
            get_or (λ v. read_filled (read_plan_artifact fresh now) v) json "interview_plan" none
        ok (record board {
          session_inputs = session_inputs;
          current_stage = current_stage;
          current_dimension = current_dimension;
          position_profile = position_profile;
          candidate_profile = candidate_profile;
          interview_plan = interview_plan;
        })

      unfoldable pub fill_artifacts : Filler
      fill_artifacts json board = do
        current_question ←
            get_or (λ v. read_filled (read_question fresh now) v) json "current_question" none
        question_history ←
            get_or (λ v. read_present (read_question fresh now) v) json "question_history" []
        answers ← get_or (read_list (read_object (read_answer fresh now))) json "answers" []
        evaluations ←
            get_or (read_list (read_object (read_evaluation fresh now))) json "evaluations" []
        follow_up_decisions ←
            get_or (read_list (read_object (read_follow_up fresh now))) json "follow_up_decisions"
              []
        report ← get_or (λ v. read_filled (read_report fresh now) v) json "report" none
        evidence ← get_or (read_list (read_object read_evidence)) json "evidence" []
        ok (record board {
          current_question = current_question;
          question_history = question_history;
          answers = answers;
          evaluations = evaluations;
          follow_up_decisions = follow_up_decisions;
          report = report;
          evidence = evidence;
        })

      unfoldable pub fill_budgets : Filler
      fill_budgets json board = do
        capability_profile ←
            get_or_read (read_object read_capability) json "capability_profile"
              (read_capability end)
        follow_up_budget ← get_or read_number json "follow_up_budget" 0
        question_budget ← get_or read_number json "question_budget" 0
        token_budget ← get_or read_number json "token_budget" 0
        session_allowed_tools ←
            get_or (λ v. read_optional read_set v) json "session_allowed_tools" none
        asked_question_ids ← get_or (λ v. read_set v) json "asked_question_ids" []
        followed_targets ← get_or (λ v. read_set v) json "followed_targets" []
        question_follow_up_rounds ←
            get_or (read_dict read_number) json "question_follow_up_rounds" []
        ok (record board {
          capability_profile = capability_profile;
          follow_up_budget = follow_up_budget;
          question_budget = question_budget;
          token_budget = token_budget;
          session_allowed_tools = session_allowed_tools;
          asked_question_ids = asked_question_ids;
          followed_targets = followed_targets;
          question_follow_up_rounds = question_follow_up_rounds;
        })

      unfoldable pub fill_review : Filler
      fill_review json board = do
        review_required ← get_or read_truth json "review_required" false
        review_status ← get_or read_text json "review_status" "not_required"
        review_reasons ← get_or read_texts json "review_reasons" []
        review_reviewer ← get_or read_text json "review_reviewer" ""
        review_decision_reason ← get_or read_text json "review_decision_reason" ""
        durable_tool_records ←
            get_or (read_dict (read_object read_durable)) json "durable_tool_records" []
        runtime_metadata ←
            get_or_read (read_object (read_metadata now)) json "runtime_metadata"
              (read_metadata now end)
        ok (record board {
          review_required = review_required;
          review_status = review_status;
          review_reasons = review_reasons;
          review_reviewer = review_reviewer;
          review_decision_reason = review_decision_reason;
          durable_tool_records = durable_tool_records;
          runtime_metadata = runtime_metadata;
        })

      -- `_blackboard_from_json`
      unfoldable pub board_from_json : Fields → Result InterviewBlackboard
      board_from_json json = do
        session_id ← get read_text json "session_id"
        profiles ← fill_profiles json (new_board session_id "" now)
        artifacts ← fill_artifacts json profiles
        budgets ← fill_budgets json artifacts
        fill_review json budgets
