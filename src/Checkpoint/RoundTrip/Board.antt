-- ===== src/Checkpoint/RoundTrip/Board.antt =====
-- A blackboard that is written and read again.
use interviewer.Prelude.{ℕ, ◌≡◌, refl, String, Option, none, some, List, [], ◌∷◌, Dict}
use interviewer.Floats.{Floats}
use interviewer.Unicode.{Unicode}
use interviewer.Values.{str, ok}
use interviewer.ToolRecords.{DurableToolExecutionRecord}
use interviewer.Artifacts.{
  CandidateProfileArtifact, InterviewPlanArtifact, QuestionArtifact, AnswerArtifact,
  EvaluationArtifact, FollowUpDecisionArtifact, InterviewReportArtifact,
}
use interviewer.Blackboard.{InterviewBlackboard}
use interviewer.Batch.{get_field}
use interviewer.Evaluation.Points.{dedupe}
use interviewer.Checkpoint.Json.{
  stored, read_list, list_value, read_list-list_value, read_dict, dict_value, read_dict-dict_value,
  read_object, read_filled, read_filled-lem, optional_value, map_option, map_list, texts_value,
  read_optional, read_texts-texts_value,
}
use interviewer.Checkpoint.Encode.{object}
use interviewer.Checkpoint.Session.{
  Times, TimeLaws, candidate_artifact_fields, plan_artifact_fields, question_fields, answer_fields,
  evaluation_fields, follow_up_fields, report_fields, durable_fields, board_fields,
}
use interviewer.Checkpoint.Stored.{
  read_candidate_artifact, read_plan_artifact, read_question, read_answer, read_evaluation,
  read_follow_up, read_report,
}
use interviewer.Checkpoint.Records.{read_durable}
use interviewer.Checkpoint.Loading.{
  read_set, read_present, present, fill_profiles, fill_artifacts, fill_budgets, fill_review,
  board_from_json,
}
use interviewer.Checkpoint.Restored.{
  restored_candidate, restored_plan, restored_question, restored_answer, restored_evaluation,
  restored_follow_up, restored_report, restored,
}
use interviewer.Checkpoint.RoundTrip.{capability-lem}
use interviewer.Checkpoint.RoundTrip.Artifacts.{
  optional_position-lem, evidences-lem, candidate_artifact-lem, plan_artifact-lem, question-lem,
  answer-lem, evaluation-lem, follow_up-lem, report-lem,
}
use interviewer.Checkpoint.RoundTrip.Records.{stage-lem, durable-lem, metadata-lem}

module _ ⦃F : Floats⦄ where
  optional_set-lem :
      (o : Option (List String))
      → read_optional read_set (optional_value texts_value o) ≡ ok (map_option dedupe o)
  unfolding list_value
  optional_set-lem none = refl
  optional_set-lem (some xs) = rw (read_texts-texts_value xs) refl

module _ ⦃F : Floats⦄ ⦃T : Times⦄ (laws : TimeLaws T) where
  module _ ⦃U : Unicode⦄ (fresh : String → String) (now : ℕ) where
    optional_candidate-lem :
        (o : Option CandidateProfileArtifact)
        → read_filled
            (read_candidate_artifact fresh now)
            (optional_value (object candidate_artifact_fields) o)
          ≡ ok (map_option restored_candidate o)
    unfolding candidate_artifact_fields
    optional_candidate-lem o =
        read_filled-lem _ candidate_artifact_fields restored_candidate o
          (candidate_artifact-lem laws fresh now) (λ a. refl)

    optional_plan-lem :
        (o : Option InterviewPlanArtifact)
        → read_filled
            (read_plan_artifact fresh now)
            (optional_value (object plan_artifact_fields) o)
          ≡ ok (map_option restored_plan o)
    unfolding plan_artifact_fields
    optional_plan-lem o =
        read_filled-lem _ plan_artifact_fields restored_plan o (plan_artifact-lem laws fresh now)
          (λ a. refl)

    optional_question-lem :
        (o : Option QuestionArtifact)
        → read_filled (read_question fresh now) (optional_value (object question_fields) o)
          ≡ ok (map_option restored_question o)
    unfolding question_fields
    optional_question-lem o =
        read_filled-lem _ question_fields restored_question o (question-lem laws fresh now)
          (λ a. refl)

    optional_report-lem :
        (o : Option InterviewReportArtifact)
        → read_filled (read_report fresh now) (optional_value (object report_fields) o)
          ≡ ok (map_option restored_report o)
    unfolding report_fields
    optional_report-lem o =
        read_filled-lem _ report_fields restored_report o (report-lem laws fresh now) (λ a. refl)

    present-map_list :
        (qs : List QuestionArtifact)
        → present (map_list (λ q. some (restored_question q)) qs) ≡ map_list restored_question qs
    present-map_list [] = refl
    present-map_list (q ∷ qs) = rw (present-map_list qs) refl

    questions-lem :
        (qs : List QuestionArtifact)
        → read_present (read_question fresh now) (list_value (object question_fields) qs)
          ≡ ok (map_list restored_question qs)
    questions-lem qs =
        rw
          (
            read_list-list_value (λ item. read_filled (read_question fresh now) item)
                (object question_fields) (λ q. some (restored_question q)) qs
                (λ q. optional_question-lem (some q)),
            present-map_list qs,
          )
          refl

    answers-lem :
        (xs : List AnswerArtifact)
        → read_list (read_object (read_answer fresh now)) (list_value (object answer_fields) xs)
          ≡ ok (map_list restored_answer xs)
    answers-lem xs = read_list-list_value _ _ restored_answer xs (answer-lem laws fresh now)

    evaluations-lem :
        (xs : List EvaluationArtifact)
        → read_list
            (read_object (read_evaluation fresh now))
            (list_value (object evaluation_fields) xs)
          ≡ ok (map_list restored_evaluation xs)
    evaluations-lem xs =
        read_list-list_value _ _ restored_evaluation xs (evaluation-lem laws fresh now)

    follow_ups-lem :
        (xs : List FollowUpDecisionArtifact)
        → read_list
            (read_object (read_follow_up fresh now))
            (list_value (object follow_up_fields) xs)
          ≡ ok (map_list restored_follow_up xs)
    follow_ups-lem xs =
        read_list-list_value _ _ restored_follow_up xs (follow_up-lem laws fresh now)

    durables-lem :
        (d : Dict DurableToolExecutionRecord)
        → read_dict (read_object read_durable) (dict_value (object durable_fields) d) ≡ ok d
    durables-lem d = read_dict-dict_value _ _ d (durable-lem laws)

    fill_profiles-lem :
        (b c : InterviewBlackboard)
        → fill_profiles fresh now (board_fields b) c
          ≡ ok (record c {
            session_inputs = b.session_inputs;
            current_stage = b.current_stage;
            current_dimension = b.current_dimension;
            position_profile = b.position_profile;
            candidate_profile = (restored b).candidate_profile;
            interview_plan = (restored b).interview_plan;
          })
    unfolding fill_profiles board_fields get_field
    fill_profiles-lem b c =
        simp (stage-lem, optional_position-lem, optional_candidate-lem, optional_plan-lem, stored)

    fill_artifacts-lem :
        (b c : InterviewBlackboard)
        → fill_artifacts fresh now (board_fields b) c
          ≡ ok (record c {
            current_question = (restored b).current_question;
            question_history = (restored b).question_history;
            answers = (restored b).answers;
            evaluations = (restored b).evaluations;
            follow_up_decisions = (restored b).follow_up_decisions;
            report = (restored b).report;
            evidence = b.evidence;
          })
    unfolding fill_artifacts board_fields get_field
    fill_artifacts-lem b c = simp (
      optional_question-lem, questions-lem, answers-lem, evaluations-lem, follow_ups-lem,
      optional_report-lem, evidences-lem,
    )

    fill_budgets-lem :
        (b c : InterviewBlackboard)
        → fill_budgets fresh now (board_fields b) c
          ≡ ok (record c {
            capability_profile = b.capability_profile;
            follow_up_budget = b.follow_up_budget;
            question_budget = b.question_budget;
            token_budget = b.token_budget;
            session_allowed_tools = (restored b).session_allowed_tools;
            asked_question_ids = (restored b).asked_question_ids;
            followed_targets = (restored b).followed_targets;
            question_follow_up_rounds = b.question_follow_up_rounds;
          })
    unfolding fill_budgets board_fields get_field
    fill_budgets-lem b c = simp (capability-lem, optional_set-lem, stored)

    fill_review-lem :
        (b c : InterviewBlackboard)
        → fill_review fresh now (board_fields b) c
          ≡ ok (record c {
            review_required = b.review_required;
            review_status = b.review_status;
            review_reasons = b.review_reasons;
            review_reviewer = b.review_reviewer;
            review_decision_reason = b.review_decision_reason;
            durable_tool_records = b.durable_tool_records;
            runtime_metadata = b.runtime_metadata;
          })
    unfolding fill_review board_fields get_field
    fill_review-lem b c = simp (durables-lem, metadata-lem laws now, stored)

    session_id-lem :
        (b : InterviewBlackboard)
        → get_field (board_fields b) "session_id" ≡ some (str b.session_id)
    unfolding board_fields get_field
    session_id-lem b = refl

    -- A blackboard that is written as JSON is read as `restored` of it.
    pub board_from_json-board_fields :
        (b : InterviewBlackboard) → board_from_json fresh now (board_fields b) ≡ ok (restored b)
    unfolding board_from_json
    board_from_json-board_fields b = simp (
      session_id-lem b,
      fill_profiles-lem b,
      fill_artifacts-lem b,
      fill_budgets-lem b,
      fill_review-lem b,
    )
