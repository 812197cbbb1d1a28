-- ===== src/Runtime/HumanReview.antt =====
-- `submit_human_review` (src/interview_agent_runtime/runtime/interview_runtime.py).
use interviewer.Prelude.{String, Bool, true, if◌then◌else◌}
use interviewer.Floats.{Floats}
use interviewer.Unicode.{Unicode}
use interviewer.Values.{runtime_error}
use interviewer.Exec.{Exec, pure, raise, ◌>>=◌, ◌>>◌}
use interviewer.Stage.{InterviewStage, waiting_human_review, finished, failed}
use interviewer.Blackboard.{InterviewBlackboard}
use interviewer.Events.{state_transitioned, human_review_submitted}
use interviewer.Runtime.{Outside, RuntimeState, save, post, load_context}

module _ ⦃F : Floats⦄ ⦃U : Unicode⦄ ⦃E : Outside⦄ where
  unfoldable pub review_in_stage :
      String
      → Bool
      → String
      → String
      → InterviewBlackboard
      → InterviewStage
      → Exec RuntimeState InterviewBlackboard
  review_in_stage session approved reviewer reason context waiting_human_review = do
    let board = record context {
      review_required = true;
      review_status = if approved then "approved" else "rejected";
      review_reviewer = reviewer;
      review_decision_reason = reason;
      current_stage = if approved then finished else failed;
    }
    save board
    post human_review_submitted session
    post state_transitioned session
    pure board
  review_in_stage session approved reviewer reason context _ = raise runtime_error

  unfoldable pub submit_human_review :
      String → Bool → String → String → Exec RuntimeState InterviewBlackboard
  unfolding review_in_stage
  submit_human_review session approved reviewer reason = do
    context ← load_context session
    review_in_stage session approved reviewer reason context context.current_stage
