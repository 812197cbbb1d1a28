-- ===== src/Runtime/Answering.antt =====
-- `receive_answer` (src/interview_agent_runtime/runtime/interview_runtime.py), with the artifact of
-- an answer (artifacts/models.py).
use interviewer.Prelude.{ℕ, String, Option, none, some, []}
use interviewer.Floats.{Floats, Float}
use interviewer.Unicode.{Unicode, normalize_text}
use interviewer.Values.{runtime_error}
use interviewer.Exec.{Exec, pure, raise, gets, ◌>>=◌, ◌>>◌}
use interviewer.Stage.{InterviewStage, listening}
use interviewer.Artifacts.{answer, AnswerArtifact, QuestionArtifact}
use interviewer.Blackboard.{InterviewBlackboard, publish}
use interviewer.Events.{answer_received, state_transitioned}
use interviewer.Runtime.{
  Outside, RuntimeState, InterviewRuntime, RuntimeStepResult, save, post, bind, session_trace,
  load_context, advance, step_result, completed,
}

module _ ⦃F : Floats⦄ ⦃U : Unicode⦄ ⦃E : Outside⦄ where
  -- The arguments of `receive_answer`, with the identifiers and the time that are made for the
  -- artifact.
  pub record AnswerInput : Type 0 where
    pub text : String
    pub source : String
    pub duration_seconds : Option Float
    pub id : String
    pub answer_id : String
    pub created_at : ℕ

  unfoldable pub answer_artifact : AnswerInput → QuestionArtifact → AnswerArtifact
  answer_artifact input q = record {
    base = record {
      kind = "answer";
      owner = "Candidate";
      id = input.id;
      created_at = input.created_at;
      confidence = F.of_ℕ 1;
      metadata = [];
    };
    question_id = q.question_id;
    answer_id = input.answer_id;
    text = input.text;
    normalized_text = normalize_text input.text;
    source = input.source;
    duration_seconds = input.duration_seconds;
  }

  -- `receive_answer`, with the artifact that it builds from the current question.
  unfoldable pub answer_question :
      InterviewRuntime
      → String
      → AnswerInput
      → InterviewBlackboard
      → Option QuestionArtifact
      → Exec RuntimeState RuntimeStepResult
  answer_question rt session input context none = raise runtime_error
  answer_question rt session input context (some q) = do
    let artifact = answer (answer_artifact input q)
    now ← gets (λ s. E.now s.outside)
    let published = (publish now artifact context).1
    board ← gets (advance rt published.current_stage (some artifact) published)
    save board
    post answer_received session
    post state_transitioned session
    pure (step_result session context.current_stage board (some artifact) completed)

  unfoldable pub answer_in_stage :
      InterviewRuntime
      → String
      → AnswerInput
      → InterviewBlackboard
      → InterviewStage
      → Exec RuntimeState RuntimeStepResult
  unfolding answer_question
  answer_in_stage rt session input context listening =
      answer_question rt session input context context.current_question
  answer_in_stage rt session input context _ = raise runtime_error

  unfoldable pub receive_answer :
      InterviewRuntime → String → AnswerInput → Exec RuntimeState RuntimeStepResult
  unfolding answer_in_stage
  receive_answer rt session input = do
    context ← load_context session
    bind session (session_trace context)
    answer_in_stage rt session input context context.current_stage
