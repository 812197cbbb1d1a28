-- ===== src/Checkpoint/RoundTrip/Records.antt =====
-- A stage, a durable record and the metadata that are written and read again.
use interviewer.Prelude.{ℕ, ◌≡◌, refl, Option, none, some}
use interviewer.Floats.{Floats}
use interviewer.Values.{ok}
use interviewer.Stage.{
  InterviewStage, init, profile_analysis, interview_planning, question_preparing, questioning,
  listening, evaluating, decision, follow_up, next_question, next_dimension, reporting,
  waiting_human_review, finished, failed,
}
use interviewer.ToolRecords.{ToolInvocationKey, ToolResult, DurableToolExecutionRecord}
use interviewer.Blackboard.{RuntimeMetadata}
use interviewer.Batch.{get_field}
use interviewer.Checkpoint.Json.{stored, read_filled, optional_value}
use interviewer.Checkpoint.Encode.{object, key_fields, result_fields}
use interviewer.Checkpoint.Session.{
  Times, TimeLaws, stage_value, durable_fields, metadata_fields, time_value,
}
use interviewer.Checkpoint.Records.{
  stage_named, read_key, read_result, read_durable, read_metadata, optional_time,
}

pub stage-lem : (s : InterviewStage) → stage_named (stage_value s) ≡ ok s
unfolding stage_named stage_value
stage-lem init = refl
stage-lem profile_analysis = refl
stage-lem interview_planning = refl
stage-lem question_preparing = refl
stage-lem questioning = refl
stage-lem listening = refl
stage-lem evaluating = refl
stage-lem decision = refl
stage-lem follow_up = refl
stage-lem next_question = refl
stage-lem next_dimension = refl
stage-lem reporting = refl
stage-lem waiting_human_review = refl
stage-lem finished = refl
stage-lem failed = refl

module _ ⦃F : Floats⦄ ⦃T : Times⦄ (laws : TimeLaws T) where
  key-lem :
      (r : DurableToolExecutionRecord) (k : ToolInvocationKey)
      → read_key (key_fields k) (durable_fields r) ≡ ok k
  unfolding read_key key_fields durable_fields get_field
  key-lem r k = simp stored

  result-lem :
      (r : DurableToolExecutionRecord) (x : ToolResult)
      → read_result (durable_fields r) (result_fields x) ≡ ok x
  unfolding read_result result_fields durable_fields get_field
  result-lem r x = simp stored

  optional_result-lem :
      (r : DurableToolExecutionRecord) (o : Option ToolResult)
      → read_filled (read_result (durable_fields r)) (optional_value (object result_fields) o)
        ≡ ok o
  unfolding result_fields
  optional_result-lem r none = refl
  optional_result-lem r (some x) = rw (result-lem r x) refl

  optional_time-lem : (o : Option ℕ) → optional_time (some (optional_value time_value o)) ≡ ok o
  optional_time-lem none = refl
  optional_time-lem (some t) = simp (laws.round_trip, laws.some_text)

  pub durable-lem : (r : DurableToolExecutionRecord) → read_durable (durable_fields r) ≡ ok r
  unfolding read_durable durable_fields get_field
  durable-lem r = simp (key-lem r, optional_result-lem r, optional_time-lem, stored)

  pub metadata-lem : (now : ℕ) (m : RuntimeMetadata) → read_metadata now (metadata_fields m) ≡ ok m
  unfolding read_metadata metadata_fields get_field
  metadata-lem now m = simp (laws.round_trip, laws.some_text, stored)
