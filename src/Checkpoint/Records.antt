-- ===== src/Checkpoint/Records.antt =====
-- The stage, the durable records of tools and the metadata of a session that was stored
-- (src/interview_agent_runtime/checkpoint/stores.py).
use interviewer.Prelude.{ℕ, String, str_eq, Bool, false, Option, none, some, [], if◌then◌else◌}
use interviewer.Floats.{Floats}
use interviewer.Values.{Value, null, Fields, end, value_error, Result, ok, err, ◌>>=◌}
use interviewer.Stage.{
  InterviewStage, init, profile_analysis, interview_planning, question_preparing, questioning,
  listening, evaluating, decision, follow_up, next_question, next_dimension, reporting,
  waiting_human_review, finished, failed,
}
use interviewer.ToolRecords.{ToolInvocationKey, ToolResult, DurableToolExecutionRecord}
use interviewer.Blackboard.{RuntimeMetadata}
use interviewer.Batch.{get_field}
use interviewer.Evaluation.{is_true}
use interviewer.Checkpoint.Json.{
  Reader, read_any, read_text, read_number, read_float, read_optional, read_texts, read_object,
  read_filled, get_or, get_or_read,
}
use interviewer.Checkpoint.Session.{Times}
use interviewer.Checkpoint.Stored.{time_or}

-- `InterviewStage(value)`
unfoldable pub stage_named : String → Result InterviewStage
stage_named s =
    if str_eq s "INIT"
    then ok init
    else if str_eq s "PROFILE_ANALYSIS"
    then ok profile_analysis
    else if str_eq s "INTERVIEW_PLANNING"
    then ok interview_planning
    else if str_eq s "QUESTION_PREPARING"
    then ok question_preparing
    else if str_eq s "QUESTIONING"
    then ok questioning
    else if str_eq s "LISTENING"
    then ok listening
    else if str_eq s "EVALUATING"
    then ok evaluating
    else if str_eq s "DECISION"
    then ok decision
    else if str_eq s "FOLLOW_UP"
    then ok follow_up
    else if str_eq s "NEXT_QUESTION"
    then ok next_question
    else if str_eq s "NEXT_DIMENSION"
    then ok next_dimension
    else if str_eq s "REPORTING"
    then ok reporting
    else if str_eq s "WAITING_HUMAN_REVIEW"
    then ok waiting_human_review
    else if str_eq s "FINISHED"
    then ok finished
    else if str_eq s "FAILED"
    then ok failed
    else err value_error

module _ ⦃F : Floats⦄ where
  -- `bool(value)`
  abbrev pub read_truth : Reader Bool
  read_truth v = ok (is_true v)

  unfoldable pub read_key : Fields → Fields → Result ToolInvocationKey
  read_key json record_json = do
    name ← get_or read_text record_json "tool_name" ""
    tool_name ← get_or read_text json "tool_name" name
    normalized_arguments ← get_or read_text json "normalized_arguments" "{}"
    resource_version ← get_or (read_optional read_text) json "resource_version" none
    ok (record {
      tool_name = tool_name;
      normalized_arguments = normalized_arguments;
      resource_version = resource_version;
    })

  unfoldable pub read_result : Fields → Fields → Result ToolResult
  read_result record_json json = do
    id ← get_or read_text record_json "tool_call_id" ""
    name ← get_or read_text record_json "tool_name" ""
    tool_call_id ← get_or read_text json "tool_call_id" id
    tool_name ← get_or read_text json "tool_name" name
    is_ok ← get_or read_truth json "ok" false
    value ← get_or read_any json "value" null
    error ← get_or (read_optional read_text) json "error" none
    duration_ms ← get_or read_float json "duration_ms" (F.decimal 0 1)
    status ← get_or read_text json "status" "success"
    cache_hit ← get_or read_truth json "cache_hit" false
    duplicate ← get_or read_truth json "duplicate" false
    retryable ← get_or read_truth json "retryable" false
    execution_mode ← get_or read_text json "execution_mode" "sequential"
    resource_key ← get_or (read_optional read_text) json "resource_key" none
    ok (record {
      tool_call_id = tool_call_id;
      tool_name = tool_name;
      ok = is_ok;
      value = value;
      error = error;
      duration_ms = duration_ms;
      status = status;
      cache_hit = cache_hit;
      duplicate = duplicate;
      retryable = retryable;
      execution_mode = execution_mode;
      resource_key = resource_key;
    })

  module _ ⦃T : Times⦄ where
    abbrev pub optional_time : Option Value → Result (Option ℕ)
    optional_time none = ok none
    optional_time (some v) =
        if is_true v then (time_or (some v) 0 >>= λ t. ok (some t)) else ok none

    -- `_durable_tool_record`
    unfoldable pub read_durable : Fields → Result DurableToolExecutionRecord
    read_durable json = do
      invocation_key ←
          get_or_read (read_object (λ fs. read_key fs json)) json "invocation_key"
            (read_key end json)
      result ← get_or (λ v. read_filled (read_result json) v) json "result" none
      tool_name ← get_or read_text json "tool_name" invocation_key.tool_name
      status ← get_or read_text json "status" "error"
      result_reference ← get_or read_text json "result_reference" ""
      side_effect ← get_or read_truth json "side_effect" false
      idempotency_key ← get_or (read_optional read_text) json "idempotency_key" none
      completed_at ← optional_time (get_field json "completed_at")
      run_id ← get_or (read_optional read_text) json "run_id" none
      tool_call_id ← get_or read_text json "tool_call_id" ""
      ok (record {
        invocation_key = invocation_key;
        tool_name = tool_name;
        status = status;
        result = result;
        result_reference = result_reference;
        side_effect = side_effect;
        idempotency_key = idempotency_key;
        completed_at = completed_at;
        run_id = run_id;
        tool_call_id = tool_call_id;
      })

    -- `_runtime_metadata`
    unfoldable pub read_metadata : ℕ → Fields → Result RuntimeMetadata
    read_metadata now json = do
      runtime_version ← get_or read_text json "runtime_version" "0.2.0"
      trace_id ← get_or read_text json "trace_id" ""
      errors ← get_or read_texts json "errors" []
      max_rounds ← get_or read_number json "max_follow_up_round_per_question" 2
      session_timeout_seconds ← get_or read_number json "session_timeout_seconds" 1800
      started_at ← time_or (get_field json "started_at") now
      updated_at ← time_or (get_field json "updated_at") now
      ok (record {
        runtime_version = runtime_version;
        started_at = started_at;
        updated_at = updated_at;
        trace_id = trace_id;
        errors = errors;
        max_follow_up_round_per_question = max_rounds;
        session_timeout_seconds = session_timeout_seconds;
      })
