-- ===== src/AgentLoop/Rounds.antt =====
-- The rounds of `AgentLoop.run` (src/interview_agent_runtime/runtime/agent_loop.py). A round gives
-- the ending of the run, or none where the next round follows.
use interviewer.Prelude.{
  ℕ, zero, suc, ◌+◌, ◌-◌, String, true, false, Option, none, some, List, [], ◌∷◌, ◌++◌, ltb, leb,
  if◌then◌else◌, length,
}
use interviewer.Floats.{Floats}
use interviewer.Values.{Value, end, field, pos, timeout_error, Result, ok, err}
use interviewer.Exec.{Exec, pure, gets}
use interviewer.Exec.Sequence.{◌>>=◌, ◌>>◌}
use interviewer.ToolRecords.{ToolResult}
use interviewer.Tools.{Host}
use interviewer.Governance.{ToolCall, repeated_tool_call}
use interviewer.Batch.{ToolBatchResult, execute_batch}
use interviewer.TaskExecutor.{wait_for}
use interviewer.Events.{
  TraceContext, tool_called, tool_succeeded, tool_failed, llm_requested, llm_responded,
  RuntimeEventType,
}
use interviewer.Memory.{AgentMessage, tool_message}
use interviewer.Projection.{project, new_projector}
use interviewer.AgentLoop.{
  StopReason, completed, max_rounds_reached, tool_budget_exceeded, token_budget_exceeded, timeout,
  provider_error, repeated_tool_call_stop, Ending, LlmRequest, LlmResponse, Run, AgentRunRequest,
  AgentLoop, LoopState, on_tools, always, set_run, fresh_id, clock, child_trace, emit_event,
  add_message, specs,
}

module _ ⦃F : Floats⦄ ⦃H : Host⦄ where
  abbrev pub without_batches : StopReason → Ending
  without_batches r = record { reason = r; with_batches = false }

  abbrev pub with_all : StopReason → Ending
  with_all r = record { reason = r; with_batches = true }

  -- `llm_provider.chat` under `asyncio.wait_for`.
  unfoldable pub ask_provider :
      AgentLoop → AgentRunRequest → LlmRequest → Exec LoopState LlmResponse
  ask_provider loop request asked s =
      let (seconds, r, w) = loop.chat asked s.tools.world in
      (
        wait_for request.timeout_seconds seconds r,
        record s { tools = record s.tools { world = w } },
      )

  abbrev pub responded : LlmResponse → Run → Run
  responded r run = record run {
    responses = run.responses ++ (r ∷ []);
    last_message = r.message;
    total_tokens = run.total_tokens + r.total_tokens;
  }

  unfoldable pub llm_request_of : AgentRunRequest → Exec LoopState LlmRequest
  llm_request_of request = do
    tools ← specs request.tool_executor.registry request.tool_executor.visible_tools
    messages ← gets (λ s. s.run.messages)
    pure (record {
      messages = messages;
      tools = tools;
      response_schema = request.response_schema;
      temperature = F.decimal 2 1;
      max_tokens = some request.token_budget;
      timeout = some request.timeout_seconds;
    })

  -- One request and its response.
  unfoldable pub ask :
      AgentLoop → AgentRunRequest → String → Option TraceContext → Exec LoopState AgentMessage
  unfolding llm_request_of
  ask loop request key trace = do
    asked ← llm_request_of request
    span ← always (child_trace request "llm" trace)
    emit_event llm_requested request span
    r ← ask_provider loop request asked
    set_run (responded r)
    add_message key r.message
    emit_event llm_responded request span
    pure r.message

  -- The message about a call of a batch that exceeds the budget.
  rejection_text : ℕ → ℕ → String
  rejection_text requested remaining = H.dumps (
      Value.dict (
        field "ok" (Value.bool false) (
          field "error" (Value.str "tool call batch rejected") (
            field "requested_tool_calls" (Value.int (pos requested))
              (field "remaining_tool_budget" (Value.int (pos remaining)) end)))))

  -- `_append_batch_rejection`
  unfoldable pub append_batch_rejection :
      AgentRunRequest
      → String
      → Option TraceContext
      → String
      → List ToolCall
      → Exec LoopState (Unit {0})
  append_batch_rejection request key trace feedback [] = pure tt
  append_batch_rejection request key trace feedback (c ∷ cs) = do
    id ← fresh_id
    now ← clock
    add_message key (tool_message id now c.id c.name feedback)
    emit_event tool_failed request trace
    append_batch_rejection request key trace feedback cs

  unfoldable pub reject_batch :
      AgentRunRequest
      → String
      → Option TraceContext
      → List ToolCall
      → Exec LoopState (Option Ending)
  unfolding rejection_text
  reject_batch request key trace calls = do
    remaining ← gets (λ s. request.max_tool_calls - s.run.tool_calls)
    append_batch_rejection request key trace (rejection_text (length calls) remaining) calls
    set_run (λ run. record run { tool_calls = remaining })
    pure (some (without_batches tool_budget_exceeded))

  -- The spans of the calls of a batch.
  unfoldable pub announce :
      AgentRunRequest
      → Option TraceContext
      → List ToolCall
      → Exec LoopState (List (Option TraceContext))
  announce request trace [] = pure []
  announce request trace (c ∷ cs) = do
    span ← always (child_trace request "tool" trace)
    emit_event tool_called request span
    spans ← announce request trace cs
    pure (span ∷ spans)

  abbrev text_or_null : Option String → Value
  text_or_null none = Value.null
  text_or_null (some t) = Value.str t

  unfoldable pub content_of : ToolResult → String
  content_of r =
      if r.ok
      then H.dumps (project (new_projector 4000) r.value)
      else H.dumps (
          Value.dict (
            field "ok" (Value.bool false)
              (field "error" (text_or_null r.error) (field "status" (Value.str r.status) end))))

  abbrev result_event : ToolResult → RuntimeEventType
  result_event r = if r.ok then tool_succeeded else tool_failed

  -- The loop over the results; it ends early where the governance sees repetition.
  unfoldable pub append_results :
      AgentRunRequest
      → String
      → List ToolCall
      → List ToolResult
      → List (Option TraceContext)
      → Exec LoopState (Option Ending)
  append_results request key (c ∷ cs) (r ∷ rs) (span ∷ spans) = do
    id ← fresh_id
    now ← clock
    add_message key (tool_message id now c.id c.name (content_of r))
    emit_event (result_event r) request span
    repeated ← gets (λ s. repeated_tool_call s.tools.governance)
    elim repeated [
      | true ↦ pure (some (with_all repeated_tool_call_stop))
      | false ↦ append_results request key cs rs spans
    ]
  append_results request key _ _ _ = pure none

  abbrev max : ℕ → ℕ → ℕ
  max a b = if ltb a b then b else a

  abbrev pub batch_done : ℕ → ToolBatchResult → Run → Run
  batch_done n batch run = record run {
    tool_calls = run.tool_calls + n;
    executed_tool_calls = run.executed_tool_calls + length batch.results;
    parallel_tool_batches = run.parallel_tool_batches + batch.parallel_tool_batches;
    max_parallelism = max run.max_parallelism batch.max_parallelism;
    sequential_tool_calls = run.sequential_tool_calls + batch.sequential_tool_calls;
    resource_conflicts = run.resource_conflicts + batch.resource_conflicts;
  }

  unfoldable pub run_batch :
      AgentRunRequest
      → String
      → Option TraceContext
      → ℕ
      → List ToolCall
      → Exec LoopState (Option Ending)
  run_batch request key trace round calls = do
    batch_id ← fresh_id
    spans ← announce request trace calls
    batch ← on_tools (execute_batch request.tool_executor round (request.schedules round) calls)
    set_run (batch_done (length calls) batch)
    append_results request key calls batch.results spans

  unfoldable pub take_tools :
      AgentRunRequest
      → String
      → Option TraceContext
      → ℕ
      → List ToolCall
      → Run
      → Exec LoopState (Option Ending)
  take_tools request key trace round [] run = pure (some (without_batches completed))
  take_tools request key trace round (c ∷ cs) run =
      let calls = c ∷ cs in
      set_run (λ u. record u { requested_tool_calls = u.requested_tool_calls + length calls })
      >> (if ltb (request.max_tool_calls - run.tool_calls) (length calls)
          then reject_batch request key trace calls
          else run_batch request key trace round calls)

  -- What follows on a response with these calls.
  unfoldable pub take_response :
      AgentRunRequest
      → String
      → Option TraceContext
      → ℕ
      → List ToolCall
      → Run
      → Exec LoopState (Option Ending)
  take_response request key trace round calls run =
      if ltb request.token_budget run.total_tokens
      then pure (some (without_batches token_budget_exceeded))
      else take_tools request key trace round calls run

  unfoldable pub respond :
      AgentLoop
      → AgentRunRequest
      → String
      → Option TraceContext
      → ℕ
      → Exec LoopState (Option Ending)
  respond loop request key trace round = do
    message ← ask loop request key trace
    run ← gets (λ s. s.run)
    take_response request key trace round message.tool_calls run

  unfoldable pub run_round :
      AgentLoop
      → AgentRunRequest
      → String
      → Option TraceContext
      → ℕ
      → Exec LoopState (Option Ending)
  run_round loop request key trace round = do
    set_run (λ run. record run { rounds = round })
    run ← gets (λ s. s.run)
    elim (leb request.max_tool_calls run.tool_calls) [
      | true ↦ pure (some (without_batches tool_budget_exceeded))
      | false ↦ respond loop request key trace round
    ]

  -- The rounds that are left, from the next one on.
  unfoldable pub run_rounds :
      AgentLoop → AgentRunRequest → String → Option TraceContext → ℕ → ℕ → Exec LoopState Ending
  run_rounds loop request key trace zero round = pure (with_all max_rounds_reached)
  run_rounds loop request key trace (suc left) round = do
    ended ← run_round loop request key trace round
    elim ended [ some e ↦ pure e | none ↦ run_rounds loop request key trace left (suc round) ]

  -- The two `except` clauses.
  abbrev pub ending_of : Result Ending → Ending
  ending_of (ok e) = e
  ending_of (err timeout_error) = without_batches timeout
  ending_of (err _) = without_batches provider_error
