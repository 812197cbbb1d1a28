-- ===== src/AgentLoop.antt =====
-- `AgentLoop` (src/interview_agent_runtime/runtime/agent_loop.py): the requests to the language
-- model and the calls of tools in one run of an agent. This module has the types, the state and the
-- small methods; the rounds are in the child of that name. The provider is code of its own.
pub mod Rounds
pub mod Invocation
pub mod Counts
pub mod Steps
pub mod Budgets
pub mod Growth
pub mod Transcript
use Prim.Native.String.{◌++◌ as append_text, compare as compare_text}
use Prim.Native.Nat.{Ordering}
use interviewer.Prelude.{
  ℕ, ◌+◌, ◌*◌, String, str_eq, Bool, true, false, not, ◌&&◌, Option, none, some, List, [], ◌∷◌,
  ◌++◌, ltb, leb, if◌then◌else◌, or_else, length, ◌==◌, sorted, Dict,
}
use interviewer.Floats.{Floats, Float}
use interviewer.Unicode.{Unicode}
use interviewer.Values.{Value, Fields, end, field, Error, Result, ok, err}
use interviewer.Exec.{Exec, pure, raise, gets, modify}
use interviewer.Exec.Sequence.{◌>>=◌, ◌>>◌}
use interviewer.Blackboard.{InterviewBlackboard, or_text}
use interviewer.ToolRecords.{DurableToolExecutionRecord}
use interviewer.Tools.{Host, World, ToolSpec, Tool, ToolRegistry, resolve}
use interviewer.Governance.{ToolCall, ToolGovernanceState, unique_tool_calls}
use interviewer.Execute.{ToolExecutor, ToolState}
use interviewer.Skills.{ExecutionStrategy}
use interviewer.Events.{RuntimeEventType, TraceContext, RuntimeEvent, InMemoryEventBus, emit}
use interviewer.Memory.{AgentMessage, SessionMemory, append_message}

pub data StopReason : Type 0 where
  completed max_rounds_reached tool_budget_exceeded token_budget_exceeded : StopReason
  timeout provider_error tool_error repeated_tool_call_stop : StopReason

-- How the loop ends: the reason, and whether the counters of the batches are passed on to the
-- result.
pub record Ending : Type 0 where
  pub reason : StopReason
  pub with_batches : Bool

-- `MemoryScope`
pub record MemoryScope : Type 0 where
  pub session_id : String
  pub agent_name : String

unfoldable pub scope_key : MemoryScope → String
scope_key s = append_text s.session_id (append_text ":" s.agent_name)

module _ ⦃F : Floats⦄ where
  pub record LlmRequest : Type 0 where
    pub messages : List AgentMessage
    pub tools : List ToolSpec
    pub response_schema : Option String
    pub temperature : Float
    pub max_tokens : Option ℕ
    pub timeout : Option Float

  pub record LlmResponse : Type 0 where
    pub message : AgentMessage
    pub model : String
    pub finish_reason : String
    pub prompt_tokens : ℕ
    pub completion_tokens : ℕ
    pub total_tokens : ℕ
    pub raw : Dict Value

  pub record AgentRunResult : Type 0 where
    pub final_message : AgentMessage
    pub messages : List AgentMessage
    pub rounds : ℕ
    pub tool_calls : ℕ
    pub stop_reason : StopReason
    pub parsed : Option Fields
    pub responses : List LlmResponse
    pub execution_strategy : ExecutionStrategy
    pub unique_calls : ℕ
    pub cache_hits : ℕ
    pub duplicate_calls : ℕ
    pub duration_ms : Float
    pub total_tokens : ℕ
    pub requested_tool_calls : ℕ
    pub executed_tool_calls : ℕ
    pub parallel_tool_batches : ℕ
    pub max_parallelism : ℕ
    pub sequential_tool_calls : ℕ
    pub resource_conflicts : ℕ

  -- The variables of `run` that change in its loop.
  pub record Run : Type 0 where
    pub messages : List AgentMessage
    pub responses : List LlmResponse
    pub last_message : AgentMessage
    pub rounds : ℕ
    pub tool_calls : ℕ
    pub requested_tool_calls : ℕ
    pub executed_tool_calls : ℕ
    pub total_tokens : ℕ
    pub parallel_tool_batches : ℕ
    pub max_parallelism : ℕ
    pub sequential_tool_calls : ℕ
    pub resource_conflicts : ℕ

module _ ⦃F : Floats⦄ ⦃H : Host⦄ where
  -- The executor has the visible tools, the tool context and the callback that stores a durable
  -- record. `schedules` are those of the batches, by round.
  pub record AgentRunRequest : Type 0 where
    pub session_id : String
    pub agent_name : String
    pub skill_name : String
    pub initial_messages : List AgentMessage
    pub tool_executor : ToolExecutor
    pub schedules : ℕ → ℕ → List ℕ
    pub response_schema : Option String
    pub max_rounds : ℕ
    pub max_tool_calls : ℕ
    pub token_budget : ℕ
    pub timeout_seconds : Float
    pub memory_key : Option String
    pub memory_scope : Option MemoryScope
    pub blackboard : Option InterviewBlackboard
    pub memory_limit : Option ℕ
    pub include_interaction_memory : Bool
    pub include_domain_snapshot : Bool
    pub trace : Option TraceContext
    pub execution_strategy : ExecutionStrategy
    pub max_duplicate_calls : ℕ
    pub durable_records : Option (Dict DurableToolExecutionRecord)
    pub context_budget_tokens : Option ℕ

  pub record AgentLoop : Type 0 where
    pub chat : LlmRequest → World → Float × Result LlmResponse × World
    pub compressor : Option (List AgentMessage → ℕ → List AgentMessage)

  -- `made` counts the calls of `uuid4`.
  pub record LoopState : Type 0 where
    pub memory : SessionMemory
    pub event_bus : Option InMemoryEventBus
    pub tools : ToolState
    pub made : ℕ
    pub run : Run

  -- The tools and the world change, the rest stays.
  abbrev pub on_tools : {A : Type 0} → Exec ToolState A → Exec LoopState A
  on_tools m s = let (r, t) = m s.tools in (r, record s { tools = t })

  abbrev pub set_run : (Run → Run) → Exec LoopState (Unit {0})
  set_run f = modify (λ s. record s { run = f s.run })

  abbrev pub fresh_id : Exec LoopState String
  fresh_id s = (ok (H.fresh_id s.made), record s { made = s.made + 1 })

  abbrev pub clock : Exec LoopState ℕ
  clock = gets (λ s. H.utc_now s.tools.world)

  abbrev parent_or : Option TraceContext → Option TraceContext → Option TraceContext
  parent_or none t = t
  parent_or (some p) t = some p

  -- A step that raises nothing.
  abbrev pub always : {A : Type 0} → (LoopState → A × LoopState) → Exec LoopState A
  always f s = let (a, s') = f s in (ok a, s')

  child_of : String → Option TraceContext → LoopState → Option TraceContext × LoopState
  child_of kind none s = (none, s)
  child_of kind (some t) s = (
    some (record {
      trace_id = t.trace_id;
      run_id = t.run_id;
      span_id = some (append_text kind (append_text "_" (H.fresh_id s.made)));
      parent_span_id = t.span_id;
    }),
    record s { made = s.made + 1 },
  )

  -- `_child_trace`
  unfoldable pub child_trace :
      AgentRunRequest → String → Option TraceContext → LoopState → Option TraceContext × LoopState
  unfolding child_of
  child_trace request kind parent = child_of kind (parent_or parent request.trace)

  abbrev emitted : RuntimeEvent → Option InMemoryEventBus → Option InMemoryEventBus
  emitted event none = none
  emitted event (some bus) = some (emit event bus)

  -- `_emit`
  unfoldable pub emit_event :
      RuntimeEventType → AgentRunRequest → Option TraceContext → Exec LoopState (Unit {0})
  emit_event type request trace = modify (λ s. record s {
    event_bus =
        emitted
          (record {
            type = type;
            session_id = request.session_id;
            trace = parent_or trace request.trace;
          })
          s.event_bus;
  })

  -- `messages.append(message)` and `memory.append(memory_key, message)`, which always go together.
  unfoldable pub add_message : String → AgentMessage → Exec LoopState (Unit {0})
  add_message key m = modify (λ s. record s {
    memory = append_message s.memory key m;
    run = record s.run { messages = s.run.messages ++ (m ∷ []) };
  })

  abbrev text_before : String → String → Bool
  text_before a b = elim (compare_text a b) [ Ordering.lt ↦ true | _ ↦ false ]

  specs_of : ToolRegistry → List String → Result (List ToolSpec)
  specs_of tools [] = ok []
  specs_of tools (name ∷ names) = with_spec (resolve tools name) (specs_of tools names)
    where
      with_spec : Result Tool → Result (List ToolSpec) → Result (List ToolSpec)
      with_spec (err e) rest = err e
      with_spec (ok tool) (err e) = err e
      with_spec (ok tool) (ok specs) = ok (tool.spec ∷ specs)

  -- `ToolRegistry.specs`
  unfoldable pub specs : ToolRegistry → List String → Exec LoopState (List ToolSpec)
  unfolding specs_of
  specs tools names s = (specs_of tools (sorted text_before names), s)

  object_in : Option Value → Option Fields
  object_in (some (Value.dict fields)) = some fields
  object_in _ = none

  parse_text : String → Option Fields
  unfolding object_in
  parse_text content = if str_eq content "" then none else object_in (H.loads content)

  -- `_parse_json_object`
  unfoldable pub parse_json_object : Option String → Option Fields
  unfolding parse_text
  parse_json_object none = none
  parse_json_object (some content) = parse_text content

  -- The result that `_completed` and `_stopped` build.
  unfoldable pub result_of : AgentRunRequest → Ending → LoopState → AgentRunResult
  result_of request ending s =
      let run = s.run in
      let g = s.tools.governance in
      let kept = ending.with_batches in
      record {
        final_message = run.last_message;
        messages = run.messages;
        rounds = run.rounds;
        tool_calls = run.tool_calls;
        stop_reason = ending.reason;
        parsed = parse_json_object run.last_message.content;
        responses = run.responses;
        execution_strategy = request.execution_strategy;
        unique_calls = unique_tool_calls g;
        cache_hits = g.cache_hits;
        duplicate_calls = g.duplicate_calls;
        duration_ms = H.elapsed_ms s.tools.world;
        total_tokens = run.total_tokens;
        requested_tool_calls = run.requested_tool_calls;
        executed_tool_calls = run.executed_tool_calls;
        parallel_tool_batches = if kept then run.parallel_tool_batches else 0;
        max_parallelism = if kept then run.max_parallelism else 1;
        sequential_tool_calls = if kept then run.sequential_tool_calls else 0;
        resource_conflicts = if kept then run.resource_conflicts else 0;
      }
