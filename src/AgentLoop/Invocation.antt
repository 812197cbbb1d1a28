-- ===== src/AgentLoop/Invocation.antt =====
-- `AgentLoop.run` (src/interview_agent_runtime/runtime/agent_loop.py) as a whole: the context from
-- the memory, the rounds, and the result. Every exception of the rounds becomes an ending, so a run
-- always has a result.
use interviewer.Prelude.{
  ℕ, ◌+◌, ◌*◌, String, Option, none, some, List, [], ◌++◌, if◌then◌else◌, or_else, ◌==◌,
}
use interviewer.Floats.{Floats}
use interviewer.Unicode.{Unicode}
use interviewer.Blackboard.{or_text}
use interviewer.Tools.{Host}
use interviewer.Governance.{new_governance}
use interviewer.Events.{
  TraceContext, agent_loop_started, agent_loop_finished, agent_loop_stopped, RuntimeEventType,
}
use interviewer.Memory.{
  AgentMessage, SessionMemory, assistant_message, MemoryContext, to_messages, extend, to_dict,
}
use interviewer.Memory.Context.{build_context}
use interviewer.AgentLoop.{
  StopReason, completed, Ending, MemoryScope, scope_key, AgentRunResult, Run, AgentRunRequest,
  AgentLoop, LoopState, child_trace, emit_event, result_of,
}
use interviewer.AgentLoop.Rounds.{run_rounds, ending_of}

module _ ⦃F : Floats⦄ ⦃H : Host⦄ where
  abbrev last_event : StopReason → RuntimeEventType
  last_event completed = agent_loop_finished
  last_event _ = agent_loop_stopped

  -- `_completed` and `_stopped`
  unfoldable pub finish_run :
      AgentRunRequest → Option TraceContext → Ending → LoopState → AgentRunResult × LoopState
  finish_run request trace ending s =
      (result_of request ending s, (emit_event (last_event ending.reason) request trace s).1)

  unfoldable pub new_run : List AgentMessage → String → ℕ → Run
  new_run messages id now = record {
    messages = messages;
    responses = [];
    last_message = assistant_message id now (some "") [];
    rounds = 0;
    tool_calls = 0;
    requested_tool_calls = 0;
    executed_tool_calls = 0;
    total_tokens = 0;
    parallel_tool_batches = 0;
    max_parallelism = 1;
    sequential_tool_calls = 0;
    resource_conflicts = 0;
  }

  abbrev scope_of : AgentRunRequest → MemoryScope
  scope_of request =
      or_else request.memory_scope
        (record { session_id = request.session_id; agent_name = request.agent_name })

  -- `request.memory_key or scope.key()`
  unfoldable pub memory_key_of : AgentRunRequest → String
  memory_key_of request = or_text request.memory_key (scope_key (scope_of request))

  -- `x or default` of a number: 0 counts as none.
  abbrev number_or : Option ℕ → ℕ → ℕ
  number_or none d = d
  number_or (some n) d = if n == 0 then d else n

  abbrev char_limit : Option ℕ → Option ℕ
  char_limit none = none
  char_limit (some n) = if n == 0 then none else some (n * 4)

  module _ ⦃U : Unicode⦄ where
    -- The history is read under the scope's own key.
    context_of : AgentLoop → AgentRunRequest → SessionMemory → String → ℕ → MemoryContext
    context_of loop request memory id now =
        let board = if request.include_domain_snapshot then request.blackboard else none in
        let key = scope_key (scope_of request) in
        if request.include_interaction_memory
        then build_context loop.compressor memory key board (number_or request.memory_limit 12) 20
            id now
        else record (build_context loop.compressor memory key board 0 20 id now) {
          summary = none;
          recent_messages = [];
        }

    -- The messages that the run begins with, before those of the request.
    unfoldable pub context_messages : AgentLoop → AgentRunRequest → LoopState → List AgentMessage
    unfolding context_of
    context_messages loop request s =
        let now = H.utc_now s.tools.world in
        to_messages (λ snapshot. H.dumps (to_dict snapshot)) (H.fresh_id (s.made + 1)) now
          (context_of loop request s.memory (H.fresh_id s.made) now)
          (char_limit request.context_budget_tokens)

    -- Before the first round: the context, the messages of the request, and the governance.
    unfoldable pub prepare : AgentLoop → AgentRunRequest → LoopState → LoopState
    unfolding new_run
    prepare loop request s =
        let key = memory_key_of request in
        record s {
          memory = extend s.memory key request.initial_messages;
          tools = record s.tools {
            governance = new_governance request.max_duplicate_calls;
            durable_records = request.durable_records;
          };
          made = s.made + 3;
          run =
              new_run (context_messages loop request s ++ request.initial_messages)
                (H.fresh_id (s.made + 2)) (H.utc_now s.tools.world);
        }

    unfoldable pub run : AgentLoop → AgentRunRequest → LoopState → AgentRunResult × LoopState
    run loop request s =
        let (trace, s₁) = child_trace request "loop" none s in
        let s₂ = (emit_event agent_loop_started request trace (prepare loop request s₁)).1 in
        let (ended, s₃) =
          run_rounds loop request (memory_key_of request) trace request.max_rounds 1 s₂ in
        finish_run request trace (ending_of ended) s₃
