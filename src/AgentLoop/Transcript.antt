-- ===== src/AgentLoop/Transcript.antt =====
-- The transcript of a run and what the session memory keeps of it.
use interviewer.Prelude.{
  ℕ, zero, suc, ◌-◌, ◌≡◌, refl, subst, String, str_eq, Bool, true, false, Option, none, some, List,
  [], ◌∷◌, ◌++◌, leb, if◌then◌else◌,
}
use interviewer.Floats.{Floats}
use interviewer.Unicode.{Unicode}
use interviewer.Exec.{Exec, pure}
use interviewer.Tools.{Host}
use interviewer.ToolRecords.{ToolResult}
use interviewer.Governance.{ToolCall, repeated_tool_call}
use interviewer.Events.{TraceContext, agent_loop_started}
use interviewer.Memory.{AgentMessage, history}
use interviewer.Memory.History.{history-extend}
use interviewer.AgentLoop.{
  AgentRunRequest, AgentLoop, LoopState, Run, Ending, child_of, parent_or, child_trace, emit_event,
  result_of,
}
use interviewer.AgentLoop.Rounds.{
  ask, announce, append_batch_rejection, append_results, reject_batch, run_batch, take_tools,
  take_response, respond, run_round, run_rounds,
}
use interviewer.AgentLoop.Invocation.{run, prepare, finish_run, memory_key_of, context_messages}
use interviewer.AgentLoop.Growth.{
  AddsJust, both, Grows, Grows-bind, fresh_id-Grows, clock-Grows, gets-Grows, pure-Grows,
  on_tools-Grows, set_run-Grows, add_message-Grows, child_trace-Grows, emit_event-Grows,
  llm_request_of-Grows, ask_provider-Grows,
}

module _ ⦃F : Floats⦄ ⦃H : Host⦄ (key : String) (request : AgentRunRequest) where
  ask-Grows :
      (loop : AgentLoop) (trace : Option TraceContext) → Grows key (ask loop request key trace)
  unfolding ask
  ask-Grows loop trace = Grows-bind key _ _ (llm_request_of-Grows key request) (λ asked.
      Grows-bind key _ _ (child_trace-Grows key request "llm" trace) (λ span.
        Grows-bind key _ _ (emit_event-Grows key request _ span) (λ _.
          Grows-bind key _ _ (ask_provider-Grows key request loop asked) (λ r.
            Grows-bind key _ _ (set_run-Grows key _ (λ run. refl)) (λ _.
              Grows-bind key _ _ (add_message-Grows key r.message) (λ _.
                Grows-bind key _ _ (emit_event-Grows key request _ span)
                  (λ _. pure-Grows key _)))))))

  append_batch_rejection-Grows :
      (trace : Option TraceContext) (feedback : String) (calls : List ToolCall)
      → Grows key (append_batch_rejection request key trace feedback calls)
  unfolding append_batch_rejection
  append_batch_rejection-Grows trace feedback [] = pure-Grows key _
  append_batch_rejection-Grows trace feedback (c ∷ cs) =
      Grows-bind key _ _ (fresh_id-Grows key) (λ id. Grows-bind key _ _ (clock-Grows key) (λ now.
        Grows-bind key _ _ (add_message-Grows key _) (λ _.
          Grows-bind key _ _ (emit_event-Grows key request _ trace)
            (λ _. append_batch_rejection-Grows trace feedback cs))))

  reject_batch-Grows :
      (trace : Option TraceContext) (calls : List ToolCall)
      → Grows key (reject_batch request key trace calls)
  unfolding reject_batch
  reject_batch-Grows trace calls =
      Grows-bind key _ _ (gets-Grows key (λ s. request.max_tool_calls - s.run.tool_calls))
        (λ remaining.
          Grows-bind key _ _ (append_batch_rejection-Grows trace _ calls)
            (λ _. Grows-bind key _ _ (set_run-Grows key _ (λ run. refl)) (λ _. pure-Grows key _)))

  announce-Grows :
      (trace : Option TraceContext) (calls : List ToolCall)
      → Grows key (announce request trace calls)
  unfolding announce
  announce-Grows trace [] = pure-Grows key _
  announce-Grows trace (c ∷ cs) =
      Grows-bind key _ _ (child_trace-Grows key request "tool" trace) (λ span.
        Grows-bind key _ _ (emit_event-Grows key request _ span)
          (λ _. Grows-bind key _ _ (announce-Grows trace cs) (λ spans. pure-Grows key _)))

  append_results-Grows :
      (calls : List ToolCall) (rs : List ToolResult) (spans : List (Option TraceContext))
      → Grows key (append_results request key calls rs spans)
  unfolding append_results
  append_results-Grows (c ∷ cs) (r ∷ rs) (span ∷ spans) =
      Grows-bind key _ _ (fresh_id-Grows key) (λ id. Grows-bind key _ _ (clock-Grows key) (λ now.
        Grows-bind key _ _ (add_message-Grows key _) (λ _.
          Grows-bind key _ _ (emit_event-Grows key request _ span) (λ _.
            Grows-bind key _ _ (gets-Grows key (λ s. repeated_tool_call s.tools.governance))
              (λ repeated. unless_repeated _ repeated (append_results-Grows cs rs spans))))))
    where
      unless_repeated :
          (e : Option Ending) {rest : Exec LoopState (Option Ending)} (repeated : Bool)
          → Grows key rest
          → Grows key (elim repeated [ true ↦ pure e | false ↦ rest ])
      unless_repeated e true h = pure-Grows key _
      unless_repeated e false h = h
  append_results-Grows [] rs spans = pure-Grows key _
  append_results-Grows (c ∷ cs) [] spans = pure-Grows key _
  append_results-Grows (c ∷ cs) (r ∷ rs) [] = pure-Grows key _

  run_batch-Grows :
      (trace : Option TraceContext) (round : ℕ) (calls : List ToolCall)
      → Grows key (run_batch request key trace round calls)
  unfolding run_batch
  run_batch-Grows trace round calls = Grows-bind key _ _ (fresh_id-Grows key) (λ id.
      Grows-bind key _ _ (announce-Grows trace calls) (λ spans.
        Grows-bind key _ _ (on_tools-Grows key _) (λ batch.
          Grows-bind key _ _ (set_run-Grows key _ (λ run. refl))
            (λ _. append_results-Grows calls batch.results spans))))

  either :
      {A : Type 0} (b : Bool) (m n : Exec LoopState A)
      → Grows key m
      → Grows key n
      → Grows key (if b then m else n)
  either true m n h k = h
  either false m n h k = k

  take_response-Grows :
      (trace : Option TraceContext) (round : ℕ) (calls : List ToolCall) (run : Run)
      → Grows key (take_response request key trace round calls run)
  unfolding take_response take_tools
  take_response-Grows trace round [] run = either _ _ _ (pure-Grows key _) (pure-Grows key _)
  take_response-Grows trace round (c ∷ cs) run = either _ _ _ (pure-Grows key _) (
      Grows-bind key _ _ (set_run-Grows key _ (λ run. refl)) (λ _.
        either _ _ _ (reject_batch-Grows trace (c ∷ cs)) (run_batch-Grows trace round (c ∷ cs))))

  run_round-Grows :
      (loop : AgentLoop) (trace : Option TraceContext) (round : ℕ)
      → Grows key (run_round loop request key trace round)
  unfolding run_round respond
  run_round-Grows loop trace round = Grows-bind key _ _ (set_run-Grows key _ (λ run. refl)) (λ _.
      Grows-bind key _ _ (gets-Grows key (λ s. s.run))
        (λ run. with_budget _ (leb request.max_tool_calls run.tool_calls)))
    where
      with_budget :
          (e : Option Ending) (b : Bool)
          → Grows key (elim b [ true ↦ pure e | false ↦ respond loop request key trace round ])
      with_budget e true = pure-Grows key _
      with_budget e false = Grows-bind key _ _ (ask-Grows loop trace) (λ message.
          Grows-bind key _ _ (gets-Grows key (λ s. s.run))
            (λ run. take_response-Grows trace round message.tool_calls run))

  run_rounds-Grows :
      (loop : AgentLoop) (trace : Option TraceContext) (left round : ℕ)
      → Grows key (run_rounds loop request key trace left round)
  unfolding run_rounds
  run_rounds-Grows loop trace zero round = pure-Grows key _
  run_rounds-Grows loop trace (suc left) round =
      Grows-bind key _ _ (run_round-Grows loop trace round)
        (λ ended. or_next ended (run_rounds-Grows loop trace left (suc round)))
    where
      or_next :
          {rest : Exec LoopState Ending} (ended : Option Ending)
          → Grows key rest
          → Grows key (elim ended [ some e ↦ pure e | none ↦ rest ])
      or_next none h = h
      or_next (some e) h = pure-Grows key e

module _ ⦃F : Floats⦄ ⦃H : Host⦄ where
  child_trace-memory :
      (request : AgentRunRequest) (kind : String) (parent : Option TraceContext) (s : LoopState)
      → (child_trace request kind parent s).1.memory ≡ s.memory
  unfolding child_trace
  child_trace-memory request kind parent s = of_trace (parent_or parent request.trace)
    where
      of_trace : (t : Option TraceContext) → (child_of kind t s).1.memory ≡ s.memory
      of_trace none = refl
      of_trace (some t) = refl

  module _ ⦃U : Unicode⦄ (loop : AgentLoop) (request : AgentRunRequest) where
    -- The state in which the transcript is the context alone.
    abbrev with_context : LoopState → LoopState
    with_context s = record s { run = record s.run { messages = context_messages loop request s } }

    prepared :
        (trace : Option TraceContext) (s : LoopState)
        → AddsJust
            (memory_key_of request)
            request.initial_messages
            (with_context s)
            (emit_event agent_loop_started request trace (prepare loop request s)).1
    unfolding prepare emit_event
    prepared trace s = record {
      messages = refl;
      histories =
          λ other. history-extend s.memory (memory_key_of request) other request.initial_messages;
    }

    -- The messages of a run are the context from the memory, those of the request, and new ones; the
    -- history of the memory's key grows by those of the request and the same new ones, in the same
    -- order, and no other history changes. This holds of every ending.
    pub run-Adds :
        (s : LoopState)
        → let before = with_context (child_trace request "loop" none s).1 in
          (new : List AgentMessage) × ((run loop request s).0.messages
            ≡ before.run.messages ++ (request.initial_messages ++ new))
          × ((other : String)
              → history (run loop request s).1.memory other none ≡ (
                  if str_eq (memory_key_of request) other
                  then history s.memory (memory_key_of request) none
                    ++ (request.initial_messages ++ new)
                  else history s.memory other none))
    unfolding run finish_run result_of emit_event
    run-Adds s =
        let key = memory_key_of request in
        let trace = (child_trace request "loop" none s).0 in
        let s₁ = (child_trace request "loop" none s).1 in
        let rounds =
          (run_rounds-Grows key request loop trace request.max_rounds 1).grown
            (emit_event agent_loop_started request trace (prepare loop request s₁)).1 in
        let all =
          both key request.initial_messages rounds.new (with_context s₁)
            (emit_event agent_loop_started request trace (prepare loop request s₁)).1 _
            (prepared trace s₁) rounds.just in
        (
          rounds.new,
          all.messages,
          λ other.
              subst
                (λ memory. history (run loop request s).1.memory other none ≡ (
                  if str_eq key other
                  then history memory key none ++ (request.initial_messages ++ rounds.new)
                  else history memory other none))
                (child_trace-memory request "loop" none s) (all.histories other),
        )
