-- ===== src/AgentLoop/Budgets.antt =====
-- The budgets of a run of the agent loop (src/interview_agent_runtime/runtime/agent_loop.py).
use interviewer.Prelude.{
  ℕ, zero, suc, ◌+◌, ◌-◌, ◌≤◌, ◌≡◌, refl, String, Bool, true, false, Option, none, some, List, [],
  ◌∷◌, arith, length, ltb, leb, if◌then◌else◌,
}
use interviewer.Floats.{Floats}
use interviewer.Unicode.{Unicode}
use interviewer.Values.{Result, ok, err}
use interviewer.Exec.{Exec, pure}
use interviewer.Tools.{Host}
use interviewer.Governance.{ToolCall}
use interviewer.Events.{TraceContext, agent_loop_started}
use interviewer.AgentLoop.{
  AgentRunRequest, AgentLoop, LoopState, Run, Ending, child_trace, emit_event, result_of, completed,
  token_budget_exceeded, tool_budget_exceeded,
}
use interviewer.AgentLoop.Rounds.{
  reject_batch, run_batch, take_tools, take_response, respond, run_round, run_rounds,
  without_batches,
}
use interviewer.AgentLoop.Counts.{Counts, counts_of, After, Holds, Holds-bind}
use interviewer.AgentLoop.Steps.{
  IsWithin, InRound, InRound-IsWithin, RoundDone, WithRoom, ask_in, reject_batch_in, run_batch_in,
  ended_in,
}
use interviewer.AgentLoop.Invocation.{run, prepare, finish_run, memory_key_of}

module _ ⦃F : Floats⦄ ⦃H : Host⦄ (loop : AgentLoop) (request : AgentRunRequest) where
  abbrev Within : Counts → Type 0
  Within = IsWithin request.max_rounds request.max_tool_calls

  abbrev In : ℕ → ℕ → Counts → Type 0
  In = InRound request.max_rounds request.max_tool_calls

  abbrev Done : ℕ → Option Ending → Counts → Type 0
  Done = RoundDone request.max_rounds request.max_tool_calls

  abbrev Room : ℕ → ℕ → Counts → Type 0
  Room = WithRoom request.max_rounds request.max_tool_calls

  module _ (key : String) (trace : Option TraceContext) (n round : ℕ) where
    batch_or_reject-In :
        (calls : List ToolCall) (u : ℕ) (b : Bool)
        → ltb (request.max_tool_calls - u) (length calls) ≡ b
        → Holds
            (λ c. In n 0 c × (c.tool_calls ≡ u))
            (if b
              then reject_batch request key trace calls
              else run_batch request key trace round calls)
            (Done n)
            Within
    batch_or_reject-In calls u true e = record {
      at = λ s h.
          (reject_batch_in request.max_rounds request.max_tool_calls request key trace calls n).at s
            h.0;
    }
    batch_or_reject-In calls u false e = record {
      at = λ s h.
          (run_batch_in request.max_rounds request.max_tool_calls request key trace round calls
              n).at
            s (h.0, ground (arith, e, h.0.tool_calls, h.1));
    }

    take_tools-In :
        (calls : List ToolCall) (run : Run)
        → Holds
            (λ c. In n 0 c × (c.tool_calls ≡ run.tool_calls))
            (take_tools request key trace round calls run)
            (Done n)
            Within
    unfolding take_tools
    take_tools-In [] run = record {
      at = λ s h.
          (ended_in request.max_rounds request.max_tool_calls n 0 (without_batches completed)).at s
            h.0;
    }
    take_tools-In (c ∷ cs) run =
        Holds-bind _ _ _ _ _ _ (record { at = λ s h. h })
          (λ _. batch_or_reject-In (c ∷ cs) run.tool_calls _ refl)

    take_response-In :
        (calls : List ToolCall) (run : Run)
        → Holds
            (λ c. In n 0 c × (c.tool_calls ≡ run.tool_calls))
            (take_response request key trace round calls run)
            (Done n)
            Within
    unfolding take_response
    take_response-In calls run = by_budget (ltb request.token_budget run.total_tokens)
      where
        by_budget :
            (b : Bool)
            → Holds
                (λ c. In n 0 c × (c.tool_calls ≡ run.tool_calls))
                (if b
                  then pure (some (without_batches token_budget_exceeded))
                  else take_tools request key trace round calls run)
                (Done n)
                Within
        by_budget true = record {
          at = λ s h.
              (ended_in request.max_rounds request.max_tool_calls n 0
                  (without_batches token_budget_exceeded)).at
                s h.0;
        }
        by_budget false = take_tools-In calls run

    respond-In : Holds (In n 1) (respond loop request key trace round) (Done n) Within
    unfolding respond
    respond-In =
        Holds-bind _ _ _ _ _ _
          (ask_in request.max_rounds request.max_tool_calls loop request key trace n)
          (λ message.
            Holds-bind _ (λ run c. In n 0 c × (c.tool_calls ≡ run.tool_calls)) _ _ _ _
              (record { at = λ s h. (h, refl) }) (λ run. take_response-In message.tool_calls run))

  module _ (key : String) (trace : Option TraceContext) where
    run_round-In :
        (n : ℕ)
        → suc n ≤ request.max_rounds
        → Holds (In n 0) (run_round loop request key trace (suc n)) (Done (suc n)) Within
    unfolding run_round
    run_round-In n allowed =
        Holds-bind _ (λ _. In (suc n) 1) _ _ _ _
          (record {
            at = λ s h. record {
              executed = h.executed;
              tool_calls = h.tool_calls;
              responses = omega (arith, h.responses, h.rounds);
              rounds = refl;
              allowed = allowed;
            };
          })
          (λ _.
            Holds-bind _ (λ _. In (suc n) 1) _ _ _ _ (record { at = λ s h. h })
              (λ run. by_budget (leb request.max_tool_calls run.tool_calls)))
      where
        by_budget :
            (b : Bool)
            → Holds
                (In (suc n) 1)
                (elim b [
                  | true ↦ pure (some (without_batches tool_budget_exceeded))
                  | false ↦ respond loop request key trace (suc n)
                ])
                (Done (suc n))
                Within
        by_budget true = ended_in request.max_rounds request.max_tool_calls (suc n) 1 _
        by_budget false = respond-In key trace (suc n) (suc n)

    run_rounds-In :
        (left n : ℕ)
        → left + n ≡ request.max_rounds
        → Holds (In n 0) (run_rounds loop request key trace left (suc n)) (λ _. Within) Within
    unfolding run_rounds
    run_rounds-In zero n e = record {
      at =
          λ s h. InRound-IsWithin request.max_rounds request.max_tool_calls n 0 (counts_of s.run) h;
    }
    run_rounds-In (suc left) n e =
        Holds-bind _ _ _ _ _ _ (run_round-In n (omega (arith, e)))
          (λ ended. or_next ended (run_rounds-In left (suc n) (omega (arith, e))))
      where
        or_next :
            {rest : Exec LoopState Ending} (ended : Option Ending)
            → Holds (In (suc n) 0) rest (λ _. Within) Within
            → Holds
                (Done (suc n) ended)
                (elim ended [ some x ↦ pure x | none ↦ rest ])
                (λ _. Within)
                Within
        or_next none h = h
        or_next (some x) h = record { at = λ s w. w }

  After-all :
      (p : Result Ending × LoopState) → After (λ _. Within) Within p → Within (counts_of p.1.run)
  After-all (ok e, s) h = h
  After-all (err e, s) h = h

  -- Before the first round.
  before_rounds :
      ⦃U : Unicode⦄ (trace : Option TraceContext) (s : LoopState)
      → In 0 0
          (counts_of (emit_event agent_loop_started request trace (prepare loop request s)).1.run)
  unfolding prepare emit_event
  before_rounds trace s = record {
    executed = refl;
    tool_calls = omega arith;
    responses = omega arith;
    rounds = refl;
    allowed = omega arith;
  }

module _ ⦃F : Floats⦄ ⦃H : Host⦄ ⦃U : Unicode⦄ where
  -- A run returns a result, whose executed tool calls are at most `max_tool_calls`, whose responses
  -- are at most its rounds, and whose rounds are at most `max_rounds`, whatever the provider and the
  -- tools do.
  pub run-IsWithin :
      (loop : AgentLoop) (request : AgentRunRequest) (s : LoopState)
      → let result = (run loop request s).0 in
        (result.executed_tool_calls ≤ request.max_tool_calls)
        × ((length result.responses ≤ result.rounds) × (result.rounds ≤ request.max_rounds))
  unfolding run finish_run result_of
  run-IsWithin loop request s =
      let h = After-all loop request _ (
        (run_rounds-In loop request (memory_key_of request) (child_trace request "loop" none s).0
            request.max_rounds 0 (omega arith)).at
          _
          (before_rounds loop request (child_trace request "loop" none s).0
            (child_trace request "loop" none s).1)) in
      (h.executed, (h.responses, h.rounds))
