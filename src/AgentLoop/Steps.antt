-- ===== src/AgentLoop/Steps.antt =====
-- The counters of a run after the steps of a round: the request, the batch and its rejection.
use interviewer.Prelude.{
  ℕ, suc, ◌+◌, ◌-◌, ◌≤◌, ◌≡◌, refl, ap, String, Bool, true, false, Option, none, some, List, [],
  ◌∷◌, arith, length, length-append,
}
use interviewer.Floats.{Floats}
use interviewer.Values.{Result, ok, err}
use interviewer.Exec.{Exec, pure, gets}
use interviewer.Tools.{Host}
use interviewer.ToolRecords.{ToolResult}
use interviewer.Governance.{ToolCall, repeated_tool_call}
use interviewer.Batch.{ToolBatchResult, execute_batch}
use interviewer.Batch.Tasks.{AnswersAll}
use interviewer.Batch.Order.{execute_batch-AnswersAll}
use interviewer.Events.{TraceContext}
use interviewer.AgentLoop.{
  AgentRunRequest, AgentLoop, LoopState, Ending, LlmResponse, on_tools, fresh_id, clock, set_run,
  repeated_tool_call_stop,
}
use interviewer.AgentLoop.Rounds.{ask, append_results, reject_batch, run_batch, responded, with_all}
use interviewer.AgentLoop.Counts.{
  Counts, counts_of, After, Holds, Holds-bind, Holds-keep, Keeps, child_trace-Keeps,
  emit_event-Keeps, add_message-Keeps, llm_request_of-Keeps, ask_provider-Keeps, announce-Keeps,
  append_batch_rejection-Keeps,
}

module _ (max_rounds max_tool_calls : ℕ) where
  -- At the end of a run.
  pub record IsWithin (c : Counts) : Type 0 where
    pub executed : c.executed ≤ max_tool_calls
    pub responses : c.responses ≤ c.rounds
    pub rounds : c.rounds ≤ max_rounds

  -- Within round `n`, with `left` responses still to come.
  pub record InRound (n left : ℕ) (c : Counts) : Type 0 where
    pub executed : c.executed ≡ c.tool_calls
    pub tool_calls : c.tool_calls ≤ max_tool_calls
    pub responses : c.responses + left ≤ c.rounds
    pub rounds : c.rounds ≡ n
    pub allowed : n ≤ max_rounds

  pub InRound-IsWithin : (n left : ℕ) (c : Counts) → InRound n left c → IsWithin c
  InRound-IsWithin n left c h = record {
    executed = omega (arith, h.executed, h.tool_calls);
    responses = omega (arith, h.responses);
    rounds = omega (arith, h.rounds, h.allowed);
  }

  -- What a round leaves: an ending, or the counters for the next round.
  abbrev pub RoundDone : ℕ → Option Ending → Counts → Type 0
  RoundDone n none = InRound n 0
  RoundDone n (some e) = IsWithin

  module _ ⦃F : Floats⦄ ⦃H : Host⦄ where
    pub kept_in :
        {A : Type 0} (n left : ℕ) (m : Exec LoopState A)
        → Keeps m
        → Holds (InRound n left) m (λ _. InRound n left) IsWithin
    kept_in n left m k = Holds-keep (InRound n left) IsWithin m k (InRound-IsWithin n left)

    responded_in :
        (n : ℕ) (r : LlmResponse)
        → Holds (InRound n 1) (set_run (responded r)) (λ _. InRound n 0) IsWithin
    responded_in n r = record {
      at = λ s h. record {
        executed = h.executed;
        tool_calls = h.tool_calls;
        responses = omega (arith, h.responses, length-append s.run.responses (r ∷ []));
        rounds = h.rounds;
        allowed = h.allowed;
      };
    }

    pub ask_in :
        (loop : AgentLoop) (request : AgentRunRequest) (key : String) (trace : Option TraceContext)
        (n : ℕ)
        → Holds (InRound n 1) (ask loop request key trace) (λ _. InRound n 0) IsWithin
    unfolding ask
    ask_in loop request key trace n =
        Holds-bind _ _ _ _ _ _ (kept_in n 1 _ (llm_request_of-Keeps request)) (λ asked.
          Holds-bind _ _ _ _ _ _ (kept_in n 1 _ (child_trace-Keeps request "llm" trace)) (λ span.
            Holds-bind _ _ _ _ _ _ (kept_in n 1 _ (emit_event-Keeps _ request span)) (λ _.
              Holds-bind _ _ _ _ _ _ (kept_in n 1 _ (ask_provider-Keeps loop request asked)) (λ r.
                Holds-bind _ _ _ _ _ _ (responded_in n r) (λ _.
                  Holds-bind _ _ _ _ _ _ (kept_in n 0 _ (add_message-Keeps key r.message)) (λ _.
                    Holds-bind _ _ _ _ _ _ (kept_in n 0 _ (emit_event-Keeps _ request span))
                      (λ _. record { at = λ s h. h })))))))

    pub ended_in :
        (n left : ℕ) (e : Ending) → Holds (InRound n left) (pure (some e)) (RoundDone n) IsWithin
    ended_in n left e = record { at = λ s h. InRound-IsWithin n left (counts_of s.run) h }

    pub reject_batch_in :
        (request : AgentRunRequest) (key : String) (trace : Option TraceContext)
        (calls : List ToolCall) (n : ℕ)
        → Holds (InRound n 0) (reject_batch request key trace calls) (RoundDone n) IsWithin
    unfolding reject_batch
    reject_batch_in request key trace calls n =
        Holds-bind _ _ _ _ _ _
          (kept_in n 0 (gets (λ s. request.max_tool_calls - s.run.tool_calls))
            (record { kept = λ s. refl }))
          (λ remaining.
            Holds-bind _ _ _ _ _ _
              (kept_in n 0 _ (append_batch_rejection-Keeps request key trace _ calls))
              (λ _.
                Holds-bind _ (λ _. IsWithin) _ _ _ _
                  (record {
                    at = λ s h.
                        let w = InRound-IsWithin n 0 (counts_of s.run) h in
                        record {
                          executed = w.executed;
                          responses = w.responses;
                          rounds = w.rounds;
                        };
                  })
                  (λ _. record { at = λ s h. h })))

    unless_repeated :
        {n : ℕ} {rest : Exec LoopState (Option Ending)} (repeated : Bool)
        → Holds (InRound n 0) rest (RoundDone n) IsWithin
        → Holds
            (InRound n 0)
            (elim repeated [ true ↦ pure (some (with_all repeated_tool_call_stop)) | false ↦ rest ])
            (RoundDone n)
            IsWithin
    unless_repeated true h = ended_in _ 0 (with_all repeated_tool_call_stop)
    unless_repeated false h = h

    append_results_in :
        (request : AgentRunRequest) (key : String) (calls : List ToolCall) (rs : List ToolResult)
        (spans : List (Option TraceContext)) (n : ℕ)
        → Holds (InRound n 0) (append_results request key calls rs spans) (RoundDone n) IsWithin
    unfolding append_results
    append_results_in request key (c ∷ cs) (r ∷ rs) (span ∷ spans) n =
        Holds-bind _ _ _ _ _ _ (kept_in n 0 fresh_id (record { kept = λ s. refl })) (λ id.
          Holds-bind _ _ _ _ _ _ (kept_in n 0 clock (record { kept = λ s. refl })) (λ now.
            Holds-bind _ _ _ _ _ _ (kept_in n 0 _ (add_message-Keeps key _)) (λ _.
              Holds-bind _ _ _ _ _ _ (kept_in n 0 _ (emit_event-Keeps _ request span)) (λ _.
                Holds-bind _ _ _ _ _ _
                  (kept_in n 0 (gets (λ s. repeated_tool_call s.tools.governance))
                    (record { kept = λ s. refl }))
                  (λ repeated.
                    unless_repeated repeated (append_results_in request key cs rs spans n))))))
    append_results_in request key [] rs spans n = record { at = λ s h. h }
    append_results_in request key (c ∷ cs) [] spans n = record { at = λ s h. h }
    append_results_in request key (c ∷ cs) (r ∷ rs) [] n = record { at = λ s h. h }

    -- There is room for that many calls more.
    abbrev pub WithRoom : ℕ → ℕ → Counts → Type 0
    WithRoom n m c = InRound n 0 c × (c.tool_calls + m ≤ max_tool_calls)

    pub keep_room :
        {A : Type 0} (n m : ℕ) (step : Exec LoopState A)
        → Keeps step
        → Holds (WithRoom n m) step (λ _. WithRoom n m) IsWithin
    keep_room n m step k =
        Holds-keep (WithRoom n m) IsWithin step k (λ c h. InRound-IsWithin n 0 c h.0)

    After-batch :
        (n : ℕ) (calls : List ToolCall) (p : Result ToolBatchResult × LoopState)
        → ((b : ToolBatchResult) → p.0 ≡ ok b → AnswersAll calls b.results)
        → WithRoom n (length calls) (counts_of p.1.run)
        → After (λ b c. WithRoom n (length calls) c × AnswersAll calls b.results) IsWithin p
    After-batch n calls (ok b, s) answers h = (h, answers b refl)
    After-batch n calls (err e, s) answers h = InRound-IsWithin n 0 (counts_of s.run) h.0

    batch_in :
        (request : AgentRunRequest) (round : ℕ) (calls : List ToolCall) (n : ℕ)
        → Holds
            (WithRoom n (length calls))
            (on_tools (execute_batch request.tool_executor round (request.schedules round) calls))
            (λ b c. WithRoom n (length calls) c × AnswersAll calls b.results)
            IsWithin
    batch_in request round calls n = record {
      at = λ s h.
          After-batch n calls _
            (λ b e.
              execute_batch-AnswersAll request.tool_executor round (request.schedules round) calls
                s.tools _ b (pair_of _ b e))
            h;
    }
      where
        pair_of :
            {B : Type 0} (p : Result ToolBatchResult × B) (b : ToolBatchResult)
            → p.0 ≡ ok b
            → p ≡ (ok b, p.1)
        pair_of (r, t) b e = rw e

    length-AnswersAll :
        (calls : List ToolCall) (rs : List ToolResult)
        → AnswersAll calls rs
        → length rs ≡ length calls
    length-AnswersAll [] [] h = refl
    length-AnswersAll (c ∷ cs) (r ∷ rs) h = ap suc (length-AnswersAll cs rs h.1)
    length-AnswersAll [] (r ∷ rs) h = elim h [ ]
    length-AnswersAll (c ∷ cs) [] h = elim h [ ]

    pub run_batch_in :
        (request : AgentRunRequest) (key : String) (trace : Option TraceContext) (round : ℕ)
        (calls : List ToolCall) (n : ℕ)
        → Holds
            (WithRoom n (length calls))
            (run_batch request key trace round calls)
            (RoundDone n)
            IsWithin
    unfolding run_batch
    run_batch_in request key trace round calls n =
        let m = length calls in
        Holds-bind _ _ _ _ _ _ (keep_room n m fresh_id (record { kept = λ s. refl })) (λ id.
          Holds-bind _ _ _ _ _ _ (keep_room n m _ (announce-Keeps request trace calls)) (λ spans.
            Holds-bind _ _ _ _ _ _ (batch_in request round calls n) (λ batch.
              Holds-bind _ (λ _. InRound n 0) _ _ _ _
                (record {
                  at = λ s h.
                      let same = length-AnswersAll calls batch.results h.1 in
                      record {
                        executed = omega (arith, h.0.0.executed, same);
                        tool_calls = omega (arith, h.0.1);
                        responses = h.0.0.responses;
                        rounds = h.0.0.rounds;
                        allowed = h.0.0.allowed;
                      };
                })
                (λ _. append_results_in request key calls batch.results spans n))))
