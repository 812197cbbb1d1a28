-- ===== src/AgentLoop/Counts.antt =====
-- What the steps of a run do to its counters.
use interviewer.Prelude.{ℕ, ◌≡◌, refl, ◌∙◌, String, Option, none, some, List, [], ◌∷◌, length}
use interviewer.Floats.{Floats}
use interviewer.Values.{Result, ok, err}
use interviewer.Exec.{Exec, gets, continue}
use interviewer.Exec.Sequence.{◌>>=◌}
use interviewer.Tools.{Host}
use interviewer.Governance.{ToolCall}
use interviewer.Execute.{ToolState}
use interviewer.Events.{RuntimeEventType, TraceContext}
use interviewer.Memory.{AgentMessage}
use interviewer.AgentLoop.{
  AgentRunRequest, AgentLoop, LoopState, Run, LlmRequest, on_tools, always, fresh_id, clock,
  child_trace, child_of, parent_or, emit_event, add_message, specs,
}
use interviewer.AgentLoop.Rounds.{ask_provider, llm_request_of, announce, append_batch_rejection}

pub record Counts : Type 0 where
  pub executed : ℕ
  pub tool_calls : ℕ
  pub responses : ℕ
  pub rounds : ℕ

module _ ⦃F : Floats⦄ ⦃H : Host⦄ where
  abbrev pub counts_of : Run → Counts
  counts_of run = record {
    executed = run.executed_tool_calls;
    tool_calls = run.tool_calls;
    responses = length run.responses;
    rounds = run.rounds;
  }

  -- `Q` holds of a result and the counters with it, `E` of the counters where an error is raised.
  abbrev pub After :
      {A : Type 0} → (A → Counts → Type 0) → (Counts → Type 0) → Result A × LoopState → Type 0
  After Q E (ok a, s) = Q a (counts_of s.run)
  After Q E (err e, s) = E (counts_of s.run)

  -- From counters of which `P` holds.
  pub record Holds {A : Type 0} (P : Counts → Type 0) (m : Exec LoopState A)
      (Q : A → Counts → Type 0) (E : Counts → Type 0) : Type 0 where
    pub at : (s : LoopState) → P (counts_of s.run) → After Q E (m s)

  -- The counters stay.
  pub record Keeps {A : Type 0} (m : Exec LoopState A) : Type 0 where
    pub kept : (s : LoopState) → counts_of (m s).1.run ≡ counts_of s.run

  module _ {A B : Type 0} where
    After-continue :
        (Q : A → Counts → Type 0) (R : B → Counts → Type 0) (E : Counts → Type 0)
        (f : A → Exec LoopState B) (p : Result A × LoopState)
        → ((a : A) → Holds (Q a) (f a) R E)
        → After Q E p
        → After R E (continue p.0 f p.1)
    After-continue Q R E f (ok a, s) h q = (h a).at s q
    After-continue Q R E f (err e, s) h q = q

    pub Holds-bind :
        (P : Counts → Type 0) (Q : A → Counts → Type 0) (R : B → Counts → Type 0)
        (E : Counts → Type 0) (m : Exec LoopState A) (f : A → Exec LoopState B)
        → Holds P m Q E
        → ((a : A) → Holds (Q a) (f a) R E)
        → Holds P (m >>= f) R E
    unfolding ◌>>=◌
    Holds-bind P Q R E m f h k = record { at = λ s p. After-continue Q R E f (m s) k (h.at s p) }

    Keeps-continue :
        (f : A → Exec LoopState B) (c : Counts) (p : Result A × LoopState)
        → ((a : A) → Keeps (f a))
        → counts_of p.1.run ≡ c
        → counts_of (continue p.0 f p.1).1.run ≡ c
    Keeps-continue f c (ok a, s) h e = (h a).kept s ∙ e
    Keeps-continue f c (err x, s) h e = e

    pub Keeps-bind :
        (m : Exec LoopState A) (f : A → Exec LoopState B)
        → Keeps m
        → ((a : A) → Keeps (f a))
        → Keeps (m >>= f)
    unfolding ◌>>=◌
    Keeps-bind m f h k = record {
      kept = λ s. Keeps-continue f (counts_of s.run) (m s) k (h.kept s);
    }

  module _ {A : Type 0} where
    After-kept :
        (P E : Counts → Type 0) (c : Counts) (p : Result A × LoopState)
        → counts_of p.1.run ≡ c
        → P c
        → ((c : Counts) → P c → E c)
        → After (λ _. P) E p
    After-kept P E c (ok a, s) e h weaker = rw e h
    After-kept P E c (err x, s) e h weaker = rw e (weaker c h)

    -- What keeps the counters keeps what holds of them.
    pub Holds-keep :
        (P E : Counts → Type 0) (m : Exec LoopState A)
        → Keeps m
        → ((c : Counts) → P c → E c)
        → Holds P m (λ _. P) E
    Holds-keep P E m keeps weaker = record {
      at = λ s h. After-kept P E (counts_of s.run) (m s) (keeps.kept s) h weaker;
    }

  child_trace-run :
      (request : AgentRunRequest) (kind : String) (parent : Option TraceContext) (s : LoopState)
      → (child_trace request kind parent s).1.run ≡ s.run
  unfolding child_trace
  child_trace-run request kind parent s = of_trace (parent_or parent request.trace)
    where
      of_trace : (t : Option TraceContext) → (child_of kind t s).1.run ≡ s.run
      of_trace none = refl
      of_trace (some t) = refl

  pub child_trace-Keeps :
      (request : AgentRunRequest) (kind : String) (parent : Option TraceContext)
      → Keeps (always (child_trace request kind parent))
  child_trace-Keeps request kind parent = record {
    kept = λ s. rw (child_trace-run request kind parent s);
  }

  pub emit_event-Keeps :
      (type : RuntimeEventType) (request : AgentRunRequest) (trace : Option TraceContext)
      → Keeps (emit_event type request trace)
  unfolding emit_event
  emit_event-Keeps type request trace = record { kept = λ s. refl }

  pub add_message-Keeps : (key : String) (m : AgentMessage) → Keeps (add_message key m)
  unfolding add_message
  add_message-Keeps key m = record { kept = λ s. refl }

  pub on_tools-Keeps : {A : Type 0} (m : Exec ToolState A) → Keeps (on_tools m)
  on_tools-Keeps m = record { kept = λ s. refl }

  pub llm_request_of-Keeps : (request : AgentRunRequest) → Keeps (llm_request_of request)
  unfolding llm_request_of specs
  llm_request_of-Keeps request =
      Keeps-bind (specs _ _) _ (record { kept = λ s. refl })
        (λ tools.
          Keeps-bind (gets (λ s. s.run.messages)) _ (record { kept = λ s. refl })
            (λ messages. record { kept = λ s. refl }))

  pub ask_provider-Keeps :
      (loop : AgentLoop) (request : AgentRunRequest) (asked : LlmRequest)
      → Keeps (ask_provider loop request asked)
  unfolding ask_provider
  ask_provider-Keeps loop request asked = record { kept = λ s. refl }

  pub announce-Keeps :
      (request : AgentRunRequest) (trace : Option TraceContext) (calls : List ToolCall)
      → Keeps (announce request trace calls)
  unfolding announce
  announce-Keeps request trace [] = record { kept = λ s. refl }
  announce-Keeps request trace (c ∷ cs) =
      Keeps-bind _ _ (child_trace-Keeps request "tool" trace) (λ span.
        Keeps-bind _ _ (emit_event-Keeps _ request span) (λ _.
          Keeps-bind _ _ (announce-Keeps request trace cs) (λ spans. record { kept = λ s. refl })))

  pub append_batch_rejection-Keeps :
      (request : AgentRunRequest) (key : String) (trace : Option TraceContext) (feedback : String)
      (calls : List ToolCall)
      → Keeps (append_batch_rejection request key trace feedback calls)
  unfolding append_batch_rejection
  append_batch_rejection-Keeps request key trace feedback [] = record { kept = λ s. refl }
  append_batch_rejection-Keeps request key trace feedback (c ∷ cs) =
      Keeps-bind fresh_id _ (record { kept = λ s. refl })
        (λ id.
          Keeps-bind clock _ (record { kept = λ s. refl })
            (λ now. Keeps-bind _ _ (add_message-Keeps key _) (λ _.
              Keeps-bind _ _ (emit_event-Keeps _ request trace)
                (λ _. append_batch_rejection-Keeps request key trace feedback cs))))
