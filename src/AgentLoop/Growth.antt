-- ===== src/AgentLoop/Growth.antt =====
-- Steps that add messages to the transcript of a run and to the session memory alike.
use interviewer.Prelude.{
  ◌≡◌, refl, String, str_eq, eq_iff, true, Option, none, some, List, [], ◌∷◌, ◌++◌, arith,
  if◌then◌else◌, Bool-cases, inl, inr,
}
use mathlib.Core.List.{append_assoc, append-nil}
use interviewer.Floats.{Floats}
use interviewer.Values.{Result, ok, err}
use interviewer.Exec.{Exec, pure, gets, continue}
use interviewer.Exec.Sequence.{◌>>=◌}
use interviewer.Tools.{Host}
use interviewer.Execute.{ToolState}
use interviewer.Events.{RuntimeEventType, TraceContext}
use interviewer.Memory.{AgentMessage, append_message, extend, history}
use interviewer.Memory.History.{history-extend}
use interviewer.AgentLoop.{
  AgentRunRequest, AgentLoop, LoopState, Run, LlmRequest, on_tools, always, set_run, fresh_id,
  clock, child_of, parent_or, child_trace, emit_event, add_message, specs,
}
use interviewer.AgentLoop.Rounds.{ask_provider, llm_request_of}

module _ ⦃F : Floats⦄ ⦃H : Host⦄ (key : String) where
  -- The new messages end the transcript and the history of the key; other histories stay.
  pub record AddsJust (new : List AgentMessage) (from to : LoopState) : Type 0 where
    pub messages : to.run.messages ≡ from.run.messages ++ new
    pub histories :
        (other : String)
        → history to.memory other none ≡ (
            if str_eq key other
            then history from.memory key none ++ new
            else history from.memory other none)

  pub record Adds (from to : LoopState) : Type 0 where
    pub new : List AgentMessage
    pub just : AddsJust new from to

  pub nothing :
      (from to : LoopState)
      → to.run.messages ≡ from.run.messages
      → to.memory ≡ from.memory
      → Adds from to
  nothing from to same_messages same_memory = record {
    new = [];
    just = record {
      messages = rw (append-nil from.run.messages) same_messages;
      histories = λ other. elim (Bool-cases (str_eq key other)) [
        | inl same ↦
            let here_is : key ≡ other = ground (arith, eq_iff key other) in
            rw (same, append-nil (history from.memory key none), same_memory, here_is) refl
        | inr apart ↦ rw (apart, same_memory) refl
      ];
    };
  }

  pub both :
      (ms ns : List AgentMessage) (a b c : LoopState)
      → AddsJust ms a b
      → AddsJust ns b c
      → AddsJust (ms ++ ns) a c
  both ms ns a b c h k = record {
    messages = rw (k.messages, h.messages, append_assoc a.run.messages ms ns) refl;
    histories = λ other. elim (Bool-cases (str_eq key other)) [
      | inl same ↦
          let itself : str_eq key key ≡ true = ground (arith, eq_iff key key) in
          let first : history b.memory key none ≡ history a.memory key none ++ ms =
            rw itself at (h.histories key) in
          rw (k.histories other, same, first, append_assoc (history a.memory key none) ms ns) refl
      | inr apart ↦
          let first : history b.memory other none ≡ history a.memory other none =
            rw apart at (h.histories other) in
          rw (k.histories other, apart, first) refl
    ];
  }

  -- A step that adds messages.
  pub record Grows {A : Type 0} (m : Exec LoopState A) : Type 0 where
    pub grown : (s : LoopState) → Adds s (m s).1

  module _ {A B : Type 0} where
    grown_continue :
        (s : LoopState) (p : Result A × LoopState) (f : A → Exec LoopState B)
        → Adds s p.1
        → ((a : A) → Grows (f a))
        → Adds s (continue p.0 f p.1).1
    grown_continue s (ok a, t) f h k =
        let next = (k a).grown t in
        record {
          new = h.new ++ next.new;
          just = both h.new next.new s t (f a t).1 h.just next.just;
        }
    grown_continue s (err e, t) f h k = h

    pub Grows-bind :
        (m : Exec LoopState A) (f : A → Exec LoopState B)
        → Grows m
        → ((a : A) → Grows (f a))
        → Grows (m >>= f)
    unfolding ◌>>=◌
    Grows-bind m f h k = record { grown = λ s. grown_continue s (m s) f (h.grown s) k }

  pub fresh_id-Grows : Grows fresh_id
  fresh_id-Grows = record { grown = λ s. nothing _ _ refl refl }

  pub clock-Grows : Grows clock
  clock-Grows = record { grown = λ s. nothing _ _ refl refl }

  pub gets-Grows : {A : Type 0} (f : LoopState → A) → Grows (gets f)
  gets-Grows f = record { grown = λ s. nothing _ _ refl refl }

  pub pure-Grows : {A : Type 0} (a : A) → Grows (pure a)
  pure-Grows a = record { grown = λ s. nothing _ _ refl refl }

  pub on_tools-Grows : {A : Type 0} (m : Exec ToolState A) → Grows (on_tools m)
  on_tools-Grows m = record { grown = λ s. nothing _ _ refl refl }

  pub set_run-Grows :
      (f : Run → Run) → ((run : Run) → (f run).messages ≡ run.messages) → Grows (set_run f)
  set_run-Grows f h = record { grown = λ s. nothing _ _ (h s.run) refl }

  pub add_message-Grows : (m : AgentMessage) → Grows (add_message key m)
  unfolding add_message append_message extend
  add_message-Grows m = record {
    grown = λ s. record { new = m ∷ []; just = record { messages = refl; histories = added s } };
  }
    where
      added :
          (s : LoopState) (other : String)
          → history (append_message s.memory key m) other none ≡ (
              if str_eq key other
              then history s.memory key none ++ (m ∷ [])
              else history s.memory other none)
      added s other = history-extend s.memory key other (m ∷ [])

  module _ (request : AgentRunRequest) where
    pub child_trace-Grows :
        (kind : String) (parent : Option TraceContext)
        → Grows (always (child_trace request kind parent))
    unfolding child_trace
    child_trace-Grows kind parent = record {
      grown = λ s. of_trace (parent_or parent request.trace) s;
    }
      where
        of_trace : (t : Option TraceContext) (s : LoopState) → Adds s (child_of kind t s).1
        of_trace none s = nothing _ _ refl refl
        of_trace (some t) s = nothing _ _ refl refl

    pub emit_event-Grows :
        (type : RuntimeEventType) (trace : Option TraceContext)
        → Grows (emit_event type request trace)
    unfolding emit_event
    emit_event-Grows type trace = record { grown = λ s. nothing _ _ refl refl }

    pub llm_request_of-Grows : Grows (llm_request_of request)
    unfolding llm_request_of specs
    llm_request_of-Grows =
        Grows-bind (specs _ _) _ (record { grown = λ s. nothing _ _ refl refl })
          (λ tools. Grows-bind _ _ (gets-Grows (λ s. s.run.messages)) (λ messages. pure-Grows _))

    pub ask_provider-Grows :
        (loop : AgentLoop) (asked : LlmRequest) → Grows (ask_provider loop request asked)
    unfolding ask_provider
    ask_provider-Grows loop asked = record { grown = λ s. nothing _ _ refl refl }
