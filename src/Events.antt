-- ===== src/Events.antt =====
-- The event bus (src/interview_agent_runtime/runtime/events.py). The metadata, the message and the
-- time of an event are for observers only and are left out, and so is the observer.
use interviewer.Prelude.{String, Option, none, some, List, [], ◌∷◌, ◌++◌, Dict, lookup, insert}

pub data RuntimeEventType : Type 0 where
  session_started profile_created plan_created question_generated question_asked : RuntimeEventType
  answer_received answer_evaluated follow_up_decided state_transitioned : RuntimeEventType
  tool_called tool_succeeded tool_failed llm_requested llm_responded : RuntimeEventType
  agent_loop_started agent_loop_finished agent_loop_stopped : RuntimeEventType
  agent_started agent_finished checkpoint_created report_generated : RuntimeEventType
  review_required review_auto_completed human_review_submitted runtime_error : RuntimeEventType

pub record TraceContext : Type 0 where
  pub trace_id : String
  pub run_id : Option String
  pub span_id : Option String
  pub parent_span_id : Option String

pub record RuntimeEvent : Type 0 where
  pub type : RuntimeEventType
  pub session_id : String
  pub trace : Option TraceContext

pub record InMemoryEventBus : Type 0 where
  pub events : List RuntimeEvent
  pub session_traces : Dict TraceContext

unfoldable pub bind_trace : String → TraceContext → InMemoryEventBus → InMemoryEventBus
bind_trace session trace bus = record bus {
  session_traces = insert bus.session_traces session trace;
}

-- An event without a trace gets that of its session, if there is one.
abbrev trace_or : Option TraceContext → Option TraceContext → Option TraceContext
trace_or none bound = bound
trace_or (some t) bound = some t

unfoldable pub emit : RuntimeEvent → InMemoryEventBus → InMemoryEventBus
emit event bus = record bus {
  events =
      bus.events
      ++ (record event { trace = trace_or event.trace (lookup bus.session_traces event.session_id) }
          ∷ []);
}
