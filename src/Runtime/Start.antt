-- ===== src/Runtime/Start.antt =====
-- How a session starts, and how a durable record of a tool is stored
-- (runtime/interview_runtime.py of src/interview_agent_runtime).
use interviewer.Prelude.{
  String, str_eq, Option, none, some, List, [], ◌∷◌, if◌then◌else◌, or_else, insert,
}
use interviewer.Floats.{Floats}
use interviewer.Unicode.{Unicode}
use interviewer.Values.{Value, Fields, end, value_error}
use interviewer.Exec.{Exec, pure, raise, gets, ◌>>=◌, ◌>>◌}
use interviewer.Blackboard.New.{new_board}
use interviewer.Blackboard.{InterviewBlackboard}
use interviewer.ToolRecords.{DurableToolExecutionRecord, fingerprint}
use interviewer.Events.{session_started}
use interviewer.Runtime.{Outside, RuntimeState, save, post, bind, session_trace}

module _ ⦃F : Floats⦄ ⦃U : Unicode⦄ ⦃E : Outside⦄ where
  abbrev text_or_null : Option String → Value
  text_or_null none = Value.null
  text_or_null (some t) = Value.str t

  -- `start_session`, with the identifiers of the session and of its trace.
  unfoldable pub start_session :
      String
      → String
      → Option Fields
      → Option Fields
      → Option String
      → Option (List String)
      → Exec RuntimeState InterviewBlackboard
  start_session session trace resume jd candidate_id allowed = do
    now ← gets (λ s. E.now s.outside)
    let board = record (new_board session trace now) {
      session_inputs =
          ("resume", Value.dict (or_else resume end))
          ∷ ("jd", Value.dict (or_else jd end))
          ∷ ("candidate_id", text_or_null candidate_id)
          ∷ [];
      session_allowed_tools = allowed;
    }
    bind session (session_trace board)
    save board
    post session_started session
    pure board

  -- `_persist_durable_tool_record`: the record is stored under its fingerprint.
  unfoldable pub persist_durable_tool_record :
      InterviewBlackboard → DurableToolExecutionRecord → Exec RuntimeState (Unit {0})
  persist_durable_tool_record board r =
      let key = fingerprint r.invocation_key in
      if str_eq key ""
      then raise value_error
      else save (record board { durable_tool_records = insert board.durable_tool_records key r })
