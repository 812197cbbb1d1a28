-- ===== src/Examples/Loops.antt =====
-- A run of the loop whose model asks for tools in every round.
use interviewer.Prelude.{
  ◌+◌, ◌≡◌, ◌≤◌, String, str_eq, true, some, none, List, [], ◌∷◌, ◌++◌, if◌then◌else◌, length,
}
use interviewer.Values.{ok}
use interviewer.Skills.{react}
use interviewer.Memory.{AgentMessage, user_message, assistant_message, history}
use interviewer.AgentLoop.{AgentRunRequest, AgentLoop, LoopState, child_trace}
use interviewer.AgentLoop.Invocation.{run, new_run, memory_key_of, context_messages}
use interviewer.AgentLoop.Budgets.{run-IsWithin}
use interviewer.AgentLoop.Transcript.{run-Adds}
use interviewer.Examples.{numbers, host, letters, number}
use interviewer.Examples.Calls.{fresh}
use interviewer.Examples.Batches.{parallel, three_calls}

abbrev greedy : AgentLoop
greedy = record {
  chat = λ asked w. (
    number 1,
    ok (record {
      message = assistant_message "m2" 1 (some "") three_calls;
      model = "test";
      finish_reason = "tool_calls";
      prompt_tokens = 5;
      completion_tokens = 5;
      total_tokens = 10;
      raw = [];
    }),
    w + 1,
  );
  compressor = none;
}

abbrev request : AgentRunRequest
request = record {
  session_id = "s1";
  agent_name = "evaluator";
  skill_name = "evaluate";
  initial_messages = user_message "m1" 0 "Evaluate the answer." ∷ [];
  tool_executor = parallel;
  schedules = λ round i. [];
  response_schema = none;
  max_rounds = 4;
  max_tool_calls = 8;
  token_budget = 2000;
  timeout_seconds = number 15;
  memory_key = none;
  memory_scope = none;
  blackboard = none;
  memory_limit = none;
  include_interaction_memory = true;
  include_domain_snapshot = true;
  trace = none;
  execution_strategy = react;
  max_duplicate_calls = 1;
  durable_records = none;
  context_budget_tokens = none;
}

abbrev at_start : LoopState
at_start = record {
  memory = [];
  event_bus = none;
  tools = fresh;
  made = 0;
  run = new_run [] "m0" 0;
}

run-IsWithin_example :
    ((run greedy request at_start).0.executed_tool_calls ≤ 8)
    × ((length (run greedy request at_start).0.responses ≤ (run greedy request at_start).0.rounds)
        × ((run greedy request at_start).0.rounds ≤ 4))
run-IsWithin_example = run-IsWithin greedy request at_start

run-Adds_example :
    (new : List AgentMessage) × ((run greedy request at_start).0.messages
      ≡ context_messages greedy request (child_trace request "loop" none at_start).1
        ++ (request.initial_messages ++ new))
    × ((other : String)
        → history (run greedy request at_start).1.memory other none ≡ (
            if str_eq (memory_key_of request) other
            then history [] (memory_key_of request) none ++ (request.initial_messages ++ new)
            else history [] other none))
run-Adds_example = run-Adds greedy request at_start
