-- ===== src/Examples/Calls.antt =====
-- Runs of a tool and of a task.
use interviewer.Prelude.{
  ℕ, zero, suc, ◌+◌, ◌≡◌, refl, true, false, ◌&&◌, none, some, [], ◌∷◌, contains, or_else, lookup,
  String,
}
use interviewer.Values.{null, str, end, Result, ok, err, tool_permission_error, runtime_error}
use interviewer.Stage.{listening}
use interviewer.Tools.{Tool, ToolContext, ToolRegistry, ToolPolicy, authorize, resolve, call}
use interviewer.Tools.Authorize.{contains-authorize, call-authorize, admits}
use interviewer.ToolRecords.{ToolResult, ToolExecutionRecord, same_key}
use interviewer.Execute
use interviewer.Governance.{admit, admit_fresh, ToolCall, new_governance, lookup_key}
use interviewer.Execute.{ToolExecutor, ToolState, key_of}
use interviewer.Execute.Repeats.{execute_final}
use interviewer.Execute.Later.{after_calls, execute_once}
use interviewer.TaskExecutor
use interviewer.TaskExecutor.{ExecutionPolicy}
use interviewer.TaskExecutor.Attempts.{IsFirstSuccess, execute-IsFirstSuccess}
use interviewer.Examples.{numbers, host, Number, number, board_in}

-- A tool with a side effect: it counts its runs.
abbrev pub count_tool : Tool
count_tool = record {
  spec = record {
    name = "count";
    description = "";
    input_schema = null;
    output_schema = none;
    timeout_seconds = none;
    side_effect = true;
    idempotent = false;
    parallel_safe = false;
    source = "local";
  };
  handler = λ context args w. (number 0, ok (str "counted"), w + 1);
  metadata = [];
}

abbrev tools : ToolRegistry
tools = ("count", count_tool) ∷ []

abbrev pub context : ToolContext
context = record {
  session_id = "s1";
  agent_name = "evaluator";
  skill_name = "evaluate";
  blackboard = board_in listening;
}

abbrev policy : ToolPolicy
policy = ("evaluator", "count" ∷ "search" ∷ []) ∷ []

contains-authorize_example :
    contains (authorize policy "evaluator" ("count" ∷ []) none) "search" ≡ (
      contains (or_else (lookup policy "evaluator") []) "search"
      && contains ("count" ∷ []) "search"
      && true)
contains-authorize_example = contains-authorize policy "evaluator" ("count" ∷ []) none "search"

withheld :
    (contains (or_else (lookup policy "evaluator") []) "count"
      && contains ("count" ∷ []) "count"
      && admits (some []) "count")
    ≡ false
unfolding lookup
withheld = refl

call-authorize_example :
    call tools "count" end context (authorize policy "evaluator" ("count" ∷ []) (some [])) 7
    ≡ (err tool_permission_error, 7)
call-authorize_example =
    call-authorize policy "evaluator" ("count" ∷ []) (some []) tools "count" end context 7 withheld

abbrev pub executor : ToolExecutor
executor = record {
  registry = tools;
  version_for = none;
  persist = none;
  visible_tools = "count" ∷ [];
  context = context;
  run_id = some "r1";
  resource_key = λ spec args. none;
  is_parallel = false;
}

abbrev pub fresh : ToolState
fresh = record { governance = new_governance 2; durable_records = none; world = 0 }

abbrev count_call : String → ToolCall
count_call id = record { id = id; name = "count"; arguments = end }

abbrev counted : ToolResult
counted = record {
  tool_call_id = "c1";
  tool_name = "count";
  ok = true;
  value = str "counted";
  error = none;
  duration_ms = number 1;
  status = "success";
  cache_hit = false;
  duplicate = false;
  retryable = false;
  execution_mode = "sequential";
  resource_key = none;
}

abbrev after_one : ToolState
after_one = (Execute.execute executor (count_call "c1") 1 fresh).1

known : lookup tools "count" ≡ some count_tool
unfolding lookup
known = refl

counted_once : Execute.execute executor (count_call "c1") 1 fresh ≡ (ok counted, after_one)
unfolding Execute.execute Execute.begin_call resolve lookup admit admit_fresh lookup_key
    Execute.finish_call Execute.outcome call
counted_once = refl

-- Another call comes in between.
abbrev later_state : ToolState
later_state =
    after_calls executor ((record (count_call "c3") { name = "search" }, 2) ∷ []) after_one

execute_once_example :
    ((Execute.execute executor (count_call "c2") 3 later_state).1.world ≡ later_state.world)
    × ((Execute.execute executor (count_call "c2") 3 later_state).1.durable_records
        ≡ later_state.durable_records)
execute_once_example =
    execute_once executor (count_call "c1") (count_call "c2")
      ((record (count_call "c3") { name = "search" }, 2) ∷ []) 1 3 fresh after_one count_tool
      counted refl known counted_once refl refl refl

abbrev count_record : ToolExecutionRecord
count_record = record {
  invocation_key = key_of (count_call "c1") none;
  tool_call_id = "c1";
  status = "success";
  result = some counted;
  invocation_count = 1;
  first_round = 1;
  last_round = 1;
}

abbrev recorded : ToolState
recorded = record fresh {
  governance = record (new_governance 2) {
    records = (key_of (count_call "c1") none, count_record) ∷ [];
  };
}

found_record :
    lookup_key recorded.governance.records (key_of (count_call "c2") none) ≡ some count_record
unfolding lookup_key key_of same_key
found_record = refl

execute_final_example :
    ((Execute.execute executor (count_call "c2") 2 recorded).1.world ≡ 0)
    × ((Execute.execute executor (count_call "c2") 2 recorded).1.durable_records ≡ none)
execute_final_example =
    execute_final executor (count_call "c2") 2 recorded count_tool count_record refl known
      found_record refl

abbrev twice : ExecutionPolicy ℕ String
twice = record {
  timeout_seconds = number 5;
  retry = 1;
  fallback = none;
  name = "twice";
  max_iterations = 1;
  max_tool_calls = 1;
  max_duplicate_calls = 1;
}

-- Fails in the first world and succeeds in the others.
abbrev flaky : ℕ → Number × Result String × ℕ
flaky zero = (number 1, err runtime_error, 1)
flaky (suc w) = (number 1, ok "done", suc (suc w))

execute-IsFirstSuccess_example :
    IsFirstSuccess twice flaky 2 0 0 (TaskExecutor.execute twice flaky 0)
execute-IsFirstSuccess_example = execute-IsFirstSuccess twice flaky 0
