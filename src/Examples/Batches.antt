-- ===== src/Examples/Batches.antt =====
-- Runs of a batch with two calls that are safe in parallel and one that is not.
use interviewer.Prelude.{lookup, ℕ, String, ◌≡◌, refl, true, false, List, [], ◌∷◌}
use interviewer.Values.{Result, ok, err, end}
use interviewer.Tools.{Tool, Host}
use interviewer.Governance.{ToolCall}
use interviewer.Execute.{ToolExecutor, ToolState}
use interviewer.Batch.{
  Batch, ToolBatchResult, empty_batch, execute_batch, take_calls, take_call, take_known,
  invocation_key, place, run_alone, flush_members, gather, advance_at, tasks_of, advance_task,
  collect, complete_all, complete_task, put_group, resource_of,
}
use interviewer.Tools
use interviewer.Tools.{resolve}
use interviewer.Execute
use interviewer.Execute.{key_of, begin_call, finish_call, outcome, run_admitted, record_result}
use interviewer.Governance.{admit, admit_fresh, lookup_key, insert_key}
use interviewer.ToolRecords.{same_key}
use interviewer.Batch.Tasks.{AnswersAll}
use interviewer.Batch.Order.{execute_batch-AnswersAll}
use interviewer.Batch.Groups.{IsParallel, take_calls-IsParallel}
use interviewer.Examples.{numbers, host}
use interviewer.Examples.Calls.{count_tool, executor, fresh}

abbrev reading : String → Tool
reading name = record count_tool {
  spec = record count_tool.spec {
    name = name;
    side_effect = false;
    idempotent = true;
    parallel_safe = true;
  };
}

abbrev pub parallel : ToolExecutor
parallel = record executor {
  registry = ("search", reading "search") ∷ ("fetch", reading "fetch") ∷ ("count", count_tool) ∷ [];
  visible_tools = "search" ∷ "fetch" ∷ "count" ∷ [];
  is_parallel = true;
}

abbrev calling : String → String → ToolCall
calling id name = record { id = id; name = name; arguments = end }

abbrev pub three_calls : List ToolCall
three_calls = calling "c1" "search" ∷ calling "c2" "fetch" ∷ calling "c3" "count" ∷ []

-- The second task goes on first.
abbrev turns : ℕ → List ℕ
turns i = 1 ∷ 1 ∷ 0 ∷ 1 ∷ []

abbrev or_default : {A : Type 0} → Result A → A → A
or_default (ok a) d = a
or_default (err e) d = d

abbrev no_result : ToolBatchResult
no_result = record {
  results = [];
  parallel_tool_batches = 0;
  max_parallelism = 0;
  sequential_tool_calls = 0;
  resource_conflicts = 0;
}

abbrev batch_run : Result ToolBatchResult × ToolState
batch_run = execute_batch parallel 1 turns three_calls fresh

abbrev batch_given : ToolBatchResult
batch_given = or_default batch_run.0 no_result

given : execute_batch parallel 1 turns three_calls fresh ≡ (ok batch_given, batch_run.1)
unfolding execute_batch take_calls take_call resolve lookup take_known invocation_key place same_key
    key_of run_alone flush_members gather advance_at tasks_of advance_task begin_call finish_call
    outcome run_admitted admit admit_fresh lookup_key Tools.call Execute.execute collect
    complete_all complete_task put_group resource_of insert_key record_result
given = refl

execute_batch-AnswersAll_example : AnswersAll three_calls batch_given.results
execute_batch-AnswersAll_example =
    execute_batch-AnswersAll parallel 1 turns three_calls fresh batch_run.1 batch_given given

abbrev two_taken : Result Batch × ToolState
two_taken =
    take_calls parallel 1 turns 0 (calling "c1" "search" ∷ calling "c2" "fetch" ∷ []) empty_batch
      fresh

abbrev group_given : Batch
group_given = or_default two_taken.0 empty_batch

taken :
    take_calls parallel 1 turns 0
      (calling "c1" "search" ∷ calling "c2" "fetch" ∷ [])
      empty_batch
      fresh
    ≡ (ok group_given, two_taken.1)
unfolding take_calls take_call resolve lookup take_known invocation_key place same_key key_of
taken = refl

take_calls-IsParallel_example : IsParallel parallel group_given.safe_group
take_calls-IsParallel_example =
    take_calls-IsParallel parallel 1 turns (calling "c1" "search" ∷ calling "c2" "fetch" ∷ []) fresh
      two_taken.1 group_given taken
