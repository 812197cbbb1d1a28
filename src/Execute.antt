-- ===== src/Execute.antt =====
-- `ToolExecutor.execute` (src/interview_agent_runtime/tools/registry.py): one call under the
-- run's governance of repeated calls. The call is admitted or settled, runs, and is recorded; the
-- three parts are functions of their own, since the calls of a parallel group interleave there.
-- A stored result is the object that the caller gets; the two fields that `execute_batch` sets on
-- it later are not read from the store by anything, and are set here on the caller's copy only.
pub mod Repeats
pub mod Once
pub mod Later
pub mod Answers
use Prim.Native.String.{◌++◌ as append}
use interviewer.Prelude.{
  ℕ, ◌+◌, ◌-◌, String, str_eq, Bool, true, false, not, ◌&&◌, ◌||◌, Option, none, some, List, [],
  ◌∷◌, ◌++◌, leb, if◌then◌else◌, or_else, length, Dict, lookup, insert,
}
use interviewer.Floats.{Floats, Float}
use interviewer.Values.{
  Value, null, Fields, Error, key_error, tool_permission_error, tool_execution_error,
  tool_timeout_error, tool_durability_error, Result, ok, err,
}
use interviewer.ToolRecords.{
  ToolInvocationKey, same_key, fingerprint, ToolResult, ToolExecutionRecord,
  DurableToolExecutionRecord,
}
use interviewer.Tools.{Host, World, ToolSpec, Tool, ToolContext, ToolRegistry, resolve, call}
use interviewer.Governance.{
  ToolCall, lookup_key, insert_key, ToolGovernanceState, new_governance, unique_tool_calls,
  repeated_tool_call, base_result, rejected_result, recovered_result, cached_result, reject,
  repeat_ok, repeat_call, count_again, pending_record, recovered_record, admit_fresh,
  is_recoverable, durable_result, admit,
}

-- How the executor is set up: `resource_version_resolver` and the callback that stores a durable
-- record are given by the caller, or none.
pub record ToolExecutor ⦃F : Floats⦄ ⦃H : Host⦄ : Type 0 where
  pub registry : ToolRegistry
  pub version_for : Option (ToolSpec → Fields → World → Result (Option String) × World)
  pub persist : Option (DurableToolExecutionRecord → World → Result (Unit {0}) × World)
  pub visible_tools : List String
  pub context : ToolContext
  pub run_id : Option String
  -- `resource_resolver`, the default one if none is given.
  pub resource_key : ToolSpec → Fields → Option String
  -- Whether `concurrency_mode` is "parallel_safe".
  pub is_parallel : Bool

module _ ⦃F : Floats⦄ ⦃H : Host⦄ where
  -- What a run of the loop shares between its calls. The loop always gives a governance state;
  -- the durable records may be left out.
  pub record ToolState : Type 0 where
    pub governance : ToolGovernanceState
    pub durable_records : Option (Dict DurableToolExecutionRecord)
    pub world : World

  unfoldable pub resource_version :
      Option (ToolSpec → Fields → World → Result (Option String) × World)
      → ToolSpec
      → Fields
      → World
      → Result (Option String) × World
  resource_version none spec args w = (ok none, w)
  resource_version (some resolver) spec args w = resolver spec args w

  unfoldable pub key_of : ToolCall → Option String → ToolInvocationKey
  key_of c version = record {
    tool_name = c.name;
    normalized_arguments = H.dumps_sorted c.arguments;
    resource_version = version;
  }

  -- `str(exc)`: the text of a KeyError is quoted.
  unfoldable pub message : ToolContext → String → Error → String
  message context name key_error = append "'Tool not registered: " (append name "'")
  message context name tool_permission_error =
      append "Tool not authorized for " (append context.agent_name (append ": " name))
  message context name tool_timeout_error = append "Tool timed out: " name
  message context name _ = append "Tool execution failed: " name

  abbrev is_timeout : Error → Bool
  is_timeout tool_timeout_error = true
  is_timeout _ = false

  -- The result of a call that ran or was refused.
  unfoldable pub outcome : ToolContext → ToolCall → Result Value → Float → ToolResult
  unfolding message
  outcome context c (ok value) ms = record (base_result c) { value = value; duration_ms = ms }
  outcome context c (err e) ms = record (base_result c) {
    ok = false;
    error = some (message context c.name e);
    duration_ms = ms;
    status = if is_timeout e then "retryable_error" else "error";
    retryable = is_timeout e;
  }

  set_result :
      ToolInvocationKey
      → ToolResult
      → Option ToolExecutionRecord
      → List (ToolInvocationKey × ToolExecutionRecord)
      → List (ToolInvocationKey × ToolExecutionRecord)
  set_result key r none records = records
  set_result key r (some old) records =
      insert_key records key (record old { status = r.status; result = some r })

  -- The record of an admitted call is there. Only a success that may be repeated is cached.
  unfoldable pub record_result :
      ToolSpec → ToolInvocationKey → ToolResult → ToolGovernanceState → ToolGovernanceState
  unfolding set_result
  record_result spec key r g = record g {
    records = set_result key r (lookup_key g.records key) g.records;
    cache =
        if r.ok && (spec.idempotent && not spec.side_effect)
        then insert_key g.cache key r
        else g.cache;
    consecutive_duplicate_rejections = 0;
  }

  abbrev durable_record :
      ToolExecutor → Tool → ToolInvocationKey → ToolResult → World → DurableToolExecutionRecord
  durable_record x tool key r w = record {
    invocation_key = key;
    tool_name = tool.spec.name;
    status = r.status;
    result = some r;
    result_reference = H.sha256 16 (H.dumps r.value);
    side_effect = tool.spec.side_effect;
    idempotency_key = some (append "idem_" (H.sha256 20 (fingerprint key)));
    completed_at = if str_eq r.status "success" then some (H.utc_now w) else none;
    run_id = x.run_id;
    tool_call_id = r.tool_call_id;
  }

  -- The callback's own failure becomes a ToolDurabilityError.
  store_durable :
      Option (DurableToolExecutionRecord → World → Result (Unit {0}) × World)
      → DurableToolExecutionRecord
      → World
      → Result (Unit {0}) × World
  store_durable none d w = (ok tt, w)
  store_durable (some persist) d w =
      let (r, w') = persist d w in (elim r [ ok _ ↦ ok tt | err _ ↦ err tool_durability_error ], w')

  pub persist_durable :
      ToolExecutor
      → Tool
      → ToolInvocationKey
      → ToolResult
      → Option (Dict DurableToolExecutionRecord)
      → ToolState
      → Result (Unit {0}) × ToolState
  unfolding store_durable
  persist_durable x tool key r none s = (ok tt, s)
  persist_durable x tool key r (some durable) s =
      if not tool.spec.side_effect
      then (ok tt, s)
      else (let d = durable_record x tool key r s.world in
          let (done, w) = store_durable x.persist d s.world in
          (
            done,
            record s { durable_records = some (insert durable (fingerprint key) d); world = w },
          ))

  -- What stands between the governance of a call and the end of its execution.
  pub data Admission : Type 0 where
    settled : ToolResult → Admission
    -- The tool and its key, where the tool is known.
    go_ahead : Option (Tool × ToolInvocationKey) → Admission

  unfoldable pub admission : Tool → ToolInvocationKey → Option ToolResult → Admission
  admission tool key none = go_ahead (some (tool, key))
  admission tool key (some r) = settled r

  admit_versioned :
      Tool → ToolCall → ℕ → Result (Option String) → ToolState → Result Admission × ToolState
  unfolding admission
  admit_versioned tool c round (err key_error) s = (ok (go_ahead none), s)
  admit_versioned tool c round (err e) s = (err e, s)
  admit_versioned tool c round (ok version) s =
      let key = key_of c version in
      let (settled_by, g) =
        admit s.governance (or_else s.durable_records []) tool.spec c key round in
      (ok (admission tool key settled_by), record s { governance = g })

  admit_resolved :
      ToolExecutor → ToolCall → ℕ → Result Tool → ToolState → Result Admission × ToolState
  unfolding admit_versioned resource_version
  admit_resolved x c round (err e) s = (ok (go_ahead none), s)
  admit_resolved x c round (ok tool) s =
      let (version, w) = resource_version x.version_for tool.spec c.arguments s.world in
      admit_versioned tool c round version (record s { world = w })

  -- The first part of `execute`. A KeyError on the way leaves the call without governance; another
  -- error of the version resolver goes on to the caller.
  unfoldable pub begin_call : ToolExecutor → ToolCall → ℕ → ToolState → Result Admission × ToolState
  unfolding admit_resolved
  begin_call x c round s = admit_resolved x c round (resolve x.registry c.name) s

  after_persist : ToolResult → Result (Unit {0}) × ToolState → Result ToolResult × ToolState
  after_persist r (ok _, s) = (ok r, s)
  after_persist r (err e, s) = (err e, s)

  -- The last part: the outcome is recorded, and a side effect is made durable.
  unfoldable pub finish_call :
      ToolExecutor
      → ToolCall
      → Option (Tool × ToolInvocationKey)
      → Result Value
      → ToolState
      → Result ToolResult × ToolState
  unfolding persist_durable after_persist
  finish_call x c none value s = (ok (outcome x.context c value (H.elapsed_ms s.world)), s)
  finish_call x c (some (tool, key)) value s =
      let r = outcome x.context c value (H.elapsed_ms s.world) in
      after_persist r (
        persist_durable x tool key r s.durable_records
          (record s { governance = record_result tool.spec key r s.governance }))

  unfoldable pub run_admitted :
      ToolExecutor → ToolCall → Admission → ToolState → Result ToolResult × ToolState
  run_admitted x c (settled r) s = (ok r, s)
  run_admitted x c (go_ahead governed) s =
      let (value, w) = call x.registry c.name c.arguments x.context x.visible_tools s.world in
      finish_call x c governed value (record s { world = w })

  run_begun : ToolExecutor → ToolCall → Result Admission × ToolState → Result ToolResult × ToolState
  unfolding run_admitted
  run_begun x c (ok a, s) = run_admitted x c a s
  run_begun x c (err e, s) = (err e, s)

  unfoldable pub execute : ToolExecutor → ToolCall → ℕ → ToolState → Result ToolResult × ToolState
  unfolding run_begun
  execute x c round s = run_begun x c (begin_call x c round s)
