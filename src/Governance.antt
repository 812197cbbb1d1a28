-- ===== src/Governance.antt =====
-- The governance of repeated calls in a run (src/interview_agent_runtime/tools/registry.py): what
-- `ToolExecutor.execute` does with a call before it runs.
use interviewer.Prelude.{
  ℕ, ◌+◌, String, str_eq, Bool, true, false, not, ◌&&◌, Option, none, some, List, [], ◌∷◌, leb,
  if◌then◌else◌, or_else, length, Dict, lookup,
}
use interviewer.Floats.{Floats}
use interviewer.Values.{null, Fields}
use interviewer.ToolRecords.{
  ToolInvocationKey, same_key, fingerprint, ToolResult, ToolExecutionRecord,
  DurableToolExecutionRecord,
}
use interviewer.Tools.{ToolSpec}

-- `ToolCall` of messages/models.py.
module _ ⦃F : Floats⦄ where
  pub record ToolCall : Type 0 where
    pub id : String
    pub name : String
    pub arguments : Fields

-- A dictionary whose keys are invocation keys.
module _ {V : Type 0} where
  unfoldable pub lookup_key : List (ToolInvocationKey × V) → ToolInvocationKey → Option V
  lookup_key [] k = none
  lookup_key ((j, v) ∷ d) k = if same_key j k then some v else lookup_key d k

  unfoldable pub insert_key :
      List (ToolInvocationKey × V) → ToolInvocationKey → V → List (ToolInvocationKey × V)
  insert_key [] k v = (k, v) ∷ []
  insert_key ((j, w) ∷ d) k v = if same_key j k then (j, v) ∷ d else (j, w) ∷ insert_key d k v

module _ ⦃F : Floats⦄ where
  pub record ToolGovernanceState : Type 0 where
    pub max_duplicate_calls : ℕ
    pub records : List (ToolInvocationKey × ToolExecutionRecord)
    pub cache : List (ToolInvocationKey × ToolResult)
    pub cache_hits : ℕ
    pub duplicate_calls : ℕ
    pub consecutive_duplicate_rejections : ℕ

  -- A fresh state. A negative limit counts as 0.
  abbrev pub new_governance : ℕ → ToolGovernanceState
  new_governance limit = record {
    max_duplicate_calls = limit;
    records = [];
    cache = [];
    cache_hits = 0;
    duplicate_calls = 0;
    consecutive_duplicate_rejections = 0;
  }

  abbrev pub unique_tool_calls : ToolGovernanceState → ℕ
  unique_tool_calls g = length g.records

  abbrev pub repeated_tool_call : ToolGovernanceState → Bool
  repeated_tool_call g = leb 2 g.consecutive_duplicate_rejections

  -- A result with the defaults of the dataclass.
  abbrev pub base_result : ToolCall → ToolResult
  base_result c = record {
    tool_call_id = c.id;
    tool_name = c.name;
    ok = true;
    value = null;
    error = none;
    duration_ms = F.decimal 0 0;
    status = "success";
    cache_hit = false;
    duplicate = false;
    retryable = false;
    execution_mode = "sequential";
    resource_key = none;
  }

  abbrev pub rejected_result : ToolCall → String → ToolResult
  rejected_result c message = record (base_result c) {
    ok = false;
    error = some message;
    status = "duplicate_rejected";
    duplicate = true;
  }

  -- `recovered = durable.result or …`, then a result of this call with its contents.
  abbrev pub recovered_result : ToolCall → Option ToolResult → ToolResult
  recovered_result c stored =
      let r = or_else stored (base_result c) in
      record (base_result c) {
        ok = r.ok;
        value = r.value;
        error = r.error;
        status = "durable_recovered";
        cache_hit = true;
      }

  abbrev pub cached_result : ToolCall → ToolResult → ToolResult
  cached_result c r = record (base_result c) {
    ok = r.ok;
    value = r.value;
    error = r.error;
    status = "cache_hit";
    cache_hit = true;
  }

  abbrev pub reject :
      ToolGovernanceState → ToolCall → String → Option ToolResult × ToolGovernanceState
  reject g c message = (
    some (rejected_result c message),
    record g {
      duplicate_calls = g.duplicate_calls + 1;
      consecutive_duplicate_rejections = g.consecutive_duplicate_rejections + 1;
    },
  )

  -- A call whose key has a record with a result that is ok.
  unfoldable pub repeat_ok :
      ToolGovernanceState
      → ToolSpec
      → ToolCall
      → ToolInvocationKey
      → ℕ
      → ToolResult
      → Option ToolResult × ToolGovernanceState
  repeat_ok g spec c key count prior =
      if spec.side_effect
      then reject g c "duplicate side-effect invocation rejected"
      else if not spec.idempotent
      then reject g c "duplicate non-idempotent invocation rejected"
      else if leb count (g.max_duplicate_calls + 1)
      then (
        some (cached_result c (or_else (lookup_key g.cache key) prior)),
        record g { cache_hits = g.cache_hits + 1; consecutive_duplicate_rejections = 0 },
      )
      else reject g c "duplicate tool invocation rejected; use the existing result"

  -- A call whose key has a record: no result means that the call goes ahead.
  unfoldable pub repeat_call :
      ToolGovernanceState
      → ToolSpec
      → ToolCall
      → ToolInvocationKey
      → ℕ
      → Option ToolResult
      → Option ToolResult × ToolGovernanceState
  repeat_call g spec c key count none = reject g c "duplicate failed invocation rejected"
  repeat_call g spec c key count (some prior) =
      if prior.ok
      then repeat_ok g spec c key count prior
      else if str_eq prior.status "retryable_error"
      then (none, record g { consecutive_duplicate_rejections = 0 })
      else reject g c "duplicate failed invocation rejected"

  abbrev pub count_again : ToolExecutionRecord → ℕ → ToolExecutionRecord
  count_again r round = record r { invocation_count = r.invocation_count + 1; last_round = round }

  abbrev pub pending_record : ToolInvocationKey → ToolCall → ℕ → ToolExecutionRecord
  pending_record key c round = record {
    invocation_key = key;
    tool_call_id = c.id;
    status = "pending";
    result = none;
    invocation_count = 1;
    first_round = round;
    last_round = round;
  }

  abbrev pub recovered_record : ToolInvocationKey → ToolCall → ℕ → ToolResult → ToolExecutionRecord
  recovered_record key c round r = record (pending_record key c round) {
    status = "success";
    result = some r;
  }

  -- No success with a side effect among the durable records: by the records of this run.
  unfoldable pub admit_fresh :
      ToolGovernanceState
      → ToolSpec
      → ToolCall
      → ToolInvocationKey
      → ℕ
      → Option ToolExecutionRecord
      → Option ToolResult × ToolGovernanceState
  admit_fresh g spec c key round none =
      (none, record g { records = insert_key g.records key (pending_record key c round) })
  admit_fresh g spec c key round (some prior) =
      let again = count_again prior round in
      repeat_call (record g { records = insert_key g.records key again }) spec c key
        again.invocation_count again.result

  abbrev pub is_recoverable : Option DurableToolExecutionRecord → Bool
  is_recoverable none = false
  is_recoverable (some d) = str_eq d.status "success" && d.side_effect

  abbrev pub durable_result : Option DurableToolExecutionRecord → Option ToolResult
  durable_result none = none
  durable_result (some d) = d.result

  -- The governance of a call whose tool and key are known. Without a result the call goes ahead.
  unfoldable pub admit :
      ToolGovernanceState
      → Dict DurableToolExecutionRecord
      → ToolSpec
      → ToolCall
      → ToolInvocationKey
      → ℕ
      → Option ToolResult × ToolGovernanceState
  admit g durable spec c key round =
      let found = lookup durable (fingerprint key) in
      if is_recoverable found
      then (let r = recovered_result c (durable_result found) in
          (
            some r,
            record g {
              records = insert_key g.records key (recovered_record key c round r);
              cache_hits = g.cache_hits + 1;
            },
          ))
      else admit_fresh g spec c key round (lookup_key g.records key)
