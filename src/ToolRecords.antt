-- ===== src/ToolRecords.antt =====
-- The records of tool invocations (src/interview_agent_runtime/tools/registry.py).
use Prim.Native.String.{◌++◌ as append}
use interviewer.Prelude.{
  ℕ, String, Bool, Option, none, some, str_eq, if◌then◌else◌, ◌&&◌, true, false,
}
use interviewer.Floats.{Floats, Float}
use interviewer.Values.{Value}

-- The arguments stand in their canonical text, as `json.dumps` with sorted keys gives it.
pub record ToolInvocationKey : Type 0 where
  pub tool_name : String
  pub normalized_arguments : String
  pub resource_version : Option String

abbrev pub version_text : Option String → String
version_text none = "-"
version_text (some v) = if str_eq v "" then "-" else v

unfoldable pub fingerprint : ToolInvocationKey → String
fingerprint k =
    append k.tool_name
      (append ":" (append k.normalized_arguments (append ":" (version_text k.resource_version))))

abbrev pub option_eq : Option String → Option String → Bool
option_eq none none = true
option_eq (some a) (some b) = str_eq a b
option_eq _ _ = false

-- The equality of the frozen dataclass, by which it is a key of dictionaries and sets.
unfoldable pub same_key : ToolInvocationKey → ToolInvocationKey → Bool
same_key a b =
    str_eq a.tool_name b.tool_name
    && str_eq a.normalized_arguments b.normalized_arguments
    && option_eq a.resource_version b.resource_version

module _ ⦃F : Floats⦄ where
  pub record ToolResult : Type 0 where
    pub tool_call_id : String
    pub tool_name : String
    pub ok : Bool
    pub value : Value
    pub error : Option String
    pub duration_ms : Float
    pub status : String
    pub cache_hit : Bool
    pub duplicate : Bool
    pub retryable : Bool
    pub execution_mode : String
    pub resource_key : Option String

  pub record ToolExecutionRecord : Type 0 where
    pub invocation_key : ToolInvocationKey
    pub tool_call_id : String
    pub status : String
    pub result : Option ToolResult
    pub invocation_count : ℕ
    pub first_round : ℕ
    pub last_round : ℕ

  pub record DurableToolExecutionRecord : Type 0 where
    pub invocation_key : ToolInvocationKey
    pub tool_name : String
    pub status : String
    pub result : Option ToolResult
    pub result_reference : String
    pub side_effect : Bool
    pub idempotency_key : Option String
    pub completed_at : Option ℕ
    pub run_id : Option String
    pub tool_call_id : String
