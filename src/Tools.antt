-- ===== src/Tools.antt =====
-- Tools, their registry and the authorization of their calls
-- (src/interview_agent_runtime/tools/registry.py). A handler is code that the caller registers; it
-- is a function on the state of the world outside, which says how long it took and what it gave.
pub mod Authorize
use Prim.Native.String.{◌++◌ as append}
use interviewer.Prelude.{
  ℕ, String, str_eq, Bool, true, false, not, ◌&&◌, Option, none, some, List, [], ◌∷◌, ◌++◌,
  if◌then◌else◌, or_else, keep, Dict, lookup, insert, contains, add,
}
use interviewer.Floats.{Floats, Float}
use interviewer.Values.{
  Value, Fields, Error, key_error, tool_permission_error, tool_execution_error, tool_timeout_error,
  timeout_error, Result, ok, err,
}
use interviewer.Blackboard.{InterviewBlackboard}

module _ ⦃F : Floats⦄ where
  pub record ToolContext : Type 0 where
    pub session_id : String
    pub agent_name : String
    pub skill_name : String
    pub blackboard : InterviewBlackboard

  pub record ToolSpec : Type 0 where
    pub name : String
    pub description : String
    pub input_schema : Value
    pub output_schema : Option Value
    pub timeout_seconds : Option Float
    pub side_effect : Bool
    pub idempotent : Bool
    pub parallel_safe : Bool
    pub source : String

-- What the executor uses of its surroundings.
pub record Host ⦃F : Floats⦄ : Type 1 where
  pub World : Type 0
  -- `json.dumps` with sorted keys and without spaces.
  pub dumps_sorted : Fields → String
  -- `json.dumps` of a result, and the first digits of the digest by `hashlib.sha256`.
  pub dumps : Value → String
  -- `json.loads`; none stands for a JSONDecodeError.
  pub loads : String → Option Value
  pub sha256 : ℕ → String → String
  -- The milliseconds since `started`, and the time of day.
  pub elapsed_ms : World → Float
  pub utc_now : World → ℕ
  -- The digits that `uuid4` gives, by how often it was called before.
  pub fresh_id : ℕ → String

module _ ⦃F : Floats⦄ ⦃H : Host⦄ where
  abbrev pub World : Type 0
  World = H.World

  -- The seconds that the handler took, and what it returned or raised.
  abbrev pub ToolHandler : Type 0
  ToolHandler = ToolContext → Fields → World → Float × Result Value × World

  pub record Tool : Type 0 where
    pub spec : ToolSpec
    pub handler : ToolHandler
    pub metadata : Dict Value

  abbrev pub ToolRegistry : Type 0
  ToolRegistry = Dict Tool

  unfoldable pub register : ToolRegistry → Tool → ToolRegistry
  register tools tool = insert tools tool.spec.name tool

  registered : Option Tool → Result Tool
  registered none = err key_error
  registered (some tool) = ok tool

  unfoldable pub resolve : ToolRegistry → String → Result Tool
  unfolding registered
  resolve tools name = registered (lookup tools name)

  -- `asyncio.wait_for`, and the translation of what the handler raises.
  unfoldable pub translate : Result Value → Result Value
  translate (ok value) = ok value
  translate (err timeout_error) = err tool_timeout_error
  translate (err _) = err tool_execution_error

  unfoldable pub await_handler : Option Float → Float → Result Value → Result Value
  unfolding translate
  await_handler none seconds r = translate r
  await_handler (some limit) seconds r =
      if F.lt limit seconds then err tool_timeout_error else translate r

  unfoldable pub run_handler : Tool → ToolContext → Fields → World → Result Value × World
  unfolding await_handler
  run_handler tool context args w =
      let (seconds, r, w') = tool.handler context args w in
      (await_handler tool.spec.timeout_seconds seconds r, w')

  call_resolved : Result Tool → ToolContext → Fields → World → Result Value × World
  unfolding run_handler
  call_resolved (err e) context args w = (err e, w)
  call_resolved (ok tool) context args w = run_handler tool context args w

  -- `ToolExecutor.call`: the permission is looked at before the registry.
  unfoldable pub call :
      ToolRegistry → String → Fields → ToolContext → List String → World → Result Value × World
  unfolding call_resolved resolve
  call tools name args context visible w =
      if not (contains visible name)
      then (err tool_permission_error, w)
      else call_resolved (resolve tools name) context args w

-- The sets of texts that `authorize` meets are lists without repetition.
abbrev meet : List String → List String → List String
meet xs ys = keep (contains ys) xs

-- `allowed | declared`
unfoldable pub join : List String → List String → List String
join xs [] = xs
join xs (y ∷ ys) = join (add xs y) ys

-- `ToolPolicy`: the tools that each agent may use.
abbrev pub ToolPolicy : Type 0
ToolPolicy = Dict (List String)

abbrev pub default_policy : ToolPolicy
default_policy =
    ("ProfileAgent", "resume.retrieve" ∷ "jd.retrieve" ∷ [])
    ∷ ("PlannerAgent", "jd.retrieve" ∷ "rubric.retrieve" ∷ [])
    ∷ (
      "QuestionAgent",
      "resume.retrieve" ∷ "jd.retrieve" ∷ "question_bank.search" ∷ "knowledge.retrieve" ∷ [],
    )
    ∷ ("EvaluatorAgent", "rubric.retrieve" ∷ "knowledge.retrieve" ∷ "answer.semantic_match" ∷ [])
    ∷ ("FollowUpAgent", "rubric.retrieve" ∷ "knowledge.retrieve" ∷ [])
    ∷ ("ReportAgent", "evaluation.history" ∷ "evidence.aggregate" ∷ [])
    ∷ []

unfoldable pub authorize : ToolPolicy → String → List String → Option (List String) → List String
unfolding join
authorize policy agent declared session =
    let allowed = or_else (lookup policy agent) [] in
    meet (meet allowed declared) (or_else session (join allowed declared))
