-- ===== src/Batch.antt =====
-- `ToolExecutor.execute_batch` (src/interview_agent_runtime/tools/registry.py): the calls of one
-- message. Calls of tools that are safe to run in parallel gather in a group, and the group runs
-- under `asyncio.gather`: its calls interleave as the event loop likes. A schedule says how: each
-- entry lets one task of the group go on to the next point at which it awaits, and what is left
-- after the schedule runs in order. Where a task raises, the batch raises; the other tasks of its
-- group go on unobserved, which is left out.
pub mod Tasks
pub mod Places
pub mod Order
pub mod Groups
use Prim.Native.String.{◌++◌ as append}
use interviewer.Prelude.{
  ℕ, zero, suc, ◌+◌, String, str_eq, Bool, true, false, not, ◌&&◌, ◌||◌, Option, none, some, List,
  [], ◌∷◌, ◌++◌, ltb, if◌then◌else◌, or_else, any, length, ◌==◌,
}
use interviewer.Floats.{Floats, Float}
use interviewer.Values.{Value, Fields, end, field, Error, Result, ok, err}
use interviewer.Exec.{Exec, pure, raise, ◌>>=◌, ◌>>◌}
use interviewer.ToolRecords.{ToolInvocationKey, same_key, ToolResult}
use interviewer.Tools.{Host, World, Tool, ToolSpec, resolve, call}
use interviewer.Governance.{ToolCall, base_result}
use interviewer.Execute
use interviewer.Execute.{
  ToolExecutor, ToolState, resource_version, key_of, Admission, settled, go_ahead, begin_call,
  run_admitted, finish_call,
}

-- `arguments["…"]` of a dictionary.
module _ ⦃F : Floats⦄ where
  unfoldable pub get_field : Fields → String → Option Value
  get_field end name = none
  get_field (field n v fs) name =
      let rest = get_field fs name in if str_eq n name then some v else rest

  abbrev prefixed : (Value → String) → String → Option Value → Option String → Option String
  prefixed show kind none otherwise = otherwise
  prefixed show kind (some v) otherwise = some (append kind (show v))

  -- `DefaultToolResourceResolver.resource_key`; `show` is the formatting of a value in a text.
  unfoldable pub default_resource_key : (Value → String) → Fields → Option String
  unfolding get_field
  default_resource_key show args = prefixed show "file:" (get_field args "path") (
      prefixed show "candidate:" (get_field args "candidate_id")
        (prefixed show "resource:" (get_field args "resource_id") none))

  pub record ToolBatchResult : Type 0 where
    pub results : List ToolResult
    pub parallel_tool_batches : ℕ
    pub max_parallelism : ℕ
    pub sequential_tool_calls : ℕ
    pub resource_conflicts : ℕ

  -- A call in the group, with its place in the batch and its resource.
  pub record Member : Type 0 where
    pub index : ℕ
    pub member_call : ToolCall
    pub resource : Option String

  -- The variables of `execute_batch`. `results` has the slots by their index.
  pub record Batch : Type 0 where
    pub results : ℕ → Option ToolResult
    pub seen_keys : List ToolInvocationKey
    pub safe_group : List Member
    pub parallel_batches : ℕ
    pub max_parallelism : ℕ
    pub sequential_calls : ℕ
    pub resource_conflicts : ℕ

  abbrev pub empty_batch : Batch
  empty_batch = record {
    results = λ i. none;
    seen_keys = [];
    safe_group = [];
    parallel_batches = 0;
    max_parallelism = 1;
    sequential_calls = 0;
    resource_conflicts = 0;
  }

  abbrev pub put : ℕ → ToolResult → Batch → Batch
  put i r b = record b { results = λ j. if j == i then some r else b.results j }

  -- The two fields that the batch sets on a result.
  abbrev pub marked : String → Option String → ToolResult → ToolResult
  marked mode resource r = record r { execution_mode = mode; resource_key = resource }

  -- A call that ran by itself.
  abbrev pub put_sequential : ℕ → Option String → ToolResult → Batch → Batch
  put_sequential i resource r b = record (put i (marked "sequential" resource r) b) {
    sequential_calls = b.sequential_calls + 1;
  }

  abbrev pub same_batch_result : ToolCall → ToolResult
  same_batch_result c = record (base_result c) {
    ok = false;
    error = some "duplicate tool invocation in the same batch rejected";
    status = "duplicate_rejected";
    duplicate = true;
  }

  abbrev pub missing_result : ToolCall → ToolResult
  missing_result c = record (base_result c) {
    ok = false;
    error = some "tool execution did not produce a result";
    status = "error";
  }

  abbrev pub same_resource : Option String → Option String → Bool
  same_resource (some a) (some b) = str_eq a b
  same_resource _ _ = false

  -- `ordered_results`
  unfoldable pub collect : (ℕ → Option ToolResult) → ℕ → List ToolCall → List ToolResult
  collect slots i [] = []
  collect slots i (c ∷ cs) = or_else (slots i) (missing_result c) ∷ collect slots (suc i) cs

module _ ⦃F : Floats⦄ ⦃H : Host⦄ where
  -- A call of the group on its way through `execute`.
  pub data Task : Type 0 where
    waiting : ToolCall → Task
    begun : ToolCall → Admission → Task
    called : ToolCall → Option (Tool × ToolInvocationKey) → Result Value → Task
    done : ToolResult → Task

  -- To the next point at which the task awaits.
  unfoldable pub advance_task : ToolExecutor → ℕ → Task → Exec ToolState Task
  advance_task x round (waiting c) = do a ← begin_call x c round; pure (begun c a)
  advance_task x round (begun c (settled r)) = pure (done r)
  advance_task x round (begun c (go_ahead governed)) = λ s.
      let (value, w) = call x.registry c.name c.arguments x.context x.visible_tools s.world in
      (ok (called c governed value), record s { world = w })
  advance_task x round (called c governed value) = do
    r ← finish_call x c governed value
    pure (done r)
  advance_task x round (done r) = pure (done r)

  -- To its end.
  unfoldable pub complete_task : ToolExecutor → ℕ → Task → Exec ToolState ToolResult
  complete_task x round (waiting c) = Execute.execute x c round
  complete_task x round (begun c a) = run_admitted x c a
  complete_task x round (called c governed value) = finish_call x c governed value
  complete_task x round (done r) = pure r

  unfoldable pub advance_at : ToolExecutor → ℕ → ℕ → List Task → Exec ToolState (List Task)
  advance_at x round k [] = pure []
  advance_at x round zero (t ∷ ts) = do t' ← advance_task x round t; pure (t' ∷ ts)
  advance_at x round (suc k) (t ∷ ts) = do ts' ← advance_at x round k ts; pure (t ∷ ts')

  unfoldable pub complete_all : ToolExecutor → ℕ → List Task → Exec ToolState (List ToolResult)
  complete_all x round [] = pure []
  complete_all x round (t ∷ ts) = do
    r ← complete_task x round t
    rs ← complete_all x round ts
    pure (r ∷ rs)

  -- `asyncio.gather` of the tasks, under a schedule.
  unfoldable pub gather : ToolExecutor → ℕ → List ℕ → List Task → Exec ToolState (List ToolResult)
  gather x round [] ts = complete_all x round ts
  gather x round (k ∷ ks) ts = do ts' ← advance_at x round k ts; gather x round ks ts'

  unfoldable pub tasks_of : List Member → List Task
  tasks_of [] = []
  tasks_of (m ∷ ms) = waiting m.member_call ∷ tasks_of ms

  -- `self._resource_key(self.registry.resolve(call.name).spec, call.arguments)`
  unfoldable pub resource_of : ToolExecutor → ToolCall → Exec ToolState (Option String)
  resource_of x c s = elim (resolve x.registry c.name) [
    | ok tool ↦ (ok (x.resource_key tool.spec c.arguments), s)
    | err e ↦ (err e, s)
  ]

  -- The results of a group go to their slots.
  unfoldable pub put_group :
      ToolExecutor → List Member → List ToolResult → Batch → Exec ToolState Batch
  put_group x (m ∷ ms) (r ∷ rs) b = do
    resource ← resource_of x m.member_call
    put_group x ms rs (put m.index (marked "parallel_safe" resource r) b)
  put_group x _ _ b = pure b

  abbrev max : ℕ → ℕ → ℕ
  max a b = if ltb a b then b else a

  -- `flush_safe_group`
  unfoldable pub flush_members :
      ToolExecutor → ℕ → List ℕ → List Member → Batch → Exec ToolState Batch
  flush_members x round schedule [] b = pure b
  flush_members x round schedule (m ∷ []) b = do
    r ← Execute.execute x m.member_call round
    resource ← resource_of x m.member_call
    pure (record (put_sequential m.index resource r b) { safe_group = [] })
  flush_members x round schedule (m ∷ n ∷ ms) b = do
    rs ← gather x round schedule (tasks_of (m ∷ n ∷ ms))
    b' ← put_group x (m ∷ n ∷ ms) rs (record b {
      parallel_batches = b.parallel_batches + 1;
      max_parallelism = max b.max_parallelism (length (m ∷ n ∷ ms));
    })
    pure (record b' { safe_group = [] })

  abbrev pub flush : ToolExecutor → ℕ → List ℕ → Batch → Exec ToolState Batch
  flush x round schedule b = flush_members x round schedule b.safe_group b

  -- `_invocation_key` of a call whose tool is known.
  unfoldable pub invocation_key : ToolExecutor → Tool → ToolCall → Exec ToolState ToolInvocationKey
  unfolding resource_version
  invocation_key x tool c = do
    version ← (λ s.
        let (v, w) = resource_version x.version_for tool.spec c.arguments s.world in
        (v, record s { world = w }))
    pure (key_of c version)

  -- The call runs by itself after the group before it.
  unfoldable pub run_alone :
      ToolExecutor → ℕ → List ℕ → ℕ → ToolCall → Option String → Batch → Exec ToolState Batch
  run_alone x round schedule i c resource b = do
    b' ← flush x round schedule b
    r ← Execute.execute x c round
    pure (put_sequential i resource r b')

  -- A call with a key that is new in the batch.
  unfoldable pub place :
      ToolExecutor → ℕ → List ℕ → ℕ → ToolCall → Tool → Batch → Exec ToolState Batch
  place x round schedule i c tool b =
      let resource = x.resource_key tool.spec c.arguments in
      if not (tool.spec.parallel_safe && x.is_parallel)
      then run_alone x round schedule i c resource b
      else if any (λ m. same_resource m.resource resource) b.safe_group
      then run_alone x round schedule i c resource
          (record b { resource_conflicts = b.resource_conflicts + 1 })
      else pure (record b {
        safe_group =
            b.safe_group ++ (record { index = i; member_call = c; resource = resource } ∷ []);
      })

  unfoldable pub take_known :
      ToolExecutor → ℕ → List ℕ → ℕ → ToolCall → Tool → Batch → Exec ToolState Batch
  take_known x round schedule i c tool b = do
    key ← invocation_key x tool c
    if any (same_key key) b.seen_keys
        then pure (put i (same_batch_result c) b)
        else place x round schedule i c tool (record b { seen_keys = b.seen_keys ++ (key ∷ []) })

  -- A tool that is not registered: `execute` says so in its result.
  unfoldable pub take_unknown : ToolExecutor → ℕ → ℕ → ToolCall → Batch → Exec ToolState Batch
  take_unknown x round i c b = do r ← Execute.execute x c round; pure (put_sequential i none r b)

  -- The body of the loop.
  unfoldable pub take_call : ToolExecutor → ℕ → List ℕ → ℕ → ToolCall → Batch → Exec ToolState Batch
  take_call x round schedule i c b = elim (resolve x.registry c.name) [
    | err e ↦ take_unknown x round i c b
    | ok tool ↦ take_known x round schedule i c tool b
  ]

  -- The schedules: one for each call's round, which may flush a group.
  unfoldable pub take_calls :
      ToolExecutor → ℕ → (ℕ → List ℕ) → ℕ → List ToolCall → Batch → Exec ToolState Batch
  take_calls x round schedules i [] b = pure b
  take_calls x round schedules i (c ∷ cs) b = do
    b' ← take_call x round (schedules i) i c b
    take_calls x round schedules (suc i) cs b'

  unfoldable pub execute_each : ToolExecutor → ℕ → List ToolCall → Exec ToolState (List ToolResult)
  execute_each x round [] = pure []
  execute_each x round (c ∷ cs) = do
    r ← Execute.execute x c round
    rs ← execute_each x round cs
    pure (r ∷ rs)

  batch_result : List ToolCall → Batch → ToolBatchResult
  batch_result cs b = record {
    results = collect b.results 0 cs;
    parallel_tool_batches = b.parallel_batches;
    max_parallelism = b.max_parallelism;
    sequential_tool_calls = b.sequential_calls;
    resource_conflicts = b.resource_conflicts;
  }

  execute_parallel :
      ToolExecutor → ℕ → (ℕ → List ℕ) → List ToolCall → Exec ToolState ToolBatchResult
  unfolding batch_result
  execute_parallel x round schedules cs = do
    b ← take_calls x round schedules 0 cs empty_batch
    b' ← flush x round (schedules (length cs)) b
    pure (batch_result cs b')

  unfoldable pub execute_batch :
      ToolExecutor → ℕ → (ℕ → List ℕ) → List ToolCall → Exec ToolState ToolBatchResult
  unfolding execute_parallel
  execute_batch x round schedules cs =
      if x.is_parallel then execute_parallel x round schedules cs else do
        rs ← execute_each x round cs
        pure (record {
          results = rs;
          parallel_tool_batches = 0;
          max_parallelism = 1;
          sequential_tool_calls = length cs;
          resource_conflicts = 0;
        })
