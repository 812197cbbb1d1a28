-- ===== src/Batch/Order.antt =====
-- The order of the results of `execute_batch` (src/interview_agent_runtime/tools/registry.py).
use interviewer.Prelude.{
  ℕ, suc, ◌+◌, ◌≡◌, refl, String, Bool, true, false, not, ◌&&◌, Option, none, some, List, [], ◌∷◌,
  arith, if◌then◌else◌, All, Bool-cases, inl, inr, any, length,
}
use interviewer.Floats.{Floats}
use interviewer.Values.{Result, ok, err}
use interviewer.Exec.{Exec, pure, ◌>>=◌}
use interviewer.Exec.Ensures.{Ensures, Ensures-pure, Ensures-bind}
use interviewer.ToolRecords.{ToolResult, same_key}
use interviewer.Tools.{Host, Tool, resolve}
use interviewer.Governance.{ToolCall}
use interviewer.Execute.{ToolExecutor, ToolState}
use interviewer.Execute.Answers.{Answers, execute-Answers}
use interviewer.Batch.{
  tasks_of, Member, Batch, empty_batch, put_group, marked, resource_of, flush_members, flush,
  run_alone, place, take_known, take_unknown, take_call, take_calls, execute_each, execute_parallel,
  execute_batch, batch_result, same_batch_result, invocation_key, same_resource, ToolBatchResult,
}
use interviewer.Batch.Tasks.{AnswersAll, calls_of, gather-AnswersAll, tasks_of-TasksFor}
use interviewer.Batch.Places.{
  call_at, InPlace, empty-InPlace, put-slots, collect-AnswersAll, emptied, put_sequential-InPlace,
  All-snoc,
}

module _ ⦃F : Floats⦄ ⦃H : Host⦄ where
  abbrev Anything : {A : Type 0} → A → Type 0
  Anything a = Unit

  Ensures-Anything : {A : Type 0} (m : Exec ToolState A) → Ensures m Anything
  Ensures-Anything m = λ s s' a e. tt

  put_group-InPlace :
      (x : ToolExecutor) (cs : List ToolCall) (ms : List Member) (rs : List ToolResult) (b : Batch)
      → All (λ m. call_at cs m.index ≡ some m.member_call) ms
      → AnswersAll (calls_of ms) rs
      → InPlace cs b
      → Ensures (put_group x ms rs b) (InPlace cs)
  unfolding put_group
  put_group-InPlace x cs [] rs b at answers h = Ensures-pure (InPlace cs) b h
  put_group-InPlace x cs (m ∷ ms) [] b at answers h = Ensures-pure (InPlace cs) b h
  put_group-InPlace x cs (m ∷ ms) (r ∷ rs) b at answers h =
      Ensures-bind Anything (InPlace cs) _ _ (Ensures-Anything (resource_of x m.member_call))
        (λ resource _. put_group-InPlace x cs ms rs _ at.1 answers.1 (
          put-slots cs b m.index m.member_call (marked "parallel_safe" resource r) h at.0
            answers.0))

  flush_members-InPlace :
      (x : ToolExecutor) (round : ℕ) (schedule : List ℕ) (cs : List ToolCall) (ms : List Member)
      (b : Batch)
      → All (λ m. call_at cs m.index ≡ some m.member_call) ms
      → InPlace cs b
      → Ensures (flush_members x round schedule ms b) (InPlace cs)
  unfolding flush_members
  flush_members-InPlace x round schedule cs [] b at h = Ensures-pure (InPlace cs) b h
  flush_members-InPlace x round schedule cs (m ∷ []) b at h =
      Ensures-bind (Answers m.member_call) (InPlace cs) _ _ (execute-Answers x m.member_call round)
        (λ r answers.
          Ensures-bind Anything (InPlace cs) _ _ (Ensures-Anything (resource_of x m.member_call))
            (λ resource _. Ensures-pure (InPlace cs) _ (record {
              slots =
                  (put-slots cs b m.index m.member_call (marked "sequential" resource r) h at.0
                    answers).slots;
              group = tt;
            })))
  flush_members-InPlace x round schedule cs (m ∷ n ∷ ms) b at h =
      Ensures-bind (AnswersAll (calls_of (m ∷ n ∷ ms))) (InPlace cs) _ _
        (gather-AnswersAll x round schedule (calls_of (m ∷ n ∷ ms)) (tasks_of (m ∷ n ∷ ms))
          (tasks_of-TasksFor (m ∷ n ∷ ms)))
        (λ rs answers.
          Ensures-bind (InPlace cs) (InPlace cs) _ _
            (put_group-InPlace x cs (m ∷ n ∷ ms) rs _ at answers
              (record { slots = h.slots; group = h.group }))
            (λ b' h'. Ensures-pure (InPlace cs) _ (emptied cs b' h')))

  flush-InPlace :
      (x : ToolExecutor) (round : ℕ) (schedule : List ℕ) (cs : List ToolCall) (b : Batch)
      → InPlace cs b
      → Ensures (flush x round schedule b) (InPlace cs)
  flush-InPlace x round schedule cs b h =
      flush_members-InPlace x round schedule cs b.safe_group b h.group h

  run_alone-InPlace :
      (x : ToolExecutor) (round : ℕ) (schedule : List ℕ) (cs : List ToolCall) (i : ℕ) (c : ToolCall)
      (resource : Option String) (b : Batch)
      → InPlace cs b
      → call_at cs i ≡ some c
      → Ensures (run_alone x round schedule i c resource b) (InPlace cs)
  unfolding run_alone
  run_alone-InPlace x round schedule cs i c resource b h at =
      Ensures-bind (InPlace cs) (InPlace cs) _ _ (flush-InPlace x round schedule cs b h) (λ b' h'.
        Ensures-bind (Answers c) (InPlace cs) _ _ (execute-Answers x c round) (λ r answers.
          Ensures-pure (InPlace cs) _ (put_sequential-InPlace cs b' i c r resource h' at answers)))

  place-InPlace :
      (x : ToolExecutor) (round : ℕ) (schedule : List ℕ) (cs : List ToolCall) (i : ℕ) (c : ToolCall)
      (tool : Tool) (b : Batch)
      → InPlace cs b
      → call_at cs i ≡ some c
      → Ensures (place x round schedule i c tool b) (InPlace cs)
  unfolding place
  place-InPlace x round schedule cs i c tool b h at =
      let resource = x.resource_key tool.spec c.arguments in
      elim (Bool-cases (not (tool.spec.parallel_safe && x.is_parallel))) [
        | inl alone ↦ rw alone (run_alone-InPlace x round schedule cs i c resource b h at)
        | inr safe ↦ elim (Bool-cases (any (λ m. same_resource m.resource resource) b.safe_group)) [
          | inl conflict ↦
              rw (safe, conflict)
                (run_alone-InPlace x round schedule cs i c resource _
                  (record { slots = h.slots; group = h.group }) at)
          | inr free ↦
              rw (safe, free)
                (Ensures-pure (InPlace cs) _
                  (record { slots = h.slots; group = All-snoc _ b.safe_group _ h.group at }))
        ]
      ]

  take_known-InPlace :
      (x : ToolExecutor) (round : ℕ) (schedule : List ℕ) (cs : List ToolCall) (i : ℕ) (c : ToolCall)
      (tool : Tool) (b : Batch)
      → InPlace cs b
      → call_at cs i ≡ some c
      → Ensures (take_known x round schedule i c tool b) (InPlace cs)
  unfolding take_known
  take_known-InPlace x round schedule cs i c tool b h at =
      Ensures-bind Anything (InPlace cs) _ _ (Ensures-Anything (invocation_key x tool c)) (λ key _.
        elim (Bool-cases (any (same_key key) b.seen_keys)) [
          | inl seen ↦
              rw seen
                (Ensures-pure (InPlace cs) _ (put-slots cs b i c (same_batch_result c) h at refl))
          | inr new ↦ rw new (
              place-InPlace x round schedule cs i c tool _
                (record { slots = h.slots; group = h.group }) at)
        ])

  take_call-InPlace :
      (x : ToolExecutor) (round : ℕ) (schedule : List ℕ) (cs : List ToolCall) (i : ℕ) (c : ToolCall)
      (b : Batch)
      → InPlace cs b
      → call_at cs i ≡ some c
      → Ensures (take_call x round schedule i c b) (InPlace cs)
  unfolding take_call take_unknown
  take_call-InPlace x round schedule cs i c b h at = of_tool (resolve x.registry c.name)
    where
      of_tool :
          (t : Result Tool)
          → Ensures
              (elim t [
                | err e ↦ take_unknown x round i c b
                | ok tool ↦ take_known x round schedule i c tool b
              ])
              (InPlace cs)
      of_tool (ok tool) = take_known-InPlace x round schedule cs i c tool b h at
      of_tool (err e) =
          Ensures-bind (Answers c) (InPlace cs) _ _ (execute-Answers x c round) (λ r answers.
            Ensures-pure (InPlace cs) _ (put_sequential-InPlace cs b i c r none h at answers))

  -- The calls from a place on, as the loop meets them.
  take_calls-InPlace :
      (x : ToolExecutor) (round : ℕ) (schedules : ℕ → List ℕ) (cs : List ToolCall) (i : ℕ)
      (ds : List ToolCall) (b : Batch)
      → InPlace cs b
      → ((k : ℕ) (c : ToolCall) → call_at ds k ≡ some c → call_at cs (i + k) ≡ some c)
      → Ensures (take_calls x round schedules i ds b) (InPlace cs)
  unfolding take_calls
  take_calls-InPlace x round schedules cs i [] b h at = Ensures-pure (InPlace cs) b h
  take_calls-InPlace x round schedules cs i (d ∷ ds) b h at =
      let here_is : i + 0 ≡ i = omega arith in
      Ensures-bind (InPlace cs) (InPlace cs) _ _
        (take_call-InPlace x round (schedules i) cs i d b h (rw here_is at (at 0 d refl)))
        (λ b' h'.
          take_calls-InPlace x round schedules cs (suc i) ds b' h' (λ k c e.
            let next : i + suc k ≡ suc i + k = omega arith in rw next at (at (suc k) c e)))

  execute_each-AnswersAll :
      (x : ToolExecutor) (round : ℕ) (cs : List ToolCall)
      → Ensures (execute_each x round cs) (AnswersAll cs)
  unfolding execute_each
  execute_each-AnswersAll x round [] = Ensures-pure (AnswersAll []) [] tt
  execute_each-AnswersAll x round (c ∷ cs) =
      Ensures-bind (Answers c) (AnswersAll (c ∷ cs)) _ _ (execute-Answers x c round) (λ r answers.
        Ensures-bind (AnswersAll cs) (AnswersAll (c ∷ cs)) _ _ (execute_each-AnswersAll x round cs)
          (λ rs all. Ensures-pure (AnswersAll (c ∷ cs)) (r ∷ rs) (answers, all)))

  batch_result-AnswersAll :
      (cs : List ToolCall) (b : Batch) → InPlace cs b → AnswersAll cs (batch_result cs b).results
  unfolding batch_result
  batch_result-AnswersAll cs b h = collect-AnswersAll b.results 0 cs (λ k c r at e.
      let start : 0 + k ≡ k = omega arith in
      let (d, found, answers) = h.slots k r (rw start at e) in
      let same : d ≡ c = cc in rw (← same) answers)

  execute_parallel-AnswersAll :
      (x : ToolExecutor) (round : ℕ) (schedules : ℕ → List ℕ) (cs : List ToolCall)
      → Ensures (execute_parallel x round schedules cs) (λ b. AnswersAll cs b.results)
  unfolding execute_parallel
  execute_parallel-AnswersAll x round schedules cs =
      Ensures-bind (InPlace cs) (λ b. AnswersAll cs b.results) _ _
        (take_calls-InPlace x round schedules cs 0 cs empty_batch (empty-InPlace cs)
          (λ k c e. let start : 0 + k ≡ k = omega arith in rw start e))
        (λ b h.
          Ensures-bind (InPlace cs) (λ b. AnswersAll cs b.results) _ _
            (flush-InPlace x round (schedules (length cs)) cs b h)
            (λ b' h'.
              Ensures-pure (λ b. AnswersAll cs b.results) (batch_result cs b')
                (batch_result-AnswersAll cs b' h')))

  -- A batch that gives results gives one for each call, in the order of the calls, each with the
  -- identifier of its call: in either mode, and however the calls of a group interleave.
  pub execute_batch-AnswersAll :
      (x : ToolExecutor) (round : ℕ) (schedules : ℕ → List ℕ) (cs : List ToolCall)
      (s s' : ToolState) (b : ToolBatchResult)
      → execute_batch x round schedules cs s ≡ (ok b, s')
      → AnswersAll cs b.results
  unfolding execute_batch
  execute_batch-AnswersAll x round schedules cs s s' b = of_mode x.is_parallel s s' b
    where
      of_mode :
          (parallel : Bool)
          → Ensures
              (if parallel then execute_parallel x round schedules cs else do
                rs ← execute_each x round cs
                pure (record {
                  results = rs;
                  parallel_tool_batches = 0;
                  max_parallelism = 1;
                  sequential_tool_calls = length cs;
                  resource_conflicts = 0;
                }))
              (λ b. AnswersAll cs b.results)
      of_mode true = execute_parallel-AnswersAll x round schedules cs
      of_mode false =
          Ensures-bind (AnswersAll cs) (λ b. AnswersAll cs b.results) _ _
            (execute_each-AnswersAll x round cs)
            (λ rs all. Ensures-pure (λ b. AnswersAll cs b.results) _ all)
