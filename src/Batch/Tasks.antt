-- ===== src/Batch/Tasks.antt =====
-- The tasks of a group in `execute_batch` (src/interview_agent_runtime/tools/registry.py).
use interviewer.Prelude.{ℕ, zero, suc, ◌≡◌, refl, List, [], ◌∷◌}
use interviewer.Floats.{Floats}
use interviewer.Exec.Ensures.{Ensures, Ensures-pure, Ensures-bind}
use interviewer.ToolRecords.{ToolResult}
use interviewer.Tools.{Host}
use interviewer.Governance.{ToolCall}
use interviewer.Execute.{ToolExecutor, settled, go_ahead, begin_call}
use interviewer.Execute.Answers.{
  Answers, AdmittedFor, begin_call-AdmittedFor, finish_call-Answers, run_admitted-Answers,
  execute-Answers,
}
use interviewer.Batch.{
  Task, waiting, begun, called, done, advance_task, complete_task, advance_at, complete_all, gather,
  tasks_of, Member,
}

module _ ⦃F : Floats⦄ where
  -- The two lists have the same length, and each result answers the call at its place.
  abbrev pub AnswersAll : List ToolCall → List ToolResult → Type 0
  AnswersAll [] [] = Unit
  AnswersAll (c ∷ cs) (r ∷ rs) = Answers c r × AnswersAll cs rs
  AnswersAll _ _ = ⊥

module _ ⦃F : Floats⦄ ⦃H : Host⦄ where
  abbrev TaskFor : ToolCall → Task → Type 0
  TaskFor c (waiting d) = d ≡ c
  TaskFor c (begun d a) = (d ≡ c) × AdmittedFor d a
  TaskFor c (called d governed v) = d ≡ c
  TaskFor c (done r) = Answers c r

  advance_task-TaskFor :
      (x : ToolExecutor) (round : ℕ) (c : ToolCall) (t : Task)
      → TaskFor c t
      → Ensures (advance_task x round t) (TaskFor c)
  unfolding advance_task
  advance_task-TaskFor x round c (waiting d) h =
      Ensures-bind (AdmittedFor d) (TaskFor c) (begin_call x d round) _
        (begin_call-AdmittedFor x d round)
        (λ a admitted. Ensures-pure (TaskFor c) (begun d a) (h, admitted))
  advance_task-TaskFor x round c (begun d (settled r)) h =
      Ensures-pure (TaskFor c) (done r) (rw (← h.0) h.1)
  advance_task-TaskFor x round c (begun d (go_ahead governed)) h =
      λ s s' t e. Ensures-pure (TaskFor c) (called d governed _) h.0 _ s' t e
  advance_task-TaskFor x round c (called d governed v) h =
      Ensures-bind (Answers d) (TaskFor c) _ _ (finish_call-Answers x d governed v)
        (λ r answers. Ensures-pure (TaskFor c) (done r) (rw (← h) answers))
  advance_task-TaskFor x round c (done r) h = Ensures-pure (TaskFor c) (done r) h

  complete_task-Answers :
      (x : ToolExecutor) (round : ℕ) (c : ToolCall) (t : Task)
      → TaskFor c t
      → Ensures (complete_task x round t) (Answers c)
  unfolding complete_task
  complete_task-Answers x round c (waiting d) h = rw (← h) (execute-Answers x d round)
  complete_task-Answers x round c (begun d a) h = rw (← h.0) (run_admitted-Answers x d a h.1)
  complete_task-Answers x round c (called d governed v) h =
      rw (← h) (finish_call-Answers x d governed v)
  complete_task-Answers x round c (done r) h = Ensures-pure (Answers c) r h

  abbrev pub TasksFor : List ToolCall → List Task → Type 0
  TasksFor [] [] = Unit
  TasksFor (c ∷ cs) (t ∷ ts) = TaskFor c t × TasksFor cs ts
  TasksFor _ _ = ⊥

  advance_at-TasksFor :
      (x : ToolExecutor) (round k : ℕ) (cs : List ToolCall) (ts : List Task)
      → TasksFor cs ts
      → Ensures (advance_at x round k ts) (TasksFor cs)
  unfolding advance_at
  advance_at-TasksFor x round k [] [] h = Ensures-pure (TasksFor []) [] tt
  advance_at-TasksFor x round zero (c ∷ cs) (t ∷ ts) h =
      Ensures-bind (TaskFor c) (TasksFor (c ∷ cs)) _ _ (advance_task-TaskFor x round c t h.0)
        (λ t' h'. Ensures-pure (TasksFor (c ∷ cs)) (t' ∷ ts) (h', h.1))
  advance_at-TasksFor x round (suc k) (c ∷ cs) (t ∷ ts) h =
      Ensures-bind (TasksFor cs) (TasksFor (c ∷ cs)) _ _ (advance_at-TasksFor x round k cs ts h.1)
        (λ ts' h'. Ensures-pure (TasksFor (c ∷ cs)) (t ∷ ts') (h.0, h'))
  advance_at-TasksFor x round k [] (t ∷ ts) h = elim h [ ]
  advance_at-TasksFor x round k (c ∷ cs) [] h = elim h [ ]

  complete_all-AnswersAll :
      (x : ToolExecutor) (round : ℕ) (cs : List ToolCall) (ts : List Task)
      → TasksFor cs ts
      → Ensures (complete_all x round ts) (AnswersAll cs)
  unfolding complete_all
  complete_all-AnswersAll x round [] [] h = Ensures-pure (AnswersAll []) [] tt
  complete_all-AnswersAll x round (c ∷ cs) (t ∷ ts) h =
      Ensures-bind (Answers c) (AnswersAll (c ∷ cs)) _ _ (complete_task-Answers x round c t h.0)
        (λ r answers.
          Ensures-bind (AnswersAll cs) (AnswersAll (c ∷ cs)) _ _
            (complete_all-AnswersAll x round cs ts h.1)
            (λ rs all. Ensures-pure (AnswersAll (c ∷ cs)) (r ∷ rs) (answers, all)))
  complete_all-AnswersAll x round [] (t ∷ ts) h = elim h [ ]
  complete_all-AnswersAll x round (c ∷ cs) [] h = elim h [ ]

  -- However the tasks interleave.
  pub gather-AnswersAll :
      (x : ToolExecutor) (round : ℕ) (schedule : List ℕ) (cs : List ToolCall) (ts : List Task)
      → TasksFor cs ts
      → Ensures (gather x round schedule ts) (AnswersAll cs)
  unfolding gather
  gather-AnswersAll x round [] cs ts h = complete_all-AnswersAll x round cs ts h
  gather-AnswersAll x round (k ∷ ks) cs ts h =
      Ensures-bind (TasksFor cs) (AnswersAll cs) _ _ (advance_at-TasksFor x round k cs ts h)
        (λ ts' h'. gather-AnswersAll x round ks cs ts' h')

  abbrev pub calls_of : List Member → List ToolCall
  calls_of [] = []
  calls_of (m ∷ ms) = m.member_call ∷ calls_of ms

  pub tasks_of-TasksFor : (ms : List Member) → TasksFor (calls_of ms) (tasks_of ms)
  unfolding tasks_of
  tasks_of-TasksFor [] = tt
  tasks_of-TasksFor (m ∷ ms) = (refl, tasks_of-TasksFor ms)
