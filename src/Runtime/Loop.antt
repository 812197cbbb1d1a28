-- ===== src/Runtime/Loop.antt =====
-- `run_until_waiting_or_done` (src/interview_agent_runtime/runtime/interview_runtime.py).
use interviewer.Prelude.{String, Bool, true, false, List, [], ◌∷◌, if◌then◌else◌}
use interviewer.Floats.{Floats}
use interviewer.Unicode.{Unicode}
use interviewer.Values.{runtime_error}
use interviewer.Exec.{Exec, pure, raise, ◌>>=◌, ◌>>◌}
use interviewer.Stage.{InterviewStage, listening, waiting_human_review, finished, failed}
use interviewer.Blackboard.{InterviewBlackboard}
use interviewer.Runtime.{Outside, RuntimeState, InterviewRuntime, load_context}
use interviewer.Runtime.Step.{run_step}

abbrev pub is_resting : InterviewStage → Bool
is_resting listening = true
is_resting finished = true
is_resting failed = true
is_resting waiting_human_review = true
is_resting _ = false

module _ ⦃F : Floats⦄ ⦃U : Unicode⦄ ⦃E : Outside⦄ where
  -- The loop, over the identifiers that the rounds give their runs: one for each step allowed.
  unfoldable pub run_until_waiting_or_done :
      InterviewRuntime → String → List String → Exec RuntimeState InterviewBlackboard
  run_until_waiting_or_done rt session [] = raise runtime_error
  run_until_waiting_or_done rt session (run_id ∷ run_ids) = do
    context ← load_context session
    if is_resting context.current_stage
        then pure context
        else do run_step rt session run_id; run_until_waiting_or_done rt session run_ids
