-- ===== src/Runtime/Termination.antt =====
-- The loop of the runtime ends (src/interview_agent_runtime/runtime/interview_runtime.py).
use interviewer.Prelude.{
  ◌<◌, ◌≡◌, ap, String, true, none, some, List, [], ◌∷◌, length, inl, inr, Bool-cases, Option-cases,
  lookup, arith,
}
use interviewer.Floats.{Floats}
use interviewer.Unicode.{Unicode}
use interviewer.Values.{Error, key_error, Result, ok, err, Result-cases}
use interviewer.Blackboard.{InterviewBlackboard}
use interviewer.Runtime.{Outside, RuntimeState, RuntimeStepResult, InterviewRuntime}
use interviewer.Runtime.Step.{run_step}
use interviewer.Runtime.Step.Nearer.{run_step-IsNear}
use interviewer.Runtime.Loop.{is_resting, run_until_waiting_or_done}
use interviewer.Runtime.Completion.{run_until_resting, run_until_missing, run_until_busy}
use interviewer.Runtime.Progress.{KeepsSession, IsNear, steps_left_le}

module _ ⦃F : Floats⦄ ⦃U : Unicode⦄ ⦃E : Outside⦄ where
  -- How the loop ends with the steps that it is allowed, and with what. There is no ending for a loop
  -- that has no step left.
  pub data Ends (rt : InterviewRuntime) (session : String)
      : List String → RuntimeState → Result InterviewBlackboard × RuntimeState → Type 0 where
    unknown :
        {run_id : String} {run_ids : List String} {s : RuntimeState}
        → lookup s.store session ≡ none
        → Ends rt session (run_id ∷ run_ids) s (err key_error, s)
    at_rest :
        {run_id : String} {run_ids : List String} {s : RuntimeState} {board : InterviewBlackboard}
        → lookup s.store session ≡ some board
        → is_resting board.current_stage ≡ true
        → Ends rt session (run_id ∷ run_ids) s (ok board, s)
    raised :
        {run_id : String} {run_ids : List String} {s s' : RuntimeState} {e : Error}
        → run_step rt session run_id s ≡ (err e, s')
        → Ends rt session (run_id ∷ run_ids) s (err e, s')
    stepped :
        {run_id : String} {run_ids : List String} {s s' : RuntimeState} {r : RuntimeStepResult}
        {p : Result InterviewBlackboard × RuntimeState}
        → run_step rt session run_id s ≡ (ok r, s')
        → Ends rt session run_ids s' p
        → Ends rt session (run_id ∷ run_ids) s p

  module _ (rt : InterviewRuntime) (session : String) (lawful : KeepsSession rt session) where
    abbrev Ending : List String → RuntimeState → Type 0
    Ending run_ids s = Ends rt session run_ids s (run_until_waiting_or_done rt session run_ids s)

    near-Ends :
        (run_ids : List String) (s : RuntimeState)
        → IsNear session (length run_ids) s
        → Ending run_ids s
    near-Ends [] s at = absurd (let h = at.near in omega arith)
    near-Ends (run_id ∷ run_ids) s at = elim (Bool-cases (is_resting at.board.current_stage)) [
      | inl resting ↦
          rw (run_until_resting rt session run_id run_ids s at.board at.found resting)
            (at_rest at.found resting)
      | inr busy ↦
          rw (run_until_busy rt session run_id run_ids s at.board at.found busy)
            (elim (Result-cases (run_step rt session run_id s).0) [
              | inr (e, bad) ↦ rw bad (raised (ap (λ x. (x, (run_step rt session run_id s).1)) bad))
              | inl (r, good) ↦
                  let s' = (run_step rt session run_id s).1 in
                  let step : run_step rt session run_id s ≡ (ok r, s') = ap (λ x. (x, s')) good in
                  let nearer =
                    run_step-IsNear rt session run_id at.board s s' r lawful at.found at.named busy
                      step in
                  let closer : IsNear session (length run_ids) s' = record {
                    board = nearer.board;
                    found = nearer.found;
                    named = nearer.named;
                    near = (let h = at.near in let k = nearer.near in omega arith);
                  } in
                  rw good (stepped step (near-Ends run_ids s' closer))
            ])
    ]

  -- If the agents leave the session in the store, under its name, where it also is before, then six
  -- steps are enough, and so are more: the loop returns the session at rest, or it raises what one of
  -- its steps has raised or that the session is unknown; it never uses its steps up.
  pub run_until-Ends :
      (rt : InterviewRuntime) (session : String) (run_ids : List String) (s : RuntimeState)
      → KeepsSession rt session
      → ((board : InterviewBlackboard)
          → lookup s.store session ≡ some board
          → board.session_id ≡ session)
      → 5 < length run_ids
      → Ends rt session run_ids s (run_until_waiting_or_done rt session run_ids s)
  run_until-Ends rt session [] s lawful named enough = absurd (omega arith)
  run_until-Ends rt session (run_id ∷ run_ids) s lawful named enough =
      elim (Option-cases (lookup s.store session)) [
        | inl missing ↦ rw (run_until_missing rt session run_id run_ids s missing) (unknown missing)
        | inr (board, found) ↦ near-Ends rt session lawful (run_id ∷ run_ids) s (record {
          board = board;
          found = found;
          named = named board found;
          near = (let h = steps_left_le board.current_stage in omega arith);
        })
      ]
