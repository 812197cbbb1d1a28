-- ===== src/Runtime/Completion.antt =====
-- How a session comes to rest.
use interviewer.Prelude.{
  ℕ, String, ◌≡◌, refl, sym, ◌∙◌, true, false, none, some, List, [], ◌∷◌, inl, inr, Bool-cases,
  Option-cases, lookup,
}
use interviewer.Floats.{Floats}
use interviewer.Unicode.{Unicode}
use interviewer.Values.{Result, ok, err, key_error}
use interviewer.Events.{bind_trace}
use interviewer.Exec.{Exec, continue}
use interviewer.Stage.{
  InterviewStage, init, questioning, waiting_human_review, finished, failed, reporting,
}
use interviewer.Artifacts.{interview_report, InterviewReportArtifact}
use interviewer.Blackboard.{InterviewBlackboard}
use interviewer.StateMachine.{TransitionGuard, transition}
use interviewer.Runtime.{Outside, RuntimeState, InterviewRuntime, load_context}
use interviewer.Runtime.Step.{run_step, step_in_stage}
use interviewer.Runtime.Loop.{is_resting, run_until_waiting_or_done}
use interviewer.Runtime.Answers.{is_over, load_context_found}

module _ ⦃F : Floats⦄ ⦃U : Unicode⦄ ⦃E : Outside⦄ where
  over_in_stage :
      (rt : InterviewRuntime) (session run_id : String) (board : InterviewBlackboard)
      (stage : InterviewStage) (s : RuntimeState)
      → is_over stage ≡ true
      → ((step_in_stage rt session run_id board stage s).1 ≡ s)
  unfolding step_in_stage
  over_in_stage rt session run_id board finished s h = refl
  over_in_stage rt session run_id board failed s h = refl
  over_in_stage rt session run_id board waiting_human_review s h = refl
  over_in_stage rt session run_id board init s h = cc
  over_in_stage rt session run_id board questioning s h = cc
  over_in_stage rt session run_id board _ s h = cc

  -- A step of a session that is finished, has failed or waits for a human changes no blackboard,
  -- runs no agent and posts no event.
  pub run_step_over :
      (rt : InterviewRuntime) (session run_id : String) (s : RuntimeState)
      (board : InterviewBlackboard)
      → lookup s.store session ≡ some board
      → is_over board.current_stage ≡ true
      → ((run_step rt session run_id s).1.store ≡ s.store)
        × ((run_step rt session run_id s).1.outside ≡ s.outside)
        × ((run_step rt session run_id s).1.bus.events ≡ s.bus.events)
  unfolding run_step bind_trace
  run_step_over rt session run_id s board found h =
      rw
        (
          load_context_found session s board found,
          over_in_stage rt session run_id board board.current_stage _ h,
        )
        (refl, refl, refl)

  -- What the loop says of the session when it returns.
  pub record IsAtRest (session : String) (board : InterviewBlackboard) (s : RuntimeState)
      : Type 0 where
    pub resting : is_resting board.current_stage ≡ true
    pub stored : lookup s.store session ≡ some board

  -- What the loop does with the step that it has run, if the rest of it ends at rest.
  after_step :
      {A : Type 0} (session : String) (loop : Exec RuntimeState InterviewBlackboard)
      (p : Result A × RuntimeState) (s' : RuntimeState) (board : InterviewBlackboard)
      → ((t : RuntimeState) → loop t ≡ (ok board, s') → IsAtRest session board s')
      → continue p.0 (λ _. loop) p.1 ≡ (ok board, s')
      → IsAtRest session board s'
  after_step session loop (ok a, t) s' board rest h = rest t h
  after_step session loop (err e, t) s' board rest h = cc

  -- Where the session is at rest already, the loop returns it and does nothing.
  pub run_until_resting :
      (rt : InterviewRuntime) (session run_id : String) (run_ids : List String) (s : RuntimeState)
      (board : InterviewBlackboard)
      → lookup s.store session ≡ some board
      → is_resting board.current_stage ≡ true
      → run_until_waiting_or_done rt session (run_id ∷ run_ids) s ≡ (ok board, s)
  unfolding run_until_waiting_or_done
  run_until_resting rt session run_id run_ids s board found h =
      rw (load_context_found session s board found, h)

  pub run_until_missing :
      (rt : InterviewRuntime) (session run_id : String) (run_ids : List String) (s : RuntimeState)
      → lookup s.store session ≡ none
      → run_until_waiting_or_done rt session (run_id ∷ run_ids) s ≡ (err key_error, s)
  unfolding run_until_waiting_or_done load_context
  run_until_missing rt session run_id run_ids s missing = rw missing

  pub run_until_busy :
      (rt : InterviewRuntime) (session run_id : String) (run_ids : List String) (s : RuntimeState)
      (board : InterviewBlackboard)
      → lookup s.store session ≡ some board
      → is_resting board.current_stage ≡ false
      → run_until_waiting_or_done rt session (run_id ∷ run_ids) s
        ≡ continue
            (run_step rt session run_id s).0
            (λ _. run_until_waiting_or_done rt session run_ids)
            (run_step rt session run_id s).1
  unfolding run_until_waiting_or_done
  run_until_busy rt session run_id run_ids s board found h =
      rw (load_context_found session s board found, h)

  -- The loop returns only a session that listens, is over or waits for a human, and returns the
  -- blackboard that is stored; whatever agents do, and however many steps are allowed.
  pub run_until-IsAtRest :
      (rt : InterviewRuntime) (session : String) (run_ids : List String) (s s' : RuntimeState)
      (board : InterviewBlackboard)
      → run_until_waiting_or_done rt session run_ids s ≡ (ok board, s')
      → IsAtRest session board s'
  unfolding run_until_waiting_or_done
  run_until-IsAtRest rt session [] s s' board h = cc
  run_until-IsAtRest rt session (run_id ∷ run_ids) s s' board h =
      elim (Option-cases (lookup s.store session)) [
        | inl missing ↦ cc (run_until_missing rt session run_id run_ids s missing)
        | inr (b, found) ↦ elim (Bool-cases (is_resting b.current_stage)) [
          | inl at_rest ↦
              let e = sym (run_until_resting rt session run_id run_ids s b found at_rest) ∙ h in
              let same : b ≡ board = cc in
              let kept : s ≡ s' = cc in
              record { resting = rw (sym same) at_rest; stored = rw (sym kept, sym same) found }
          | inr busy ↦
              after_step session (run_until_waiting_or_done rt session run_ids)
                (run_step rt session run_id s) s' board
                (λ t. run_until-IsAtRest rt session run_ids t s' board)
                (sym (run_until_busy rt session run_id run_ids s b found busy) ∙ h)
        ]
      ]

  transition_reporting :
      (guard : TransitionGuard) (now : ℕ) (stage : InterviewStage) (b : InterviewBlackboard)
      (r : InterviewReportArtifact)
      → stage ≡ reporting
      → transition guard now stage b (some (interview_report r)) ≡ (finished, b)
  unfolding transition
  transition_reporting guard now reporting b r h = refl
  transition_reporting guard now _ b r h = cc
