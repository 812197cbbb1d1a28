-- ===== src/Runtime/Progress.antt =====
-- What a step of the runtime does to the stage of its session
-- (src/interview_agent_runtime/runtime/interview_runtime.py).
use interviewer.Prelude.{
  ℕ, ◌<◌, ◌≤◌, String, ◌≡◌, refl, false, Option, none, some, str_eq-same, Dict, lookup, insert,
  lookup-insert, arith,
}
use interviewer.Floats.{Floats}
use interviewer.Unicode.{Unicode}
use interviewer.Values.{ok}
use interviewer.Stage.{
  InterviewStage, init, profile_analysis, interview_planning, question_preparing, questioning,
  listening, evaluating, decision, follow_up, next_question, next_dimension, reporting,
  waiting_human_review, finished, failed,
}
use interviewer.Artifacts.{AgentArtifact, interview_report}
use interviewer.Blackboard.{InterviewBlackboard}
use interviewer.StateMachine.Keeping.{transition-session_id}
use interviewer.StateMachine.Diagram.{
  ◌⟶◌, Prepares, first, again, other_dimension, deeper, transition-⟶, begin, profiled, planned,
  prepared, asked, answered, evaluated, dig, more, move, close, report, fail,
}
use interviewer.Runtime.{
  Outside, RuntimeState, AgentRunContext, Agent, resolve_agent, InterviewRuntime, advance,
}
use interviewer.Runtime.Step.{review}
use interviewer.Runtime.Loop.{is_resting}

-- How many steps a session can take from a stage before it rests.
abbrev pub steps_left : InterviewStage → ℕ
steps_left init = 5
steps_left profile_analysis = 4
steps_left interview_planning = 3
steps_left question_preparing = 2
steps_left next_question = 2
steps_left next_dimension = 2
steps_left follow_up = 2
steps_left questioning = 1
steps_left evaluating = 4
steps_left decision = 3
steps_left reporting = 1
steps_left _ = 0

pub steps_left_le : (s : InterviewStage) → steps_left s ≤ 5
steps_left_le init = omega arith
steps_left_le profile_analysis = omega arith
steps_left_le interview_planning = omega arith
steps_left_le question_preparing = omega arith
steps_left_le next_question = omega arith
steps_left_le next_dimension = omega arith
steps_left_le follow_up = omega arith
steps_left_le questioning = omega arith
steps_left_le evaluating = omega arith
steps_left_le decision = omega arith
steps_left_le reporting = omega arith
steps_left_le _ = omega arith

pub busy_steps : (s : InterviewStage) → is_resting s ≡ false → 0 < steps_left s
busy_steps listening h = cc
busy_steps finished h = cc
busy_steps failed h = cc
busy_steps waiting_human_review h = cc
busy_steps _ h = omega arith

Prepares-steps : {s : InterviewStage} → Prepares s → 1 < steps_left s
Prepares-steps first = omega arith
Prepares-steps again = omega arith
Prepares-steps other_dimension = omega arith
Prepares-steps deeper = omega arith

-- An arrow of the diagram brings a session that does not rest nearer to rest.
⟶-steps_left : {s t : InterviewStage} → s ⟶ t → is_resting s ≡ false → steps_left t < steps_left s
⟶-steps_left begin h = omega arith
⟶-steps_left profiled h = omega arith
⟶-steps_left planned h = omega arith
⟶-steps_left (prepared p) h = Prepares-steps p
⟶-steps_left asked h = omega arith
⟶-steps_left answered h = cc
⟶-steps_left evaluated h = omega arith
⟶-steps_left dig h = omega arith
⟶-steps_left more h = omega arith
⟶-steps_left move h = omega arith
⟶-steps_left close h = omega arith
⟶-steps_left report h = omega arith
⟶-steps_left (fail {s = s}) h = busy_steps s h

module _ ⦃F : Floats⦄ ⦃U : Unicode⦄ ⦃E : Outside⦄ where
  -- The session is stored under its own name, and fewer than `n` steps are left.
  pub record IsNear (session : String) (n : ℕ) (s : RuntimeState) : Type 0 where
    pub board : InterviewBlackboard
    pub found : lookup s.store session ≡ some board
    pub named : board.session_id ≡ session
    pub near : steps_left board.current_stage < n

  -- A blackboard that is saved is found under its name.
  pub saved_found :
      (session : String) (store : Dict InterviewBlackboard) (b : InterviewBlackboard)
      → b.session_id ≡ session
      → lookup (insert store b.session_id b) session ≡ some b
  saved_found session store b named =
      rw (lookup-insert store b.session_id session b, str_eq-same b.session_id session named) refl

  pub saved-IsNear :
      (session : String) (n : ℕ) (store : Dict InterviewBlackboard) (b : InterviewBlackboard)
      (s : RuntimeState)
      → s.store ≡ insert store b.session_id b
      → b.session_id ≡ session
      → steps_left b.current_stage < n
      → IsNear session n s
  saved-IsNear session n store b s e named near = record {
    board = b;
    found = rw e (saved_found session store b named);
    named = named;
    near = near;
  }

  pub advance-near :
      (rt : InterviewRuntime) (previous : InterviewStage) (a : Option AgentArtifact)
      (board : InterviewBlackboard) (s : RuntimeState)
      → is_resting previous ≡ false
      → ((advance rt previous a board s).session_id ≡ board.session_id)
        × (steps_left (advance rt previous a board s).current_stage < steps_left previous)
  unfolding advance
  advance-near rt previous a board s busy = (
    transition-session_id rt.guard (E.now s.outside) previous board a,
    ⟶-steps_left (transition-⟶ rt.guard (E.now s.outside) previous board a) busy,
  )

  -- The review of a report may send the session to a human, where it rests.
  pub review-near :
      (rt : InterviewRuntime) (artifact : AgentArtifact) (board : InterviewBlackboard)
      → ((review rt artifact board).1.session_id ≡ board.session_id)
        × (steps_left (review rt artifact board).1.current_stage ≤ steps_left board.current_stage)
  unfolding review
  review-near rt (interview_report r) board = (refl, ground arith)
  review-near rt _ board = (refl, omega arith)

  abbrev view_of : Option InterviewBlackboard → Option String
  view_of none = none
  view_of (some board) = some board.session_id

  -- The name under which a session is stored.
  abbrev pub view : String → RuntimeState → Option String
  view session s = view_of (lookup s.store session)

  -- The agents leave the session in the store, under its name.
  abbrev pub KeepsSession : InterviewRuntime → String → Type 0
  KeepsSession rt session =
      (stage : InterviewStage) (agent : Agent)
      → resolve_agent rt.agent_registry stage ≡ ok agent
      → (run : AgentRunContext) (s : RuntimeState)
      → view session (agent.execute_run run s).2 ≡ view session s

  view_of-some :
      (o : Option InterviewBlackboard) (board : InterviewBlackboard)
      → view_of o ≡ view_of (some board)
      → (b : InterviewBlackboard) × (o ≡ some b) × (b.session_id ≡ board.session_id)
  view_of-some none board h = cc
  view_of-some (some b) board h = (b, refl, cc)

  -- Where an agent has kept the session, it is there with its name.
  pub kept_session :
      (session : String) (s t : RuntimeState) (board : InterviewBlackboard)
      → lookup s.store session ≡ some board
      → view session t ≡ view session s
      → (b : InterviewBlackboard) × (lookup t.store session ≡ some b)
        × (b.session_id ≡ board.session_id)
  kept_session session s t board found h =
      view_of-some (lookup t.store session) board (rw found at h)
