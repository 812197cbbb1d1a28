-- ===== src/Blackboard/Publishing.antt =====
-- What publishing an artifact leaves of a blackboard
-- (src/interview_agent_runtime/blackboard/board.py).
use interviewer.Prelude.{ℕ, ◌≡◌, refl, Bool-cases, inl, inr}
use interviewer.Floats.{Floats}
use interviewer.Artifacts.{
  AgentArtifact, candidate_profile, interview_plan, question, answer, evaluation,
  follow_up_decision, interview_report, other, QuestionArtifact,
}
use interviewer.Blackboard.{
  InterviewBlackboard, publish, publish_artifact, publish_question, count_follow_up, count_question,
  publish_candidate_profile, publish_interview_plan, publish_evaluation,
}

module _ ⦃F : Floats⦄ where
  publish_question-stage :
      (a : QuestionArtifact) (board : InterviewBlackboard)
      → ((publish_question a board).session_id ≡ board.session_id)
        × ((publish_question a board).current_stage ≡ board.current_stage)
  unfolding publish_question count_follow_up count_question
  publish_question-stage a board = elim (Bool-cases a.is_follow_up) [
    | inl h ↦ rw h (refl, refl)
    | inr h ↦ rw h (refl, refl)
  ]

  -- Publishing an artifact leaves the session and its stage.
  pub publish-stage :
      (now : ℕ) (artifact : AgentArtifact) (board : InterviewBlackboard)
      → ((publish now artifact board).1.session_id ≡ board.session_id)
        × ((publish now artifact board).1.current_stage ≡ board.current_stage)
  unfolding publish publish_artifact publish_candidate_profile publish_interview_plan
      publish_evaluation
  publish-stage now (question a) board =
      publish_question-stage a
        (record board { runtime_metadata = record board.runtime_metadata { updated_at = now } })
  publish-stage now (candidate_profile a) board = (refl, refl)
  publish-stage now (interview_plan a) board = (refl, refl)
  publish-stage now (answer a) board = (refl, refl)
  publish-stage now (evaluation a) board = (refl, refl)
  publish-stage now (follow_up_decision a) board = (refl, refl)
  publish-stage now (interview_report a) board = (refl, refl)
  publish-stage now (other a) board = (refl, refl)

  publish_question-followed_targets :
      (a : QuestionArtifact) (board : InterviewBlackboard)
      → (publish_question a board).followed_targets ≡ board.followed_targets
  unfolding publish_question count_follow_up count_question
  publish_question-followed_targets a board = elim (Bool-cases a.is_follow_up) [
    | inl h ↦ rw h refl
    | inr h ↦ rw h refl
  ]

  -- Publishing an artifact leaves the targets that were followed up.
  pub publish-followed_targets :
      (now : ℕ) (artifact : AgentArtifact) (board : InterviewBlackboard)
      → (publish now artifact board).1.followed_targets ≡ board.followed_targets
  unfolding publish publish_artifact publish_candidate_profile publish_interview_plan
      publish_evaluation
  publish-followed_targets now (question a) board =
      publish_question-followed_targets a
        (record board { runtime_metadata = record board.runtime_metadata { updated_at = now } })
  publish-followed_targets now (candidate_profile a) board = refl
  publish-followed_targets now (interview_plan a) board = refl
  publish-followed_targets now (answer a) board = refl
  publish-followed_targets now (evaluation a) board = refl
  publish-followed_targets now (follow_up_decision a) board = refl
  publish-followed_targets now (interview_report a) board = refl
  publish-followed_targets now (other a) board = refl
