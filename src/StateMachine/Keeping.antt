-- ===== src/StateMachine/Keeping.antt =====
-- What a transition leaves of a blackboard (src/interview_agent_runtime/runtime/state_machine.py).
use interviewer.Prelude.{ℕ, ◌≡◌, refl, Bool, true, false, Option, none, some, Bool-cases, inl, inr}
use interviewer.Floats.{Floats}
use interviewer.Unicode.{Unicode}
use interviewer.Stage.{
  InterviewStage, interview_planning, listening, evaluating, decision, reporting,
}
use interviewer.Plan.{InterviewPlan}
use interviewer.Artifacts.{
  AgentArtifact, interview_plan, answer, evaluation, follow_up_decision, interview_report,
  FollowUpDecisionArtifact,
}
use interviewer.Blackboard.{InterviewBlackboard, plan, consume_dimension_follow_up_budget}
use interviewer.StateMachine.{
  TransitionGuard, transition, decide, choose_next, next_or_report, allow_follow_up,
  allow_next_question, ask_plan, next_dimension_of, take_follow_up,
}

module _ ⦃F : Floats⦄ ⦃U : Unicode⦄ where
  next_dimension_of-session_id :
      (p : Option InterviewPlan) (context : InterviewBlackboard)
      → (next_dimension_of p context).1.session_id ≡ context.session_id
  unfolding next_dimension_of
  next_dimension_of-session_id none context = refl
  next_dimension_of-session_id (some p) context = refl

  ask_plan-session_id :
      (context : InterviewBlackboard) → (ask_plan context).1.session_id ≡ context.session_id
  unfolding ask_plan
  ask_plan-session_id context = next_dimension_of-session_id (plan context) context

  next_or_report-session_id :
      (r : Bool × InterviewBlackboard) → (next_or_report r).1.session_id ≡ r.1.session_id
  unfolding next_or_report choose_next
  next_or_report-session_id (true, context) = ask_plan-session_id context
  next_or_report-session_id (false, context) = refl

  decide-session_id :
      (guard : TransitionGuard) (now : ℕ) (d : FollowUpDecisionArtifact)
      (context : InterviewBlackboard)
      → (decide guard now d context).1.session_id ≡ context.session_id
  unfolding decide take_follow_up consume_dimension_follow_up_budget allow_next_question
  decide-session_id guard now d context = elim (Bool-cases (allow_follow_up guard now context d)) [
    | inl h ↦ rw h refl
    | inr h ↦
        rw (h, next_or_report-session_id (allow_next_question guard now context))
          (ask_plan-session_id context)
  ]

  pub transition-session_id :
      (guard : TransitionGuard) (now : ℕ) (s : InterviewStage) (context : InterviewBlackboard)
      (a : Option AgentArtifact)
      → (transition guard now s context a).1.session_id ≡ context.session_id
  unfolding transition
  transition-session_id guard now interview_planning context (some (interview_plan a)) = refl
  transition-session_id guard now evaluating context (some (evaluation a)) = refl
  transition-session_id guard now listening context (some (answer a)) = refl
  transition-session_id guard now reporting context (some (interview_report a)) = refl
  transition-session_id guard now decision context (some (follow_up_decision d)) =
      decide-session_id guard now d context
  transition-session_id guard now _ context a = refl
