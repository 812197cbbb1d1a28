-- ===== src/StateMachine/Diagram.antt =====
-- The diagram of the stages.
use interviewer.Prelude.{
  ℕ, ◌≡◌, refl, Bool, true, false, not, Bool-cases, inl, inr, Option, some, arith, if◌then◌else◌,
}
use interviewer.Floats.{Floats}
use interviewer.Unicode.{Unicode}
use interviewer.Stage.{
  InterviewStage, init, profile_analysis, interview_planning, question_preparing, questioning,
  listening, evaluating, decision, follow_up, next_question, next_dimension, reporting, finished,
  failed,
}
use interviewer.Artifacts.{
  AgentArtifact, interview_plan, question, answer, evaluation, follow_up_decision, interview_report,
  FollowUpDecisionArtifact,
}
use interviewer.Blackboard.{InterviewBlackboard}
use interviewer.StateMachine.{
  TransitionGuard, transition, decide, choose_next, next_or_report, on_question, allow_follow_up,
  allow_next_question,
}

-- A stage that prepares a question.
pub data Prepares : InterviewStage → Type 0 where
  first : Prepares question_preparing
  again : Prepares next_question
  other_dimension : Prepares next_dimension
  deeper : Prepares follow_up

-- What an arrow of the diagram wants of the artifact.
infix 40 ◌⟶◌
pub data ◌⟶◌ : InterviewStage → InterviewStage → Type 0 where
  begin : init ⟶ profile_analysis
  profiled : profile_analysis ⟶ interview_planning
  planned : interview_planning ⟶ question_preparing
  prepared : {s : InterviewStage} → Prepares s → s ⟶ questioning
  asked : questioning ⟶ listening
  answered : listening ⟶ evaluating
  evaluated : evaluating ⟶ decision
  dig : decision ⟶ follow_up
  more : decision ⟶ next_question
  move : decision ⟶ next_dimension
  close : decision ⟶ reporting
  report : reporting ⟶ finished
  fail : {s : InterviewStage} → s ⟶ failed

ruleset arrows = (
  begin, profiled, planned, prepared, first, again, other_dimension, deeper, asked, answered,
  evaluated, dig, more, move, close, report, fail,
)

module _ ⦃F : Floats⦄ ⦃U : Unicode⦄ where
  if-⟶ : (b : Bool) (s t u : InterviewStage) → s ⟶ t → s ⟶ u → s ⟶ (if b then t else u)
  if-⟶ true s t u h k = h
  if-⟶ false s t u h k = k

  choose_next-⟶ : (context : InterviewBlackboard) → decision ⟶ (choose_next context).0
  unfolding choose_next
  choose_next-⟶ context = if-⟶ _ decision _ _ move more

  next_or_report-⟶ : (r : Bool × InterviewBlackboard) → decision ⟶ (next_or_report r).0
  unfolding next_or_report
  next_or_report-⟶ (true, context) = choose_next-⟶ context
  next_or_report-⟶ (false, context) = close

  decide-⟶ :
      (guard : TransitionGuard) (now : ℕ) (d : FollowUpDecisionArtifact)
      (context : InterviewBlackboard)
      → decision ⟶ (decide guard now d context).0
  unfolding decide
  decide-⟶ guard now d context = elim (Bool-cases (allow_follow_up guard now context d)) [
    | inl h ↦ rw h dig
    | inr h ↦ rw h (next_or_report-⟶ (allow_next_question guard now context))
  ]

  on_question-⟶ : (s : InterviewStage) (a : Option AgentArtifact) → Prepares s → s ⟶ on_question a
  unfolding on_question
  on_question-⟶ s (some (question q)) p = prepared p
  on_question-⟶ s _ p = fail

  -- Every transition follows an arrow of the diagram.
  pub transition-⟶ :
      (guard : TransitionGuard) (now : ℕ) (s : InterviewStage) (context : InterviewBlackboard)
      (a : Option AgentArtifact)
      → s ⟶ (transition guard now s context a).0
  unfolding transition
  transition-⟶ guard now init context a = begin
  transition-⟶ guard now profile_analysis context a = profiled
  transition-⟶ guard now interview_planning context (some (interview_plan a)) = planned
  transition-⟶ guard now question_preparing context a = on_question-⟶ _ a first
  transition-⟶ guard now next_question context a = on_question-⟶ _ a again
  transition-⟶ guard now next_dimension context a = on_question-⟶ _ a other_dimension
  transition-⟶ guard now follow_up context a = on_question-⟶ _ a deeper
  transition-⟶ guard now questioning context a = asked
  transition-⟶ guard now listening context (some (answer a)) = answered
  transition-⟶ guard now evaluating context (some (evaluation a)) = evaluated
  transition-⟶ guard now decision context (some (follow_up_decision d)) =
      decide-⟶ guard now d context
  transition-⟶ guard now reporting context (some (interview_report a)) = report
  transition-⟶ guard now _ context a = fail

  -- The artifact that a stage goes on with. The last three stages go on with none.
  abbrev pub is_expected : InterviewStage → Option AgentArtifact → Bool
  is_expected init a = true
  is_expected profile_analysis a = true
  is_expected questioning a = true
  is_expected interview_planning (some (interview_plan a)) = true
  is_expected question_preparing (some (question a)) = true
  is_expected next_question (some (question a)) = true
  is_expected next_dimension (some (question a)) = true
  is_expected follow_up (some (question a)) = true
  is_expected listening (some (answer a)) = true
  is_expected evaluating (some (evaluation a)) = true
  is_expected decision (some (follow_up_decision a)) = true
  is_expected reporting (some (interview_report a)) = true
  is_expected _ _ = false

  abbrev pub is_failed : InterviewStage → Bool
  is_failed failed = true
  is_failed _ = false

  is_failed-choose_next :
      (context : InterviewBlackboard) → is_failed (choose_next context).0 ≡ false
  unfolding choose_next
  is_failed-choose_next context = ground arith

  is_failed-decide :
      (guard : TransitionGuard) (now : ℕ) (d : FollowUpDecisionArtifact)
      (context : InterviewBlackboard)
      → is_failed (decide guard now d context).0 ≡ false
  unfolding decide
  is_failed-decide guard now d context = elim (Bool-cases (allow_follow_up guard now context d)) [
    | inl h ↦ rw h
    | inr h ↦ rw h (of_answer (allow_next_question guard now context))
  ]
    where
      of_answer : (r : Bool × InterviewBlackboard) → is_failed (next_or_report r).0 ≡ false
      of_answer (true, context) = is_failed-choose_next context
      of_answer (false, context) = refl

  is_failed-on_question :
      (a : Option AgentArtifact) → is_failed (on_question a) ≡ not (is_expected follow_up a)
  unfolding on_question
  is_failed-on_question (some (question q)) = refl
  is_failed-on_question _ = refl

  -- A transition fails exactly where the stage does not expect the artifact, whatever the
  -- blackboard and the guard.
  pub transition-failed :
      (guard : TransitionGuard) (now : ℕ) (s : InterviewStage) (context : InterviewBlackboard)
      (a : Option AgentArtifact)
      → is_failed (transition guard now s context a).0 ≡ not (is_expected s a)
  unfolding transition
  transition-failed guard now interview_planning context (some (interview_plan a)) = refl
  transition-failed guard now question_preparing context (some (question a)) = refl
  transition-failed guard now next_question context (some (question a)) = refl
  transition-failed guard now next_dimension context (some (question a)) = refl
  transition-failed guard now follow_up context (some (question a)) = refl
  transition-failed guard now listening context (some (answer a)) = refl
  transition-failed guard now evaluating context (some (evaluation a)) = refl
  transition-failed guard now decision context (some (follow_up_decision d)) =
      is_failed-decide guard now d context
  transition-failed guard now reporting context (some (interview_report a)) = refl
  transition-failed guard now _ context _ = refl
