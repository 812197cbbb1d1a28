-- ===== src/StateMachine.antt =====
-- The transitions of an interview (src/interview_agent_runtime/runtime/state_machine.py).
-- `allow_next_question` asks the plan for its next dimension, which refreshes the plan in place;
-- so a guard gives its answer and the blackboard that it leaves.
pub mod Diagram
pub mod Keeping
pub mod FollowUps
pub mod Later
use interviewer.Prelude.{
  ℕ, ◌-◌, String, str_eq, Bool, true, false, not, ◌&&◌, ◌||◌, Option, none, some, List, [], ◌∷◌,
  ltb, leb, if◌then◌else◌, is_some, length, contains, add,
}
use interviewer.Floats.{Floats, Float}
use interviewer.Unicode.{Unicode, normalize_follow_up_target}
use interviewer.Stage.{
  InterviewStage, init, profile_analysis, interview_planning, question_preparing, questioning,
  listening, evaluating, decision, follow_up, next_question, next_dimension, reporting, finished,
  failed,
}
use interviewer.Plan
use interviewer.Plan.{InterviewDimension, InterviewPlan}
use interviewer.Artifacts.{
  AgentArtifact, interview_plan, question, answer, evaluation, follow_up_decision, interview_report,
  FollowUpDecisionArtifact,
}
use interviewer.Blackboard.{
  InterviewBlackboard, plan, with_plan, or_text, current_dimension_follow_up_budget,
  current_question_follow_up_round, consume_dimension_follow_up_budget, session_not_timeout,
}

module _ ⦃F : Floats⦄ ⦃U : Unicode⦄ where
  pub record TransitionGuard : Type 0 where
    pub follow_up_confidence_threshold : Float
    pub session_question_limit : ℕ
    pub max_follow_up_round_per_question : ℕ

  -- The early returns, in their order.
  unfoldable pub allow_follow_up :
      TransitionGuard → ℕ → InterviewBlackboard → FollowUpDecisionArtifact → Bool
  allow_follow_up guard now context d =
      if not d.need_follow_up
      then false
      else if F.lt d.base.confidence guard.follow_up_confidence_threshold
      then false
      else if leb context.follow_up_budget 0
      then false
      else if leb (current_dimension_follow_up_budget context) 0
      then false
      else if not (session_not_timeout now context)
      then false
      else if str_eq (or_text d.target "") ""
      then false
      else if contains context.followed_targets (normalize_follow_up_target (or_text d.target ""))
      then false
      else if leb guard.max_follow_up_round_per_question (current_question_follow_up_round context)
      then false
      else true

  -- `plan.next_dimension(dimension_coverage)`, with the plan that it leaves on the blackboard.
  next_dimension_of :
      Option InterviewPlan → InterviewBlackboard → Option InterviewDimension × InterviewBlackboard
  next_dimension_of none context = (none, context)
  next_dimension_of (some p) context =
      let (d, p') = Plan.next_dimension p context.capability_profile.dimension_coverage in
      (d, with_plan context p')

  unfoldable pub ask_plan : InterviewBlackboard → Option InterviewDimension × InterviewBlackboard
  unfolding next_dimension_of
  ask_plan context = next_dimension_of (plan context) context

  -- Without a plan `has_dimension` stays true.
  unfoldable pub allow_next_question :
      TransitionGuard → ℕ → InterviewBlackboard → Bool × InterviewBlackboard
  allow_next_question guard now context =
      let (d, context') = ask_plan context in
      (
        ltb 0 context.question_budget
            && (not (is_some (plan context)) || is_some d)
            && ltb (length context.asked_question_ids) guard.session_question_limit
            && session_not_timeout now context,
        context',
      )

  is_other_dimension : Option InterviewDimension → String → Bool
  is_other_dimension none current = false
  is_other_dimension (some d) current = not (str_eq current "") && not (str_eq d.name current)

  -- A follow-up takes from the budgets and remembers its target.
  unfoldable pub take_follow_up :
      FollowUpDecisionArtifact → InterviewBlackboard → InterviewBlackboard
  take_follow_up d context =
      let spent = record context { follow_up_budget = context.follow_up_budget - 1 } in
      let consumed = consume_dimension_follow_up_budget spent in
      record consumed { followed_targets = add consumed.followed_targets d.normalized_target }

  unfoldable pub choose_next : InterviewBlackboard → InterviewStage × InterviewBlackboard
  unfolding is_other_dimension
  choose_next context =
      let (d, context') = ask_plan context in
      (
        if is_other_dimension d context.current_dimension then next_dimension else next_question,
        context',
      )

  next_or_report : Bool × InterviewBlackboard → InterviewStage × InterviewBlackboard
  next_or_report (true, context) = choose_next context
  next_or_report (false, context) = (reporting, context)

  unfoldable pub decide :
      TransitionGuard
      → ℕ
      → FollowUpDecisionArtifact
      → InterviewBlackboard
      → InterviewStage × InterviewBlackboard
  unfolding next_or_report
  decide guard now d context =
      if allow_follow_up guard now context d
      then (follow_up, take_follow_up d context)
      else next_or_report (allow_next_question guard now context)

  -- The stages that wait for a question.
  on_question : Option AgentArtifact → InterviewStage
  on_question (some (question q)) = questioning
  on_question _ = failed

  -- By the stage and the class of the artifact; what matches no test has failed.
  unfoldable pub transition :
      TransitionGuard
      → ℕ
      → InterviewStage
      → InterviewBlackboard
      → Option AgentArtifact
      → InterviewStage × InterviewBlackboard
  unfolding on_question
  transition guard now init context a = (profile_analysis, context)
  transition guard now profile_analysis context a = (interview_planning, context)
  transition guard now interview_planning context (some (interview_plan a)) =
      (question_preparing, context)
  transition guard now question_preparing context a = (on_question a, context)
  transition guard now next_question context a = (on_question a, context)
  transition guard now next_dimension context a = (on_question a, context)
  transition guard now follow_up context a = (on_question a, context)
  transition guard now questioning context a = (listening, context)
  transition guard now listening context (some (answer a)) = (evaluating, context)
  transition guard now evaluating context (some (evaluation a)) = (decision, context)
  transition guard now decision context (some (follow_up_decision d)) = decide guard now d context
  transition guard now reporting context (some (interview_report a)) = (finished, context)
  transition guard now _ context a = (failed, context)
