-- ===== src/StateMachine/Later.antt =====
-- What a session remembers of its follow-ups while it goes on
-- (src/interview_agent_runtime/runtime/state_machine.py and blackboard/board.py).
use interviewer.Prelude.{
  ℕ, String, eq_iff, ◌≡◌, refl, Bool, true, false, Option, none, some, List, [], ◌∷◌, arith,
  contains, contains-add, Bool-cases, inl, inr,
}
use interviewer.Floats.{Floats}
use interviewer.Unicode.{Unicode, normalize_follow_up_target}
use interviewer.Stage.{
  InterviewStage, interview_planning, listening, evaluating, decision, follow_up, reporting,
}
use interviewer.Plan.{InterviewPlan}
use interviewer.Artifacts.{
  AgentArtifact, interview_plan, answer, evaluation, follow_up_decision, interview_report,
  FollowUpDecisionArtifact,
}
use interviewer.Blackboard.{
  InterviewBlackboard, or_text, plan, publish, consume_dimension_follow_up_budget,
}
use interviewer.Blackboard.Publishing.{publish-followed_targets}
use interviewer.StateMachine.{
  TransitionGuard, transition, allow_follow_up, allow_next_question, ask_plan, next_dimension_of,
  take_follow_up, choose_next, decide, next_or_report,
}
use interviewer.StateMachine.FollowUps.{allow_follow_up-IsGranted, decide-follow_up}

module _ ⦃F : Floats⦄ ⦃U : Unicode⦄ where
  -- What the runtime does to the blackboard of a session: it publishes an artifact, or it goes on to the
  -- next stage.
  pub data SessionEvent : Type 0 where
    published : ℕ → AgentArtifact → SessionEvent
    moved : TransitionGuard → ℕ → InterviewStage → Option AgentArtifact → SessionEvent

  abbrev after_event : SessionEvent → InterviewBlackboard → InterviewBlackboard
  after_event (published now artifact) board = (publish now artifact board).1
  after_event (moved guard now previous artifact) board =
      let (stage, board') = transition guard now previous board artifact in
      record board' { current_stage = stage }

  abbrev pub after_events : List SessionEvent → InterviewBlackboard → InterviewBlackboard
  after_events [] board = board
  after_events (e ∷ es) board = after_events es (after_event e board)

  -- The target was followed up.
  abbrev Remembers : InterviewBlackboard → String → Type 0
  Remembers board target = contains board.followed_targets target ≡ true

  next_dimension_of-followed_targets :
      (p : Option InterviewPlan) (context : InterviewBlackboard)
      → (next_dimension_of p context).1.followed_targets ≡ context.followed_targets
  unfolding next_dimension_of
  next_dimension_of-followed_targets none context = refl
  next_dimension_of-followed_targets (some p) context = refl

  ask_plan-followed_targets :
      (context : InterviewBlackboard)
      → (ask_plan context).1.followed_targets ≡ context.followed_targets
  unfolding ask_plan
  ask_plan-followed_targets context = next_dimension_of-followed_targets (plan context) context

  next_or_report-followed_targets :
      (r : Bool × InterviewBlackboard)
      → (next_or_report r).1.followed_targets ≡ r.1.followed_targets
  unfolding next_or_report choose_next
  next_or_report-followed_targets (true, context) = ask_plan-followed_targets context
  next_or_report-followed_targets (false, context) = refl

  decide-Remembers :
      (guard : TransitionGuard) (now : ℕ) (d : FollowUpDecisionArtifact)
      (context : InterviewBlackboard) (target : String)
      → Remembers context target
      → Remembers (decide guard now d context).1 target
  unfolding decide take_follow_up consume_dimension_follow_up_budget allow_next_question
  decide-Remembers guard now d context target h =
      elim (Bool-cases (allow_follow_up guard now context d)) [
        | inl yes_ ↦
            rw yes_
              (ground (arith, contains-add context.followed_targets d.normalized_target target))
        | inr no_ ↦
            rw
              (
                no_,
                next_or_report-followed_targets (allow_next_question guard now context),
                ask_plan-followed_targets context,
              )
              h
      ]

  transition-Remembers :
      (guard : TransitionGuard) (now : ℕ) (s : InterviewStage) (context : InterviewBlackboard)
      (a : Option AgentArtifact) (target : String)
      → Remembers context target
      → Remembers (transition guard now s context a).1 target
  unfolding transition
  transition-Remembers guard now interview_planning context (some (interview_plan a)) target h = h
  transition-Remembers guard now evaluating context (some (evaluation a)) target h = h
  transition-Remembers guard now listening context (some (answer a)) target h = h
  transition-Remembers guard now reporting context (some (interview_report a)) target h = h
  transition-Remembers guard now decision context (some (follow_up_decision d)) target h =
      decide-Remembers guard now d context target h
  transition-Remembers guard now _ context a target h = h

  after_events-Remembers :
      (es : List SessionEvent) (board : InterviewBlackboard) (target : String)
      → Remembers board target
      → Remembers (after_events es board) target
  after_events-Remembers [] board target h = h
  after_events-Remembers (published now artifact ∷ es) board target h =
      after_events-Remembers es _ target (rw (publish-followed_targets now artifact board) h)
  after_events-Remembers (moved guard now previous artifact ∷ es) board target h =
      after_events-Remembers es _ target
        (transition-Remembers guard now previous board artifact target h)

  -- A target is followed up once: after a follow-up to it, and after any artifacts that are published and
  -- any transitions, no decision for the same target, in whatever spelling, is granted, at any time. The
  -- normalized target of the decision that was granted is that of its target, as its constructor makes it.
  pub follow_up_once :
      (guard : TransitionGuard) (now later : ℕ) (d again : FollowUpDecisionArtifact)
      (context context' : InterviewBlackboard) (es : List SessionEvent)
      → decide guard now d context ≡ (follow_up, context')
      → d.normalized_target ≡ normalize_follow_up_target (or_text d.target "")
      → normalize_follow_up_target (or_text again.target "")
        ≡ normalize_follow_up_target (or_text d.target "")
      → allow_follow_up guard later (after_events es context') again ≡ false
  follow_up_once guard now later d again context context' es h norm same =
      let target = normalize_follow_up_target (or_text again.target "") in
      let spent = (decide-follow_up guard now d context context' h).1 in
      let known : Remembers context' target =
        ground (arith, spent.remembered target, eq_iff d.normalized_target target) in
      let still = after_events-Remembers es context' target known in
      elim (Bool-cases (allow_follow_up guard later (after_events es context') again)) [
        | inl yes_ ↦ cc (
            (allow_follow_up-IsGranted guard later (after_events es context') again
              yes_).new_target)
        | inr no_ ↦ no_
      ]
