-- ===== src/StateMachine/FollowUps.antt =====
-- What a follow-up costs, and when it is granted.
use interviewer.Prelude.{
  ℕ, ◌+◌, ◌<◌, String, str_eq, ◌≡◌, ◌≢◌, Bool, true, false, ◌||◌, arith, contains, contains-add,
  subst, ap, Bool-cases, inl, inr,
}
use interviewer.Floats.{Floats}
use interviewer.Unicode.{Unicode, normalize_follow_up_target}
use interviewer.Stage.{follow_up}
use interviewer.Artifacts.{FollowUpDecisionArtifact}
use interviewer.Blackboard.FollowUps.{plan_follow_ups, consume-plan_follow_ups}
use interviewer.Blackboard.{
  InterviewBlackboard, or_text, current_dimension_follow_up_budget,
  current_question_follow_up_round, consume_dimension_follow_up_budget, session_not_timeout,
}
use interviewer.StateMachine.{
  TransitionGuard, allow_follow_up, allow_next_question, take_follow_up, choose_next, decide,
  next_or_report,
}

module _ ⦃F : Floats⦄ ⦃U : Unicode⦄ where
  -- Every one of the guard's tests passes.
  pub record IsGranted (guard : TransitionGuard) (now : ℕ) (context : InterviewBlackboard)
      (d : FollowUpDecisionArtifact) : Type 0 where
    pub needed : d.need_follow_up ≡ true
    pub confident : F.lt d.base.confidence guard.follow_up_confidence_threshold ≡ false
    pub session_budget : 0 < context.follow_up_budget
    pub dimension_budget : 0 < current_dimension_follow_up_budget context
    pub in_time : session_not_timeout now context ≡ true
    pub has_target : str_eq (or_text d.target "") "" ≡ false
    pub new_target :
        contains context.followed_targets (normalize_follow_up_target (or_text d.target "")) ≡ false
    pub round_left :
        current_question_follow_up_round context < guard.max_follow_up_round_per_question

  pub allow_follow_up-IsGranted :
      (guard : TransitionGuard) (now : ℕ) (context : InterviewBlackboard)
      (d : FollowUpDecisionArtifact)
      → allow_follow_up guard now context d ≡ true
      → IsGranted guard now context d
  unfolding allow_follow_up
  allow_follow_up-IsGranted guard now context d h = ground arith

  IsGranted-allow_follow_up :
      (guard : TransitionGuard) (now : ℕ) (context : InterviewBlackboard)
      (d : FollowUpDecisionArtifact)
      → IsGranted guard now context d
      → allow_follow_up guard now context d ≡ true
  unfolding allow_follow_up
  IsGranted-allow_follow_up guard now context d h = ground arith

  choose_next-ne-follow_up : (context : InterviewBlackboard) → (choose_next context).0 ≢ follow_up
  unfolding choose_next
  choose_next-ne-follow_up context = ground arith

  next_or_report-ne-follow_up : (r : Bool × InterviewBlackboard) → (next_or_report r).0 ≢ follow_up
  unfolding next_or_report
  next_or_report-ne-follow_up (true, context) = choose_next-ne-follow_up context
  next_or_report-ne-follow_up (false, context) = λ e. cc

  -- What a granted follow-up leaves behind.
  pub record IsSpent (context context' : InterviewBlackboard) (d : FollowUpDecisionArtifact)
      : Type 0 where
    pub session_budget : context'.follow_up_budget + 1 ≡ context.follow_up_budget
    pub dimension_budget : plan_follow_ups context' + 1 ≡ plan_follow_ups context
    pub remembered :
        (s : String)
        → contains context'.followed_targets s
          ≡ (contains context.followed_targets s || str_eq d.normalized_target s)

  take_follow_up-IsSpent :
      (context : InterviewBlackboard) (d : FollowUpDecisionArtifact)
      → 0 < context.follow_up_budget
      → 0 < current_dimension_follow_up_budget context
      → IsSpent context (take_follow_up d context) d
  unfolding take_follow_up consume_dimension_follow_up_budget
  take_follow_up-IsSpent context d h k = record {
    session_budget = omega arith;
    dimension_budget = consume-plan_follow_ups context k;
    remembered = λ s. contains-add context.followed_targets d.normalized_target s;
  }

  -- Where a decision leads to a follow-up, every test of the guard passed; the session and the
  -- dimensions of the plan each have one follow-up less, and besides the targets remembered
  -- before exactly the normalized target of the decision is remembered.
  pub decide-follow_up :
      (guard : TransitionGuard) (now : ℕ) (d : FollowUpDecisionArtifact)
      (context context' : InterviewBlackboard)
      → decide guard now d context ≡ (follow_up, context')
      → IsGranted guard now context d × IsSpent context context' d
  unfolding decide
  decide-follow_up guard now d context context' h =
      elim (Bool-cases (allow_follow_up guard now context d)) [
        | inl yes_ ↦
            let g = allow_follow_up-IsGranted guard now context d yes_ in
            let e : take_follow_up d context ≡ context' = cc (rw yes_ at h) in
            (
              g,
              subst (λ c. IsSpent context c d) e
                  (take_follow_up-IsSpent context d g.session_budget g.dimension_budget),
            )
        | inr no_ ↦ absurd (
            next_or_report-ne-follow_up (allow_next_question guard now context)
              (ap (λ r. r.0) (rw no_ at h)))
      ]
