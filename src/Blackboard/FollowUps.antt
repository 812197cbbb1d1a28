-- ===== src/Blackboard/FollowUps.antt =====
-- The follow-up budgets of the dimensions on a blackboard.
use interviewer.Prelude.{ℕ, ◌+◌, ◌<◌, String, ◌≡◌, Option, none, some, List, [], ◌∷◌, arith}
use interviewer.Floats.{Floats}
use interviewer.Plan.{InterviewDimension, InterviewPlan}
use interviewer.Artifacts.{InterviewPlanArtifact}
use interviewer.Blackboard.{
  InterviewBlackboard, plan, plan_of, budget_of, budget_in, consume, consume_in,
  current_dimension_follow_up_budget, consume_dimension_follow_up_budget,
}

module _ ⦃F : Floats⦄ where
  -- The follow-ups that the dimensions of the plan still have, together.
  abbrev pub total_follow_ups : List InterviewDimension → ℕ
  total_follow_ups [] = 0
  total_follow_ups (d ∷ ds) = d.follow_up_budget + total_follow_ups ds

  abbrev follow_ups_in : Option InterviewPlan → ℕ
  follow_ups_in none = 0
  follow_ups_in (some p) = total_follow_ups p.dimensions

  abbrev pub plan_follow_ups : InterviewBlackboard → ℕ
  plan_follow_ups board = follow_ups_in (plan board)

  consume-total :
      (name : String) (ds : List InterviewDimension)
      → 0 < budget_of name ds
      → total_follow_ups (consume name ds) + 1 ≡ total_follow_ups ds
  unfolding consume budget_of
  consume-total name [] h = absurd (omega arith)
  consume-total name (d ∷ ds) h = ground (arith, consume-total name ds)

  consume_in-total :
      (name : String) (o : Option InterviewPlanArtifact)
      → 0 < budget_in name (plan_of o)
      → follow_ups_in (plan_of (consume_in name o)) + 1 ≡ follow_ups_in (plan_of o)
  unfolding consume_in budget_in
  consume_in-total name none h = absurd (omega arith)
  consume_in-total name (some a) h = consume-total name a.plan.dimensions (ground arith)

  -- A dimension with follow-ups left gives exactly one of them up.
  pub consume-plan_follow_ups :
      (board : InterviewBlackboard)
      → 0 < current_dimension_follow_up_budget board
      → plan_follow_ups (consume_dimension_follow_up_budget board) + 1 ≡ plan_follow_ups board
  unfolding consume_dimension_follow_up_budget current_dimension_follow_up_budget
  consume-plan_follow_ups board h = consume_in-total board.current_dimension board.interview_plan h
