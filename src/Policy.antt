-- ===== src/Policy.antt =====
-- `InterviewPlanPolicy` of src/interview_agent_runtime/planning/policy.py: how an evaluation
-- revises the plan.
pub mod Budget
use interviewer.Prelude.{
  ℕ, ◌+◌, String, str_eq, Bool, not, ◌&&◌, true, false, List, [], ◌∷◌, if◌then◌else◌, ltb, Dict,
  keep, length,
}
use interviewer.Floats.{Floats, Float, max_float}
use interviewer.Plan.{InterviewDimension, InterviewPlan, coverage_of, update_after_evaluation}
use interviewer.Artifacts.{EvaluationArtifact, Evidence}

module _ ⦃F : Floats⦄ where
  pub record InterviewPlanPolicy : Type 0 where
    pub weak_score_threshold : Float
    pub high_score_threshold : Float

  -- `max(item.follow_up_budget, 1)`, at the first dimension of that name that is not completed.
  unfoldable pub raise_follow_up : String → List InterviewDimension → List InterviewDimension
  raise_follow_up name [] = []
  raise_follow_up name (d ∷ ds) =
      if str_eq d.name name && not d.completed
      then record d {
        follow_up_budget = if ltb d.follow_up_budget 1 then 1 else d.follow_up_budget;
      }
        ∷ ds
      else d ∷ raise_follow_up name ds

  unfoldable pub increase_follow_up_budget : InterviewPlan → String → InterviewPlan
  unfolding raise_follow_up
  increase_follow_up_budget plan name = record plan {
    dimensions = raise_follow_up name plan.dimensions;
  }

  -- The released budget is not reported.
  unfoldable pub complete_dimension_early : InterviewPlan → String → Dict Float → InterviewPlan
  complete_dimension_early plan name coverage =
      (update_after_evaluation plan name (max_float (coverage_of coverage name) (F.decimal 75 2))
        0).1

  abbrev pub is_empty : List String → Bool
  is_empty [] = true
  is_empty (x ∷ xs) = false

  -- How many pieces of evidence speak of the dimension.
  abbrev pub count_evidence : String → List Evidence → ℕ
  count_evidence name es = length (keep (λ e. str_eq e.dimension name) es)

  -- The body of the loop, for one entry of `dimension_scores`.
  unfoldable pub revise_dimension :
      InterviewPlanPolicy
      → EvaluationArtifact
      → Dict Float
      → String
      → Float
      → InterviewPlan
      → ℕ × InterviewPlan
  revise_dimension policy evaluation coverage name score plan =
      let (released, plan₁) =
        update_after_evaluation plan name (coverage_of coverage name)
          (count_evidence name evaluation.evidence) in
      let plan₂ =
        if F.lt score policy.weak_score_threshold && not (is_empty evaluation.missing_points)
        then increase_follow_up_budget plan₁ name
        else plan₁ in
      (
        released,
        if F.le policy.high_score_threshold score
              && F.le (F.decimal 55 2) (coverage_of coverage name)
            then complete_dimension_early plan₂ name coverage
            else plan₂,
      )

  unfoldable pub revise_all :
      InterviewPlanPolicy
      → EvaluationArtifact
      → Dict Float
      → Dict Float
      → InterviewPlan
      → ℕ × InterviewPlan
  revise_all policy evaluation coverage [] plan = (0, plan)
  revise_all policy evaluation coverage ((name, score) ∷ scores) plan =
      let (released, plan') = revise_dimension policy evaluation coverage name score plan in
      let (rest, plan'') = revise_all policy evaluation coverage scores plan' in
      (released + rest, plan'')

  unfoldable pub update_plan :
      InterviewPlanPolicy → InterviewPlan → EvaluationArtifact → Dict Float → ℕ × InterviewPlan
  unfolding revise_all
  update_plan policy plan evaluation coverage =
      revise_all policy evaluation coverage evaluation.dimension_scores plan
