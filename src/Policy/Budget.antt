-- ===== src/Policy/Budget.antt =====
-- The budgets of the plan under the policy.
use interviewer.Prelude.{
  ℕ, ◌≤◌, String, ◌≡◌, refl, Bool, true, false, if◌then◌else◌, List, [], ◌∷◌, arith, Dict,
}
use interviewer.Floats.{Floats, Float}
use interviewer.Plan.{InterviewDimension, InterviewPlan, coverage_of, update_after_evaluation}
use interviewer.Plan.Budget.{
  total_budget, IsWithinBudget, update_after_evaluation-total,
  update_after_evaluation-IsWithinBudget,
}
use interviewer.Artifacts.{EvaluationArtifact}
use interviewer.Policy.{
  InterviewPlanPolicy, raise_follow_up, increase_follow_up_budget, complete_dimension_early,
  count_evidence, revise_dimension, revise_all, update_plan,
}

module _ ⦃F : Floats⦄ where
  raise_follow_up-IsWithinBudget :
      (name : String) (ds : List InterviewDimension)
      → IsWithinBudget ds
      → IsWithinBudget (raise_follow_up name ds)
  unfolding raise_follow_up
  raise_follow_up-IsWithinBudget name [] h = tt
  raise_follow_up-IsWithinBudget name (d ∷ ds) h =
      ground (arith, raise_follow_up-IsWithinBudget name ds h.1)

  raise_follow_up-total :
      (name : String) (ds : List InterviewDimension)
      → total_budget (raise_follow_up name ds) ≡ total_budget ds
  unfolding raise_follow_up
  raise_follow_up-total name [] = refl
  raise_follow_up-total name (d ∷ ds) = ground (arith, raise_follow_up-total name ds)

  -- A revision of the plan that keeps every dimension within its budget and adds no budget.
  pub record IsFrugal (plan plan' : InterviewPlan) : Type 0 where
    pub within : IsWithinBudget plan'.dimensions
    pub no_more : total_budget plan'.dimensions ≤ total_budget plan.dimensions

  update-IsFrugal :
      (plan : InterviewPlan) (name : String) (c : Float) (n : ℕ)
      → IsWithinBudget plan.dimensions
      → IsFrugal plan (update_after_evaluation plan name c n).1
  update-IsFrugal plan name c n h = record {
    within = update_after_evaluation-IsWithinBudget plan name c n h;
    no_more = omega (arith, update_after_evaluation-total plan name c n h);
  }

  IsFrugal-if :
      (b : Bool) {plan p q : InterviewPlan}
      → IsFrugal plan p
      → IsFrugal plan q
      → IsFrugal plan (if b then p else q)
  IsFrugal-if true hp hq = hp
  IsFrugal-if false hp hq = hq

  IsFrugal-trans : {p q r : InterviewPlan} → IsFrugal p q → IsFrugal q r → IsFrugal p r
  IsFrugal-trans h k = record { within = k.within; no_more = omega arith }

  increase-IsFrugal :
      (plan p : InterviewPlan) (name : String)
      → IsFrugal plan p
      → IsFrugal plan (increase_follow_up_budget p name)
  unfolding increase_follow_up_budget
  increase-IsFrugal plan p name h = record {
    within = raise_follow_up-IsWithinBudget name p.dimensions h.within;
    no_more = rw (raise_follow_up-total name p.dimensions) h.no_more;
  }

  complete-IsFrugal :
      (plan p : InterviewPlan) (name : String) (coverage : Dict Float)
      → IsFrugal plan p
      → IsFrugal plan (complete_dimension_early p name coverage)
  unfolding complete_dimension_early
  complete-IsFrugal plan p name coverage h = IsFrugal-trans h (update-IsFrugal p name _ 0 h.within)

  revise_dimension-IsFrugal :
      (policy : InterviewPlanPolicy) (e : EvaluationArtifact) (coverage : Dict Float)
      (name : String) (score : Float) (plan : InterviewPlan)
      → IsWithinBudget plan.dimensions
      → IsFrugal plan (revise_dimension policy e coverage name score plan).1
  unfolding revise_dimension
  revise_dimension-IsFrugal policy e coverage name score plan h =
      let count = count_evidence name e.evidence in
      let first = update-IsFrugal plan name (coverage_of coverage name) count h in
      let second = IsFrugal-if _ (increase-IsFrugal plan _ name first) first in
      IsFrugal-if _ (complete-IsFrugal plan _ name coverage second) second

  revise_all-IsFrugal :
      (policy : InterviewPlanPolicy) (e : EvaluationArtifact) (coverage scores : Dict Float)
      (plan : InterviewPlan)
      → IsWithinBudget plan.dimensions
      → IsFrugal plan (revise_all policy e coverage scores plan).1
  unfolding revise_all
  revise_all-IsFrugal policy e coverage [] plan h = record { within = h; no_more = omega arith }
  revise_all-IsFrugal policy e coverage ((name, score) ∷ scores) plan h =
      let first = revise_dimension-IsFrugal policy e coverage name score plan h in
      IsFrugal-trans first (revise_all-IsFrugal policy e coverage scores _ first.within)

  -- Where no dimension has asked more than its budget, an evaluation leaves it so, and the
  -- question budget of the whole plan does not grow.
  pub update_plan-IsFrugal :
      (policy : InterviewPlanPolicy) (plan : InterviewPlan) (e : EvaluationArtifact)
      (coverage : Dict Float)
      → IsWithinBudget plan.dimensions
      → IsFrugal plan (update_plan policy plan e coverage).1
  unfolding update_plan
  update_plan-IsFrugal policy plan e coverage h =
      revise_all-IsFrugal policy e coverage e.dimension_scores plan h
