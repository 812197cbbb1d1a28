-- ===== src/Examples/Plans.antt =====
-- Runs of the plan, its policy, the capability profile and the review.
use interviewer.Prelude.{
  ◌+◌, ◌≡◌, refl, true, false, none, some, [], arith, All, lookup, insert, sorted, insert_sorted,
  String, ◌↔◌,
}
use interviewer.Floats.{Float}
use interviewer.Plan.{InterviewPlan, is_open, next_dimension, update_after_evaluation}
use interviewer.Plan.Budget.{
  IsWithinBudget, total_budget, update_after_evaluation-total,
  update_after_evaluation-IsWithinBudget,
}
use interviewer.Plan.Selection.{
  IsHeaviestOpen, next_dimension-IsHeaviestOpen, next_dimension-eq-none,
}
use interviewer.Policy.{InterviewPlanPolicy, update_plan}
use interviewer.Policy.Budget.{IsFrugal, update_plan-IsFrugal}
use interviewer.Capability.{update_dimension}
use interviewer.Capability.Consistent.{
  IsConsistent, update_dimension-IsConsistent, update_dimension-coverage_le_one,
}
use interviewer.Stage.{reporting}
use interviewer.Review.{HumanReviewPolicy, evaluate, requires_human_review}
use interviewer.Review.Reasons.{requires-evaluate}
use interviewer.Examples.{
  numbers, numbers-laws, number, dimension, two_dimensions, strong_evaluation, empty_profile,
  board_in, final_report,
}

two_dimensions-IsWithinBudget : IsWithinBudget two_dimensions.dimensions
two_dimensions-IsWithinBudget = (omega arith, (omega arith, tt))

update_after_evaluation-total_example :
    total_budget (update_after_evaluation two_dimensions "python" (number 1) 1).1.dimensions + 0 ≡ 5
update_after_evaluation-total_example =
    update_after_evaluation-total two_dimensions "python" (number 1) 1 two_dimensions-IsWithinBudget

update_after_evaluation-IsWithinBudget_example :
    IsWithinBudget (update_after_evaluation two_dimensions "python" (number 1) 1).1.dimensions
update_after_evaluation-IsWithinBudget_example =
    update_after_evaluation-IsWithinBudget two_dimensions "python" (number 1) 1
      two_dimensions-IsWithinBudget

abbrev at_design : InterviewPlan
at_design = record two_dimensions { current_dimension_index = 1 }

next_dimension_design :
    next_dimension two_dimensions [] ≡ (some (dimension "design" 2 2 0), at_design)
unfolding next_dimension sorted lookup insert_sorted
next_dimension_design = refl

next_dimension-IsHeaviestOpen_example :
    IsHeaviestOpen (dimension "design" 2 2 0) at_design.dimensions
next_dimension-IsHeaviestOpen_example =
    next_dimension-IsHeaviestOpen numbers-laws two_dimensions at_design []
      (dimension "design" 2 2 0) next_dimension_design

next_dimension-eq-none_example :
    ((next_dimension two_dimensions []).0 ≡ none)
    ↔ All (λ d. is_open d ≡ false) (next_dimension two_dimensions []).1.dimensions
next_dimension-eq-none_example = next_dimension-eq-none two_dimensions []

abbrev plan_policy : InterviewPlanPolicy
plan_policy = record { weak_score_threshold = number 65; high_score_threshold = number 85 }

update_plan-IsFrugal_example :
    IsFrugal two_dimensions (update_plan plan_policy two_dimensions strong_evaluation []).1
update_plan-IsFrugal_example =
    update_plan-IsFrugal plan_policy two_dimensions strong_evaluation []
      two_dimensions-IsWithinBudget

empty_profile-IsConsistent : IsConsistent empty_profile
empty_profile-IsConsistent = record {
  verified_distinct = tt;
  weak_distinct = tt;
  uncertain_distinct = tt;
  not_both = λ s h. refl;
}

update_dimension-IsConsistent_example :
    IsConsistent (update_dimension empty_profile "python" (number 90) 2 [])
update_dimension-IsConsistent_example =
    update_dimension-IsConsistent empty_profile "python" (number 90) 2 [] empty_profile-IsConsistent

nothing_covered :
    (s : String) (c : Float)
    → lookup empty_profile.dimension_coverage s ≡ some c
    → numbers.lt (numbers.decimal 10 1) c ≡ false
unfolding lookup
nothing_covered s c h = cc

covered_python :
    lookup (update_dimension empty_profile "python" (number 90) 2 []).dimension_coverage "python"
    ≡ some (record { up = 650; down = 0 })
unfolding update_dimension lookup insert
covered_python = refl

update_dimension-coverage_le_one_example :
    numbers.lt (numbers.decimal 10 1) (record { up = 650; down = 0 }) ≡ false
update_dimension-coverage_le_one_example =
    update_dimension-coverage_le_one numbers-laws empty_profile "python" (number 90) 2 []
      nothing_covered "python" (record { up = 650; down = 0 }) covered_python

abbrev review_policy : HumanReviewPolicy
review_policy = record {
  min_evidence_count = 1;
  min_dimension_coverage = record { up = 300; down = 0 };
  min_report_confidence = record { up = 600; down = 0 };
  require_review_for_uncertainty = true;
}

requires-evaluate_example :
    requires_human_review (evaluate review_policy (board_in reporting) final_report) ≡ true
requires-evaluate_example =
    requires-evaluate numbers-laws review_policy (board_in reporting) final_report
