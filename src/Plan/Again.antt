-- ===== src/Plan/Again.antt =====
-- `next_dimension` (src/interview_agent_runtime/domain/models.py) on the plan that it left.
use interviewer.Prelude.{
  ◌≡◌, refl, Bool, true, false, Option, none, some, List, [], ◌∷◌, if◌then◌else◌, Bool-cases, inl,
  inr, Dict, keep, head?, sorted,
}
use interviewer.Floats.{Floats, Float, max_float}
use interviewer.Plan.{
  InterviewDimension, InterviewPlan, refresh, refresh_all, is_open, selected_before, choose,
  next_dimension, coverage_of,
}

module _ ⦃F : Floats⦄ where
  max_float-again : (a b : Float) → max_float (max_float a b) b ≡ max_float a b
  max_float-again a b = elim (Bool-cases (F.lt a b)) [
    | inl above ↦ rw above (itself b)
    | inr not_above ↦ rw (not_above, not_above) refl
  ]
    where
      itself : (b : Float) → max_float b b ≡ b
      itself b = elim (Bool-cases (F.lt b b)) [ inl e ↦ rw e refl | inr e ↦ rw e refl ]

  refresh-again :
      (coverage : Dict Float) (d : InterviewDimension)
      → refresh coverage (refresh coverage d) ≡ refresh coverage d
  unfolding refresh
  refresh-again coverage d =
      let c = coverage_of coverage d.name in
      rw (max_float-again d.current_coverage c)
        (by_target (F.le d.coverage_target (max_float d.current_coverage c)))
    where
      by_target :
          (b : Bool)
          → record d {
            current_coverage = max_float d.current_coverage (coverage_of coverage d.name);
            completed = if b then true else if b then true else d.completed;
          }
            ≡ record d {
              current_coverage = max_float d.current_coverage (coverage_of coverage d.name);
              completed = if b then true else d.completed;
            }
      by_target true = refl
      by_target false = refl

  refresh_all-again :
      (coverage : Dict Float) (ds : List InterviewDimension)
      → refresh_all coverage (refresh_all coverage ds) ≡ refresh_all coverage ds
  unfolding refresh_all
  refresh_all-again coverage [] = refl
  refresh_all-again coverage (d ∷ ds) =
      rw (refresh-again coverage d, refresh_all-again coverage ds) refl

  choose-dimensions :
      (plan : InterviewPlan) (d : Option InterviewDimension)
      → (choose plan d).1.dimensions ≡ plan.dimensions
  unfolding choose
  choose-dimensions plan none = refl
  choose-dimensions plan (some d) = refl

  choose-again :
      (plan : InterviewPlan) (d : Option InterviewDimension)
      → choose (choose plan d).1 d ≡ choose plan d
  unfolding choose
  choose-again plan none = refl
  choose-again plan (some d) = refl

  -- On the plan that `next_dimension` leaves it selects the same dimension and leaves the plan.
  pub next_dimension-again :
      (plan : InterviewPlan) (coverage : Dict Float)
      → next_dimension (next_dimension plan coverage).1 coverage ≡ next_dimension plan coverage
  unfolding next_dimension choose
  next_dimension-again plan coverage =
      let ds = refresh_all coverage plan.dimensions in
      let p = record plan { dimensions = ds } in
      let d = head? (sorted (selected_before coverage) (keep is_open ds)) in
      rw (choose-dimensions p d, refresh_all-again coverage plan.dimensions) (settled d)
    where
      settled :
          (d : Option InterviewDimension)
          → choose
              (record (choose
                (record plan { dimensions = refresh_all coverage plan.dimensions })
                d).1 { dimensions = refresh_all coverage plan.dimensions })
              d
            ≡ choose (record plan { dimensions = refresh_all coverage plan.dimensions }) d
      settled none = refl
      settled (some d) = refl
