-- ===== src/Review/Reasons.antt =====
-- When a report needs a human.
use interviewer.Prelude.{
  String, ◌≡◌, refl, ◌∙◌, Bool, true, false, ◌&&◌, ◌||◌, List, [], ◌∷◌, ◌++◌, arith, ltb, length,
  Dict,
}
use interviewer.Floats.{Floats, Float, FloatLaws, min_float}
use interviewer.Artifacts.{InterviewReportArtifact}
use interviewer.Blackboard.{InterviewBlackboard}
use interviewer.Review.{
  HumanReviewPolicy, requires_human_review, is_below, minimum, is_nonempty, reason_if, reasons_for,
  evaluate, decision_for,
}

module _ ⦃F : Floats⦄ where
  -- Some coverage lies below the limit.
  abbrev pub any_below : Float → Dict Float → Bool
  any_below limit [] = false
  any_below limit ((_, c) ∷ rest) = F.lt c limit || any_below limit rest

  lt-min_float :
      FloatLaws F
      → (a b limit : Float) → F.lt (min_float a b) limit ≡ (F.lt a limit || F.lt b limit)
  lt-min_float laws a b limit =
      ground (
        arith,
        laws.lt_asym b a,
        laws.lt_negative_trans b a limit,
        laws.lt_negative_trans a b limit,
      )

  lt-minimum :
      FloatLaws F
      → (limit m : Float) (rest : Dict Float)
      → F.lt (minimum m rest) limit ≡ (F.lt m limit || any_below limit rest)
  unfolding minimum
  lt-minimum laws limit m [] = ground arith
  lt-minimum laws limit m ((n, c) ∷ rest) =
      ground (arith, lt-minimum laws limit (min_float m c) rest, lt-min_float laws m c limit)

  -- The test of the least coverage is a test of every coverage.
  pub is_below-eq-any_below :
      FloatLaws F
      → (limit : Float) (coverage : Dict Float) → is_below limit coverage ≡ any_below limit coverage
  unfolding is_below
  is_below-eq-any_below laws limit [] = refl
  is_below-eq-any_below laws limit ((n, c) ∷ rest) = lt-minimum laws limit c rest

  -- The four grounds for a review, as one test.
  abbrev pub needs_review : HumanReviewPolicy → InterviewBlackboard → InterviewReportArtifact → Bool
  needs_review policy board report =
      F.lt report.base.confidence policy.min_report_confidence
      || ltb (length board.evidence) policy.min_evidence_count
      || any_below policy.min_dimension_coverage board.capability_profile.dimension_coverage
      || policy.require_review_for_uncertainty
        && (is_nonempty report.insufficient_evidence_areas
            || is_nonempty board.capability_profile.uncertain_skills)

  requires-decision_for :
      (reasons : List String) (c : Float)
      → requires_human_review (decision_for reasons c) ≡ is_nonempty reasons
  unfolding decision_for
  requires-decision_for [] c = refl
  requires-decision_for (r ∷ rs) c = refl

  nonempty-reasons :
      (a b c d : Bool) (p q r t : String)
      → is_nonempty (reason_if a p ++ (reason_if b q ++ (reason_if c r ++ reason_if d t)))
        ≡ (a || b || c || d)
  nonempty-reasons true b c d p q r t = refl
  nonempty-reasons false true c d p q r t = refl
  nonempty-reasons false false true d p q r t = refl
  nonempty-reasons false false false true p q r t = refl
  nonempty-reasons false false false false p q r t = refl

  nonempty-reasons_for :
      FloatLaws F
      → (policy : HumanReviewPolicy) (board : InterviewBlackboard)
        (report : InterviewReportArtifact)
      → is_nonempty (reasons_for policy board report) ≡ needs_review policy board report
  unfolding reasons_for
  nonempty-reasons_for laws policy board report =
      rw
        (
          nonempty-reasons,
          is_below-eq-any_below laws policy.min_dimension_coverage
              board.capability_profile.dimension_coverage,
        )
        refl

  -- A human is called for exactly where one of the four grounds holds.
  pub requires-evaluate :
      FloatLaws F
      → (policy : HumanReviewPolicy) (board : InterviewBlackboard)
        (report : InterviewReportArtifact)
      → requires_human_review (evaluate policy board report) ≡ needs_review policy board report
  unfolding evaluate
  requires-evaluate laws policy board report =
      requires-decision_for _ _ ∙ nonempty-reasons_for laws policy board report
