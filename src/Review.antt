-- ===== src/Review.antt =====
-- `HumanReviewPolicy` (src/interview_agent_runtime/runtime/review.py): whether a report may end the
-- interview without a human.
pub mod Reasons
use interviewer.Prelude.{
  ℕ, String, Bool, true, false, not, ◌&&◌, ◌||◌, Option, none, some, List, [], ◌∷◌, ◌++◌, ltb,
  if◌then◌else◌, length, Dict,
}
use interviewer.Floats.{Floats, Float, min_float}
use interviewer.Artifacts.{InterviewReportArtifact}
use interviewer.Blackboard.{InterviewBlackboard}

pub data ReviewDecisionType : Type 0 where
  auto_complete require_human_review : ReviewDecisionType

module _ ⦃F : Floats⦄ where
  pub record ReviewDecision : Type 0 where
    pub decision : ReviewDecisionType
    pub reasons : List String
    pub confidence : Option Float

  abbrev requires : ReviewDecisionType → Bool
  requires auto_complete = false
  requires require_human_review = true

  -- The property of that name.
  abbrev pub requires_human_review : ReviewDecision → Bool
  requires_human_review d = requires d.decision

  abbrev pub review_status : ReviewDecision → String
  review_status d = if requires_human_review d then "pending" else "not_required"

  pub record HumanReviewPolicy : Type 0 where
    pub min_evidence_count : ℕ
    pub min_dimension_coverage : Float
    pub min_report_confidence : Float
    pub require_review_for_uncertainty : Bool

  -- `min(coverages)`: of equal ones the first.
  minimum : Float → Dict Float → Float
  minimum m [] = m
  minimum m ((_, c) ∷ rest) = minimum (min_float m c) rest

  unfoldable pub is_below : Float → Dict Float → Bool
  unfolding minimum
  is_below limit [] = false
  is_below limit ((_, c) ∷ rest) = F.lt (minimum c rest) limit

  abbrev is_nonempty : List String → Bool
  is_nonempty [] = false
  is_nonempty (x ∷ xs) = true

  abbrev pub reason_if : Bool → String → List String
  reason_if true r = r ∷ []
  reason_if false r = []

  -- The four tests, each with the reason that it adds.
  unfoldable pub reasons_for :
      HumanReviewPolicy → InterviewBlackboard → InterviewReportArtifact → List String
  reasons_for policy board report =
      reason_if (F.lt report.base.confidence policy.min_report_confidence)
        "report confidence below review threshold"
      ++ (reason_if (ltb (length board.evidence) policy.min_evidence_count)
            "evidence coverage is insufficient"
          ++ (reason_if
                (is_below policy.min_dimension_coverage board.capability_profile.dimension_coverage)
                "at least one dimension is below coverage threshold"
              ++ reason_if
                  (policy.require_review_for_uncertainty
                    && (is_nonempty report.insufficient_evidence_areas
                        || is_nonempty board.capability_profile.uncertain_skills))
                  "important capability remains uncertain"))

  decision_for : List String → Float → ReviewDecision
  decision_for [] confidence = record {
    decision = auto_complete;
    reasons = [];
    confidence = some confidence;
  }
  decision_for (r ∷ rs) confidence = record {
    decision = require_human_review;
    reasons = r ∷ rs;
    confidence = some confidence;
  }

  unfoldable pub evaluate :
      HumanReviewPolicy → InterviewBlackboard → InterviewReportArtifact → ReviewDecision
  unfolding decision_for
  evaluate policy board report =
      decision_for (reasons_for policy board report) report.base.confidence
