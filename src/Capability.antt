-- ===== src/Capability.antt =====
-- `CapabilityProfile` of src/interview_agent_runtime/domain/models.py: what the evaluations so far
-- say of the candidate, by dimension.
pub mod Consistent
use interviewer.Prelude.{
  ℕ, ◌+◌, String, str_eq, Bool, not, ◌&&◌, List, [], ◌∷◌, ◌++◌, if◌then◌else◌, or_else, Dict,
  lookup, insert, contains,
}
use interviewer.Floats.{Floats, Float, min_float}
use interviewer.Plan.{coverage_of}

unfoldable pub append_unique : List String → String → List String
append_unique items value =
    if not (str_eq value "") && not (contains items value) then items ++ (value ∷ []) else items

-- `items.remove(value)` takes the first occurrence away.
unfoldable pub remove_if_present : List String → String → List String
remove_if_present [] value = []
remove_if_present (x ∷ xs) value = if str_eq x value then xs else x ∷ remove_if_present xs value

abbrev is_empty : List String → Bool
is_empty [] = Bool.true
is_empty (x ∷ xs) = Bool.false

module _ ⦃F : Floats⦄ where
  pub record CapabilityProfile : Type 0 where
    pub verified_skills : List String
    pub weak_skills : List String
    pub uncertain_skills : List String
    pub dimension_scores : Dict Float
    pub dimension_coverage : Dict Float
    pub evidence_count : Dict ℕ

  -- The three lists by the score.
  unfoldable pub classify : CapabilityProfile → String → Float → List String → CapabilityProfile
  classify p dimension score missing_points =
      if F.le (F.of_ℕ 80) score
      then record p {
        verified_skills = append_unique p.verified_skills dimension;
        weak_skills = remove_if_present p.weak_skills dimension;
        uncertain_skills = remove_if_present p.uncertain_skills dimension;
      }
      else if F.lt score (F.of_ℕ 65)
      then record p {
        weak_skills = append_unique p.weak_skills dimension;
        verified_skills = remove_if_present p.verified_skills dimension;
      }
      else if is_empty missing_points
      then p
      else record p { uncertain_skills = append_unique p.uncertain_skills dimension }

  unfoldable pub coverage_gain : Float → ℕ → Float
  coverage_gain score evidence_count =
      let gain =
        F.add (F.decimal 25 2)
          (min_float (F.decimal 25 2) (F.mul (F.of_ℕ evidence_count) (F.decimal 1 1))) in
      if F.le (F.of_ℕ 80) score then F.add gain (F.decimal 2 1) else gain

  unfoldable pub update_dimension :
      CapabilityProfile → String → Float → ℕ → List String → CapabilityProfile
  unfolding classify coverage_gain
  update_dimension p dimension score evidence_count missing_points =
      record (classify p dimension score missing_points) {
        dimension_scores = insert p.dimension_scores dimension score;
        evidence_count =
            insert p.evidence_count dimension
              (or_else (lookup p.evidence_count dimension) 0 + evidence_count);
        dimension_coverage = insert p.dimension_coverage dimension (
            min_float (F.decimal 10 1) (
              F.add (coverage_of p.dimension_coverage dimension)
                (coverage_gain score evidence_count)));
      }
