-- ===== src/Score.antt =====
-- `ScorePolicy` (src/interview_agent_runtime/evaluation/score_policy.py): the score of an answer.
pub mod Bounds
use interviewer.Prelude.{ℕ, String, Bool, List, length, if◌then◌else◌}
use interviewer.Floats.{Floats, Float, max_float, min_float}

module _ ⦃F : Floats⦄ where
  -- The points for what was matched and for the length, less those for what is missing.
  unfoldable pub raw_score : List String → List String → ℕ → Bool → Float
  raw_score matched_points missing_points answer_length is_follow_up =
      let base =
        F.add
          (F.add (F.of_ℕ 55)
            (min_float (F.of_ℕ 25) (F.mul (F.of_ℕ (length matched_points)) (F.of_ℕ 6))))
          (min_float (F.of_ℕ 10) (F.div (F.of_ℕ answer_length) (F.of_ℕ 20))) in
      F.sub base
        (F.mul (F.of_ℕ (length missing_points)) (if is_follow_up then F.of_ℕ 5 else F.of_ℕ 8))

  unfoldable pub score : List String → List String → ℕ → Bool → Float
  score matched_points missing_points answer_length is_follow_up = max_float (F.of_ℕ 20) (
      min_float (F.of_ℕ 95)
        (F.round_1 (raw_score matched_points missing_points answer_length is_follow_up)))
