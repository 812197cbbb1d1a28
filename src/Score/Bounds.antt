-- ===== src/Score/Bounds.antt =====
-- The bounds of a score.
use interviewer.Prelude.{ℕ, ◌≡◌, String, Bool, false, List, arith}
use interviewer.Floats.{Floats, FloatLaws}
use interviewer.Score.{raw_score, score}

module _ ⦃F : Floats⦄ where
  -- If the floats are numbers, a score is neither below 20 nor above 95, whatever the points and
  -- the length of the answer are.
  pub score-bounds :
      FloatLaws F
      → (matched missing : List String) (n : ℕ) (is_follow_up : Bool)
      → (F.lt (score matched missing n is_follow_up) (F.of_ℕ 20) ≡ false)
        × (F.lt (F.of_ℕ 95) (score matched missing n is_follow_up) ≡ false)
  unfolding score
  score-bounds laws matched missing n is_follow_up =
      let r = F.round_1 (raw_score matched missing n is_follow_up) in
      let low = F.of_ℕ 20 in
      let high = F.of_ℕ 95 in
      ground (
        arith,
        laws.lt_asym low low,
        laws.lt_asym high high,
        laws.lt_asym low r,
        laws.lt_asym r high,
        laws.lt_asym low high,
        laws.lt-of_ℕ 95 20,
      )
