-- ===== src/Examples/Scores.antt =====
-- A run of the score.
use interviewer.Prelude.{◌≡◌, false, [], ◌∷◌}
use interviewer.Score.{score}
use interviewer.Score.Bounds.{score-bounds}
use interviewer.Examples.{numbers, numbers-laws}

score-bounds_example :
    (numbers.lt (score ("yield" ∷ []) [] 200 false) (numbers.of_ℕ 20) ≡ false)
    × (numbers.lt (numbers.of_ℕ 95) (score ("yield" ∷ []) [] 200 false) ≡ false)
score-bounds_example = score-bounds numbers-laws ("yield" ∷ []) [] 200 false
