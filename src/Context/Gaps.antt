-- ===== src/Context/Gaps.antt =====
-- What an agent is told that is missing (src/interview_agent_runtime/context/builder.py).
use interviewer.Prelude.{
  ◌≡◌, String, str_eq, Bool, not, ◌&&◌, ◌||◌, List, [], ◌∷◌, any, Bool-cases, inl, inr, arith,
  is_some, Dict, lookup, contains, contains-add, add,
}
use interviewer.Floats.{Floats, Float}
use interviewer.Plan.{InterviewDimension}
use interviewer.Blackboard.{InterviewBlackboard, plan}
use interviewer.Evaluation.Points.{add_each}
use interviewer.Context.{coverage, dimensions_of, add_uncovered, missing_or_unverified}

contains-add_each :
    (xs ys : List String) (s : String)
    → contains (add_each xs ys) s ≡ (contains xs s || contains ys s)
unfolding add_each
contains-add_each xs [] s = ground arith
contains-add_each xs (y ∷ ys) s =
    ground (arith, contains-add_each (add xs y) ys s, contains-add xs y s)

module _ ⦃F : Floats⦄ where
  -- A dimension of that name has no coverage yet.
  abbrev pub is_uncovered : Dict Float → List InterviewDimension → String → Bool
  is_uncovered covered ds s = any (λ d. str_eq d.name s && not (is_some (lookup covered d.name))) ds

  contains-add_uncovered :
      (covered : Dict Float) (ds : List InterviewDimension) (gaps : List String) (s : String)
      → contains (add_uncovered covered ds gaps) s ≡ (contains gaps s || is_uncovered covered ds s)
  unfolding add_uncovered
  contains-add_uncovered covered [] gaps s = ground arith
  contains-add_uncovered covered (d ∷ ds) gaps s =
      elim (Bool-cases (is_some (lookup covered d.name))) [
        | inl there ↦ rw there (ground (arith, contains-add_uncovered covered ds gaps s))
        | inr missing ↦ rw missing (
            ground (
              arith,
              contains-add_uncovered covered ds (add gaps d.name) s,
              contains-add gaps d.name s,
            ))
      ]

  -- The gaps are exactly the weak skills, the uncertain ones, and the dimensions of the plan that have
  -- no coverage yet.
  pub contains-missing_or_unverified :
      (board : InterviewBlackboard) (s : String)
      → contains (missing_or_unverified board) s ≡ (
          contains board.capability_profile.weak_skills s
          || contains board.capability_profile.uncertain_skills s
          || is_uncovered (coverage board) (dimensions_of (plan board)) s)
  unfolding missing_or_unverified
  contains-missing_or_unverified board s =
      let profile = board.capability_profile in
      ground (
        arith,
        contains-add_uncovered (coverage board) (dimensions_of (plan board))
            (add_each profile.weak_skills profile.uncertain_skills) s,
        contains-add_each profile.weak_skills profile.uncertain_skills s,
      )
