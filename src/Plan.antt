-- ===== src/Plan.antt =====
-- The interview plan and its dimensions (src/interview_agent_runtime/domain/models.py), and the
-- policy that revises the plan after an evaluation (planning/policy.py). A method that mutates a
-- dimension returns the plan with that dimension replaced.
pub mod Budget
pub mod Selection
pub mod Again
use interviewer.Prelude.{
  ℕ, zero, suc, ◌+◌, ◌-◌, String, str_eq, Bool, true, false, not, ◌&&◌, Option, none, some, List,
  [], ◌∷◌, ◌==◌, ltb, if◌then◌else◌, or_else, keep, head?, Dict, lookup, sorted,
}
use interviewer.Floats.{Floats, Float, max_float}

module _ ⦃F : Floats⦄ where
  pub record InterviewDimension : Type 0 where
    pub name : String
    pub weight : Float
    pub target_level : String
    pub question_budget : ℕ
    pub follow_up_budget : ℕ
    pub coverage_target : Float
    pub difficulty : String
    pub asked_questions : ℕ
    pub current_coverage : Float
    pub evidence_count : ℕ
    pub completed : Bool

  pub record InterviewPlan : Type 0 where
    pub dimensions : List InterviewDimension
    pub total_question_budget : ℕ
    pub total_follow_up_budget : ℕ
    pub estimated_duration_minutes : ℕ
    pub current_dimension_index : ℕ

  -- `coverage.get(name, 0.0)`
  abbrev pub coverage_of : Dict Float → String → Float
  coverage_of coverage name = or_else (lookup coverage name) (F.decimal 0 0)

  -- The body of the first loop of `next_dimension`.
  unfoldable pub refresh : Dict Float → InterviewDimension → InterviewDimension
  refresh coverage d =
      let c = max_float d.current_coverage (coverage_of coverage d.name) in
      record d {
        current_coverage = c;
        completed = if F.le d.coverage_target c then true else d.completed;
      }

  unfoldable pub refresh_all : Dict Float → List InterviewDimension → List InterviewDimension
  unfolding refresh
  refresh_all coverage [] = []
  refresh_all coverage (d ∷ ds) = refresh coverage d ∷ refresh_all coverage ds

  abbrev pub is_open : InterviewDimension → Bool
  is_open d = not d.completed && ltb d.asked_questions d.question_budget

  -- The order of the keys `(coverage ≥ target, -weight)`.
  unfoldable pub selected_before : Dict Float → InterviewDimension → InterviewDimension → Bool
  selected_before coverage a b =
      let covered_a = F.le a.coverage_target (coverage_of coverage a.name) in
      let covered_b = F.le b.coverage_target (coverage_of coverage b.name) in
      if covered_a
      then covered_b && F.lt (F.neg a.weight) (F.neg b.weight)
      else if covered_b
      then true
      else F.lt (F.neg a.weight) (F.neg b.weight)

  abbrev bool_eq : Bool → Bool → Bool
  bool_eq true b = b
  bool_eq false b = not b

  -- The equality of the dataclass, field by field.
  same_dimension : InterviewDimension → InterviewDimension → Bool
  same_dimension a b =
      str_eq a.name b.name
      && F.eq a.weight b.weight
      && str_eq a.target_level b.target_level
      && a.question_budget == b.question_budget
      && a.follow_up_budget == b.follow_up_budget
      && F.eq a.coverage_target b.coverage_target
      && str_eq a.difficulty b.difficulty
      && a.asked_questions == b.asked_questions
      && F.eq a.current_coverage b.current_coverage
      && a.evidence_count == b.evidence_count
      && bool_eq a.completed b.completed

  -- `dimensions.index(selected)`
  index_of : InterviewDimension → List InterviewDimension → ℕ
  index_of d [] = 0
  index_of d (x ∷ xs) = let rest = index_of d xs in if same_dimension x d then 0 else suc rest

  choose : InterviewPlan → Option InterviewDimension → Option InterviewDimension × InterviewPlan
  unfolding index_of same_dimension
  choose plan none = (none, plan)
  choose plan (some d) =
      (some d, record plan { current_dimension_index = index_of d plan.dimensions })

  -- The dimensions are refreshed in place also when none is left.
  unfoldable pub next_dimension :
      InterviewPlan → Dict Float → Option InterviewDimension × InterviewPlan
  unfolding refresh_all choose selected_before
  next_dimension plan coverage =
      let dimensions = refresh_all coverage plan.dimensions in
      choose (record plan { dimensions = dimensions })
        (head? (sorted (selected_before coverage) (keep is_open dimensions)))

  -- The loop of `mark_question_asked`: only the first dimension of that name.
  unfoldable pub mark_asked : String → List InterviewDimension → List InterviewDimension
  mark_asked name [] = []
  mark_asked name (d ∷ ds) =
      if str_eq d.name name
      then record d { asked_questions = d.asked_questions + 1 } ∷ ds
      else d ∷ mark_asked name ds

  unfoldable pub mark_question_asked : InterviewPlan → String → InterviewPlan
  unfolding mark_asked
  mark_question_asked plan name = record plan { dimensions = mark_asked name plan.dimensions }

  -- What `update_after_evaluation` does to the dimension that it finds, and the budget released.
  unfoldable pub settle_dimension : Float → ℕ → InterviewDimension → ℕ × InterviewDimension
  settle_dimension coverage evidence_count d =
      let c = max_float d.current_coverage coverage in
      let d' = record d {
        current_coverage = c;
        evidence_count = d.evidence_count + evidence_count;
      } in
      if F.le d.coverage_target c
      then (
        d.question_budget - d.asked_questions,
        record d' { completed = true; question_budget = d.asked_questions },
      )
      else (0, d')

  -- The loop of `update_after_evaluation`: only the first dimension of that name.
  unfoldable pub settle : String → Float → ℕ → List InterviewDimension → ℕ × List InterviewDimension
  unfolding settle_dimension
  settle name coverage n [] = (0, [])
  settle name coverage n (d ∷ ds) =
      if str_eq d.name name
      then ((settle_dimension coverage n d).0, (settle_dimension coverage n d).1 ∷ ds)
      else ((settle name coverage n ds).0, d ∷ (settle name coverage n ds).1)

  abbrev pub can_take : String → InterviewDimension → Bool
  can_take exclude d = not (str_eq d.name exclude) && not d.completed

  -- The dimensions that may take released budget, with their places in the plan.
  unfoldable pub targets : String → ℕ → List InterviewDimension → List (ℕ × InterviewDimension)
  targets exclude i [] = []
  targets exclude i (d ∷ ds) =
      let rest = targets exclude (suc i) ds in if can_take exclude d then (i, d) ∷ rest else rest

  -- The order of the keys `(-weight, asked_questions)`.
  unfoldable pub target_before : ℕ × InterviewDimension → ℕ × InterviewDimension → Bool
  target_before a b =
      if F.eq (F.neg a.1.weight) (F.neg b.1.weight)
      then ltb a.1.asked_questions b.1.asked_questions
      else F.lt (F.neg a.1.weight) (F.neg b.1.weight)

  unfoldable pub grant : ℕ → ℕ → List InterviewDimension → List InterviewDimension
  grant released i [] = []
  grant released zero (d ∷ ds) = record d { question_budget = d.question_budget + released } ∷ ds
  grant released (suc i) (d ∷ ds) = d ∷ grant released i ds

  unfoldable pub grant_first :
      ℕ → List InterviewDimension → Option (ℕ × InterviewDimension) → List InterviewDimension
  unfolding grant
  grant_first released ds none = ds
  grant_first released ds (some (i, _)) = grant released i ds

  unfoldable pub redistribute_question_budget :
      ℕ → String → List InterviewDimension → List InterviewDimension
  unfolding grant_first targets target_before
  redistribute_question_budget released exclude ds =
      if released == 0
      then ds
      else grant_first released ds (head? (sorted target_before (targets exclude 0 ds)))

  -- Where nothing is released, the call of `redistribute_question_budget` changes nothing.
  unfoldable pub update_after_evaluation : InterviewPlan → String → Float → ℕ → ℕ × InterviewPlan
  unfolding settle redistribute_question_budget
  update_after_evaluation plan name coverage n =
      let (released, ds) = settle name coverage n plan.dimensions in
      (released, record plan { dimensions = redistribute_question_budget released name ds })
