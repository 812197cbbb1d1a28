-- ===== src/Context/Views.antt =====
-- What of a blackboard the views show (src/interview_agent_runtime/context/builder.py).
use interviewer.Prelude.{
  ℕ, ◌≤◌, ◌<◌, ◌≡◌, refl, ap, String, str_eq, Bool, true, false, Option, none, some, List, [],
  if◌then◌else◌, Bool-cases, inl, inr, arith, last_n, length, map, In, All, In→All, In-keep,
  length-map, length-take, length-last_n, In-take, In-last_n, In-sorted,
}
use interviewer.Floats.{Floats}
use interviewer.Values.{str, Value, Fields, Result, ok, err, ◌>>=◌, Result-cases}
use interviewer.Plan.{InterviewPlan, InterviewDimension}
use interviewer.Artifacts.{Evidence}
use interviewer.Blackboard.{InterviewBlackboard, plan}
use interviewer.Memory.{evidence_before}
use interviewer.Batch.{get_field}
use interviewer.Checkpoint.Json.{value_length, value_length-list_value}
use interviewer.Context.{
  ContextBudget, ExecutionContext, CommonContext, AgentContext, profile_view, planner_view,
  question_view, evaluation_view, follow_up_view, report_view, plain_view, important_evidence,
  relevant_evidence, current_dimension, dimension_in, found_or_asked, named_dimension,
  capability_summary, evaluation_summary, evaluation_item,
}
use interviewer.Context.Building.{
  build, common_of, profile_context, planner_context, question_context, evaluator_context,
  follow_up_context, report_context,
}

module _ ⦃F : Floats⦄ where
  abbrev evidence_of : AgentContext → List Evidence
  evidence_of (planner_view common own) = own.important_evidence
  evidence_of (question_view common own) = own.important_evidence
  evidence_of (evaluation_view common own) = own.relevant_evidence
  evidence_of (follow_up_view common own) = own.relevant_evidence
  evidence_of (report_view common own) = own.key_evidence
  evidence_of _ = []

  -- The pieces of evidence that are selected for a view.
  abbrev pub evidence_in : Result AgentContext → List Evidence
  evidence_in (ok view) = evidence_of view
  evidence_in (err e) = []

  abbrev optional_length : Option Value → ℕ
  optional_length none = 0
  optional_length (some v) = value_length v

  -- How many claims of evidence the capability summary of a view lists.
  abbrev pub claims_in : Result AgentContext → ℕ
  claims_in (ok (follow_up_view common own)) =
      optional_length (get_field own.capability_summary "key_evidence")
  claims_in _ = 0

  -- How many earlier questions or decisions a view shows.
  abbrev pub recent_in : Result AgentContext → ℕ
  recent_in (ok (question_view common own)) = length own.recent_questions
  recent_in (ok (follow_up_view common own)) = length own.follow_up_history
  recent_in _ = 0

  -- How many evaluations the report's view sums up.
  abbrev pub evaluations_in : Result AgentContext → ℕ
  evaluations_in (ok (report_view common own)) = length own.evaluation_summary
  evaluations_in _ = 0

  -- A view with the blackboard that is left fits into the budget: the evidence selected for it is of the
  -- blackboard alone, and of the blackboard nothing but the plan has changed. An evaluation that a view
  -- shows is shown whole, and its own evidence is not counted.
  pub record IsFitting (budget : ContextBudget) (board : InterviewBlackboard)
      (r : Result AgentContext × InterviewBlackboard) : Type 0 where
    pub evidence_fits : length (evidence_in r.0) ≤ budget.max_evidence_items
    pub claims_fit : claims_in r.0 ≤ budget.max_evidence_items
    pub recent_fits : recent_in r.0 ≤ budget.max_recent_questions
    pub evaluations_fit : evaluations_in r.0 ≤ budget.max_recent_answers
    pub known : All (λ e. In e board.evidence) (evidence_in r.0)
    pub only_plan : r.1 ≡ record board { interview_plan = r.1.interview_plan }

  -- Only the plan of a blackboard has changed.
  abbrev OnlyPlan : InterviewBlackboard → InterviewBlackboard → Type 0
  OnlyPlan board left = left ≡ record board { interview_plan = left.interview_plan }

  found_or_asked-OnlyPlan :
      (board : InterviewBlackboard) (p : InterviewPlan) (o : Option InterviewDimension)
      → OnlyPlan board (found_or_asked board p o).1
  found_or_asked-OnlyPlan board p none = refl
  found_or_asked-OnlyPlan board p (some d) = refl

  dimension_in-OnlyPlan :
      (board : InterviewBlackboard) (o : Option InterviewPlan)
      → OnlyPlan board (dimension_in board o).1
  dimension_in-OnlyPlan board none = refl
  dimension_in-OnlyPlan board (some p) = elim (Bool-cases (str_eq board.current_dimension "")) [
    | inl none_named ↦ rw none_named refl
    | inr named ↦
        rw named
          (found_or_asked-OnlyPlan board p (named_dimension board.current_dimension p.dimensions))
  ]

  current_dimension-OnlyPlan :
      (board : InterviewBlackboard) → OnlyPlan board (current_dimension board).1
  unfolding current_dimension
  current_dimension-OnlyPlan board = dimension_in-OnlyPlan board (plan board)

  module _ (budget : ContextBudget) (board : InterviewBlackboard) where
    important-fits : length (important_evidence budget board) ≤ budget.max_evidence_items
    unfolding important_evidence
    important-fits = length-take budget.max_evidence_items _

    important-known : All (λ e. In e board.evidence) (important_evidence budget board)
    unfolding important_evidence
    important-known = In→All _ _ (λ e m.
        In-sorted evidence_before board.evidence e (In-take budget.max_evidence_items _ e m))

    relevant-fits :
        (dimension : String)
        → 0 < budget.max_evidence_items
        → length (relevant_evidence budget board dimension) ≤ budget.max_evidence_items
    unfolding relevant_evidence
    relevant-fits dimension h = length-last_n budget.max_evidence_items _ h

    relevant-known :
        (dimension : String)
        → All (λ e. In e board.evidence) (relevant_evidence budget board dimension)
    unfolding relevant_evidence
    relevant-known dimension =
        In→All _ _
          (λ e m. (In-keep _ board.evidence e (In-last_n budget.max_evidence_items _ e m)).0)

    claims-fit :
        optional_length (get_field (capability_summary budget board) "key_evidence")
        ≤ budget.max_evidence_items
    unfolding capability_summary get_field
    claims-fit =
        let claims = map (λ (item : Evidence). item.claim) (important_evidence budget board) in
        omega (
          arith,
          value_length-list_value str claims,
          length-map (λ (item : Evidence). item.claim) (important_evidence budget board),
          important-fits,
        )

    -- A view that shows nothing, with the blackboard as it was.
    nothing-IsFitting :
        (r : Result AgentContext)
        → evidence_in r ≡ []
        → claims_in r ≡ 0
        → recent_in r ≡ 0
        → evaluations_in r ≡ 0
        → IsFitting budget board (r, board)
    nothing-IsFitting r no_evidence no_claims no_recent no_evaluations = record {
      evidence_fits = rw no_evidence (omega arith);
      claims_fit = omega arith;
      recent_fits = omega arith;
      evaluations_fit = omega arith;
      known = rw no_evidence tt;
      only_plan = refl;
    }

    if-IsFitting :
        (b : Bool) (r t : Result AgentContext × InterviewBlackboard)
        → IsFitting budget board r
        → IsFitting budget board t
        → IsFitting budget board (if b then r else t)
    if-IsFitting true r t h k = h
    if-IsFitting false r t h k = k

    module _ (some_evidence : 0 < budget.max_evidence_items)
        (some_questions : 0 < budget.max_recent_questions)
        (some_answers : 0 < budget.max_recent_answers) (common : CommonContext) where
      planner-IsFitting :
          IsFitting budget board (ok (planner_view common (planner_context budget board)), board)
      unfolding planner_context
      planner-IsFitting = record {
        evidence_fits = important-fits;
        claims_fit = omega arith;
        recent_fits = omega arith;
        evaluations_fit = omega arith;
        known = important-known;
        only_plan = refl;
      }

      evaluator-IsFitting :
          IsFitting budget board
            (ok (evaluation_view common (evaluator_context budget board)), board)
      unfolding evaluator_context
      evaluator-IsFitting = record {
        evidence_fits = relevant-fits board.current_dimension some_evidence;
        claims_fit = omega arith;
        recent_fits = omega arith;
        evaluations_fit = omega arith;
        known = relevant-known board.current_dimension;
        only_plan = refl;
      }

      follow_up-IsFitting :
          IsFitting budget board
            (ok (follow_up_view common (follow_up_context budget board)), board)
      unfolding follow_up_context
      follow_up-IsFitting = record {
        evidence_fits = relevant-fits board.current_dimension some_evidence;
        claims_fit = claims-fit;
        recent_fits =
            length-last_n budget.max_recent_questions board.follow_up_decisions some_questions;
        evaluations_fit = omega arith;
        known = relevant-known board.current_dimension;
        only_plan = refl;
      }

      report-IsFitting :
          IsFitting budget board (ok (report_view common (report_context budget board)), board)
      unfolding report_context evaluation_summary
      report-IsFitting = record {
        evidence_fits = important-fits;
        claims_fit = omega arith;
        recent_fits = omega arith;
        evaluations_fit =
            let h = length-last_n budget.max_recent_answers board.evaluations some_answers in
            omega (
              arith,
              length-map evaluation_item (last_n budget.max_recent_answers board.evaluations),
            );
        known = important-known;
        only_plan = refl;
      }

  profile-IsFitting :
      (dict_of : Value → Result Fields) (budget : ContextBudget) (board : InterviewBlackboard)
      (common : CommonContext)
      → IsFitting budget board
          (profile_context dict_of board >>= λ own. ok (profile_view common own), board)
  profile-IsFitting dict_of budget board common =
      elim (Result-cases (profile_context dict_of board)) [
        | inl (own, made) ↦
            rw made
              (nothing-IsFitting budget board (ok (profile_view common own)) refl refl refl refl)
        | inr (e, refused) ↦ rw refused (nothing-IsFitting budget board (err e) refl refl refl refl)
      ]

  module _ (budget : ContextBudget) (board : InterviewBlackboard)
      (some_questions : 0 < budget.max_recent_questions) (common : CommonContext) where
    -- The blackboard that is left has the same evidence.
    question-IsFitting : IsFitting budget board (
      ok (question_view common (question_context budget board).0),
      (question_context budget board).1,
    )
    unfolding question_context
    question-IsFitting =
        let left = (current_dimension board).1 in
        let same : left ≡ record board { interview_plan = left.interview_plan } =
          current_dimension-OnlyPlan board in
        let evidence : left.evidence ≡ board.evidence = ap (λ b. b.evidence) same in
        record {
          evidence_fits = important-fits budget left;
          claims_fit = omega arith;
          recent_fits =
              length-last_n budget.max_recent_questions left.question_history some_questions;
          evaluations_fit = omega arith;
          known = rw evidence at (important-known budget left);
          only_plan = same;
        }

  -- Where the three limits of the budget are positive, whatever agent a view is for: the evidence
  -- that is selected for it, and the claims in its summary of the capability, are at most as many
  -- as the budget says, and so are its questions or decisions, and the evaluations of its summary;
  -- the selected evidence is the blackboard's; and of the blackboard nothing but the plan has
  -- changed.
  pub build-IsFitting :
      (dict_of : Value → Result Fields) (budget : ContextBudget) (agent_name : String)
      (board : InterviewBlackboard) (execution : ExecutionContext)
      → 0 < budget.max_evidence_items
      → 0 < budget.max_recent_questions
      → 0 < budget.max_recent_answers
      → IsFitting budget board (build dict_of budget agent_name board execution)
  unfolding build
  build-IsFitting dict_of budget agent_name board execution some_evidence some_questions
        some_answers =
      let common = common_of agent_name board execution in
      if-IsFitting budget board (str_eq agent_name "ProfileAgent") _ _
        (profile-IsFitting dict_of budget board common)
        (if-IsFitting budget board (str_eq agent_name "PlannerAgent") _ _
          (planner-IsFitting budget board some_evidence some_questions some_answers common)
          (if-IsFitting budget board (str_eq agent_name "QuestionAgent") _ _
            (question-IsFitting budget board some_questions common)
            (if-IsFitting budget board (str_eq agent_name "EvaluatorAgent") _ _
              (evaluator-IsFitting budget board some_evidence some_questions some_answers common)
              (if-IsFitting budget board (str_eq agent_name "FollowUpAgent") _ _
                (follow_up-IsFitting budget board some_evidence some_questions some_answers common)
                (if-IsFitting budget board (str_eq agent_name "ReportAgent") _ _
                  (report-IsFitting budget board some_evidence some_questions some_answers common)
                  (nothing-IsFitting budget board (ok (plain_view common)) refl refl refl refl))))))

  if-OnlyPlan :
      (board : InterviewBlackboard) (b : Bool) (r t : Result AgentContext × InterviewBlackboard)
      → OnlyPlan board r.1
      → OnlyPlan board t.1
      → OnlyPlan board (if b then r else t).1
  if-OnlyPlan board true r t h k = h
  if-OnlyPlan board false r t h k = k

  -- Whatever the limits are, building a view changes nothing of the blackboard but the plan.
  pub build-OnlyPlan :
      (dict_of : Value → Result Fields) (budget : ContextBudget) (agent_name : String)
      (board : InterviewBlackboard) (execution : ExecutionContext)
      → OnlyPlan board (build dict_of budget agent_name board execution).1
  unfolding build question_context
  build-OnlyPlan dict_of budget agent_name board execution =
      if-OnlyPlan board (str_eq agent_name "ProfileAgent") _ _ refl (
        if-OnlyPlan board (str_eq agent_name "PlannerAgent") _ _ refl (
          if-OnlyPlan board (str_eq agent_name "QuestionAgent") _ _
            (current_dimension-OnlyPlan board)
            (if-OnlyPlan board (str_eq agent_name "EvaluatorAgent") _ _ refl (
              if-OnlyPlan board (str_eq agent_name "FollowUpAgent") _ _ refl
                (if-OnlyPlan board (str_eq agent_name "ReportAgent") _ _ refl refl)))))
