-- ===== src/Plan/Budget.antt =====
-- The question budget of a plan under `update_after_evaluation`.
use interviewer.Prelude.{
  ℕ, zero, suc, ◌+◌, ◌≤◌, ◌<◌, length, String, ◌≡◌, refl, true, false, Option, none, some, List, [],
  ◌∷◌, arith, if◌then◌else◌, All, In, any, head?, Bool-cases, inl, inr, In-cons, ◌⊎◌, sorted, least,
  In-least, head?-sorted,
}
use interviewer.Floats.{Floats, Float}
use interviewer.Plan.{
  InterviewDimension, InterviewPlan, settle, can_take, targets, target_before, grant, grant_first,
  redistribute_question_budget, update_after_evaluation,
}

module _ ⦃F : Floats⦄ where
  abbrev pub total_budget : List InterviewDimension → ℕ
  total_budget [] = 0
  total_budget (d ∷ ds) = d.question_budget + total_budget ds

  -- No dimension has asked more questions than it was given.
  abbrev pub IsWithinBudget : List InterviewDimension → Type 0
  IsWithinBudget = All (λ d. d.asked_questions ≤ d.question_budget)

  settle-total :
      (name : String) (c : Float) (n : ℕ) (ds : List InterviewDimension)
      → IsWithinBudget ds
      → total_budget (settle name c n ds).1 + (settle name c n ds).0 ≡ total_budget ds
  unfolding settle
  settle-total name c n [] h = omega arith
  settle-total name c n (d ∷ ds) h = ground (arith, settle-total name c n ds h.1)

  settle-IsWithinBudget :
      (name : String) (c : Float) (n : ℕ) (ds : List InterviewDimension)
      → IsWithinBudget ds
      → IsWithinBudget (settle name c n ds).1
  unfolding settle
  settle-IsWithinBudget name c n [] h = tt
  settle-IsWithinBudget name c n (d ∷ ds) h = ground (arith, settle-IsWithinBudget name c n ds h.1)

  -- The settled dimension cannot take the budget back, and the others are as they were.
  any-settle :
      (name : String) (c : Float) (n : ℕ) (ds : List InterviewDimension)
      → any (can_take name) (settle name c n ds).1 ≡ any (can_take name) ds
  unfolding settle
  any-settle name c n [] = refl
  any-settle name c n (d ∷ ds) = ground (arith, any-settle name c n ds)

  -- The places that `targets` lists lie in the plan.
  targets-lt-length :
      (name : String) (i : ℕ) (ds : List InterviewDimension) (t : ℕ × InterviewDimension)
      → In t (targets name i ds)
      → (i ≤ t.0) × (t.0 < i + length ds)
  unfolding targets
  targets-lt-length name i [] t m = elim m [ ]
  targets-lt-length name i (d ∷ ds) t m = elim (Bool-cases (can_take name d)) [
    | inl h ↦ elim (In-cons (rw h at m)) [
      | inl e ↦ rw e (omega arith)
      | inr rest ↦ omega (arith, targets-lt-length name (suc i) ds t rest)
    ]
    | inr h ↦ omega (arith, targets-lt-length name (suc i) ds t (rw h at m))
  ]

  -- There is a target exactly where some dimension can take budget.
  targets-eq-nil :
      (name : String) (i : ℕ) (ds : List InterviewDimension)
      → (targets name i ds ≡ []) × (any (can_take name) ds ≡ false)
        ⊎ (t : ℕ × InterviewDimension) × (ts : List (ℕ × InterviewDimension)) × (targets name i ds
            ≡ t ∷ ts)
          × (any (can_take name) ds ≡ true)
  unfolding targets
  targets-eq-nil name i [] = inl (refl, refl)
  targets-eq-nil name i (d ∷ ds) = elim (Bool-cases (can_take name d)) [
    | inl h ↦ inr ((i, d), targets name (suc i) ds, rw h, rw h)
    | inr h ↦ rw h (targets-eq-nil name (suc i) ds)
  ]

  grant-total :
      (r i : ℕ) (ds : List InterviewDimension)
      → i < length ds
      → total_budget (grant r i ds) ≡ total_budget ds + r
  unfolding grant
  grant-total r i [] h = absurd (omega arith)
  grant-total r zero (d ∷ ds) h = omega arith
  grant-total r (suc i) (d ∷ ds) h = omega (arith, grant-total r i ds (omega arith))

  grant-IsWithinBudget :
      (r i : ℕ) (ds : List InterviewDimension) → IsWithinBudget ds → IsWithinBudget (grant r i ds)
  unfolding grant
  grant-IsWithinBudget r i [] h = tt
  grant-IsWithinBudget r zero (d ∷ ds) h = (omega arith, h.1)
  grant-IsWithinBudget r (suc i) (d ∷ ds) h = (h.0, grant-IsWithinBudget r i ds h.1)

  grant_first-IsWithinBudget :
      (r : ℕ) (ds : List InterviewDimension) (o : Option (ℕ × InterviewDimension))
      → IsWithinBudget ds
      → IsWithinBudget (grant_first r ds o)
  unfolding grant_first
  grant_first-IsWithinBudget r ds none h = h
  grant_first-IsWithinBudget r ds (some (i, d)) h = grant-IsWithinBudget r i ds h

  grant_first-total :
      (name : String) (r : ℕ) (ds : List InterviewDimension)
      → total_budget (grant_first r ds (head? (sorted target_before (targets name 0 ds))))
        ≡ total_budget ds + (if any (can_take name) ds then r else 0)
  unfolding grant_first sorted
  grant_first-total name r ds = elim (targets-eq-nil name 0 ds) [
    | inl (e, h) ↦ rw (e, h) (omega arith)
    | inr (t, ts, e, h) ↦
        let m = least target_before t ts in
        let listed : In m (targets name 0 ds) = rw e (In-least target_before t ts) in
        rw (e, h, head?-sorted target_before t ts)
          (grant-total r m.0 ds (omega (arith, targets-lt-length name 0 ds m listed)))
  ]

  redistribute-total :
      (name : String) (r : ℕ) (ds : List InterviewDimension)
      → total_budget (redistribute_question_budget r name ds)
        ≡ total_budget ds + (if any (can_take name) ds then r else 0)
  unfolding redistribute_question_budget
  redistribute-total name r ds = ground (arith, grant_first-total name r ds)

  -- Where no dimension has asked more than its budget: if some dimension of another name is not
  -- completed, `update_after_evaluation` keeps the sum of the question budgets; else the sum is
  -- less by exactly the budget that it reports as released.
  pub update_after_evaluation-total :
      (plan : InterviewPlan) (name : String) (c : Float) (n : ℕ)
      → IsWithinBudget plan.dimensions
      → let (released, plan') = update_after_evaluation plan name c n in
        total_budget plan'.dimensions
          + (if any (can_take name) plan.dimensions then 0 else released)
        ≡ total_budget plan.dimensions
  unfolding update_after_evaluation
  update_after_evaluation-total plan name c n h =
      let (r, ds) = settle name c n plan.dimensions in
      ground (
        arith,
        settle-total name c n plan.dimensions h,
        any-settle name c n plan.dimensions,
        redistribute-total name r ds,
      )

  -- Where no dimension has asked more questions than its budget, none has after
  -- `update_after_evaluation` either.
  pub update_after_evaluation-IsWithinBudget :
      (plan : InterviewPlan) (name : String) (c : Float) (n : ℕ)
      → IsWithinBudget plan.dimensions
      → IsWithinBudget (update_after_evaluation plan name c n).1.dimensions
  unfolding update_after_evaluation redistribute_question_budget
  update_after_evaluation-IsWithinBudget plan name c n h =
      let (r, ds) = settle name c n plan.dimensions in
      ground (
        arith,
        grant_first-IsWithinBudget r ds (head? (sorted target_before (targets name 0 ds)))
            (settle-IsWithinBudget name c n plan.dimensions h),
        settle-IsWithinBudget name c n plan.dimensions h,
      )
