-- ===== src/Checkpoint/Again.antt =====
-- A blackboard that was restored before (src/interview_agent_runtime/checkpoint/stores.py).
use interviewer.Prelude.{
  ◌≡◌, refl, String, str_eq, eq_iff, Bool, true, false, Option, none, some, List, [], ◌∷◌, ◌++◌,
  arith, if◌then◌else◌, Bool-cases, inl, inr, contains, add,
}
use mathlib.Core.List.{append_assoc, append-nil}
use interviewer.Floats.{Floats}
use interviewer.Capability.Consistent.{Distinct, Distinct-snoc}
use interviewer.Artifacts.{QuestionArtifact}
use interviewer.Artifacts.Make.{or_items}
use interviewer.Blackboard.{InterviewBlackboard, or_text}
use interviewer.Evaluation.Points.{dedupe, add_each}
use interviewer.Checkpoint.Json.{map_list, map_option}
use interviewer.Checkpoint.Restored.{
  restored, restored_candidate, restored_plan, restored_question, restored_answer,
  restored_evaluation, restored_follow_up, restored_report,
}

Distinct-add_each : (xs ys : List String) → Distinct xs → Distinct (add_each xs ys)
unfolding add_each
Distinct-add_each xs [] h = h
Distinct-add_each xs (y ∷ ys) h = Distinct-add_each (add xs y) ys (with_one (contains xs y) refl)
  where
    with_one : (b : Bool) → contains xs y ≡ b → Distinct (if b then xs else xs ++ (y ∷ []))
    with_one true e = h
    with_one false e = Distinct-snoc xs y e h

contains-middle : (xs ys : List String) (y : String) → contains (xs ++ (y ∷ ys)) y ≡ true
contains-middle [] ys y = ground (arith, eq_iff y y)
contains-middle (x ∷ xs) ys y = ground (arith, contains-middle xs ys y)

Distinct-middle :
    (xs ys : List String) (y : String) → Distinct (xs ++ (y ∷ ys)) → contains xs y ≡ false
Distinct-middle [] ys y h = refl
Distinct-middle (x ∷ xs) ys y h = elim (Bool-cases (str_eq x y)) [
  | inl same ↦
      let e : x ≡ y = ground (arith, eq_iff x y) in
      let inside : contains (xs ++ (y ∷ ys)) x ≡ true = rw e (contains-middle xs ys y) in cc
  | inr other ↦ ground (arith, Distinct-middle xs ys y h.1)
]

add_each-Distinct : (xs ys : List String) → Distinct (xs ++ ys) → add_each xs ys ≡ xs ++ ys
unfolding add_each
add_each-Distinct xs [] h = rw (append-nil xs) refl
add_each-Distinct xs (y ∷ ys) h =
    rw
      (
        Distinct-middle xs ys y h,
        add_each-Distinct (xs ++ (y ∷ [])) ys (rw (append_assoc xs (y ∷ []) ys) h),
        append_assoc xs (y ∷ []) ys,
      )
      refl

dedupe-again : (xs : List String) → dedupe (dedupe xs) ≡ dedupe xs
unfolding dedupe
dedupe-again xs = add_each-Distinct [] (add_each [] xs) (Distinct-add_each [] xs tt)

module _ ⦃F : Floats⦄ {A : Type 0} where
  map_list-again :
      (f : A → A) (xs : List A)
      → ((a : A) → f (f a) ≡ f a)
      → map_list f (map_list f xs) ≡ map_list f xs
  map_list-again f [] h = refl
  map_list-again f (x ∷ xs) h = rw (h x, map_list-again f xs h) refl

  map_option-again :
      (f : A → A) (o : Option A)
      → ((a : A) → f (f a) ≡ f a)
      → map_option f (map_option f o) ≡ map_option f o
  map_option-again f none h = refl
  map_option-again f (some a) h = rw (h a) refl

module _ {A : Type 0} where
  or_items-again : (xs ys : List A) → or_items (or_items xs ys) ys ≡ or_items xs ys
  or_items-again [] [] = refl
  or_items-again [] (y ∷ ys) = refl
  or_items-again (x ∷ xs) ys = refl

or_text-again : (s t : String) → or_text (some (or_text (some s) t)) t ≡ or_text (some s) t
or_text-again s t = ground arith

module _ ⦃F : Floats⦄ where
  question-again :
      (q : QuestionArtifact) → restored_question (restored_question q) ≡ restored_question q
  question-again q =
      rw (or_text-again q.text q.title, or_items-again q.expected_points q.target_evidence) refl

  pub restored-restored : (board : InterviewBlackboard) → restored (restored board) ≡ restored board
  restored-restored board =
      rw
        (
          map_option-again restored_candidate board.candidate_profile (λ a. refl),
          map_option-again restored_plan board.interview_plan (λ a. refl),
          map_option-again restored_question board.current_question question-again,
          map_list-again restored_question board.question_history question-again,
          map_list-again restored_answer board.answers (λ a. refl),
          map_list-again restored_evaluation board.evaluations (λ a. refl),
          map_list-again restored_follow_up board.follow_up_decisions (λ a. refl),
          map_option-again restored_report board.report (λ a. refl),
          map_option-again dedupe board.session_allowed_tools dedupe-again,
          dedupe-again board.asked_question_ids,
          dedupe-again board.followed_targets,
        )
        refl
