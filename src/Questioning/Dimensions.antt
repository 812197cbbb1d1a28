-- ===== src/Questioning/Dimensions.antt =====
-- The questions that the pipeline gives (src/interview_agent_runtime/questioning/pipeline.py).
use interviewer.Prelude.{
  ℕ, suc, ◌≤◌, ◌≡◌, ◌⊎◌, inl, inr, refl, sym, ap, ◌∙◌, String, str_eq, eq_iff, Bool, true, false,
  not, ◌&&◌, Option, none, some, List, [], ◌∷◌, ◌++◌, arith, if◌then◌else◌, contains, ltb, In, here,
  there, Bool-cases,
}
use interviewer.Floats.{Floats}
use interviewer.Unicode.{Unicode, strip}
use interviewer.Values.{Result, ok}
use interviewer.Exec.Ensures.{bind_ok}
use interviewer.Plan.{InterviewDimension, next_dimension}
use interviewer.Plan.Again.{next_dimension-again}
use interviewer.Artifacts.{InterviewPlanArtifact, ArtifactBase, QuestionArtifact}
use interviewer.Blackboard.{InterviewBlackboard, plan_of, with_plan}
use interviewer.Memory.{text_length}
use interviewer.Tools.{Host}
use interviewer.Questioning.Validation.{
  validate, reasons_against, expected_dimension, similar_to_history, is_sensitive, when,
}
use interviewer.Questioning.{
  BankItem, Asking, Pipeline, candidate_to_artifact, fallback_question, question_base, artifact_id,
  retrieve_candidates, selected, select_dimension, first_accepted, generate_next, is_empty,
  select_from,
}

when-nothing :
    (test : Bool) (reason : String) (rest : List String)
    → when test reason ++ rest ≡ []
    → (test ≡ false) × (rest ≡ [])
when-nothing true reason rest e = cc
when-nothing false reason rest e = (refl, e)

module _ ⦃F : Floats⦄ ⦃U : Unicode⦄ where
  -- A question that validation lets pass.
  pub record IsFitting (q : QuestionArtifact) (board : InterviewBlackboard) : Type 0 where
    pub long : 8 ≤ text_length (strip q.title)
    pub fresh : contains board.asked_question_ids q.question_id ≡ false
    pub different : similar_to_history q board ≡ false
    pub proper : is_sensitive q.title ≡ false

  -- The question is for the dimension of that name, if the name is not empty.
  abbrev pub IsFor : QuestionArtifact → String → Type 0
  IsFor q name = (name ≡ "") ⊎ (q.dimension ≡ name)

  name-IsFor :
      (name : String) (q : QuestionArtifact)
      → not (str_eq name "") && not (str_eq q.dimension name) ≡ false
      → IsFor q name
  name-IsFor name q h = elim (Bool-cases (str_eq name "")) [
    | inl e ↦ inl (ground (arith, eq_iff name "", e))
    | inr n ↦ inr (ground (arith, eq_iff q.dimension name, n, h))
  ]

  reasons-IsFitting :
      (q : QuestionArtifact) (board : InterviewBlackboard) (name : String)
      → reasons_against q board name ≡ []
      → IsFitting q board × IsFor q name
  unfolding reasons_against
  reasons-IsFitting q board name e =
      let (title, e₁) = when-nothing (str_eq (strip q.title) "") "empty_title" _ e in
      let (long, e₂) = when-nothing (ltb (text_length (strip q.title)) 8) "too_short" _ e₁ in
      let (fresh, e₃) =
        when-nothing (contains board.asked_question_ids q.question_id) "duplicate_id" _ e₂ in
      let (different, e₄) = when-nothing (similar_to_history q board) "duplicate_semantic" _ e₃ in
      let (fits, e₅) =
        when-nothing (not (str_eq name "") && not (str_eq q.dimension name)) "dimension_mismatch" _
          e₄ in
      let (proper, e₆) = when-nothing (is_sensitive q.title) "sensitive" _ e₅ in
      (
        record {
          long = ground (arith, long);
          fresh = fresh;
          different = different;
          proper = proper;
        },
        name-IsFor name q fits,
      )

  -- The plan selects this dimension and stays as it is.
  abbrev Settled : String → InterviewBlackboard → Type 0
  Settled name board = (board.current_dimension ≡ name) × (expected_dimension board ≡ (name, board))

  validate-settled :
      (q : QuestionArtifact) (board : InterviewBlackboard) (name : String)
      → expected_dimension board ≡ (name, board)
      → validate q board ≡ (reasons_against q board name, board)
  unfolding validate
  validate-settled q board name h = rw h refl

  module _ ⦃H : Host⦄ where
    -- A fallback question for a dimension of the current name.
    abbrev pub IsFallback : QuestionArtifact → InterviewBlackboard → Type 0
    IsFallback q board =
        (base : ArtifactBase) × (random : String) × (d : InterviewDimension) × ((q
            ≡ fallback_question base random board d)
          × (d.name ≡ board.current_dimension))

    -- A question made of one of the bank's items.
    abbrev pub IsBanked : InterviewDimension → List BankItem → QuestionArtifact → Type 0
    IsBanked d items q =
        (item : BankItem) × (base : ArtifactBase) × (id : String) × (In item items
          × (q ≡ candidate_to_artifact base id item d))

    -- It is made of one of the items and passed validation, or it is the fallback.
    abbrev pub IsProper :
        InterviewDimension → List BankItem → QuestionArtifact → InterviewBlackboard → Type 0
    IsProper d items q board = (IsFitting q board × IsBanked d items q) ⊎ IsFallback q board

    abbrev Gives :
        InterviewDimension
        → List BankItem
        → InterviewBlackboard
        → Result QuestionArtifact × Asking
        → Type 0
    Gives d items board p =
        (q : QuestionArtifact) × ((p.0 ≡ ok q)
          × ((p.1.board ≡ board) × (IsFor q board.current_dimension × IsProper d items q board)))

    more-IsProper :
        (d : InterviewDimension) (item : BankItem) (items : List BankItem) (q : QuestionArtifact)
        (board : InterviewBlackboard)
        → IsProper d items q board
        → IsProper d (item ∷ items) q board
    more-IsProper d item items q board (inl (fitting, (old, base, id, (m, e)))) =
        inl (fitting, (old, base, id, (there m, e)))
    more-IsProper d item items q board (inr fallback) = inr fallback

    more-Gives :
        (d : InterviewDimension) (item : BankItem) (items : List BankItem)
        (board : InterviewBlackboard) (p : Result QuestionArtifact × Asking)
        → Gives d items board p
        → Gives d (item ∷ items) board p
    more-Gives d item items board p (q, (given, (same, (is_for, proper)))) =
        (q, (given, (same, (is_for, more-IsProper d item items q board proper))))

    first_accepted-Gives :
        (p : Pipeline) (d : InterviewDimension) (n : ℕ) (items : List BankItem) (s : Asking)
        → Settled d.name s.board
        → Gives d items s.board (first_accepted p d n items s)
    unfolding first_accepted fallback_question
    first_accepted-Gives p d n [] s h =
        (_, (refl, (refl, (inr (sym h.0), inr (_, _, d, (refl, sym h.0))))))
    first_accepted-Gives p d n (item ∷ items) s h =
        by_reasons (question_base p.agent_name (artifact_id "artifact" (p.random n)) p.now)
          (artifact_id "question" (p.random (suc n)))
          (more-Gives d item items s.board (first_accepted p d (suc (suc n)) items s)
            (first_accepted-Gives p d (suc (suc n)) items s h))
      where
        outcome :
            (base : ArtifactBase) (id : String) (rest : Result QuestionArtifact × Asking)
            (reasons : List String)
            → reasons_against (candidate_to_artifact base id item d) s.board d.name ≡ reasons
            → Gives d (item ∷ items) s.board rest
            → Gives d
                (item ∷ items)
                s.board
                (if is_empty reasons then (ok (candidate_to_artifact base id item d), s) else rest)
        outcome base id rest [] e g =
            let q = candidate_to_artifact base id item d in
            let (fitting, is_for) = reasons-IsFitting q s.board d.name e in
            (q, (refl, (refl, (rw h.0 is_for, inl (fitting, (item, base, id, (here, refl)))))))
        outcome base id rest (r ∷ rs) e g = g

        by_reasons :
            (base : ArtifactBase) (id : String)
            → Gives d (item ∷ items) s.board (first_accepted p d (suc (suc n)) items s)
            → (let q = candidate_to_artifact base id item d in
                Gives d (item ∷ items) s.board (
                  if is_empty (validate q s.board).0
                  then (ok q, record s { board = (validate q s.board).1 })
                  else first_accepted p d
                      (suc (suc n))
                      items
                      (record s { board = (validate q s.board).1 })))
        by_reasons base id g =
            let q = candidate_to_artifact base id item d in
            rw (validate-settled q s.board d.name h.1)
              (outcome base id _ (reasons_against q s.board d.name) refl g)

    planned-Settled :
        (board : InterviewBlackboard) (a : InterviewPlanArtifact) (d : InterviewDimension)
        → (next_dimension a.plan board.capability_profile.dimension_coverage).0 ≡ some d
        → Settled d.name (record board {
          interview_plan = some (record a {
            plan = (next_dimension a.plan board.capability_profile.dimension_coverage).1;
          });
          current_dimension = d.name;
        })
    unfolding expected_dimension
    planned-Settled board a d found = (
      refl,
      rw (next_dimension-again a.plan board.capability_profile.dimension_coverage, found) refl,
    )

    selected-Settled :
        (s : Asking) (a : InterviewPlanArtifact) (o : Option InterviewDimension)
        (d : InterviewDimension)
        → s.board.interview_plan ≡ some a
        → (next_dimension a.plan s.board.capability_profile.dimension_coverage).0 ≡ o
        → (selected o
            (with_plan s.board
              (next_dimension a.plan s.board.capability_profile.dimension_coverage).1)
            s).0
          ≡ ok d
        → Settled d.name
            (selected o
              (with_plan s.board
                (next_dimension a.plan s.board.capability_profile.dimension_coverage).1)
              s).1.board
    selected-Settled s a none d has found e = cc
    selected-Settled s a (some c) d has found e =
        let same : c ≡ d = cc in rw (← same, has) (planned-Settled s.board a c found)

    -- Selecting settles the blackboard on the dimension.
    select_dimension-Settled :
        (s : Asking) (d : InterviewDimension)
        → (select_dimension s).0 ≡ ok d
        → Settled d.name (select_dimension s).1.board
    unfolding select_dimension
    select_dimension-Settled s d = of_plan s.board.interview_plan refl
      where
        of_plan :
            (o : Option InterviewPlanArtifact)
            → s.board.interview_plan ≡ o
            → (select_from (plan_of o) s).0 ≡ ok d
            → Settled d.name (select_from (plan_of o) s).1.board
        of_plan none has e = cc
        of_plan (some a) has e = selected-Settled s a _ d has refl e

    -- What is said of a question that was given: the dimension and the items are those that the plan and
    -- the bank gave.
    pub record IsAsked (p : Pipeline) (s : Asking) (board : InterviewBlackboard)
        (q : QuestionArtifact) : Type 0 where
      pub dimension : InterviewDimension
      pub items : List BankItem
      pub selected_by_plan : (select_dimension s).0 ≡ ok dimension
      pub given_by_bank : (retrieve_candidates p dimension (select_dimension s).1).0 ≡ ok items
      pub named : board.current_dimension ≡ dimension.name
      pub is_for : IsFor q dimension.name
      pub proper : IsProper dimension items q board

    conclude :
        (d : InterviewDimension) (items : List BankItem) (board : InterviewBlackboard)
        (r : Result QuestionArtifact × Asking) (q : QuestionArtifact) (s : Asking)
        → Gives d items board r
        → r ≡ (ok q, s)
        → (s.board ≡ board) × (IsFor q board.current_dimension × IsProper d items q board)
    conclude d items board (r, t) q s (given, (is_ok, (same, (is_for, fits)))) e =
        let same_state : t ≡ s = ap (λ p. p.1) e in
        let same_result : ok given ≡ ok q = sym is_ok ∙ ap (λ p. p.0) e in
        let same_question : given ≡ q = cc in
        rw (← same_question, ← same_state) (same, (is_for, fits))

    -- A question that is not a follow-up is for the dimension that the plan has selected and that the
    -- blackboard then names, if its name is not empty; and it is either made of one of the items that the
    -- bank gave for the dimension, with a title of at least 8 characters, not asked before, unlike the last
    -- five questions and without a sensitive word, or it is the fallback question for that dimension.
    pub generate_next-IsFor :
        (p : Pipeline) (s s' : Asking) (q : QuestionArtifact)
        → generate_next p s ≡ (ok q, s')
        → IsAsked p s s'.board q
    unfolding generate_next retrieve_candidates
    generate_next-IsFor p s s' q e =
        let (d, first, rest) = bind_ok (select_dimension s) _ q s' e in
        let s₁ = (select_dimension s).1 in
        let (items, second, last) = bind_ok (retrieve_candidates p d s₁) _ q s' rest in
        let s₂ = (retrieve_candidates p d s₁).1 in
        let settled : Settled d.name s₂.board =
          select_dimension-Settled s d (ap (λ r. r.0) first) in
        let (same, (is_for, proper)) =
          conclude d items s₂.board _ q s' (first_accepted-Gives p d 0 items s₂ settled) last in
        record {
          dimension = d;
          items = items;
          selected_by_plan = ap (λ r. r.0) first;
          given_by_bank = ap (λ r. r.0) second;
          named = rw same settled.0;
          is_for = rw settled.0 at is_for;
          proper = rw same proper;
        }
