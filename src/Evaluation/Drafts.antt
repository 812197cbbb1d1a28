-- ===== src/Evaluation/Drafts.antt =====
-- The evidence that is read from a draft, or made of the claims
-- (src/interview_agent_runtime/evaluation/engine.py).
use interviewer.Prelude.{
  ℕ, suc, ◌≤◌, ◌≡◌, ◌⊎◌, inl, inr, refl, String, str_eq, eq_iff, Bool, true, false, Option, none,
  some, List, [], ◌∷◌, arith, if◌then◌else◌, or_else, All, Bool-cases, Option-cases,
}
use interviewer.Floats.{Floats, Float, FloatLaws, min_float}
use interviewer.Unicode.{Unicode, strip}
use interviewer.Values.{
  Value, null, bool, int, float, str, list, dict, Items, nil, cons, Fields, ℤ, Result, ok, err,
  ◌>>=◌,
}
use interviewer.Artifacts.{QuestionArtifact, AnswerArtifact, Evidence}
use interviewer.Evaluation.{
  Texts, clamp, drafted, evidence_of, evidence_in, overflow_error, drafted_before, claimed,
  claimed_all, insufficient, known_polarity, text_at, number_in,
}
use interviewer.Batch.{get_field}

module _ ⦃F : Floats⦄ where
  abbrev IsPolarity : String → Type 0
  IsPolarity p = (p ≡ "positive") ⊎ ((p ≡ "negative") ⊎ (p ≡ "uncertain"))

  -- Between 0 and 1.
  pub record IsShare (x : Float) : Type 0 where
    pub low : F.lt x (F.of_ℕ 0) ≡ false
    pub high : F.lt (F.of_ℕ 1) x ≡ false

  -- The evidence cites the answer and the question, and is of one of the three polarities.
  pub record IsGrounded (question : QuestionArtifact) (answer : AnswerArtifact) (e : Evidence)
      : Type 0 where
    pub cites_answer : e.source_answer_id ≡ answer.answer_id
    pub cites_question : e.source_question_id ≡ question.question_id
    pub polarity : IsPolarity e.polarity
    pub confidence : IsShare e.confidence

  clamp-IsShare : FloatLaws F → (x : Float) → IsShare (clamp x)
  unfolding clamp
  clamp-IsShare laws x = record {
    low = ground (
      arith,
      laws.lt_asym (F.of_ℕ 0) (F.of_ℕ 0),
      laws.lt_asym (F.of_ℕ 0) (min_float (F.of_ℕ 1) x),
    );
    high =
        ground
          (arith, laws.lt_asym (F.of_ℕ 1) (F.of_ℕ 1), laws.lt_asym x (F.of_ℕ 1), laws.lt-of_ℕ 1 0);
  }

  hundredths-IsShare : FloatLaws F → (m : ℕ) → m ≤ 100 → IsShare (F.decimal m 2)
  hundredths-IsShare laws m h = record {
    low = ground (arith, laws.decimal-lt-of_ℕ m 0);
    high = ground (arith, laws.of_ℕ-lt-decimal m 1);
  }

  known_polarity-IsPolarity : ⦃U : Unicode⦄ ⦃T : Texts⦄ (p : String) → IsPolarity (known_polarity p)
  known_polarity-IsPolarity p = elim (Bool-cases (str_eq p "positive")) [
    | inl e ↦ inl (ground (arith, eq_iff p "positive"))
    | inr n ↦ elim (Bool-cases (str_eq p "negative")) [
      | inl e ↦ inr (inl (ground (arith, eq_iff p "negative")))
      | inr m ↦ inr (inr (ground (arith, eq_iff p "uncertain")))
    ]
  ]

  -- An entry that gives as its confidence an integer too large for a float.
  pub data HasTooLarge ⦃T : Texts⦄ : Items → Type 0 where
    found :
        {item : Fields} {items : Items} {z : ℤ}
        → get_field item "confidence" ≡ some (int z)
        → T.float_of z ≡ none
        → HasTooLarge (cons (dict item) items)
    later : {v : Value} {items : Items} → HasTooLarge items → HasTooLarge (cons v items)

  pub number_in-cases :
      ⦃T : Texts⦄ (v : Option Value)
      → ((x : Option Float) × (number_in v ≡ ok x))
        ⊎ ((number_in v ≡ err overflow_error)
            × (z : ℤ) × (v ≡ some (int z))
            × (T.float_of z ≡ none))
  number_in-cases none = inl (none, refl)
  number_in-cases ⦃T = T⦄ (some (int z)) = elim (Option-cases (T.float_of z)) [
    | inl too_large ↦ inr (rw too_large refl, z, refl, too_large)
    | inr fits ↦ inl (some fits.0, rw fits.1 refl)
  ]
  number_in-cases (some (float x)) = inl (some x, refl)
  number_in-cases (some (bool b)) = inl (some (if b then F.of_ℕ 1 else F.of_ℕ 0), refl)
  number_in-cases (some null) = inl (none, refl)
  number_in-cases (some (str s)) = inl (none, refl)
  number_in-cases (some (list vs)) = inl (none, refl)
  number_in-cases (some (dict fields)) = inl (none, refl)

  module _ ⦃U : Unicode⦄ ⦃T : Texts⦄ (laws : FloatLaws F) (ids : ℕ → String)
      (question : QuestionArtifact) (answer : AnswerArtifact) where
    abbrev Grounded : Evidence → Type 0
    Grounded e = IsGrounded question answer e

    drafted-IsGrounded :
        (id : String) (item : Fields) (claim : String) (x : Float)
        → Grounded (drafted id question answer item claim x)
    unfolding drafted
    drafted-IsGrounded id item claim x = record {
      cites_answer = refl;
      cites_question = refl;
      polarity = known_polarity-IsPolarity (text_at (get_field item "polarity") "positive");
      confidence = clamp-IsShare laws x;
    }

    -- What the loop over the entries gives: grounded evidence, or the error of one that names too
    -- large an integer.
    abbrev Drafted : Items → Result (List Evidence) → Type 0
    Drafted items (ok es) = All Grounded es
    Drafted items (err e) = (e ≡ overflow_error) × HasTooLarge items

    Drafted-later :
        (v : Value) (items : Items) (r : Result (List Evidence))
        → Drafted items r
        → Drafted (cons v items) r
    Drafted-later v items (ok es) h = h
    Drafted-later v items (err e) h = (h.0, later h.1)

    drafted_before-Drafted :
        (id : String) (item : Fields) (items : Items) (claim : String)
        (rest : Result (List Evidence))
        → Drafted items rest
        → Drafted (cons (dict item) items) (drafted_before id question answer item claim rest)
    unfolding drafted_before
    drafted_before-Drafted id item items claim rest h =
        elim (number_in-cases (get_field item "confidence")) [
          | inl given ↦ rw given.1 (before given.0 rest h)
          | inr large ↦ rw large.0 (refl, found large.2 large.3)
        ]
      where
        before :
            (x : Option Float) (rest : Result (List Evidence))
            → Drafted items rest
            → Drafted (cons (dict item) items) (
                rest >>= λ es.
                ok (drafted id question answer item claim (or_else x (F.decimal 78 2)) ∷ es))
        before x (ok es) h = (drafted-IsGrounded id item claim (or_else x (F.decimal 78 2)), h)
        before x (err e) h = (h.0, later h.1)

    evidence_of-Drafted :
        (n : ℕ) (items : Items) → Drafted items (evidence_of ids n question answer items)
    unfolding evidence_of
    evidence_of-Drafted n nil = tt
    evidence_of-Drafted n (cons (dict item) items) =
        let claim = strip (text_at (get_field item "claim") "") in
        elim (Bool-cases (str_eq claim "")) [
          | inl empty ↦ rw empty (Drafted-later (dict item) items _ (evidence_of-Drafted n items))
          | inr there ↦ rw there (
              drafted_before-Drafted (ids n) item items claim _ (evidence_of-Drafted (suc n) items))
        ]
    evidence_of-Drafted n (cons null items) =
        Drafted-later null items _ (evidence_of-Drafted n items)
    evidence_of-Drafted n (cons (bool b) items) =
        Drafted-later (bool b) items _ (evidence_of-Drafted n items)
    evidence_of-Drafted n (cons (int z) items) =
        Drafted-later (int z) items _ (evidence_of-Drafted n items)
    evidence_of-Drafted n (cons (float x) items) =
        Drafted-later (float x) items _ (evidence_of-Drafted n items)
    evidence_of-Drafted n (cons (str s) items) =
        Drafted-later (str s) items _ (evidence_of-Drafted n items)
    evidence_of-Drafted n (cons (list vs) items) =
        Drafted-later (list vs) items _ (evidence_of-Drafted n items)

    -- The same for the draft as a whole.
    abbrev pub FromDraft : Option Value → Result (List Evidence) → Type 0
    FromDraft v (ok es) = All Grounded es
    FromDraft v (err e) =
        (e ≡ overflow_error) × (items : Items) × (v ≡ some (list items)) × HasTooLarge items

    pub evidence_in-FromDraft : (v : Option Value) → FromDraft v (evidence_in ids question answer v)
    evidence_in-FromDraft none = tt
    evidence_in-FromDraft (some (list items)) =
        within items (evidence_of ids 0 question answer items) (evidence_of-Drafted 0 items)
      where
        within :
            (items : Items) (r : Result (List Evidence))
            → Drafted items r
            → FromDraft (some (list items)) r
        within items (ok es) h = h
        within items (err e) h = (h.0, items, refl, h.1)
    evidence_in-FromDraft (some null) = tt
    evidence_in-FromDraft (some (bool b)) = tt
    evidence_in-FromDraft (some (int z)) = tt
    evidence_in-FromDraft (some (float x)) = tt
    evidence_in-FromDraft (some (str s)) = tt
    evidence_in-FromDraft (some (dict fields)) = tt

    pub claimed_all-All :
        (n : ℕ) (s : Float) (claims : List String)
        → All Grounded (claimed_all ids n question answer s claims)
    unfolding claimed_all claimed
    claimed_all-All n s [] = tt
    claimed_all-All n s (c ∷ cs) = (
      record {
        cites_answer = refl;
        cites_question = refl;
        polarity = inl refl;
        confidence = confident (F.le (F.of_ℕ 70) s);
      },
      claimed_all-All (suc n) s cs,
    )
      where
        confident : (b : Bool) → IsShare (if b then F.decimal 82 2 else F.decimal 65 2)
        confident true = hundredths-IsShare laws 82 (omega arith)
        confident false = hundredths-IsShare laws 65 (omega arith)

    pub insufficient-IsGrounded : (id : String) → Grounded (insufficient id question answer)
    unfolding insufficient
    insufficient-IsGrounded id = record {
      cites_answer = refl;
      cites_question = refl;
      polarity = inr (inr refl);
      confidence = hundredths-IsShare laws 55 (omega arith);
    }
