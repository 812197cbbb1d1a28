-- ===== src/Plan/Selection.antt =====
-- Which dimension `next_dimension` selects.
use interviewer.Prelude.{
  ◌≡◌, ◌↔◌, ◌⊎◌, refl, sym, subst, true, false, none, some, List, [], ◌∷◌, arith, All, In, In-cons,
  In-keep, keep-In, keep-nil, All-In, keep, keep-eq-nil, inl, inr, Dict, sorted, least,
  least-IsLeast, head?-sorted, IsOrder,
}
use interviewer.Floats.{Floats, Float, FloatLaws}
use interviewer.Plan.{
  InterviewDimension, InterviewPlan, coverage_of, is_open, refresh, refresh_all, selected_before,
  next_dimension, index_of,
}

module _ ⦃F : Floats⦄ where
  module _ (laws : FloatLaws F) (coverage : Dict Float) where
    open laws use {lt_asym, lt_negative_trans, le-not_lt, lt-neg}

    selected_before-asym :
        (a b : InterviewDimension)
        → selected_before coverage a b ≡ true
        → selected_before coverage b a ≡ false
    unfolding selected_before
    selected_before-asym a b h = ground (arith, lt_asym (F.neg a.weight) (F.neg b.weight))

    selected_before-negative_trans :
        (a b c : InterviewDimension)
        → selected_before coverage a b ≡ false
        → selected_before coverage b c ≡ false
        → selected_before coverage a c ≡ false
    unfolding selected_before
    selected_before-negative_trans a b c h k =
        ground (arith, lt_negative_trans (F.neg a.weight) (F.neg b.weight) (F.neg c.weight))

    selected_before-IsOrder : IsOrder (selected_before coverage)
    selected_before-IsOrder = record {
      asym = selected_before-asym;
      negative_trans = selected_before-negative_trans;
    }

    -- A refreshed dimension that is still open is below its target, also by the coverage given.
    uncovered_of_open :
        (d : InterviewDimension)
        → is_open (refresh coverage d) ≡ true
        → F.le d.coverage_target (coverage_of coverage d.name) ≡ false
    unfolding refresh
    uncovered_of_open d h =
        let c = coverage_of coverage d.name in
        ground (
          arith,
          le-not_lt d.coverage_target c,
          le-not_lt d.coverage_target d.current_coverage,
          lt_negative_trans d.current_coverage c d.coverage_target,
        )

    refreshed :
        (ds : List InterviewDimension) (x : InterviewDimension)
        → In x (refresh_all coverage ds)
        → is_open x ≡ true
        → F.le x.coverage_target (coverage_of coverage x.name) ≡ false
    unfolding refresh_all
    refreshed [] x m h = elim m [ ]
    refreshed (d ∷ ds) x m h = elim (In-cons m) [
      | inl e ↦
          subst
            (λ y. is_open y ≡ true → F.le y.coverage_target (coverage_of coverage y.name) ≡ false)
            (sym e) (uncovered_of_open d) h
      | inr rest ↦ refreshed ds x rest h
    ]

    -- Between two uncovered dimensions the weights decide.
    weights_decide :
        (x d : InterviewDimension)
        → F.le x.coverage_target (coverage_of coverage x.name) ≡ false
        → F.le d.coverage_target (coverage_of coverage d.name) ≡ false
        → selected_before coverage x d ≡ false
        → F.lt d.weight x.weight ≡ false
    unfolding selected_before
    weights_decide x d hx hd h = ground (arith, lt-neg x.weight d.weight)

  -- `d` may be asked next: it is in the plan, not completed, has budget left, and no dimension
  -- of which this holds too weighs more.
  pub record IsHeaviestOpen (d : InterviewDimension) (ds : List InterviewDimension) : Type 0 where
    pub listed : In d ds
    pub opened : is_open d ≡ true
    pub heaviest :
        (x : InterviewDimension) → In x ds → is_open x ≡ true → F.lt d.weight x.weight ≡ false

  IsHeaviestOpen-least :
      FloatLaws F
      → (coverage : Dict Float) (ds xs : List InterviewDimension) (y : InterviewDimension)
      → keep is_open (refresh_all coverage ds) ≡ y ∷ xs
      → IsHeaviestOpen (least (selected_before coverage) y xs) (refresh_all coverage ds)
  IsHeaviestOpen-least laws coverage ds xs y e =
      let before = selected_before coverage in
      let all = refresh_all coverage ds in
      let d = least before y xs in
      let (found, low) = least-IsLeast before (selected_before-IsOrder laws coverage) y xs in
      let (listed, opened) = In-keep is_open all d (subst (In d) (sym e) found) in
      record {
        listed = listed;
        opened = opened;
        heaviest = λ x m o.
            weights_decide laws coverage x d (refreshed laws coverage ds x m o)
              (refreshed laws coverage ds d listed opened)
              (All-In (λ z. before z d ≡ false) (y ∷ xs)
                (subst (In x) e (keep-In is_open all x m o)) low);
      }

  -- The outcome of `next_dimension`, by the dimensions that are open after the refresh.
  next_dimension-cases :
      (plan : InterviewPlan) (coverage : Dict Float) (l : List InterviewDimension)
      → keep is_open (refresh_all coverage plan.dimensions) ≡ l
      → let all = refresh_all coverage plan.dimensions in
        (l ≡ []) × (next_dimension plan coverage ≡ (none, record plan { dimensions = all }))
        ⊎ (y : InterviewDimension) × (xs : List InterviewDimension) × (l ≡ y ∷ xs)
          × (next_dimension plan coverage ≡ (
            some (least (selected_before coverage) y xs),
            record plan {
              dimensions = all;
              current_dimension_index = index_of (least (selected_before coverage) y xs) all;
            },
          ))
  unfolding next_dimension sorted
  next_dimension-cases plan coverage [] e = inl (refl, rw e)
  next_dimension-cases plan coverage (y ∷ xs) e =
      inr (y, xs, refl, rw (e, head?-sorted (selected_before coverage) y xs))

  -- If the floats are numbers: a dimension that `next_dimension` selects stands in the refreshed
  -- plan, is not completed and has budget left, and no other such dimension weighs more.
  pub next_dimension-IsHeaviestOpen :
      FloatLaws F
      → (plan plan' : InterviewPlan) (coverage : Dict Float) (d : InterviewDimension)
      → next_dimension plan coverage ≡ (some d, plan')
      → IsHeaviestOpen d plan'.dimensions
  next_dimension-IsHeaviestOpen laws plan plan' coverage d h =
      elim (next_dimension-cases plan coverage _ refl) [
        | inl (e, r) ↦ cc
        | inr (y, xs, e, r) ↦
            let best = IsHeaviestOpen-least laws coverage plan.dimensions xs y e in
            let same : d ≡ least (selected_before coverage) y xs = cc in
            let ds : plan'.dimensions ≡ refresh_all coverage plan.dimensions = cc in
            rw (same, ds) best
      ]

  -- `next_dimension` selects none exactly where each refreshed dimension is completed or has
  -- asked its budget.
  pub next_dimension-eq-none :
      (plan : InterviewPlan) (coverage : Dict Float)
      → ((next_dimension plan coverage).0 ≡ none)
        ↔ All (λ d. is_open d ≡ false) (next_dimension plan coverage).1.dimensions
  next_dimension-eq-none plan coverage = elim (next_dimension-cases plan coverage _ refl) [
    | inl (e, r) ↦ rw r ((λ _. keep-eq-nil is_open _ e), (λ _. refl))
    | inr (y, xs, e, r) ↦ rw r ((λ h. cc), (λ h. cc (keep-nil is_open _ h)))
  ]
