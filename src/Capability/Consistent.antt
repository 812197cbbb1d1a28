-- ===== src/Capability/Consistent.antt =====
-- The lists of a capability profile stay sets, and no skill is both verified and weak.
use interviewer.Prelude.{
  ℕ, String, str_eq, eq_iff, ◌≡◌, refl, true, false, not, ◌&&◌, ◌||◌, List, [], ◌∷◌, ◌++◌, arith,
  contains, contains-snoc, lookup, lookup-insert, some,
}
use interviewer.Floats.{Floats, Float, FloatLaws, min_float}
use interviewer.Capability.{
  CapabilityProfile, append_unique, remove_if_present, classify, update_dimension, coverage_gain,
}
use interviewer.Plan.{coverage_of}

-- No element occurs twice.
abbrev pub Distinct : List String → Type 0
Distinct [] = Unit
Distinct (x ∷ xs) = (contains xs x ≡ false) × Distinct xs

contains-append_unique :
    (xs : List String) (v s : String)
    → contains (append_unique xs v) s ≡ (contains xs s || (str_eq v s && not (str_eq v "")))
unfolding append_unique
contains-append_unique xs v s = ground (arith, contains-snoc xs v s, eq_iff v s)

pub Distinct-snoc :
    (xs : List String) (v : String)
    → contains xs v ≡ false
    → Distinct xs
    → Distinct (xs ++ (v ∷ []))
Distinct-snoc [] v h d = (refl, tt)
Distinct-snoc (x ∷ xs) v h d = (
  ground (arith, contains-snoc xs v x, eq_iff x v, eq_iff v x),
  Distinct-snoc xs v (ground arith) d.1,
)

Distinct-append_unique :
    (xs : List String) (v : String) → Distinct xs → Distinct (append_unique xs v)
unfolding append_unique
Distinct-append_unique xs v d = ground (arith, Distinct-snoc xs v)

contains-remove_if_present :
    (xs : List String) (v s : String)
    → Distinct xs
    → contains (remove_if_present xs v) s ≡ (contains xs s && not (str_eq v s))
unfolding remove_if_present
contains-remove_if_present [] v s d = refl
contains-remove_if_present (x ∷ xs) v s d =
    ground (arith, contains-remove_if_present xs v s d.1, eq_iff x v, eq_iff v s, eq_iff x s)

Distinct-remove_if_present :
    (xs : List String) (v : String) → Distinct xs → Distinct (remove_if_present xs v)
unfolding remove_if_present
Distinct-remove_if_present [] v d = tt
Distinct-remove_if_present (x ∷ xs) v d =
    ground (arith, contains-remove_if_present xs v x d.1, Distinct-remove_if_present xs v d.1)

module _ ⦃F : Floats⦄ where
  pub record IsConsistent (p : CapabilityProfile) : Type 0 where
    pub verified_distinct : Distinct p.verified_skills
    pub weak_distinct : Distinct p.weak_skills
    pub uncertain_distinct : Distinct p.uncertain_skills
    pub not_both :
        (s : String) → contains p.verified_skills s ≡ true → contains p.weak_skills s ≡ false

  not_both-classify :
      (p : CapabilityProfile) (d : String) (score : Float) (missing : List String) (s : String)
      → IsConsistent p
      → contains (classify p d score missing).verified_skills s ≡ true
      → contains (classify p d score missing).weak_skills s ≡ false
  unfolding classify
  not_both-classify p d score missing s c h = ground (
    arith,
    c.not_both s,
    contains-append_unique p.verified_skills d s,
    contains-append_unique p.weak_skills d s,
    contains-remove_if_present p.verified_skills d s c.verified_distinct,
    contains-remove_if_present p.weak_skills d s c.weak_distinct,
  )

  classify-IsConsistent :
      (p : CapabilityProfile) (d : String) (score : Float) (missing : List String)
      → IsConsistent p
      → IsConsistent (classify p d score missing)
  unfolding classify
  classify-IsConsistent p d score missing c = record {
    verified_distinct = ground (
      arith,
      Distinct-append_unique p.verified_skills d c.verified_distinct,
      Distinct-remove_if_present p.verified_skills d c.verified_distinct,
    );
    weak_distinct = ground (
      arith,
      Distinct-append_unique p.weak_skills d c.weak_distinct,
      Distinct-remove_if_present p.weak_skills d c.weak_distinct,
    );
    uncertain_distinct = ground (
      arith,
      Distinct-append_unique p.uncertain_skills d c.uncertain_distinct,
      Distinct-remove_if_present p.uncertain_skills d c.uncertain_distinct,
    );
    not_both = λ s. not_both-classify p d score missing s c;
  }

  -- An evaluation keeps the three lists free of repetition, and no skill becomes both verified
  -- and weak.
  pub update_dimension-IsConsistent :
      (p : CapabilityProfile) (d : String) (score : Float) (n : ℕ) (missing : List String)
      → IsConsistent p
      → IsConsistent (update_dimension p d score n missing)
  unfolding update_dimension
  update_dimension-IsConsistent p d score n missing c =
      let k = classify-IsConsistent p d score missing c in
      record {
        verified_distinct = k.verified_distinct;
        weak_distinct = k.weak_distinct;
        uncertain_distinct = k.uncertain_distinct;
        not_both = k.not_both;
      }

  min_float-le : FloatLaws F → (a b : Float) → F.lt a (min_float a b) ≡ false
  min_float-le laws a b = ground (arith, laws.lt_asym b a, laws.lt_asym a a)

  -- If the floats are numbers, no coverage passes 1 after an evaluation if none did before.
  pub update_dimension-coverage_le_one :
      FloatLaws F
      → (p : CapabilityProfile) (d : String) (score : Float) (n : ℕ) (missing : List String)
      → ((s : String) (c : Float)
          → lookup p.dimension_coverage s ≡ some c
          → F.lt (F.decimal 10 1) c ≡ false)
      → (s : String) (c : Float)
      → lookup (update_dimension p d score n missing).dimension_coverage s ≡ some c
      → F.lt (F.decimal 10 1) c ≡ false
  unfolding update_dimension
  update_dimension-coverage_le_one laws p d score n missing below s c h =
      let gained = F.add (coverage_of p.dimension_coverage d) (coverage_gain score n) in
      ground (
        arith,
        lookup-insert p.dimension_coverage d s (min_float (F.decimal 10 1) gained),
        h,
        below s c,
        min_float-le laws (F.decimal 10 1) gained,
      )
