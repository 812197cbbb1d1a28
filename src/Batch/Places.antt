-- ===== src/Batch/Places.antt =====
-- The slots of the results in `execute_batch` (src/interview_agent_runtime/tools/registry.py).
use interviewer.Prelude.{
  ℕ, zero, suc, ◌+◌, ◌≡◌, refl, String, Option, none, some, List, [], ◌∷◌, ◌++◌, arith, or_else,
  All, Bool-cases, inl, inr, ◌==◌,
}
use interviewer.Floats.{Floats}
use interviewer.ToolRecords.{ToolResult}
use interviewer.Governance.{ToolCall}
use interviewer.Execute.Answers.{Answers}
use interviewer.Batch.{
  Member, Batch, empty_batch, put, put_sequential, marked, collect, missing_result,
}
use interviewer.Batch.Tasks.{AnswersAll}

module _ ⦃F : Floats⦄ where
  abbrev pub call_at : List ToolCall → ℕ → Option ToolCall
  call_at [] i = none
  call_at (c ∷ cs) zero = some c
  call_at (c ∷ cs) (suc i) = call_at cs i

  -- Each slot answers the call at its place, and so does each member of the group.
  pub record InPlace (cs : List ToolCall) (b : Batch) : Type 0 where
    pub slots :
        (i : ℕ) (r : ToolResult)
        → b.results i ≡ some r
        → (c : ToolCall) × (call_at cs i ≡ some c) × Answers c r
    pub group : All (λ m. call_at cs m.index ≡ some m.member_call) b.safe_group

  pub empty-InPlace : (cs : List ToolCall) → InPlace cs empty_batch
  empty-InPlace cs = record { slots = λ i r h. cc; group = tt }

  pub put-slots :
      (cs : List ToolCall) (b : Batch) (i : ℕ) (c : ToolCall) (r : ToolResult)
      → InPlace cs b
      → call_at cs i ≡ some c
      → Answers c r
      → InPlace cs (put i r b)
  put-slots cs b i c r h at answers = record {
    slots = λ j r' e. elim (Bool-cases (j == i)) [
      | inl same ↦
          let place : j ≡ i = ground arith in
          let result : r ≡ r' = cc (rw same at e) in (c, rw place at, rw (← result) answers)
      | inr other ↦ h.slots j r' (rw other at e)
    ];
    group = h.group;
  }

  pub collect-AnswersAll :
      (slots : ℕ → Option ToolResult) (i : ℕ) (ds : List ToolCall)
      → ((k : ℕ) (c : ToolCall) (r : ToolResult)
          → call_at ds k ≡ some c
          → slots (i + k) ≡ some r
          → Answers c r)
      → AnswersAll ds (collect slots i ds)
  unfolding collect
  collect-AnswersAll slots i [] h = tt
  collect-AnswersAll slots i (d ∷ ds) h = (
    first (slots i) (λ r e. h 0 d r refl (let same : i + 0 ≡ i = omega arith in rw same e)),
    collect-AnswersAll slots (suc i) ds (λ k c r at e.
        h (suc k) c r at (let same : i + suc k ≡ suc i + k = omega arith in rw same e)),
  )
    where
      first :
          (o : Option ToolResult)
          → ((r : ToolResult) → o ≡ some r → Answers d r)
          → Answers d (or_else o (missing_result d))
      first none f = refl
      first (some r) f = f r refl

  -- What is in place stays so where only the counters change, or the group is emptied.
  pub emptied :
      (cs : List ToolCall) (b : Batch) → InPlace cs b → InPlace cs (record b { safe_group = [] })
  emptied cs b h = record { slots = h.slots; group = tt }

  pub put_sequential-InPlace :
      (cs : List ToolCall) (b : Batch) (i : ℕ) (c : ToolCall) (r : ToolResult)
      (resource : Option String)
      → InPlace cs b
      → call_at cs i ≡ some c
      → Answers c r
      → InPlace cs (put_sequential i resource r b)
  put_sequential-InPlace cs b i c r resource h at answers = record {
    slots = (put-slots cs b i c (marked "sequential" resource r) h at answers).slots;
    group = h.group;
  }

  pub All-snoc :
      (P : Member → Type 0) (ms : List Member) (m : Member)
      → All P ms
      → P m
      → All P (ms ++ (m ∷ []))
  All-snoc P [] m h p = (p, tt)
  All-snoc P (n ∷ ms) m h p = (h.0, All-snoc P ms m h.1 p)
