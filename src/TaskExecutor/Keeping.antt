-- ===== src/TaskExecutor/Keeping.antt =====
-- What a task leaves as it is, its executor leaves as it is
-- (src/interview_agent_runtime/runtime/execution_policy.py).
use interviewer.Prelude.{
  ℕ, zero, suc, ◌+◌, ◌≡◌, refl, ◌∙◌, inl, inr, Option, none, some, List, [], ◌∷◌, ◌++◌,
}
use interviewer.Floats.{Floats, Float}
use interviewer.Values.{Error, Result, Result-cases}
use interviewer.TaskExecutor.{
  ExecutionPolicy, TraceEntry, attempt_error, attempt, attempt_loop, try_fallback, execute,
}

module _ ⦃F : Floats⦄ {W A V : Type 0} (policy : ExecutionPolicy W A)
    (func : W → Float × Result A × W) (view : W → V) where
  attempt_loop-keeps :
      policy.fallback ≡ none
      → ((w : W) → view (func w).2 ≡ view w)
      → (left done : ℕ) (last : Option Error) (trace : List TraceEntry) (w : W)
      → view (attempt_loop policy func left done last trace w).1 ≡ view w
  unfolding attempt_loop attempt try_fallback
  attempt_loop-keeps plain h zero done last trace w = rw plain refl
  attempt_loop-keeps plain h (suc left) done last trace w =
      elim (Result-cases (attempt policy.timeout_seconds func w).0) [
        | inl (a, good) ↦ rw (good, attempt_loop) (h w)
        | inr (e, bad) ↦
            rw (bad, attempt_loop)
              (attempt_loop-keeps plain h left (done + 1) (some e)
                  (trace ++ (attempt_error (done + 1) e ∷ [])) (func w).2
                ∙ h w)
      ]

  -- Without a fallback.
  pub execute-keeps :
      policy.fallback ≡ none
      → ((w : W) → view (func w).2 ≡ view w)
      → (w : W) → view (execute policy func w).1 ≡ view w
  unfolding execute
  execute-keeps plain h w = attempt_loop-keeps plain h (policy.retry + 1) 0 none [] w
