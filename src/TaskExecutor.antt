-- ===== src/TaskExecutor.antt =====
-- `TaskExecutor` (src/interview_agent_runtime/runtime/execution_policy.py): attempts with a time
-- limit, then a fallback. What is awaited is a function on the world outside, which says how many
-- seconds it took and what it returned or raised.
pub mod Attempts
pub mod Keeping
use interviewer.Prelude.{
  ℕ, zero, suc, ◌+◌, String, Bool, true, false, Option, none, some, List, [], ◌∷◌, ◌++◌,
  if◌then◌else◌,
}
use interviewer.Floats.{Floats, Float}
use interviewer.Values.{Error, timeout_error, Result, ok, err}

pub data TraceEntry : Type 0 where
  attempt_ok : ℕ → TraceEntry
  attempt_error : ℕ → Error → TraceEntry
  fallback_ok : TraceEntry
  fallback_error : Error → TraceEntry

module _ ⦃F : Floats⦄ where
  pub record ExecutionPolicy (W A : Type 0) : Type 0 where
    pub timeout_seconds : Float
    pub retry : ℕ
    pub fallback : Option (W → Float × Result A × W)
    pub name : String
    pub max_iterations : ℕ
    pub max_tool_calls : ℕ
    pub max_duplicate_calls : ℕ

-- The entries of `trace` are data here; their texts begin with the name of the policy.
pub record ExecutionResult (A : Type 0) : Type 0 where
  pub ok : Bool
  pub value : Option A
  pub error : Option Error
  pub attempts : ℕ
  pub used_fallback : Bool
  pub trace : List TraceEntry

module _ ⦃F : Floats⦄ where
  -- `asyncio.wait_for`
  abbrev pub wait_for : {A : Type 0} → Float → Float → Result A → Result A
  wait_for limit seconds r = if F.lt limit seconds then err timeout_error else r

abbrev pub success :
    {A : Type 0} → A → Option Error → ℕ → Bool → List TraceEntry → ExecutionResult A
success a e n used trace = record {
  ok = true;
  value = some a;
  error = e;
  attempts = n;
  used_fallback = used;
  trace = trace;
}

abbrev pub failure : {A : Type 0} → Option Error → ℕ → List TraceEntry → ExecutionResult A
failure e n trace = record {
  ok = false;
  value = none;
  error = e;
  attempts = n;
  used_fallback = false;
  trace = trace;
}

module _ ⦃F : Floats⦄ {W A : Type 0} where
  -- One call of `func` or of the fallback under the time limit.
  unfoldable pub attempt : Float → (W → Float × Result A × W) → W → Result A × W
  attempt limit func w = let (seconds, r, w') = func w in (wait_for limit seconds r, w')

  after_fallback : Option Error → ℕ → List TraceEntry → Result A × W → ExecutionResult A × W
  after_fallback last n trace (ok a, w) = (success a last n true (trace ++ (fallback_ok ∷ [])), w)
  after_fallback last n trace (err e, w) =
      (failure (some e) n (trace ++ (fallback_error e ∷ [])), w)

  unfoldable pub try_fallback :
      Float
      → Option (W → Float × Result A × W)
      → Option Error
      → ℕ
      → List TraceEntry
      → W
      → ExecutionResult A × W
  unfolding after_fallback attempt
  try_fallback limit none last n trace w = (failure last n trace, w)
  try_fallback limit (some fallback) last n trace w =
      after_fallback last n trace (attempt limit fallback w)

  -- The `for` loop with `left` rounds to go, after `done` attempts.
  unfoldable pub attempt_loop :
      ExecutionPolicy W A
      → (W → Float × Result A × W)
      → ℕ
      → ℕ
      → Option Error
      → List TraceEntry
      → W
      → ExecutionResult A × W
  attempt_loop policy func zero done last trace w =
      try_fallback policy.timeout_seconds policy.fallback last done trace w
  attempt_loop policy func (suc left) done last trace w =
      elim (attempt policy.timeout_seconds func w).0 [
        | ok a ↦ (
          success a none (done + 1) false (trace ++ (attempt_ok (done + 1) ∷ [])),
          (attempt policy.timeout_seconds func w).1,
        )
        | err e ↦
            attempt_loop policy func left (done + 1) (some e)
              (trace ++ (attempt_error (done + 1) e ∷ [])) (attempt policy.timeout_seconds func w).1
      ]

  unfoldable pub execute :
      ExecutionPolicy W A → (W → Float × Result A × W) → W → ExecutionResult A × W
  unfolding attempt_loop
  execute policy func w = attempt_loop policy func (policy.retry + 1) 0 none [] w
