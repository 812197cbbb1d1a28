-- ===== src/TaskExecutor/Attempts.antt =====
-- How often a task is attempted, and with what result.
use interviewer.Prelude.{
  ℕ, zero, suc, ◌+◌, ◌<◌, ◌≡◌, ◌⊎◌, inl, inr, refl, Bool, true, false, Option, none, some, List, [],
  ◌∷◌, ◌++◌, arith,
}
use interviewer.Floats.{Floats, Float}
use interviewer.Values.{Error, Result, ok, err}
use interviewer.TaskExecutor.{
  ExecutionPolicy, ExecutionResult, TraceEntry, attempt_ok, attempt_error, attempt, success,
  attempt_loop, try_fallback, execute,
}

module _ ⦃F : Floats⦄ {W A : Type 0} (policy : ExecutionPolicy W A)
    (func : W → Float × Result A × W) where
  -- The world after `n` attempts.
  abbrev pub world_after : ℕ → W → W
  world_after zero w = w
  world_after (suc n) w = world_after n (attempt policy.timeout_seconds func w).1

  abbrev pub attempt_no : ℕ → W → Result A
  attempt_no n w = (attempt policy.timeout_seconds func (world_after n w)).0

  abbrev pub is_err : Result A → Bool
  is_err (ok a) = false
  is_err (err e) = true

  -- The first `n` attempts fail.
  abbrev pub AllFail : ℕ → W → Type 0
  AllFail zero w = Unit
  AllFail (suc n) w =
      (is_err (attempt policy.timeout_seconds func w).0 ≡ true)
      × AllFail n (attempt policy.timeout_seconds func w).1

  -- Of at most `limit` attempts all before the last failed; the last one succeeded and its value
  -- is returned, or all failed and the fallback decides.
  pub record IsFirstSuccess (limit done : ℕ) (w : W) (r : ExecutionResult A × W) : Type 0 where
    pub failed : ℕ
    pub all_fail : AllFail failed w
    pub ending :
        ((a : A) × (failed < limit)
          × (attempt_no failed w ≡ ok a)
          × (r.0.value ≡ some a)
          × (r.0.used_fallback ≡ false)
          × (r.0.error ≡ none)
          × (r.0.attempts ≡ done + suc failed)
          × (r.1 ≡ world_after (suc failed) w))
        ⊎ ((failed ≡ limit)
            × ((last : Option Error) × (trace : List TraceEntry) × (r
                  ≡ try_fallback policy.timeout_seconds policy.fallback last
                      (done + failed)
                      trace
                      (world_after failed w))))

  attempt_loop_ok :
      (left done : ℕ) (last : Option Error) (trace : List TraceEntry) (w : W) (a : A)
      → (attempt policy.timeout_seconds func w).0 ≡ ok a
      → attempt_loop policy func (suc left) done last trace w ≡ (
        success a none (done + 1) false (trace ++ (attempt_ok (done + 1) ∷ [])),
        (attempt policy.timeout_seconds func w).1,
      )
  unfolding attempt_loop
  attempt_loop_ok left done last trace w a h = rw (h, attempt_loop)

  attempt_loop_err :
      (left done : ℕ) (last : Option Error) (trace : List TraceEntry) (w : W) (e : Error)
      → (attempt policy.timeout_seconds func w).0 ≡ err e
      → attempt_loop policy func (suc left) done last trace w
        ≡ attempt_loop policy func left
            (done + 1)
            (some e)
            (trace ++ (attempt_error (done + 1) e ∷ []))
            (attempt policy.timeout_seconds func w).1
  unfolding attempt_loop
  attempt_loop_err left done last trace w e h = rw (h, attempt_loop)

  IsFirstSuccess-err :
      (left done : ℕ) (w : W) (r : ExecutionResult A × W) (e : Error)
      → (attempt policy.timeout_seconds func w).0 ≡ err e
      → IsFirstSuccess left (done + 1) (attempt policy.timeout_seconds func w).1 r
      → IsFirstSuccess (suc left) done w r
  IsFirstSuccess-err left done w r e h s = record {
    failed = suc s.failed;
    all_fail = (rw h, s.all_fail);
    ending = elim s.ending [
      | inl (a, below, good, value, plain, clean, count, after) ↦
          inl (a, omega arith, good, value, plain, clean, omega arith, after)
      | inr (all, (last, trace, rest)) ↦
          let same : done + 1 + s.failed ≡ done + suc s.failed = omega arith in
          inr (omega arith, (last, trace, rw same at rest))
    ];
  }

  attempt_loop-IsFirstSuccess :
      (left done : ℕ) (last : Option Error) (trace : List TraceEntry) (w : W)
      → IsFirstSuccess left done w (attempt_loop policy func left done last trace w)
  attempt_loop-IsFirstSuccess zero done last trace w = record {
    failed = 0;
    all_fail = tt;
    ending =
        let same : done ≡ done + 0 = omega arith in
        inr (refl, (last, trace, unfold attempt_loop in rw (← same)));
  }
  attempt_loop-IsFirstSuccess (suc left) done last trace w = of_first _ refl (λ e.
      attempt_loop-IsFirstSuccess left (done + 1) (some e)
        (trace ++ (attempt_error (done + 1) e ∷ [])) (attempt policy.timeout_seconds func w).1)
    where
      of_first :
          (r : Result A)
          → (attempt policy.timeout_seconds func w).0 ≡ r
          → ((e : Error)
              → IsFirstSuccess left (done + 1) (attempt policy.timeout_seconds func w).1 (
                  attempt_loop policy func left
                    (done + 1)
                    (some e)
                    (trace ++ (attempt_error (done + 1) e ∷ []))
                    (attempt policy.timeout_seconds func w).1))
          → IsFirstSuccess (suc left) done w (attempt_loop policy func (suc left) done last trace w)
      of_first (ok a) h rest = rw (attempt_loop_ok left done last trace w a h) (record {
        failed = 0;
        all_fail = tt;
        ending = inl (a, omega arith, h, refl, refl, refl, omega arith, refl);
      })
      of_first (err e) h rest =
          rw (attempt_loop_err left done last trace w e h)
            (IsFirstSuccess-err left done w _ e h (rest e))

  -- Of at most `retry + 1` attempts, each under the time limit, the first that succeeds gives the
  -- value, after exactly the failed ones before it, and ends the loop without the fallback; only
  -- where all `retry + 1` attempts failed is the result that of the fallback.
  pub execute-IsFirstSuccess :
      (w : W) → IsFirstSuccess (policy.retry + 1) 0 w (execute policy func w)
  unfolding execute
  execute-IsFirstSuccess w = attempt_loop-IsFirstSuccess (policy.retry + 1) 0 none [] w
