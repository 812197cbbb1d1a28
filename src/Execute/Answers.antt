-- ===== src/Execute/Answers.antt =====
-- Every result of a call answers that call.
use interviewer.Prelude.{
  ℕ, ◌≡◌, refl, String, Option, none, some, arith, Bool-cases, inl, inr, Dict, lookup,
}
use interviewer.Floats.{Floats}
use interviewer.Values.{Value, Result, ok, err, key_error}
use interviewer.Exec.{Exec}
use interviewer.Exec.Ensures.{Ensures}
use interviewer.ToolRecords.{
  ToolResult, ToolInvocationKey, ToolExecutionRecord, DurableToolExecutionRecord, fingerprint,
}
use interviewer.Tools.{Host, Tool, ToolSpec, resolve}
use interviewer.Governance.{
  ToolCall, ToolGovernanceState, repeat_ok, repeat_call, admit_fresh, admit, lookup_key,
  is_recoverable,
}
use interviewer.Execute.{
  ToolExecutor, ToolState, Admission, settled, go_ahead, admission, admit_versioned, admit_resolved,
  begin_call, run_admitted, run_begun, after_persist, finish_call, outcome, execute, key_of,
}

module _ ⦃F : Floats⦄ where
  -- The result answers the call.
  abbrev pub Answers : ToolCall → ToolResult → Type 0
  Answers c r = r.tool_call_id ≡ c.id

  abbrev Served : ToolCall → Option ToolResult → Type 0
  Served c none = Unit
  Served c (some r) = Answers c r

  repeat_ok-Served :
      (g : ToolGovernanceState) (spec : ToolSpec) (c : ToolCall) (key : ToolInvocationKey)
      (count : ℕ) (prior : ToolResult)
      → Served c (repeat_ok g spec c key count prior).0
  unfolding repeat_ok
  repeat_ok-Served g spec c key count prior = ground arith

  repeat_call-Served :
      (g : ToolGovernanceState) (spec : ToolSpec) (c : ToolCall) (key : ToolInvocationKey)
      (count : ℕ) (o : Option ToolResult)
      → Served c (repeat_call g spec c key count o).0
  unfolding repeat_call
  repeat_call-Served g spec c key count none = refl
  repeat_call-Served g spec c key count (some prior) =
      ground (arith, repeat_ok-Served g spec c key count prior)

  admit_fresh-Served :
      (g : ToolGovernanceState) (spec : ToolSpec) (c : ToolCall) (key : ToolInvocationKey)
      (round : ℕ) (o : Option ToolExecutionRecord)
      → Served c (admit_fresh g spec c key round o).0
  unfolding admit_fresh
  admit_fresh-Served g spec c key round none = tt
  admit_fresh-Served g spec c key round (some prior) = repeat_call-Served _ spec c key _ _

  admit-Served :
      (g : ToolGovernanceState) (durable : Dict DurableToolExecutionRecord) (spec : ToolSpec)
      (c : ToolCall) (key : ToolInvocationKey) (round : ℕ)
      → Served c (admit g durable spec c key round).0
  unfolding admit
  admit-Served g durable spec c key round =
      elim (Bool-cases (is_recoverable (lookup durable (fingerprint key)))) [
        | inl h ↦ rw h refl
        | inr h ↦ rw h (admit_fresh-Served g spec c key round (lookup_key g.records key))
      ]

module _ ⦃F : Floats⦄ ⦃H : Host⦄ where
  abbrev pub AdmittedFor : ToolCall → Admission → Type 0
  AdmittedFor c (settled r) = Answers c r
  AdmittedFor c (go_ahead governed) = Unit

  admission-AdmittedFor :
      (c : ToolCall) (tool : Tool) (key : ToolInvocationKey) (o : Option ToolResult)
      → Served c o
      → AdmittedFor c (admission tool key o)
  unfolding admission
  admission-AdmittedFor c tool key none h = tt
  admission-AdmittedFor c tool key (some r) h = h

  -- What holds of the result, if there is one.
  abbrev IfOk : {A : Type 0} → (A → Type 0) → Result A → Type 0
  IfOk P (ok a) = P a
  IfOk P (err e) = Unit

  Ensures_of :
      {S A : Type 0} (P : A → Type 0) (m : Exec S A) → ((s : S) → IfOk P (m s).0) → Ensures m P
  Ensures_of P m h s s' a e = rw e at (h s)

  admit_versioned-AdmittedFor :
      (tool : Tool) (c : ToolCall) (round : ℕ) (v : Result (Option String)) (s : ToolState)
      → IfOk (AdmittedFor c) (admit_versioned tool c round v s).0
  unfolding admit_versioned
  admit_versioned-AdmittedFor tool c round (ok version) s =
      admission-AdmittedFor c tool _ _
        (admit-Served s.governance _ tool.spec c (key_of c version) round)
  admit_versioned-AdmittedFor tool c round (err key_error) s = tt
  admit_versioned-AdmittedFor tool c round (err _) s = tt

  admit_resolved-AdmittedFor :
      (x : ToolExecutor) (c : ToolCall) (round : ℕ) (t : Result Tool) (s : ToolState)
      → IfOk (AdmittedFor c) (admit_resolved x c round t s).0
  unfolding admit_resolved
  admit_resolved-AdmittedFor x c round (err e) s = tt
  admit_resolved-AdmittedFor x c round (ok tool) s = admit_versioned-AdmittedFor tool c round _ _

  pub begin_call-AdmittedFor :
      (x : ToolExecutor) (c : ToolCall) (round : ℕ) → Ensures (begin_call x c round) (AdmittedFor c)
  unfolding begin_call
  begin_call-AdmittedFor x c round =
      Ensures_of (AdmittedFor c) (begin_call x c round)
        (λ s. admit_resolved-AdmittedFor x c round (resolve x.registry c.name) s)

  outcome-Answers :
      (x : ToolExecutor) (c : ToolCall) (v : Result Value) (ms : F.Float)
      → Answers c (outcome x.context c v ms)
  unfolding outcome
  outcome-Answers x c (ok v) ms = refl
  outcome-Answers x c (err e) ms = refl

  after_persist-Answers :
      (c : ToolCall) (r : ToolResult) (p : Result (Unit {0}) × ToolState)
      → Answers c r
      → IfOk (Answers c) (after_persist r p).0
  unfolding after_persist
  after_persist-Answers c r (ok u, s) h = h
  after_persist-Answers c r (err e, s) h = tt

  finish_call-IfOk :
      (x : ToolExecutor) (c : ToolCall) (governed : Option (Tool × ToolInvocationKey))
      (v : Result Value) (s : ToolState)
      → IfOk (Answers c) (finish_call x c governed v s).0
  unfolding finish_call
  finish_call-IfOk x c none v s = outcome-Answers x c v _
  finish_call-IfOk x c (some (tool, key)) v s =
      after_persist-Answers c _ _ (outcome-Answers x c v (H.elapsed_ms s.world))

  pub finish_call-Answers :
      (x : ToolExecutor) (c : ToolCall) (governed : Option (Tool × ToolInvocationKey))
      (v : Result Value)
      → Ensures (finish_call x c governed v) (Answers c)
  finish_call-Answers x c governed v =
      Ensures_of (Answers c) (finish_call x c governed v) (finish_call-IfOk x c governed v)

  pub run_admitted-Answers :
      (x : ToolExecutor) (c : ToolCall) (a : Admission)
      → AdmittedFor c a
      → Ensures (run_admitted x c a) (Answers c)
  unfolding run_admitted
  run_admitted-Answers x c (settled r) h s s' r' e = let same : r ≡ r' = cc in rw (← same) h
  run_admitted-Answers x c (go_ahead governed) h s s' r e =
      finish_call-Answers x c governed _ _ s' r e

  run_begun-Answers :
      (x : ToolExecutor) (c : ToolCall) (p : Result Admission × ToolState) (s' : ToolState)
      (r : ToolResult)
      → IfOk (AdmittedFor c) p.0
      → run_begun x c p ≡ (ok r, s')
      → Answers c r
  unfolding run_begun
  run_begun-Answers x c (ok a, s) s' r h e = run_admitted-Answers x c a h s s' r e
  run_begun-Answers x c (err e', s) s' r h e = cc

  pub execute-Answers :
      (x : ToolExecutor) (c : ToolCall) (round : ℕ) → Ensures (execute x c round) (Answers c)
  unfolding execute begin_call
  execute-Answers x c round s s' r e =
      run_begun-Answers x c (begin_call x c round s) s' r
        (admit_resolved-AdmittedFor x c round (resolve x.registry c.name) s) e
