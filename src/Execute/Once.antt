-- ===== src/Execute/Once.antt =====
-- What a call that has succeeded leaves behind.
use interviewer.Prelude.{
  ℕ, ◌≡◌, refl, sym, ap, subst, true, Option, none, some, or_else, [], arith, Dict, lookup, ◌∙◌,
}
use interviewer.Floats.{Floats}
use interviewer.Values.{Value, Result, ok, err}
use interviewer.ToolRecords.{
  ToolInvocationKey, ToolResult, ToolExecutionRecord, DurableToolExecutionRecord,
}
use interviewer.Tools.{Host, Tool}
use interviewer.Governance.{ToolCall, lookup_key}
use interviewer.Execute.{
  ToolExecutor, ToolState, key_of, admission, run_admitted, finish_call, after_persist,
  persist_durable, outcome, execute, record_result,
}
use interviewer.Execute.Repeats.{
  HasSucceeded, is_ok, is_final, admit-HasSucceeded, admit_recorded, record_result-HasSucceeded,
  admitted, admitted_by, execute_known,
}

module _ ⦃F : Floats⦄ ⦃H : Host⦄ where
  pub persist_durable-governance :
      (x : ToolExecutor) (tool : Tool) (key : ToolInvocationKey) (r : ToolResult)
      (durable : Option (Dict DurableToolExecutionRecord)) (s : ToolState)
      → (persist_durable x tool key r durable s).1.governance ≡ s.governance
  unfolding persist_durable
  persist_durable-governance x tool key r none s = refl
  persist_durable-governance x tool key r (some d) s = ground arith

  after_persist_ok :
      (r r' : ToolResult) (p : Result (Unit {0}) × ToolState) (s' : ToolState)
      → after_persist r p ≡ (ok r', s')
      → (r ≡ r') × (p.1 ≡ s')
  unfolding after_persist
  after_persist_ok r r' (ok u, s) s' h = (cc, cc)
  after_persist_ok r r' (err e, s) s' h = cc

  finish_call-HasSucceeded :
      (x : ToolExecutor) (c : ToolCall) (tool : Tool) (key : ToolInvocationKey)
      (value : Result Value) (s s' : ToolState) (old : ToolExecutionRecord) (r : ToolResult)
      → lookup_key s.governance.records key ≡ some old
      → finish_call x c (some (tool, key)) value s ≡ (ok r, s')
      → r.ok ≡ true
      → HasSucceeded s'.governance key
  unfolding finish_call
  finish_call-HasSucceeded x c tool key value s s' old r found h is_good =
      let made = outcome x.context c value (H.elapsed_ms s.world) in
      let g = record_result tool.spec key made s.governance in
      let t : ToolState = record s { governance = g } in
      let (same, end) =
        after_persist_ok made r (persist_durable x tool key made s.durable_records t) s' h in
      let kept = persist_durable-governance x tool key made s.durable_records t in
      subst (λ g'. HasSucceeded g' key) (sym kept ∙ ap (λ (u : ToolState). u.governance) end)
        (record_result-HasSucceeded tool.spec key made s.governance old found (rw same is_good))

  run_admitted-HasSucceeded :
      (x : ToolExecutor) (c : ToolCall) (tool : Tool) (key : ToolInvocationKey)
      (o : Option ToolResult) (s s' : ToolState) (old : ToolExecutionRecord) (r : ToolResult)
      → lookup_key s.governance.records key ≡ some old
      → (is_ok o ≡ true → HasSucceeded s.governance key)
      → run_admitted x c (admission tool key o) s ≡ (ok r, s')
      → r.ok ≡ true
      → HasSucceeded s'.governance key
  unfolding run_admitted admission
  run_admitted-HasSucceeded x c tool key none s s' old r found served h is_good =
      finish_call-HasSucceeded x c tool key _ _ s' old r found h is_good
  run_admitted-HasSucceeded x c tool key (some t) s s' old r found served h is_good =
      let same : s ≡ s' = cc in
      let is_good' : t.ok ≡ true = cc in
      subst (λ (u : ToolState). HasSucceeded u.governance key) same (served is_good')

  pub execute-HasSucceeded :
      (x : ToolExecutor) (c : ToolCall) (round : ℕ) (s s' : ToolState) (tool : Tool)
      (r : ToolResult)
      → x.version_for ≡ none
      → lookup x.registry c.name ≡ some tool
      → execute x c round s ≡ (ok r, s')
      → r.ok ≡ true
      → HasSucceeded s'.governance (key_of c none)
  execute-HasSucceeded x c round s s' tool r no_resolver known h is_good =
      let key = key_of c none in
      let p = admitted_by s tool.spec c key round in
      let durable = or_else s.durable_records [] in
      let (old, found) = admit_recorded s.governance durable tool.spec c key round in
      run_admitted-HasSucceeded x c tool key p.0 (admitted s p) s' old r found
        (admit-HasSucceeded s.governance durable tool.spec c key round)
        (sym (execute_known x c round s tool no_resolver known) ∙ h) is_good

  pub same_key_of :
      (a b : ToolCall)
      → a.name ≡ b.name
      → H.dumps_sorted a.arguments ≡ H.dumps_sorted b.arguments
      → key_of a none ≡ key_of b none
  unfolding key_of
  same_key_of a b named argued = cc

  pub final_of_ok : (o : Option ToolResult) → is_ok o ≡ true → is_final o ≡ true
  final_of_ok none h = refl
  final_of_ok (some r) h = rw h
