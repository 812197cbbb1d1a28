-- ===== src/Execute/Later.antt =====
-- A call that has succeeded does not run again, whatever is called in between
-- (src/interview_agent_runtime/tools/registry.py).
use interviewer.Prelude.{
  ℕ, ◌≡◌, ◌⊎◌, refl, sym, ap, true, false, Option, none, some, or_else, List, [], ◌∷◌, arith,
  Bool-cases, Option-cases, inl, inr, Dict, lookup, ◌∙◌,
}
use interviewer.Floats.{Floats}
use interviewer.Values.{Value, Result, ok, err}
use interviewer.ToolRecords.{
  ToolInvocationKey, same_key, fingerprint, ToolResult, ToolExecutionRecord,
  DurableToolExecutionRecord,
}
use interviewer.Tools.{Host, ToolSpec, Tool, resolve}
use interviewer.Governance.{
  ToolCall, lookup_key, insert_key, ToolGovernanceState, admit, admit_fresh, is_recoverable,
  count_again, pending_record, recovered_record, recovered_result, durable_result,
}
use interviewer.Execute.{
  ToolExecutor, ToolState, key_of, admission, begin_call, run_admitted, finish_call, after_persist,
  persist_durable, outcome, execute, record_result, set_result,
}
use interviewer.Execute.Repeats.{
  same_key_iff, lookup_key-insert_key, is_final, is_served, admit_final, repeat_call-records,
  admitted, admitted_by, execute_known, execute_final,
}
use interviewer.Execute.Once.{
  persist_durable-governance, execute-HasSucceeded, same_key_of, final_of_ok,
}

module _ ⦃F : Floats⦄ ⦃H : Host⦄ where
  -- The key has a record after which its call does not run again.
  pub record IsSettled (g : ToolGovernanceState) (key : ToolInvocationKey) : Type 0 where
    pub old : ToolExecutionRecord
    pub found : lookup_key g.records key ≡ some old
    pub final : is_final old.result ≡ true

  insert_other-IsSettled :
      (g h : ToolGovernanceState) (k key : ToolInvocationKey) (r : ToolExecutionRecord)
      → h.records ≡ insert_key g.records k r
      → same_key k key ≡ false
      → IsSettled g key
      → IsSettled h key
  insert_other-IsSettled g h k key r e other settled = record {
    old = settled.old;
    found = rw (e, lookup_key-insert_key g.records k key r, other) settled.found;
    final = settled.final;
  }

  insert_same-IsSettled :
      (g h : ToolGovernanceState) (k key : ToolInvocationKey) (r : ToolExecutionRecord)
      → h.records ≡ insert_key g.records k r
      → same_key k key ≡ true
      → is_final r.result ≡ true
      → IsSettled h key
  insert_same-IsSettled g h k key r e same final = record {
    old = r;
    found = rw (e, lookup_key-insert_key g.records k key r, same) refl;
    final = final;
  }

  insert-IsSettled :
      (g h : ToolGovernanceState) (k key : ToolInvocationKey) (r : ToolExecutionRecord)
      → h.records ≡ insert_key g.records k r
      → (same_key k key ≡ true → is_final r.result ≡ true)
      → IsSettled g key
      → IsSettled h key
  insert-IsSettled g h k key r e final settled = elim (Bool-cases (same_key k key)) [
    | inl same ↦ insert_same-IsSettled g h k key r e same (final same)
    | inr other ↦ insert_other-IsSettled g h k key r e other settled
  ]

  admit_fresh-IsSettled :
      (g : ToolGovernanceState) (spec : ToolSpec) (c : ToolCall) (k key : ToolInvocationKey)
      (round : ℕ) (o : Option ToolExecutionRecord)
      → lookup_key g.records k ≡ o
      → IsSettled g key
      → IsSettled (admit_fresh g spec c k round o).1 key
  unfolding admit_fresh
  admit_fresh-IsSettled g spec c k key round none e settled =
      insert-IsSettled g _ k key (pending_record k c round) refl (λ same. refl) settled
  admit_fresh-IsSettled g spec c k key round (some prior) e settled =
      let again = count_again prior round in
      let g' : ToolGovernanceState = record g { records = insert_key g.records k again } in
      let kept = repeat_call-records g' spec c k again.invocation_count again.result in
      insert-IsSettled g _ k key again kept.0
        (λ same.
          let here : k ≡ key = (same_key_iff k key).0 same in
          let both : some prior ≡ some settled.old = sym e ∙ rw here settled.found in
          let is_old : prior ≡ settled.old = cc in rw is_old settled.final)
        settled

  admit-IsSettled :
      (g : ToolGovernanceState) (durable : Dict DurableToolExecutionRecord) (spec : ToolSpec)
      (c : ToolCall) (k key : ToolInvocationKey) (round : ℕ)
      → IsSettled g key
      → IsSettled (admit g durable spec c k round).1 key
  unfolding admit
  admit-IsSettled g durable spec c k key round settled =
      elim (Bool-cases (is_recoverable (lookup durable (fingerprint k)))) [
        | inl e ↦ rw e (
            let r = recovered_result c (durable_result (lookup durable (fingerprint k))) in
            insert-IsSettled g _ k key (recovered_record k c round r) refl (λ same. ground arith)
              settled)
        | inr e ↦
            rw e (admit_fresh-IsSettled g spec c k key round (lookup_key g.records k) refl settled)
      ]

module _ ⦃F : Floats⦄ ⦃H : Host⦄ where
  record_result-IsSettled :
      (spec : ToolSpec) (k key : ToolInvocationKey) (r : ToolResult) (g : ToolGovernanceState)
      → same_key k key ≡ false
      → IsSettled g key
      → IsSettled (record_result spec k r g) key
  unfolding record_result set_result
  record_result-IsSettled spec k key r g other settled = of_record (lookup_key g.records k) refl
    where
      of_record :
          (o : Option ToolExecutionRecord)
          → lookup_key g.records k ≡ o
          → IsSettled (record_result spec k r g) key
      of_record none e = record {
        old = settled.old;
        found = rw e settled.found;
        final = settled.final;
      }
      of_record (some prior) e =
          insert_other-IsSettled g _ k key (record prior { status = r.status; result = some r })
            (rw e refl) other settled

  after_persist-state :
      (r : ToolResult) (p : Result (Unit {0}) × ToolState) → (after_persist r p).1 ≡ p.1
  unfolding after_persist
  after_persist-state r (ok u, s) = refl
  after_persist-state r (err e, s) = refl

  finish_call-governance :
      (x : ToolExecutor) (c : ToolCall) (tool : Tool) (k : ToolInvocationKey) (value : Result Value)
      (s : ToolState)
      → (finish_call x c (some (tool, k)) value s).1.governance
        ≡ record_result tool.spec k (outcome x.context c value (H.elapsed_ms s.world)) s.governance
  unfolding finish_call
  finish_call-governance x c tool k value s =
      let made = outcome x.context c value (H.elapsed_ms s.world) in
      let t : ToolState = record s { governance = record_result tool.spec k made s.governance } in
      ap (λ (u : ToolState). u.governance)
        (after_persist-state made (persist_durable x tool k made s.durable_records t))
      ∙ persist_durable-governance x tool k made s.durable_records t

  run_admitted-IsSettled :
      (x : ToolExecutor) (c : ToolCall) (tool : Tool) (k key : ToolInvocationKey)
      (o : Option ToolResult) (s : ToolState)
      → (is_served o ≡ true) ⊎ (same_key k key ≡ false)
      → IsSettled s.governance key
      → IsSettled (run_admitted x c (admission tool k o) s).1.governance key
  unfolding run_admitted admission
  run_admitted-IsSettled x c tool k key (some r) s why settled = settled
  run_admitted-IsSettled x c tool k key none s (inl served) settled = cc
  run_admitted-IsSettled x c tool k key none s (inr other) settled =
      rw (finish_call-governance x c tool k _ _)
        (record_result-IsSettled tool.spec k key _ s.governance other settled)

  unknown-governance :
      (x : ToolExecutor) (c : ToolCall) (round : ℕ) (s : ToolState)
      → lookup x.registry c.name ≡ none
      → (execute x c round s).1.governance ≡ s.governance
  unfolding execute begin_call resolve run_admitted finish_call
  unknown-governance x c round s unknown = simp (unknown)

  execute-IsSettled :
      (x : ToolExecutor) (key : ToolInvocationKey) (c : ToolCall) (round : ℕ) (s : ToolState)
      → x.version_for ≡ none
      → IsSettled s.governance key
      → IsSettled (execute x c round s).1.governance key
  execute-IsSettled x key c round s no_resolver settled =
      elim (Option-cases (lookup x.registry c.name)) [
        | inl unknown ↦ rw (unknown-governance x c round s unknown) settled
        | inr (tool, known) ↦
            let k = key_of c none in
            let durable = or_else s.durable_records [] in
            let p = admitted_by s tool.spec c k round in
            let kept : IsSettled p.1 key =
              admit-IsSettled s.governance durable tool.spec c k key round settled in
            let why : (is_served p.0 ≡ true) ⊎ (same_key k key ≡ false) =
              elim (Bool-cases (same_key k key)) [
                | inr other ↦ inr other
                | inl same ↦
                    let here : key ≡ k = sym ((same_key_iff k key).0 same) in
                    inl (
                      admit_final s.governance durable tool.spec c k round settled.old
                        (rw here at settled.found) settled.final)
              ] in
            rw (execute_known x c round s tool no_resolver known)
              (run_admitted-IsSettled x c tool k key p.0 (admitted s p) why kept)
      ]

  -- The state after calls, each with its round, one after the other.
  abbrev pub after_calls : ToolExecutor → List (ToolCall × ℕ) → ToolState → ToolState
  after_calls x [] s = s
  after_calls x ((c, round) ∷ calls) s = after_calls x calls (execute x c round s).1

  after_calls-IsSettled :
      (x : ToolExecutor) (key : ToolInvocationKey) (calls : List (ToolCall × ℕ)) (s : ToolState)
      → x.version_for ≡ none
      → IsSettled s.governance key
      → IsSettled (after_calls x calls s).governance key
  after_calls-IsSettled x key [] s no_resolver settled = settled
  after_calls-IsSettled x key ((c, round) ∷ calls) s no_resolver settled =
      after_calls-IsSettled x key calls (execute x c round s).1 no_resolver
        (execute-IsSettled x key c round s no_resolver settled)

  -- After a call of a registered tool has succeeded, and after any calls that follow one by one, a call
  -- of the same tool with arguments of the same canonical text leaves the world and the durable records
  -- as they were. There is no version resolver.
  pub execute_once :
      (x : ToolExecutor) (c again : ToolCall) (between : List (ToolCall × ℕ)) (round later : ℕ)
      (s s' : ToolState) (tool : Tool) (r : ToolResult)
      → x.version_for ≡ none
      → lookup x.registry c.name ≡ some tool
      → execute x c round s ≡ (ok r, s')
      → r.ok ≡ true
      → again.name ≡ c.name
      → H.dumps_sorted again.arguments ≡ H.dumps_sorted c.arguments
      → let before = after_calls x between s' in
        ((execute x again later before).1.world ≡ before.world)
        × ((execute x again later before).1.durable_records ≡ before.durable_records)
  execute_once x c again between round later s s' tool r no_resolver known h is_good named argued =
      let done = execute-HasSucceeded x c round s s' tool r no_resolver known h is_good in
      let settled : IsSettled s'.governance (key_of c none) = record {
        old = done.old;
        found = done.found;
        final = final_of_ok done.old.result done.succeeded;
      } in
      let still = after_calls-IsSettled x (key_of c none) between s' no_resolver settled in
      let same : key_of again none ≡ key_of c none = same_key_of again c named argued in
      execute_final x again later (after_calls x between s') tool still.old no_resolver
        (rw named known) (rw same still.found) still.final
