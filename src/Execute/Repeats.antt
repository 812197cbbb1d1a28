-- ===== src/Execute/Repeats.antt =====
-- Repeated calls under governance: when a call runs again, and what a repeat returns.
use interviewer.Prelude.{
  ℕ, String, str_eq, eq_iff, ◌≡◌, ◌↔◌, refl, Bool, true, false, not, ◌||◌, Option, none, some, List,
  [], ◌∷◌, arith, if◌then◌else◌, or_else, Bool-cases, inl, inr, Dict, lookup,
}
use interviewer.Floats.{Floats}
use interviewer.ToolRecords.{
  ToolInvocationKey, same_key, option_eq, fingerprint, ToolResult, ToolExecutionRecord,
  DurableToolExecutionRecord,
}
use interviewer.Tools.{Host, ToolSpec, Tool, resolve}
use interviewer.Governance.{
  ToolCall, lookup_key, insert_key, ToolGovernanceState, admit, admit_fresh, repeat_call, repeat_ok,
  is_recoverable, count_again, pending_record, recovered_record,
}
use interviewer.Execute.{
  ToolExecutor, ToolState, key_of, begin_call, run_admitted, execute, admission, record_result,
  set_result,
}

option_eq_iff : (a b : Option String) → (option_eq a b ≡ true) ↔ (a ≡ b)
option_eq_iff none none = ground arith
option_eq_iff none (some b) = ground arith
option_eq_iff (some a) none = ground arith
option_eq_iff (some a) (some b) = ground (arith, eq_iff a b)

pub same_key_iff : (a b : ToolInvocationKey) → (same_key a b ≡ true) ↔ (a ≡ b)
unfolding same_key
same_key_iff a b = (
  λ h. ground (
    arith,
    eq_iff a.tool_name b.tool_name,
    eq_iff a.normalized_arguments b.normalized_arguments,
    option_eq_iff a.resource_version b.resource_version,
  ),
  λ h. ground (
    arith,
    eq_iff a.tool_name b.tool_name,
    eq_iff a.normalized_arguments b.normalized_arguments,
    option_eq_iff a.resource_version b.resource_version,
  ),
)

module _ {V : Type 0} where
  pub lookup_key-insert_key :
      (d : List (ToolInvocationKey × V)) (k j : ToolInvocationKey) (v : V)
      → lookup_key (insert_key d k v) j ≡ (if same_key k j then some v else lookup_key d j)
  unfolding lookup_key insert_key
  lookup_key-insert_key [] k j v = refl
  lookup_key-insert_key ((i, w) ∷ d) k j v =
      ground
        (arith, same_key_iff i k, same_key_iff k j, same_key_iff i j, lookup_key-insert_key d k j v)

  pub lookup_key-insert_key_self :
      (d : List (ToolInvocationKey × V)) (k : ToolInvocationKey) (v : V)
      → lookup_key (insert_key d k v) k ≡ some v
  lookup_key-insert_key_self d k v = rw (lookup_key-insert_key d k k v, (same_key_iff k k).1 refl)

module _ ⦃F : Floats⦄ where
  -- A record after which the same call does not run again: there is no result, or one that is ok
  -- or no retryable error.
  abbrev pub is_final : Option ToolResult → Bool
  is_final none = true
  is_final (some r) = r.ok || not (str_eq r.status "retryable_error")

  abbrev pub is_ok : Option ToolResult → Bool
  is_ok none = false
  is_ok (some r) = r.ok

  abbrev pub is_served : Option ToolResult → Bool
  is_served none = false
  is_served (some r) = true

  repeat_ok_served :
      (g : ToolGovernanceState) (spec : ToolSpec) (c : ToolCall) (key : ToolInvocationKey)
      (count : ℕ) (r : ToolResult)
      → is_served (repeat_ok g spec c key count r).0 ≡ true
  unfolding repeat_ok
  repeat_ok_served g spec c key count r = ground arith

  repeat_call_final :
      (g : ToolGovernanceState) (spec : ToolSpec) (c : ToolCall) (key : ToolInvocationKey)
      (count : ℕ) (r : Option ToolResult)
      → is_final r ≡ true
      → is_served (repeat_call g spec c key count r).0 ≡ true
  unfolding repeat_call
  repeat_call_final g spec c key count none h = refl
  repeat_call_final g spec c key count (some r) h =
      ground (arith, repeat_ok_served g spec c key count r)

  -- A call of a key that succeeded durably, or whose record is final, is settled at once.
  pub admit_final :
      (g : ToolGovernanceState) (durable : Dict DurableToolExecutionRecord) (spec : ToolSpec)
      (c : ToolCall) (key : ToolInvocationKey) (round : ℕ) (old : ToolExecutionRecord)
      → lookup_key g.records key ≡ some old
      → is_final old.result ≡ true
      → is_served (admit g durable spec c key round).0 ≡ true
  unfolding admit admit_fresh
  admit_final g durable spec c key round old found final =
      elim (Bool-cases (is_recoverable (lookup durable (fingerprint key)))) [
        | inl e ↦ rw e refl
        | inr e ↦ rw (e, found) (repeat_call_final _ spec c key _ old.result final)
      ]

module _ ⦃F : Floats⦄ ⦃H : Host⦄ where
  -- The state between the governance of a call and its execution.
  abbrev pub admitted : ToolState → Option ToolResult × ToolGovernanceState → ToolState
  admitted s r = record s { governance = r.1 }

  abbrev pub admitted_by :
      ToolState
      → ToolSpec
      → ToolCall
      → ToolInvocationKey
      → ℕ
      → Option ToolResult × ToolGovernanceState
  admitted_by s spec c key round =
      admit s.governance (or_else s.durable_records []) spec c key round

  -- `execute` of a known tool where there is no version resolver.
  pub execute_known :
      (x : ToolExecutor) (c : ToolCall) (round : ℕ) (s : ToolState) (tool : Tool)
      → x.version_for ≡ none
      → lookup x.registry c.name ≡ some tool
      → execute x c round s ≡ (
          let r = admitted_by s tool.spec c (key_of c none) round in
          run_admitted x c (admission tool (key_of c none) r.0) (admitted s r))
  unfolding execute begin_call resolve
  execute_known x c round s tool no_resolver known = simp (no_resolver, known)

  settled_keeps :
      (x : ToolExecutor) (c : ToolCall) (tool : Tool) (key : ToolInvocationKey)
      (o : Option ToolResult) (s : ToolState)
      → is_served o ≡ true
      → ((run_admitted x c (admission tool key o) s).1.world ≡ s.world)
        × ((run_admitted x c (admission tool key o) s).1.durable_records ≡ s.durable_records)
  unfolding run_admitted admission
  settled_keeps x c tool key none s h = cc
  settled_keeps x c tool key (some r) s h = (refl, refl)

  -- A call whose key has a record that is final, having no result yet, a success or an error that
  -- is not retryable, leaves the world and the durable records as they were. The tool is
  -- registered, and there is no version resolver, which could itself change the world.
  pub execute_final :
      (x : ToolExecutor) (c : ToolCall) (round : ℕ) (s : ToolState) (tool : Tool)
      (old : ToolExecutionRecord)
      → x.version_for ≡ none
      → lookup x.registry c.name ≡ some tool
      → lookup_key s.governance.records (key_of c none) ≡ some old
      → is_final old.result ≡ true
      → ((execute x c round s).1.world ≡ s.world)
        × ((execute x c round s).1.durable_records ≡ s.durable_records)
  unfolding run_admitted admission
  execute_final x c round s tool old no_resolver known found final =
      rw (execute_known x c round s tool no_resolver known) (
        settled_keeps x c tool (key_of c none) _ _
          (admit_final s.governance _ tool.spec c (key_of c none) round old found final))

  -- The key has a record with a result that is ok.
  pub record HasSucceeded (g : ToolGovernanceState) (key : ToolInvocationKey) : Type 0 where
    pub old : ToolExecutionRecord
    pub found : lookup_key g.records key ≡ some old
    pub succeeded : is_ok old.result ≡ true

  repeat_ok-records :
      (g : ToolGovernanceState) (spec : ToolSpec) (c : ToolCall) (key : ToolInvocationKey)
      (count : ℕ) (r : ToolResult)
      → (repeat_ok g spec c key count r).1.records ≡ g.records
  unfolding repeat_ok
  repeat_ok-records g spec c key count r = ground arith

  -- The records are as before, and what is served as a success had one.
  pub repeat_call-records :
      (g : ToolGovernanceState) (spec : ToolSpec) (c : ToolCall) (key : ToolInvocationKey)
      (count : ℕ) (o : Option ToolResult)
      → ((repeat_call g spec c key count o).1.records ≡ g.records)
        × (is_ok (repeat_call g spec c key count o).0 ≡ true → is_ok o ≡ true)
  unfolding repeat_call
  repeat_call-records g spec c key count none = ground arith
  repeat_call-records g spec c key count (some r) =
      ground (arith, repeat_ok-records g spec c key count r)

  insert-HasSucceeded :
      (g : ToolGovernanceState) (key : ToolInvocationKey) (r : ToolExecutionRecord)
      → lookup_key g.records key ≡ some r
      → is_ok r.result ≡ true
      → HasSucceeded g key
  insert-HasSucceeded g key r e h = record { old = r; found = e; succeeded = h }

  admit_fresh-HasSucceeded :
      (g : ToolGovernanceState) (spec : ToolSpec) (c : ToolCall) (key : ToolInvocationKey)
      (round : ℕ) (o : Option ToolExecutionRecord)
      → is_ok (admit_fresh g spec c key round o).0 ≡ true
      → HasSucceeded (admit_fresh g spec c key round o).1 key
  unfolding admit_fresh
  admit_fresh-HasSucceeded g spec c key round none h = cc
  admit_fresh-HasSucceeded g spec c key round (some prior) h =
      let again = count_again prior round in
      let g' : ToolGovernanceState = record g { records = insert_key g.records key again } in
      let (same, was_ok) = repeat_call-records g' spec c key again.invocation_count again.result in
      insert-HasSucceeded _ key again (rw same (lookup_key-insert_key_self g.records key again))
        (was_ok h)

  pub admit-HasSucceeded :
      (g : ToolGovernanceState) (durable : Dict DurableToolExecutionRecord) (spec : ToolSpec)
      (c : ToolCall) (key : ToolInvocationKey) (round : ℕ)
      → is_ok (admit g durable spec c key round).0 ≡ true
      → HasSucceeded (admit g durable spec c key round).1 key
  unfolding admit
  admit-HasSucceeded g durable spec c key round =
      elim (Bool-cases (is_recoverable (lookup durable (fingerprint key)))) [
        | inl e ↦
            rw e (λ h. insert-HasSucceeded _ key _ (lookup_key-insert_key_self g.records key _) h)
        | inr e ↦ rw e (admit_fresh-HasSucceeded g spec c key round (lookup_key g.records key))
      ]

  admit_fresh_go_ahead :
      (g : ToolGovernanceState) (spec : ToolSpec) (c : ToolCall) (key : ToolInvocationKey)
      (round : ℕ) (o : Option ToolExecutionRecord)
      → (old : ToolExecutionRecord) × (lookup_key (admit_fresh g spec c key round o).1.records key
          ≡ some old)
  unfolding admit_fresh
  admit_fresh_go_ahead g spec c key round none =
      (pending_record key c round, lookup_key-insert_key_self g.records key _)
  admit_fresh_go_ahead g spec c key round (some prior) =
      let again = count_again prior round in
      let g' : ToolGovernanceState = record g { records = insert_key g.records key again } in
      let (same, _) = repeat_call-records g' spec c key again.invocation_count again.result in
      (again, rw same (lookup_key-insert_key_self g.records key again))

  -- After its governance a call has a record.
  pub admit_recorded :
      (g : ToolGovernanceState) (durable : Dict DurableToolExecutionRecord) (spec : ToolSpec)
      (c : ToolCall) (key : ToolInvocationKey) (round : ℕ)
      → (old : ToolExecutionRecord) × (lookup_key (admit g durable spec c key round).1.records key
          ≡ some old)
  unfolding admit
  admit_recorded g durable spec c key round =
      elim (Bool-cases (is_recoverable (lookup durable (fingerprint key)))) [
        | inl e ↦ rw e (recovered_record key c round _, lookup_key-insert_key_self g.records key _)
        | inr e ↦ rw e (admit_fresh_go_ahead g spec c key round (lookup_key g.records key))
      ]

  pub record_result-HasSucceeded :
      (spec : ToolSpec) (key : ToolInvocationKey) (r : ToolResult) (g : ToolGovernanceState)
      (old : ToolExecutionRecord)
      → lookup_key g.records key ≡ some old
      → r.ok ≡ true
      → HasSucceeded (record_result spec key r g) key
  unfolding record_result set_result
  record_result-HasSucceeded spec key r g old found h =
      insert-HasSucceeded _ key (record old { status = r.status; result = some r })
        (rw found (lookup_key-insert_key_self g.records key _)) h
