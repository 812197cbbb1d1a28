-- ===== src/Batch/Groups.antt =====
-- The calls that wait to run in parallel.
use interviewer.Prelude.{
  ℕ, suc, ◌⊎◌, ◌≡◌, refl, Bool, true, false, not, ◌&&◌, Option, List, [], ◌∷◌, ◌++◌, All, any,
  Bool-cases, inl, inr, String,
}
use interviewer.Floats.{Floats}
use interviewer.Values.{Result, ok, err}
use interviewer.Exec.{Exec}
use interviewer.Exec.Ensures.{Ensures, Ensures-pure, Ensures-bind}
use interviewer.ToolRecords.{same_key}
use interviewer.Tools.{Host, Tool, resolve}
use interviewer.Governance.{ToolCall}
use interviewer.Execute
use interviewer.Execute.{ToolExecutor, ToolState}
use interviewer.Batch.{
  Member, Batch, empty_batch, same_resource, flush_members, run_alone, place, take_known,
  take_unknown, take_call, take_calls, invocation_key, put_group, gather, tasks_of, resource_of,
}
use interviewer.Batch.Places.{All-snoc}

module _ ⦃F : Floats⦄ ⦃H : Host⦄ where
  -- The tool of a member is registered and may run in parallel, and its resource is that of the call.
  abbrev MayRun : ToolExecutor → Member → Type 0
  MayRun x m =
      (tool : Tool) × (resolve x.registry m.member_call.name ≡ ok tool)
      × (tool.spec.parallel_safe ≡ true)
      × (m.resource ≡ x.resource_key tool.spec m.member_call.arguments)

  -- No two have the same resource.
  abbrev Apart : List Member → Type 0
  Apart [] = Unit
  Apart (m ∷ ms) = All (λ n. same_resource m.resource n.resource ≡ false) ms × Apart ms

  -- A group that may run in parallel.
  pub record IsParallel (x : ToolExecutor) (ms : List Member) : Type 0 where
    pub mode : (ms ≡ []) ⊎ (x.is_parallel ≡ true)
    pub may_run : All (MayRun x) ms
    pub apart : Apart ms

  none-IsParallel : (x : ToolExecutor) → IsParallel x []
  none-IsParallel x = record { mode = inl refl; may_run = tt; apart = tt }

  Apart-snoc :
      (ms : List Member) (m : Member)
      → Apart ms
      → any (λ n. same_resource n.resource m.resource) ms ≡ false
      → Apart (ms ++ (m ∷ []))
  Apart-snoc [] m h free = (tt, tt)
  Apart-snoc (n ∷ ms) m h free = elim (Bool-cases (same_resource n.resource m.resource)) [
    | inl clash ↦ cc (rw clash at free)
    | inr fine ↦ (
      All-snoc (λ k. same_resource n.resource k.resource ≡ false) ms m h.0 fine,
      Apart-snoc ms m h.1 (rw fine at free),
    )
  ]

  module _ (x : ToolExecutor) (round : ℕ) (schedule : List ℕ) where
    abbrev Fine : Batch → Type 0
    Fine b = IsParallel x b.safe_group

    abbrev Whatever : {A : Type 0} → A → Type 0
    Whatever a = Unit

    whatever : {A : Type 0} (m : Exec ToolState A) → Ensures m Whatever
    whatever m = λ s s' a e. tt

    flush_members-Fine :
        (ms : List Member) (b : Batch) → Fine b → Ensures (flush_members x round schedule ms b) Fine
    unfolding flush_members
    flush_members-Fine [] b h = Ensures-pure Fine b h
    flush_members-Fine (m ∷ []) b h =
        Ensures-bind Whatever Fine _ _ (whatever (Execute.execute x m.member_call round)) (λ r _.
          Ensures-bind Whatever Fine _ _ (whatever (resource_of x m.member_call))
            (λ resource _. Ensures-pure Fine _ (none-IsParallel x)))
    flush_members-Fine (m ∷ n ∷ ms) b h =
        Ensures-bind Whatever Fine _ _ (whatever (gather x round schedule (tasks_of (m ∷ n ∷ ms))))
          (λ rs _.
            Ensures-bind Whatever Fine _ _ (whatever (put_group x (m ∷ n ∷ ms) rs _))
              (λ b' _. Ensures-pure Fine _ (none-IsParallel x)))

    run_alone-Fine :
        (i : ℕ) (c : ToolCall) (resource : Option String) (b : Batch)
        → Fine b
        → Ensures (run_alone x round schedule i c resource b) Fine
    unfolding run_alone
    run_alone-Fine i c resource b h =
        Ensures-bind Fine Fine _ _ (flush_members-Fine b.safe_group b h) (λ b' h'.
          Ensures-bind Whatever Fine _ _ (whatever (Execute.execute x c round))
            (λ r _. Ensures-pure Fine _ h'))

    both : (a b : Bool) → not (a && b) ≡ false → (a ≡ true) × (b ≡ true)
    both true true e = (refl, refl)
    both true false e = cc
    both false b e = cc

    place-Fine :
        (i : ℕ) (c : ToolCall) (tool : Tool) (b : Batch)
        → resolve x.registry c.name ≡ ok tool
        → Fine b
        → Ensures (place x round schedule i c tool b) Fine
    unfolding place
    place-Fine i c tool b found h =
        let resource = x.resource_key tool.spec c.arguments in
        elim (Bool-cases (not (tool.spec.parallel_safe && x.is_parallel))) [
          | inl alone ↦ rw alone (run_alone-Fine i c resource b h)
          | inr safe ↦
              elim (Bool-cases (any (λ m. same_resource m.resource resource) b.safe_group)) [
                | inl conflict ↦ rw (safe, conflict) (run_alone-Fine i c resource _ h)
                | inr free ↦
                    rw (safe, free)
                      (Ensures-pure Fine _ (record {
                        mode = inr (both tool.spec.parallel_safe x.is_parallel safe).1;
                        may_run = All-snoc (MayRun x) b.safe_group _ h.may_run (
                          tool,
                          found,
                          (both tool.spec.parallel_safe x.is_parallel safe).0,
                          refl,
                        );
                        apart = Apart-snoc b.safe_group _ h.apart free;
                      }))
              ]
        ]

    take_known-Fine :
        (i : ℕ) (c : ToolCall) (tool : Tool) (b : Batch)
        → resolve x.registry c.name ≡ ok tool
        → Fine b
        → Ensures (take_known x round schedule i c tool b) Fine
    unfolding take_known
    take_known-Fine i c tool b found h =
        Ensures-bind Whatever Fine _ _ (whatever (invocation_key x tool c)) (λ key _.
          elim (Bool-cases (any (same_key key) b.seen_keys)) [
            | inl seen ↦ rw seen (Ensures-pure Fine _ h)
            | inr new ↦ rw new (place-Fine i c tool _ found h)
          ])

    take_call-Fine :
        (i : ℕ) (c : ToolCall) (b : Batch)
        → Fine b
        → Ensures (take_call x round schedule i c b) Fine
    unfolding take_call take_unknown
    take_call-Fine i c b h = of_tool (resolve x.registry c.name) refl
      where
        of_tool :
            (t : Result Tool)
            → resolve x.registry c.name ≡ t
            → Ensures
                (elim t [
                  | err e ↦ take_unknown x round i c b
                  | ok tool ↦ take_known x round schedule i c tool b
                ])
                Fine
        of_tool (ok tool) found = take_known-Fine i c tool b found h
        of_tool (err e) found =
            Ensures-bind Whatever Fine _ _ (whatever (Execute.execute x c round))
              (λ r _. Ensures-pure Fine _ h)

  fine_after :
      (x : ToolExecutor) (round : ℕ) (schedules : ℕ → List ℕ) (i : ℕ) (cs : List ToolCall)
      (b : Batch)
      → IsParallel x b.safe_group
      → Ensures (take_calls x round schedules i cs b) (λ b'. IsParallel x b'.safe_group)
  unfolding take_calls
  fine_after x round schedules i [] b h = Ensures-pure (λ b'. IsParallel x b'.safe_group) b h
  fine_after x round schedules i (c ∷ cs) b h =
      Ensures-bind (λ b'. IsParallel x b'.safe_group) (λ b'. IsParallel x b'.safe_group) _ _
        (take_call-Fine x round (schedules i) i c b h)
        (λ b' h'. fine_after x round schedules (suc i) cs b' h')

  -- After any number of calls of a batch, the group that waits to run in parallel has only
  -- registered tools that are safe in parallel, no two of its calls have the same resource, and it
  -- is empty unless the executor runs in parallel.
  pub take_calls-IsParallel :
      (x : ToolExecutor) (round : ℕ) (schedules : ℕ → List ℕ) (cs : List ToolCall)
      (s s' : ToolState) (b : Batch)
      → take_calls x round schedules 0 cs empty_batch s ≡ (ok b, s')
      → IsParallel x b.safe_group
  take_calls-IsParallel x round schedules cs s s' b e =
      fine_after x round schedules 0 cs empty_batch (none-IsParallel x) s s' b e
