-- ===== src/Runtime/Step/Nearer.antt =====
-- A step that returns brings a session that does not rest nearer to rest
-- (src/interview_agent_runtime/runtime/interview_runtime.py).
use interviewer.Prelude.{
  String, ◌≡◌, refl, sym, ap, ◌∙◌, false, ◌++◌, Option, none, some, inl, inr, Bool-cases,
  Option-cases, lookup, insert, arith, [], ◌∷◌,
}
use interviewer.Floats.{Floats}
use interviewer.Unicode.{Unicode}
use interviewer.Values.{Error, ok, Result-cases}
use interviewer.Stage.{
  InterviewStage, init, profile_analysis, interview_planning, question_preparing, questioning,
  listening, evaluating, decision, follow_up, next_question, next_dimension, reporting,
  waiting_human_review, finished, failed,
}
use interviewer.Artifacts.{AgentArtifact}
use interviewer.Blackboard.{InterviewBlackboard, publish}
use interviewer.Blackboard.Publishing.{publish-stage}
use interviewer.Context.Views.{build-OnlyPlan}
use interviewer.Skills.{SkillDefinition, resolve_skill}
use interviewer.TaskExecutor.{ExecutionResult}
use interviewer.Runtime.{
  Outside, RuntimeState, RuntimeStepResult, InterviewRuntime, Agent, AgentRunContext, resolve_agent,
  advance, bind, post, session_trace, load_context,
}
use interviewer.Runtime.Answers.{load_context_found}
use interviewer.Exec.{◌>>=◌, ◌>>◌}
use interviewer.Events.{agent_started}
use interviewer.TaskExecutor.Keeping.{execute-keeps}
use interviewer.TaskExecutor
use interviewer.Runtime.Step.{
  accept_artifact, publish_live, review_events, run_step, step_in_stage, run_agent, view_for,
  attempt_agent, policy_of, settle_step, fail_step, is_schema_valid, review,
}
use interviewer.Runtime.Loop.{is_resting}
use interviewer.Runtime.Progress.{
  KeepsSession, view, kept_session, saved_found, IsNear, steps_left, saved-IsNear, advance-near,
  review-near, busy_steps,
}

module _ ⦃F : Floats⦄ ⦃U : Unicode⦄ ⦃E : Outside⦄ (rt : InterviewRuntime) (session : String)
    (previous : InterviewStage) (skill : SkillDefinition) (r : RuntimeStepResult)
    (s' : RuntimeState) where
  module _ (artifact : AgentArtifact) (context : InterviewBlackboard) (t : RuntimeState) where
    abbrev published : InterviewBlackboard
    published = (publish (E.now t.outside) artifact context).1

    abbrev live : RuntimeState
    live = record t { store = insert t.store published.session_id published }

    abbrev moved : InterviewBlackboard
    moved = advance rt previous (some artifact) published live

    -- The blackboard that is saved after an artifact was taken.
    abbrev taken : InterviewBlackboard
    taken = (review rt artifact moved).1

    accept-store :
        accept_artifact rt session previous skill artifact context t ≡ (ok r, s')
        → s'.store ≡ insert live.store taken.session_id taken
    unfolding accept_artifact publish_live review_events
    accept-store h = elim (Bool-cases (is_schema_valid artifact skill.output_schema)) [
      | inr bad ↦ cc (rw bad at h)
      | inl good ↦ elim (Result-cases (publish (E.now t.outside) artifact context).0) [
        | inr (e, refused) ↦ cc (rw (good, refused) at h)
        | inl (u, fine) ↦ elim (Option-cases (review rt artifact moved).0) [
          | inl plain ↦ let h' = rw (good, fine, plain) at h in ap (λ p. p.1.store) (sym h')
          | inr (d, decided) ↦
              let h' = rw (good, fine, decided) at h in ap (λ p. p.1.store) (sym h')
        ]
      ]
    ]

    accept-IsNear :
        context.session_id ≡ session
        → is_resting previous ≡ false
        → accept_artifact rt session previous skill artifact context t ≡ (ok r, s')
        → IsNear session (steps_left previous) s'
    accept-IsNear named busy h =
        let (same_id, _) = publish-stage (E.now t.outside) artifact context in
        let (advanced_id, nearer) = advance-near rt previous (some artifact) published live busy in
        let (reviewed_id, no_further) = review-near rt artifact moved in
        saved-IsNear session (steps_left previous) live.store taken s' (accept-store h)
          (reviewed_id ∙ advanced_id ∙ same_id ∙ named) (omega arith)

  fail-IsNear :
      (error : Option Error) (context : InterviewBlackboard) (t : RuntimeState)
      → context.session_id ≡ session
      → is_resting previous ≡ false
      → fail_step session previous error context t ≡ (ok r, s')
      → IsNear session (steps_left previous) s'
  unfolding fail_step
  fail-IsNear error context t named busy h =
      let board : InterviewBlackboard = record context {
        runtime_metadata = record context.runtime_metadata {
          errors = context.runtime_metadata.errors ++ (E.str_of error ∷ []);
        };
        current_stage = failed;
      } in
      saved-IsNear session (steps_left previous) t.store board s' (ap (λ p. p.1.store) (sym h))
        named (busy_steps previous busy)

  settle-IsNear :
      (result : ExecutionResult AgentArtifact) (context : InterviewBlackboard) (t : RuntimeState)
      → context.session_id ≡ session
      → is_resting previous ≡ false
      → settle_step rt session previous skill result context t ≡ (ok r, s')
      → IsNear session (steps_left previous) s'
  unfolding settle_step
  settle-IsNear result context t named busy h = elim (Option-cases result.value) [
    | inl nothing ↦ fail-IsNear result.error context t named busy (rw nothing at h)
    | inr (artifact, given) ↦ elim (Bool-cases result.ok) [
      | inl good ↦ accept-IsNear artifact context t named busy (rw (given, good) at h)
      | inr bad ↦ fail-IsNear result.error context t named busy (rw (given, bad) at h)
    ]
  ]

module _ ⦃F : Floats⦄ ⦃U : Unicode⦄ ⦃E : Outside⦄ (rt : InterviewRuntime) (session run_id : String)
    (context : InterviewBlackboard) (s s' : RuntimeState) (r : RuntimeStepResult)
    (lawful : KeepsSession rt session) (found : lookup s.store session ≡ some context)
    (named : context.session_id ≡ session) (busy : is_resting context.current_stage ≡ false) where
  module _ (agent : Agent) (skill : SkillDefinition) where
    abbrev seen : InterviewBlackboard
    seen = (view_for rt session agent skill context).1

    seen-OnlyPlan : seen ≡ record context { interview_plan = seen.interview_plan }
    unfolding view_for
    seen-OnlyPlan =
        build-OnlyPlan rt.context_builder.dict_of rt.context_builder.budget agent.name context _

    -- The state in which the blackboard is stored with the plan that the view has left.
    abbrev viewed : RuntimeState
    viewed = record s { store = insert s.store seen.session_id seen }

    -- The state in which the first attempt of the agent begins.
    abbrev begun : AgentRunContext → RuntimeState
    begun run = ((bind session run.trace >> post agent_started session) viewed).1

    begun-IsNear :
        (run : AgentRunContext)
        → ((t : RuntimeState) → view session (agent.execute_run run t).2 ≡ view session t)
        → (let ended = TaskExecutor.execute (policy_of skill) (agent.execute_run run) (begun run) in
            ((attempt_agent agent run skill >>= λ result. load_context session >>= λ context'.
            settle_step rt session context.current_stage skill result context')
              (begun run))
            ≡ (ok r, s'))
        → IsNear session (steps_left context.current_stage) s'
    begun-IsNear run keeps h =
        let ended = TaskExecutor.execute (policy_of skill) (agent.execute_run run) (begun run) in
        let kept : view session ended.1 ≡ view session viewed =
          execute-keeps (policy_of skill) (agent.execute_run run) (view session) refl keeps
            (begun run) in
        let seen_id : seen.session_id ≡ session = ap (λ b. b.session_id) seen-OnlyPlan ∙ named in
        let (b, there, same_id) =
          kept_session session viewed ended.1 seen (saved_found session s.store seen seen_id)
            kept in
        settle-IsNear rt session context.current_stage skill r s' ended.0 b ended.1
          (same_id ∙ seen_id) busy (rw (load_context_found session ended.1 b there) at h)

  agent-IsNear :
      (agent : Agent) (stage : InterviewStage)
      → resolve_agent rt.agent_registry stage ≡ ok agent
      → run_agent rt session run_id context agent s ≡ (ok r, s')
      → IsNear session (steps_left context.current_stage) s'
  unfolding run_agent
  agent-IsNear agent stage resolved h = elim (Bool-cases (agent.stages context.current_stage)) [
    | inr refused ↦ cc (rw refused at h)
    | inl admitted ↦
        elim (Result-cases (resolve_skill rt.skill_registry (agent.required_skill context))) [
          | inr (e, unknown) ↦ cc (rw (admitted, unknown) at h)
          | inl (skill, known) ↦ elim (Result-cases (view_for rt session agent skill context).0) [
            | inr (e, failing) ↦ cc (rw (admitted, known, failing) at h)
            | inl (shown, made) ↦
                begun-IsNear agent skill _ (lawful stage agent resolved _)
                  (rw (admitted, known, made) at h)
          ]
        ]
  ]

  -- Without an agent.
  moved-IsNear :
      (stage : InterviewStage)
      → stage ≡ context.current_stage
      → s'.store
        ≡ insert s.store
            (advance rt stage none context s).session_id
            (advance rt stage none context s)
      → IsNear session (steps_left context.current_stage) s'
  moved-IsNear stage same e =
      let (same_id, nearer) = advance-near rt stage none context s (rw same busy) in
      saved-IsNear session (steps_left context.current_stage) s.store
        (advance rt stage none context s) s' e (same_id ∙ named)
        (let e : steps_left stage ≡ steps_left context.current_stage = ap steps_left same in
          omega arith)

  resolved-IsNear :
      (stage : InterviewStage)
      → ((λ t. (resolve_agent rt.agent_registry stage, t)) >>= run_agent rt session run_id context)
          s
        ≡ (ok r, s')
      → IsNear session (steps_left context.current_stage) s'
  resolved-IsNear stage h = elim (Result-cases (resolve_agent rt.agent_registry stage)) [
    | inr (e, unknown) ↦ cc (rw unknown at h)
    | inl (agent, known) ↦ agent-IsNear agent stage known (rw known at h)
  ]

  stage-IsNear :
      (stage : InterviewStage)
      → stage ≡ context.current_stage
      → step_in_stage rt session run_id context stage s ≡ (ok r, s')
      → IsNear session (steps_left context.current_stage) s'
  unfolding step_in_stage
  stage-IsNear questioning e h = moved-IsNear questioning e (ap (λ p. p.1.store) (sym h))
  stage-IsNear init e h = moved-IsNear init e (ap (λ p. p.1.store) (sym h))
  stage-IsNear finished e h = cc (rw (← e) at busy)
  stage-IsNear failed e h = cc (rw (← e) at busy)
  stage-IsNear waiting_human_review e h = cc (rw (← e) at busy)
  stage-IsNear profile_analysis e h = resolved-IsNear profile_analysis h
  stage-IsNear interview_planning e h = resolved-IsNear interview_planning h
  stage-IsNear question_preparing e h = resolved-IsNear question_preparing h
  stage-IsNear listening e h = resolved-IsNear listening h
  stage-IsNear evaluating e h = resolved-IsNear evaluating h
  stage-IsNear decision e h = resolved-IsNear decision h
  stage-IsNear follow_up e h = resolved-IsNear follow_up h
  stage-IsNear next_question e h = resolved-IsNear next_question h
  stage-IsNear next_dimension e h = resolved-IsNear next_dimension h
  stage-IsNear reporting e h = resolved-IsNear reporting h

module _ ⦃F : Floats⦄ ⦃U : Unicode⦄ ⦃E : Outside⦄ where
  -- A step that returns brings a session that does not rest nearer to rest.
  pub run_step-IsNear :
      (rt : InterviewRuntime) (session run_id : String) (context : InterviewBlackboard)
      (s s' : RuntimeState) (r : RuntimeStepResult)
      → KeepsSession rt session
      → lookup s.store session ≡ some context
      → context.session_id ≡ session
      → is_resting context.current_stage ≡ false
      → run_step rt session run_id s ≡ (ok r, s')
      → IsNear session (steps_left context.current_stage) s'
  unfolding run_step
  run_step-IsNear rt session run_id context s s' r lawful found named busy h =
      stage-IsNear rt session run_id context ((bind session (session_trace context)) s).1 s' r
        lawful found named busy context.current_stage refl
        (rw (load_context_found session s context found) at h)
