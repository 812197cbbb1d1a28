-- ===== src/Runtime/Step.antt =====
-- `run_step` (src/interview_agent_runtime/runtime/interview_runtime.py).
pub mod Nearer
pub mod Reports
use interviewer.Prelude.{
  String, str_eq, Bool, not, ◌||◌, Option, none, some, [], ◌∷◌, ◌++◌, if◌then◌else◌,
}
use interviewer.Floats.{Floats}
use interviewer.Unicode.{Unicode}
use interviewer.Values.{Error, type_error, runtime_error, Result, ok}
use interviewer.Exec.{Exec, pure, raise, gets, ◌>>=◌, ◌>>◌}
use interviewer.Stage.{InterviewStage, init, questioning, waiting_human_review, finished, failed}
use interviewer.Artifacts.{
  AgentArtifact, candidate_profile, interview_plan, question, answer, evaluation,
  follow_up_decision, interview_report, other,
}
use interviewer.Blackboard.{InterviewBlackboard, publish}
use interviewer.Tools.{authorize}
use interviewer.Skills.{SkillDefinition, ExecutionStrategy, resolve_skill}
use interviewer.Context.{AgentContext, ExecutionContext}
use interviewer.Context.Building.{build}
use interviewer.TaskExecutor
use interviewer.TaskExecutor.{ExecutionPolicy, ExecutionResult}
use interviewer.Review.{ReviewDecision, requires_human_review, review_status, evaluate}
use interviewer.Events.{
  RuntimeEventType, profile_created, plan_created, question_generated, question_asked,
  answer_evaluated, follow_up_decided, state_transitioned, agent_started, agent_finished,
  checkpoint_created, report_generated, review_required, review_auto_completed,
  runtime_error as runtime_error_event,
}
use interviewer.Runtime.{
  Outside, RuntimeOutcome, RuntimeState, AgentRunContext, Agent, resolve_agent, InterviewRuntime,
  RuntimeStepResult, mutate, save, post, bind, session_trace, load_context, advance, step_result,
  completed, failed_outcome, paused,
}

module _ ⦃F : Floats⦄ ⦃U : Unicode⦄ ⦃E : Outside⦄ where
  -- `type(artifact).__name__`
  abbrev pub class_name : AgentArtifact → String
  class_name (candidate_profile a) = "CandidateProfileArtifact"
  class_name (interview_plan a) = "InterviewPlanArtifact"
  class_name (question a) = "QuestionArtifact"
  class_name (answer a) = "AnswerArtifact"
  class_name (evaluation a) = "EvaluationArtifact"
  class_name (follow_up_decision a) = "FollowUpDecisionArtifact"
  class_name (interview_report a) = "InterviewReportArtifact"
  class_name (other b) = "AgentArtifact"

  unfoldable pub is_schema_valid : AgentArtifact → String → Bool
  is_schema_valid artifact schema = str_eq schema "" || str_eq (class_name artifact) schema

  artifact_event : AgentArtifact → RuntimeEventType
  artifact_event (candidate_profile a) = profile_created
  artifact_event (interview_plan a) = plan_created
  artifact_event (question a) = question_generated
  artifact_event (answer a) = checkpoint_created
  artifact_event (evaluation a) = answer_evaluated
  artifact_event (follow_up_decision a) = follow_up_decided
  artifact_event (interview_report a) = report_generated
  artifact_event (other b) = checkpoint_created

  -- The review of a report: the decision, and the blackboard that it leaves.
  unfoldable pub review :
      InterviewRuntime
      → AgentArtifact
      → InterviewBlackboard
      → Option ReviewDecision × InterviewBlackboard
  review rt (interview_report report) board =
      let d = evaluate rt.human_review_policy board report in
      (
        some d,
        record board {
          review_required = requires_human_review d;
          review_status = review_status d;
          review_reasons = d.reasons;
          current_stage =
              if requires_human_review d then waiting_human_review else board.current_stage;
        },
      )
  review rt _ board = (none, board)

  review_events : String → Option ReviewDecision → Exec RuntimeState (Unit {0})
  review_events session none = pure tt
  review_events session (some d) =
      post (if requires_human_review d then review_required else review_auto_completed) session

  abbrev pub outcome_of : InterviewStage → RuntimeOutcome
  outcome_of waiting_human_review = paused
  outcome_of _ = completed

  -- `context.publish`, which may refuse the artifact and leaves its time behind even then.
  publish_live : AgentArtifact → InterviewBlackboard → Exec RuntimeState InterviewBlackboard
  publish_live artifact context = do
    now ← gets (λ s. E.now s.outside)
    let published = publish now artifact context
    mutate published.1
    (λ s. (published.0, s))
    pure published.1

  -- An artifact was returned.
  pub accept_artifact :
      InterviewRuntime
      → String
      → InterviewStage
      → SkillDefinition
      → AgentArtifact
      → InterviewBlackboard
      → Exec RuntimeState RuntimeStepResult
  unfolding publish_live review_events artifact_event
  accept_artifact rt session previous skill artifact context =
      if not (is_schema_valid artifact skill.output_schema) then raise type_error else do
        published ← publish_live artifact context
        moved ← gets (advance rt previous (some artifact) published)
        let reviewed = review rt artifact moved
        save reviewed.1
        post (artifact_event artifact) session
        post agent_finished session
        review_events session reviewed.0
        post state_transitioned session
        bind session (session_trace reviewed.1)
        pure (
            step_result session previous reviewed.1 (some artifact)
              (outcome_of reviewed.1.current_stage))

  -- No artifact: the session has failed.
  fail_step :
      String
      → InterviewStage
      → Option Error
      → InterviewBlackboard
      → Exec RuntimeState RuntimeStepResult
  fail_step session previous error context = do
    let board = record context {
      runtime_metadata = record context.runtime_metadata {
        errors = context.runtime_metadata.errors ++ (E.str_of error ∷ []);
      };
      current_stage = failed;
    }
    save board
    post runtime_error_event session
    pure (step_result session previous board none failed_outcome)

  settle_step :
      InterviewRuntime
      → String
      → InterviewStage
      → SkillDefinition
      → ExecutionResult AgentArtifact
      → InterviewBlackboard
      → Exec RuntimeState RuntimeStepResult
  unfolding fail_step accept_artifact
  settle_step rt session previous skill result context = elim result.value [
    | none ↦ fail_step session previous result.error context
    | some artifact ↦
        if result.ok
        then accept_artifact rt session previous skill artifact context
        else fail_step session previous result.error context
  ]

  abbrev strategy_of : Option ExecutionStrategy → ExecutionStrategy → ExecutionStrategy
  strategy_of none d = d
  strategy_of (some s) d = s

  abbrev policy_of : SkillDefinition → ExecutionPolicy RuntimeState AgentArtifact
  policy_of skill = record {
    timeout_seconds = skill.timeout;
    retry = skill.retry;
    fallback = none;
    name = skill.name;
    max_iterations = skill.max_iterations;
    max_tool_calls = skill.max_tool_calls;
    max_duplicate_calls = skill.max_duplicate_calls;
  }

  execution_context :
      InterviewRuntime → String → Agent → SkillDefinition → InterviewBlackboard → ExecutionContext
  execution_context rt session agent skill context = record {
    session_id = session;
    current_stage = context.current_stage;
    current_agent = agent.name;
    current_skill = skill.name;
    authorized_tools =
        authorize rt.tool_policy agent.name skill.allowed_tools context.session_allowed_tools;
    token_budget = skill.max_tokens;
    timeout_seconds = skill.timeout;
    retry = skill.retry;
    session_allowed_tools = context.session_allowed_tools;
    execution_strategy = strategy_of skill.execution_strategy agent.execution_strategy;
  }

  -- `self.context_builder.build(…)`: the view, or an error, and the blackboard that is left.
  view_for :
      InterviewRuntime
      → String
      → Agent
      → SkillDefinition
      → InterviewBlackboard
      → Result AgentContext × InterviewBlackboard
  unfolding execution_context
  view_for rt session agent skill context =
      build rt.context_builder.dict_of rt.context_builder.budget agent.name context
        (execution_context rt session agent skill context)

  run_context :
      ExecutionContext
      → AgentContext
      → SkillDefinition
      → InterviewBlackboard
      → String
      → String
      → AgentRunContext
  run_context execution view skill context session run_id = record {
    session_id = session;
    blackboard = context;
    agent_context = view;
    skill = skill;
    visible_tools = execution.authorized_tools;
    trace = record (session_trace context) { run_id = some run_id; span_id = some run_id };
    execution_strategy = execution.execution_strategy;
  }

  abbrev attempt_agent :
      Agent → AgentRunContext → SkillDefinition → Exec RuntimeState (ExecutionResult AgentArtifact)
  attempt_agent agent run skill s =
      let (r, s') = TaskExecutor.execute (policy_of skill) (agent.execute_run run) s in (ok r, s')

  -- The view changes the plan of the blackboard that is stored. After the agent has run the
  -- blackboard is the object that the agent had: it is read again from the store.
  run_agent :
      InterviewRuntime
      → String
      → String
      → InterviewBlackboard
      → Agent
      → Exec RuntimeState RuntimeStepResult
  unfolding settle_step run_context view_for
  run_agent rt session run_id context agent =
      if not (agent.stages context.current_stage) then raise runtime_error else do
        skill ← (λ s. (resolve_skill rt.skill_registry (agent.required_skill context), s))
        let execution = execution_context rt session agent skill context
        let (built, seen) = view_for rt session agent skill context
        mutate seen
        view ← (λ s. (built, s))
        let run = run_context execution view skill seen session run_id
        bind session run.trace
        post agent_started session
        result ← attempt_agent agent run skill
        context' ← load_context session
        settle_step rt session context.current_stage skill result context'

  unfoldable pub step_in_stage :
      InterviewRuntime
      → String
      → String
      → InterviewBlackboard
      → InterviewStage
      → Exec RuntimeState RuntimeStepResult
  unfolding run_agent
  step_in_stage rt session run_id context questioning = do
    board ← gets (advance rt questioning none context)
    save board
    post question_asked session
    pure (step_result session questioning board none completed)
  step_in_stage rt session run_id context finished =
      pure (step_result session finished context none completed)
  step_in_stage rt session run_id context failed =
      pure (step_result session failed context none completed)
  step_in_stage rt session run_id context waiting_human_review =
      pure (step_result session waiting_human_review context none completed)
  step_in_stage rt session run_id context init = do
    board ← gets (advance rt init none context)
    save board
    pure (step_result session init board none completed)
  step_in_stage rt session run_id context stage = do
    agent ← (λ s. (resolve_agent rt.agent_registry stage, s))
    run_agent rt session run_id context agent

  unfoldable pub run_step : InterviewRuntime → String → String → Exec RuntimeState RuntimeStepResult
  unfolding step_in_stage
  run_step rt session run_id = do
    context ← load_context session
    bind session (session_trace context)
    step_in_stage rt session run_id context context.current_stage
