-- ===== src/Runtime.antt =====
-- `InterviewRuntime` (src/interview_agent_runtime/runtime/interview_runtime.py) with the registry
-- of agents (agents/base.py) and the in-memory checkpoint store (checkpoint/stores.py). The store
-- holds the blackboard object itself, so what a method changes on it is in the store at once, also
-- where the method then raises: `mutate` stands where the code changes the object.
pub mod Start
pub mod Answering
pub mod Step
pub mod HumanReview
pub mod Loop
pub mod Progress
pub mod Termination
pub mod Answers
pub mod Completion
pub mod Reviews
use interviewer.Prelude.{
  ℕ, zero, suc, ◌+◌, String, str_eq, Bool, true, false, not, ◌&&◌, ◌||◌, Option, none, some, List,
  [], ◌∷◌, ◌++◌, if◌then◌else◌, or_else, Dict, lookup, insert,
}
use interviewer.Floats.{Floats, Float}
use interviewer.Unicode.{Unicode, normalize_text}
use interviewer.Values.{
  Value, Fields, end, Error, key_error, type_error, value_error, runtime_error, Result, ok, err,
}
use interviewer.Exec.{Exec, pure, raise, gets, modify, continue, ◌>>=◌, ◌>>◌}
use interviewer.Stage.{
  InterviewStage, init, questioning, listening, waiting_human_review, finished, failed,
}
use interviewer.Artifacts.{
  AgentArtifact, candidate_profile, interview_plan, question, answer, evaluation,
  follow_up_decision, interview_report, other, ArtifactBase, AnswerArtifact, QuestionArtifact,
  InterviewReportArtifact,
}
use interviewer.Blackboard.{InterviewBlackboard, publish}
use interviewer.StateMachine.{TransitionGuard, transition}
use interviewer.ToolRecords.{DurableToolExecutionRecord, fingerprint}
use interviewer.Tools.{ToolPolicy, authorize}
use interviewer.Skills.{SkillDefinition, SkillRegistry, ExecutionStrategy, resolve_skill}
use interviewer.Context.{AgentContext}
use interviewer.Context.Building.{AgentContextBuilder}
use interviewer.TaskExecutor
use interviewer.TaskExecutor.{ExecutionPolicy, ExecutionResult}
use interviewer.Review.{
  HumanReviewPolicy, ReviewDecision, requires_human_review, review_status, evaluate,
}
use interviewer.Events.{
  RuntimeEventType, session_started, profile_created, plan_created, question_generated,
  question_asked, answer_received, answer_evaluated, follow_up_decided, state_transitioned,
  agent_started, agent_finished, checkpoint_created, report_generated, review_required,
  review_auto_completed, human_review_submitted, runtime_error as runtime_error_event, TraceContext,
  RuntimeEvent, InMemoryEventBus, bind_trace, emit,
}

-- The world outside the runtime: agents change it, the clock is read from it. `str_of` is `str`
-- of an exception.
pub record Outside : Type 1 where
  pub State : Type 0
  pub now : State → ℕ
  pub str_of : Option Error → String

pub data RuntimeOutcome : Type 0 where
  completed failed_outcome paused : RuntimeOutcome

module _ ⦃F : Floats⦄ ⦃U : Unicode⦄ ⦃E : Outside⦄ where
  pub record RuntimeState : Type 0 where
    pub store : Dict InterviewBlackboard
    pub bus : InMemoryEventBus
    pub outside : E.State

  -- What an agent is given, besides the runtime that it may call.
  pub record AgentRunContext : Type 0 where
    pub session_id : String
    pub blackboard : InterviewBlackboard
    pub agent_context : AgentContext
    pub skill : SkillDefinition
    pub visible_tools : List String
    pub trace : TraceContext
    pub execution_strategy : ExecutionStrategy

  -- An agent is code of its own: how it runs is a function on the whole state, with the seconds
  -- that it took and the artifact that it returned.
  pub record Agent : Type 0 where
    pub name : String
    pub stages : InterviewStage → Bool
    pub execution_strategy : ExecutionStrategy
    pub required_skill : InterviewBlackboard → String
    pub execute_run : AgentRunContext → RuntimeState → Float × Result AgentArtifact × RuntimeState

  pub record InterviewAgentRegistry : Type 0 where
    pub agents : Dict Agent
    pub stage_map : InterviewStage → Option String

  -- `register`: the agent takes each of its stages over.
  unfoldable pub register_agent : InterviewAgentRegistry → Agent → InterviewAgentRegistry
  register_agent registry agent = record {
    agents = insert registry.agents agent.name agent;
    stage_map = λ stage. if agent.stages stage then some agent.name else registry.stage_map stage;
  }

  agent_named : InterviewAgentRegistry → Option String → Result Agent
  agent_named registry none = err key_error
  agent_named registry (some name) = of_found (lookup registry.agents name)
    where
      of_found : Option Agent → Result Agent
      of_found none = err key_error
      of_found (some agent) = ok agent

  unfoldable pub resolve_agent : InterviewAgentRegistry → InterviewStage → Result Agent
  unfolding agent_named
  resolve_agent registry stage = agent_named registry (registry.stage_map stage)

  pub record InterviewRuntime : Type 0 where
    pub guard : TransitionGuard
    pub agent_registry : InterviewAgentRegistry
    pub skill_registry : SkillRegistry
    pub tool_policy : ToolPolicy
    pub human_review_policy : HumanReviewPolicy
    pub context_builder : AgentContextBuilder

  pub record RuntimeStepResult : Type 0 where
    pub session_id : String
    pub previous_stage : InterviewStage
    pub current_stage : InterviewStage
    pub artifact : Option AgentArtifact
    pub outcome : RuntimeOutcome

  abbrev pub mutate : InterviewBlackboard → Exec RuntimeState (Unit {0})
  mutate board = modify (λ s. record s { store = insert s.store board.session_id board })

  -- `InMemoryCheckpointStore.save`
  abbrev pub save : InterviewBlackboard → Exec RuntimeState (Unit {0})
  save board = mutate board

  abbrev pub post : RuntimeEventType → String → Exec RuntimeState (Unit {0})
  post type session = modify (λ s. record s {
    bus = emit (record { type = type; session_id = session; trace = none }) s.bus;
  })

  abbrev pub bind : String → TraceContext → Exec RuntimeState (Unit {0})
  bind session trace = modify (λ s. record s { bus = bind_trace session trace s.bus })

  abbrev pub session_trace : InterviewBlackboard → TraceContext
  session_trace board = record {
    trace_id = board.runtime_metadata.trace_id;
    run_id = none;
    span_id = none;
    parent_span_id = none;
  }

  loaded : Option InterviewBlackboard → Result InterviewBlackboard
  loaded none = err key_error
  loaded (some board) = ok board

  unfoldable pub load_context : String → Exec RuntimeState InterviewBlackboard
  unfolding loaded
  load_context session s = (loaded (lookup s.store session), s)

  -- `context.current_stage = self.state_machine.transition(previous, context, artifact)`
  unfoldable pub advance :
      InterviewRuntime
      → InterviewStage
      → Option AgentArtifact
      → InterviewBlackboard
      → RuntimeState
      → InterviewBlackboard
  advance rt previous artifact board s =
      let (stage, board') = transition rt.guard (E.now s.outside) previous board artifact in
      record board' { current_stage = stage }

  abbrev pub step_result :
      String
      → InterviewStage
      → InterviewBlackboard
      → Option AgentArtifact
      → RuntimeOutcome
      → RuntimeStepResult
  step_result session previous board artifact outcome = record {
    session_id = session;
    previous_stage = previous;
    current_stage = board.current_stage;
    artifact = artifact;
    outcome = outcome;
  }
