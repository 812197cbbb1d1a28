-- ===== src/Lib.antt =====
-- A model of the agent runtime for technical interviews (src/interview_agent_runtime), with the
-- theorems that make its parts correct.
--
-- An interview is a session. Its whole state is a blackboard; agents write artifacts (profile,
-- plan, question, evaluation, decision, report), the runtime publishes each on the blackboard, and
-- a state machine picks the next stage. A plan of weighted dimensions says what is asked next and
-- with what budget; evaluations revise it. Agents call tools through an executor that checks their
-- rights and settles repeated calls. A policy decides whether a report needs a human.
--
-- The files, and the code they model:
--   Plan          InterviewDimension, InterviewPlan of domain/models.py; Plan/Budget and
--                 Plan/Selection prove its two operations. `next_dimension` and
--                 `update_after_evaluation` have the source's names.
--   Capability    CapabilityProfile of domain/models.py.
--   Policy        InterviewPlanPolicy of planning/policy.py; `update_plan` is its
--                 update_after_evaluation.
--   Stage         domain/stages.py.
--   Artifacts     artifacts/models.py and the profiles of domain/models.py; Make has the constructors.
--   Blackboard    blackboard/board.py; `publish` and the follow-up budgets.
--   StateMachine  runtime/state_machine.py; Diagram has the stages' arrows as a relation,
--                 FollowUps and Later are about follow-ups.
--   ToolRecords, Tools, Governance, Execute
--                 tools/registry.py: the records, the registry with `authorize` and `call`, what a
--                 run does about repeated calls (`admit`), and `execute` as three parts
--                 (begin_call, the call itself, finish_call). Execute/Repeats, Once and Later are about
--                 repeated calls.
--   Batch         `execute_batch` of tools/registry.py. Batch/Tasks, Batch/Places and Batch/Order
--                 are about its results, Batch/Groups about the calls that run in parallel.
--   Projection    ToolResultContextProjector of tools/registry.py.
--   AgentLoop     runtime/agent_loop.py: the types and small methods; Rounds has the rounds of
--                 `run`, Invocation what comes before and after them. Counts, Steps and Budgets
--                 follow the counters, Growth and Transcript the messages.
--   TaskExecutor  runtime/execution_policy.py.
--   Review        runtime/review.py.
--   Checkpoint    JsonFileCheckpointStore of checkpoint/stores.py. Json has the values of JSON and how
--                 fields are read; Encode and Session are `_to_json` class by class; Profiles,
--                 Stored, Records and Loading are the readers; Restored says what is left of a blackboard,
--                 RoundTrip, Restart and Again have the theorems.
--   Memory        messages/models.py, memory/models.py and memory/session.py: the messages by key and
--                 what of them fits in a limit of characters; Memory/Context has memory/context.py
--                 and memory/compressor.py.
--   Score         evaluation/score_policy.py.
--   Evaluation    evaluation/engine.py; Points has the rules on met and missing points.
--                 Evaluation/Drafts and Evaluation/Evidences are about the evidence.
--   Questioning   questioning/pipeline.py; Validation has `validate` and what it uses, Dimensions the
--                 theorems, which use Plan/Again.
--   Context       context/builder.py with context/models.py and context/execution.py: the parts of a
--                 view; Building has `build`, Compression context/compression.py. Gaps and Views have
--                 the theorems.
--   Events        runtime/events.py.
--   Skills        skills/registry.py, the definition and the registry.
--   Runtime       runtime/interview_runtime.py over the in-memory store of checkpoint/stores.py
--                 and the registry of agents/base.py: the state and the stores in Runtime, each
--                 method in a child (Start, Answering, Step, HumanReview, Loop), the theorems in
--                 Answers, Completion, Reviews, Termination and Step/Reports; Progress and Step/Nearer
--                 count the steps that a stage has left.
--   Examples      instances of the interfaces and concrete runs.
--   Prelude, Values, Exec, Unicode, Floats
--                 shared helpers, Python's values and exceptions, a monad of state and errors,
--                 texts, and floats.
--
-- A method that changes an object returns the new one. Where an object is shared with the store
-- (the in-memory store keeps the blackboard itself) each change is written to the store at once,
-- also before an exception: Runtime says so by `mutate`.
--
-- Parameters, since their code is not the program's: Floats (Python's float; the order laws that
-- some theorems need are in FloatLaws and hold of all floats but NaN, with small integers exact),
-- Unicode (the tables behind strip and isalnum, and lower, of a character and of a whole text), Host (json.dumps, sha256 and the clocks
-- around a tool), Texts (str() of a value and float() of an integer), JsonTexts and Times (the texts of
-- JSON and of times), dict() of an input of a session and str() of a summary, Outside (the clock and
-- the world that agents change), and the handlers, agents and callbacks themselves, each a function on
-- its world. Identifiers made by uuid4 and the present time are arguments; within one operation the clock is read once.
--
-- The calls of a group run under asyncio.gather. A schedule, any list of positions, says which call
-- goes on next to its next await; what it leaves undone is completed in order. A run of the agent
-- loop gets the schedules of its batches with its request. The provider of a language model is a
-- function on the world that also says how long it took. The start of a call (begin_call) is one step of a
-- schedule: with a version resolver the source awaits its answer first, and another call may go on
-- between the answer and the admission.
--
-- A value is what JSON has, so json.dumps gives a text of each; the TypeError that it raises on other
-- results of a tool is left out. Reading the text of a response as JSON gives a value or fails with
-- JSONDecodeError; the RecursionError and the ValueError of a text that nests too deep or has an integer of
-- too many digits, which the agent loop does not catch, are left out, so that what is said of every
-- run is said of runs without them.
--
-- The JSON store does not look at the types of the fields that it reads; the fields of the model have
-- types, so a field of a wrong type is a TypeError here. The files of its directory are a dictionary by
-- session, and sets are lists without repetition.
--
-- Bounds and fuel: counters are natural numbers; the budgets are decreased only where the source
-- tests that they are positive, or by max(0, n - 1), which is what subtraction on ℕ gives. The
-- loop `run_until_waiting_or_done` runs over a list of identifiers, one for each of its max_steps
-- rounds; an empty list is the exhausted budget, the source's RuntimeError; six
-- rounds are enough where agents keep the session in the store, and the default is 20. Attempts run over
-- retry + 1, as the range of the source does. The rounds of the agent loop
-- count down from max_rounds, as its range does. No other definition has fuel.
--
-- Not modelled: the metadata and the messages of events and the observer, none of which the runtime
-- reads again; the agents' own code, the providers over HTTP and the prompts, the default tools, the
-- traces for inspection, and the wiring (harness, application, scripts).
pub mod Prelude
pub mod Floats
pub mod Values
pub mod Plan
pub mod Artifacts
pub mod ToolRecords
pub mod Stage
pub mod Blackboard
pub mod Unicode
pub mod Tools
pub mod Governance
pub mod Execute
pub mod Batch
pub mod TaskExecutor
pub mod Memory
pub mod Score
pub mod Evaluation
pub mod Questioning
pub mod Checkpoint
pub mod Context
pub mod AgentLoop
pub mod Projection
pub mod Review
pub mod Exec
pub mod Events
pub mod Skills
pub mod Runtime
pub mod StateMachine
pub mod Policy
pub mod Capability
pub mod Examples
