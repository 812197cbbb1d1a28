-- ===== src/Examples.antt =====
-- Concrete instances of the interfaces and small sessions, for the runs in the children.
mod Plans
mod Sessions
mod Calls
mod Messages
mod Scores
mod Batches
mod Loops
mod Evaluations
mod Questions
mod Restarts
mod Endings
mod Contexts
use Prim.Native.Char.{Char}
use Prim.Native.String.{◌∷◌ as push, [] as no_text}
use interviewer.Prelude.{
  ℕ, zero, suc, ◌+◌, ◌*◌, ◌/◌, String, str_eq, Bool, true, false, not, none, some, List, [], ◌∷◌,
  arith, ltb, leb, ◌==◌, lookup, Dict,
}
use interviewer.Floats.{Floats, FloatLaws}
use interviewer.Values.{
  Error, Result, ok, err, runtime_error, type_error, Value, dict, null, end, Fields,
}
use interviewer.Stage.{InterviewStage, listening, reporting}
use interviewer.Unicode.{Unicode}
use interviewer.Plan.{InterviewDimension, InterviewPlan}
use interviewer.Capability.{CapabilityProfile}
use interviewer.Artifacts.{
  ArtifactBase, InterviewPlanArtifact, QuestionArtifact, AnswerArtifact, EvaluationArtifact,
  FollowUpDecisionArtifact, InterviewReportArtifact,
}
use interviewer.Blackboard.{InterviewBlackboard, RuntimeMetadata}
use interviewer.Tools.{Host}
use interviewer.Context.Building.{AgentContextBuilder}
use interviewer.Runtime.{Outside}
use interviewer.Runtime.Answering.{AnswerInput}

-- Differences of natural numbers, in thousandths.
pub record Number : Type 0 where
  pub up : ℕ
  pub down : ℕ

abbrev scale : ℕ → ℕ
scale zero = 1000
scale (suc zero) = 100
scale (suc (suc zero)) = 10
scale _ = 1

instance abbrev pub numbers : Floats
numbers = record {
  Float = Number;
  lt = λ a b. ltb (a.up + b.down) (b.up + a.down);
  le = λ a b. leb (a.up + b.down) (b.up + a.down);
  eq = λ a b. a.up + b.down == b.up + a.down;
  add = λ a b. record { up = a.up + b.up; down = a.down + b.down };
  sub = λ a b. record { up = a.up + b.down; down = a.down + b.up };
  mul = λ a b. record {
    up = (a.up * b.up + a.down * b.down) / 1000;
    down = (a.up * b.down + a.down * b.up) / 1000;
  };
  div = λ a b. record { up = a.up * 1000 / b.up; down = a.down * 1000 / b.up };
  neg = λ a. record { up = a.down; down = a.up };
  round_1 = λ a. record { up = a.up / 100 * 100; down = a.down / 100 * 100 };
  of_ℕ = λ n. record { up = n * 1000; down = 0 };
  decimal = λ m k. record { up = m * scale k; down = 0 };
}

pub numbers-laws : FloatLaws numbers
numbers-laws = record {
  lt_asym = λ a b h. ground arith;
  lt_negative_trans = λ a b c h k. ground arith;
  le-not_lt = λ a b. ground arith;
  lt-neg = λ a b. ground arith;
  lt-of_ℕ = λ m n h k. ground arith;
  decimal-lt-of_ℕ = λ m n h k. ground arith;
  of_ℕ-lt-decimal = λ m n h k. ground arith;
}

instance abbrev pub letters : Unicode
letters = record {
  is_space = λ c. str_eq (push c no_text) " ";
  is_alnum = λ c. not (str_eq (push c no_text) "-");
  lower = λ c. push c no_text;
  lower_text = λ s. s;
}

instance abbrev pub host : Host
host = record {
  World = ℕ;
  dumps_sorted = λ f. "{}";
  dumps = λ v. "null";
  loads = λ s. none;
  sha256 = λ n s. s;
  elapsed_ms = λ w. record { up = 1000; down = 0 };
  utc_now = λ w. w;
  fresh_id = λ n. "0";
}

instance abbrev pub outside : Outside
outside = record { State = ℕ; now = λ w. w; str_of = λ e. "error" }

abbrev pub number : ℕ → Number
number n = record { up = n * 1000; down = 0 }

abbrev pub dimension : String → ℕ → ℕ → ℕ → InterviewDimension
dimension name weight budget asked = record {
  name = name;
  weight = number weight;
  target_level = "senior";
  question_budget = budget;
  follow_up_budget = 2;
  coverage_target = record { up = 750; down = 0 };
  difficulty = "medium";
  asked_questions = asked;
  current_coverage = number 0;
  evidence_count = 0;
  completed = false;
}

abbrev pub two_dimensions : InterviewPlan
two_dimensions = record {
  dimensions = dimension "python" 1 3 1 ∷ dimension "design" 2 2 0 ∷ [];
  total_question_budget = 5;
  total_follow_up_budget = 3;
  estimated_duration_minutes = 30;
  current_dimension_index = 0;
}

abbrev pub base : ArtifactBase
base = record {
  kind = "artifact";
  owner = "agent";
  id = "a1";
  created_at = 0;
  confidence = number 1;
  metadata = [];
}

abbrev pub plan_artifact : InterviewPlanArtifact
plan_artifact = record { base = base; plan = two_dimensions }

abbrev pub first_question : QuestionArtifact
first_question = record {
  base = base;
  question_id = "q1";
  title = "";
  text = "What is a generator?";
  description = "";
  dimension = "python";
  difficulty = "medium";
  question_type = "technical";
  reference_answer = "";
  source = "bank";
  is_follow_up = false;
  target_evidence = [];
  expected_points = [];
  related_skills = [];
  tags = [];
  parent_question_id = none;
}

abbrev pub spoken : AnswerInput
spoken = record {
  text = "A function  that yields.";
  source = "text";
  duration_seconds = none;
  id = "a2";
  answer_id = "an1";
  created_at = 5;
}

abbrev pub strong_evaluation : EvaluationArtifact
strong_evaluation = record {
  base = base;
  question_id = "q1";
  answer_id = "an1";
  score = number 90;
  overall_score = number 90;
  dimension_scores = ("python", number 90) ∷ [];
  strengths = [];
  evidence = [];
  missing_points = "yield from" ∷ [];
}

abbrev pub dig_deeper : String → FollowUpDecisionArtifact
dig_deeper target = record {
  base = base;
  question_id = "q1";
  need_follow_up = true;
  target = some target;
  normalized_target = "yieldfrom";
  reason = none;
  missing_evidence = [];
}

abbrev pub empty_profile : CapabilityProfile
empty_profile = record {
  verified_skills = [];
  weak_skills = [];
  uncertain_skills = [];
  dimension_scores = [];
  dimension_coverage = [];
  evidence_count = [];
}

abbrev pub metadata : RuntimeMetadata
metadata = record {
  runtime_version = "1";
  started_at = 0;
  updated_at = 0;
  trace_id = "t1";
  errors = [];
  max_follow_up_round_per_question = 2;
  session_timeout_seconds = 3600;
}

abbrev pub board_in : InterviewStage → InterviewBlackboard
board_in stage = record {
  session_id = "s1";
  session_inputs = [];
  candidate_profile = none;
  position_profile = none;
  interview_plan = some plan_artifact;
  current_stage = stage;
  current_dimension = "python";
  current_question = some first_question;
  question_history = [];
  answers = [];
  evaluations = [];
  follow_up_decisions = [];
  report = none;
  evidence = [];
  capability_profile = empty_profile;
  follow_up_budget = 3;
  question_budget = 5;
  token_budget = 1000;
  session_allowed_tools = none;
  asked_question_ids = "q1" ∷ [];
  followed_targets = [];
  question_follow_up_rounds = [];
  review_required = false;
  review_status = "not_required";
  review_reasons = [];
  review_reviewer = "";
  review_decision_reason = "";
  durable_tool_records = [];
  runtime_metadata = metadata;
  plan_policy = record { weak_score_threshold = number 65; high_score_threshold = number 85 };
}

abbrev pub final_report : InterviewReportArtifact
final_report = record {
  base = base;
  overall_score = number 80;
  role_match_score = number 80;
  role_match = "good";
  dimension_scores = [];
  verified_strengths = [];
  verified_skills = [];
  weaknesses = [];
  weak_skills = [];
  insufficient_evidence_areas = [];
  key_evidence = [];
  evidence = [];
  interview_summary = "";
  hiring_recommendation = "hire";
  improvement_suggestions = [];
}

abbrev pub only_dicts : Value → Result Fields
only_dicts (dict fields) = ok fields
only_dicts _ = err type_error

abbrev pub view_builder : AgentContextBuilder
view_builder = record {
  budget = record {
    max_recent_questions = 5;
    max_recent_answers = 3;
    max_evidence_items = 8;
    max_context_tokens = 2500;
  };
  dict_of = only_dicts;
}
