-- ===== src/Examples/Questions.antt =====
-- A question from a bank with one item.
use interviewer.Prelude.{◌≡◌, refl, lookup, sorted, insert_sorted, some, none, [], ◌∷◌}
use interviewer.Values.{Result, ok, err}
use interviewer.Artifacts.{QuestionArtifact}
use interviewer.Stage.{question_preparing}
use interviewer.Plan.{InterviewDimension, next_dimension}
use interviewer.Tools.{call}
use interviewer.Unicode.{strip}
use interviewer.Evaluation.Points.{is_part}
use interviewer.Questioning.Validation.{
  validate, reasons_against, expected_dimension, similar_to_history,
}
use interviewer.Questioning.{
  BankItem, Asking, Pipeline, select_dimension, retrieve_candidates, candidate_to_artifact,
  first_accepted, generate_next,
}
use interviewer.Questioning.Dimensions.{IsAsked, generate_next-IsFor}
use interviewer.Examples.{numbers, host, letters, first_question, board_in, dimension}
use interviewer.Examples.Calls.{count_tool}

abbrev item : BankItem
item = record {
  question_id = some "q2";
  title = some "What does yield do?";
  dimension = none;
  difficulty = none;
  reference_answer = none;
  source = none;
  target_evidence = none;
  expected_points = none;
  related_skills = none;
  tags = none;
}

abbrev pipeline : Pipeline
pipeline = record {
  registry = ("question_bank.search", count_tool) ∷ [];
  visible_tools = "question_bank.search" ∷ [];
  agent_name = "QuestionerAgent";
  skill_name = "question";
  items = λ v. ok (item ∷ []);
  random = λ n. "0";
  now = 7;
}

abbrev asking : Asking
asking = record { board = board_in question_preparing; world = 0 }

abbrev or_first_question : Result QuestionArtifact → QuestionArtifact
or_first_question (ok q) = q
or_first_question (err e) = first_question

abbrev question_run : Result QuestionArtifact × Asking
question_run = generate_next pipeline asking

given : generate_next pipeline asking ≡ (ok (or_first_question question_run.0), question_run.1)
unfolding generate_next select_dimension next_dimension sorted lookup insert_sorted
    retrieve_candidates call first_accepted validate reasons_against strip candidate_to_artifact
    expected_dimension similar_to_history is_part
given = refl

generate_next-IsFor_example :
    IsAsked pipeline asking question_run.1.board (or_first_question question_run.0)
generate_next-IsFor_example =
    generate_next-IsFor pipeline asking question_run.1 (or_first_question question_run.0) given

abbrev or_dimension : Result InterviewDimension → InterviewDimension
or_dimension (ok d) = d
or_dimension (err e) = dimension "none" 1 0 0

abbrev chosen : InterviewDimension
chosen = or_dimension (select_dimension asking).0
