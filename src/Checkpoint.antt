-- ===== src/Checkpoint.antt =====
-- `JsonFileCheckpointStore` (src/interview_agent_runtime/checkpoint/stores.py): a session's blackboard
-- is written to a file of its own as JSON and read from it. The files are those of the store's
-- directory by session; `json.dumps` and `json.loads` are the interpreter's.
pub mod Json
pub mod Encode
pub mod Session
pub mod Profiles
pub mod Stored
pub mod Records
pub mod Loading
pub mod Restored
pub mod RoundTrip
pub mod Restart
pub mod Again
use interviewer.Prelude.{ℕ, String, Option, none, some, Dict, lookup, insert}
use interviewer.Floats.{Floats}
use interviewer.Unicode.{Unicode}
use interviewer.Values.{Value, dict, type_error, value_error, Result, ok, err, ◌>>=◌}
use interviewer.Blackboard.{InterviewBlackboard}
use interviewer.Checkpoint.Session.{Times, board_fields}
use interviewer.Checkpoint.Loading.{board_from_json}

-- `json.dumps` with an indent of 2, and `json.loads`, whose JSONDecodeError is none.
pub record JsonTexts ⦃F : Floats⦄ : Type 0 where
  pub dumps : Value → String
  pub loads : String → Option Value

module _ ⦃F : Floats⦄ ⦃T : Times⦄ ⦃J : JsonTexts⦄ where
  abbrev pub JsonFiles : Type 0
  JsonFiles = Dict String

  -- `JsonFileCheckpointStore.save`
  unfoldable pub save_json : JsonFiles → InterviewBlackboard → JsonFiles
  save_json files board = insert files board.session_id (J.dumps (dict (board_fields board)))

  module _ ⦃U : Unicode⦄ (fresh : String → String) (now : ℕ) where
    abbrev of_value : Option Value → Result (Option InterviewBlackboard)
    of_value none = err value_error
    of_value (some (dict fields)) = board_from_json fresh now fields >>= λ board. ok (some board)
    of_value (some _) = err type_error

    abbrev of_file : Option String → Result (Option InterviewBlackboard)
    of_file none = ok none
    of_file (some text) = of_value (J.loads text)

    -- `JsonFileCheckpointStore.load`
    unfoldable pub load_json : JsonFiles → String → Result (Option InterviewBlackboard)
    load_json files session_id = of_file (lookup files session_id)
