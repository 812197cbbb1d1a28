-- ===== src/Context/Compression.antt =====
-- The estimate of tokens and the compressor (src/interview_agent_runtime/context/compression.py).
use interviewer.Prelude.{ℕ, ◌/◌, String, ltb, if◌then◌else◌}
use interviewer.Floats.{Floats}
use interviewer.Values.{Value, Fields, end, field}
use interviewer.Blackboard.{InterviewBlackboard}
use interviewer.Memory.{InterviewMemorySnapshot, from_blackboard, to_dict, text_length}
use interviewer.Checkpoint.Json.{number_value}
use interviewer.Context.{ContextBudget}

-- `TokenEstimator.estimate`
unfoldable pub estimate : String → ℕ
estimate text = let n = text_length text / 4 in if ltb n 1 then 1 else n

module _ ⦃F : Floats⦄ where
  -- `CapabilityContextCompressor.snapshot`
  abbrev pub snapshot : ContextBudget → InterviewBlackboard → InterviewMemorySnapshot
  snapshot budget board = from_blackboard board budget.max_evidence_items

  abbrev with_estimate : (Value → String) → Value → Value
  with_estimate str_of (Value.dict fields) =
      Value.dict (put fields (number_value (estimate (str_of (Value.dict fields)))))
    where
      put : Fields → Value → Fields
      put end v = field "estimated_tokens" v end
      put (field k x rest) v = field k x (put rest v)
  with_estimate str_of v = v

  -- `CapabilityContextCompressor.compress`, over `str` of a dictionary.
  unfoldable pub compress : (Value → String) → ContextBudget → InterviewBlackboard → Value
  compress str_of budget board = with_estimate str_of (to_dict (snapshot budget board))
