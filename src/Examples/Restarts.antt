-- ===== src/Examples/Restarts.antt =====
-- Sessions that are written to a file as JSON and read after a restart.
use Prim.Native.String.{◌∷◌ as push, [] as no_text}
use interviewer.Prelude.{
  ◌≡◌, refl, ap, ℕ, zero, suc, String, Option, none, some, [], ◌==◌, str_eq, if◌then◌else◌, false,
  Bool-cases, inl, inr, eq_iff, arith,
}
use interviewer.Values.{Value, dict, float, ok}
use interviewer.Batch.{get_field}
use interviewer.Stage.{listening}
use interviewer.Blackboard.{InterviewBlackboard}
use interviewer.Checkpoint.{JsonTexts, save_json, load_json}
use interviewer.Checkpoint.Encode.{policy_fields}
use interviewer.Checkpoint.Session.{Times, TimeLaws, board_fields}
use interviewer.Checkpoint.Restored.{restored}
use interviewer.Checkpoint.Restart.{load_json-save_json, load_json-again}
use interviewer.Examples.{numbers, letters, board_in}

-- A time is written as a mark for each tick.
abbrev marks : ℕ → String
marks zero = no_text
marks (suc n) = push "I" (marks n)

abbrev count : String → ℕ
count no_text = zero
count (push c s) = suc (count s)

abbrev read_time : String → Option ℕ
read_time no_text = none
read_time (push c s) = some (count s)

instance abbrev ticks : Times
ticks = record { isoformat = λ t. push "T" (marks t); fromisoformat = read_time }

count-marks : (t : ℕ) → count (marks t) ≡ t
count-marks zero = refl
count-marks (suc n) = ap suc (count-marks n)

not_empty : (s : String) → str_eq (push "T" s) "" ≡ false
not_empty s = elim (Bool-cases (str_eq (push "T" s) "")) [
  | inl same ↦
      let gone : push "T" s ≡ "" = ground (arith, eq_iff (push "T" s) "") in
      let counts : suc (count s) ≡ 0 = ap count gone in ground arith
  | inr other ↦ other
]

ticks-laws : TimeLaws ticks
ticks-laws = record {
  round_trip = λ t. ap some (count-marks t);
  some_text = λ t. not_empty (marks t);
}

abbrev waiting : InterviewBlackboard
waiting = board_in listening

abbrev after_restart : InterviewBlackboard
after_restart = restored waiting

-- The two blackboards differ in the policy of the plan.
abbrev text_of : Option Value → String
text_of (some (dict policy)) = by_threshold (get_field policy "high_score_threshold")
  where
    by_threshold : Option Value → String
    by_threshold (some (float x)) = if x.up == 85000 then "before" else "after"
    by_threshold _ = ""
text_of _ = ""

abbrev written : Value → String
written (dict fields) = text_of (get_field fields "plan_policy")
written _ = ""

instance abbrev texts : JsonTexts
texts = record {
  dumps = written;
  loads = λ s. some (dict (board_fields (if str_eq s "before" then waiting else after_restart)));
}

reads : texts.loads (texts.dumps (dict (board_fields waiting))) ≡ some (dict (board_fields waiting))
unfolding get_field board_fields policy_fields
reads = refl

reads_loaded :
    texts.loads (texts.dumps (dict (board_fields after_restart)))
    ≡ some (dict (board_fields after_restart))
unfolding get_field board_fields policy_fields
reads_loaded = refl

load_json-save_json_example :
    load_json (λ s. s) 9 (save_json [] waiting) "s1" ≡ ok (some after_restart)
load_json-save_json_example = load_json-save_json ticks-laws (λ s. s) 9 [] waiting "s1" reads

load_json-again_example :
    load_json (λ s. s) 9 (save_json [] after_restart) "s1"
    ≡ load_json (λ s. s) 9 (save_json [] waiting) "s1"
load_json-again_example =
    load_json-again ticks-laws (λ s. s) 9 [] waiting after_restart "s1" reads reads_loaded
      load_json-save_json_example
