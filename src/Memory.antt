-- ===== src/Memory.antt =====
-- Messages (src/interview_agent_runtime/messages/models.py) and the memory of interactions
-- (memory/models.py, memory/session.py). Identifiers and times are given by the caller.
pub mod Trimming
pub mod History
pub mod Context
use Prim.Native.String.{◌++◌ as append_text}
use interviewer.Prelude.{
  ℕ, ◌+◌, String, str_eq, Bool, true, false, not, ◌&&◌, ◌||◌, Option, none, some, List, [], ◌∷◌,
  ◌++◌, ltb, if◌then◌else◌, or_else, contains, add, take, last_n, map, Dict, lookup, insert, sorted,
}
use interviewer.Floats.{Floats, Float}
use interviewer.Values.{Value, Items, nil, cons, Fields, end, field}
use interviewer.Plan.{InterviewDimension, InterviewPlan}
use interviewer.Artifacts.{Evidence, QuestionArtifact}
use interviewer.Blackboard.{InterviewBlackboard, plan}
use interviewer.Governance.{ToolCall}

pub data MessageRole : Type 0 where
  system user assistant tool : MessageRole

abbrev pub text_length : String → ℕ
text_length String.[] = 0
text_length (String.◌∷◌ c s) = text_length s + 1

module _ ⦃F : Floats⦄ where
  pub record AgentMessage : Type 0 where
    pub role : MessageRole
    pub content : Option String
    pub tool_calls : List ToolCall
    pub tool_call_id : Option String
    pub name : Option String
    pub metadata : Dict Value
    pub id : String
    pub created_at : ℕ

  -- `AgentMessage.system(content)`
  abbrev pub system_message : String → ℕ → String → AgentMessage
  system_message id now content = record {
    role = system;
    content = some content;
    tool_calls = [];
    tool_call_id = none;
    name = none;
    metadata = [];
    id = id;
    created_at = now;
  }

  abbrev pub user_message : String → ℕ → String → AgentMessage
  user_message id now content = record (system_message id now content) { role = user }

  abbrev pub assistant_message : String → ℕ → Option String → List ToolCall → AgentMessage
  assistant_message id now content calls = record (system_message id now "") {
    role = assistant;
    content = content;
    tool_calls = calls;
  }

  -- `AgentMessage.tool(tool_call_id, name, content)`
  abbrev pub tool_message : String → ℕ → String → String → String → AgentMessage
  tool_message id now call_id tool_name content = record (system_message id now content) {
    role = tool;
    tool_call_id = some call_id;
    name = some tool_name;
  }

  pub record InterviewMemorySnapshot : Type 0 where
    pub verified_skills : List String
    pub weak_skills : List String
    pub uncertain_skills : List String
    pub dimension_scores : Dict Float
    pub dimension_coverage : Dict Float
    pub key_evidence : List String
    pub unresolved_gaps : List String
    pub recent_question_ids : List String
    pub current_dimension : Option String

  -- The order of the keys `(polarity != "positive", -confidence)`.
  unfoldable pub evidence_before : Evidence → Evidence → Bool
  evidence_before a b =
      let positive_a = str_eq a.polarity "positive" in
      let positive_b = str_eq b.polarity "positive" in
      if positive_a
      then not positive_b || F.lt (F.neg a.confidence) (F.neg b.confidence)
      else not positive_b && F.lt (F.neg a.confidence) (F.neg b.confidence)

  abbrev covers : Dict Float → String → Bool
  covers [] name = false
  covers ((n, c) ∷ rest) name = str_eq n name || covers rest name

  -- The loops that collect the gaps.
  unfoldable pub add_all : List String → List String → List String
  add_all gaps [] = gaps
  add_all gaps (x ∷ xs) = add_all (add gaps x) xs

  unfoldable pub add_uncovered : Dict Float → List InterviewDimension → List String → List String
  add_uncovered coverage [] gaps = gaps
  add_uncovered coverage (d ∷ ds) gaps =
      add_uncovered coverage ds
        (if not (str_eq d.name "") && not (covers coverage d.name) then add gaps d.name else gaps)

  abbrev nonempty_texts : List String → List String
  nonempty_texts [] = []
  nonempty_texts (x ∷ xs) = if str_eq x "" then nonempty_texts xs else x ∷ nonempty_texts xs

  abbrev plan_dimensions : Option InterviewPlan → List InterviewDimension
  plan_dimensions none = []
  plan_dimensions (some p) = p.dimensions

  -- `from_blackboard`
  unfoldable pub from_blackboard : InterviewBlackboard → ℕ → InterviewMemorySnapshot
  unfolding add_all add_uncovered evidence_before
  from_blackboard board max_evidence =
      let profile = board.capability_profile in
      record {
        verified_skills = profile.verified_skills;
        weak_skills = profile.weak_skills;
        uncertain_skills = profile.uncertain_skills;
        dimension_scores = profile.dimension_scores;
        dimension_coverage = profile.dimension_coverage;
        key_evidence = nonempty_texts (
            map (λ (e : Evidence). e.claim)
              (take max_evidence (sorted evidence_before board.evidence)));
        unresolved_gaps =
            add_uncovered profile.dimension_coverage (plan_dimensions (plan board))
              (add_all profile.weak_skills profile.uncertain_skills);
        recent_question_ids =
            nonempty_texts
              (map (λ (q : QuestionArtifact). q.question_id) (last_n 5 board.question_history));
        current_dimension =
            if str_eq board.current_dimension "" then none else some board.current_dimension;
      }

  abbrev no_items : {A : Type 0} → List A → Bool
  no_items [] = true
  no_items (x ∷ xs) = false

  abbrev no_text_in : Option String → Bool
  no_text_in none = true
  no_text_in (some s) = str_eq s ""

  abbrev pub is_empty_snapshot : InterviewMemorySnapshot → Bool
  is_empty_snapshot s =
      no_items s.verified_skills
      && no_items s.weak_skills
      && no_items s.uncertain_skills
      && no_items s.dimension_scores
      && no_items s.dimension_coverage
      && no_items s.key_evidence
      && no_items s.unresolved_gaps
      && no_items s.recent_question_ids
      && no_text_in s.current_dimension

  abbrev texts_value : List String → Items
  texts_value [] = nil
  texts_value (t ∷ ts) = cons (Value.str t) (texts_value ts)

  abbrev numbers_value : Dict Float → Fields
  numbers_value [] = end
  numbers_value ((n, v) ∷ rest) = field n (Value.float v) (numbers_value rest)

  abbrev text_or_null : Option String → Value
  text_or_null none = Value.null
  text_or_null (some t) = Value.str t

  -- `to_dict`
  unfoldable pub to_dict : InterviewMemorySnapshot → Value
  to_dict s = Value.dict (
      field "verified_skills" (Value.list (texts_value s.verified_skills)) (
        field "weak_skills" (Value.list (texts_value s.weak_skills)) (
          field "uncertain_skills" (Value.list (texts_value s.uncertain_skills)) (
            field "dimension_scores" (Value.dict (numbers_value s.dimension_scores)) (
              field "dimension_coverage" (Value.dict (numbers_value s.dimension_coverage)) (
                field "key_evidence" (Value.list (texts_value s.key_evidence)) (
                  field "unresolved_gaps" (Value.list (texts_value s.unresolved_gaps)) (
                    field "recent_question_ids" (Value.list (texts_value s.recent_question_ids))
                      (field "current_dimension" (text_or_null s.current_dimension) end)))))))))

  pub record MemoryContext : Type 0 where
    pub summary : Option AgentMessage
    pub recent_messages : List AgentMessage
    pub domain_snapshot : Option InterviewMemorySnapshot

  -- `len(message.content or "")`
  abbrev pub size : AgentMessage → ℕ
  size m = text_length (or_else m.content "")

  abbrev pub total_size : List AgentMessage → ℕ
  total_size [] = 0
  total_size (m ∷ ms) = size m + total_size ms

  -- The message of a snapshot; `dumps` is `json.dumps` of its dictionary.
  abbrev pub domain_messages :
      (InterviewMemorySnapshot → String)
      → String
      → ℕ
      → Option InterviewMemorySnapshot
      → List AgentMessage
  domain_messages dumps id now none = []
  domain_messages dumps id now (some s) =
      if is_empty_snapshot s
      then []
      else system_message id now (append_text "Interview capability snapshot:\n" (dumps s)) ∷ []

  abbrev pub history_messages : MemoryContext → List AgentMessage
  history_messages c = elim c.summary [ none ↦ c.recent_messages | some m ↦ m ∷ c.recent_messages ]

  -- The body of the loop: a message that does not fit is passed over, unless nothing is kept yet.
  unfoldable pub keep_message : ℕ → AgentMessage → List AgentMessage → ℕ → List AgentMessage × ℕ
  keep_message limit m kept used =
      if not (no_items kept) && ltb limit (used + size m)
      then (kept, used)
      else (m ∷ kept, used + size m)

  -- The loop over the messages from the newest: those that are kept, and the characters used.
  unfoldable pub trim : ℕ → ℕ → List AgentMessage → List AgentMessage × ℕ
  trim limit used [] = ([], used)
  trim limit used (m ∷ ms) = keep_message limit m (trim limit used ms).0 (trim limit used ms).1

  unfoldable pub to_messages :
      (InterviewMemorySnapshot → String) → String → ℕ → MemoryContext → Option ℕ → List AgentMessage
  unfolding trim
  to_messages dumps id now c none =
      domain_messages dumps id now c.domain_snapshot ++ history_messages c
  to_messages dumps id now c (some limit) =
      let domain = domain_messages dumps id now c.domain_snapshot in
      domain ++ (trim limit (total_size domain) (history_messages c)).0

  -- `InMemorySessionMemory`: the messages by key.
  abbrev pub SessionMemory : Type 0
  SessionMemory = Dict (List AgentMessage)

  abbrev pub messages_of : SessionMemory → String → List AgentMessage
  messages_of memory key = or_else (lookup memory key) []

  unfoldable pub append_message : SessionMemory → String → AgentMessage → SessionMemory
  append_message memory key m = insert memory key (messages_of memory key ++ (m ∷ []))

  unfoldable pub extend : SessionMemory → String → List AgentMessage → SessionMemory
  extend memory key ms = insert memory key (messages_of memory key ++ ms)

  -- `messages[-limit:]`: a limit of 0 gives all of them.
  unfoldable pub history : SessionMemory → String → Option ℕ → List AgentMessage
  history memory key none = messages_of memory key
  history memory key (some limit) = last_n limit (messages_of memory key)

  unfoldable pub clear : SessionMemory → String → SessionMemory
  clear [] key = []
  clear ((k, ms) ∷ memory) key =
      let rest = clear memory key in if str_eq k key then rest else (k, ms) ∷ rest
