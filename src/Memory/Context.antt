-- ===== src/Memory/Context.antt =====
-- `MemoryContextBuilder` (src/interview_agent_runtime/memory/context.py) with the compressor and
-- the summarizer of memory/compressor.py.
use Prim.Native.String.{◌++◌ as append_text}
use interviewer.Prelude.{
  ℕ, zero, suc, ◌-◌, String, str_eq, Bool, true, false, Option, none, some, List, [], ◌∷◌, ltb, leb,
  if◌then◌else◌, or_else, take, last_n, length, map,
}
use interviewer.Floats.{Floats}
use interviewer.Unicode.{Unicode, strip}
use interviewer.Governance.{ToolCall}
use interviewer.Blackboard.{InterviewBlackboard}
use interviewer.Memory.{
  MessageRole, system, user, assistant, tool, AgentMessage, system_message, text_length,
  InterviewMemorySnapshot, from_blackboard, MemoryContext, SessionMemory, history,
}

-- `text[:n]`
unfoldable pub take_text : ℕ → String → String
take_text zero s = ""
take_text (suc n) String.[] = ""
take_text (suc n) (String.◌∷◌ c s) = String.◌∷◌ c (take_text n s)

-- `text.replace("\n", " ")`
unfoldable pub on_one_line : String → String
on_one_line String.[] = ""
on_one_line (String.◌∷◌ c s) =
    if str_eq (String.◌∷◌ c "") "\n"
    then append_text " " (on_one_line s)
    else String.◌∷◌ c (on_one_line s)

-- `separator.join(texts)`
unfoldable pub join_texts : String → List String → String
join_texts separator [] = ""
join_texts separator (t ∷ []) = t
join_texts separator (t ∷ u ∷ ts) =
    append_text t (append_text separator (join_texts separator (u ∷ ts)))

abbrev role_text : MessageRole → String
role_text system = "system"
role_text user = "user"
role_text assistant = "assistant"
role_text tool = "tool"

module _ ⦃F : Floats⦄ where
  -- `RecentWindowMemoryCompressor.compress`
  unfoldable pub recent_window : List AgentMessage → ℕ → List AgentMessage
  recent_window ms n = if leb n 0 then [] else last_n n ms

  module _ ⦃U : Unicode⦄ where
    abbrev shortened : String → String
    shortened s = if ltb 160 (text_length s) then append_text (take_text 157 s) "..." else s

    abbrev tools_suffix : String → String
    tools_suffix names = if str_eq names "" then "" else append_text " tools=" names

    summary_line : AgentMessage → String
    unfolding on_one_line join_texts take_text
    summary_line m =
        let content = shortened (on_one_line (strip (or_else m.content ""))) in
        let names = join_texts "," (map (λ (c : ToolCall). c.name) m.tool_calls) in
        strip (
          append_text (role_text m.role)
            (append_text ":" (append_text content (tools_suffix names))))

    -- `DeterministicMemorySummarizer.summarize`
    unfoldable pub summarize : String → ℕ → List AgentMessage → AgentMessage
    unfolding summary_line
    summarize id now ms = system_message id now (
        append_text "Earlier interaction history summary:\n"
          (join_texts "\n" (map summary_line ms)))

    abbrev is_nonempty : List AgentMessage → Bool
    is_nonempty [] = false
    is_nonempty (m ∷ ms) = true

    -- `compressor` is code of its own, if there is one.
    abbrev compressed :
        Option (List AgentMessage → ℕ → List AgentMessage)
        → ℕ
        → List AgentMessage
        → List AgentMessage
    compressed none limit recent = recent
    compressed (some compress) limit recent =
        if is_nonempty recent then compress recent limit else recent

    abbrev snapshot_of : Option InterviewBlackboard → Option InterviewMemorySnapshot
    snapshot_of none = none
    snapshot_of (some board) = some (from_blackboard board 8)

    -- `MemoryContextBuilder.build`, with the identifier and the time of the summary.
    unfoldable pub build_context :
        Option (List AgentMessage → ℕ → List AgentMessage)
        → SessionMemory
        → String
        → Option InterviewBlackboard
        → ℕ
        → ℕ
        → String
        → ℕ
        → MemoryContext
    build_context compressor memory key blackboard max_recent max_summary id now =
        let all = history memory key none in
        let recent = if ltb 0 max_recent then last_n max_recent all else [] in
        let older = if ltb 0 max_recent then take (length all - max_recent) all else all in
        record {
          summary =
              if is_nonempty older
              then some (summarize id now (last_n max_summary older))
              else none;
          recent_messages = compressed compressor max_recent recent;
          domain_snapshot = snapshot_of blackboard;
        }
