-- ===== src/Examples/Messages.antt =====
-- Runs of the memory.
use interviewer.Prelude.{◌≡◌, none, some, List, [], ◌∷◌, ◌++◌}
use interviewer.Memory.{AgentMessage, MemoryContext, SessionMemory, system_message, to_messages}
use interviewer.Memory.Trimming.{IsTrimmed, to_messages-IsTrimmed}
use interviewer.Examples.{numbers}

abbrev hello : AgentMessage
hello = system_message "m1" 1 "hello"

abbrev question_text : AgentMessage
question_text = system_message "m2" 2 "what is a generator"

abbrev two_messages : MemoryContext
two_messages = record {
  summary = some hello;
  recent_messages = question_text ∷ hello ∷ [];
  domain_snapshot = none;
}

to_messages-IsTrimmed_example :
    (some_of : List AgentMessage) × (to_messages (λ s. "{}") "m0" 0 two_messages (some 12)
      ≡ [] ++ some_of)
    × IsTrimmed 12 0 (hello ∷ question_text ∷ hello ∷ []) some_of
to_messages-IsTrimmed_example = to_messages-IsTrimmed (λ s. "{}") "m0" 0 two_messages 12

abbrev memory : SessionMemory
memory = ("s1:Planner", hello ∷ []) ∷ []
