-- ===== src/Skills.antt =====
-- Skills and their registry (src/interview_agent_runtime/skills/registry.py), with the execution
-- strategies of execution.py.
use interviewer.Prelude.{ℕ, String, Option, none, some, List, Dict, lookup, insert}
use interviewer.Floats.{Floats, Float}
use interviewer.Values.{Result, ok, err, key_error}

pub data ExecutionStrategy : Type 0 where
  deterministic structured_llm react : ExecutionStrategy

module _ ⦃F : Floats⦄ where
  pub record SkillDefinition : Type 0 where
    pub name : String
    pub description : String
    pub agent : String
    pub prompt : String
    pub allowed_tools : List String
    pub output_schema : String
    pub timeout : Float
    pub retry : ℕ
    pub max_tokens : ℕ
    pub version : String
    pub execution_strategy : Option ExecutionStrategy
    pub max_iterations : ℕ
    pub max_tool_calls : ℕ
    pub max_duplicate_calls : ℕ

  abbrev pub SkillRegistry : Type 0
  SkillRegistry = Dict SkillDefinition

  unfoldable pub register_skill : SkillRegistry → SkillDefinition → SkillRegistry
  register_skill skills skill = insert skills skill.name skill

  found : Option SkillDefinition → Result SkillDefinition
  found none = err key_error
  found (some s) = ok s

  unfoldable pub resolve_skill : SkillRegistry → String → Result SkillDefinition
  unfolding found
  resolve_skill skills name = found (lookup skills name)
