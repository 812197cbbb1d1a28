-- ===== src/Questioning.antt =====
-- `QuestionGenerationPipeline` (src/interview_agent_runtime/questioning/pipeline.py): the next
-- question of an interview. The view of the questioner shares its plan with the blackboard, so one
-- blackboard stands for both. The items of the question bank are read from the value that the tool
-- `question_bank.search` gives; this reading, identifiers and the time are arguments.
pub mod Validation
pub mod Dimensions
use Prim.Native.String.{◌++◌ as append_text}
use interviewer.Prelude.{
  ℕ, zero, suc, ◌+◌, String, str_eq, Bool, true, false, not, ◌&&◌, ◌||◌, Option, none, some, List,
  [], ◌∷◌, ◌++◌, if◌then◌else◌, or_else, lookup,
}
use interviewer.Floats.{Floats, Float}
use interviewer.Unicode.{Unicode}
use interviewer.Values.{
  Value, int, pos, str, list, Items, nil, cons, Fields, end, field, Error, Result, ok, err,
  runtime_error,
}
use interviewer.Exec.{Exec, pure, raise, ◌>>=◌}
use interviewer.Stage
use interviewer.Stage.{InterviewStage}
use interviewer.Plan.{InterviewDimension, InterviewPlan, next_dimension}
use interviewer.Artifacts.{
  ArtifactBase, CandidateProfile, QuestionArtifact, FollowUpDecisionArtifact,
}
use interviewer.Blackboard.{
  InterviewBlackboard, plan, with_plan, candidate, or_text, latest_follow_up_decision,
}
use interviewer.Tools.{Host, World, ToolRegistry, ToolContext, call}
use interviewer.Evaluation.{Texts}
use interviewer.Questioning.Validation.{validate}

module _ ⦃F : Floats⦄ where
  -- An item of the bank: what `item.get(…)` finds.
  pub record BankItem : Type 0 where
    pub question_id : Option String
    pub title : Option String
    pub dimension : Option String
    pub difficulty : Option String
    pub reference_answer : Option String
    pub source : Option String
    pub target_evidence : Option (List String)
    pub expected_points : Option (List String)
    pub related_skills : Option (List String)
    pub tags : Option (List String)

  -- The blackboard and the world of the tools, which change.
  pub record Asking ⦃H : Host⦄ : Type 0 where
    pub board : InterviewBlackboard
    pub world : World

  -- What the pipeline is given besides: the tools, the names of agent and skill, the reading of the
  -- bank's value, the random part of identifier number `n`, and the time.
  pub record Pipeline ⦃H : Host⦄ : Type 0 where
    pub registry : ToolRegistry
    pub visible_tools : List String
    pub agent_name : String
    pub skill_name : String
    pub items : Value → Result (List BankItem)
    pub random : ℕ → String
    pub now : ℕ

  abbrev pub artifact_id : String → String → String
  artifact_id prefix random = append_text prefix (append_text "_" random)

  abbrev pub question_base : String → String → ℕ → ArtifactBase
  question_base owner id now = record {
    kind = "question";
    owner = owner;
    id = id;
    created_at = now;
    confidence = F.of_ℕ 1;
    metadata = [];
  }

  abbrev list_or : List String → List String → List String
  list_or [] otherwise = otherwise
  list_or (s ∷ ss) otherwise = s ∷ ss

  -- `_candidate_to_artifact`; the constructor takes the title for the text, and the evidence for
  -- missing points.
  unfoldable pub candidate_to_artifact :
      ArtifactBase → String → BankItem → InterviewDimension → QuestionArtifact
  candidate_to_artifact base id item dimension =
      let evidence = or_else item.target_evidence [] in
      record {
        base = base;
        question_id = or_text item.question_id id;
        title = or_else item.title "";
        text = or_else item.title "";
        description = "";
        dimension = or_text item.dimension dimension.name;
        difficulty = or_text item.difficulty dimension.difficulty;
        question_type = "technical";
        reference_answer = or_else item.reference_answer "";
        source = or_else item.source "question_bank";
        is_follow_up = false;
        target_evidence = evidence;
        expected_points = list_or (or_else item.expected_points evidence) evidence;
        related_skills = or_else item.related_skills [];
        tags = or_else item.tags [];
        parent_question_id = none;
      }

  -- `name.replace(" ", "_")`
  unfoldable pub underscored : String → String
  underscored String.[] = ""
  underscored (String.◌∷◌ c s) =
      let rest = underscored s in
      if str_eq (String.◌∷◌ c "") " " then append_text "_" rest else String.◌∷◌ c rest

  abbrev first_hint : List String → String
  first_hint [] = ""
  first_hint (s ∷ ss) = append_text "，结合候选人简历中的 " s

  abbrev skill_hint : Option CandidateProfile → String
  skill_hint none = ""
  skill_hint (some c) = first_hint c.skills

  -- `_fallback_question`
  unfoldable pub fallback_question :
      ⦃U : Unicode⦄
      → ArtifactBase
      → String
      → InterviewBlackboard
      → InterviewDimension
      → QuestionArtifact
  unfolding underscored
  fallback_question ⦃U = U⦄ base random board dimension =
      let title = append_text "请围绕 " (
        append_text dimension.name
          (append_text (skill_hint (candidate board)) "，说明一个你实际处理过的问题、方案和结果。")) in
      record {
        base = base;
        question_id =
            artifact_id (append_text "fallback_" (U.lower_text (underscored dimension.name)))
              random;
        title = title;
        text = title;
        description = "";
        dimension = dimension.name;
        difficulty = dimension.difficulty;
        question_type = "technical";
        reference_answer = "需要包含场景、约束、方案、权衡、结果和复盘。";
        source = "runtime_fallback";
        is_follow_up = false;
        target_evidence = "场景" ∷ "方案" ∷ "权衡" ∷ "结果" ∷ [];
        expected_points = "场景" ∷ "约束" ∷ "方案" ∷ "权衡" ∷ "结果" ∷ [];
        related_skills = dimension.name ∷ [];
        tags = [];
        parent_question_id = none;
      }

  abbrev target_of : Option FollowUpDecisionArtifact → String
  target_of none = "关键细节"
  target_of (some d) = or_text d.target "关键细节"

  abbrev parent_of : Option QuestionArtifact → String
  parent_of none = "follow-up"
  parent_of (some q) = or_text q.parent_question_id q.question_id

  abbrev of_question : {A : Type 0} → Option QuestionArtifact → (QuestionArtifact → A) → A → A
  of_question none f otherwise = otherwise
  of_question (some q) f otherwise = f q

  -- `_build_follow_up`
  unfoldable pub build_follow_up :
      ⦃T : Texts⦄ → ArtifactBase → InterviewBlackboard → QuestionArtifact
  unfolding lookup
  build_follow_up ⦃T = T⦄ base board =
      let question = board.current_question in
      let target = target_of (latest_follow_up_decision board) in
      let parent_id = parent_of question in
      let round = or_else (lookup board.question_follow_up_rounds parent_id) 0 + 1 in
      let title = append_text "刚才关于「" (append_text target "」的信息还不够，请补充你的具体做法、异常处理和结果。") in
      record {
        base = base;
        question_id = append_text parent_id (append_text ":fu" (T.str_of (int (pos round))));
        title = title;
        text = title;
        description = "";
        dimension = of_question question (λ q. q.dimension) board.current_dimension;
        difficulty = of_question question (λ q. q.difficulty) "medium";
        question_type = "technical";
        reference_answer = of_question question (λ q. q.reference_answer) "";
        source = "follow_up";
        is_follow_up = true;
        target_evidence = target ∷ [];
        expected_points = target ∷ "具体做法" ∷ "异常处理" ∷ "结果" ∷ [];
        related_skills = of_question question (λ q. q.related_skills) [];
        tags = [];
        parent_question_id = some parent_id;
      }

  abbrev texts_value : List String → Items
  texts_value [] = nil
  texts_value (t ∷ ts) = cons (str t) (texts_value ts)

  abbrev skills_of : Option CandidateProfile → List String
  skills_of none = []
  skills_of (some c) = c.skills

  module _ ⦃H : Host⦄ where
    -- `_retrieve_candidates`
    unfoldable pub retrieve_candidates : Pipeline → InterviewDimension → Exec Asking (List BankItem)
    retrieve_candidates p dimension s =
        let context : ToolContext = record {
          session_id = s.board.session_id;
          agent_name = p.agent_name;
          skill_name = p.skill_name;
          blackboard = s.board;
        } in
        let arguments : Fields = field "limit" (int (pos 5)) (
          field "dimension" (str dimension.name) (
            field "difficulty" (str dimension.difficulty)
              (field "skills" (list (texts_value (skills_of (candidate s.board)))) end))) in
        let (r, w) =
          call p.registry "question_bank.search" arguments context p.visible_tools s.world in
        (read r, record s { world = w })
      where
        read : Result Value → Result (List BankItem)
        read (ok v) = p.items v
        read (err e) = err e

    abbrev pub selected :
        Option InterviewDimension → InterviewBlackboard → Exec Asking InterviewDimension
    selected none board s = (err runtime_error, record s { board = board })
    selected (some d) board s =
        (ok d, record s { board = record board { current_dimension = d.name } })

    abbrev pub select_from : Option InterviewPlan → Exec Asking InterviewDimension
    select_from none s = (err runtime_error, s)
    select_from (some p) s =
        let (d, p') = next_dimension p s.board.capability_profile.dimension_coverage in
        selected d (with_plan s.board p') s

    -- `_select_dimension`: the plan is refreshed also where no dimension is left.
    unfoldable pub select_dimension : Exec Asking InterviewDimension
    select_dimension s = select_from (plan s.board) s

    abbrev pub is_empty : List String → Bool
    is_empty [] = true
    is_empty (s ∷ ss) = false

    module _ ⦃U : Unicode⦄ where
      -- The loop over the candidates: the first one that is accepted, or the fallback. Validation
      -- refreshes the plan of the blackboard.
      unfoldable pub first_accepted :
          Pipeline → InterviewDimension → ℕ → List BankItem → Exec Asking QuestionArtifact
      first_accepted p dimension n [] s = (
        ok (
            fallback_question
              (question_base p.agent_name (artifact_id "artifact" (p.random n)) p.now)
              (p.random (suc n)) s.board dimension),
        s,
      )
      first_accepted p dimension n (item ∷ items) s =
          let question =
            candidate_to_artifact
              (question_base p.agent_name (artifact_id "artifact" (p.random n)) p.now)
              (artifact_id "question" (p.random (suc n))) item dimension in
          let (reasons, board) = validate question s.board in
          let next = first_accepted p dimension (suc (suc n)) items (record s { board = board }) in
          if is_empty reasons then (ok question, record s { board = board }) else next

      unfoldable pub generate_next : Pipeline → Exec Asking QuestionArtifact
      generate_next p = do
        dimension ← select_dimension
        items ← retrieve_candidates p dimension
        first_accepted p dimension 0 items

      -- `generate`
      unfoldable pub generate : ⦃T : Texts⦄ → Pipeline → Exec Asking QuestionArtifact
      generate p s = elim s.board.current_stage [
        | Stage.follow_up ↦ (
          ok (
              build_follow_up
                (question_base p.agent_name (artifact_id "artifact" (p.random 0)) p.now) s.board),
          s,
        )
        | _ ↦ generate_next p s
      ]
