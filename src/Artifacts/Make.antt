-- ===== src/Artifacts/Make.antt =====
-- The constructors of the artifacts (src/interview_agent_runtime/artifacts/models.py). The
-- identifier and the time of the base class are given by the caller.
use interviewer.Prelude.{ℕ, String, Bool, Option, List, [], ◌∷◌, or_else, take, Dict}
use interviewer.Floats.{Floats, Float}
use interviewer.Unicode.{Unicode, normalize_text, normalize_follow_up_target}
use interviewer.Plan.{InterviewPlan}
use interviewer.Artifacts.{
  ArtifactBase, CandidateProfile, PositionProfile, CandidateProfileArtifact, InterviewPlanArtifact,
  QuestionArtifact, AnswerArtifact, Evidence, EvaluationArtifact, FollowUpDecisionArtifact,
  InterviewReportArtifact,
}
use interviewer.Blackboard.{or_text}

-- `items or otherwise`
abbrev pub or_items {ℓ} : {A : Type ℓ} → List A → List A → List A
or_items [] otherwise = otherwise
or_items (x ∷ xs) otherwise = x ∷ xs

module _ ⦃F : Floats⦄ where
  -- `AgentArtifact.__init__`
  abbrev pub new_base : String → String → String → ℕ → Float → ArtifactBase
  new_base kind owner id now confidence = record {
    kind = kind;
    owner = owner;
    id = id;
    created_at = now;
    confidence = confidence;
    metadata = [];
  }

  abbrev pub full : Float
  full = F.decimal 10 1

  abbrev pub candidate_profile_artifact :
      String
      → String
      → ℕ
      → CandidateProfile
      → Option PositionProfile
      → String
      → Float
      → CandidateProfileArtifact
  candidate_profile_artifact owner id now candidate position resume_id confidence = record {
    base = new_base "candidate_profile" owner id now confidence;
    candidate_profile = candidate;
    position_profile = position;
    resume_id = resume_id;
  }

  abbrev pub interview_plan_artifact :
      String → String → ℕ → InterviewPlan → Float → InterviewPlanArtifact
  interview_plan_artifact owner id now plan confidence = record {
    base = new_base "interview_plan" owner id now confidence;
    plan = plan;
  }

  -- What `QuestionArtifact` makes of the fields that it is given: a text that is missing is the
  -- title, and expected points that are missing are the evidence that is looked for.
  abbrev pub question_artifact : QuestionArtifact → Option String → QuestionArtifact
  question_artifact given text = record given {
    text = or_text text given.title;
    expected_points = or_items given.expected_points given.target_evidence;
  }

  abbrev pub new_answer :
      ⦃U : Unicode⦄
      → String
      → String
      → ℕ
      → String
      → String
      → String
      → String
      → Option Float
      → AnswerArtifact
  new_answer owner id now answer_id question_id text source duration_seconds = record {
    base = new_base "answer" owner id now full;
    question_id = question_id;
    answer_id = answer_id;
    text = text;
    normalized_text = normalize_text text;
    source = source;
    duration_seconds = duration_seconds;
  }

  abbrev pub evaluation_artifact :
      String
      → String
      → ℕ
      → String
      → String
      → Float
      → Dict Float
      → List Evidence
      → List String
      → List String
      → Float
      → EvaluationArtifact
  evaluation_artifact owner id now question_id answer_id score dimension_scores evidence missing
        strengths confidence =
      record {
        base = new_base "evaluation" owner id now confidence;
        question_id = question_id;
        answer_id = answer_id;
        score = score;
        overall_score = score;
        dimension_scores = dimension_scores;
        strengths = strengths;
        evidence = evidence;
        missing_points = missing;
      }

  abbrev pub follow_up_decision_artifact :
      ⦃U : Unicode⦄
      → String
      → String
      → ℕ
      → String
      → Bool
      → Float
      → Option String
      → Option String
      → List String
      → FollowUpDecisionArtifact
  follow_up_decision_artifact owner id now question_id need confidence target reason missing =
      record {
        base = new_base "follow_up_decision" owner id now confidence;
        question_id = question_id;
        need_follow_up = need;
        target = target;
        normalized_target = normalize_follow_up_target (or_else target "");
        reason = reason;
        missing_evidence = missing;
      }

  -- What `InterviewReportArtifact` makes of the fields that it is given: the score of the match is
  -- the overall score unless it is given, and three lists follow from others.
  abbrev pub interview_report_artifact :
      InterviewReportArtifact → Option Float → InterviewReportArtifact
  interview_report_artifact given role_match_score = record given {
    role_match_score = or_else role_match_score given.overall_score;
    verified_strengths = given.verified_skills;
    weaknesses = given.weak_skills;
    key_evidence = take 8 given.evidence;
  }
