-- ===== src/Artifacts.antt =====
-- What the agents publish (src/interview_agent_runtime/artifacts/models.py), with the profiles of
-- domain/models.py. An artifact is its class as a constructor with a record of its fields;
-- identifiers (uuid4) and times are given by the caller. A time is a number of microseconds.
pub mod Make
use interviewer.Prelude.{ℕ, String, Bool, Option, List, Dict}
use interviewer.Floats.{Floats, Float}
use interviewer.Values.{Value}
use interviewer.Plan.{InterviewPlan}

pub record ProjectExperience : Type 0 where
  pub name : String
  pub role : String
  pub description : String
  pub technologies : List String
  pub highlights : List String

pub record EducationExperience : Type 0 where
  pub school : String
  pub degree : String
  pub major : String
  pub period : String

pub record PositionProfile : Type 0 where
  pub role_name : String
  pub required_skills : List String
  pub preferred_skills : List String
  pub responsibilities : List String
  pub competency_dimensions : List String
  pub seniority : Option String
  pub keywords : List String

module _ ⦃F : Floats⦄ where
  pub record CandidateProfile : Type 0 where
    pub candidate_id : String
    pub target_role : Option String
    pub years_of_experience : Option Float
    pub skills : List String
    pub project_experiences : List ProjectExperience
    pub education : List EducationExperience
    pub strengths : List String
    pub possible_weaknesses : List String
    pub potential_gaps : List String
    pub resume_keywords : List String

  -- The fields of the base class `AgentArtifact`.
  pub record ArtifactBase : Type 0 where
    pub kind : String
    pub owner : String
    pub id : String
    pub created_at : ℕ
    pub confidence : Float
    pub metadata : Dict Value

  pub record CandidateProfileArtifact : Type 0 where
    pub base : ArtifactBase
    pub candidate_profile : CandidateProfile
    pub position_profile : Option PositionProfile
    pub resume_id : String

  pub record InterviewPlanArtifact : Type 0 where
    pub base : ArtifactBase
    pub plan : InterviewPlan

  pub record QuestionArtifact : Type 0 where
    pub base : ArtifactBase
    pub question_id : String
    pub title : String
    pub text : String
    pub description : String
    pub dimension : String
    pub difficulty : String
    pub question_type : String
    pub reference_answer : String
    pub source : String
    pub is_follow_up : Bool
    pub target_evidence : List String
    pub expected_points : List String
    pub related_skills : List String
    pub tags : List String
    pub parent_question_id : Option String

  pub record AnswerArtifact : Type 0 where
    pub base : ArtifactBase
    pub question_id : String
    pub answer_id : String
    pub text : String
    pub normalized_text : String
    pub source : String
    pub duration_seconds : Option Float

  pub record Evidence : Type 0 where
    pub dimension : String
    pub claim : String
    pub source_answer_id : String
    pub quote_or_summary : String
    pub confidence : Float
    pub evidence_id : String
    pub skill : Option String
    pub source_question_id : String
    pub answer_excerpt : String
    pub evidence_type : String
    pub polarity : String

  pub record EvaluationArtifact : Type 0 where
    pub base : ArtifactBase
    pub question_id : String
    pub answer_id : String
    pub score : Float
    pub overall_score : Float
    pub dimension_scores : Dict Float
    pub strengths : List String
    pub evidence : List Evidence
    pub missing_points : List String

  pub record FollowUpDecisionArtifact : Type 0 where
    pub base : ArtifactBase
    pub question_id : String
    pub need_follow_up : Bool
    pub target : Option String
    pub normalized_target : String
    pub reason : Option String
    pub missing_evidence : List String

  pub record InterviewReportArtifact : Type 0 where
    pub base : ArtifactBase
    pub overall_score : Float
    pub role_match_score : Float
    pub role_match : String
    pub dimension_scores : Dict Float
    pub verified_strengths : List String
    pub verified_skills : List String
    pub weaknesses : List String
    pub weak_skills : List String
    pub insufficient_evidence_areas : List String
    pub key_evidence : List Evidence
    pub evidence : List Evidence
    pub interview_summary : String
    pub hiring_recommendation : String
    pub improvement_suggestions : List String

  pub data AgentArtifact : Type 0 where
    candidate_profile : CandidateProfileArtifact → AgentArtifact
    interview_plan : InterviewPlanArtifact → AgentArtifact
    question : QuestionArtifact → AgentArtifact
    answer : AnswerArtifact → AgentArtifact
    evaluation : EvaluationArtifact → AgentArtifact
    follow_up_decision : FollowUpDecisionArtifact → AgentArtifact
    interview_report : InterviewReportArtifact → AgentArtifact
    -- An instance of none of the seven subclasses.
    other : ArtifactBase → AgentArtifact
