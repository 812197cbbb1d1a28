-- ===== src/Checkpoint/Restored.antt =====
-- What is left of a blackboard after it was saved as JSON and loaded again
-- (src/interview_agent_runtime/checkpoint/stores.py): the readers give neither the plan's policy nor
-- the confidence of four kinds of artifacts back, and the constructors derive some fields anew.
use interviewer.Prelude.{String, some, take}
use interviewer.Floats.{Floats}
use interviewer.Artifacts.{
  ArtifactBase, CandidateProfileArtifact, InterviewPlanArtifact, QuestionArtifact, AnswerArtifact,
  EvaluationArtifact, FollowUpDecisionArtifact, InterviewReportArtifact,
}
use interviewer.Artifacts.Make.{or_items, full}
use interviewer.Blackboard.{InterviewBlackboard, or_text}
use interviewer.Evaluation.Points.{dedupe}
use interviewer.Checkpoint.Json.{map_list, map_option}

module _ ⦃F : Floats⦄ where
  -- The confidence is the default one.
  abbrev unsure : String → ArtifactBase → ArtifactBase
  unsure kind base = record base { kind = kind; confidence = full }

  abbrev of_kind : String → ArtifactBase → ArtifactBase
  of_kind kind base = record base { kind = kind }

  abbrev pub restored_candidate : CandidateProfileArtifact → CandidateProfileArtifact
  restored_candidate a = record a { base = of_kind "candidate_profile" a.base }

  abbrev pub restored_plan : InterviewPlanArtifact → InterviewPlanArtifact
  restored_plan a = record a { base = unsure "interview_plan" a.base }

  abbrev pub restored_question : QuestionArtifact → QuestionArtifact
  restored_question q = record q {
    base = unsure "question" q.base;
    text = or_text (some q.text) q.title;
    expected_points = or_items q.expected_points q.target_evidence;
  }

  abbrev pub restored_answer : AnswerArtifact → AnswerArtifact
  restored_answer a = record a { base = unsure "answer" a.base }

  abbrev pub restored_evaluation : EvaluationArtifact → EvaluationArtifact
  restored_evaluation e = record e { base = of_kind "evaluation" e.base; overall_score = e.score }

  abbrev pub restored_follow_up : FollowUpDecisionArtifact → FollowUpDecisionArtifact
  restored_follow_up d = record d { base = of_kind "follow_up_decision" d.base }

  abbrev pub restored_report : InterviewReportArtifact → InterviewReportArtifact
  restored_report r = record r {
    base = unsure "interview_report" r.base;
    role_match_score = r.overall_score;
    verified_strengths = r.verified_skills;
    weaknesses = r.weak_skills;
    key_evidence = take 8 r.evidence;
  }

  abbrev pub restored : InterviewBlackboard → InterviewBlackboard
  restored board = record board {
    candidate_profile = map_option restored_candidate board.candidate_profile;
    interview_plan = map_option restored_plan board.interview_plan;
    current_question = map_option restored_question board.current_question;
    question_history = map_list restored_question board.question_history;
    answers = map_list restored_answer board.answers;
    evaluations = map_list restored_evaluation board.evaluations;
    follow_up_decisions = map_list restored_follow_up board.follow_up_decisions;
    report = map_option restored_report board.report;
    session_allowed_tools = map_option dedupe board.session_allowed_tools;
    asked_question_ids = dedupe board.asked_question_ids;
    followed_targets = dedupe board.followed_targets;
    plan_policy = record { weak_score_threshold = F.of_ℕ 65; high_score_threshold = F.of_ℕ 82 };
  }
