-- ===== src/Checkpoint/Stored.antt =====
-- Artifacts read from JSON (src/interview_agent_runtime/checkpoint/stores.py). The identifier and the
-- time that the constructors make, where the file has none, are given by the caller.
use interviewer.Prelude.{ℕ, String, false, Option, none, some, [], if◌then◌else◌}
use interviewer.Floats.{Floats}
use interviewer.Unicode.{Unicode}
use interviewer.Values.{Value, str, Fields, end, type_error, value_error, Result, ok, err, ◌>>=◌}
use interviewer.Artifacts.{
  ArtifactBase, CandidateProfileArtifact, InterviewPlanArtifact, QuestionArtifact, AnswerArtifact,
  Evidence, EvaluationArtifact, FollowUpDecisionArtifact, InterviewReportArtifact,
}
use interviewer.Artifacts.Make.{
  new_base, candidate_profile_artifact, interview_plan_artifact, question_artifact, new_answer,
  evaluation_artifact, follow_up_decision_artifact, interview_report_artifact, full,
}
use interviewer.Batch.{get_field}
use interviewer.Evaluation.{is_true}
use interviewer.Checkpoint.Json.{
  read_any, read_text, read_bool, read_float, read_optional, read_list, read_texts, read_dict,
  read_object, read_filled, get_or_read, get_or,
}
use interviewer.Checkpoint.Session.{Times}
use interviewer.Checkpoint.Profiles.{read_position, read_candidate, read_plan}

module _ ⦃F : Floats⦄ where
  -- `_evidence`
  unfoldable pub read_evidence : Fields → Result Evidence
  read_evidence json = do
    excerpt ← get_or read_text json "answer_excerpt" ""
    quote_or_summary ← get_or read_text json "quote_or_summary" excerpt
    quote ← get_or read_text json "quote_or_summary" ""
    answer_excerpt ← get_or read_text json "answer_excerpt" quote
    dimension ← get_or read_text json "dimension" ""
    claim ← get_or read_text json "claim" ""
    source_answer_id ← get_or read_text json "source_answer_id" ""
    confidence ← get_or read_float json "confidence" (F.decimal 0 1)
    evidence_id ← get_or read_text json "evidence_id" ""
    skill ← get_or (read_optional read_text) json "skill" none
    source_question_id ← get_or read_text json "source_question_id" ""
    evidence_type ← get_or read_text json "evidence_type" "positive"
    polarity ← get_or read_text json "polarity" evidence_type
    ok (record {
      dimension = dimension;
      claim = claim;
      source_answer_id = source_answer_id;
      confidence = confidence;
      evidence_id = evidence_id;
      skill = skill;
      source_question_id = source_question_id;
      evidence_type = evidence_type;
      polarity = polarity;
      quote_or_summary = quote_or_summary;
      answer_excerpt = answer_excerpt;
    })

module _ ⦃F : Floats⦄ ⦃T : Times⦄ where
  abbrev parsed : Option ℕ → Result ℕ
  parsed none = err value_error
  parsed (some t) = ok t

  -- `datetime.fromisoformat(value)`
  abbrev time_from : Value → Result ℕ
  time_from (str s) = parsed (T.fromisoformat s)
  time_from _ = err type_error

  -- A time if the value counts as true, and what it is otherwise.
  abbrev pub time_or : Option Value → ℕ → Result ℕ
  time_or none otherwise = ok otherwise
  time_or (some v) otherwise = if is_true v then time_from v else ok otherwise

  -- `_copy_base`
  unfoldable pub copy_base : Fields → ArtifactBase → Result ArtifactBase
  copy_base json base = do
    id ← get_or read_text json "id" base.id
    created_at ← time_or (get_field json "created_at") base.created_at
    metadata ← get_or (read_dict read_any) json "metadata" []
    ok (record base { id = id; created_at = created_at; metadata = metadata })

  module _ ⦃U : Unicode⦄ (fresh : String → String) (now : ℕ) where
    abbrev made : String
    made = fresh "artifact"

    unfoldable pub read_candidate_artifact : Fields → Result CandidateProfileArtifact
    read_candidate_artifact json = do
      owner ← get_or read_text json "owner" "ProfileAgent"
      candidate_profile ←
          get_or_read (read_object read_candidate) json "candidate_profile" (read_candidate end)
      position_profile ← get_or (λ v. read_filled read_position v) json "position_profile" none
      resume_id ← get_or read_text json "resume_id" ""
      confidence ← get_or read_float json "confidence" full
      let artifact =
          candidate_profile_artifact owner made now candidate_profile position_profile resume_id
            confidence
      base ← copy_base json artifact.base
      ok (record artifact { base = base })

    unfoldable pub read_plan_artifact : Fields → Result InterviewPlanArtifact
    read_plan_artifact json = do
      owner ← get_or read_text json "owner" "PlannerAgent"
      plan ← get_or_read (read_object read_plan) json "plan" (read_plan end)
      let artifact = interview_plan_artifact owner made now plan full
      base ← copy_base json artifact.base
      ok (record artifact { base = base })

    unfoldable pub read_question : Fields → Result QuestionArtifact
    read_question json = do
      owner ← get_or read_text json "owner" "QuestionAgent"
      question_id ← get_or read_text json "question_id" ""
      title ← get_or read_text json "title" ""
      dimension ← get_or read_text json "dimension" ""
      description ← get_or read_text json "description" ""
      text ← get_or (read_optional read_text) json "text" none
      difficulty ← get_or read_text json "difficulty" "medium"
      question_type ← get_or read_text json "question_type" "technical"
      reference_answer ← get_or read_text json "reference_answer" ""
      source ← get_or read_text json "source" "llm"
      is_follow_up ← get_or read_bool json "is_follow_up" false
      target_evidence ← get_or read_texts json "target_evidence" []
      expected_points ← get_or read_texts json "expected_points" []
      related_skills ← get_or read_texts json "related_skills" []
      tags ← get_or read_texts json "tags" []
      parent_question_id ← get_or (read_optional read_text) json "parent_question_id" none
      let artifact =
          question_artifact
            (record {
              base = new_base "question" owner made now full;
              question_id = question_id;
              title = title;
              dimension = dimension;
              description = description;
              difficulty = difficulty;
              question_type = question_type;
              reference_answer = reference_answer;
              source = source;
              is_follow_up = is_follow_up;
              target_evidence = target_evidence;
              expected_points = expected_points;
              related_skills = related_skills;
              tags = tags;
              parent_question_id = parent_question_id;
              text = "";
            })
            text
      base ← copy_base json artifact.base
      ok (record artifact { base = base })

    unfoldable pub read_answer : Fields → Result AnswerArtifact
    read_answer json = do
      owner ← get_or read_text json "owner" "Candidate"
      question_id ← get_or read_text json "question_id" ""
      text ← get_or read_text json "text" ""
      source ← get_or read_text json "source" "text"
      duration_seconds ← get_or (read_optional read_float) json "duration_seconds" none
      let artifact =
          new_answer owner made now (fresh "answer") question_id text source duration_seconds
      answer_id ← get_or read_text json "answer_id" artifact.answer_id
      normalized_text ← get_or read_text json "normalized_text" artifact.normalized_text
      base ← copy_base json artifact.base
      ok (record artifact { base = base; answer_id = answer_id; normalized_text = normalized_text })

    unfoldable pub read_evaluation : Fields → Result EvaluationArtifact
    read_evaluation json = do
      owner ← get_or read_text json "owner" "EvaluatorAgent"
      question_id ← get_or read_text json "question_id" ""
      answer_id ← get_or read_text json "answer_id" ""
      overall_score ← get_or read_float json "overall_score" (F.decimal 0 1)
      score ← get_or read_float json "score" overall_score
      dimension_scores ← get_or (read_dict read_float) json "dimension_scores" []
      evidence ← get_or (read_list (read_object read_evidence)) json "evidence" []
      missing_points ← get_or read_texts json "missing_points" []
      strengths ← get_or read_texts json "strengths" []
      confidence ← get_or read_float json "confidence" full
      let artifact =
          evaluation_artifact owner made now question_id answer_id score dimension_scores evidence
            missing_points strengths confidence
      base ← copy_base json artifact.base
      ok (record artifact { base = base })

    unfoldable pub read_follow_up : Fields → Result FollowUpDecisionArtifact
    read_follow_up json = do
      owner ← get_or read_text json "owner" "FollowUpAgent"
      question_id ← get_or read_text json "question_id" ""
      need_follow_up ← get_or read_bool json "need_follow_up" false
      confidence ← get_or read_float json "confidence" full
      target ← get_or (read_optional read_text) json "target" none
      reason ← get_or (read_optional read_text) json "reason" none
      missing_evidence ← get_or read_texts json "missing_evidence" []
      let artifact =
          follow_up_decision_artifact owner made now question_id need_follow_up confidence target
            reason missing_evidence
      normalized_target ← get_or read_text json "normalized_target" artifact.normalized_target
      base ← copy_base json artifact.base
      ok (record artifact { base = base; normalized_target = normalized_target })

    unfoldable pub read_report : Fields → Result InterviewReportArtifact
    read_report json = do
      owner ← get_or read_text json "owner" "ReportAgent"
      overall_score ← get_or read_float json "overall_score" (F.decimal 0 1)
      dimension_scores ← get_or (read_dict read_float) json "dimension_scores" []
      verified_skills ← get_or read_texts json "verified_skills" []
      weak_skills ← get_or read_texts json "weak_skills" []
      evidence ← get_or (read_list (read_object read_evidence)) json "evidence" []
      role_match ← get_or read_text json "role_match" ""
      insufficient_evidence_areas ← get_or read_texts json "insufficient_evidence_areas" []
      interview_summary ← get_or read_text json "interview_summary" ""
      hiring_recommendation ← get_or read_text json "hiring_recommendation" ""
      improvement_suggestions ← get_or read_texts json "improvement_suggestions" []
      let artifact =
          interview_report_artifact
            (record {
              base = new_base "interview_report" owner made now full;
              overall_score = overall_score;
              dimension_scores = dimension_scores;
              verified_skills = verified_skills;
              weak_skills = weak_skills;
              evidence = evidence;
              role_match = role_match;
              insufficient_evidence_areas = insufficient_evidence_areas;
              interview_summary = interview_summary;
              hiring_recommendation = hiring_recommendation;
              improvement_suggestions = improvement_suggestions;
              role_match_score = overall_score;
              verified_strengths = [];
              weaknesses = [];
              key_evidence = [];
            })
            none
      base ← copy_base json artifact.base
      ok (record artifact { base = base })
