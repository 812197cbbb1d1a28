-- ===== src/Runtime/Step/Reports.antt =====
-- How a report ends an interview (src/interview_agent_runtime/runtime/interview_runtime.py).
use interviewer.Prelude.{◌≡◌, refl, ◌∙◌, String, true, some, lookup, insert, if◌then◌else◌}
use interviewer.Floats.{Floats, FloatLaws}
use interviewer.Unicode.{Unicode}
use interviewer.Values.{ok}
use interviewer.Stage.{reporting, finished, waiting_human_review}
use interviewer.Artifacts.{interview_report, InterviewReportArtifact}
use interviewer.Blackboard.{InterviewBlackboard, publish}
use interviewer.StateMachine.{transition}
use interviewer.Skills.{SkillDefinition}
use interviewer.Review.Reasons.{needs_review, requires-evaluate}
use interviewer.Runtime.{Outside, RuntimeState, RuntimeStepResult, InterviewRuntime, advance}
use interviewer.Runtime.Progress.{saved_found}
use interviewer.Runtime.Step.{accept_artifact, publish_live, review_events, review, is_schema_valid}

module _ ⦃F : Floats⦄ ⦃U : Unicode⦄ ⦃E : Outside⦄ where
  module _ (rt : InterviewRuntime) (report : InterviewReportArtifact)
      (context : InterviewBlackboard) (s : RuntimeState) where
    abbrev published : InterviewBlackboard
    published = (publish (E.now s.outside) (interview_report report) context).1

    -- The blackboard that is saved.
    abbrev ended : InterviewBlackboard
    ended =
        (review rt (interview_report report) (
          advance rt reporting (some (interview_report report)) published
            (record s { store = insert s.store published.session_id published }))).1

    ended-stage :
        FloatLaws F
        → (ended.current_stage ≡ (
            if needs_review rt.human_review_policy context report
            then waiting_human_review
            else finished))
          × (ended.review_required ≡ needs_review rt.human_review_policy context report)
    unfolding publish advance transition review
    ended-stage laws =
        rw
          (requires-evaluate laws rt.human_review_policy
            (record published { current_stage = finished }) report)
          (refl, refl)

    ended-report : (ended.report ≡ some report) × (ended.session_id ≡ context.session_id)
    unfolding publish advance transition review
    ended-report = (refl, refl)

  -- The blackboard of a session that a report has ended.
  pub record IsReported (rt : InterviewRuntime) (session : String)
      (report : InterviewReportArtifact) (context : InterviewBlackboard) (s : RuntimeState)
      : Type 0 where
    pub board : InterviewBlackboard
    pub stored : lookup s.store session ≡ some board
    pub reported : board.report ≡ some report
    pub stage : board.current_stage ≡ (
        if needs_review rt.human_review_policy context report
        then waiting_human_review
        else finished)
    pub flagged : board.review_required ≡ needs_review rt.human_review_policy context report

  -- If the floats are numbers, and a step of the reporting stage takes, for a blackboard that has
  -- the name of the session, a report that the schema of the skill admits, the step succeeds and
  -- the stored session has the report; it is finished where none of the four tests of the policy
  -- calls for a human, and else waits for one, with review_required set.
  pub report_completes :
      FloatLaws F
      → (rt : InterviewRuntime) (session : String) (skill : SkillDefinition)
        (report : InterviewReportArtifact) (context : InterviewBlackboard) (s : RuntimeState)
      → context.session_id ≡ session
      → is_schema_valid (interview_report report) skill.output_schema ≡ true
      → let taken =
          accept_artifact rt session reporting skill (interview_report report) context s in
        ((r : RuntimeStepResult) × (taken.0 ≡ ok r)) × IsReported rt session report context taken.1
  unfolding accept_artifact publish_live review_events publish advance transition review
  report_completes laws rt session skill report context s named valid =
      let b = ended rt report context s in
      let (stage, flagged) = ended-stage rt report context s laws in
      let (reported, same_id) = ended-report rt report context s in
      rw valid (
        (_, refl),
        record {
          board = b;
          stored = saved_found session _ b (same_id ∙ named);
          reported = reported;
          stage = stage;
          flagged = flagged;
        },
      )
