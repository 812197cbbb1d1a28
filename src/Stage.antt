-- ===== src/Stage.antt =====
-- `InterviewStage` (src/interview_agent_runtime/domain/stages.py).

pub data InterviewStage : Type 0 where
  init profile_analysis interview_planning question_preparing questioning : InterviewStage
  listening evaluating decision follow_up next_question next_dimension : InterviewStage
  reporting waiting_human_review finished failed : InterviewStage
