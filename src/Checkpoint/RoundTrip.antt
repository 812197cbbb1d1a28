-- ===== src/Checkpoint/RoundTrip.antt =====
-- Profiles and plans that are written are read back as they were.
pub mod Artifacts
pub mod Records
pub mod Board
use interviewer.Prelude.{◌≡◌, refl, Option, none, some, List, [], ◌∷◌}
use interviewer.Floats.{Floats}
use interviewer.Values.{ok}
use interviewer.Plan.{InterviewDimension, InterviewPlan}
use interviewer.Capability.{CapabilityProfile}
use interviewer.Artifacts.{
  ProjectExperience, EducationExperience, PositionProfile, CandidateProfile,
}
use interviewer.Batch.{get_field}
use interviewer.Checkpoint.Json.{
  stored, read_list, list_value, read_list, list_value, read_list-same, read_texts-texts_value,
  read_floats-lem, read_numbers-lem, read_optional_text-lem, read_optional_float-lem, read_object,
}
use interviewer.Checkpoint.Encode.{
  object, project_fields, education_fields, position_fields, candidate_fields, dimension_fields,
  plan_fields, capability_fields,
}
use interviewer.Checkpoint.Profiles.{
  read_project, read_education, read_position, read_candidate, read_dimension, read_plan,
  read_capability,
}

module _ ⦃F : Floats⦄ where
  pub project-lem : (a : ProjectExperience) → read_project (project_fields a) ≡ ok a
  unfolding read_project project_fields get_field
  project-lem a = simp stored

  projects-lem :
      (xs : List ProjectExperience)
      → read_list (read_object read_project) (list_value (object project_fields) xs) ≡ ok xs
  projects-lem xs = read_list-same (read_object read_project) (object project_fields) xs project-lem

  pub education-lem : (a : EducationExperience) → read_education (education_fields a) ≡ ok a
  unfolding read_education education_fields get_field
  education-lem a = refl

  educations-lem :
      (xs : List EducationExperience)
      → read_list (read_object read_education) (list_value (object education_fields) xs) ≡ ok xs
  educations-lem xs =
      read_list-same (read_object read_education) (object education_fields) xs education-lem

  pub position-lem : (a : PositionProfile) → read_position (position_fields a) ≡ ok a
  unfolding read_position position_fields get_field
  position-lem a = simp stored

  pub candidate-lem : (a : CandidateProfile) → read_candidate (candidate_fields a) ≡ ok a
  unfolding read_candidate candidate_fields get_field
  candidate-lem a = simp (projects-lem, educations-lem, stored)

  pub dimension-lem : (a : InterviewDimension) → read_dimension (dimension_fields a) ≡ ok a
  unfolding read_dimension dimension_fields get_field
  dimension-lem a = refl

  dimensions-lem :
      (xs : List InterviewDimension)
      → read_list (read_object read_dimension) (list_value (object dimension_fields) xs) ≡ ok xs
  dimensions-lem xs =
      read_list-same (read_object read_dimension) (object dimension_fields) xs dimension-lem

  pub plan-lem : (a : InterviewPlan) → read_plan (plan_fields a) ≡ ok a
  unfolding read_plan plan_fields get_field
  plan-lem a = simp dimensions-lem

  pub capability-lem : (a : CapabilityProfile) → read_capability (capability_fields a) ≡ ok a
  unfolding read_capability capability_fields get_field
  capability-lem a = simp stored
