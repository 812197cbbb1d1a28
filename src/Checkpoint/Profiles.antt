-- ===== src/Checkpoint/Profiles.antt =====
-- Profiles and plans read from JSON (src/interview_agent_runtime/checkpoint/stores.py).
use interviewer.Prelude.{
  ℕ, ◌+◌, String, Bool, true, false, ◌&&◌, none, List, [], ◌∷◌, if◌then◌else◌, contains,
}
use interviewer.Floats.{Floats}
use interviewer.Values.{Fields, end, field, type_error, Result, ok, err, ◌>>=◌}
use interviewer.Plan.{InterviewDimension, InterviewPlan}
use interviewer.Capability.{CapabilityProfile}
use interviewer.Artifacts.{
  ProjectExperience, EducationExperience, PositionProfile, CandidateProfile,
}
use interviewer.Checkpoint.Json.{
  read_text, read_bool, read_number, read_float, read_optional, read_list, read_texts, read_dict,
  read_object, get_or, get_keyword,
}

module _ ⦃F : Floats⦄ where
  only_keys : List String → Fields → Bool
  only_keys keys end = true
  only_keys keys (field k v fs) = contains keys k && only_keys keys fs

  -- `Class(**item)`: a key that is no field is a TypeError.
  abbrev strictly : {A : Type 0} → List String → (Fields → Result A) → Fields → Result A
  strictly keys r json = if only_keys keys json then r json else err type_error

  project_of : Fields → Result ProjectExperience
  project_of json = do
    name ← get_keyword read_text json "name"
    role ← get_or read_text json "role" ""
    description ← get_or read_text json "description" ""
    technologies ← get_or read_texts json "technologies" []
    highlights ← get_or read_texts json "highlights" []
    ok (record {
      name = name;
      role = role;
      description = description;
      technologies = technologies;
      highlights = highlights;
    })

  unfoldable pub read_project : Fields → Result ProjectExperience
  unfolding project_of only_keys
  read_project json =
      strictly ("name" ∷ "role" ∷ "description" ∷ "technologies" ∷ "highlights" ∷ []) project_of
        json

  education_of : Fields → Result EducationExperience
  education_of json = do
    school ← get_keyword read_text json "school"
    degree ← get_or read_text json "degree" ""
    major ← get_or read_text json "major" ""
    period ← get_or read_text json "period" ""
    ok (record { school = school; degree = degree; major = major; period = period })

  unfoldable pub read_education : Fields → Result EducationExperience
  unfolding education_of only_keys
  read_education json = strictly ("school" ∷ "degree" ∷ "major" ∷ "period" ∷ []) education_of json

  -- `_position` of a filled object
  unfoldable pub read_position : Fields → Result PositionProfile
  read_position json = do
    role_name ← get_or read_text json "role_name" "Software Engineer"
    required_skills ← get_or read_texts json "required_skills" []
    preferred_skills ← get_or read_texts json "preferred_skills" []
    responsibilities ← get_or read_texts json "responsibilities" []
    competency_dimensions ← get_or read_texts json "competency_dimensions" []
    seniority ← get_or (read_optional read_text) json "seniority" none
    keywords ← get_or read_texts json "keywords" []
    ok (record {
      role_name = role_name;
      required_skills = required_skills;
      preferred_skills = preferred_skills;
      responsibilities = responsibilities;
      competency_dimensions = competency_dimensions;
      seniority = seniority;
      keywords = keywords;
    })

  -- `_candidate`
  unfoldable pub read_candidate : Fields → Result CandidateProfile
  read_candidate json = do
    candidate_id ← get_or read_text json "candidate_id" "candidate"
    target_role ← get_or (read_optional read_text) json "target_role" none
    years_of_experience ← get_or (read_optional read_float) json "years_of_experience" none
    skills ← get_or read_texts json "skills" []
    project_experiences ←
        get_or (read_list (read_object read_project)) json "project_experiences" []
    education ← get_or (read_list (read_object read_education)) json "education" []
    strengths ← get_or read_texts json "strengths" []
    possible_weaknesses ← get_or read_texts json "possible_weaknesses" []
    potential_gaps ← get_or read_texts json "potential_gaps" []
    resume_keywords ← get_or read_texts json "resume_keywords" []
    ok (record {
      candidate_id = candidate_id;
      target_role = target_role;
      years_of_experience = years_of_experience;
      skills = skills;
      project_experiences = project_experiences;
      education = education;
      strengths = strengths;
      possible_weaknesses = possible_weaknesses;
      potential_gaps = potential_gaps;
      resume_keywords = resume_keywords;
    })

  dimension_of : Fields → Result InterviewDimension
  dimension_of json = do
    name ← get_keyword read_text json "name"
    weight ← get_keyword read_float json "weight"
    target_level ← get_keyword read_text json "target_level"
    question_budget ← get_keyword read_number json "question_budget"
    follow_up_budget ← get_keyword read_number json "follow_up_budget"
    coverage_target ← get_keyword read_float json "coverage_target"
    difficulty ← get_keyword read_text json "difficulty"
    asked_questions ← get_or read_number json "asked_questions" 0
    current_coverage ← get_or read_float json "current_coverage" (F.decimal 0 1)
    evidence_count ← get_or read_number json "evidence_count" 0
    completed ← get_or read_bool json "completed" false
    ok (record {
      name = name;
      weight = weight;
      target_level = target_level;
      question_budget = question_budget;
      follow_up_budget = follow_up_budget;
      coverage_target = coverage_target;
      difficulty = difficulty;
      asked_questions = asked_questions;
      current_coverage = current_coverage;
      evidence_count = evidence_count;
      completed = completed;
    })

  unfoldable pub read_dimension : Fields → Result InterviewDimension
  unfolding dimension_of only_keys
  read_dimension json =
      strictly
        ("name" ∷ "weight" ∷ "target_level" ∷ "question_budget" ∷ "follow_up_budget"
          ∷ "coverage_target" ∷ "difficulty" ∷ "asked_questions" ∷ "current_coverage"
          ∷ "evidence_count" ∷ "completed" ∷ [])
        dimension_of json

  abbrev total : (InterviewDimension → ℕ) → List InterviewDimension → ℕ
  total f [] = 0
  total f (d ∷ ds) = f d + total f ds

  -- `_plan`
  unfoldable pub read_plan : Fields → Result InterviewPlan
  read_plan json = do
    dimensions ← get_or (read_list (read_object read_dimension)) json "dimensions" []
    total_question_budget ←
        get_or read_number json "total_question_budget" (total (λ d. d.question_budget) dimensions)
    total_follow_up_budget ←
        get_or read_number json "total_follow_up_budget"
          (total (λ d. d.follow_up_budget) dimensions)
    estimated_duration_minutes ← get_or read_number json "estimated_duration_minutes" 0
    current_dimension_index ← get_or read_number json "current_dimension_index" 0
    ok (record {
      dimensions = dimensions;
      total_question_budget = total_question_budget;
      total_follow_up_budget = total_follow_up_budget;
      estimated_duration_minutes = estimated_duration_minutes;
      current_dimension_index = current_dimension_index;
    })

  -- `_capability`
  unfoldable pub read_capability : Fields → Result CapabilityProfile
  read_capability json = do
    verified_skills ← get_or read_texts json "verified_skills" []
    weak_skills ← get_or read_texts json "weak_skills" []
    uncertain_skills ← get_or read_texts json "uncertain_skills" []
    dimension_scores ← get_or (read_dict read_float) json "dimension_scores" []
    dimension_coverage ← get_or (read_dict read_float) json "dimension_coverage" []
    evidence_count ← get_or (read_dict read_number) json "evidence_count" []
    ok (record {
      verified_skills = verified_skills;
      weak_skills = weak_skills;
      uncertain_skills = uncertain_skills;
      dimension_scores = dimension_scores;
      dimension_coverage = dimension_coverage;
      evidence_count = evidence_count;
    })
