-- ===== src/Schemas/Planner.antt =====
-- src/litweave/schemas/planner.py
use surveyforge.Base.{Bool, ◌&&◌, String, List, length, leb, all, ℕ}

pub record PlannerSection : Type 0 where
  pub section_id : String
  pub title : String
  pub research_questions : List String
  pub must_find_evidence : List String

pub record PlannerOutput : Type 0 where
  pub topic : String
  pub sections : List PlannerSection
  pub rationale : String

-- `Field(min_length=lo, max_length=hi)` on a list
abbrev pub length_between {ℓ} : {A : Type ℓ} → ℕ → ℕ → List A → Bool
length_between lo hi xs = leb lo (length xs) && leb (length xs) hi

unfoldable pub planner_section_valid : PlannerSection → Bool
planner_section_valid s =
    length_between 2 4 s.research_questions && length_between 1 3 s.must_find_evidence

unfoldable pub planner_output_valid : PlannerOutput → Bool
unfolding planner_section_valid
planner_output_valid o = length_between 3 7 o.sections && all planner_section_valid o.sections
