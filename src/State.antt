-- ===== src/State.antt =====
-- src/litweave/state.py: `SurveyState`, with a dumped model kept as the record that it was dumped from.
use surveyforge.Base.{ℕ, Bool, String, Option, none, List, [], Dict}
use surveyforge.Runtime.Json.{Json}
use surveyforge.Schemas.Planner.{PlannerSection}
use surveyforge.Schemas.Research.{Source}
use surveyforge.Schemas.Synthesis.{SynthesizerOutput}

-- A dumped `CandidatePaper`, or the stub that a forced exit writes.
pub record Note : Type 0 where
  pub paper_id : String
  pub title : String
  pub source : Source
  pub why_relevant : String
  pub handoff_to_deep : Bool
  pub forced_exit_stub : Bool

pub record SurveyState : Type 0 where
  pub topic : String
  pub outline : List PlannerSection
  pub section_notes : Dict (List Note)
  pub deep_read_queue : List String
  pub structured_extracts : Dict SynthesizerOutput
  pub section_drafts : Dict String
  pub section_critiques : Dict Json
  pub final_critique : Option Json
  pub citations : List Json
  pub retry_counts : Dict ℕ
  pub final_survey : Option String

unfoldable pub make_initial_state : String → SurveyState
make_initial_state topic = record {
  topic = topic;
  outline = [];
  section_notes = [];
  deep_read_queue = [];
  structured_extracts = [];
  section_drafts = [];
  section_critiques = [];
  final_critique = none;
  citations = [];
  retry_counts = [];
  final_survey = none;
}
