-- ===== src/Agents/Wide/Node.antt =====
-- The node of src/litweave/agents/researcher_wide.py: every section of the outline in turn, then the
-- last error that a section ended with.
pub mod Researched
use surveyforge.Base.{
  Bool, true, false, String, Option, none, some, List, [], ◌∷◌, Dict, is_empty, if◌then◌else◌,
}
use surveyforge.Runtime.Errors.{Result, ok, err, key_error, validation_error}
use surveyforge.Runtime.World.{World, Exec, transaction, raise, ◌>>=◌}
use surveyforge.Runtime.Runs.{update_stage, note_error_category}
use surveyforge.Schemas.Planner.{PlannerSection, planner_section_valid}
use surveyforge.State.{Note, SurveyState}
use surveyforge.Agents.Wide.{record_section}
use surveyforge.Agents.Wide.React.{Deps, Outcome, react_one_section}

-- What the loop over sections carries.
pub record Progress : Type 0 where
  pub section_notes : Dict (List Note)
  pub deep_read_queue : List String
  pub last_error : Option String

abbrev pub or_else : Option String → Option String → Option String
or_else none last = last
or_else (some category) last = some category

unfoldable pub after_section : PlannerSection → Progress → Outcome → Result Progress
unfolding record_section
after_section section p out =
    elim (record_section section.section_id out.output out.seen p.section_notes p.deep_read_queue) [
      | err e ↦ err e
      | ok (notes, queue) ↦ ok (record {
        section_notes = notes;
        deep_read_queue = queue;
        last_error = or_else out.error_category p.last_error;
      })
    ]

module _ (d : Deps) (run_id : String) where
  unfoldable pub one_section : PlannerSection → Progress → Exec Progress
  unfolding after_section react_one_section
  one_section section p =
      if planner_section_valid section
      then react_one_section d run_id section (d.template section)
        >>= (λ out w. (after_section section p out, w))
      else raise validation_error

  unfoldable pub sections_loop : List PlannerSection → Progress → Exec Progress
  unfolding one_section
  sections_loop [] p = λ w. (ok p, w)
  sections_loop (section ∷ outline) p = one_section section p >>= λ p'. sections_loop outline p'

  -- The run continues: the category is only noted.
  unfoldable pub note_last_error : Option String → Exec (Unit {0})
  note_last_error none = λ w. (ok tt, w)
  note_last_error (some category) = transaction (note_error_category run_id category)

  abbrev pub start : SurveyState → Progress
  start state = record {
    section_notes = state.section_notes;
    deep_read_queue = state.deep_read_queue;
    last_error = none;
  }

  abbrev pub finished : SurveyState → Progress → SurveyState
  finished state p = record state {
    section_notes = p.section_notes;
    deep_read_queue = p.deep_read_queue;
  }

  unfoldable pub research : SurveyState → Exec SurveyState
  unfolding sections_loop note_last_error
  research state = do
    started ← transaction (update_stage run_id "research_wide")
    p ← sections_loop state.outline (start state)
    noted ← note_last_error p.last_error
    λ w. (ok (finished state p), w)

  unfoldable pub researcher_wide_node : SurveyState → Exec SurveyState
  unfolding research
  researcher_wide_node state =
      if is_empty state.outline
      then raise (key_error "researcher_wide_node requires non-empty state['outline']")
      else research state
