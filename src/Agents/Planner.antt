-- ===== src/Agents/Planner.antt =====
-- src/litweave/agents/planner.py: the outline of a survey, by one structured call.
pub mod Outline
pub mod Tending
use surveyforge.Base.{Bool, String, Option, none, some, List, [], ◌∷◌, if◌then◌else◌}
use surveyforge.Runtime.Errors.{Result, ok, err, validation_error}
use surveyforge.Runtime.Json.{Json}
use surveyforge.Runtime.World.{World, Exec, transaction, ◌>>=◌}
use surveyforge.Runtime.Runs.{update_stage}
use surveyforge.Schemas.Planner.{PlannerOutput, planner_output_valid}
use surveyforge.Llm.Model.{Llm, human}
use surveyforge.Llm.Structured.{Parsers, structured_call}
use surveyforge.State.{SurveyState}

-- What the node is given: model, parsers, schema check and reading of the answer, and the prompt.
pub record Deps : Type 0 where
  pub llm : Llm
  pub parsers : Parsers
  pub validate : Json → Option String
  pub decode : Json → Option PlannerOutput
  pub template : String → String
  pub supports_fc : Bool

-- `PlannerOutput.model_validate`
unfoldable pub read_output : Deps → Json → Result PlannerOutput
read_output d v = elim (d.decode v) [
  | none ↦ err validation_error
  | some o ↦ if planner_output_valid o then ok o else err validation_error
]

unfoldable pub planner_node : Deps → String → SurveyState → Exec SurveyState
unfolding read_output
planner_node d run_id state = do
  started ← transaction (update_stage run_id "planning")
  v ←
      structured_call d.parsers d.llm d.validate "planner_output" d.supports_fc
        (human (d.template state.topic) ∷ []) 2
  output ← λ w. (read_output d v, w)
  λ w. (ok (record state { outline = output.sections }), w)
