-- ===== src/Agents/Planner/Tending.antt =====
-- The planner changes the row of its own run alone.
use surveyforge.Base.{String, ap, refl, [], ◌∷◌}
use surveyforge.Runtime.World.{transaction}
use surveyforge.Runtime.Runs.{update_stage}
use surveyforge.Runtime.Runs.Tending.{Tending, continue-Tends, stage-Tending, same-Tends}
use surveyforge.Llm.Model.{human}
use surveyforge.Llm.Structured.{structured_call, structured_call-Outcome}
use surveyforge.State.{SurveyState}
use surveyforge.Agents.Planner.{Deps, read_output, planner_node}

pub planner_node-Tending :
    (d : Deps) (run_id : String) (state : SurveyState)
    → Tending run_id (planner_node d run_id state)
unfolding planner_node
planner_node-Tending d run_id state w =
    continue-Tends run_id w (transaction (update_stage run_id "planning") w) _
      (stage-Tending run_id "planning" w)
      (λ u w1.
        let messages = human (d.template state.topic) ∷ [] in
        let called =
          structured_call d.parsers d.llm d.validate "planner_output" d.supports_fc messages 2 w1 in
        let outcome =
          structured_call-Outcome d.parsers d.llm d.validate "planner_output" d.supports_fc messages
            2 w1 in
        continue-Tends run_id w1 called _
          (same-Tends run_id w1 called.1 (ap (λ u. u.db.runs) outcome.1))
          (λ v w2.
            continue-Tends run_id w2 (read_output d v, w2) _ (same-Tends run_id w2 w2 refl)
              (λ o w3. same-Tends run_id w3 w3 refl)))
