-- ===== src/Graph/Tending.antt =====
-- A run of the graph changes the row of its own run alone.
use surveyforge.Base.{String, refl}
use surveyforge.Runtime.World.{transaction}
use surveyforge.Runtime.Runs.{update_stage}
use surveyforge.Runtime.Runs.Tending.{Tending, continue-Tends, stage-Tending, same-Tends}
use surveyforge.State.{SurveyState}
use surveyforge.Agents.Planner.{planner_node}
use surveyforge.Agents.Planner.Tending.{planner_node-Tending}
use surveyforge.Agents.Wide.React.Turns.{QuietTools}
use surveyforge.Agents.Wide.Node.{researcher_wide_node}
use surveyforge.Agents.Wide.Node.Researched.{researcher_wide_node_bounded}
use surveyforge.Agents.Deep.{researcher_deep_node}
use surveyforge.Agents.Deep.Tending.{QuietLookups}
use surveyforge.Agents.Deep.Tended.{researcher_deep_node-Tending}
use surveyforge.Synthesis.Node.{synthesizer_node}
use surveyforge.Synthesis.Node.Tending.{synthesizer_node-Tending}
use surveyforge.Writing.{write_node}
use surveyforge.Graph.{Parts}
use surveyforge.Graph.Pipeline.{pipeline}

write_node-Tending :
    (run_id : String) (state : SurveyState) → Tending run_id (write_node run_id state)
unfolding write_node
write_node-Tending run_id state w =
    continue-Tends run_id w (transaction (update_stage run_id "write") w) _
      (stage-Tending run_id "write" w) (λ u w'. same-Tends run_id w' w' refl)

pub pipeline-Tending :
    (p : Parts) (run_id : String) (state : SurveyState)
    → QuietTools p.wide
    → QuietLookups p.deep
    → Tending run_id (pipeline p run_id state)
unfolding pipeline
pipeline-Tending p run_id state wide deep w =
    continue-Tends run_id w (planner_node p.planner run_id state w) _
      (planner_node-Tending p.planner run_id state w)
      (λ s1 w1.
        continue-Tends run_id w1 (researcher_wide_node p.wide run_id s1 w1) _
          (researcher_wide_node_bounded p.wide run_id s1 w1 wide).2
          (λ s2 w2.
            continue-Tends run_id w2 (researcher_deep_node p.deep run_id s2 w2) _
              (researcher_deep_node-Tending p.deep run_id s2 deep w2)
              (λ s3 w3.
                continue-Tends run_id w3 (synthesizer_node p.synthesizer run_id s3 w3) _
                  (synthesizer_node-Tending p.synthesizer run_id s3 w3)
                  (λ s4 w4. write_node-Tending run_id s4 w4))))
