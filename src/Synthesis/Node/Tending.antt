-- ===== src/Synthesis/Node/Tending.antt =====
-- The synthesizer changes the row of its own run alone.
use surveyforge.Base.{String, Option, none, some, ap, refl}
use surveyforge.Runtime.World.{transaction}
use surveyforge.Runtime.Runs.{update_stage}
use surveyforge.Runtime.Runs.Tending.{
  Tending, continue-Tends, stage-Tending, note-Tending, same-Tends,
}
use surveyforge.State.{SurveyState}
use surveyforge.Synthesis.Node.{Deps, Progress, sections_loop, note_last_error, synthesizer_node}
use surveyforge.Synthesis.Node.Loop.{sections_loop-LoopDone}

note_last_error-Tending :
    (d : Deps) (run_id : String) (last : Option String)
    → Tending run_id (note_last_error d run_id last)
unfolding note_last_error
note_last_error-Tending d run_id none w = same-Tends run_id w w refl
note_last_error-Tending d run_id (some category) w = note-Tending run_id category w

pub synthesizer_node-Tending :
    (d : Deps) (run_id : String) (state : SurveyState)
    → Tending run_id (synthesizer_node d run_id state)
unfolding synthesizer_node
synthesizer_node-Tending d run_id state w =
    let first : Progress = record { extracts = state.structured_extracts; last_error = none } in
    continue-Tends run_id w (transaction (update_stage run_id "synthesize") w) _
      (stage-Tending run_id "synthesize" w)
      (λ u w1.
        continue-Tends run_id w1 (sections_loop d run_id state.outline first w1) _
          (same-Tends run_id w1 (sections_loop d run_id state.outline first w1).1
            (ap (λ db. db.runs) (sections_loop-LoopDone d run_id state.outline first w1).1.0))
          (λ pr w2.
            continue-Tends run_id w2 (note_last_error d run_id pr.last_error w2) _
              (note_last_error-Tending d run_id pr.last_error w2)
              (λ v w3. same-Tends run_id w3 w3 refl)))
