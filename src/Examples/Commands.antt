-- ===== src/Examples/Commands.antt =====
-- The commands at concrete inputs.
use surveyforge.Base.{String, some, refl}
use surveyforge.Runtime.Errors.{ok}
use surveyforge.Runtime.World.{Exec, transaction, ◌>>=◌}
use surveyforge.Runtime.Runs.{update_stage, find_run}
use surveyforge.Runtime.Runs.Tending.{continue-Tends, stage-Tending, same-Tends}
use surveyforge.State.{SurveyState}
use surveyforge.Cli.{Texts, cmd_run, main, run_cmd}
use surveyforge.Cli.Launched.{Tended, Reached, Submitted, cmd_run-Submitted}
use surveyforge.Cli.Board.{Requested}
use surveyforge.Cli.Program.{main-Requested}
use surveyforge.Examples.Survey.{
  in_order, in_order-RunsChains, parts, settings, wide-QuietTools, deep-QuietLookups,
}
use surveyforge.Examples.Data.{world}

abbrev texts : Texts
texts = record {
  uuid = λ n. "abc";
  show_ids = λ ids. "[]";
  show_status = λ s. "succeeded";
  show_time = λ n. "0";
}

-- A graph of one node, which sets the stage.
abbrev launch : String → SurveyState → Exec SurveyState
launch run_id state = transaction (update_stage run_id "write") >>= λ u w. (ok state, w)

launch-Tended : Tended launch
launch-Tended run_id state w =
    continue-Tends run_id w (transaction (update_stage run_id "write") w) (λ u w'. (ok state, w'))
      (stage-Tending run_id "write" w) (λ u w'. same-Tends run_id w' w' refl)

cmd_run-Submitted_example :
    Reached texts "graphs" "new" world
      (some "postgres")
      (Submitted texts "graphs" "new" world)
      (cmd_run texts launch (some "postgres") "graphs" (some "new") world)
unfolding find_run
cmd_run-Submitted_example =
    cmd_run-Submitted texts launch (some "postgres") "graphs" "new" world launch-Tended refl refl

main-Requested_example :
    Reached texts "graphs" "new" world settings.database_url
      (Requested texts "graphs" "new" world)
      (main in_order settings texts (run_cmd "graphs" (some "new")) world)
unfolding find_run
main-Requested_example =
    main-Requested in_order settings parts texts "graphs" "new" world in_order-RunsChains refl
      wide-QuietTools deep-QuietLookups refl refl
