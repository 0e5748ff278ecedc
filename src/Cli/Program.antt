-- ===== src/Cli/Program.antt =====
-- The command `run` of the whole program: the real graph, with langgraph and the tools as arguments.
use surveyforge.Base.{◌≡◌, refl, sym, subst, inl, inr, false, none, some, String, ◌<>◌, ◌==◌}
use surveyforge.Runtime.Errors.{Result-cases, ok}
use surveyforge.Runtime.World.{World}
use surveyforge.Runtime.Runs.{find_run}
use surveyforge.Runtime.Runs.Tending.{Tends, same-Tends}
use surveyforge.Agents.Wide.React.Turns.{QuietTools}
use surveyforge.Agents.Deep.Tending.{QuietLookups}
use surveyforge.Graph.{StateGraph, Parts, Settings, RunsChains, build_graph}
use surveyforge.Graph.Pipeline.{invoke-pipeline}
use surveyforge.Graph.Tending.{pipeline-Tending}
use surveyforge.Cli.{Texts, run_cmd, launch_graph, main}
use surveyforge.Cli.Launched.{Tended, Reached}
use surveyforge.Cli.Board.{Requested, cmd_run-Requested}

module _ (lib : StateGraph) (s : Settings) (p : Parts) where
  -- Building may fail, which changes nothing; and running is the five nodes in sequence.
  launch_graph-Tended :
      RunsChains lib
      → s.parts ≡ ok p
      → QuietTools p.wide
      → QuietLookups p.deep
      → Tended (launch_graph lib s)
  unfolding launch_graph
  launch_graph-Tended runs given wide deep run_id state w =
      elim (Result-cases (build_graph lib s)) [
        | inr (e, h) ↦ rw (h, launch_graph) (same-Tends run_id w w refl)
        | inl (g, h) ↦
            rw (h, launch_graph)
              (subst (λ r. Tends run_id w r.1)
                (sym (invoke-pipeline lib s g p run_id state w runs given h))
                (pipeline-Tending p run_id state wide deep w))
      ]

-- `run` of the program implements a request on the board of keys and statuses. Where langgraph runs
-- chains as documented, the factories give nodes, the search tools touch neither runs nor evidence
-- nor the model and the lookup tools no run, the key is not empty, and the drawn id is no run's: the
-- command raises `RuntimeError` and changes no table where no address of a database is set, and
-- otherwise returns an exit code, and the board moves by the request that the code stands for.
pub main-Requested :
    (lib : StateGraph) (s : Settings) (p : Parts) (t : Texts) (topic key : String) (w : World)
    → RunsChains lib
    → s.parts ≡ ok p
    → QuietTools p.wide
    → QuietLookups p.deep
    → key == "" ≡ false
    → find_run ("run_" <> t.uuid w.ids) w.db.runs ≡ none
    → Reached t topic key w s.database_url
        (Requested t topic key w)
        (main lib s t (run_cmd topic (some key)) w)
unfolding main
main-Requested lib s p t topic key w runs given wide deep full fresh =
    cmd_run-Requested t (launch_graph lib s) s.database_url topic key w
      (launch_graph-Tended lib s p runs given wide deep) full fresh
