-- ===== src/Cli/Status.antt =====
-- What `status` answers.
use surveyforge.Base.{◌≡◌, ◌⊎◌, none, some, Option, String, []}
use surveyforge.Runtime.Errors.{Result, ok, err}
use surveyforge.Runtime.World.{World, Run, commit_or_rollback, NoUrl, HasUrl, no_database}
use surveyforge.Runtime.Runs.{find_run}
use surveyforge.Cli.{Texts, Exit, exit_ok, exit_usage, status_lines, found_or_usage}

-- Without an address of a database the command raises; a run that is stored is shown, and code 3 stands
-- for any other id.
abbrev pub Answered : Texts → Option String → String → World → Result Exit × World → Type 0
Answered t url run_id w out =
    ((NoUrl url × (out.0 ≡ err no_database))
      ⊎ (HasUrl url
          × (r : Run) × (find_run run_id w.db.runs ≡ some r)
          × (out.0 ≡ ok (exit_ok, status_lines t r)))
      ⊎ (HasUrl url × (find_run run_id w.db.runs ≡ none) × (out.0 ≡ ok (exit_usage, []))))
    × (out.1.db ≡ w.db)

module _ (t : Texts) (run_id : String) (w : World) where
  asked : Result Run → Result Exit × World
  asked r = found_or_usage t (commit_or_rollback w.db (r, record w { now = w.clock }))
