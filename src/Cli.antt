-- ===== src/Cli.antt =====
-- src/litweave/cli.py: the commands `run` and `status`, with their exit codes and what they print to
-- standard output. `uuid n` is the text of the n-th random id, `show_ids`, `show_status` and `show_time` are Python's texts.
pub mod Launched
pub mod Board
pub mod Program
pub mod Status
use surveyforge.Base.{
  ℕ, ◌+◌, Bool, true, false, String, ◌<>◌, ◌==◌, Option, none, some, List, [], ◌∷◌, ◌++◌, Dict,
  keys, lookup, if◌then◌else◌, concat_map,
}
use surveyforge.Runtime.Errors.{Exc, Result, ok, err, idempotency_conflict, key_error}
use surveyforge.Runtime.World.{World, Exec, Run, RunStatus, transaction, first_transaction, ◌>>=◌}
use surveyforge.Runtime.Runs.{create, fail, succeed, get}
use surveyforge.State.{SurveyState, make_initial_state}
use surveyforge.Agents.Wide.{sorted}
use surveyforge.Graph.{StateGraph, Settings, build_graph}

pub record Texts : Type 0 where
  pub uuid : ℕ → String
  pub show_ids : List String → String
  pub show_status : RunStatus → String
  pub show_time : ℕ → String

abbrev pub exit_ok : ℕ
exit_ok = 0

abbrev pub exit_failed : ℕ
exit_failed = 1

abbrev pub exit_usage : ℕ
exit_usage = 3

-- An exit code, and the lines on standard output.
abbrev pub Exit : Type 0
Exit = ℕ × List String

-- What `argparse` reads from the arguments.
pub data Command : Type 0 where
  run_cmd : String → Option String → Command
  status_cmd : String → Command
  resume_cmd cancel_cmd export_cmd : Command

module _ (t : Texts) where
  unfoldable pub key_or_new : Option String → World → String × World
  key_or_new none w = ("cli-" <> t.uuid w.ids, record w { ids = w.ids + 1 })
  key_or_new (some key) w =
      if key == "" then ("cli-" <> t.uuid w.ids, record w { ids = w.ids + 1 }) else (key, w)

  -- `except IdempotencyConflict`, which ends the command.
  unfoldable pub unless_used : Result Run × World → Result (Option Run) × World
  unless_used (ok run, w) = (ok (some run), w)
  unless_used (err (idempotency_conflict key run_id), w) = (ok none, w)
  unless_used (err e, w) = (err e, w)

  unfoldable pub create_or_stop : Option String → String → String → Exec (Option Run)
  unfolding unless_used
  create_or_stop database_url topic key =
      first_transaction database_url (λ w. unless_used (create t.uuid topic key w))

  unfoldable pub draft_text : Dict String → String → List String
  unfolding lookup
  draft_text drafts sid = elim (lookup sid drafts) [
    | none ↦ []
    | some text ↦ "---" ∷ (("[section_id: " <> (sid <> "]")) ∷ ("" ∷ (text ∷ [])))
  ]

  unfoldable pub report : Run → SurveyState → List String
  unfolding draft_text keys sorted
  report run state =
      let sids = sorted (keys state.section_drafts) in
      ("run_id: " <> run.run_id)
      ∷ (("sections: " <> t.show_ids sids) ∷ concat_map (draft_text state.section_drafts) sids)

  -- After the graph: the run has failed, or succeeded.
  unfoldable pub settle : Run → Result SurveyState × World → Result Exit × World
  unfolding report
  settle run (err e, w) =
      (transaction (fail run.run_id "schema_invalid") >>= λ failed w'. (ok (exit_failed, []), w')) w
  settle run (ok state, w) =
      (transaction (succeed run.run_id) >>= λ done w'. (ok (exit_ok, report run state), w')) w

  -- `launch` builds the graph and invokes it.
  module _ (launch : String → SurveyState → Exec SurveyState) where
    unfoldable pub after_create : String → Option Run → Exec Exit
    unfolding settle make_initial_state
    after_create topic none w = (ok (exit_usage, []), w)
    after_create topic (some run) w = settle run (launch run.run_id (make_initial_state topic) w)

    unfoldable pub run_with : Option String → String → String → Exec Exit
    unfolding after_create create_or_stop
    run_with database_url topic key =
        create_or_stop database_url topic key >>= λ created. after_create topic created

    unfoldable pub cmd_run : Option String → String → Option String → Exec Exit
    unfolding run_with key_or_new
    cmd_run database_url topic idempotency_key w =
        let (key, w') = key_or_new idempotency_key w in run_with database_url topic key w'

  abbrev pub category_lines : Option String → List String
  category_lines none = []
  category_lines (some c) = if c == "" then [] else ("error_category: " <> c) ∷ []

  abbrev pub stage_text : Option String → String
  stage_text none = "None"
  stage_text (some stage) = stage

  unfoldable pub status_lines : Run → List String
  status_lines run =
      ("run_id: " <> run.run_id)
      ∷ (("status: " <> t.show_status run.status)
          ∷ (("current_stage: " <> stage_text run.current_stage)
              ∷ (category_lines run.error_category
                  ++ (("created_at: " <> t.show_time run.created_at)
                      ∷ (("updated_at: " <> t.show_time run.updated_at) ∷ [])))))

  -- `except KeyError`, around the transaction.
  unfoldable pub found_or_usage : Result Run × World → Result Exit × World
  unfolding status_lines
  found_or_usage (ok run, w) = (ok (exit_ok, status_lines run), w)
  found_or_usage (err (key_error k), w) = (ok (exit_usage, []), w)
  found_or_usage (err e, w) = (err e, w)

  unfoldable pub cmd_status : Option String → String → Exec Exit
  unfolding found_or_usage get
  cmd_status database_url run_id w =
      found_or_usage (first_transaction database_url (λ u. (get run_id u, u)) w)

-- `graph = build_graph(); graph.invoke(…)`
unfoldable pub launch_graph :
    (lib : StateGraph) → Settings → String → SurveyState → Exec SurveyState
unfolding build_graph
launch_graph lib s run_id state w = elim (build_graph lib s) [
  | err e ↦ (err e, w)
  | ok g ↦ lib.invoke g run_id state w
]

unfoldable pub main : (lib : StateGraph) → Settings → Texts → Command → Exec Exit
unfolding cmd_run cmd_status launch_graph
main lib s t (run_cmd topic key) = cmd_run t (launch_graph lib s) s.database_url topic key
main lib s t (status_cmd run_id) = cmd_status t s.database_url run_id
main lib s t resume_cmd = λ w. (ok (exit_usage, []), w)
main lib s t cancel_cmd = λ w. (ok (exit_usage, []), w)
main lib s t export_cmd = λ w. (ok (exit_usage, []), w)
