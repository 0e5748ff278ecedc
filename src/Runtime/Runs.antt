-- ===== src/Runtime/Runs.antt =====
-- src/litweave/runtime/runs.py: `RunManager` over the table `runs`. `uuid n` is the text of the n-th
-- random id, which the library `uuid` draws.
pub mod Laws
pub mod Tending
use surveyforge.Base.{
  ℕ, ◌+◌, Bool, true, false, String, ◌<>◌, ◌==◌, Option, none, some, List, [], ◌∷◌, ◌++◌, any,
  if◌then◌else◌,
}
use surveyforge.Runtime.Errors.{
  Exc, Result, ok, err, idempotency_conflict, unique_violation, key_error, ErrorCategory,
}
use surveyforge.Runtime.World.{World, Db, Exec, Run, RunStatus, pending, running, succeeded, failed}

-- `SELECT … FROM runs WHERE run_id = k`
unfoldable pub find_run : String → List Run → Option Run
find_run k [] = none
find_run k (r ∷ rows) = if r.run_id == k then some r else find_run k rows

-- `SELECT … FROM runs WHERE idempotency_key = k`
unfoldable pub find_key : String → List Run → Option Run
find_key k [] = none
find_key k (r ∷ rows) = if r.idempotency_key == k then some r else find_key k rows

-- `UPDATE runs SET … WHERE run_id = k`
unfoldable pub update_rows : String → (Run → Run) → List Run → List Run
update_rows k f [] = []
update_rows k f (r ∷ rows) = (if r.run_id == k then f r else r) ∷ update_rows k f rows

abbrev pub set_runs : List Run → World → World
set_runs rows w = record w { db = record w.db { runs = rows } }

-- An update that raises `KeyError` when `cur.rowcount == 0`.
unfoldable pub update_run : String → (Run → Run) → Exec (Unit {0})
update_run k f w = elim (find_run k w.db.runs) [
  | none ↦ (err (key_error k), w)
  | some r ↦ (ok tt, set_runs (update_rows k f w.db.runs) w)
]

abbrev pub new_run : String → String → String → World → Run
new_run run_id topic key w = record {
  run_id = run_id;
  idempotency_key = key;
  topic = topic;
  status = pending;
  current_stage = none;
  error_category = none;
  cancel_requested = false;
  created_at = w.now;
  updated_at = w.now;
}

-- `INSERT … ON CONFLICT (idempotency_key) DO NOTHING`: only that conflict is passed over, and a
-- second use of the primary key still raises.
unfoldable pub create : (ℕ → String) → String → String → Exec Run
create uuid topic key w =
    let run_id = "run_" <> uuid w.ids in
    let w' = record w { ids = w.ids + 1 } in
    elim (find_key key w.db.runs) [
      | some existing ↦ (err (idempotency_conflict key existing.run_id), w')
      | none ↦ elim (find_run run_id w.db.runs) [
        | some r ↦ (err (unique_violation run_id), w')
        | none ↦ (
          ok (new_run run_id topic key w),
          set_runs (w.db.runs ++ (new_run run_id topic key w ∷ [])) w',
        )
      ]
    ]

abbrev pub staged : String → ℕ → Run → Run
staged stage now r = record r { current_stage = some stage; status = running; updated_at = now }

unfoldable pub update_stage : String → String → Exec (Unit {0})
unfolding update_run
update_stage run_id stage w = update_run run_id (staged stage w.now) w

abbrev pub with_status : RunStatus → ℕ → Run → Run
with_status status now r = record r { status = status; updated_at = now }

set_status : String → RunStatus → Exec (Unit {0})
set_status run_id status w = update_run run_id (with_status status w.now) w

unfoldable pub succeed : String → Exec (Unit {0})
unfolding set_status update_run
succeed run_id = set_status run_id succeeded

abbrev pub failed_with : String → ℕ → Run → Run
failed_with category now r = record r {
  status = failed;
  error_category = some category;
  updated_at = now;
}

unfoldable pub fail : String → String → Exec (Unit {0})
unfolding update_run
fail run_id category w = update_run run_id (failed_with category w.now) w

abbrev pub cancelling : ℕ → Run → Run
cancelling now r = record r { cancel_requested = true; updated_at = now }

unfoldable pub request_cancel : String → Exec (Unit {0})
unfolding update_run
request_cancel run_id w = update_run run_id (cancelling w.now) w

abbrev pub noted : String → ℕ → Run → Run
noted category now r = record r { error_category = some category; updated_at = now }

unfoldable pub note_error_category : String → String → Exec (Unit {0})
unfolding update_run
note_error_category run_id category w = update_run run_id (noted category w.now) w

unfoldable pub get : String → World → Result Run
get run_id w = elim (find_run run_id w.db.runs) [ none ↦ err (key_error run_id) | some r ↦ ok r ]
