-- ===== src/Cli/Launched.antt =====
-- What `run` leaves in the table of runs, and its exit code.
use surveyforge.Base.{
  ◌≡◌, refl, sym, ap, ◌∙◌, subst, ◌⊎◌, inl, inr, ℕ, ◌+◌, false, String, ◌<>◌, ◌==◌, eq_iff, eq_refl,
  Option, Option-cases, none, some, List, [], ◌∷◌, ◌++◌, arith,
}
use surveyforge.Runtime.Errors.{Result, ok, err}
use surveyforge.Runtime.World.{
  World, Exec, Run, succeeded, failed, transaction, first_transaction_cases, NoUrl, HasUrl,
  no_database, commit_or_rollback, continue,
}
use surveyforge.Runtime.Runs.{
  create, find_run, find_key, update_rows, update_run, set_runs, new_run, fail, succeed,
  failed_with, with_status,
}
use surveyforge.Runtime.Runs.Laws.{find_run-append, create_used, create_fresh}
use surveyforge.Runtime.Runs.Tending.{Tends}
use surveyforge.State.{SurveyState, make_initial_state}
use surveyforge.Cli.{
  Texts, Exit, exit_ok, exit_failed, exit_usage, key_or_new, unless_used, create_or_stop, report,
  settle, after_create, run_with, cmd_run,
}

-- The graph changes the row of its own run alone, whether it returns or raises.
abbrev pub Tended : (String → SurveyState → Exec SurveyState) → Type 0
Tended launch =
    (run_id : String) (state : SurveyState) (w : World) → Tends run_id w (launch run_id state w).1

update_rows-append :
    (k : String) (f : Run → Run) (rows : List Run) (r : Run)
    → find_run k rows ≡ none
    → r.run_id ≡ k
    → update_rows k f (rows ++ (r ∷ [])) ≡ rows ++ (f r ∷ [])
unfolding update_rows find_run
update_rows-append k f [] r h e = ground (arith, eq_iff r.run_id k)
update_rows-append k f (s ∷ rows) r h e = ground (arith, update_rows-append k f rows r)

-- The run is the last row, and no other row has its id.
abbrev pub Last : List Run → Run → World → Type 0
Last rows r w = (w.db.runs ≡ rows ++ (r ∷ [])) × (find_run r.run_id rows ≡ none)

module _ (rows : List Run) (r : Run) (w : World) where
  update_run-Last :
      (f : Run → Run)
      → Last rows r w
      → update_run r.run_id f w ≡ (ok tt, set_runs (rows ++ (f r ∷ [])) w)
  unfolding update_run
  update_run-Last f (e, fresh) =
      let found : find_run r.run_id w.db.runs ≡ some r =
        ground (arith, find_run-append r.run_id rows r fresh, eq_refl r.run_id) in
      rw (found, update_run)
        (ap (λ x. (ok tt, set_runs x w))
          (ap (update_rows r.run_id f) e ∙ update_rows-append r.run_id f rows r fresh refl))

  Tends-Last :
      (w' : World)
      → Last rows r w
      → Tends r.run_id w w'
      → (r' : Run) × (r'.run_id ≡ r.run_id)
        × (r'.idempotency_key ≡ r.idempotency_key)
        × Last rows r' w'
  Tends-Last w' (e, fresh) (f, keeps, e') = (
    f r,
    keeps.run_id r,
    keeps.key r,
    (
      e' ∙ ap (update_rows r.run_id f) e ∙ update_rows-append r.run_id f rows r fresh refl,
      subst (λ k. find_run k rows ≡ none) (sym (keeps.run_id r)) fresh,
    ),
  )

-- An update of the last row, in its transaction.
updated :
    (rows : List Run) (run_id : String) (r : Run) (f : World → Run → Run) (w : World)
    → r.run_id ≡ run_id
    → Last rows r w
    → transaction (λ u. update_run run_id (f u) u) w ≡ (
      ok tt,
      set_runs (rows ++ (f (record w { now = w.clock }) r ∷ [])) (record w { now = w.clock }),
    )
unfolding transaction commit_or_rollback
updated rows run_id r f w same last =
    let now : World = record w { now = w.clock } in
    ap (commit_or_rollback w.db) (
      subst (λ k. update_run k (f now) now ≡ (ok tt, set_runs (rows ++ (f now r ∷ [])) now)) same
        (update_run-Last rows r now (f now) last))

-- Exit code 0 for a run that succeeded, and 1 for one that failed.
abbrev pub Ended : ℕ → Run → Type 0
Ended code r =
    ((code ≡ exit_ok) × (r.status ≡ succeeded))
    ⊎ ((code ≡ exit_failed) × (r.status ≡ failed) × (r.error_category ≡ some "schema_invalid"))

-- The command returned, and left one more run.
abbrev pub Stored : String → List Run → Result Exit × World → Type 0
Stored key rows out =
    (r : Run) × (exit : Exit) × (out.0 ≡ ok exit)
    × (out.1.db.runs ≡ rows ++ (r ∷ []))
    × (r.idempotency_key ≡ key)
    × Ended exit.0 r

module _ (t : Texts) where
  settle-Stored :
      (rows : List Run) (run r : Run) (res : Result SurveyState × World)
      → r.run_id ≡ run.run_id
      → Last rows r res.1
      → Stored r.idempotency_key rows (settle t run res)
  unfolding settle fail succeed
  settle-Stored rows run r (err e, w) same last =
      let now : World = record w { now = w.clock } in
      let failing =
        updated rows run.run_id r (λ u. failed_with "schema_invalid" u.now) w same last in
      subst
        (λ x. Stored r.idempotency_key rows (continue (λ failed w'. (ok (exit_failed, []), w')) x))
        (sym failing)
        (
          failed_with "schema_invalid" w.clock r,
          (exit_failed, []),
          refl,
          refl,
          refl,
          inr (refl, refl, refl),
        )
  settle-Stored rows run r (ok state, w) same last =
      let done = updated rows run.run_id r (λ u. with_status succeeded u.now) w same last in
      subst
        (λ x.
          Stored r.idempotency_key rows
            (continue (λ done w'. (ok (exit_ok, report t run state), w')) x))
        (sym done)
        (
          with_status succeeded w.clock r,
          (exit_ok, report t run state),
          refl,
          refl,
          refl,
          inl (refl, refl),
        )

  module _ (topic key : String) (w : World) where
    abbrev began : World
    began = record w { now = w.clock }

    abbrev run_0 : Run
    run_0 = new_run ("run_" <> t.uuid w.ids) topic key began

    stopped :
        (r : Run)
        → find_key key w.db.runs ≡ some r
        → transaction (λ u. unless_used t (create t.uuid topic key u)) w
          ≡ (ok none, record began { ids = w.ids + 1 })
    unfolding transaction commit_or_rollback unless_used
    stopped r used =
        ap (λ x. commit_or_rollback w.db (unless_used t x))
          (create_used t.uuid topic key began r used)

    created :
        find_key key w.db.runs ≡ none
        → find_run ("run_" <> t.uuid w.ids) w.db.runs ≡ none
        → transaction (λ u. unless_used t (create t.uuid topic key u)) w ≡ (
          ok (some run_0),
          set_runs (w.db.runs ++ (run_0 ∷ [])) (record began { ids = w.ids + 1 }),
        )
    unfolding transaction commit_or_rollback unless_used
    created free fresh =
        ap (λ x. commit_or_rollback w.db (unless_used t x))
          (create_fresh t.uuid topic key began free fresh)

    -- No address is set, and the command raises and changes no table; or it is set, and the outcome
    -- is this one.
    abbrev pub Reached :
        Option String → (Result Exit × World → Type 0) → Result Exit × World → Type 0
    Reached url P out =
        (NoUrl url × (out.0 ≡ err no_database) × (out.1.db ≡ w.db)) ⊎ (HasUrl url × P out)

    -- The key was used, and nothing is stored; or the run is.
    abbrev pub Submitted : Result Exit × World → Type 0
    Submitted out =
        ((r : Run) × (find_key key w.db.runs ≡ some r)
          × (out.0 ≡ ok (exit_usage, []))
          × (out.1.db ≡ w.db))
        ⊎ ((find_key key w.db.runs ≡ none) × Stored key w.db.runs out)

    module _ (launch : String → SurveyState → Exec SurveyState) where
      launched :
          Tended launch
          → find_run ("run_" <> t.uuid w.ids) w.db.runs ≡ none
          → Stored key w.db.runs (
              after_create t launch topic
                (some run_0)
                (set_runs (w.db.runs ++ (run_0 ∷ [])) (record began { ids = w.ids + 1 })))
      unfolding after_create
      launched tended fresh =
          let w1 : World =
            set_runs (w.db.runs ++ (run_0 ∷ [])) (record began { ids = w.ids + 1 }) in
          let out = launch run_0.run_id (make_initial_state topic) w1 in
          let (r, same, its_key, last) =
            Tends-Last w.db.runs run_0 w1 out.1 (refl, fresh)
              (tended run_0.run_id (make_initial_state topic) w1) in
          subst (λ k. Stored k w.db.runs (settle t run_0 out)) its_key
            (settle-Stored w.db.runs run_0 r out same last)

      reached-Submitted :
          Tended launch
          → find_run ("run_" <> t.uuid w.ids) w.db.runs ≡ none
          → Submitted (
              continue
                (after_create t launch topic)
                (transaction (λ u. unless_used t (create t.uuid topic key u)) w))
      unfolding after_create
      reached-Submitted tended fresh = elim (Option-cases (find_key key w.db.runs)) [
        | inr (r, used) ↦
            subst (λ x. Submitted (continue (after_create t launch topic) x)) (sym (stopped r used))
              (inl (r, used, refl, refl))
        | inl free ↦
            subst (λ x. Submitted (continue (after_create t launch topic) x))
              (sym (created free fresh)) (inr (free, launched tended fresh))
      ]

      run_with-Submitted :
          (url : Option String)
          → Tended launch
          → find_run ("run_" <> t.uuid w.ids) w.db.runs ≡ none
          → Reached url Submitted (run_with t launch url topic key w)
      unfolding run_with create_or_stop after_create
      run_with-Submitted url tended fresh =
          elim (first_transaction_cases (λ u. unless_used t (create t.uuid topic key u)) w url) [
            | inl (unset, e) ↦
                subst (λ x. Reached url Submitted (continue (after_create t launch topic) x))
                  (sym e) (inl (unset, refl, refl))
            | inr (set, e) ↦
                subst (λ x. Reached url Submitted (continue (after_create t launch topic) x))
                  (sym e) (inr (set, reached-Submitted tended fresh))
          ]

-- Where the graph changes the row of its own run alone and the drawn id is no run's: `run` with a key
-- of the caller raises `RuntimeError` and changes no table where no address of a database is set, and
-- otherwise always returns an exit code. A key in use gives code 3 and changes no table. Any
-- other key leaves one more run, with that key, behind the runs that were there and are as they were:
-- with code 0 it has succeeded, with code 1 it has failed with `schema_invalid`.
pub cmd_run-Submitted :
    (t : Texts) (launch : String → SurveyState → Exec SurveyState) (url : Option String)
    (topic key : String) (w : World)
    → Tended launch
    → key == "" ≡ false
    → find_run ("run_" <> t.uuid w.ids) w.db.runs ≡ none
    → Reached t topic key w url (Submitted t topic key w) (cmd_run t launch url topic (some key) w)
unfolding cmd_run key_or_new
cmd_run-Submitted t launch url topic key w tended given fresh =
    rw given (run_with-Submitted t topic key w launch url tended fresh)
