-- ===== src/Runtime/Runs/Tending.antt =====
-- Actions that change one run alone: the rows of any other run are as they were, and no run appears
-- or goes.
use mathlib.Core.List.{List, [], ◌∷◌}
use surveyforge.Base.{◌≡◌, refl, sym, ap, ◌∙◌, inl, inr, String, arith, Option-cases}
use surveyforge.Runtime.Errors.{Result, ok, err}
use surveyforge.Runtime.World.{World, Run, Exec, continue, commit_or_rollback, transaction}
use surveyforge.Runtime.Runs.{
  find_run, update_rows, update_run, staged, update_stage, note_error_category, noted,
}
use surveyforge.Runtime.Runs.Laws.{KeepsKeys, staged-KeepsKeys, noted-KeepsKeys}

-- The row of run `k` is changed, its keys excepted, and nothing else of the table.
abbrev pub Tends : String → World → World → Type 0
Tends k w w' = (f : Run → Run) × KeepsKeys f × (w'.db.runs ≡ update_rows k f w.db.runs)

update_rows_same : (k : String) (rows : List Run) → update_rows k (λ r. r) rows ≡ rows
unfolding update_rows
update_rows_same k [] = refl
update_rows_same k (r ∷ rows) = ground (arith, update_rows_same k rows)

pub update_rows_twice :
    (k : String) (f g : Run → Run) (rows : List Run)
    → KeepsKeys f
    → update_rows k g (update_rows k f rows) ≡ update_rows k (λ r. g (f r)) rows
unfolding update_rows
update_rows_twice k f g [] h = refl
update_rows_twice k f g (r ∷ rows) h = ground (arith, h.run_id r, update_rows_twice k f g rows h)

pub both-KeepsKeys : (f g : Run → Run) → KeepsKeys f → KeepsKeys g → KeepsKeys (λ r. g (f r))
both-KeepsKeys f g a b = record {
  run_id = λ r. b.run_id (f r) ∙ a.run_id r;
  key = λ r. b.key (f r) ∙ a.key r;
}

module _ (k : String) where
  -- An action that leaves the table alone.
  pub same-Tends : (w w' : World) → w'.db.runs ≡ w.db.runs → Tends k w w'
  same-Tends w w' e = (
    λ r. r,
    record { run_id = λ r. refl; key = λ r. refl },
    e ∙ sym (update_rows_same k w.db.runs),
  )

  pub Tends-trans : (a b c : World) → Tends k a b → Tends k b c → Tends k a c
  Tends-trans a b c (f, p, e) (g, q, e') = (
    λ r. g (f r),
    both-KeepsKeys f g p q,
    e' ∙ ap (update_rows k g) e ∙ update_rows_twice k f g a.db.runs p,
  )

  -- An action, its errors included, tends the run.
  abbrev pub Tending : {A : Type 0} → Exec A → Type 0
  Tending m = (w : World) → Tends k w (m w).1

  module _ {A B : Type 0} where
    pub continue-Tends :
        (w : World) (r : Result A × World) (f : A → Exec B)
        → Tends k w r.1
        → ((a : A) → Tending (f a))
        → Tends k w (continue f r).1
    continue-Tends w (err e, w') f h next = h
    continue-Tends w (ok a, w') f h next = Tends-trans w w' (f a w').1 h (next a w')

  module _ {A : Type 0} where
    commit-Tends :
        (w : World) (r : Result A × World) → Tends k w r.1 → Tends k w (commit_or_rollback w.db r).1
    unfolding commit_or_rollback
    commit-Tends w (ok a, w') h = h
    commit-Tends w (err e, w') h = same-Tends w (record w' { db = w.db }) refl

    pub transaction-Tending : (m : Exec A) → Tending m → Tending (transaction m)
    unfolding transaction
    transaction-Tending m h w = commit-Tends w _ (h (record w { now = w.clock }))

  update_run-Tends : (f : Run → Run) (w : World) → KeepsKeys f → Tends k w (update_run k f w).1
  unfolding update_run
  update_run-Tends f w p = elim (Option-cases (find_run k w.db.runs)) [
    | inl e ↦ rw (e, update_run) (same-Tends w w refl)
    | inr (r, e) ↦ rw (e, update_run) (f, p, refl)
  ]

  pub stage-Tending : (stage : String) → Tending (transaction (update_stage k stage))
  unfolding update_stage
  stage-Tending stage =
      transaction-Tending (update_stage k stage)
        (λ w. update_run-Tends (staged stage w.now) w (staged-KeepsKeys stage w.now))

  pub note-Tending : (category : String) → Tending (transaction (note_error_category k category))
  unfolding note_error_category
  note-Tending category =
      transaction-Tending (note_error_category k category)
        (λ w. update_run-Tends (noted category w.now) w (noted-KeepsKeys category w.now))
