-- ===== src/Runtime/Runs/Laws.antt =====
-- The table of runs as a function from ids: what each operation of `RunManager` makes of it, and the
-- uniqueness of ids and idempotency keys.
use surveyforge.Base.{
  subst, sym, ℕ, ◌+◌, true, false, String, ◌<>◌, ◌==◌, eq_iff, eq_refl, Option, none, some, List,
  [], ◌∷◌, ◌++◌, ◌≡◌, refl, ◌≢◌, arith, if◌then◌else◌, Option-cases, inl, inr, ◌⊎◌,
}
use surveyforge.Runtime.Errors.{Result, ok, err, idempotency_conflict, unique_violation, key_error}
use surveyforge.Runtime.World.{World, Run, RunStatus, pending, running, succeeded, failed}
use surveyforge.Runtime.Runs.{
  find_run, find_key, update_rows, update_run, set_runs, create, staged, update_stage, with_status,
  succeed, failed_with, fail, cancelling, request_cancel, noted, note_error_category, get, new_run,
}

-- The change leaves the columns alone that identify a run.
pub record KeepsKeys (f : Run → Run) : Type 0 where
  pub run_id : (r : Run) → (f r).run_id ≡ r.run_id
  pub key : (r : Run) → (f r).idempotency_key ≡ r.idempotency_key

abbrev on_found : (Run → Run) → Option Run → Option Run
on_found f none = none
on_found f (some r) = some (f r)

find_run-update_rows :
    (k j : String) (f : Run → Run) (rows : List Run)
    → KeepsKeys f
    → find_run j (update_rows k f rows)
      ≡ (if k == j then on_found f (find_run j rows) else find_run j rows)
unfolding find_run update_rows
find_run-update_rows k j f [] h = ground arith
find_run-update_rows k j f (r ∷ rows) h = ground (
  arith,
  h.run_id r,
  eq_iff r.run_id k,
  eq_iff r.run_id j,
  eq_iff k j,
  find_run-update_rows k j f rows h,
)

-- No id and no idempotency key stands in two rows.
abbrev pub Unique : List Run → Type 0
Unique [] = Unit
Unique (r ∷ rows) =
    (find_run r.run_id rows ≡ none) × (find_key r.idempotency_key rows ≡ none) × Unique rows

find_key-update_rows :
    (k j : String) (f : Run → Run) (rows : List Run)
    → KeepsKeys f
    → find_key j rows ≡ none
    → find_key j (update_rows k f rows) ≡ none
unfolding find_key update_rows
find_key-update_rows k j f [] h p = refl
find_key-update_rows k j f (r ∷ rows) h p =
    ground (arith, h.key r, find_key-update_rows k j f rows h)

update_rows-Unique :
    (k : String) (f : Run → Run) (rows : List Run)
    → KeepsKeys f
    → Unique rows
    → Unique (update_rows k f rows)
unfolding update_rows
update_rows-Unique k f [] h u = tt
update_rows-Unique k f (r ∷ rows) h (a, b, u) = ground (
  arith,
  h.run_id r,
  h.key r,
  find_run-update_rows k r.run_id f rows h,
  find_key-update_rows k r.idempotency_key f rows h b,
  update_rows-Unique k f rows h u,
)

-- An update by id: with no such row, `KeyError` and nothing changes; with one, that run alone is
-- changed, for every reader, and nothing but the table of runs is.
abbrev pub Updates : String → (Run → Run) → World → Result (Unit {0}) × World → Type 0
Updates k f w (r, w') =
    ((find_run k w.db.runs ≡ none) × (r ≡ err (key_error k)) × (w' ≡ w))
    ⊎ ((find_run k w.db.runs ≢ none)
        × (r ≡ ok tt)
        × (w' ≡ set_runs w'.db.runs w)
        × ((j : String)
            → find_run j w'.db.runs
              ≡ (if k == j then on_found f (find_run j w.db.runs) else find_run j w.db.runs)))

update_run-Updates :
    (k : String) (f : Run → Run) (w : World) → KeepsKeys f → Updates k f w (update_run k f w)
unfolding update_run
update_run-Updates k f w h = elim (Option-cases (find_run k w.db.runs)) [
  | inl absent ↦ rw (absent, update_run) (inl (refl, refl, refl))
  | inr (r, found) ↦
      rw (found, update_run)
        (inr (λ e. cc, refl, refl, λ j. find_run-update_rows k j f w.db.runs h))
]

pub staged-KeepsKeys : (s : String) (n : ℕ) → KeepsKeys (staged s n)
staged-KeepsKeys s n = record { run_id = λ r. refl; key = λ r. refl }

pub with_status-KeepsKeys : (s : RunStatus) (n : ℕ) → KeepsKeys (with_status s n)
with_status-KeepsKeys s n = record { run_id = λ r. refl; key = λ r. refl }

pub failed_with-KeepsKeys : (s : String) (n : ℕ) → KeepsKeys (failed_with s n)
failed_with-KeepsKeys s n = record { run_id = λ r. refl; key = λ r. refl }

cancelling-KeepsKeys : (n : ℕ) → KeepsKeys (cancelling n)
cancelling-KeepsKeys n = record { run_id = λ r. refl; key = λ r. refl }

pub noted-KeepsKeys : (s : String) (n : ℕ) → KeepsKeys (noted s n)
noted-KeepsKeys s n = record { run_id = λ r. refl; key = λ r. refl }

-- Each operation on an existing run changes the named columns of that run alone, and raises
-- `KeyError`, with nothing changed, where there is no such run: a stage makes the run `RUNNING`,
-- `fail` sets status and category, `note_error_category` leaves the status as it is, and
-- `request_cancel` only raises the flag.
pub run_manager-Updates :
    (run_id text : String) (w : World)
    → Updates run_id
        (λ r. record r { current_stage = some text; status = running; updated_at = w.now })
        w
        (update_stage run_id text w)
      × Updates run_id
          (λ r. record r { status = succeeded; updated_at = w.now })
          w
          (succeed run_id w)
      × Updates run_id
          (λ r. record r { status = failed; error_category = some text; updated_at = w.now })
          w
          (fail run_id text w)
      × Updates run_id
          (λ r. record r { cancel_requested = true; updated_at = w.now })
          w
          (request_cancel run_id w)
      × Updates run_id
          (λ r. record r { error_category = some text; updated_at = w.now })
          w
          (note_error_category run_id text w)
unfolding update_stage succeed fail request_cancel note_error_category
run_manager-Updates run_id text w = (
  update_run-Updates run_id _ w (staged-KeepsKeys text w.now),
  update_run-Updates run_id _ w (with_status-KeepsKeys succeeded w.now),
  update_run-Updates run_id _ w (failed_with-KeepsKeys text w.now),
  update_run-Updates run_id _ w (cancelling-KeepsKeys w.now),
  update_run-Updates run_id _ w (noted-KeepsKeys text w.now),
)

pub find_run-append :
    (k : String) (rows : List Run) (r : Run)
    → find_run k rows ≡ none
    → find_run k (rows ++ (r ∷ [])) ≡ (if r.run_id == k then some r else none)
unfolding find_run
find_run-append k [] r h = refl
find_run-append k (s ∷ rows) r h = ground (arith, find_run-append k rows r)

find_key-append :
    (k : String) (rows : List Run) (r : Run)
    → find_key k rows ≡ none
    → find_key k (rows ++ (r ∷ [])) ≡ (if r.idempotency_key == k then some r else none)
unfolding find_key
find_key-append k [] r h = refl
find_key-append k (s ∷ rows) r h = ground (arith, find_key-append k rows r)

append-Unique :
    (rows : List Run) (r : Run)
    → Unique rows
    → find_run r.run_id rows ≡ none
    → find_key r.idempotency_key rows ≡ none
    → Unique (rows ++ (r ∷ []))
unfolding find_run find_key
append-Unique [] r u p q = (refl, refl, tt)
append-Unique (s ∷ rows) r (a, b, u) p q = (
  ground (
    arith,
    find_run-append s.run_id rows r a,
    eq_iff r.run_id s.run_id,
    eq_iff s.run_id r.run_id,
  ),
  ground (
    arith,
    find_key-append s.idempotency_key rows r b,
    eq_iff r.idempotency_key s.idempotency_key,
    eq_iff s.idempotency_key r.idempotency_key,
  ),
  append-Unique rows r u (ground arith) (ground arith),
)

-- What `create` may do: refuse a key in use and name the run that has it; fail on a drawn id that is
-- taken; or store a new run under a free key.
abbrev pub Created : String → World → Result Run × World → Type 0
Created key w (r, w') =
    ((existing : Run) × (find_key key w.db.runs ≡ some existing)
      × (r ≡ err (idempotency_conflict key existing.run_id))
      × (w'.db ≡ w.db))
    ⊎ ((id : String) × (find_key key w.db.runs ≡ none)
        × (find_run id w.db.runs ≢ none)
        × (r ≡ err (unique_violation id))
        × (w'.db ≡ w.db))
    ⊎ ((run : Run) × (find_key key w.db.runs ≡ none)
        × (find_run run.run_id w.db.runs ≡ none)
        × (r ≡ ok run)
        × (run.idempotency_key ≡ key)
        × (run.status ≡ pending)
        × (run.cancel_requested ≡ false)
        × (get run.run_id w' ≡ ok run))

get-append :
    (rows : List Run) (run : Run) (w : World)
    → find_run run.run_id rows ≡ none
    → get run.run_id (set_runs (rows ++ (run ∷ [])) w) ≡ ok run
unfolding get
get-append rows run w h = ground (arith, find_run-append run.run_id rows run h, eq_refl run.run_id)

module _ (uuid : ℕ → String) (topic key : String) (w : World) where
  abbrev drawn : String
  drawn = "run_" <> uuid w.ids

  abbrev after : World
  after = record w { ids = w.ids + 1 }

  pub create_used :
      (r : Run)
      → find_key key w.db.runs ≡ some r
      → create uuid topic key w ≡ (err (idempotency_conflict key r.run_id), after)
  unfolding create
  create_used r used = ground arith

  pub create_taken :
      (r : Run)
      → find_key key w.db.runs ≡ none
      → find_run drawn w.db.runs ≡ some r
      → create uuid topic key w ≡ (err (unique_violation drawn), after)
  unfolding create
  create_taken r free taken = ground arith

  pub create_fresh :
      find_key key w.db.runs ≡ none
      → find_run drawn w.db.runs ≡ none
      → create uuid topic key w ≡ (
        ok (new_run drawn topic key w),
        set_runs (w.db.runs ++ (new_run drawn topic key w ∷ [])) after,
      )
  unfolding create
  create_fresh free fresh = ground arith

  abbrev Good : Result Run × World → Type 0
  Good out = Unique out.1.db.runs × Created key w out

  create-Good : Unique w.db.runs → Good (create uuid topic key w)
  create-Good u = elim (Option-cases (find_key key w.db.runs)) [
    | inr (r, used) ↦ subst Good (sym (create_used r used)) (u, inl (r, used, refl, refl))
    | inl free ↦ elim (Option-cases (find_run drawn w.db.runs)) [
      | inr (r, taken) ↦
          subst Good (sym (create_taken r free taken))
            (u, inr (inl (drawn, free, λ e. cc, refl, refl)))
      | inl fresh ↦
          let run = new_run drawn topic key w in
          subst Good (sym (create_fresh free fresh)) (
            append-Unique w.db.runs run u fresh free,
            inr (
                inr
                  (run, free, fresh, refl, refl, refl, refl, get-append w.db.runs run after fresh)),
          )
    ]
  ]

-- In a table where ids and idempotency keys are unique they stay so. A key in use raises
-- `IdempotencyConflict` with the run that has it; an id drawn twice raises `UniqueViolation`; both
-- leave the tables as they are. Otherwise the run is stored under a key and an id that no run had,
-- pending and not cancelled, and `get` returns it.
pub create_lem :
    (uuid : ℕ → String) (topic key : String) (w : World)
    → Unique w.db.runs
    → Unique (create uuid topic key w).1.db.runs × Created key w (create uuid topic key w)
create_lem uuid topic key w u = create-Good uuid topic key w u
