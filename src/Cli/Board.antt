-- ===== src/Cli/Board.antt =====
-- The abstract view of the runs that `run` keeps: for each idempotency key, the status of its run.
use surveyforge.Base.{
  ◌≡◌, refl, sym, ap, ◌∙◌, subst, inl, inr, ℕ, false, String, ◌<>◌, ◌==◌, eq_iff, Option, none,
  some, List, [], ◌∷◌, ◌++◌, arith, Bool-cases, if◌then◌else◌,
}
use surveyforge.Runtime.Errors.{Result, ok}
use surveyforge.Runtime.World.{World, Exec, Run, RunStatus, succeeded, failed}
use surveyforge.Runtime.Runs.{find_run, find_key}
use surveyforge.State.{SurveyState}
use surveyforge.Cli.{Texts, Exit, exit_ok, exit_failed, exit_usage, cmd_run}
use surveyforge.Cli.Launched.{Tended, Stored, Reached, Submitted, cmd_run-Submitted}

abbrev pub Board : Type 0
Board = String → Option RunStatus

abbrev status_of : Option Run → Option RunStatus
status_of none = none
status_of (some r) = some r.status

-- What a client of the tables sees under a key.
unfoldable pub board : List Run → Board
unfolding find_key
board rows key = status_of (find_key key rows)

-- A request under a key, by the exit code: a key that is taken changes nothing; a free one is taken
-- for good, by a run that is over.
pub data Request (key : String) (before after : Board) : ℕ → Type 0 where
  taken :
      (s : RunStatus)
      → before key ≡ some s
      → ((j : String) → after j ≡ before j)
      → Request key before after exit_usage
  done :
      before key ≡ none
      → ((j : String) → after j ≡ (if key == j then some succeeded else before j))
      → Request key before after exit_ok
  broken :
      before key ≡ none
      → ((j : String) → after j ≡ (if key == j then some failed else before j))
      → Request key before after exit_failed

find_key-append_new :
    (rows : List Run) (r : Run) (j : String)
    → find_key r.idempotency_key rows ≡ none
    → find_key j (rows ++ (r ∷ [])) ≡ (if r.idempotency_key == j then some r else find_key j rows)
unfolding find_key
find_key-append_new [] r j free = refl
find_key-append_new (s ∷ rows) r j free = ground (
  arith,
  eq_iff r.idempotency_key j,
  eq_iff s.idempotency_key j,
  eq_iff s.idempotency_key r.idempotency_key,
  find_key-append_new rows r j,
)

board-append :
    (rows : List Run) (r : Run) (s : RunStatus)
    → find_key r.idempotency_key rows ≡ none
    → r.status ≡ s
    → (j : String)
    → board (rows ++ (r ∷ [])) j ≡ (if r.idempotency_key == j then some s else board rows j)
unfolding board
board-append rows r s free e j = elim (Bool-cases (r.idempotency_key == j)) [
  | inl t ↦ ground (arith, find_key-append_new rows r j free)
  | inr f ↦ ground (arith, find_key-append_new rows r j free)
]

module _ (t : Texts) (topic key : String) (w : World) where
  -- The command returned an exit code, and the tables moved by a request with that code.
  abbrev pub Requested : Result Exit × World → Type 0
  Requested out =
      (exit : Exit) × (out.0 ≡ ok exit) × Request key (board w.db.runs) (board out.1.db.runs) exit.0

  Stored-Requested :
      (out : Result Exit × World)
      → find_key key w.db.runs ≡ none
      → Stored key w.db.runs out
      → Requested out
  unfolding board
  Stored-Requested out free (r, (code, lines), e, rows, k, ended) =
      let free' : find_key r.idempotency_key w.db.runs ≡ none =
        subst (λ i. find_key i w.db.runs ≡ none) (sym k) free in
      let moved : (s : RunStatus)
          → r.status ≡ s
          → (j : String)
          → board out.1.db.runs j ≡ (if key == j then some s else board w.db.runs j) =
        λ s h j.
          ap (λ x. board x j) rows
          ∙ subst
              (λ i.
                board (w.db.runs ++ (r ∷ [])) j ≡ (if i == j then some s else board w.db.runs j))
              k (board-append w.db.runs r s free' h j) in
      (
        (code, lines),
        e,
        elim ended [
          | inl (c, s) ↦
              subst (Request key (board w.db.runs) (board out.1.db.runs)) (sym c)
                (done (ap status_of free) (moved succeeded s))
          | inr (c, s, x) ↦
              subst (Request key (board w.db.runs) (board out.1.db.runs)) (sym c)
                (broken (ap status_of free) (moved failed s))
        ],
      )

  Submitted-Requested : (out : Result Exit × World) → Submitted t topic key w out → Requested out
  unfolding board
  Submitted-Requested out (inr (free, stored)) = Stored-Requested out free stored
  Submitted-Requested out (inl (r, used, e, same)) = (
    (exit_usage, []),
    e,
    taken r.status (ap status_of used) (λ j. ap (λ db. board db.runs j) same),
  )

-- `run` implements a request on the board of keys and statuses: under the hypotheses on the graph,
-- the key and the drawn id, it raises and changes no table where no address of a database is set, and
-- else returns an exit code, and the board moves by the request that the code stands for.
pub cmd_run-Requested :
    (t : Texts) (launch : String → SurveyState → Exec SurveyState) (url : Option String)
    (topic key : String) (w : World)
    → Tended launch
    → key == "" ≡ false
    → find_run ("run_" <> t.uuid w.ids) w.db.runs ≡ none
    → Reached t topic key w url (Requested t topic key w) (cmd_run t launch url topic (some key) w)
cmd_run-Requested t launch url topic key w tended given fresh =
    elim (cmd_run-Submitted t launch url topic key w tended given fresh) [
      | inl unset ↦ inl unset
      | inr (set, out) ↦
          inr (set, Submitted-Requested t topic key w (cmd_run t launch url topic (some key) w) out)
    ]
