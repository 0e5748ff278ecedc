-- ===== src/Runtime/World.antt =====
-- What the program changes outside its own values: the tables of src/litweave/runtime/schema.sql, the
-- clock, the ids that `uuid4` gives, the count of model calls, and the budget totals.
-- An action that raises leaves what it wrote; `transaction` of src/litweave/runtime/db.py takes it back.
-- The first transaction of a process opens the pool of connections, which later ones find open. The
-- database is taken to answer, and random ids of tool calls not to repeat.
pub mod Ends
use surveyforge.Base.{
  arith, ℕ, Bool, true, false, Bool-cases, any, List, Option, none, some, String, ◌==◌, ◌≡◌, refl,
  ◌⊎◌, inl, inr, eq_iff, if◌then◌else◌,
}
use surveyforge.Roles.{AgentRole}
use surveyforge.Runtime.Errors.{Exc, Result, ok, err, runtime_error}
use surveyforge.Runtime.Json.{Json}

pub data RunStatus : Type 0 where
  pending running succeeded failed cancelled needs_human_review : RunStatus

pub record Run : Type 0 where
  pub run_id : String
  pub idempotency_key : String
  pub topic : String
  pub status : RunStatus
  pub current_stage : Option String
  pub error_category : Option String
  pub cancel_requested : Bool
  pub created_at : ℕ
  pub updated_at : ℕ

-- A row of `evidence_items`; `EvidenceItem` has the same fields but the time.
pub record EvidenceItem : Type 0 where
  pub evidence_id : String
  pub run_id : String
  pub paper_id : String
  pub section_id : String
  pub claim : String
  pub source_span : Option String
  pub source_locator : Option String
  pub confidence : ℕ
  pub created_by : AgentRole

pub data Trust : Type 0 where
  trusted_internal untrusted_content : Trust

pub record ToolCall : Type 0 where
  pub tool_call_id : String
  pub run_id : String
  pub tool_name : String
  pub tool_version : String
  pub agent_role : AgentRole
  pub input_hash : String
  pub output : Option Json
  pub output_hash : Option String
  pub result_trust : Trust
  pub latency_ms : ℕ
  pub cache_hit : Bool
  pub truncated : Bool
  pub error_category : Option String
  pub created_at : ℕ

-- Rows in the order of insertion.
pub record Db : Type 0 where
  pub runs : List Run
  pub evidence_items : List EvidenceItem
  pub tool_calls : List ToolCall

-- A row of `runs` with the id, which the foreign keys of the other tables ask for.
unfoldable pub run_exists : String → Db → Bool
run_exists run_id db = any (λ r. r.run_id == run_id) db.runs

pub record RoleUsage : Type 0 where
  pub actual_input_tokens : ℕ
  pub actual_output_tokens : ℕ
  pub overflow_count : ℕ

-- Times are milliseconds. `now` is the database's `now()`, the time at which its transaction began.
pub record World : Type 0 where
  pub db : Db
  pub clock : ℕ
  pub now : ℕ
  pub ids : ℕ
  pub llm_calls : ℕ
  pub usage : AgentRole → RoleUsage

abbrev pub Exec {ℓ} : Type ℓ → Type ℓ
Exec A = World → Result A × World

abbrev pub no_database : Exc
no_database = runtime_error "LITWEAVE_DATABASE_URL is not set."

-- What is read where no pool is open yet.
unfoldable pub get_pool : Option String → Result (Unit {0})
get_pool none = err no_database
get_pool (some url) = if url == "" then err no_database else ok tt

module _ {ℓ} {A : Type ℓ} where
  abbrev pub pure : A → Exec A
  pure a w = (ok a, w)

  abbrev pub raise : Exc → Exec A
  raise e w = (err e, w)

  abbrev pub lift : Result A → Exec A
  lift r w = (r, w)

  -- `with transaction() as conn: m`, on a pool that is open.
  unfoldable pub commit_or_rollback : Db → Result A × World → Result A × World
  commit_or_rollback before (ok a, w) = (ok a, w)
  commit_or_rollback before (err e, w) = (err e, record w { db = before })

  unfoldable pub transaction : Exec A → Exec A
  unfolding commit_or_rollback
  transaction m w = commit_or_rollback w.db (m (record w { now = w.clock }))

  -- The same where no pool is open, by the text of `LITWEAVE_DATABASE_URL`.
  unfoldable pub first_transaction : Option String → Exec A → Exec A
  unfolding transaction get_pool
  first_transaction database_url m w = elim (get_pool database_url) [
    | err e ↦ (err e, w)
    | ok u ↦ transaction m w
  ]

module _ {ℓ κ} {A : Type ℓ} {B : Type κ} where
  abbrev pub continue : (A → Exec B) → Result A × World → Result B × World
  continue f (ok a, w) = f a w
  continue f (err e, w) = (err e, w)

  infixl 5 ◌>>=◌
  abbrev pub ◌>>=◌ : Exec A → (A → Exec B) → Exec B
  ◌>>=◌ m f w = continue f (m w)

  -- Where a sequence returns, so does its first part.
  pub continue-ok :
      (r : Result A × World) (f : A → Exec B) (b : B)
      → (continue f r).0 ≡ ok b
      → (a : A) × (r.0 ≡ ok a) × ((f a r.1).0 ≡ ok b) × (continue f r ≡ f a r.1)
  continue-ok (ok a, w) f b h = (a, refl, h, refl)
  continue-ok (err e, w) f b h = absurd (cc)

infixl 5 ◌>>◌
abbrev pub ◌>>◌ {ℓ} : {B : Type ℓ} → Exec (Unit {0}) → Exec B → Exec B
m >> k = m >>= λ _. k

commit_or_rollback-err {ℓ} :
    {A : Type ℓ} (before : Db) (r : Result A × World) (e : Exc)
    → (commit_or_rollback before r).0 ≡ err e
    → (commit_or_rollback before r).1.db ≡ before
unfolding commit_or_rollback
commit_or_rollback-err before (ok a, w) e h = cc
commit_or_rollback-err before (err e', w) e h = refl

-- A transaction that raises leaves the tables as they were.
pub transaction_atomic {ℓ} :
    {A : Type ℓ} (m : Exec A) (w : World) (e : Exc)
    → (transaction m w).0 ≡ err e
    → (transaction m w).1.db ≡ w.db
unfolding transaction
transaction_atomic m w e h = commit_or_rollback-err w.db (m (record w { now = w.clock })) e h

-- No address of a database is set.
abbrev pub NoUrl : Option String → Type 0
NoUrl url = (url ≡ none) ⊎ (url ≡ some "")

abbrev pub HasUrl : Option String → Type 0
HasUrl url = (text : String) × (url ≡ some text) × (text == "" ≡ false)

module _ {ℓ} {A : Type ℓ} (m : Exec A) (w : World) where
  pub first_transaction_cases :
      (url : Option String)
      → (NoUrl url × (first_transaction url m w ≡ (err no_database, w)))
        ⊎ (HasUrl url × (first_transaction url m w ≡ transaction m w))
  unfolding first_transaction
  first_transaction_cases none = inl (inl refl, refl)
  first_transaction_cases (some text) = elim (Bool-cases (text == "")) [
    | inl t ↦
        let same : text ≡ "" = (eq_iff text "").0 t in
        inl (inr (cc same), rw (t, first_transaction) refl)
    | inr f ↦ inr ((text, refl, f), rw (f, first_transaction) refl)
  ]
