-- ===== src/Runtime/Errors.antt =====
-- src/litweave/runtime/errors.py: error categories, and the exceptions that the program raises or meets.
use surveyforge.Base.{
  Bool, true, false, ◌⊎◌, inl, inr, refl, ℕ, ◌≤◌, ◌<◌, ◌&&◌, Option, none, some, String, List, ◌≡◌,
  ◌↔◌, arith, leb, ltb, eqb, if◌then◌else◌,
}
use surveyforge.Roles.{AgentRole}

pub data ErrorCategory : Type 0 where
  provider_429 provider_5xx schema_invalid context_overflow : ErrorCategory
  empty_evidence citation_problem prompt_injection_detected : ErrorCategory

unfoldable pub category_value : ErrorCategory → String
category_value provider_429 = "provider_429"
category_value provider_5xx = "provider_5xx"
category_value schema_invalid = "schema_invalid"
category_value context_overflow = "context_overflow"
category_value empty_evidence = "empty_evidence"
category_value citation_problem = "citation_problem"
category_value prompt_injection_detected = "prompt_injection_detected"

pub data OverflowFallback : Type 0 where
  none_fallback snippet_only section_batching top_k_rerank claim_by_claim : OverflowFallback
  aggregate_final section_batched_fallback : OverflowFallback

-- Why host-side grounding refuses an output: one constructor for each `raise GroundingError`, with
-- the ids that its message names.
pub data GroundingFault : Type 0 where
  section_mismatch : String → String → GroundingFault
  rogue_papers : List String → GroundingFault
  rogue_evidences : List String → GroundingFault
  paper_facts_mismatch : String → String → GroundingFault
  matrix_mismatch : String → String → String → GroundingFault
  synthesis_foreign_evidence : String → String → GroundingFault
  synthesis_uncovered : String → List String → GroundingFault
  claim_mismatch : String → String → GroundingFault
  category_without_rationale : String → GroundingFault
  papers_cited_mismatch : List String → GroundingFault
  missing_paper_facts : List String → GroundingFault
  missing_matrix_rows : List String → GroundingFault

-- `http_status n` is `httpx.HTTPStatusError`, `request_error` any other `httpx.RequestError`,
-- `validation_error` pydantic's and `jsonschema_error` jsonschema's `ValidationError`.
pub data Exc : Type 0 where
  http_status : ℕ → Exc
  request_error : Exc
  validation_error : Exc
  jsonschema_error : Exc
  structured_call_error : String → Exc
  grounding_error : GroundingFault → Exc
  budget_exceeded : AgentRole → ℕ → ℕ → OverflowFallback → Exc
  idempotency_conflict : String → String → Exc
  tool_not_registered : String → Exc
  tool_role_denied : AgentRole → String → Exc
  unique_violation : String → Exc
  foreign_key_violation : String → Exc
  in_failed_sql_transaction : Exc
  overflow_error : Exc
  key_error : String → Exc
  value_error : String → Exc
  runtime_error : String → Exc

-- A statement that the database refused, which ends what its transaction can do.
unfoldable pub is_database_error : Exc → Bool
is_database_error (unique_violation key) = true
is_database_error (foreign_key_violation key) = true
is_database_error in_failed_sql_transaction = true
is_database_error e = false

pub data Result {ℓ} (A : Type ℓ) : Type ℓ where
  ok : A → Result A
  err : Exc → Result A

-- To split on a computed result and keep the equation.
pub Result-cases {ℓ} :
    {A : Type ℓ} (r : Result A) → ((a : A) × (r ≡ ok a)) ⊎ ((e : Exc) × (r ≡ err e))
Result-cases (ok a) = inl (a, refl)
Result-cases (err e) = inr (e, refl)

unfoldable pub classify_exception : Exc → Option ErrorCategory
classify_exception (http_status status) =
    if eqb status 429
    then some provider_429
    else if leb 500 status && ltb status 600
    then some provider_5xx
    else none
classify_exception validation_error = some schema_invalid
classify_exception jsonschema_error = some schema_invalid
classify_exception _ = none

-- The class of an exception is decided by its status alone, by the ranges of the HTTP standard.
pub classify_exception-http_status :
    (status : ℕ)
    → ((classify_exception (http_status status) ≡ some provider_429) ↔ (status ≡ 429))
      × ((classify_exception (http_status status) ≡ some provider_5xx)
          ↔ (500 ≤ status) × (status < 600))
unfolding classify_exception
classify_exception-http_status status = ground arith
