-- ===== src/Runtime/Gateway.antt =====
-- src/litweave/runtime/tool_gateway.py: `ToolGateway`, through which every tool call goes. A pydantic
-- schema is the function that validates a value and dumps it again; SHA-256 over canonical JSON, the
-- length of encoded JSON and the random ids are arguments (`Externals`).
pub mod Calls
pub mod Cache
pub mod Quiet
use surveyforge.Base.{
  ℕ, ◌+◌, ◌-◌, ◌*◌, ◌≤◌, Bool, true, false, not, ◌&&◌, String, ◌<>◌, ◌==◌, Option, none, some, List,
  [], ◌∷◌, ◌++◌, leb, ltb, if◌then◌else◌, Dict, lookup, insert,
}
use surveyforge.Roles.{AgentRole, role_in}
use surveyforge.Runtime.Errors.{
  Exc, Result, ok, err, classify_exception, category_value, schema_invalid, tool_not_registered,
  tool_role_denied, validation_error, foreign_key_violation, in_failed_sql_transaction,
  is_database_error, ErrorCategory,
}
use surveyforge.Runtime.Json.{Json, Fields, end, field, obj, bool, num}
use surveyforge.Runtime.Json.Sanitize.{sanitize_args}
use surveyforge.Runtime.World.{World, Db, run_exists, Exec, pure, raise, ◌>>=◌, ToolCall, Trust}

-- `digest v` is the SHA-256 of `json.dumps(v, sort_keys=True)`, `encoded_len v` the length of
-- `json.dumps(v)` in bytes, `uuid n` the n-th random id.
pub record Externals : Type 0 where
  pub digest : Json → String
  pub encoded_len : Json → ℕ
  pub uuid : ℕ → String

pub record ToolPolicy : Type 0 where
  pub tool_name : String
  pub tool_version : String
  pub allowed_roles : List AgentRole
  pub input_schema : Fields → Option Fields
  pub output_schema : Json → Option Json
  pub cache_ttl_seconds : Option ℕ
  pub idempotent : Bool
  pub result_trust : Trust
  pub max_result_bytes : ℕ

pub record ToolResult : Type 0 where
  pub tool_call_id : String
  pub output : Json
  pub cache_hit : Bool
  pub truncated : Bool
  pub result_trust : Trust
  pub latency_ms : ℕ

abbrev pub Impl : Type 0
Impl = Fields → Exec Json

pub record ToolGateway : Type 0 where
  pub run_id : String
  pub policies : Dict ToolPolicy
  pub impls : Dict Impl

abbrev pub new_gateway : String → ToolGateway
new_gateway run_id = record { run_id = run_id; policies = []; impls = [] }

unfoldable pub register : ToolPolicy → Impl → ToolGateway → ToolGateway
register policy impl gw = record gw {
  policies = insert policy.tool_name policy gw.policies;
  impls = insert policy.tool_name impl gw.impls;
}

-- `idempotent and cache_ttl_seconds`: no time and a time of 0 both switch the cache off.
unfoldable pub ttl_if_cached : ToolPolicy → Option ℕ
ttl_if_cached p = elim p.cache_ttl_seconds [
  | none ↦ none
  | some ttl ↦ if p.idempotent && ltb 0 ttl then some ttl else none
]

-- The `WHERE` of the cache query.
unfoldable pub cache_row_fits : ToolPolicy → String → ℕ → ℕ → ToolCall → Bool
cache_row_fits p input_hash ttl now row =
    row.tool_name == p.tool_name
    && row.tool_version == p.tool_version
    && row.input_hash == input_hash
    && not row.truncated
    && elim row.error_category [ none ↦ true | some c ↦ false ]
    && elim row.output [ none ↦ false | some v ↦ true ]
    && leb now (row.created_at + ttl * 1000)

-- The later of two rows; of rows of one time, the one inserted last.
unfoldable pub newer : ToolCall → Option ToolCall → ToolCall
newer row none = row
newer row (some r) = if ltb r.created_at row.created_at then row else r

-- `ORDER BY created_at DESC LIMIT 1`
unfoldable pub latest : (ToolCall → Bool) → List ToolCall → Option ToolCall
latest fits [] = none
latest fits (row ∷ rows) =
    let best = latest fits rows in if fits row then some (newer row best) else best

unfoldable pub lookup_cache : ToolPolicy → String → ℕ → World → Option (Json × Option String)
unfolding latest newer cache_row_fits
lookup_cache p input_hash ttl w =
    elim (latest (cache_row_fits p input_hash ttl w.now) w.db.tool_calls) [
      | none ↦ none
      | some row ↦ elim row.output [ none ↦ none | some v ↦ some (v, row.output_hash) ]
    ]

unfoldable pub add_tool_call : ToolCall → World → World
add_tool_call row w = record w { db = record w.db { tool_calls = w.db.tool_calls ++ (row ∷ []) } }

module _ (x : Externals) where
  -- `_record_call`, where the caller gives all columns but the id and the time. The run has to exist.
  unfoldable pub record_call : (String → ℕ → ToolCall) → Exec String
  unfolding add_tool_call run_exists
  record_call row w =
      let id = "tc_" <> x.uuid w.ids in
      let drawn = record w { ids = w.ids + 1 } in
      let run_id = (row id w.now).run_id in
      if run_exists run_id w.db
      then (ok id, add_tool_call (row id w.now) drawn)
      else (err (foreign_key_violation run_id), drawn)

  unfoldable pub compute_input_hash : Fields → String
  compute_input_hash args = x.digest (obj (sanitize_args args))

  module _ (gw : ToolGateway) (p : ToolPolicy) (role : AgentRole) (input_hash : String) where
    unfoldable pub hit_row : Json → Option String → String → ℕ → ToolCall
    hit_row payload hash id now = record {
      tool_call_id = id;
      run_id = gw.run_id;
      tool_name = p.tool_name;
      tool_version = p.tool_version;
      agent_role = role;
      input_hash = input_hash;
      output = some payload;
      output_hash = hash;
      result_trust = p.result_trust;
      latency_ms = 0;
      cache_hit = true;
      truncated = false;
      error_category = none;
      created_at = now;
    }

    unfoldable pub failure_row : ℕ → Option String → String → ℕ → ToolCall
    failure_row latency category id now = record {
      tool_call_id = id;
      run_id = gw.run_id;
      tool_name = p.tool_name;
      tool_version = p.tool_version;
      agent_role = role;
      input_hash = input_hash;
      output = none;
      output_hash = none;
      result_trust = p.result_trust;
      latency_ms = latency;
      cache_hit = false;
      truncated = false;
      error_category = category;
      created_at = now;
    }

    unfoldable pub success_row : ℕ → Json → Bool → String → ℕ → ToolCall
    success_row latency payload truncated id now = record {
      tool_call_id = id;
      run_id = gw.run_id;
      tool_name = p.tool_name;
      tool_version = p.tool_version;
      agent_role = role;
      input_hash = input_hash;
      output = some payload;
      output_hash = some (x.digest payload);
      result_trust = p.result_trust;
      latency_ms = latency;
      cache_hit = false;
      truncated = truncated;
      error_category = none;
      created_at = now;
    }

    abbrev pub hit_result : Json → String → ToolResult
    hit_result output id = record {
      tool_call_id = id;
      output = output;
      cache_hit = true;
      truncated = false;
      result_trust = p.result_trust;
      latency_ms = 0;
    }

    -- The branch of a cache hit. A cached value that the schema now refuses raises unrecorded.
    unfoldable pub serve_hit : Json × Option String → Exec ToolResult
    unfolding record_call hit_row
    serve_hit (payload, hash) w = elim (p.output_schema payload) [
      | none ↦ (err validation_error, w)
      | some output ↦
          (record_call (hit_row payload hash) >>= λ id w'. (ok (hit_result output id), w')) w
    ]

    abbrev pub category_of : Exc → Option String
    category_of e = elim (classify_exception e) [ none ↦ none | some c ↦ some (category_value c) ]

    unfoldable pub record_failure : ℕ → Option String → Exc → Exec ToolResult
    unfolding record_call failure_row
    record_failure latency category e = record_call (failure_row latency category) >>= λ id. raise e

    abbrev pub is_truncated : Json → Bool
    is_truncated output = ltb p.max_result_bytes (x.encoded_len output)

    abbrev pub stored_payload : Json → Json
    stored_payload output =
        if is_truncated output
        then obj
            (field "_truncated" (bool true) (field "_byte_size" (num (x.encoded_len output)) end))
        else output

    abbrev pub success_result : ℕ → Json → String → ToolResult
    success_result latency output id = record {
      tool_call_id = id;
      output = output;
      cache_hit = false;
      truncated = is_truncated output;
      result_trust = p.result_trust;
      latency_ms = latency;
    }

    -- After validation of the output: the size decides what is stored, never what is returned.
    unfoldable pub record_success : ℕ → Json → Exec ToolResult
    unfolding record_call success_row
    record_success latency output =
        record_call (success_row latency (stored_payload output) (is_truncated output)) >>= λ id w'.
        (ok (success_result latency output id), w')

    -- What follows the call of the implementation, which began at `start`. After an exception of the
    -- database, its transaction takes no more rows.
    unfoldable pub finish : ℕ → Result Json × World → Result ToolResult × World
    unfolding record_failure record_success is_database_error
    finish start (err e, w) =
        if is_database_error e
        then (err in_failed_sql_transaction, record w { ids = w.ids + 1 })
        else record_failure (w.clock - start) (category_of e) e w
    finish start (ok raw, w) = elim (p.output_schema raw) [
      | none ↦
          record_failure (w.clock - start) (some (category_value schema_invalid)) validation_error w
      | some output ↦ record_success (w.clock - start) output w
    ]

    unfoldable pub find_cached : World → Option (Json × Option String)
    unfolding ttl_if_cached lookup_cache
    find_cached w = elim (ttl_if_cached p) [
      | none ↦ none
      | some ttl ↦ lookup_cache p input_hash ttl w
    ]

    unfoldable pub call_validated : Impl → Fields → Exec ToolResult
    unfolding find_cached serve_hit finish
    call_validated impl args w = elim (find_cached w) [
      | some cached ↦ serve_hit cached w
      | none ↦ finish w.clock (impl args w)
    ]

  unfoldable pub call : ToolGateway → AgentRole → String → Fields → Exec ToolResult
  unfolding call_validated compute_input_hash
  call gw role tool_name args w = elim (lookup tool_name gw.policies) [
    | none ↦ (err (tool_not_registered tool_name), w)
    | some p ↦
        if role_in role p.allowed_roles
        then elim (p.input_schema args) [
          | none ↦ (err validation_error, w)
          | some valid ↦ elim (lookup tool_name gw.impls) [
            | none ↦ (err (tool_not_registered tool_name), w)
            | some impl ↦ call_validated gw p role (compute_input_hash valid) impl valid w
          ]
        ]
        else (err (tool_role_denied role tool_name), w)
  ]
