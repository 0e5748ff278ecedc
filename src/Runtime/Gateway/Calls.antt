-- ===== src/Runtime/Gateway/Calls.antt =====
-- What a call of the gateway records, and what a result that it returns has passed.
use surveyforge.Base.{
  subst, sym, ap, ◌<>◌, Bool-cases, ◌∙◌, ℕ, ◌-◌, Bool, true, false, String, Option, none, some, [],
  ◌∷◌, ◌++◌, ◌≡◌, refl, ◌≢◌, ◌⊎◌, inl, inr, arith, lookup, Option-cases,
}
use surveyforge.Roles.{AgentRole, role_in}
use surveyforge.Runtime.Errors.{
  Exc, Result, ok, err, is_database_error, foreign_key_violation, in_failed_sql_transaction,
  validation_error, category_value, schema_invalid,
}
use surveyforge.Runtime.Json.{Json, Fields}
use surveyforge.Runtime.World.{World, ToolCall, run_exists, continue}
use surveyforge.Runtime.Gateway.{
  Externals, ToolPolicy, ToolResult, ToolGateway, Impl, record_call, compute_input_hash, hit_row,
  failure_row, success_row, hit_result, success_result, is_truncated, stored_payload, serve_hit,
  record_failure, record_success, finish, find_cached, call_validated, call,
}

abbrev is_some {ℓ} : {A : Type ℓ} → Option A → Bool
is_some none = false
is_some (some a) = true

abbrev returns {ℓ} : {A : Type ℓ} → Result A → Bool
returns (ok a) = true
returns (err e) = false

module _ (x : Externals) (gw : ToolGateway) (p : ToolPolicy) (role : AgentRole)
    (input_hash : String) where
  -- One row more than `before` has, with the run, the tool, the role and the input of this call, and
  -- with an output exactly if the call returns.
  abbrev pub Logged : World → Result ToolResult × World → Type 0
  Logged before (r, w') =
      (row : ToolCall) × (w'.db
        ≡ record before.db { tool_calls = before.db.tool_calls ++ (row ∷ []) })
      × (row.run_id ≡ gw.run_id)
      × (row.tool_name ≡ p.tool_name)
      × (row.tool_version ≡ p.tool_version)
      × (row.agent_role ≡ role)
      × (row.input_hash ≡ input_hash)
      × (is_some row.output ≡ returns r)

  -- The run exists and there is such a row; or it does not, and the call raises and adds none.
  abbrev pub Recorded : World → Result ToolResult × World → Type 0
  Recorded before out =
      ((run_exists gw.run_id before.db ≡ true) × Logged before out)
      ⊎ ((run_exists gw.run_id before.db ≡ false)
          × (out.0 ≡ err (foreign_key_violation gw.run_id))
          × (out.1.db ≡ before.db))

  -- A row of this call, and what is given once it is recorded.
  record_call-Recorded :
      (row : String → ℕ → ToolCall) (then_give : String → Result ToolResult) (w : World)
      → ((id : String) (now : ℕ) → (row id now).run_id ≡ gw.run_id)
      → ((id : String) (now : ℕ)
          → ((row id now).tool_name ≡ p.tool_name)
            × ((row id now).tool_version ≡ p.tool_version)
            × ((row id now).agent_role ≡ role)
            × ((row id now).input_hash ≡ input_hash)
            × (is_some (row id now).output ≡ returns (then_give id)))
      → Recorded w (continue (λ id w'. (then_give id, w')) (record_call x row w))
  unfolding record_call
  record_call-Recorded row then_give w run columns =
      let id = "tc_" <> x.uuid w.ids in
      let its_run = run id w.now in
      let (tool, version, by, hash, given) = columns id w.now in
      elim (Bool-cases (run_exists gw.run_id w.db)) [
        | inl known ↦
            let here : run_exists (row id w.now).run_id w.db ≡ true =
              ap (λ r. run_exists r w.db) its_run ∙ known in
            rw (here, record_call)
              (inl (
                known,
                (
                  row id w.now,
                  refl,
                  its_run,
                  (columns id w.now).0,
                  (columns id w.now).1,
                  (columns id w.now).2,
                  (columns id w.now).3,
                  (columns id w.now).4,
                ),
              ))
        | inr unknown ↦
            let here : run_exists (row id w.now).run_id w.db ≡ false =
              ap (λ r. run_exists r w.db) its_run ∙ unknown in
            rw (here, record_call)
              (inr (unknown, ap (λ r. err (foreign_key_violation r)) its_run, refl))
      ]

  record_failure-Recorded :
      (latency : ℕ) (category : Option String) (e : Exc) (w : World)
      → Recorded w (record_failure x gw p role input_hash latency category e w)
  unfolding record_failure
  record_failure-Recorded latency category e w =
      record_call-Recorded (failure_row x gw p role input_hash latency category) (λ id. err e) w
        (λ id now. refl) (λ id now. (refl, refl, refl, refl, refl))

  record_success-Recorded :
      (latency : ℕ) (output : Json) (w : World)
      → Recorded w (record_success x gw p role input_hash latency output w)
  unfolding record_success
  record_success-Recorded latency output w =
      record_call-Recorded
        (success_row x gw p role input_hash latency (stored_payload x gw p role input_hash output)
          (is_truncated x gw p role input_hash output))
        (λ id. ok (success_result x gw p role input_hash latency output id)) w (λ id now. refl)
        (λ id now. (refl, refl, refl, refl, refl))

  finish_drift :
      (start : ℕ) (raw : Json) (w : World)
      → p.output_schema raw ≡ none
      → finish x gw p role input_hash start (ok raw, w)
        ≡ record_failure x gw p role input_hash
            (w.clock - start)
            (some (category_value schema_invalid))
            validation_error
            w
  unfolding finish
  finish_drift start raw w drift = rw (drift, finish)

  finish_valid :
      (start : ℕ) (raw output : Json) (w : World)
      → p.output_schema raw ≡ some output
      → finish x gw p role input_hash start (ok raw, w)
        ≡ record_success x gw p role input_hash (w.clock - start) output w
  unfolding finish
  finish_valid start raw output w valid = rw (valid, finish)

  -- What the call of an implementation leads to: the database refused a statement of it, and the row
  -- too; or the row is recorded.
  abbrev pub Followed : Result Json × World → Result ToolResult × World → Type 0
  Followed given out =
      ((e : Exc) × (given.0 ≡ err e)
        × (is_database_error e ≡ true)
        × (out.0 ≡ err in_failed_sql_transaction)
        × (out.1.db ≡ given.1.db))
      ⊎ (((e : Exc) → given.0 ≡ err e → is_database_error e ≡ false) × Recorded given.1 out)

  finish-Followed :
      (start : ℕ) (r : Result Json) (w : World)
      → Followed (r, w) (finish x gw p role input_hash start (r, w))
  unfolding finish
  finish-Followed start (err e) w = elim (Bool-cases (is_database_error e)) [
    | inl t ↦ rw (t, finish) (inl (e, refl, t, refl, refl))
    | inr f ↦
        rw (f, finish)
          (inr (
            λ e' h.
                let same : e ≡ e' = ground arith in subst (λ y. is_database_error y ≡ false) same f,
            record_failure-Recorded (w.clock - start) _ e w,
          ))
  ]
  finish-Followed start (ok raw) w = elim (Option-cases (p.output_schema raw)) [
    | inl drift ↦
        subst (Followed (ok raw, w)) (sym (finish_drift start raw w drift))
          (inr (λ e h. absurd (cc), record_failure-Recorded (w.clock - start) _ validation_error w))
    | inr (output, valid) ↦
        subst (Followed (ok raw, w)) (sym (finish_valid start raw output w valid))
          (inr (λ e h. absurd (cc), record_success-Recorded (w.clock - start) output w))
  ]

  serve_hit_drift :
      (payload : Json) (hash : Option String) (w : World)
      → p.output_schema payload ≡ none
      → serve_hit x gw p role input_hash (payload, hash) w ≡ (err validation_error, w)
  unfolding serve_hit
  serve_hit_drift payload hash w drift = rw (drift, serve_hit)

  serve_hit-Recorded :
      (payload output : Json) (hash : Option String) (w : World)
      → p.output_schema payload ≡ some output
      → Recorded w (serve_hit x gw p role input_hash (payload, hash) w)
  unfolding serve_hit
  serve_hit-Recorded payload output hash w valid =
      rw (valid, serve_hit)
        (record_call-Recorded (hit_row x gw p role input_hash payload hash)
          (λ id. ok (hit_result x gw p role input_hash output id)) w (λ id now. refl)
          (λ id now. (refl, refl, refl, refl, refl)))

  abbrev cached : World → Option (Json × Option String)
  cached = find_cached x gw p role input_hash

  -- The three ways of a call that passed its checks: the implementation is called, and the row stands
  -- behind whatever it wrote; a cached output is served, and the row is added; or a cached output no
  -- longer fits the schema, which raises and records nothing.
  abbrev pub Audited : Impl → Fields → World → Result ToolResult × World → Type 0
  Audited impl args w out =
      ((cached w ≡ none) × Followed (impl args w) out)
      ⊎ ((hit : Json × Option String) × (cached w ≡ some hit)
          × (p.output_schema hit.0 ≢ none)
          × Recorded w out)
      ⊎ ((hit : Json × Option String) × (cached w ≡ some hit)
          × (p.output_schema hit.0 ≡ none)
          × (out ≡ (err validation_error, w)))

  module _ (impl : Impl) (args : Fields) (w : World) where
    abbrev run : Result ToolResult × World
    run = call_validated x gw p role input_hash impl args w

    call_validated_miss :
        cached w ≡ none → run ≡ finish x gw p role input_hash w.clock (impl args w)
    unfolding call_validated
    call_validated_miss e = rw (e, call_validated)

    call_validated_hit :
        (hit : Json × Option String)
        → cached w ≡ some hit
        → run ≡ serve_hit x gw p role input_hash hit w
    unfolding call_validated
    call_validated_hit hit e = rw (e, call_validated)

    call_validated-Audited : Audited impl args w run
    call_validated-Audited = elim (Option-cases (cached w)) [
      | inl miss ↦
          subst (Audited impl args w) (sym (call_validated_miss miss))
            (inl (miss, finish-Followed w.clock (impl args w).0 (impl args w).1))
      | inr ((payload, hash), e) ↦ elim (Option-cases (p.output_schema payload)) [
        | inl drift ↦
            subst (Audited impl args w)
              (sym (call_validated_hit (payload, hash) e ∙ serve_hit_drift payload hash w drift))
              (inr (inr ((payload, hash), e, drift, refl)))
        | inr (output, valid) ↦
            subst (Audited impl args w) (sym (call_validated_hit (payload, hash) e)) (
              inr
                (inl ((payload, hash), e, λ n. cc, serve_hit-Recorded payload output hash w valid)))
      ]
    ]

call_step :
    (x : Externals) (gw : ToolGateway) (role : AgentRole) (tool_name : String) (args : Fields)
    (w : World) (p : ToolPolicy) (valid : Fields) (impl : Impl)
    → lookup tool_name gw.policies ≡ some p
    → role_in role p.allowed_roles ≡ true
    → p.input_schema args ≡ some valid
    → lookup tool_name gw.impls ≡ some impl
    → call x gw role tool_name args w
      ≡ call_validated x gw p role (compute_input_hash x valid) impl valid w
unfolding call
call_step x gw role tool_name args w p valid impl a b c d = ground arith

module _ (x : Externals) (gw : ToolGateway) (role : AgentRole) (tool_name : String) (args : Fields)
    (w : World) where
  -- A call by a role that the policy of a registered tool allows, with input that its schema accepts,
  -- calls the implementation and adds one row to `tool_calls` behind what that wrote, or serves a
  -- cached output and adds one row; the row has the run, tool, version, role and input hash, and an
  -- output exactly if the call returns. There are three exceptions, which raise and add no row: the
  -- run does not exist (`ForeignKeyViolation`); the implementation raised an exception of the database
  -- (`InFailedSqlTransaction`); and a cached output that the schema refuses (`ValidationError`).
  pub call-Audited :
      (p : ToolPolicy) (valid : Fields) (impl : Impl)
      → lookup tool_name gw.policies ≡ some p
      → role_in role p.allowed_roles ≡ true
      → p.input_schema args ≡ some valid
      → lookup tool_name gw.impls ≡ some impl
      → Audited x gw p role
          (compute_input_hash x valid)
          impl
          valid
          w
          (call x gw role tool_name args w)
  call-Audited p valid impl registered allowed accepted implemented =
      subst (Audited x gw p role (compute_input_hash x valid) impl valid w) (sym step)
        (call_validated-Audited x gw p role (compute_input_hash x valid) impl valid w)
    where
      step :
          call x gw role tool_name args w
          ≡ call_validated x gw p role (compute_input_hash x valid) impl valid w
      step =
          call_step x gw role tool_name args w p valid impl registered allowed accepted implemented
