-- ===== src/Runtime/Gateway/Quiet.antt =====
-- What a call of the gateway leaves alone: the runs, the evidence and the count of model calls.
use surveyforge.Base.{
  ◌-◌, ◌≡◌, refl, subst, inl, inr, ◌∙◌, ℕ, String, ◌<>◌, List, ◌==◌, Option, Option-cases,
  Bool-cases, some, arith, lookup, lookup-insert,
}
use surveyforge.Roles.{AgentRole, role_in}
use surveyforge.Runtime.Errors.{
  Result, ok, err, is_database_error, validation_error, category_value, schema_invalid,
}
use surveyforge.Runtime.Json.{Json, Fields}
use surveyforge.Runtime.World.{World, Run, EvidenceItem, ToolCall, run_exists, continue}
use surveyforge.Runtime.Gateway.{
  Externals, hit_row, failure_row, success_row, hit_result, success_result, is_truncated,
  stored_payload, category_of, ToolPolicy, ToolResult, ToolGateway, Impl, register, record_call,
  add_tool_call, serve_hit, record_failure, record_success, finish, find_cached, call_validated,
  call,
}

-- What is looked at: a function of the runs, the evidence and the count of model calls.
abbrev pub View : Type 0 → Type 0
View X = List Run → List EvidenceItem → ℕ → X

abbrev pub everything : View (List Run × List EvidenceItem × ℕ)
everything runs evidence calls = (runs, evidence, calls)

module _ {X : Type 0} (see : View X) where
  -- To the view, nothing has changed.
  abbrev pub ToolsOnly : World → World → Type 0
  ToolsOnly w w' =
      see w'.db.runs w'.db.evidence_items w'.llm_calls
      ≡ see w.db.runs w.db.evidence_items w.llm_calls

  -- An implementation that changes nothing the view shows.
  abbrev pub Quiet : Impl → Type 0
  Quiet impl = (args : Fields) (w : World) → ToolsOnly w (impl args w).1

  abbrev pub AllQuiet : ToolGateway → Type 0
  AllQuiet gw = (name : String) (impl : Impl) → lookup name gw.impls ≡ some impl → Quiet impl

  pub register-AllQuiet :
      (p : ToolPolicy) (impl : Impl) (gw : ToolGateway)
      → Quiet impl
      → AllQuiet gw
      → AllQuiet (register p impl gw)
  unfolding register
  register-AllQuiet p impl gw q all name found h = elim (Bool-cases (p.tool_name == name)) [
    | inl t ↦
        let same : impl ≡ found = ground (arith, lookup-insert p.tool_name name impl gw.impls) in
        subst Quiet same q
    | inr f ↦ all name found (ground (arith, lookup-insert p.tool_name name impl gw.impls))
  ]

  module _ (x : Externals) (gw : ToolGateway) where
    module _ (p : ToolPolicy) (role : AgentRole) (input_hash : String) where
      -- Whether the row is recorded or not, and whatever is returned then.
      record_call-ToolsOnly :
          (row : String → ℕ → ToolCall) (w : World) (then_give : String → Result ToolResult)
          → ToolsOnly w (continue (λ id w'. (then_give id, w')) (record_call x row w)).1
      unfolding record_call add_tool_call
      record_call-ToolsOnly row w then_give =
          elim (Bool-cases (run_exists (row ("tc_" <> x.uuid w.ids) w.now).run_id w.db)) [
            | inl known ↦ rw (known, record_call) refl
            | inr unknown ↦ rw (unknown, record_call) refl
          ]

      serve_hit-ToolsOnly :
          (hit : Json × Option String) (w : World)
          → ToolsOnly w (serve_hit x gw p role input_hash hit w).1
      unfolding serve_hit
      serve_hit-ToolsOnly (payload, hash) w = elim (Option-cases (p.output_schema payload)) [
        | inl e ↦ rw (e, serve_hit) refl
        | inr (v, e) ↦
            rw (e, serve_hit)
              (record_call-ToolsOnly (hit_row x gw p role input_hash payload hash) w
                (λ id. ok (hit_result x gw p role input_hash v id)))
      ]

      finish-ToolsOnly :
          (start : ℕ) (r : Result Json × World)
          → ToolsOnly r.1 (finish x gw p role input_hash start r).1
      unfolding finish record_failure record_success
      finish-ToolsOnly start (err e, w) = elim (Bool-cases (is_database_error e)) [
        | inl t ↦ rw (t, finish) refl
        | inr f ↦
            rw (f, finish)
              (record_call-ToolsOnly
                (failure_row x gw p role input_hash (w.clock - start)
                  (category_of x gw p role input_hash e))
                w (λ id. err e))
      ]
      finish-ToolsOnly start (ok raw, w) = elim (Option-cases (p.output_schema raw)) [
        | inl e ↦
            rw (e, finish)
              (record_call-ToolsOnly
                (failure_row x gw p role input_hash (w.clock - start)
                  (some (category_value schema_invalid)))
                w (λ id. err validation_error))
        | inr (v, e) ↦
            rw (e, finish)
              (record_call-ToolsOnly
                (success_row x gw p role input_hash (w.clock - start)
                  (stored_payload x gw p role input_hash v) (is_truncated x gw p role input_hash v))
                w (λ id. ok (success_result x gw p role input_hash (w.clock - start) v id)))
      ]

      call_validated-ToolsOnly :
          (impl : Impl) (args : Fields) (w : World)
          → Quiet impl
          → ToolsOnly w (call_validated x gw p role input_hash impl args w).1
      unfolding call_validated
      call_validated-ToolsOnly impl args w q =
          elim (Option-cases (find_cached x gw p role input_hash w)) [
            | inl e ↦ rw (e, call_validated) (finish-ToolsOnly w.clock (impl args w) ∙ q args w)
            | inr (hit, e) ↦ rw (e, call_validated) (serve_hit-ToolsOnly hit w)
          ]

    pub call-ToolsOnly :
        (role : AgentRole) (tool_name : String) (args : Fields) (w : World)
        → AllQuiet gw
        → ToolsOnly w (call x gw role tool_name args w).1
    unfolding call
    call-ToolsOnly role tool_name args w all = elim (Option-cases (lookup tool_name gw.policies)) [
      | inl e ↦ rw (e, call) (refl)
      | inr (p, e) ↦ elim (Bool-cases (role_in role p.allowed_roles)) [
        | inr f ↦ rw (e, call) (rw f (refl))
        | inl t ↦ elim (Option-cases (p.input_schema args)) [
          | inl g ↦ rw (e, call) (rw t (rw (g, call) (refl)))
          | inr (valid, g) ↦ elim (Option-cases (lookup tool_name gw.impls)) [
            | inl h ↦ rw (e, call) (rw t (rw (g, call) (rw (h, call) (refl))))
            | inr (impl, h) ↦
                rw (e, call)
                  (rw t (
                    rw (g, call)
                      (rw (h, call)
                        (call_validated-ToolsOnly p role _ impl valid w (all tool_name impl h)))))
          ]
        ]
      ]
    ]

-- The runs alone.
abbrev pub only_runs : View (List Run)
only_runs runs evidence calls = runs
