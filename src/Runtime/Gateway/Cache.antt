-- ===== src/Runtime/Gateway/Cache.antt =====
-- The cache of the gateway: which rows it answers from, and what a repeated call gets.
use surveyforge.Base.{
  eq_iff, eq_refl, ◌<>◌, ℕ, ◌+◌, ◌*◌, ◌≤◌, Bool, true, false, String, none, some, List, [], ◌∷◌,
  ◌++◌, ◌≡◌, refl, ◌⊎◌, inl, inr, arith, ltb, Option-cases, ◌∙◌, All, Any,
}
use surveyforge.Roles.{AgentRole}
use surveyforge.Runtime.Errors.{ok}
use surveyforge.Runtime.Json.{Json, Fields}
use surveyforge.Runtime.World.{World, ToolCall, run_exists}
use surveyforge.Runtime.Gateway.{
  Externals, ToolPolicy, ToolGateway, Impl, latest, newer, cache_row_fits, lookup_cache,
  success_row, record_success, record_call, hit_row, add_tool_call, find_cached, ttl_if_cached,
  serve_hit, call_validated,
}

module _ (fits : ToolCall → Bool) where
  -- The row that the query returns fits and stands in the table.
  latest-some :
      (rows : List ToolCall) (row : ToolCall)
      → latest fits rows ≡ some row
      → Any (λ r. (r ≡ row) × (fits r ≡ true)) rows
  unfolding latest newer
  latest-some [] row h = cc
  latest-some (r ∷ rows) row h = ground (arith, latest-some rows row)

  latest-none : (rows : List ToolCall) → latest fits rows ≡ none → All (λ r. fits r ≡ false) rows
  unfolding latest
  latest-none [] h = tt
  latest-none (r ∷ rows) h = ground (arith, latest-none rows)

  -- A row that fits and is as new as all before it is the one returned.
  latest-append :
      (rows : List ToolCall) (row : ToolCall)
      → fits row ≡ true
      → All (λ r. r.created_at ≤ row.created_at) rows
      → latest fits (rows ++ (row ∷ [])) ≡ some row
  unfolding latest newer
  latest-append [] row f h = rw f
  latest-append (r ∷ rows) row f (a, h) = rw (latest-append rows row f h) (ground arith)

-- A row of this tool, version and input that is whole, free of error, recent enough and has `v`.
abbrev pub Answers : ToolPolicy → String → ℕ → ℕ → Json → ToolCall → Type 0
Answers p input_hash ttl now v row =
    (row.tool_name ≡ p.tool_name)
    × (row.tool_version ≡ p.tool_version)
    × (row.input_hash ≡ input_hash)
    × (row.truncated ≡ false)
    × (row.error_category ≡ none)
    × (now ≤ row.created_at + ttl * 1000)
    × (row.output ≡ some v)

module _ (p : ToolPolicy) (input_hash : String) (ttl now : ℕ) where
  fits→Answers :
      (row : ToolCall)
      → cache_row_fits p input_hash ttl now row ≡ true
      → (v : Json) × Answers p input_hash ttl now v row
  unfolding cache_row_fits
  fits→Answers row h = elim (Option-cases row.output) [
    | inl n ↦ absurd (ground arith)
    | inr (v, e) ↦ (
      v,
      ground (
        arith,
        eq_iff row.tool_name p.tool_name,
        eq_iff row.tool_version p.tool_version,
        eq_iff row.input_hash input_hash,
      ),
    )
  ]

  Answers→fits :
      (row : ToolCall) (v : Json)
      → Answers p input_hash ttl now v row
      → cache_row_fits p input_hash ttl now row ≡ true
  unfolding cache_row_fits
  Answers→fits row v h = ground (
    arith,
    eq_iff row.tool_name p.tool_name,
    eq_iff row.tool_version p.tool_version,
    eq_iff row.input_hash input_hash,
  )

Any-fits :
    (fits : ToolCall → Bool) (rows : List ToolCall) (row : ToolCall)
    → Any (λ r. (r ≡ row) × (fits r ≡ true)) rows
    → (fits row ≡ true) × Any (λ r. r ≡ row) rows
Any-fits fits [] row h = absurd h
Any-fits fits (r ∷ rows) row (inl h) = (rw (← h.0) h.1, inl h.0)
Any-fits fits (r ∷ rows) row (inr h) = let ih = Any-fits fits rows row h in (ih.0, inr ih.1)

none_fits :
    (p : ToolPolicy) (input_hash : String) (ttl now : ℕ) (rows : List ToolCall)
    → All (λ r. cache_row_fits p input_hash ttl now r ≡ false) rows
    → All (λ r. (v : Json) → ¬ Answers p input_hash ttl now v r) rows
none_fits p input_hash ttl now [] h = tt
none_fits p input_hash ttl now (r ∷ rows) (a, h) =
    (λ v ans. cc (Answers→fits p input_hash ttl now r v ans), none_fits p input_hash ttl now rows h)

module _ (p : ToolPolicy) (input_hash : String) (ttl : ℕ) (w : World) where
  lookup_cache-some :
      (row : ToolCall) (v : Json)
      → latest (cache_row_fits p input_hash ttl w.now) w.db.tool_calls ≡ some row
      → row.output ≡ some v
      → lookup_cache p input_hash ttl w ≡ some (v, row.output_hash)
  unfolding lookup_cache
  lookup_cache-some row v a b = ground arith

  lookup_cache-none :
      latest (cache_row_fits p input_hash ttl w.now) w.db.tool_calls ≡ none
      → lookup_cache p input_hash ttl w ≡ none
  unfolding lookup_cache
  lookup_cache-none a = ground arith

  -- The cache answers with the output of a row of the table that is of this tool, version and input,
  -- not truncated, without an error and no older than the time to live; and it has no answer only if
  -- the table has no such row.
  pub lookup_cache_exact :
      ((row : ToolCall) × (v : Json) × Any (λ r. r ≡ row) w.db.tool_calls
        × Answers p input_hash ttl w.now v row
        × (lookup_cache p input_hash ttl w ≡ some (v, row.output_hash)))
      ⊎ (All (λ r. (v : Json) → ¬ Answers p input_hash ttl w.now v r) w.db.tool_calls
          × (lookup_cache p input_hash ttl w ≡ none))
  lookup_cache_exact =
      let fits = cache_row_fits p input_hash ttl w.now in
      elim (Option-cases (latest fits w.db.tool_calls)) [
        | inl e ↦ inr (
          none_fits p input_hash ttl w.now w.db.tool_calls (latest-none fits w.db.tool_calls e),
          lookup_cache-none e,
        )
        | inr (row, e) ↦
            let found =
              Any-fits fits w.db.tool_calls row (latest-some fits w.db.tool_calls row e) in
            let (v, ans) = fits→Answers p input_hash ttl w.now row found.0 in
            inl (row, v, found.1, ans, lookup_cache-some row v e ans.6)
      ]

module _ (x : Externals) (gw : ToolGateway) (p : ToolPolicy) (role : AgentRole)
    (input_hash : String) where
  abbrev stored : ℕ → Json → World → ToolCall
  stored latency output w =
      success_row x gw p role input_hash latency output false ("tc_" <> x.uuid w.ids) w.now

  fits-stored :
      (latency ttl now : ℕ) (output : Json) (w : World)
      → now ≤ w.now + ttl * 1000
      → cache_row_fits p input_hash ttl now (stored latency output w) ≡ true
  unfolding cache_row_fits success_row
  fits-stored latency ttl now output w h =
      ground (arith, eq_refl p.tool_name, eq_refl p.tool_version, eq_refl input_hash)

  tool_calls-record_success :
      (latency : ℕ) (output : Json) (w : World)
      → ltb p.max_result_bytes (x.encoded_len output) ≡ false
      → run_exists gw.run_id w.db ≡ true
      → (record_success x gw p role input_hash latency output w).1.db.tool_calls
        ≡ w.db.tool_calls ++ (stored latency output w ∷ [])
  unfolding record_success record_call add_tool_call success_row
  tool_calls-record_success latency output w h known =
      rw (h, record_success) (rw (known, record_call) refl)

  find_cached-latest :
      (ttl : ℕ) (w : World) (row : ToolCall) (v : Json)
      → ttl_if_cached p ≡ some ttl
      → latest (cache_row_fits p input_hash ttl w.now) w.db.tool_calls ≡ some row
      → row.output ≡ some v
      → find_cached x gw p role input_hash w ≡ some (v, row.output_hash)
  unfolding find_cached
  find_cached-latest ttl w row v a b c = ground arith

  -- After a call that ran the implementation and stored its output whole, under a policy with a cache,
  -- the same call within the time to live returns that output as a cache hit, whatever the
  -- implementation would do now; provided that no row of the table is from the future, that no call
  -- came between, that the run exists then and now, and that the output schema accepts what it has
  -- dumped.
  pub call_repeated :
      (impl : Impl) (args : Fields) (latency ttl : ℕ) (output : Json) (w w' : World)
      → ttl_if_cached p ≡ some ttl
      → ltb p.max_result_bytes (x.encoded_len output) ≡ false
      → p.output_schema output ≡ some output
      → run_exists gw.run_id w.db ≡ true
      → run_exists gw.run_id w'.db ≡ true
      → All (λ r. r.created_at ≤ w.now) w.db.tool_calls
      → w'.db.tool_calls ≡ (record_success x gw p role input_hash latency output w).1.db.tool_calls
      → w'.now ≤ w.now + ttl * 1000
      → (call_validated x gw p role input_hash impl args w').0
        ≡ ok (record {
          tool_call_id = "tc_" <> x.uuid w'.ids;
          output = output;
          cache_hit = true;
          truncated = false;
          result_trust = p.result_trust;
          latency_ms = 0;
        })
  unfolding call_validated serve_hit success_row record_call hit_row
  call_repeated impl args latency ttl output w w' cached whole stable known still past same recent =
      rw (found, call_validated) (rw (stable, serve_hit) (rw (still, record_call) refl))
    where
      rows : w'.db.tool_calls ≡ w.db.tool_calls ++ (stored latency output w ∷ [])
      rows = same ∙ tool_calls-record_success latency output w whole known

      newest :
          latest (cache_row_fits p input_hash ttl w'.now) w'.db.tool_calls
          ≡ some (stored latency output w)
      newest = rw rows (
          latest-append (cache_row_fits p input_hash ttl w'.now) w.db.tool_calls
            (stored latency output w) (fits-stored latency ttl w'.now output w recent) past)

      found : find_cached x gw p role input_hash w' ≡ some (output, some (x.digest output))
      found = find_cached-latest ttl w' (stored latency output w) output cached newest refl
