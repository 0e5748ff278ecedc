-- ===== src/Examples/Stores.antt =====
-- The stores, the gateway and the model's calls at concrete inputs.
use surveyforge.Base.{
  refl, ◌≡◌, ◌↔◌, ◌⊎◌, true, false, some, none, List, [], ◌∷◌, ◌≤◌, String, arith, All, Any, keep,
  contains, if◌then◌else◌, insert, lookup, ℕ,
}
use surveyforge.Roles.{researcher_deep, role_in}
use surveyforge.Runtime.Errors.{ok}
use surveyforge.Runtime.Json.{Json, Fields, end, field, str}
use surveyforge.Runtime.Json.Sanitize.{
  is_secret, NamesSecret, sanitize_args, no_secret_fields, sanitize_args_lem,
}
use surveyforge.Runtime.World.{
  run_exists, World, EvidenceItem, ToolCall, running, succeeded, failed,
}
use surveyforge.Runtime.Runs.{
  find_run, find_key, update_stage, succeed, fail, request_cancel, note_error_category, create,
}
use surveyforge.Runtime.Runs.Laws.{Updates, run_manager-Updates, Unique, Created, create_lem}
use surveyforge.Runtime.Gateway.{
  call, call_validated, compute_input_hash, record_success, lookup_cache, register, ttl_if_cached,
  success_row,
}
use surveyforge.Runtime.Gateway.Calls.{Audited, call-Audited}
use surveyforge.Runtime.Gateway.Cache.{Answers, lookup_cache_exact, call_repeated}
use surveyforge.Runtime.Evidence.{save, evidence_item_valid}
use surveyforge.Runtime.Evidence.Laws.{Saved, save-Saved}
use surveyforge.Schemas.PaperId.{paper_id_valid}
use surveyforge.Llm.RateLimit.{Limiter, Bucket}
use surveyforge.Llm.Structured.{structured_call, Outcome, structured_call-Outcome}
use surveyforge.Synthesis.Grounding.{validate_grounding}
use surveyforge.Synthesis.Grounding.Laws.{IsGrounded, Passes, validate_grounding_iff}
use surveyforge.Synthesis.Tokens.{packed_total_tokens, estimate_tokens, build_user_message}
use surveyforge.Synthesis.Tokens.Groups.{of_paper}
use surveyforge.Synthesis.Tokens.Estimate.{packed_total_tokens-le}
use surveyforge.Synthesis.Rerank.{top_k_rerank}
use surveyforge.Synthesis.Rerank.Packing.{top_k_rerank_lem}
use surveyforge.Llm.Model.{human}
use surveyforge.Examples.Data.{
  world, item, other_item, section, grounded, answering, no_parsers, show_conf, policy, impl,
  externals, gateway, paper_args,
}

abbrev items : List EvidenceItem
items = item ∷ (other_item ∷ [])

validate_grounding_iff_example :
    Passes (
      validate_grounding grounded
        ("s2:1" ∷ [])
        ("E-run_1-s1-0" ∷ [])
        (("E-run_1-s1-0", "s2:1") ∷ [])
        "s1")
    ↔ IsGrounded grounded ("s2:1" ∷ []) ("E-run_1-s1-0" ∷ []) (("E-run_1-s1-0", "s2:1") ∷ []) "s1"
validate_grounding_iff_example =
    validate_grounding_iff grounded ("s2:1" ∷ []) ("E-run_1-s1-0" ∷ [])
      (("E-run_1-s1-0", "s2:1") ∷ []) "s1"

call-Audited_example :
    Audited externals gateway
      (policy "s2_lookup")
      researcher_deep
      (compute_input_hash externals paper_args)
      impl
      paper_args
      world
      (call externals gateway researcher_deep "s2_lookup" paper_args world)
unfolding register insert lookup role_in
call-Audited_example =
    call-Audited externals gateway researcher_deep "s2_lookup" paper_args world (policy "s2_lookup")
      paper_args impl refl refl refl refl

-- A row of the cache, and a later world.
abbrev stored_row : ToolCall
stored_row = record {
  tool_call_id = "tc_0";
  run_id = "run_1";
  tool_name = "s2_lookup";
  tool_version = "0.1.0";
  agent_role = researcher_deep;
  input_hash = "digest";
  output = some (str "an abstract");
  output_hash = none;
  result_trust = (policy "s2_lookup").result_trust;
  latency_ms = 3;
  cache_hit = false;
  truncated = false;
  error_category = none;
  created_at = 7;
}

abbrev cached : World
cached = record world { db = record world.db { tool_calls = stored_row ∷ [] } }

lookup_cache_exact_example :
    ((row : ToolCall) × (v : Json) × Any (λ r. r ≡ row) cached.db.tool_calls
      × Answers (policy "s2_lookup") "digest" 60 cached.now v row
      × (lookup_cache (policy "s2_lookup") "digest" 60 cached ≡ some (v, row.output_hash)))
    ⊎ (All
          (λ r. (v : Json) → ¬ Answers (policy "s2_lookup") "digest" 60 cached.now v r)
          cached.db.tool_calls
        × (lookup_cache (policy "s2_lookup") "digest" 60 cached ≡ none))
lookup_cache_exact_example = lookup_cache_exact (policy "s2_lookup") "digest" 60 cached

abbrev after_call : World
after_call = record world {
  db = record world.db {
    tool_calls =
        success_row externals gateway (policy "s2_lookup") researcher_deep "digest" 3
          (str "an abstract") false "tc_1" 7
        ∷ [];
  };
  now = 60_000;
}

call_repeated_example :
    (call_validated externals gateway
      (policy "s2_lookup")
      researcher_deep
      "digest"
      impl
      paper_args
      after_call).0
    ≡ ok (record {
      tool_call_id = "tc_1";
      output = str "an abstract";
      cache_hit = true;
      truncated = false;
      result_trust = (policy "s2_lookup").result_trust;
      latency_ms = 0;
    })
unfolding ttl_if_cached record_success run_exists register
call_repeated_example =
    call_repeated externals gateway (policy "s2_lookup") researcher_deep "digest" impl paper_args 3
      60 (str "an abstract") world after_call refl refl refl refl refl tt refl (omega arith)

top_k_rerank_lem_example :
    let out = top_k_rerank show_conf 10 30 items in
    ((k : String)
      → keep (of_paper k) out.0 ≡ (if contains out.1 k then [] else keep (of_paper k) items))
    × ((packed_total_tokens show_conf out.0 10 ≤ 30) ⊎ (out.0 ≡ []))
top_k_rerank_lem_example = top_k_rerank_lem show_conf 10 30 items

packed_total_tokens-le_example :
    packed_total_tokens show_conf items (estimate_tokens "Synthesize")
    ≤ estimate_tokens (build_user_message show_conf section items (λ s. "Synthesize"))
packed_total_tokens-le_example = packed_total_tokens-le show_conf section items (λ s. "Synthesize")

structured_call-Outcome_example :
    Outcome no_parsers
      (answering "t")
      (λ v. none)
      "t"
      true
      2
      world
      (structured_call no_parsers (answering "t") (λ v. none) "t" true (human "hello" ∷ []) 2 world)
structured_call-Outcome_example =
    structured_call-Outcome no_parsers (answering "t") (λ v. none) "t" true (human "hello" ∷ []) 2
      world

run_manager-Updates_example :
    Updates "run_1"
      (λ r. record r { current_stage = some "plan"; status = running; updated_at = world.now })
      world
      (update_stage "run_1" "plan" world)
    × Updates "run_1"
        (λ r. record r { status = succeeded; updated_at = world.now })
        world
        (succeed "run_1" world)
    × Updates "run_1"
        (λ r. record r { status = failed; error_category = some "plan"; updated_at = world.now })
        world
        (fail "run_1" "plan" world)
    × Updates "run_1"
        (λ r. record r { cancel_requested = true; updated_at = world.now })
        world
        (request_cancel "run_1" world)
    × Updates "run_1"
        (λ r. record r { error_category = some "plan"; updated_at = world.now })
        world
        (note_error_category "run_1" "plan" world)
run_manager-Updates_example = run_manager-Updates "run_1" "plan" world

create_lem_example :
    Unique (create (λ n. "2") "trees" "key_2" world).1.db.runs
    × Created "key_2" world (create (λ n. "2") "trees" "key_2" world)
unfolding find_run find_key
create_lem_example = create_lem (λ n. "2") "trees" "key_2" world (refl, refl, tt)

abbrev secret_args : Fields
secret_args = field "paper_id" (str "s2:1") (field "api_key" (str "k") end)

sanitize_args_lem_example :
    (no_secret_fields (sanitize_args secret_args) ≡ true)
    × ((sanitize_args secret_args ≡ secret_args) ↔ (no_secret_fields secret_args ≡ true))
    × ((k : String) → (is_secret k ≡ true) ↔ NamesSecret k)
sanitize_args_lem_example = sanitize_args_lem secret_args

-- Ten requests a second, three at once; each sleep is 5 milliseconds longer than asked for.
abbrev limiter : Limiter
limiter = record { rpm = 600; capacity = 3 }

abbrev late : ℕ → ℕ
late now = 5

abbrev bucket : Bucket
bucket = record { tokens = 180_000; last = 7 }

abbrev four_at_once : List ℕ
four_at_once = 0 ∷ (0 ∷ (0 ∷ (0 ∷ [])))

save-Saved_example : Saved other_item world (save other_item world)
unfolding evidence_item_valid paper_id_valid
save-Saved_example = save-Saved other_item world refl (refl, tt)
