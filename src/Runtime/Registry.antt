-- ===== src/Runtime/Registry.antt =====
-- The registry of policies at the end of src/litweave/runtime/tool_gateway.py, with opaque schemas.
use surveyforge.Base.{ℕ, Bool, true, false, String, Option, none, some, List, [], ◌∷◌, Dict, insert}
use surveyforge.Roles.{
  AgentRole, researcher_wide, researcher_deep, synthesizer, writer, critic_section, critic_final,
  judge_default, judge_final,
}
use surveyforge.Runtime.Json.{Json, obj, Fields}
use surveyforge.Runtime.World.{Trust, trusted_internal, untrusted_content}
use surveyforge.Runtime.Gateway.{ToolPolicy}
use surveyforge.Llm.Router.{all_roles}

-- `_OpaqueArgs` and `_OpaqueOutput` allow any keys.
abbrev pub opaque_args : Fields → Option Fields
opaque_args fs = some fs

abbrev pub opaque_output : Json → Option Json
opaque_output (obj fs) = some (obj fs)
opaque_output v = none

unfoldable pub register_policy : ToolPolicy → Dict ToolPolicy → Dict ToolPolicy
unfolding insert
register_policy policy registry = insert policy.tool_name policy registry

-- A `ToolPolicy` with the defaults of its other fields.
abbrev pub opaque_policy : String → List AgentRole → Option ℕ → Bool → Trust → ToolPolicy
opaque_policy tool_name allowed_roles cache_ttl_seconds idempotent result_trust = record {
  tool_name = tool_name;
  tool_version = "0.1.0";
  allowed_roles = allowed_roles;
  input_schema = opaque_args;
  output_schema = opaque_output;
  cache_ttl_seconds = cache_ttl_seconds;
  idempotent = idempotent;
  result_trust = result_trust;
  max_result_bytes = 5_000_000;
}

abbrev pub arxiv_search_policy : ToolPolicy
arxiv_search_policy =
    opaque_policy "arxiv_search" (researcher_wide ∷ []) (some 3600) true trusted_internal

abbrev pub s2_lookup_policy : ToolPolicy
s2_lookup_policy =
    opaque_policy "s2_lookup" (researcher_wide ∷ []) (some 3600) true trusted_internal

abbrev pub web_search_policy : ToolPolicy
web_search_policy =
    opaque_policy "web_search" (researcher_wide ∷ []) (some 3600) true untrusted_content

abbrev pub pdf_reader_policy : ToolPolicy
pdf_reader_policy =
    opaque_policy "pdf_reader" (researcher_deep ∷ []) (some 3600) true untrusted_content

abbrev pub citation_verifier_policy : ToolPolicy
citation_verifier_policy =
    opaque_policy "citation_verifier" (researcher_deep ∷ (critic_section ∷ (critic_final ∷ [])))
      (some 3600) true trusted_internal

abbrev pub evidence_store_read_policy : ToolPolicy
evidence_store_read_policy =
    opaque_policy "evidence_store_read"
      (synthesizer
        ∷ (writer ∷ (critic_section ∷ (critic_final ∷ (judge_default ∷ (judge_final ∷ []))))))
      none true trusted_internal

abbrev pub evidence_store_write_policy : ToolPolicy
evidence_store_write_policy =
    opaque_policy "evidence_store_write" (researcher_deep ∷ []) none false trusted_internal

abbrev pub metadata_helper_policy : ToolPolicy
metadata_helper_policy =
    opaque_policy "metadata_helper" (all_roles) (some 3600) true trusted_internal

abbrev pub format_helper_policy : ToolPolicy
format_helper_policy = opaque_policy "format_helper" (all_roles) (some 3600) true trusted_internal

-- The policies in the order of the calls.
abbrev pub registered : List ToolPolicy
registered =
    arxiv_search_policy
    ∷ (s2_lookup_policy
        ∷ (web_search_policy
            ∷ (pdf_reader_policy
                ∷ (citation_verifier_policy
                    ∷ (evidence_store_read_policy
                        ∷ (evidence_store_write_policy
                            ∷ (metadata_helper_policy ∷ (format_helper_policy ∷ []))))))))

unfoldable pub register_all : List ToolPolicy → Dict ToolPolicy → Dict ToolPolicy
unfolding register_policy
register_all [] registry = registry
register_all (policy ∷ policies) registry = register_all policies (register_policy policy registry)

unfoldable pub tool_registry : Dict ToolPolicy
unfolding register_all
tool_registry = register_all registered []
