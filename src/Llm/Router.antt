-- ===== src/Llm/Router.antt =====
-- src/litweave/llm/router.py: the bindings of roles to models, and the router that builds and keeps
-- their clients. A role is its value, as the enumeration's members are.
pub mod Routing
use surveyforge.Base.{
  ℕ, Bool, true, false, not, ◌&&◌, ◌||◌, String, ◌==◌, Option, none, some, List, [], ◌∷◌, map,
  contains, is_empty, all, Dict, lookup, insert, if◌then◌else◌,
}
use surveyforge.Roles.{
  AgentRole, planner, researcher_wide, researcher_deep, synthesizer, writer, critic_section,
  critic_final, judge_default, judge_final, lite_worker, role_value,
}
use surveyforge.Runtime.Errors.{Result, ok, err, value_error, key_error, runtime_error}
use surveyforge.Runtime.Json.{Json, null, bool, num, str, obj, arr, Fields, end, field, get_field}
use surveyforge.Runtime.Json.Access.{item_of, get_or, then_read}
use surveyforge.Llm.Providers.{ProviderName, provider_of, providers, Env, Client, build_chat_model}

pub record RoleBinding : Type 0 where
  pub provider : ProviderName
  pub model : String
  pub temperature : ℕ
  pub max_tokens : Option ℕ
  pub supports_fc : Option Bool

unfoldable pub fc_enabled : RoleBinding → Bool
unfolding providers
fc_enabled b = elim b.supports_fc [
  | some fc ↦ fc
  | none ↦ (providers b.provider).supports_function_calling
]

abbrev pub all_roles : List AgentRole
all_roles =
    planner
    ∷ (researcher_wide
        ∷ (researcher_deep
            ∷ (synthesizer
                ∷ (writer
                    ∷ (critic_section
                        ∷ (critic_final ∷ (judge_default ∷ (judge_final ∷ (lite_worker ∷ [])))))))))

abbrev pub Bindings : Type 0
Bindings = Dict RoleBinding

-- What a caller may set for one call.
pub record Overrides : Type 0 where
  pub model_override : Option String
  pub temperature : Option ℕ
  pub max_tokens : Option ℕ
  pub options : List (String × Json)

pub record Router : Type 0 where
  pub bindings : Bindings
  pub cache : Dict Client

abbrev pub is_set {ℓ} : {A : Type ℓ} → Option A → Bool
is_set none = false
is_set (some a) = true

abbrev pub given_text : Option String → Bool
given_text none = false
given_text (some text) = not (text == "")

unfoldable pub is_overridden : Overrides → Bool
is_overridden o =
    given_text o.model_override
    || is_set o.temperature
    || is_set o.max_tokens
    || not (is_empty o.options)

abbrev pub or_default {ℓ} : {A : Type ℓ} → Option A → A → A
or_default none default = default
or_default (some a) default = a

unfoldable pub build_for : Env → RoleBinding → Overrides → Result Client
unfolding build_chat_model
build_for env b o =
    build_chat_model env b.provider
      (if given_text o.model_override then o.model_override else some b.model)
      (or_default o.temperature b.temperature)
      (if is_set o.max_tokens then o.max_tokens else b.max_tokens) o.options

-- A client that was built without overrides is kept.
unfoldable pub keep_client : Bool → String → Router → Result Client → Result Client × Router
unfolding insert
keep_client overridden role r (err e) = (err e, r)
keep_client overridden role r (ok client) =
    (ok client, if overridden then r else record r { cache = insert role client r.cache })

unfoldable pub cached_client : Bool → String → Router → Option Client
unfolding lookup
cached_client overridden role r = if overridden then none else lookup role r.cache

unfoldable pub get_llm : Env → AgentRole → Overrides → Router → Result Client × Router
unfolding lookup is_overridden build_for keep_client cached_client
get_llm env role o r = elim (lookup (role_value role) r.bindings) [
  | none ↦ (err (key_error (role_value role)), r)
  | some b ↦ elim (cached_client (is_overridden o) (role_value role) r) [
    | some client ↦ (ok client, r)
    | none ↦ keep_client (is_overridden o) (role_value role) r (build_for env b o)
  ]
]

unfoldable pub binding : AgentRole → Router → Result RoleBinding
unfolding lookup
binding role r = elim (lookup (role_value role) r.bindings) [
  | none ↦ err (key_error (role_value role))
  | some b ↦ ok b
]

-- The readings of the values of an entry, which are stored as they are but for `float` on one.
pub record Readings : Type 0 where
  pub read_model : Json → String
  pub read_float : Json → Result ℕ
  pub read_tokens : Json → Option ℕ
  pub read_flag : Json → Option Bool

unfoldable pub read_provider : Json → Result ProviderName
unfolding provider_of
read_provider (str s) = elim (provider_of s) [ none ↦ err (value_error s) | some p ↦ ok p ]
read_provider v = err (value_error "provider")

-- `RoleBinding(…)` from an entry.
unfoldable pub read_entry : Readings → Json → Result RoleBinding
unfolding item_of get_or read_provider
read_entry rd entry = then_read (item_of "provider" entry) (λ p.
    then_read (read_provider p) (λ provider. then_read (item_of "model" entry) (λ model.
      then_read (get_or "temperature" (num 0) entry) (λ t.
        then_read (rd.read_float t) (λ temperature.
          then_read (get_or "max_tokens" null entry) (λ tokens.
            then_read (get_or "supports_fc" null entry) (λ fc. ok (record {
              provider = provider;
              model = rd.read_model model;
              temperature = temperature;
              max_tokens = rd.read_tokens tokens;
              supports_fc = rd.read_flag fc;
            }))))))))

-- `except (KeyError, ValueError)`
unfoldable pub as_value_error {ℓ} : {A : Type ℓ} → String → Result A → Result A
as_value_error key (ok a) = ok a
as_value_error key (err (key_error k)) = err (value_error key)
as_value_error key (err (value_error v)) = err (value_error key)
as_value_error key (err e) = err e

-- The loop over the entries of the file.
unfoldable pub read_bindings : Readings → Fields → Bindings → Result Bindings
unfolding read_entry as_value_error insert contains role_value
read_bindings rd end b = ok b
read_bindings rd (field key entry rest) b =
    if contains (map role_value all_roles) key
    then then_read (as_value_error key (read_entry rd entry))
        (λ rb. read_bindings rd rest (insert key rb b))
    else err (value_error key)

unfoldable pub is_bound : Bindings → AgentRole → Bool
unfolding lookup role_value
is_bound b role = is_set (lookup (role_value role) b)

-- `missing`
unfoldable pub complete_or_raise : Bindings → Result Bindings
unfolding is_bound
complete_or_raise b =
    if all (is_bound b) all_roles then ok b else err (value_error "Missing role bindings")

unfoldable pub load_routing_yaml : Readings → Json → Result Bindings
unfolding read_bindings complete_or_raise
load_routing_yaml rd (obj fs) = then_read (read_bindings rd fs []) complete_or_raise
load_routing_yaml rd raw = err (value_error "expected mapping at top level")
