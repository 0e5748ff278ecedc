-- ===== src/Llm/RateLimit/Limited.antt =====
-- `RateLimitedRouter` of src/litweave/llm/rate_limit.py: a router whose clients carry the limiter of
-- their provider. A limiter is an object, with a number for its identity; that calls wait on a lock is
-- left out. A keyword that a caller gives has a value, but for those that may be None; an empty list
-- stands for callbacks that are None.
pub mod Shared
use surveyforge.Base.{
  ℕ, ◌+◌, Bool, not, ◌||◌, true, false, String, Option, none, some, List, [], ◌∷◌, ◌++◌, is_empty,
  Dict, lookup, insert, if◌then◌else◌,
}
use surveyforge.Roles.{AgentRole, role_value}
use surveyforge.Runtime.Errors.{Result, ok, err, key_error}
use surveyforge.Runtime.Json.{Json}
use surveyforge.Llm.Providers.{
  ProviderName, deepseek, glm, minimax, qwen, Env, Client, build_chat_model,
}
use surveyforge.Llm.Router.{RoleBinding, Bindings, is_set, or_default, given_text}
use surveyforge.Llm.RateLimit.{Limiter, Bucket, new_limiter, limits_of}

unfoldable pub provider_value : ProviderName → String
provider_value deepseek = "deepseek"
provider_value glm = "glm"
provider_value minimax = "minimax"
provider_value qwen = "qwen"

pub record Handle : Type 0 where
  pub id : ℕ
  pub limiter : Limiter

-- `RateLimitCallback(limiter)`, or a callback of the caller.
pub data Callback : Type 0 where
  other : String → Callback
  limit : Handle → Callback

pub record LimitedClient : Type 0 where
  pub provider : ProviderName
  pub client : Client
  pub callbacks : List Callback

-- The keyword arguments of one call.
pub record Keywords : Type 0 where
  pub model_override : Option (Option String)
  pub temperature : Option ℕ
  pub max_tokens : Option (Option ℕ)
  pub callbacks : Option (List Callback)
  pub options : List (String × Json)

-- `made` counts the limiters that were made.
pub record LimitedRouter : Type 0 where
  pub bindings : Bindings
  pub per_provider : Dict (ℕ × ℕ)
  pub default : ℕ × ℕ
  pub limiters : Dict Handle
  pub made : ℕ
  pub cache : Dict LimitedClient

-- `bool(kwargs)`
unfoldable pub any_given : Keywords → Bool
any_given k =
    is_set k.model_override
    || is_set k.temperature
    || is_set k.max_tokens
    || is_set k.callbacks
    || not (is_empty k.options)

unfoldable pub add_limiter :
    String → LimitedRouter → Result (Limiter × Bucket) → Result Handle × LimitedRouter
unfolding insert
add_limiter provider r (err e) = (err e, r)
add_limiter provider r (ok (l, bucket)) =
    let h : Handle = record { id = r.made; limiter = l } in
    (ok h, record r { limiters = insert provider h r.limiters; made = r.made + 1 })

unfoldable pub limiter_for : ℕ → String → LimitedRouter → Result Handle × LimitedRouter
unfolding add_limiter limits_of new_limiter lookup
limiter_for now provider r = elim (lookup provider r.limiters) [
  | some h ↦ (ok h, r)
  | none ↦
      let (rpm, burst) = limits_of r.per_provider r.default provider in
      add_limiter provider r (new_limiter rpm burst now)
]

abbrev pub flat : Option (Option String) → Option String
flat none = none
flat (some text) = text

unfoldable pub build_limited : Env → RoleBinding → Keywords → Handle → Result LimitedClient
unfolding build_chat_model
build_limited env b k h =
    elim (build_chat_model env b.provider
      (if given_text (flat k.model_override) then flat k.model_override else some b.model)
      (or_default k.temperature b.temperature) (or_default k.max_tokens b.max_tokens) k.options) [
        | err e ↦ err e
        | ok client ↦ ok (record {
          provider = b.provider;
          client = client;
          callbacks = or_default k.callbacks [] ++ (limit h ∷ []);
        })
      ]

unfoldable pub keep_limited :
    Bool → String → LimitedRouter → Result LimitedClient → Result LimitedClient × LimitedRouter
unfolding insert
keep_limited given role r (err e) = (err e, r)
keep_limited given role r (ok c) =
    (ok c, if given then r else record r { cache = insert role c r.cache })

unfoldable pub after_limiter :
    Env
    → String
    → RoleBinding
    → Keywords
    → Result Handle × LimitedRouter
    → Result LimitedClient × LimitedRouter
unfolding build_limited keep_limited any_given
after_limiter env role b k (err e, r) = (err e, r)
after_limiter env role b k (ok h, r) = keep_limited (any_given k) role r (build_limited env b k h)

unfoldable pub cached_limited : Bool → String → LimitedRouter → Option LimitedClient
unfolding lookup
cached_limited given role r = if given then none else lookup role r.cache

unfoldable pub get_limited :
    Env → ℕ → AgentRole → Keywords → LimitedRouter → Result LimitedClient × LimitedRouter
unfolding lookup any_given cached_limited limiter_for after_limiter
get_limited env now role k r = elim (lookup (role_value role) r.bindings) [
  | none ↦ (err (key_error (role_value role)), r)
  | some b ↦ elim (cached_limited (any_given k) (role_value role) r) [
    | some c ↦ (ok c, r)
    | none ↦ after_limiter env (role_value role) b k (limiter_for now (provider_value b.provider) r)
  ]
]
