-- ===== src/Llm/Providers.antt =====
-- src/litweave/llm/providers.py: the providers, and the client that is built for one. The environment
-- is a function from names; a client is what the library's constructor is given.
use surveyforge.Base.{
  ℕ, Bool, true, false, String, ◌==◌, Option, none, some, List, [], ◌∷◌, if◌then◌else◌,
}
use surveyforge.Runtime.Errors.{Result, ok, err, key_error}
use surveyforge.Runtime.Json.{Json}
use surveyforge.Synthesis.Tokens.{join}

pub data ProviderName : Type 0 where
  deepseek glm minimax qwen : ProviderName

-- `ProviderName(value)`
unfoldable pub provider_of : String → Option ProviderName
provider_of value =
    if value == "deepseek"
    then some deepseek
    else if value == "glm"
    then some glm
    else if value == "minimax"
    then some minimax
    else if value == "qwen"
    then some qwen
    else none

pub record ProviderConfig : Type 0 where
  pub base_url : String
  pub api_key_env : String
  pub api_key_env_aliases : List String
  pub context_window : ℕ
  pub default_model : String
  pub supports_function_calling : Bool

abbrev pub gateway_config : ℕ → String → Bool → ProviderConfig
gateway_config window model fc = record {
  base_url = "https://models.sjtu.edu.cn/api/v1";
  api_key_env = "MODELS_API_KEY";
  api_key_env_aliases = "SJTU_MODELS_API_KEY" ∷ [];
  context_window = window;
  default_model = model;
  supports_function_calling = fc;
}

unfoldable pub providers : ProviderName → ProviderConfig
providers deepseek = gateway_config 32_000 "deepseek-chat" true
providers glm = gateway_config 128_000 "glm-5.1" true
providers minimax = gateway_config 192_000 "minimax" true
providers qwen = gateway_config 256_000 "qwen" false

abbrev pub Env : Type 0
Env = String → Option String

-- The first name with a value that is not empty.
unfoldable pub first_set : Env → List String → Option String
first_set env [] = none
first_set env (name ∷ names) = elim (env name) [
  | none ↦ first_set env names
  | some value ↦ if value == "" then first_set env names else some value
]

unfoldable pub read_api_key : Env → ProviderConfig → Result String
unfolding first_set join
read_api_key env cfg =
    let names = cfg.api_key_env ∷ cfg.api_key_env_aliases in
    elim (first_set env names) [ none ↦ err (key_error (join " or " names)) | some key ↦ ok key ]

unfoldable pub read_base_url : Env → ProviderConfig → String
unfolding first_set
read_base_url env cfg = elim (first_set env ("MODELS_BASE_URL" ∷ [])) [
  | none ↦ cfg.base_url
  | some url ↦ url
]

-- Temperatures are millionths; `options` are the other keyword arguments.
pub record Client : Type 0 where
  pub model : String
  pub base_url : String
  pub api_key : String
  pub temperature : ℕ
  pub max_tokens : Option ℕ
  pub options : List (String × Json)

-- `model or cfg.default_model`
abbrev pub text_or : Option String → String → String
text_or none default = default
text_or (some text) default = if text == "" then default else text

unfoldable pub build_chat_model :
    Env → ProviderName → Option String → ℕ → Option ℕ → List (String × Json) → Result Client
unfolding read_api_key read_base_url providers
build_chat_model env provider model temperature max_tokens options =
    let cfg = providers provider in
    elim (read_api_key env cfg) [
      | err e ↦ err e
      | ok key ↦ ok (record {
        model = text_or model cfg.default_model;
        base_url = read_base_url env cfg;
        api_key = key;
        temperature = temperature;
        max_tokens = max_tokens;
        options = options;
      })
    ]
