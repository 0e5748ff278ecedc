-- ===== src/Examples/Servers.antt =====
-- A server that refuses a request and answers the next one, and a router over a routing file.
use surveyforge.Base.{
  ◌≡◌, refl, lookup, String, ◌==◌, none, some, List, [], ◌∷◌, ltb, if◌then◌else◌, ◌+◌,
}
use surveyforge.Runtime.Errors.{ok}
use surveyforge.Runtime.Json.{Json, obj, field, str, end}
use surveyforge.Roles.{AgentRole, planner, synthesizer, role_value}
use surveyforge.Llm.Providers.{Env, Client, glm}
use surveyforge.Llm.Router.{
  RoleBinding, Bindings, Overrides, Router, Readings, is_overridden, get_llm, binding,
  load_routing_yaml,
}
use surveyforge.Llm.Router.Routing.{load_routing_yaml-binding, calls, get_llm_lem}
use surveyforge.Tools.Http.{Server}
use surveyforge.Tools.S2 as S2
use surveyforge.Tools.Arxiv as Arxiv
use surveyforge.Tools.Lookups.{Looked, s2_lookup_lem}
use surveyforge.Llm.RateLimit.Limited.{LimitedRouter, Keywords, LimitedClient, limit, get_limited}
use surveyforge.Llm.RateLimit.Limited.Shared.{Served, AllLimited, get_limited-Served}
use surveyforge.Examples.Data.{world}

abbrev busy_at_first : Server
busy_at_first url params headers time = (
  ok (record {
    status_code = if ltb time 100 then 429 else 200;
    retry_after = some "1";
    text = "{\"paperId\": \"7\"}";
  }),
  time + 20,
)

abbrev s2_site : S2.Site
s2_site = record {
  server = busy_at_first;
  api_key = some "key";
  seconds = λ raw. some 1000;
  read_json = λ text. some (obj (field "paperId" (str "7") end));
  show_json = λ v. "";
  output_schema = λ v. some v;
}

abbrev arxiv_site : Arxiv.Site
arxiv_site = record {
  server = busy_at_first;
  seconds = λ raw. some 1000;
  read_feed = λ text. ok (some (record { title = some "T"; summary = none }));
  strip = λ text. text;
  output_schema = λ v. some v;
}

s2_lookup_lem_example : Looked s2_site "s2:7" world (S2.lookup_paper s2_site "s2:7" world)
s2_lookup_lem_example = s2_lookup_lem s2_site "s2:7" world

abbrev env : Env
env name = if name == "MODELS_API_KEY" then some "secret" else none

abbrev no_env : Env
no_env name = none

abbrev no_overrides : Overrides
no_overrides = record { model_override = none; temperature = none; max_tokens = none; options = [] }

abbrev readings : Readings
readings = record {
  read_model = λ v. "m";
  read_float = λ v. ok 0;
  read_tokens = λ v. none;
  read_flag = λ v. none;
}

abbrev entry : Json
entry = obj (field "provider" (str "glm") (field "model" (str "m") end))

abbrev routing_file : Json
routing_file = obj (
    field "planner" entry (
      field "researcher_wide" entry (
        field "researcher_deep" entry (
          field "synthesizer" entry (
            field "writer" entry (
              field "critic_section" entry (
                field "critic_final" entry (
                  field "judge_default" entry
                    (field "judge_final" entry (field "lite_worker" entry end))))))))))

abbrev bound : String → String × RoleBinding
bound role = (
  role,
  record { provider = glm; model = "m"; temperature = 0; max_tokens = none; supports_fc = none },
)

abbrev bindings : Bindings
bindings =
    bound "planner"
    ∷ (bound "researcher_wide"
        ∷ (bound "researcher_deep"
            ∷ (bound "synthesizer"
                ∷ (bound "writer"
                    ∷ (bound "critic_section"
                        ∷ (bound "critic_final"
                            ∷ (bound "judge_default"
                                ∷ (bound "judge_final" ∷ (bound "lite_worker" ∷ [])))))))))

load_routing_yaml_run : load_routing_yaml readings routing_file ≡ ok bindings
unfolding load_routing_yaml
load_routing_yaml_run = refl

load_routing_yaml-binding_example :
    (rb : RoleBinding) × (binding synthesizer (record { bindings = bindings; cache = [] }) ≡ ok rb)
load_routing_yaml-binding_example =
    load_routing_yaml-binding readings routing_file bindings [] synthesizer load_routing_yaml_run

abbrev router : Router
router = record { bindings = bindings; cache = [] }

abbrev client : Client
client = record {
  model = "m";
  base_url = "https://models.sjtu.edu.cn/api/v1";
  api_key = "secret";
  temperature = 0;
  max_tokens = none;
  options = [];
}

abbrev warmer : Overrides
warmer = record no_overrides { temperature = some 700_000 }

abbrev in_between : List (Env × AgentRole × Overrides)
in_between = (env, synthesizer, no_overrides) ∷ ((env, planner, warmer) ∷ [])

get_llm_run : (get_llm env planner no_overrides router).0 ≡ ok client
unfolding get_llm role_value
get_llm_run = refl

get_llm_lem_example :
    (get_llm no_env planner no_overrides
        (calls in_between (get_llm env planner no_overrides router).1)
      ≡ (ok client, calls in_between (get_llm env planner no_overrides router).1))
    × ((get_llm no_env synthesizer warmer router).1 ≡ router)
unfolding is_overridden
get_llm_lem_example =
    get_llm_lem env no_env planner synthesizer router router no_overrides no_overrides warmer client
      in_between refl refl refl get_llm_run

abbrev limited_router : LimitedRouter
limited_router = record {
  bindings = bindings;
  per_provider = [];
  default = (60, 5);
  limiters = [];
  made = 0;
  cache = [];
}

abbrev no_keywords : Keywords
no_keywords = record {
  model_override = none;
  temperature = none;
  max_tokens = none;
  callbacks = none;
  options = [];
}

abbrev limited_client : LimitedClient
limited_client = record {
  provider = glm;
  client = client;
  callbacks = limit (record { id = 0; limiter = record { rpm = 60; capacity = 5 } }) ∷ [];
}

limited_router-AllLimited : AllLimited limited_router
unfolding lookup
limited_router-AllLimited role c h = absurd (cc)

get_limited_run : (get_limited env 0 planner no_keywords limited_router).0 ≡ ok limited_client
unfolding get_limited role_value
get_limited_run = refl

get_limited-Served_example :
    Served limited_router limited_client (get_limited env 0 planner no_keywords limited_router).1
get_limited-Served_example =
    get_limited-Served env 0 planner no_keywords limited_router limited_client
      limited_router-AllLimited get_limited_run
