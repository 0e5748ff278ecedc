-- ===== src/Prompts/Tools.antt =====
-- The tools of a template and the registry of policies, which the loader does not read.
use surveyforge.Base.{
  ◌≡◌, refl, ◌∙◌, sym, Bool, true, false, String, ◌==◌, eq_iff, Option, none, some, List, [], ◌∷◌,
  all, contains, arith, Dict, lookup, keys,
}
use surveyforge.Roles.{AgentRole}
use surveyforge.Runtime.Errors.{ok}
use surveyforge.Runtime.Json.{Json, str, null, bool, num, arr, obj}
use surveyforge.Runtime.Gateway.{ToolPolicy}
use surveyforge.Runtime.Registry.{tool_registry}
use surveyforge.Prompts.{Site, PromptTemplate, Registry, is_known, load}
use surveyforge.Prompts.Contract.{AllHonoured, load-Honoured}

abbrev pub names_tool : String → Option ToolPolicy → Bool
names_tool tool none = false
names_tool tool (some policy) = policy.tool_name == tool

-- A text under which the registry has a policy of that name.
unfoldable pub is_registered : Json → Bool
unfolding lookup tool_registry
is_registered (str tool) = names_tool tool (lookup tool tool_registry)
is_registered v = false

abbrev well_named : String × ToolPolicy → Bool
well_named (key, policy) = policy.tool_name == key

contains-keys :
    (tool : String) (d : Dict ToolPolicy)
    → all well_named d ≡ true
    → contains (keys d) tool ≡ names_tool tool (lookup tool d)
unfolding contains keys lookup
contains-keys tool [] h = refl
contains-keys tool ((key, policy) ∷ d) h = ground (
  arith,
  eq_iff tool key,
  eq_iff key tool,
  eq_iff policy.tool_name key,
  eq_iff policy.tool_name tool,
  contains-keys tool d,
)

is_known-is_registered : (v : Json) → is_known v ≡ is_registered v
unfolding is_known is_registered keys
is_known-is_registered (str tool) = contains-keys tool tool_registry refl
is_known-is_registered null = refl
is_known-is_registered (bool b) = refl
is_known-is_registered (num n) = refl
is_known-is_registered (arr vs) = refl
is_known-is_registered (obj fs) = refl

all_known-all_registered : (tools : List Json) → all is_known tools ≡ all is_registered tools
all_known-all_registered [] = refl
all_known-all_registered (v ∷ tools) =
    rw (is_known-is_registered v, all_known-all_registered tools) refl

-- Where every template that the registry of prompts keeps under a name has been checked for it, each
-- tool that a template given by a call allows has a policy of its name in the registry of tools.
pub load-Registered :
    (s : Site) (role : AgentRole) (r : Registry) (t : PromptTemplate)
    → AllHonoured s r
    → (load s role r).0 ≡ ok t
    → all is_registered t.allowed_tools ≡ true
load-Registered s role r t good h =
    let ((named, schema, known, clean), kept, again) = load-Honoured s s role r t [] good h in
    sym (all_known-all_registered t.allowed_tools) ∙ known
