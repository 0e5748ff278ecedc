-- ===== src/Examples/Templates.antt =====
-- A prompt with the citation rules included, loaded for the role that cites.
use surveyforge.Base.{
  all, true, ◌≡◌, refl, String, ◌==◌, none, some, Option, List, [], ◌∷◌, lookup, if◌then◌else◌,
}
use surveyforge.Roles.{AgentRole, planner, researcher_deep, role_value}
use surveyforge.Runtime.Errors.{ok}
use surveyforge.Runtime.Json.{Fields, str, arr, null, nil, cons, field, end}
use surveyforge.Prompts.{Site, PromptTemplate, Registry, load, text_in}
use surveyforge.Prompts.Tools.{is_registered, load-Registered}
use surveyforge.Prompts.Contract.{Honours, AllHonoured, loads, load-Honoured}

abbrev prompt_files : String → Option String
prompt_files name =
    if name == "researcher_deep.md"
    then some "---\nrole: researcher_deep\n---\nRead {papers}.\n<<citation_rules>>\n"
    else if name == "shared/citation_rules.md"
    then some "## Citation Rules"
    else none

abbrev front_matter : Fields
front_matter = field "role" (str "researcher_deep") (
    field "version" (str "1") (
      field "schema" (str "ResearcherDeepOutput")
        (field "allowed_tools" (arr (cons (str "pdf_reader") nil)) (field "forbidden" null end))))

abbrev prompt_site : Site
unfolding text_in
prompt_site = record {
  read_file = prompt_files;
  safe_load = λ text. ok front_matter;
  includes = λ body. if text_in "<<citation_rules>>" body then "citation_rules" ∷ [] else [];
  strip = λ text. text;
  placeholders = λ body. some (some "papers" ∷ []);
  is_identifier = λ name. name == "papers";
  iterate = λ v. ok [];
}

abbrev no_files : Site
no_files = record prompt_site { read_file = λ name. none }

abbrev new_registry : Registry
new_registry = record { cache = [] }

abbrev deep_prompt : PromptTemplate
deep_prompt = record {
  role = researcher_deep;
  version = str "1";
  schema_name = "ResearcherDeepOutput";
  allowed_tools = str "pdf_reader" ∷ [];
  forbidden = [];
  completion_tools = [];
  body = "Read {papers}.\n## Citation Rules\n";
}

new_registry-AllHonoured : AllHonoured prompt_site new_registry
unfolding lookup
new_registry-AllHonoured name t h = absurd (cc)

abbrev later_loads : List (Site × AgentRole)
later_loads = (prompt_site, planner) ∷ ((no_files, researcher_deep) ∷ [])

load_run : (load prompt_site researcher_deep new_registry).0 ≡ ok deep_prompt
unfolding load
load_run = refl

load-Honoured_example :
    Honours prompt_site "researcher_deep" deep_prompt
    × AllHonoured prompt_site (load prompt_site researcher_deep new_registry).1
    × (load no_files researcher_deep
          (loads later_loads (load prompt_site researcher_deep new_registry).1)
        ≡ (ok deep_prompt, loads later_loads (load prompt_site researcher_deep new_registry).1))
unfolding role_value
load-Honoured_example =
    load-Honoured prompt_site no_files researcher_deep new_registry deep_prompt later_loads
      new_registry-AllHonoured load_run

load-Registered_example : all is_registered deep_prompt.allowed_tools ≡ true
load-Registered_example =
    load-Registered prompt_site researcher_deep new_registry deep_prompt new_registry-AllHonoured
      load_run
