-- ===== src/Prompts.antt =====
-- src/litweave/prompts/loader.py: the registry that loads the prompt of a role, checks it and keeps it.
-- `PromptContractError` is a `ValueError`; its messages are left out.
pub mod Contract
pub mod Tools
use surveyforge.Base.{
  ℕ, zero, suc, ◌-◌, ◌||◌, Bool, true, false, not, ◌&&◌, String, ◌<>◌, ◌==◌, Option, none, some,
  List, [], ◌∷◌, all, map, is_empty, contains, starts_with, codes, length, Dict, lookup, insert,
  if◌then◌else◌,
}
use surveyforge.Roles.{AgentRole, role_value}
use surveyforge.Runtime.Errors.{Result, ok, err, value_error, runtime_error}
use surveyforge.Runtime.Json.{
  Json, null, bool, num, str, arr, obj, Items, nil, cons, Fields, end, get_field,
}
use surveyforge.Runtime.Json.Access.{then_read}
use surveyforge.Llm.Router.{is_set}

-- What the registry stands on: the files of its directory, `yaml.safe_load` of a front matter that is a
-- mapping or empty, the names that `SHARED_INCLUDE_RE` finds in a body, `str.strip`, the field names of
-- `string.Formatter().parse` (or its `ValueError`), `str.isidentifier`, and what iterating over a value
-- gives that is neither a list nor `None`.
pub record Site : Type 0 where
  pub read_file : String → Option String
  pub safe_load : String → Result Fields
  pub includes : String → List String
  pub strip : String → String
  pub placeholders : String → Option (List (Option String))
  pub is_identifier : String → Bool
  pub iterate : Json → Result (List Json)

-- The `schema_class` is the one of that name in its module.
pub record PromptTemplate : Type 0 where
  pub role : AgentRole
  pub version : Json
  pub schema_name : String
  pub allowed_tools : List Json
  pub forbidden : List Json
  pub completion_tools : List Json
  pub body : String

pub record Registry : Type 0 where
  pub cache : Dict PromptTemplate

abbrev pub known_tools : List String
known_tools =
    "arxiv_search"
    ∷ ("s2_lookup"
        ∷ ("web_search"
            ∷ ("pdf_reader"
                ∷ ("citation_verifier"
                    ∷ ("evidence_store_read"
                        ∷ ("evidence_store_write"
                            ∷ ("metadata_helper" ∷ ("format_helper" ∷ []))))))))

abbrev pub citation_emitting_roles : List String
citation_emitting_roles = "researcher_deep" ∷ ("synthesizer" ∷ [])

-- The keys of `SCHEMA_MODULE`.
abbrev pub schema_names : List String
schema_names =
    "PlannerOutput"
    ∷ ("PlannerSection"
        ∷ ("ResearcherWideOutput"
            ∷ ("ResearcherDeepOutput"
                ∷ ("CandidatePaper"
                    ∷ ("EvidenceCard"
                        ∷ ("Citation" ∷ ("EvidenceRef" ∷ ("SynthesizerOutput" ∷ []))))))))

abbrev pub placeholder_markers : List String
placeholder_markers = "TODO" ∷ ("FIXME" ∷ ("<placeholder>" ∷ []))

abbrev pub required_front_matter : List String
required_front_matter = "role" ∷ ("version" ∷ ("schema" ∷ ("allowed_tools" ∷ ("forbidden" ∷ []))))

-- `raise PromptContractError`
abbrev pub refused {ℓ} : {A : Type ℓ} → Result A
refused = err (value_error "PromptContractError")

unfoldable pub or_refuse {ℓ} : {A : Type ℓ} → Bool → Result A → Result A
or_refuse true r = r
or_refuse false r = refused

-- `sub in text`
unfoldable pub text_in : String → String → Bool
text_in sub String.[] = starts_with "" sub
text_in sub (String.◌∷◌ c s) = elim (starts_with (String.◌∷◌ c s) sub) [
  | true ↦ true
  | false ↦ text_in sub s
]

-- `text.replace(old, new)` for an `old` that is not empty; `skip` characters of a match are left.
unfoldable pub replace_from : String → String → ℕ → String → String
replace_from old new skip String.[] = ""
replace_from old new (suc skip) (String.◌∷◌ c s) = replace_from old new skip s
replace_from old new zero (String.◌∷◌ c s) = elim (starts_with (String.◌∷◌ c s) old) [
  | true ↦ new <> replace_from old new (length (codes old) - 1) s
  | false ↦ String.◌∷◌ c (replace_from old new zero s)
]

unfoldable pub drop_text : ℕ → String → String
drop_text zero s = s
drop_text (suc n) String.[] = ""
drop_text (suc n) (String.◌∷◌ c s) = drop_text n s

abbrev pub cons_left : {A : Type 0} → (String → String) → Option (String × A) → Option (String × A)
cons_left f none = none
cons_left f (some (front, rest)) = some (f front, rest)

-- The text before the first `---` line break, and what is after it.
unfoldable pub split_once : String → Option (String × String)
unfolding drop_text
split_once String.[] = none
split_once (String.◌∷◌ c s) = elim (starts_with (String.◌∷◌ c s) "---\n") [
  | true ↦ some ("", drop_text 3 s)
  | false ↦ cons_left (λ front. String.◌∷◌ c front) (split_once s)
]

-- The front matter and the body; text before the first separator is empty.
unfoldable pub split_front_matter : String → Result (String × String)
unfolding split_once drop_text
split_front_matter text =
    or_refuse (starts_with text "---\n")
      (elim (split_once (drop_text 4 text)) [ none ↦ refused | some parts ↦ ok parts ])

abbrev pub list_of : Items → List Json
list_of nil = []
list_of (cons v vs) = v ∷ list_of vs

-- `meta.get(key)`, which is `meta[key]` for the required keys.
abbrev pub value_at : Fields → String → Json
value_at meta key = elim (get_field key meta) [ none ↦ null | some v ↦ v ]

unfoldable pub role_matches : AgentRole → Fields → Bool
unfolding get_field role_value
role_matches role meta = elim (get_field "role" meta) [
  | some (str name) ↦ name == role_value role
  | _ ↦ false
]

abbrev pub is_hashable : Json → Bool
is_hashable (arr vs) = false
is_hashable (obj fs) = false
is_hashable v = true

unfoldable pub is_known : Json → Bool
unfolding contains
is_known (str tool) = contains known_tools tool
is_known v = false

abbrev pub type_error {ℓ} : {A : Type ℓ} → Result A
type_error = err (runtime_error "TypeError")

-- `schema_name not in SCHEMA_MODULE`
unfoldable pub read_schema : Json → Result String
unfolding contains or_refuse
read_schema (str name) = or_refuse (contains schema_names name) (ok name)
read_schema v = if is_hashable v then refused else type_error

abbrev pub is_truthy : Json → Bool
is_truthy null = false
is_truthy (bool b) = b
is_truthy (num zero) = false
is_truthy (num (suc n)) = true
is_truthy (str s) = not (s == "")
is_truthy (arr nil) = false
is_truthy (arr (cons v vs)) = true
is_truthy (obj end) = false
is_truthy (obj fs) = true

-- `meta.get("completion_tools") or []`
unfoldable pub read_completion : Json → Result (List Json)
read_completion (arr vs) = ok (list_of vs)
read_completion v = if is_truthy v then refused else ok []

unfoldable pub keep_template :
    AgentRole → Registry → Result PromptTemplate → Result PromptTemplate × Registry
unfolding insert role_value
keep_template role r (err e) = (err e, r)
keep_template role r (ok t) = (ok t, record { cache = insert (role_value role) t r.cache })

module _ (s : Site) where
  -- The items of a value; `None` stands for an empty list.
  unfoldable pub elements : Json → Result (List Json)
  elements null = ok []
  elements (arr vs) = ok (list_of vs)
  elements v = s.iterate v

  -- `set(meta["allowed_tools"]) - KNOWN_TOOLS` is empty.
  unfoldable pub tools_known : List Json → Result (List Json)
  unfolding is_known or_refuse
  tools_known tools =
      if all is_hashable tools then or_refuse (all is_known tools) (ok tools) else type_error

  -- Each include that the body had is replaced by its file.
  unfoldable pub fill_includes : List String → String → Result String
  unfolding replace_from
  fill_includes [] body = ok body
  fill_includes (name ∷ names) body = elim (s.read_file ("shared/" <> (name <> ".md"))) [
    | none ↦ refused
    | some content ↦
        fill_includes names (replace_from ("<<" <> (name <> ">>")) (s.strip content) zero body)
  ]

  abbrev pub field_fits : Option String → Bool
  field_fits none = true
  field_fits (some name) = s.is_identifier name

  unfoldable pub braces_valid : String → Bool
  braces_valid body = elim (s.placeholders body) [
    | none ↦ false
    | some names ↦ all field_fits names
  ]

  abbrev pub has_rules : AgentRole → String → Bool
  has_rules role body =
      not (contains citation_emitting_roles (role_value role)) || text_in "Citation Rules" body

  -- What is checked of a body once its includes are filled.
  unfoldable pub check_body : AgentRole → String → Result String
  unfolding text_in braces_valid or_refuse contains role_value
  check_body role body = or_refuse (all (λ marker. not (text_in marker body)) placeholder_markers) (
      or_refuse (is_empty (s.includes body))
        (or_refuse (braces_valid body) (or_refuse (has_rules role body) (ok body))))

  unfoldable pub make_template : AgentRole → Fields → String → Result PromptTemplate
  unfolding get_field read_schema elements tools_known read_completion fill_includes check_body
  make_template role meta body = then_read (read_schema (value_at meta "schema")) (λ schema_name.
      then_read (elements (value_at meta "allowed_tools")) (λ tools.
        then_read (tools_known tools) (λ allowed_tools.
          then_read (read_completion (value_at meta "completion_tools")) (λ completion_tools.
            then_read (fill_includes (s.includes body) body) (λ filled.
              then_read (check_body role filled) (λ checked.
                then_read (elements (value_at meta "forbidden")) (λ forbidden. ok (record {
                  role = role;
                  version = value_at meta "version";
                  schema_name = schema_name;
                  allowed_tools = allowed_tools;
                  forbidden = forbidden;
                  completion_tools = completion_tools;
                  body = checked;
                }))))))))

  unfoldable pub check_meta : AgentRole → Fields → String → Result PromptTemplate
  unfolding get_field role_matches make_template or_refuse
  check_meta role meta body =
      or_refuse (all (λ key. is_set (get_field key meta)) required_front_matter)
        (or_refuse (role_matches role meta) (make_template role meta body))

  unfoldable pub read_prompt : AgentRole → Result PromptTemplate
  unfolding split_front_matter check_meta role_value
  read_prompt role = elim (s.read_file (role_value role <> ".md")) [
    | none ↦ refused
    | some text ↦
        then_read (split_front_matter text)
          (λ parts. then_read (s.safe_load parts.0) (λ meta. check_meta role meta parts.1))
  ]

  unfoldable pub load : AgentRole → Registry → Result PromptTemplate × Registry
  unfolding lookup role_value read_prompt keep_template
  load role r = elim (lookup (role_value role) r.cache) [
    | some t ↦ (ok t, r)
    | none ↦ keep_template role r (read_prompt role)
  ]
