-- ===== src/Tools/S2.antt =====
-- src/litweave/tools/s2_lookup.py: one paper of Semantic Scholar.
use Prim.Native.Char.{code}
use surveyforge.Base.{
  ℕ, Bool, true, ◌&&◌, ◌||◌, String, ◌<>◌, ◌==◌, Option, none, some, List, [], ◌∷◌, starts_with,
  eqb, if◌then◌else◌,
}
use surveyforge.Roles.{researcher_wide, researcher_deep}
use surveyforge.Runtime.Errors.{Result, ok, err, validation_error, value_error, runtime_error}
use surveyforge.Runtime.Json.{
  Json, null, str, num, arr, obj, Items, nil, cons, Fields, end, field, get_field,
}
use surveyforge.Runtime.World.{Exec, trusted_internal}
use surveyforge.Runtime.Gateway.{ToolGateway, ToolPolicy, Impl, register}
use surveyforge.Runtime.Json.Access.{item_of, get_or, then_read}
use surveyforge.Schemas.PaperId.{paper_id_valid}
use surveyforge.Tools.Http.{
  Response, Server, send, delay_of, default_backoff, with_retries, max_retry_attempts,
  after_request,
}

-- The server, the key of the environment, the readings of a header and of a JSON body, the text of
-- an id that is no text, and the schema of the output.
pub record Site : Type 0 where
  pub server : Server
  pub api_key : Option String
  pub seconds : String → Option ℕ
  pub read_json : String → Option Json
  pub show_json : Json → String
  pub output_schema : Json → Option Json

-- `S2LookupInput`
unfoldable pub input_valid : String → Bool
input_valid pid = paper_id_valid pid && (starts_with pid "arxiv:" || starts_with pid "s2:")

-- `paper_id.partition(":")`
unfoldable pub before_colon : String → String
before_colon String.[] = ""
before_colon (String.◌∷◌ c s) = if eqb (code c) 58 then "" else String.◌∷◌ c (before_colon s)

unfoldable pub after_colon : String → String
after_colon String.[] = ""
after_colon (String.◌∷◌ c s) = if eqb (code c) 58 then s else after_colon s

abbrev pub s2_api_base : String
s2_api_base = "https://api.semanticscholar.org/graph/v1"

abbrev pub s2_fields : String
s2_fields = "paperId,externalIds,title,abstract,authors,year,venue,citationCount"

unfoldable pub build_s2_url : String → Result String
unfolding before_colon after_colon
build_s2_url pid =
    if before_colon pid == "arxiv"
    then ok (s2_api_base <> ("/paper/arXiv:" <> after_colon pid))
    else if before_colon pid == "s2"
    then ok (s2_api_base <> ("/paper/" <> after_colon pid))
    else err (value_error pid)

unfoldable pub build_request_headers : Option String → List (String × String)
build_request_headers none = []
build_request_headers (some key) = if key == "" then [] else ("x-api-key", key) ∷ []

unfoldable pub compute_retry_delay : (String → Option ℕ) → Response → ℕ → ℕ
unfolding delay_of default_backoff
compute_retry_delay seconds r attempt = delay_of seconds (default_backoff attempt) r

-- `[a.get("name", "") for a in authors]`
unfoldable pub names : Items → Result Items
unfolding get_or
names nil = ok nil
names (cons a rest) =
    let others = names rest in
    then_read (get_or "name" (str "") a) (λ name. then_read others (λ ns. ok (cons name ns)))

-- What is iterated over: a list; an empty dict or text has nothing, another has texts, which have
-- no `get`; and anything else cannot be iterated over.
unfoldable pub author_names : Json → Result Json
unfolding names
author_names (arr items) = then_read (names items) (λ ns. ok (arr ns))
author_names (obj end) = ok (arr nil)
author_names (obj fs) = err (runtime_error "AttributeError")
author_names (str s) = if s == "" then ok (arr nil) else err (runtime_error "AttributeError")
author_names v = err (runtime_error "TypeError")

module _ (site : Site) where
  unfoldable pub id_text : Json → String
  id_text (str s) = s
  id_text v = site.show_json v

  unfoldable pub read_data : Json → Result Json
  unfolding item_of get_or author_names id_text
  read_data body = then_read (item_of "paperId" body) (λ pid.
      then_read (get_or "externalIds" (obj end) body) (λ ids.
        then_read (get_or "ArXiv" null ids) (λ arxiv_id. then_read (get_or "DOI" null ids) (λ doi.
          then_read (get_or "title" (str "") body) (λ title.
            then_read (get_or "abstract" null body) (λ abstract.
              then_read (get_or "authors" (arr nil) body) (λ authors.
                then_read (author_names authors) (λ by. then_read (get_or "year" null body) (λ year.
                  then_read (get_or "venue" null body) (λ venue.
                    then_read (get_or "citationCount" (num 0) body) (λ count. ok (
                      obj (
                        field "paper"
                          (obj (
                            field "paper_id" (str ("s2:" <> id_text pid)) (
                              field "s2_paper_id" pid (
                                field "arxiv_id" arxiv_id (
                                  field "doi" doi (
                                    field "title" title (
                                      field "abstract" abstract (
                                        field "authors" by (
                                          field "year" year (
                                            field "venue" venue
                                              (field "citation_count" count end)))))))))))
                          end)))))))))))))

  unfoldable pub read_paper : Response → Result Json
  unfolding read_data
  read_paper r = elim (site.read_json r.text) [
    | none ↦ err (value_error r.text)
    | some v ↦ read_data v
  ]

  unfoldable pub request : String → Exec Response
  unfolding send build_request_headers
  request url =
      send site.server url (("fields", s2_fields) ∷ []) (build_request_headers site.api_key)

  unfoldable pub fetch : String → Exec Response
  unfolding with_retries request compute_retry_delay
  fetch url = with_retries (compute_retry_delay site.seconds) (request url) max_retry_attempts 0

  unfoldable pub lookup_paper : String → Exec Json
  unfolding fetch after_request read_paper build_s2_url input_valid
  lookup_paper pid w =
      if input_valid pid
      then elim (build_s2_url pid) [
        | err e ↦ (err e, w)
        | ok url ↦ after_request read_paper (fetch url w)
      ]
      else (err validation_error, w)

  -- `lookup_paper(**args)`
  unfoldable pub lookup_impl : Impl
  unfolding lookup_paper get_field
  lookup_impl args w = elim (get_field "paper_id" args) [
    | none ↦ (err (runtime_error "TypeError"), w)
    | some (str pid) ↦ lookup_paper pid w
    | _ ↦ (err validation_error, w)
  ]

  -- The dumped `S2LookupInput`.
  unfoldable pub read_input : Fields → Option Fields
  unfolding get_field input_valid
  read_input args = elim (get_field "paper_id" args) [
    | some (str pid) ↦ if input_valid pid then some (field "paper_id" (str pid) end) else none
    | _ ↦ none
  ]

  unfoldable pub make_policy : ToolPolicy
  unfolding read_input
  make_policy = record {
    tool_name = "s2_lookup";
    tool_version = "0.1.0";
    allowed_roles = researcher_wide ∷ (researcher_deep ∷ []);
    input_schema = read_input;
    output_schema = site.output_schema;
    cache_ttl_seconds = some 3600;
    idempotent = true;
    result_trust = trusted_internal;
    max_result_bytes = 5_000_000;
  }

  unfoldable pub register_s2 : ToolGateway → ToolGateway
  unfolding make_policy lookup_impl
  register_s2 gw = register make_policy lookup_impl gw
