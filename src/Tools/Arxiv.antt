-- ===== src/Tools/Arxiv.antt =====
-- src/litweave/tools/arxiv_lookup.py: the abstract of one paper of arXiv.
use surveyforge.Base.{
  ℕ, Bool, true, ◌&&◌, String, ◌==◌, Option, none, some, [], ◌∷◌, starts_with, if◌then◌else◌,
}
use surveyforge.Roles.{researcher_deep}
use surveyforge.Runtime.Errors.{Result, ok, err, validation_error, value_error, runtime_error}
use surveyforge.Runtime.Json.{Json, null, str, obj, Fields, end, field, get_field}
use surveyforge.Runtime.World.{Exec, trusted_internal}
use surveyforge.Runtime.Gateway.{ToolGateway, ToolPolicy, Impl, register}
use surveyforge.Schemas.PaperId.{paper_id_valid}
use surveyforge.Tools.S2.{before_colon, after_colon}
use surveyforge.Tools.Http.{
  Response, Server, send, delay_of, default_backoff, with_retries, max_retry_attempts, no_paper,
  after_request,
}

-- The texts of `title` and `summary` of the feed's first entry, where it has them.
pub record Entry : Type 0 where
  pub title : Option String
  pub summary : Option String

-- The server, which follows redirects; the readings of a header and of the XML of a feed, which may
-- raise and may have no entry; `str.strip`; and the schema of the output.
pub record Site : Type 0 where
  pub server : Server
  pub seconds : String → Option ℕ
  pub read_feed : String → Result (Option Entry)
  pub strip : String → String
  pub output_schema : Json → Option Json

-- `ArxivLookupInput`
unfoldable pub input_valid : String → Bool
input_valid pid = paper_id_valid pid && starts_with pid "arxiv:"

unfoldable pub build_arxiv_id_param : String → Result String
unfolding before_colon after_colon
build_arxiv_id_param pid =
    if before_colon pid == "arxiv" then ok (after_colon pid) else err (value_error pid)

abbrev pub arxiv_api_base : String
arxiv_api_base = "https://export.arxiv.org/api/query"

unfoldable pub compute_retry_delay : (String → Option ℕ) → Response → ℕ → ℕ
unfolding delay_of default_backoff
compute_retry_delay seconds r attempt = delay_of seconds (default_backoff attempt) r

module _ (site : Site) where
  unfoldable pub title_of : Option String → String
  title_of none = ""
  title_of (some text) = if text == "" then "" else site.strip text

  unfoldable pub abstract_of : Option String → Json
  abstract_of none = null
  abstract_of (some text) = if site.strip text == "" then null else str (site.strip text)

  unfoldable pub paper_of : String → Option Entry → Json
  unfolding title_of abstract_of
  paper_of pid none = no_paper
  paper_of pid (some e) = obj (
      field "paper"
        (obj (
          field "paper_id" (str pid) (
            field "title" (str (title_of e.title)) (field "abstract" (abstract_of e.summary) end))))
        end)

  unfoldable pub read_paper : String → Response → Result Json
  unfolding paper_of
  read_paper pid r = elim (site.read_feed r.text) [
    | err e ↦ err e
    | ok entry ↦ ok (paper_of pid entry)
  ]

  unfoldable pub request : String → Exec Response
  unfolding send
  request arxiv_id = send site.server arxiv_api_base (("id_list", arxiv_id) ∷ []) []

  unfoldable pub fetch : String → Exec Response
  unfolding with_retries request compute_retry_delay
  fetch arxiv_id =
      with_retries (compute_retry_delay site.seconds) (request arxiv_id) max_retry_attempts 0

  unfoldable pub lookup_paper : String → Exec Json
  unfolding fetch after_request read_paper build_arxiv_id_param input_valid
  lookup_paper pid w =
      if input_valid pid
      then elim (build_arxiv_id_param pid) [
        | err e ↦ (err e, w)
        | ok arxiv_id ↦ after_request (read_paper pid) (fetch arxiv_id w)
      ]
      else (err validation_error, w)

  -- `lookup_paper(**args)`
  unfoldable pub lookup_impl : Impl
  unfolding lookup_paper get_field
  lookup_impl args w = elim (get_field "paper_id" args) [
    | none ↦ (err (runtime_error "TypeError"), w)
    | some (str pid) ↦ lookup_paper pid w
    | _ ↦ (err validation_error, w)
  ]

  -- The dumped `ArxivLookupInput`.
  unfoldable pub read_input : Fields → Option Fields
  unfolding get_field input_valid
  read_input args = elim (get_field "paper_id" args) [
    | some (str pid) ↦ if input_valid pid then some (field "paper_id" (str pid) end) else none
    | _ ↦ none
  ]

  unfoldable pub make_policy : ToolPolicy
  unfolding read_input
  make_policy = record {
    tool_name = "arxiv_lookup";
    tool_version = "0.1.0";
    allowed_roles = researcher_deep ∷ [];
    input_schema = read_input;
    output_schema = site.output_schema;
    cache_ttl_seconds = some 3600;
    idempotent = true;
    result_trust = trusted_internal;
    max_result_bytes = 5_000_000;
  }

  unfoldable pub register_arxiv : ToolGateway → ToolGateway
  unfolding make_policy lookup_impl
  register_arxiv gw = register make_policy lookup_impl gw
