-- ===== src/Agents/Deep/Fetch.antt =====
-- The fetch of abstracts of src/litweave/agents/researcher_deep.py: Semantic Scholar, and arXiv where that
-- fails in passing. The two lookup tools, of src/litweave/tools, are arguments.
use surveyforge.Base.{
  Bool, true, false, ◌&&◌, String, ◌==◌, Option, none, some, List, [], ◌∷◌, Dict, insert,
  starts_with, if◌then◌else◌,
}
use surveyforge.Roles.{researcher_deep}
use surveyforge.Runtime.Errors.{
  Result, ok, err, Exc, request_error, validation_error, classify_exception, provider_429,
  provider_5xx,
}
use surveyforge.Runtime.Json.{Json, Fields, end, field, str}
use surveyforge.Runtime.World.{World, Exec}
use surveyforge.Runtime.Gateway.{
  Externals, ToolGateway, ToolPolicy, ToolResult, Impl, register, call,
}

-- `read` is `S2LookupOutput.model_validate` and `ArxivLookupOutput.model_validate`: none where it
-- refuses, some none for no paper, and the paper's abstract, which may be missing.
pub record Lookups : Type 0 where
  pub s2_policy : ToolPolicy
  pub s2_impl : Impl
  pub s2_read : Json → Option (Option (Option String))
  pub arxiv_policy : ToolPolicy
  pub arxiv_impl : Impl
  pub arxiv_read : Json → Option (Option (Option String))

unfoldable pub register_lookups : Lookups → ToolGateway → ToolGateway
register_lookups l gw = register l.arxiv_policy l.arxiv_impl (register l.s2_policy l.s2_impl gw)

-- `if paper is None or not paper.abstract: return None`
unfoldable pub abstract_of : Option (Option (Option String)) → Result (Option String)
abstract_of none = err validation_error
abstract_of (some none) = ok none
abstract_of (some (some none)) = ok none
abstract_of (some (some (some text))) = if text == "" then ok none else ok (some text)

unfoldable pub read_result :
    (Json → Option (Option (Option String)))
    → Result ToolResult × World
    → Result (Option String) × World
unfolding abstract_of
read_result read (err e, w) = (err e, w)
read_result read (ok r, w) = (abstract_of (read r.output), w)

-- A passing failure of the provider, or `httpx.RequestError`.
unfoldable pub is_fallbackable : Exc → Bool
is_fallbackable request_error = true
is_fallbackable e = elim (classify_exception e) [
  | some provider_429 ↦ true
  | some provider_5xx ↦ true
  | _ ↦ false
]

-- The abstracts so far, and the exception that ended the loop.
abbrev pub Fetched : Type 0
Fetched = Dict String × Option Exc

-- `abstracts[pid] = abstract`
unfoldable pub add_abstract : String → Option String → Dict String → Dict String
add_abstract pid none d = d
add_abstract pid (some text) d = insert pid text d

module _ (x : Externals) (l : Lookups) (gw : ToolGateway) where
  abbrev pub paper_arg : String → Fields
  paper_arg pid = field "paper_id" (str pid) end

  unfoldable pub via_s2 : String → Exec (Option String)
  unfolding read_result
  via_s2 pid w = read_result l.s2_read (call x gw researcher_deep "s2_lookup" (paper_arg pid) w)

  unfoldable pub via_arxiv : String → Exec (Option String)
  unfolding read_result
  via_arxiv pid w =
      read_result l.arxiv_read (call x gw researcher_deep "arxiv_lookup" (paper_arg pid) w)

  -- The first exception is the one that is raised.
  unfoldable pub or_s2_error : Exc → Result (Option String) × World → Result (Option String) × World
  or_s2_error s2_exc (ok a, w) = (ok a, w)
  or_s2_error s2_exc (err e, w) = (err s2_exc, w)

  unfoldable pub fall_back :
      String → Result (Option String) × World → Result (Option String) × World
  unfolding via_arxiv or_s2_error is_fallbackable
  fall_back pid (ok a, w) = (ok a, w)
  fall_back pid (err e, w) =
      if is_fallbackable e && starts_with pid "arxiv:"
      then or_s2_error e (via_arxiv pid w)
      else (err e, w)

  unfoldable pub fetch_abstract : String → Exec (Option String)
  unfolding fall_back via_s2
  fetch_abstract pid w =
      if starts_with pid "web:" then (ok none, w) else fall_back pid (via_s2 pid w)

  -- An exception ends the loop, and does not leave the transaction.
  unfoldable pub fetched :
      String
      → Dict String
      → (Dict String → Exec Fetched)
      → Result (Option String) × World
      → Result Fetched × World
  fetched pid d next (err e, w) = (ok (d, some e), w)
  fetched pid d next (ok a, w) = next (add_abstract pid a d) w

  -- The loop over the papers.
  unfoldable pub fetch_all : List String → Dict String → Exec Fetched
  unfolding fetched fetch_abstract
  fetch_all [] d w = (ok (d, none), w)
  fetch_all (pid ∷ pids) d w = fetched pid d (fetch_all pids) (fetch_abstract pid w)
