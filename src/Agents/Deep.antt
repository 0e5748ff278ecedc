-- ===== src/Agents/Deep.antt =====
-- src/litweave/agents/researcher_deep.py: evidence cards from the papers of the queue, by section.
pub mod Fetch
pub mod Store
pub mod Sections
pub mod Queue
pub mod Tending
pub mod Tended
use surveyforge.Base.{
  ℕ, ◌+◌, ◌/◌, Bool, true, false, not, ◌&&◌, ◌||◌, String, ◌<>◌, ◌==◌, count, Option, none, some,
  List, [], ◌∷◌, ◌++◌, map, is_empty, keep, contains, subset, same_set, Dict, lookup, insert, keys,
  starts_with, if◌then◌else◌,
}
use surveyforge.Roles.{AgentRole, researcher_deep}
use surveyforge.Runtime.Errors.{
  Result, ok, err, Exc, validation_error, structured_call_error, classify_exception, category_value,
}
use surveyforge.Runtime.Json.{Json}
use surveyforge.Runtime.World.{World, Exec, transaction, ◌>>=◌}
use surveyforge.Runtime.Budget.{BudgetSpec, check}
use surveyforge.Runtime.Gateway.{Externals, ToolGateway, new_gateway}
use surveyforge.Runtime.Runs.{update_stage, note_error_category}
use surveyforge.Schemas.Planner.{PlannerSection, planner_section_valid}
use surveyforge.Schemas.Research.{ResearcherDeepOutput, deep_output_valid}
use surveyforge.Llm.Model.{Llm, human}
use surveyforge.Llm.Structured.{Parsers, structured_call}
use surveyforge.State.{SurveyState, Note}
use surveyforge.Synthesis.Tokens.{join}
use surveyforge.Agents.Deep.Fetch.{Lookups, Fetched, register_lookups, fetch_all}
use surveyforge.Agents.Deep.Store.{Schema, register_write, write_cards}

-- What the node is given: model, parsers, schema check and reading of the answer, prompt; the
-- gateway's externals, the lookup tools, and the schema of evidence.
pub record Deps : Type 0 where
  pub llm : Llm
  pub parsers : Parsers
  pub validate : Json → Option String
  pub decode : Json → Option ResearcherDeepOutput
  pub template : String → List String → List String → String
  pub supports_fc : Bool
  pub externals : Externals
  pub lookups : Lookups
  pub schema : Schema

-- `sections_by_id[parsed.section_id] = parsed`, which raises on a section that is not valid.
unfoldable pub index_sections :
    Dict PlannerSection → List PlannerSection → Result (Dict PlannerSection)
index_sections d [] = ok d
index_sections d (s ∷ outline) =
    let rest = index_sections (insert s.section_id s d) outline in
    if planner_section_valid s then rest else err validation_error

-- The papers of the notes that are queued; a section without any is not entered.
unfoldable pub papers_by_section : List String → Dict (List Note) → Dict (List String)
papers_by_section queue [] = []
papers_by_section queue ((sid, notes) ∷ rest) =
    let others = papers_by_section queue rest in
    let papers = keep (contains queue) (map (λ n. n.paper_id) notes) in
    if is_empty papers then others else (sid, papers) ∷ others

unfoldable pub abstract_blocks : Dict String → List String
abstract_blocks [] = []
abstract_blocks ((pid, abstract) ∷ d) =
    ("### Paper " <> (pid <> ("\n" <> abstract))) ∷ abstract_blocks d

unfoldable pub user_message : Deps → PlannerSection → String → Dict String → String
unfolding abstract_blocks keys
user_message d section sid abstracts =
    d.template sid (keys abstracts) section.must_find_evidence
    <> ("\n\n### Available paper abstracts:\n\n" <> join "\n\n" (abstract_blocks abstracts))

-- The host's checks of an answer for section `sid` and the papers that were fed in.
unfoldable pub output_accepted : String → List String → ResearcherDeepOutput → Bool
output_accepted sid inputs o =
    o.section_id == sid
    && subset o.paper_ids_processed inputs
    && subset o.insufficient_evidence_paper_ids inputs
    && subset (map (λ c. c.paper_id) o.evidence_cards) inputs
    && same_set o.paper_ids_processed inputs

pub record Progress : Type 0 where
  pub processed : List String
  pub last_error : Option String

abbrev pub with_error : String → Progress → Progress
with_error category pr = record pr { last_error = some category }

-- An exception with a class becomes the last error; any other goes on.
unfoldable pub classify_or_raise : Exc → Progress → Result Progress
classify_or_raise e pr = elim (classify_exception e) [
  | none ↦ err e
  | some c ↦ ok (with_error (category_value c) pr)
]

-- `except (StructuredCallError, ValidationError)`
unfoldable pub refused : Exc → Bool
refused (structured_call_error s) = true
refused validation_error = true
refused _ = false

-- Both `except` clauses of the call.
unfoldable pub call_failed : Exc → Progress → Result Progress
unfolding classify_or_raise refused
call_failed e pr = if refused e then ok (with_error "schema_invalid" pr) else classify_or_raise e pr

module _ (d : Deps) (run_id sid : String) where
  abbrev pub gateway : ToolGateway
  gateway = register_write d.schema (register_lookups d.lookups (new_gateway run_id))

  unfoldable pub after_write : Progress → Result (Unit {0}) × World → Result Progress × World
  after_write pr (ok u, w) = (ok pr, w)
  after_write pr (err e, w) = (err e, w)

  -- An accepted answer: all papers fed in count as processed, and the cards are stored.
  unfoldable pub store_output : List String → ResearcherDeepOutput → Progress → Exec Progress
  unfolding after_write output_accepted
  store_output inputs o pr w =
      if output_accepted sid inputs o
      then after_write (record pr { processed = inputs ++ pr.processed })
          (transaction
            (write_cards d.externals d.schema gateway run_id sid inputs 0 o.evidence_cards) w)
      else (ok (with_error "schema_invalid" pr), w)

  unfoldable pub after_call : List String → Progress → Result Json × World → Result Progress × World
  unfolding store_output call_failed
  after_call inputs pr (err e, w) = (call_failed e pr, w)
  after_call inputs pr (ok v, w) = elim (d.decode v) [
    | none ↦ (call_failed validation_error pr, w)
    | some o ↦
        if deep_output_valid o
        then store_output inputs o pr w
        else (call_failed validation_error pr, w)
  ]

  unfoldable pub after_budget :
      String → List String → Progress → Result BudgetSpec × World → Result Progress × World
  unfolding after_call
  after_budget message inputs pr (err e, w) = (ok (with_error "context_overflow" pr), w)
  after_budget message inputs pr (ok spec, w) = after_call inputs pr (
      structured_call d.parsers d.llm d.validate "researcher_deep_output" d.supports_fc
        (human message ∷ []) 2 w)

  unfoldable pub after_fetch :
      PlannerSection → Progress → Result Fetched × World → Result Progress × World
  unfolding after_budget classify_or_raise
  after_fetch section pr (err e, w) = (err e, w)
  after_fetch section pr (ok (abstracts, some e), w) = (classify_or_raise e pr, w)
  after_fetch section pr (ok ([], none), w) = (ok pr, w)
  after_fetch section pr (ok (a ∷ abstracts, none), w) =
      let message = user_message d section sid (a ∷ abstracts) in
      after_budget message (keys (a ∷ abstracts)) pr (check researcher_deep (count message / 4) w)

  -- The body of the loop over `papers_by_section`.
  unfoldable pub section_step : Dict PlannerSection → List String → Progress → Exec Progress
  unfolding after_fetch
  section_step sections papers pr w = elim (lookup sid sections) [
    | none ↦ (ok pr, w)
    | some section ↦
        after_fetch section pr (transaction (fetch_all d.externals d.lookups gateway papers []) w)
  ]

module _ (d : Deps) (run_id : String) where
  unfoldable pub sections_loop : Dict PlannerSection → Dict (List String) → Progress → Exec Progress
  unfolding section_step
  sections_loop sections [] pr = λ w. (ok pr, w)
  sections_loop sections ((sid, papers) ∷ rest) pr = do
    next ← section_step d run_id sid sections papers pr
    sections_loop sections rest next

  unfoldable pub note_last_error : Option String → Exec (Unit {0})
  note_last_error none w = (ok tt, w)
  note_last_error (some category) w = transaction (note_error_category run_id category) w

  unfoldable pub stays : List String → String → Bool
  stays processed pid = not (contains processed pid) && not (starts_with pid "web:")

  unfoldable pub researcher_deep_node : SurveyState → Exec SurveyState
  unfolding sections_loop note_last_error stays index_sections papers_by_section
  researcher_deep_node state = do
    started ← transaction (update_stage run_id "research_deep")
    sections ← λ w. (index_sections [] state.outline, w)
    pr ←
        sections_loop sections (papers_by_section state.deep_read_queue state.section_notes)
          (record { processed = []; last_error = none })
    noted ← note_last_error pr.last_error
    λ w.
        (ok (record state { deep_read_queue = keep (stays pr.processed) state.deep_read_queue }), w)
