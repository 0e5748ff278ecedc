-- ===== src/Synthesis/Node.antt =====
-- `make_synthesizer_node` of src/litweave/synthesis/synthesizer.py: for each section its evidence, the
-- budget with reranking, at most two tries of the model, and the grounding of what it says.
pub mod Budgeted
pub mod Tries
pub mod Sections
pub mod Loop
pub mod Justified
pub mod Tending
use surveyforge.Base.{
  ℕ, Bool, true, false, String, ◌<>◌, Option, none, some, List, [], ◌∷◌, ◌++◌, map, is_empty, Dict,
  insert, if◌then◌else◌,
}
use surveyforge.Roles.{AgentRole, synthesizer}
use surveyforge.Runtime.Errors.{
  Result, ok, err, Exc, validation_error, structured_call_error, grounding_error, budget_exceeded,
  classify_exception, category_value,
}
use surveyforge.Runtime.Json.{Json}
use surveyforge.Runtime.World.{World, Exec, EvidenceItem, transaction, ◌>>=◌}
use surveyforge.Runtime.Budget.{BudgetSpec, check}
use surveyforge.Runtime.Evidence.{list_by_section}
use surveyforge.Runtime.Runs.{update_stage, note_error_category}
use surveyforge.Schemas.Planner.{PlannerSection, planner_section_valid}
use surveyforge.Schemas.Synthesis.{
  SynthesizerOutput, CoverageGap, default_matrix, default_taxonomy, synthesizer_output_valid,
}
use surveyforge.Llm.Model.{Llm, Message, human}
use surveyforge.Llm.Structured.{Parsers, structured_call}
use surveyforge.Synthesis.Grounding.{validate_grounding}
use surveyforge.Synthesis.Tokens.{estimate_tokens, packed_total_tokens, build_user_message}
use surveyforge.Synthesis.Rerank.{top_k_rerank}
use surveyforge.State.{SurveyState}

-- What the node is given: the model and the parsers; the schema check of the model's JSON
-- (`validate`) and its reading as an output (`decode`), both of libraries; the prompt; and how values
-- are written in messages.
pub record Deps : Type 0 where
  pub llm : Llm
  pub parsers : Parsers
  pub validate : Json → Option String
  pub decode : Json → Option SynthesizerOutput
  pub template : PlannerSection → String
  pub supports_fc : Bool
  pub show_conf : ℕ → String
  pub repair_text : Exc → String
  pub show_ids : List String → String

unfoldable pub missing_gap : String → CoverageGap
missing_gap mfe = record {
  must_find_evidence_item = mfe;
  reason = "missing_evidence";
  description = "Section has 0 EvidenceItems from Researcher-Deep.";
}

unfoldable pub empty_output_for_section : PlannerSection → SynthesizerOutput
empty_output_for_section section = record {
  section_id = section.section_id;
  papers_cited = [];
  claims = [];
  paper_facts = [];
  comparison_matrix = default_matrix;
  taxonomy = default_taxonomy;
  cross_paper_synthesis = [];
  coverage_gaps = map missing_gap section.must_find_evidence;
}

-- `{item.evidence_id: item.paper_id for item in items}`
unfoldable pub paper_map_onto : Dict String → List EvidenceItem → Dict String
paper_map_onto d [] = d
paper_map_onto d (i ∷ items) = paper_map_onto (insert i.evidence_id i.paper_id d) items

unfoldable pub paper_map : List EvidenceItem → Dict String
unfolding paper_map_onto
paper_map items = paper_map_onto [] items

abbrev pub paper_ids : List EvidenceItem → List String
paper_ids items = map (λ i. i.paper_id) items

abbrev pub evidence_ids : List EvidenceItem → List String
evidence_ids items = map (λ i. i.evidence_id) items

-- `except (StructuredCallError, ValidationError, GroundingError)`
unfoldable pub repairable : Exc → Bool
repairable (structured_call_error s) = true
repairable validation_error = true
repairable (grounding_error f) = true
repairable _ = false

-- What the last failure of a section comes to: a category to record, or the exception goes on.
unfoldable pub settle : Result SynthesizerOutput → Result (Option SynthesizerOutput × Option String)
unfolding repairable
settle (ok o) = ok (some o, none)
settle (err e) =
    if repairable e
    then ok (none, some "schema_invalid")
    else elim (classify_exception e) [ none ↦ err e | some c ↦ ok (none, some (category_value c)) ]

-- The dropped papers are reported as a gap.
unfoldable pub augment :
    (List String → String) → List String → SynthesizerOutput → SynthesizerOutput
augment show_ids [] o = o
augment show_ids (p ∷ dropped) o = record o {
  coverage_gaps =
      o.coverage_gaps
      ++ (record {
        must_find_evidence_item = "(budget truncation)";
        reason = "budget_truncation";
        description = "Dropped papers due to input budget: " <> show_ids (p ∷ dropped);
      }
          ∷ []);
}

pub record Progress : Type 0 where
  pub extracts : Dict SynthesizerOutput
  pub last_error : Option String

module _ (d : Deps) where
  -- `model_validate`, then grounding.
  unfoldable pub accept : PlannerSection → List EvidenceItem → Json → Result SynthesizerOutput
  accept section items v = elim (d.decode v) [
    | none ↦ err validation_error
    | some o ↦
        if synthesizer_output_valid o
        then elim (validate_grounding o (paper_ids items) (evidence_ids items) (paper_map items)
            section.section_id) [ ok u ↦ ok o | err e ↦ err e ]
        else err validation_error
  ]

  unfoldable pub accept_call :
      PlannerSection → List EvidenceItem → Result Json × World → Result SynthesizerOutput × World
  unfolding accept
  accept_call section items (ok v, w) = (accept section items v, w)
  accept_call section items (err e, w) = (err e, w)

  unfoldable pub attempt :
      PlannerSection → List EvidenceItem → List Message → Exec SynthesizerOutput
  unfolding accept_call
  attempt section items messages w =
      accept_call section items
        (structured_call d.parsers d.llm d.validate "synthesizer_output" d.supports_fc messages 0 w)

  unfoldable pub after_first :
      PlannerSection
      → List EvidenceItem
      → List Message
      → Result SynthesizerOutput × World
      → Result (Option SynthesizerOutput × Option String) × World
  unfolding attempt settle
  after_first section items messages (ok o, w) = (settle (ok o), w)
  after_first section items messages (err e, w) =
      if repairable e
      then (let (r, w') = attempt section items (messages ++ (human (d.repair_text e) ∷ [])) w in
          (settle r, w'))
      else (settle (err e), w)

  unfoldable pub try_twice :
      PlannerSection
      → List EvidenceItem
      → List Message
      → Exec (Option SynthesizerOutput × Option String)
  unfolding after_first
  try_twice section items messages w =
      after_first section items messages (attempt section items messages w)

  -- The second check, after reranking.
  unfoldable pub recheck :
      List EvidenceItem
      → List String
      → Result BudgetSpec × World
      → Option (List EvidenceItem × List String) × World
  recheck items dropped (ok s, w) = (some (items, dropped), w)
  recheck items dropped (err e, w) = (none, w)

  unfoldable pub rerank :
      List EvidenceItem × List String → ℕ → World → Option (List EvidenceItem × List String) × World
  unfolding recheck
  rerank ([], dropped) base w = (none, w)
  rerank (i ∷ items, dropped) base w =
      recheck (i ∷ items) dropped
        (check synthesizer (packed_total_tokens d.show_conf (i ∷ items) base) w)

  -- The items that go into the prompt, with the papers dropped; none where the section degrades to an
  -- empty output. `max_input_tokens` comes with the exception.
  unfoldable pub after_check :
      List EvidenceItem
      → ℕ
      → Result BudgetSpec × World
      → Option (List EvidenceItem × List String) × World
  unfolding rerank
  after_check items base (ok s, w) = (some (items, []), w)
  after_check items base (err (budget_exceeded role projected max_input_tokens fallback), w) =
      rerank (top_k_rerank d.show_conf base max_input_tokens items) base w
  after_check items base (err e, w) = (none, w)

  unfoldable pub prepare :
      PlannerSection → List EvidenceItem → World → Option (List EvidenceItem × List String) × World
  unfolding after_check
  prepare section items w =
      let base = estimate_tokens (d.template section) in
      after_check items base (check synthesizer (packed_total_tokens d.show_conf items base) w)

  abbrev pub with_extract : PlannerSection → SynthesizerOutput → Progress → Progress
  with_extract section o pr = record pr { extracts = insert section.section_id o pr.extracts }

  unfoldable pub after_tries :
      PlannerSection
      → List String
      → Progress
      → Result (Option SynthesizerOutput × Option String) × World
      → Result Progress × World
  unfolding augment
  after_tries section dropped pr (ok (some o, category), w) =
      (ok (with_extract section (augment d.show_ids dropped o) pr), w)
  after_tries section dropped pr (ok (none, category), w) =
      (ok (record pr { last_error = category }), w)
  after_tries section dropped pr (err e, w) = (err e, w)

  unfoldable pub after_prepare :
      PlannerSection
      → Progress
      → Option (List EvidenceItem × List String) × World
      → Result Progress × World
  unfolding try_twice after_tries empty_output_for_section
  after_prepare section pr (none, w) = (
    ok (
        with_extract section (empty_output_for_section section)
          (record pr { last_error = some "context_overflow" })),
    w,
  )
  after_prepare section pr (some (items, dropped), w) = after_tries section dropped pr (
      try_twice section items (human (build_user_message d.show_conf section items d.template) ∷ [])
        w)

  unfoldable pub after_list :
      PlannerSection → Progress → Result (List EvidenceItem) × World → Result Progress × World
  unfolding prepare after_prepare empty_output_for_section
  after_list section pr (err e, w) = (err e, w)
  after_list section pr (ok [], w) =
      (ok (with_extract section (empty_output_for_section section) pr), w)
  after_list section pr (ok (i ∷ items), w) =
      after_prepare section pr (prepare section (i ∷ items) w)

  module _ (run_id : String) where
    abbrev pub evidence_of : PlannerSection → Exec (List EvidenceItem)
    evidence_of section = transaction (λ w. (list_by_section run_id section.section_id w, w))

    -- The body of the loop over the outline.
    unfoldable pub section_step : PlannerSection → Progress → Exec Progress
    unfolding after_list
    section_step section pr w =
        if planner_section_valid section
        then after_list section pr (evidence_of section w)
        else (err validation_error, w)

    unfoldable pub sections_loop : List PlannerSection → Progress → Exec Progress
    unfolding section_step
    sections_loop [] pr = λ w. (ok pr, w)
    sections_loop (section ∷ outline) pr = do
      pr' ← section_step section pr
      sections_loop outline pr'

    unfoldable pub note_last_error : Option String → Exec (Unit {0})
    note_last_error none w = (ok tt, w)
    note_last_error (some category) w = transaction (note_error_category run_id category) w

    unfoldable pub synthesizer_node : SurveyState → Exec SurveyState
    unfolding sections_loop note_last_error
    synthesizer_node state = do
      started ← transaction (update_stage run_id "synthesize")
      pr ←
          sections_loop state.outline
            (record { extracts = state.structured_extracts; last_error = none })
      noted ← note_last_error pr.last_error
      λ w. (ok (record state { structured_extracts = pr.extracts }), w)
