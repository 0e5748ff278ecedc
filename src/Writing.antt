-- ===== src/Writing.antt =====
-- src/litweave/writing/stub.py: a markdown draft for each section of the outline.
pub mod Drafts
use surveyforge.Base.{
  ℕ, zero, suc, Bool, true, false, not, ◌&&◌, String, ◌<>◌, Option, none, some, List, [], ◌∷◌, ◌++◌,
  map, length, is_empty, concat_map, Dict, lookup, insert, if◌then◌else◌,
}
use surveyforge.Runtime.Errors.{ok}
use surveyforge.Runtime.World.{World, Exec, transaction, ◌>>=◌}
use surveyforge.Runtime.Runs.{update_stage}
use surveyforge.Schemas.Planner.{PlannerSection}
use surveyforge.Schemas.Synthesis.{
  ClaimRef, SynthesisClaim, MatrixCell, MatrixRow, ComparisonMatrix, TaxonomyCategory,
  SectionTaxonomy, CoverageGap, SynthesizerOutput,
}
use surveyforge.State.{SurveyState}
use surveyforge.Synthesis.Tokens.{join}

abbrev pub claim_line : ClaimRef → String
claim_line c = "- " <> (c.claim <> (" [" <> (c.evidence_id <> "]")))

abbrev pub no_evidence_line : String
no_evidence_line = "_No evidence available for this section._"

unfoldable pub claim_lines : List ClaimRef → List String
claim_lines claims = if is_empty claims then no_evidence_line ∷ [] else map claim_line claims

abbrev pub synthesis_line : SynthesisClaim → String
synthesis_line sc =
    "_" <> (sc.claim_text <> ("_ " <> join " " (map (λ eid. "[" <> (eid <> "]")) sc.evidence_ids)))

-- A heading between empty lines, and what stands under it.
abbrev pub headed : String → List String → List String
headed heading body = "" ∷ (heading ∷ ("" ∷ body))

unfoldable pub synthesis_lines : List SynthesisClaim → List String
synthesis_lines claims =
    if is_empty claims
    then []
    else headed "### Cross-paper synthesis"
        (concat_map (λ sc. synthesis_line sc ∷ ("" ∷ [])) claims)

-- `cells.get(d, {}).get("value", "")`
unfoldable pub cell_value : Dict MatrixCell → String → String
unfolding lookup
cell_value cells dim = elim (lookup dim cells) [ none ↦ "" | some cell ↦ cell.value ]

-- `" --- |" * n`
unfoldable pub rules : ℕ → String
rules zero = ""
rules (suc n) = " --- |" <> rules n

abbrev pub row_line : List String → MatrixRow → String
row_line dims row =
    "| " <> (row.paper_id <> (" | " <> (join " | " (map (cell_value row.cells) dims) <> " |")))

unfoldable pub matrix_lines : ComparisonMatrix → List String
unfolding cell_value rules
matrix_lines m =
    if not (is_empty m.rows) && not (is_empty m.dimensions)
    then headed "### Comparison matrix" (
        ("| paper_id | " <> (join " | " m.dimensions <> " |"))
        ∷ (("|" <> rules (suc (length m.dimensions))) ∷ map (row_line m.dimensions) m.rows))
    else []

abbrev pub category_line : TaxonomyCategory → String
category_line c =
    "- **" <> (c.name <> ("**: " <> (c.description <> (" (" <> (join ", " c.paper_ids <> ")")))))

unfoldable pub category_lines : List TaxonomyCategory → List String
category_lines categories =
    if is_empty categories then [] else headed "### Categories" (map category_line categories)

abbrev pub gap_line : CoverageGap → String
gap_line gap =
    "- " <> (gap.must_find_evidence_item <> (" (" <> (gap.reason <> ("): " <> gap.description))))

unfoldable pub gap_lines : List CoverageGap → List String
gap_lines gaps = if is_empty gaps then [] else headed "### Coverage gaps" (map gap_line gaps)

-- The lines of a draft; a section without an extract has the fallback line alone.
unfoldable pub draft_lines : String → Option SynthesizerOutput → List String
unfolding claim_lines synthesis_lines matrix_lines category_lines gap_lines
draft_lines title none = ("## " <> title) ∷ ("" ∷ claim_lines [])
draft_lines title (some o) =
    (("## " <> title) ∷ ("" ∷ []))
    ++ (claim_lines o.claims
        ++ (synthesis_lines o.cross_paper_synthesis
            ++ (matrix_lines o.comparison_matrix
                ++ (category_lines o.taxonomy.categories ++ gap_lines o.coverage_gaps))))

abbrev pub draft : Dict SynthesizerOutput → PlannerSection → String
draft extracts s = join "\n" (draft_lines s.title (lookup s.section_id extracts))

-- The loop over the outline.
unfoldable pub drafts_loop :
    Dict SynthesizerOutput → List PlannerSection → Dict String → Dict String
unfolding draft_lines lookup insert
drafts_loop extracts [] drafts = drafts
drafts_loop extracts (s ∷ outline) drafts =
    drafts_loop extracts outline (insert s.section_id (draft extracts s) drafts)

unfoldable pub write_node : String → SurveyState → Exec SurveyState
unfolding drafts_loop
write_node run_id state = do
  started ← transaction (update_stage run_id "write")
  λ w. (
    ok (record state {
      section_drafts = drafts_loop state.structured_extracts state.outline state.section_drafts;
    }),
    w,
  )
