-- ===== src/Synthesis/Grounding.antt =====
-- `_validate_grounding` of src/litweave/synthesis/synthesizer.py: the host's check that an output of the
-- model speaks only of the papers and the evidence that it was given. A set is a list read by
-- membership, and `evidence_id_to_paper_id` a dict.
pub mod Laws
use surveyforge.Base.{
  Bool, true, false, not, ◌&&◌, ◌||◌, String, ◌==◌, Option, none, some, List, [], ◌∷◌, ◌++◌, map,
  concat_map, keep, contains, subset, same_set, lookup, Dict, is_empty, if◌then◌else◌,
}
use surveyforge.Runtime.Errors.{
  Result, ok, err, Exc, grounding_error, GroundingFault, section_mismatch, rogue_papers,
  rogue_evidences, paper_facts_mismatch, matrix_mismatch, synthesis_foreign_evidence,
  synthesis_uncovered, claim_mismatch, category_without_rationale, papers_cited_mismatch,
  missing_paper_facts, missing_matrix_rows,
}
use surveyforge.Schemas.Synthesis.{
  SynthesizerOutput, PaperFacts, MatrixRow, MatrixCell, SynthesisClaim, TaxonomyCategory, ClaimRef,
}

infixr 5 ◌>>◌
abbrev pub ◌>>◌ : Result (Unit {0}) → Result (Unit {0}) → Result (Unit {0})
ok u >> k = k
err e >> k = err e

-- `if not test: raise GroundingError(…)`
abbrev pub require : Bool → GroundingFault → Result (Unit {0})
require true fault = ok tt
require false fault = err (grounding_error fault)

-- A loop whose body may raise.
unfoldable pub check_each {ℓ} : {A : Type ℓ} → (A → Result (Unit {0})) → List A → Result (Unit {0})
check_each f [] = ok tt
check_each f (x ∷ xs) = f x >> check_each f xs

-- `rogue = xs - ys`
abbrev minus : List String → List String → List String
minus xs ys = keep (λ a. not (contains ys a)) xs

unfoldable pub output_paper_ids : SynthesizerOutput → List String
output_paper_ids o =
    o.papers_cited
    ++ (map (λ c. c.paper_id) o.claims
        ++ (map (λ pf. pf.paper_id) o.paper_facts
            ++ (map (λ row. row.paper_id) o.comparison_matrix.rows
                ++ (concat_map (λ cat. cat.paper_ids) o.taxonomy.categories
                    ++ concat_map (λ sc. sc.paper_ids) o.cross_paper_synthesis))))

unfoldable pub output_evidence_ids : SynthesizerOutput → List String
output_evidence_ids o =
    map (λ c. c.evidence_id) o.claims
    ++ (concat_map (λ pf. pf.evidence_ids) o.paper_facts
        ++ (concat_map (λ row. concat_map (λ (_, cell). cell.evidence_ids) row.cells)
              o.comparison_matrix.rows
            ++ (concat_map (λ cat. cat.rationale_evidence_ids) o.taxonomy.categories
                ++ concat_map (λ sc. sc.evidence_ids) o.cross_paper_synthesis)))

module _ (paper_of : Dict String) where
  -- `evidence_id_to_paper_id.get(eid) == paper_id`
  unfoldable pub belongs : String → String → Bool
  belongs paper_id eid = elim (lookup eid paper_of) [
    | none ↦ false
    | some actual ↦ actual == paper_id
  ]

  -- `evidence_id_to_paper_id.get(eid) in papers`
  unfoldable pub belongs_in : List String → String → Bool
  belongs_in papers eid = elim (lookup eid paper_of) [
    | none ↦ false
    | some actual ↦ contains papers actual
  ]

  -- Layer 3a
  unfoldable pub check_paper_facts : PaperFacts → Result (Unit {0})
  unfolding check_each
  check_paper_facts pf =
      check_each (λ eid. require (belongs pf.paper_id eid) (paper_facts_mismatch pf.paper_id eid))
        pf.evidence_ids

  -- Layer 3b
  unfoldable pub check_cell : String → String × MatrixCell → Result (Unit {0})
  unfolding check_each
  check_cell paper_id (dim, cell) =
      check_each (λ eid. require (belongs paper_id eid) (matrix_mismatch paper_id dim eid))
        cell.evidence_ids

  unfoldable pub check_row : MatrixRow → Result (Unit {0})
  unfolding check_each
  check_row row = check_each (check_cell row.paper_id) row.cells

  -- The papers of the evidence of a claim.
  unfoldable pub papers_of : List String → List String
  papers_of [] = []
  papers_of (eid ∷ eids) = elim (lookup eid paper_of) [
    | none ↦ papers_of eids
    | some q ↦ q ∷ papers_of eids
  ]

  -- Layers 3c and 3d
  unfoldable pub check_synthesis_claim : SynthesisClaim → Result (Unit {0})
  unfolding check_each
  check_synthesis_claim sc =
      check_each
        (λ eid.
          require (belongs_in sc.paper_ids eid) (synthesis_foreign_evidence sc.claim_text eid))
        sc.evidence_ids
      >> require (subset sc.paper_ids (papers_of sc.evidence_ids))
          (synthesis_uncovered sc.claim_text (minus sc.paper_ids (papers_of sc.evidence_ids)))

  -- Layer 3e
  unfoldable pub check_claim : ClaimRef → Result (Unit {0})
  check_claim c =
      require (belongs c.paper_id c.evidence_id) (claim_mismatch c.paper_id c.evidence_id)

-- Layer 4
unfoldable pub check_category : TaxonomyCategory → Result (Unit {0})
check_category cat =
    require (is_empty cat.paper_ids || not (is_empty cat.rationale_evidence_ids))
      (category_without_rationale cat.name)

-- Layer 5
unfoldable pub check_coverage : SynthesizerOutput → List String → Result (Unit {0})
check_coverage o input_papers =
    let pf_papers = map (λ pf. pf.paper_id) o.paper_facts in
    let row_papers = map (λ row. row.paper_id) o.comparison_matrix.rows in
    if is_empty input_papers
    then ok tt
    else (require (same_set o.papers_cited input_papers) (papers_cited_mismatch o.papers_cited)
        >> (require (subset input_papers pf_papers)
              (missing_paper_facts (minus input_papers pf_papers))
            >> require (subset input_papers row_papers)
                (missing_matrix_rows (minus input_papers row_papers))))

unfoldable pub validate_grounding :
    SynthesizerOutput → List String → List String → Dict String → String → Result (Unit {0})
unfolding check_each
validate_grounding o input_papers input_evidences paper_of expected =
    require (o.section_id == expected) (section_mismatch o.section_id expected)
    >> (require (subset (output_paper_ids o) input_papers)
          (rogue_papers (minus (output_paper_ids o) input_papers))
        >> (require (subset (output_evidence_ids o) input_evidences)
              (rogue_evidences (minus (output_evidence_ids o) input_evidences))
            >> (check_each (check_paper_facts paper_of) o.paper_facts
                >> (check_each (check_row paper_of) o.comparison_matrix.rows
                    >> (check_each (check_synthesis_claim paper_of) o.cross_paper_synthesis
                        >> (check_each (check_claim paper_of) o.claims
                            >> (check_each check_category o.taxonomy.categories
                                >> check_coverage o input_papers)))))))
