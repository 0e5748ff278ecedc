-- ===== src/Schemas/Synthesis.antt =====
-- src/litweave/schemas/synthesis.py
use surveyforge.Base.{ℕ, Bool, ◌&&◌, String, List, [], ◌∷◌, Dict, length, leb, all, count}
use surveyforge.Schemas.PaperId.{paper_id_valid}
use surveyforge.Schemas.Research.{conf_one}

pub record PaperFacts : Type 0 where
  pub paper_id : String
  pub method : String
  pub dataset : String
  pub metric : String
  pub result : String
  pub evidence_ids : List String

pub record MatrixCell : Type 0 where
  pub value : String
  pub evidence_ids : List String

pub record MatrixRow : Type 0 where
  pub paper_id : String
  pub cells : Dict MatrixCell

pub record ComparisonMatrix : Type 0 where
  pub dimensions : List String
  pub rows : List MatrixRow

pub record TaxonomyCategory : Type 0 where
  pub name : String
  pub description : String
  pub paper_ids : List String
  pub rationale_evidence_ids : List String

pub record SectionTaxonomy : Type 0 where
  pub categories : List TaxonomyCategory

pub record SynthesisClaim : Type 0 where
  pub claim_text : String
  pub paper_ids : List String
  pub evidence_ids : List String

pub record CoverageGap : Type 0 where
  pub must_find_evidence_item : String
  pub reason : String
  pub description : String

pub record ClaimRef : Type 0 where
  pub evidence_id : String
  pub paper_id : String
  pub claim : String
  pub confidence : ℕ

pub record SynthesizerOutput : Type 0 where
  pub section_id : String
  pub papers_cited : List String
  pub claims : List ClaimRef
  pub paper_facts : List PaperFacts
  pub comparison_matrix : ComparisonMatrix
  pub taxonomy : SectionTaxonomy
  pub cross_paper_synthesis : List SynthesisClaim
  pub coverage_gaps : List CoverageGap

-- The defaults of `ComparisonMatrix()` and `SectionTaxonomy()`.
abbrev pub default_matrix : ComparisonMatrix
default_matrix = record { dimensions = "method" ∷ "dataset" ∷ "metric" ∷ "result" ∷ []; rows = [] }

abbrev pub default_taxonomy : SectionTaxonomy
default_taxonomy = record { categories = [] }

abbrev at_least {ℓ} : {A : Type ℓ} → ℕ → List A → Bool
at_least n xs = leb n (length xs)

unfoldable pub paper_facts_valid : PaperFacts → Bool
paper_facts_valid pf = paper_id_valid pf.paper_id && at_least 1 pf.evidence_ids

cells_valid : Dict MatrixCell → Bool
cells_valid cells = all (λ (_, cell). at_least 1 cell.evidence_ids) cells

unfoldable pub matrix_row_valid : MatrixRow → Bool
unfolding cells_valid
matrix_row_valid row = paper_id_valid row.paper_id && cells_valid row.cells

unfoldable pub matrix_valid : ComparisonMatrix → Bool
unfolding matrix_row_valid
matrix_valid m = at_least 1 m.dimensions && all matrix_row_valid m.rows

unfoldable pub category_valid : TaxonomyCategory → Bool
category_valid c = leb 1 (count c.name) && all paper_id_valid c.paper_ids

unfoldable pub synthesis_claim_valid : SynthesisClaim → Bool
synthesis_claim_valid sc =
    leb 1 (count sc.claim_text)
    && all paper_id_valid sc.paper_ids
    && at_least 2 sc.paper_ids
    && at_least 2 sc.evidence_ids

unfoldable pub claim_ref_valid : ClaimRef → Bool
claim_ref_valid c = paper_id_valid c.paper_id && leb c.confidence conf_one

unfoldable pub synthesizer_output_valid : SynthesizerOutput → Bool
unfolding paper_facts_valid matrix_valid category_valid synthesis_claim_valid claim_ref_valid
synthesizer_output_valid o =
    leb 1 (count o.section_id)
    && all paper_id_valid o.papers_cited
    && all claim_ref_valid o.claims
    && all paper_facts_valid o.paper_facts
    && matrix_valid o.comparison_matrix
    && all category_valid o.taxonomy.categories
    && all synthesis_claim_valid o.cross_paper_synthesis
