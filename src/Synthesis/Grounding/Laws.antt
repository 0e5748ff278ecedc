-- ===== src/Synthesis/Grounding/Laws.antt =====
-- Grounding as a predicate without an order of checks, and the check for it.
use surveyforge.Base.{
  Bool, true, String, eq_iff, some, List, [], ◌∷◌, map, ◌≡◌, refl, ◌≢◌, ◌↔◌, ◌⊎◌, inl, inr, arith,
  All, Any, In, Subset, subset_iff, same_set_iff, contains, lookup, Dict, is_empty, Option-cases,
}
use surveyforge.Runtime.Errors.{Result, ok, err, GroundingFault}
use surveyforge.Schemas.Synthesis.{
  SynthesizerOutput, PaperFacts, MatrixRow, SynthesisClaim, TaxonomyCategory, ClaimRef,
}
use surveyforge.Synthesis.Grounding.{
  ◌>>◌, require, check_each, output_paper_ids, output_evidence_ids, belongs, belongs_in,
  check_paper_facts, check_cell, check_row, papers_of, check_synthesis_claim, check_claim,
  check_category, check_coverage, validate_grounding,
}

module _ {A B C : Type 0} where
  trans_iff : A ↔ B → B ↔ C → A ↔ C
  trans_iff f g = (λ a. g.0 (f.0 a), λ c. f.1 (g.1 c))

×_iff : {A B C D : Type 0} → A ↔ B → C ↔ D → (A × C) ↔ (B × D)
×_iff f g = (λ p. (f.0 p.0, g.0 p.1), λ p. (f.1 p.0, g.1 p.1))

abbrev pub Passes : Result (Unit {0}) → Type 0
Passes r = r ≡ ok tt

>>_iff : (m k : Result (Unit {0})) → Passes (m >> k) ↔ Passes m × Passes k
>>_iff (ok u) k = ground arith
>>_iff (err e) k = ground arith

then_iff :
    {m k : Result (Unit {0})} {A B : Type 0} → Passes m ↔ A → Passes k ↔ B → Passes (m >> k) ↔ A × B
then_iff {m} {k} f g = trans_iff (>>_iff m k) (×_iff f g)

require_iff : (b : Bool) (fault : GroundingFault) → Passes (require b fault) ↔ (b ≡ true)
require_iff b fault = ground arith

module _ {A : Type 0} (f : A → Result (Unit {0})) (P : A → Type 0)
    (dec : (a : A) → Passes (f a) ↔ P a) where
  check_each_iff : (xs : List A) → Passes (check_each f xs) ↔ All P xs
  unfolding check_each
  check_each_iff [] = (λ h. tt, λ h. refl)
  check_each_iff (x ∷ xs) = (
    λ h.
        let both = (>>_iff (f x) (check_each f xs)).0 h in
        ((dec x).0 both.0, (check_each_iff xs).0 both.1),
    λ h. (>>_iff (f x) (check_each f xs)).1 ((dec x).1 h.0, (check_each_iff xs).1 h.1),
  )

module _ (paper_of : Dict String) where
  -- The evidence is known, and comes from that paper.
  abbrev pub From : String → String → Type 0
  From paper_id eid = lookup eid paper_of ≡ some paper_id

  belongs_iff : (paper_id eid : String) → (belongs paper_of paper_id eid ≡ true) ↔ From paper_id eid
  unfolding belongs
  belongs_iff paper_id eid = elim (Option-cases (lookup eid paper_of)) [
    | inl e ↦ ground arith
    | inr (q, e) ↦ ground (arith, eq_iff q paper_id)
  ]

  -- The evidence is known, and comes from one of the papers.
  abbrev pub FromOneOf : List String → String → Type 0
  FromOneOf papers eid = (q : String) × From q eid × In q papers

  belongs_in_iff :
      (papers : List String) (eid : String)
      → (belongs_in paper_of papers eid ≡ true) ↔ FromOneOf papers eid
  unfolding belongs_in
  belongs_in_iff papers eid = elim (Option-cases (lookup eid paper_of)) [
    | inl e ↦ (λ h. absurd (ground arith), λ (q, a, b). ground arith)
    | inr (q, e) ↦ (λ h. (q, e, ground arith), λ (r, a, b). ground arith)
  ]

  papers_of_iff :
      (eids : List String) (q : String)
      → In q (papers_of paper_of eids) ↔ Any (λ eid. From q eid) eids
  unfolding papers_of contains
  papers_of_iff [] q = (λ h. absurd (ground arith), λ h. absurd h)
  papers_of_iff (eid ∷ eids) q = elim (Option-cases (lookup eid paper_of)) [
    | inl e ↦ ground (arith, papers_of_iff eids q)
    | inr (r, e) ↦ ground (arith, papers_of_iff eids q, eq_iff q r)
  ]

-- Each of the papers has an item of evidence among these.
abbrev Covered : Dict String → List String → List String → Type 0
Covered paper_of papers eids = (q : String) → In q papers → Any (λ eid. From paper_of q eid) eids

-- What layer 5 asks of an output for a section that has evidence.
abbrev pub Complete : SynthesizerOutput → List String → Type 0
Complete o papers =
    Subset o.papers_cited papers
    × Subset papers o.papers_cited
    × Subset papers (map (λ pf. pf.paper_id) o.paper_facts)
    × Subset papers (map (λ row. row.paper_id) o.comparison_matrix.rows)

-- The output is of the section `expected`; it names only papers and evidence of the input; facts,
-- cells and claims rest on evidence of their own paper; a synthesis claim rests on evidence of its
-- papers, of each of them; a category with papers has a rationale; and with papers in the input it
-- covers them all.
abbrev pub IsGrounded :
    SynthesizerOutput → List String → List String → Dict String → String → Type 0
IsGrounded o papers evidences paper_of expected =
    (o.section_id ≡ expected)
    × Subset (output_paper_ids o) papers
    × Subset (output_evidence_ids o) evidences
    × All (λ pf. All (From paper_of pf.paper_id) pf.evidence_ids) o.paper_facts
    × All (λ row. All (λ (_, cell). All (From paper_of row.paper_id) cell.evidence_ids) row.cells)
        o.comparison_matrix.rows
    × All
        (λ sc.
          All (FromOneOf paper_of sc.paper_ids) sc.evidence_ids
          × Covered paper_of sc.paper_ids sc.evidence_ids)
        o.cross_paper_synthesis
    × All (λ c. From paper_of c.paper_id c.evidence_id) o.claims
    × All (λ cat. (cat.paper_ids ≡ []) ⊎ (cat.rationale_evidence_ids ≢ [])) o.taxonomy.categories
    × ((papers ≡ []) ⊎ Complete o papers)

module _ (paper_of : Dict String) where
  check_paper_facts_iff :
      (pf : PaperFacts)
      → Passes (check_paper_facts paper_of pf) ↔ All (From paper_of pf.paper_id) pf.evidence_ids
  unfolding check_paper_facts
  check_paper_facts_iff pf =
      check_each_iff _ _ (λ eid. trans_iff (require_iff _ _) (belongs_iff paper_of pf.paper_id eid))
        pf.evidence_ids

  check_row_iff :
      (row : MatrixRow)
      → Passes (check_row paper_of row)
        ↔ All (λ (_, cell). All (From paper_of row.paper_id) cell.evidence_ids) row.cells
  unfolding check_row check_cell
  check_row_iff row =
      check_each_iff _ (λ (_, cell). All (From paper_of row.paper_id) cell.evidence_ids)
        (λ (dim, cell).
          check_each_iff _ _
            (λ eid. trans_iff (require_iff _ _) (belongs_iff paper_of row.paper_id eid))
            cell.evidence_ids)
        row.cells

  check_synthesis_claim_iff :
      (sc : SynthesisClaim)
      → Passes (check_synthesis_claim paper_of sc)
        ↔ All (FromOneOf paper_of sc.paper_ids) sc.evidence_ids
          × Covered paper_of sc.paper_ids sc.evidence_ids
  unfolding check_synthesis_claim
  check_synthesis_claim_iff sc = trans_iff (>>_iff _ _) (
      ×_iff
        (check_each_iff _ _
          (λ eid. trans_iff (require_iff _ _) (belongs_in_iff paper_of sc.paper_ids eid))
          sc.evidence_ids)
        (trans_iff (require_iff _ _) (
          trans_iff (subset_iff _ _) (
            λ h q m. (papers_of_iff paper_of sc.evidence_ids q).0 (h q m),
            λ h q m. (papers_of_iff paper_of sc.evidence_ids q).1 (h q m),
          ))))

  check_claim_iff :
      (c : ClaimRef) → Passes (check_claim paper_of c) ↔ From paper_of c.paper_id c.evidence_id
  unfolding check_claim
  check_claim_iff c = trans_iff (require_iff _ _) (belongs_iff paper_of c.paper_id c.evidence_id)

is_empty_iff : (xs : List String) → (is_empty xs ≡ true) ↔ (xs ≡ [])
is_empty_iff [] = (λ h. refl, λ h. refl)
is_empty_iff (x ∷ xs) = ground arith

check_category_iff :
    (cat : TaxonomyCategory)
    → Passes (check_category cat) ↔ ((cat.paper_ids ≡ []) ⊎ (cat.rationale_evidence_ids ≢ []))
unfolding check_category
check_category_iff cat =
    trans_iff (require_iff _ _)
      (ground (arith, is_empty_iff cat.paper_ids, is_empty_iff cat.rationale_evidence_ids))

check_coverage_iff :
    (o : SynthesizerOutput) (papers : List String)
    → Passes (check_coverage o papers) ↔ ((papers ≡ []) ⊎ Complete o papers)
unfolding check_coverage
check_coverage_iff o [] = (λ h. inl refl, λ h. refl)
check_coverage_iff o (p ∷ papers) =
    trans_iff
      (trans_iff (>>_iff _ _) (
        ×_iff (trans_iff (require_iff _ _) (same_set_iff _ _)) (
          trans_iff (>>_iff _ _) (
            ×_iff (trans_iff (require_iff _ _) (subset_iff _ _))
              (trans_iff (require_iff _ _) (subset_iff _ _))))))
      (
        λ ((a, b), (c, d)). inr (a, b, c, d),
        λ h. elim h [ inl e ↦ absurd (cc) | inr (a, b, c, d) ↦ ((a, b), (c, d)) ],
      )

-- `_validate_grounding` passes exactly the outputs that are grounded in the input.
pub validate_grounding_iff :
    (o : SynthesizerOutput) (papers evidences : List String) (paper_of : Dict String)
    (expected : String)
    → Passes (validate_grounding o papers evidences paper_of expected)
      ↔ IsGrounded o papers evidences paper_of expected
unfolding validate_grounding
validate_grounding_iff o papers evidences paper_of expected =
    trans_iff
      (then_iff (trans_iff (require_iff _ _) (eq_iff _ _)) (
        then_iff (trans_iff (require_iff _ _) (subset_iff _ _)) (
          then_iff (trans_iff (require_iff _ _) (subset_iff _ _)) (
            then_iff (check_each_iff _ _ (check_paper_facts_iff paper_of) o.paper_facts) (
              then_iff (check_each_iff _ _ (check_row_iff paper_of) o.comparison_matrix.rows) (
                then_iff
                  (check_each_iff _ _ (check_synthesis_claim_iff paper_of) o.cross_paper_synthesis)
                  (then_iff (check_each_iff _ _ (check_claim_iff paper_of) o.claims) (
                    then_iff (check_each_iff _ _ check_category_iff o.taxonomy.categories)
                      (check_coverage_iff o papers)))))))))
      (
        λ (a, (b, (c, (d, (e, (f, (g, (h, i)))))))). (a, b, c, d, e, f, g, h, i),
        λ (a, b, c, d, e, f, g, h, i). (a, (b, (c, (d, (e, (f, (g, (h, i)))))))),
      )
