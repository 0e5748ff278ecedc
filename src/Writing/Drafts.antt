-- ===== src/Writing/Drafts.antt =====
-- What stands in the drafts.
use mathlib.Core.List.{List, [], ◌∷◌, ◌++◌, map}
use surveyforge.Base.{
  ◌≡◌, refl, subst, String, ◌<>◌, ◌==◌, eq_refl, Option, none, some, contains, contains-append,
  concat_map, is_empty, In, Subset, All, arith, Dict, lookup, insert, lookup-insert, if◌then◌else◌,
}
use surveyforge.Runtime.Errors.{Result, ok, err}
use surveyforge.Runtime.World.{World, transaction, continue}
use surveyforge.Runtime.Runs.{update_stage}
use surveyforge.Schemas.Planner.{PlannerSection}
use surveyforge.Schemas.Synthesis.{
  ClaimRef, SynthesisClaim, TaxonomyCategory, CoverageGap, SynthesizerOutput,
}
use surveyforge.State.{SurveyState}
use surveyforge.Synthesis.Tokens.{join}
use surveyforge.Writing.{
  headed, claim_line, claim_lines, synthesis_line, synthesis_lines, category_line, category_lines,
  gap_line, gap_lines, matrix_lines, draft_lines, draft, drafts_loop, write_node,
}

-- The last section of the outline with an id.
unfoldable pub last_with : String → List PlannerSection → Option PlannerSection
last_with j [] = none
last_with j (s ∷ outline) = elim (last_with j outline) [
  | some later ↦ some later
  | none ↦ if s.section_id == j then some s else none
]

-- The draft of an id: that of the last section with it, or else what stood there.
abbrev pub Drafted :
    Dict SynthesizerOutput → List PlannerSection → Dict String → Dict String → Type 0
Drafted extracts outline before after =
    (j : String)
    → lookup j after
      ≡ elim (last_with j outline) [ some s ↦ some (draft extracts s) | none ↦ lookup j before ]

drafts_loop-Drafted :
    (extracts : Dict SynthesizerOutput) (outline : List PlannerSection) (drafts : Dict String)
    → Drafted extracts outline drafts (drafts_loop extracts outline drafts)
unfolding drafts_loop last_with
drafts_loop-Drafted extracts [] drafts j = refl
drafts_loop-Drafted extracts (s ∷ outline) drafts j = ground (
  arith,
  drafts_loop-Drafted extracts outline (insert s.section_id (draft extracts s) drafts) j,
  lookup-insert s.section_id j (draft extracts s) drafts,
)

module _ {A : Type 0} (line : A → String) where
  All-In :
      (xs : List A) (lines : List String)
      → Subset (map line xs) lines
      → All (λ x. In (line x) lines) xs
  unfolding contains
  All-In [] lines h = tt
  All-In (x ∷ xs) lines h =
      (h (line x) (ground (arith, eq_refl (line x))), All-In xs lines (λ a m. h a (ground arith)))

  -- Below a heading, all lines stand if there are any.
  headed-Subset :
      (heading : String) (xs : List A)
      → Subset (map line xs) (if is_empty xs then [] else headed heading (map line xs))
  unfolding contains
  headed-Subset heading [] a h = h
  headed-Subset heading (x ∷ xs) a h = ground arith

claim_lines-Subset : (cs : List ClaimRef) → Subset (map claim_line cs) (claim_lines cs)
unfolding claim_lines contains
claim_lines-Subset [] a h = absurd (cc)
claim_lines-Subset (c ∷ cs) a h = h

spaced-Subset :
    (cs : List SynthesisClaim)
    → Subset (map synthesis_line cs) (concat_map (λ sc. synthesis_line sc ∷ ("" ∷ [])) cs)
unfolding contains
spaced-Subset [] a h = h
spaced-Subset (c ∷ cs) a h = ground (arith, spaced-Subset cs a)

synthesis_lines-Subset :
    (cs : List SynthesisClaim) → Subset (map synthesis_line cs) (synthesis_lines cs)
unfolding synthesis_lines contains
synthesis_lines-Subset [] a h = h
synthesis_lines-Subset (c ∷ cs) a h = ground (arith, spaced-Subset (c ∷ cs) a h)

category_lines-Subset :
    (cs : List TaxonomyCategory) → Subset (map category_line cs) (category_lines cs)
unfolding category_lines
category_lines-Subset cs = headed-Subset category_line "### Categories" cs

gap_lines-Subset : (gaps : List CoverageGap) → Subset (map gap_line gaps) (gap_lines gaps)
unfolding gap_lines
gap_lines-Subset gaps = headed-Subset gap_line "### Coverage gaps" gaps

Subset-append : (xs ys zs : List String) → Subset xs zs → Subset xs (ys ++ zs)
Subset-append xs ys zs h a m = ground (arith, contains-append ys zs a, h a m)

Subset-front : (xs ys zs : List String) → Subset xs ys → Subset xs (ys ++ zs)
Subset-front xs ys zs h a m = ground (arith, contains-append ys zs a, h a m)

abbrev pub bracketed : String → String
bracketed evidence_id = "[" <> (evidence_id <> "]")

-- Each claim, each synthesis, each category and each gap of the extract has its line, with the texts
-- and ids that it names.
abbrev pub Complete : SynthesizerOutput → List String → Type 0
Complete o lines =
    All (λ c. In ("- " <> (c.claim <> (" [" <> (c.evidence_id <> "]")))) lines) o.claims
    × All
        (λ sc.
          In ("_" <> (sc.claim_text <> ("_ " <> join " " (map bracketed sc.evidence_ids)))) lines)
        o.cross_paper_synthesis
    × All
        (λ c.
          In
            ("- **"
              <> (c.name
                  <> ("**: " <> (c.description <> (" (" <> (join ", " c.paper_ids <> ")"))))))
            lines)
        o.taxonomy.categories
    × All
        (λ gap.
          In
            ("- "
              <> (gap.must_find_evidence_item
                  <> (" (" <> (gap.reason <> ("): " <> gap.description)))))
            lines)
        o.coverage_gaps

-- The draft of a section has a line for each claim of its extract, with its text and, at the end, the
-- id of its evidence in brackets; one for each synthesis, with its text and the ids of all its
-- evidence; one for each category, with its name, description and papers; and one for each gap, with
-- its item, reason and description.
pub draft_lines-Complete :
    (title : String) (o : SynthesizerOutput) → Complete o (draft_lines title (some o))
unfolding draft_lines
draft_lines-Complete title o =
    let gaps = gap_lines o.coverage_gaps in
    let below_matrix = category_lines o.taxonomy.categories ++ gaps in
    let matrix = matrix_lines o.comparison_matrix in
    let synthesis = synthesis_lines o.cross_paper_synthesis in
    let claims = claim_lines o.claims in
    let head : List String = ("## " <> title) ∷ ("" ∷ []) in
    let from_synthesis = synthesis ++ (matrix ++ below_matrix) in
    let under : (xs : List String)
        → Subset xs below_matrix
        → Subset xs (head ++ (claims ++ from_synthesis)) =
      λ xs h. Subset-append xs head _ (
        Subset-append xs claims _
          (Subset-append xs synthesis _ (Subset-append xs matrix below_matrix h))) in
    (
      All-In claim_line o.claims _ (
          Subset-append _ head _
            (Subset-front _ claims from_synthesis (claim_lines-Subset o.claims))),
      All-In synthesis_line o.cross_paper_synthesis _ (
          Subset-append _ head _ (
            Subset-append _ claims _ (
              Subset-front _ synthesis (matrix ++ below_matrix)
                (synthesis_lines-Subset o.cross_paper_synthesis)))),
      All-In category_line o.taxonomy.categories _
          (under _ (Subset-front _ _ gaps (category_lines-Subset o.taxonomy.categories))),
      All-In gap_line o.coverage_gaps _ (
          under _ (
            Subset-append _ (category_lines o.taxonomy.categories) gaps
              (gap_lines-Subset o.coverage_gaps))),
    )

module _ (state state' : SurveyState) where
  -- Nothing but the drafts differs.
  abbrev pub Written : Type 0
  Written =
      (state' ≡ record state { section_drafts = state'.section_drafts })
      × Drafted state.structured_extracts state.outline state.section_drafts state'.section_drafts

  started-Written :
      (r : Result (Unit {0}) × World)
      → (continue
          (λ started w. (
            ok (record state {
              section_drafts =
                  drafts_loop state.structured_extracts state.outline state.section_drafts;
            }),
            w,
          ))
          r).0
        ≡ ok state'
      → Written
  started-Written (err e, w) h = absurd (cc)
  started-Written (ok u, w) h =
      let drafts = drafts_loop state.structured_extracts state.outline state.section_drafts in
      let same : record state { section_drafts = drafts } ≡ state' = ground arith in
      subst
        (λ s.
          (s ≡ record state { section_drafts = s.section_drafts })
          × Drafted state.structured_extracts state.outline state.section_drafts s.section_drafts)
        same
        (refl, drafts_loop-Drafted state.structured_extracts state.outline state.section_drafts)

-- Where the writer returns, the state differs in the drafts alone: each id of the outline has the
-- draft of the last section with that id, and any other id what it had.
pub write_node-Written :
    (run_id : String) (state state' : SurveyState) (w : World)
    → (write_node run_id state w).0 ≡ ok state'
    → Written state state'
unfolding write_node
write_node-Written run_id state state' w h =
    started-Written state state' (transaction (update_stage run_id "write") w) h
