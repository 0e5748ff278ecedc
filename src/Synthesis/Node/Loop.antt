-- ===== src/Synthesis/Node/Loop.antt =====
-- The loop of the synthesizer's node over the sections.
use surveyforge.Base.{
  ◌≡◌, refl, ◌⊎◌, inl, inr, ◌*◌, sym, subst, arith, Bool-cases, some, List, [], ◌∷◌, String, ap,
  ◌∙◌, Dict, lookup, lookup-insert, length, Any, ◌==◌, eq_iff,
}
use surveyforge.Runtime.Errors.{Result, ok, err}
use surveyforge.Runtime.World.{World, EvidenceItem, continue}
use surveyforge.Runtime.Evidence.{list_by_section}
use surveyforge.Schemas.Planner.{PlannerSection}
use surveyforge.Schemas.Synthesis.{SynthesizerOutput}
use surveyforge.Synthesis.Node.{
  Deps, Progress, section_step, sections_loop, empty_output_for_section,
}
use surveyforge.Synthesis.Node.Budgeted.{Keeps}
use surveyforge.Synthesis.Node.Sections.{
  Justified, Sourced, SectionDone, Listed, section_step-SectionDone,
}

module _ (d : Deps) where
  module _ (run_id : String) where
    -- The output `o` of section `sid` is new: it is of a section of the outline, and empty, or justified
    -- by evidence of that section in the tables of `w`.
    abbrev pub Added : List PlannerSection → World → String → SynthesizerOutput → Type 0
    Added outline w sid o =
        Any
          (λ section.
            (section.section_id ≡ sid)
            × ((o ≡ empty_output_for_section section)
                ⊎ ((stored : List EvidenceItem) × (Listed d run_id section w ≡ ok stored)
                    × Justified d section stored o)))
          outline

    abbrev pub Extends :
        List PlannerSection → World → Dict SynthesizerOutput → Dict SynthesizerOutput → Type 0
    Extends outline w before after =
        (sid : String) (o : SynthesizerOutput)
        → lookup sid after ≡ some o
        → (lookup sid before ≡ some o) ⊎ Added outline w sid o

    Listed_db :
        (section : PlannerSection) (w w' : World)
        → w'.db.evidence_items ≡ w.db.evidence_items
        → Listed d run_id section w' ≡ Listed d run_id section w
    unfolding list_by_section
    Listed_db section w w' e = rw e (refl)

    pub Added-db :
        (outline : List PlannerSection) (w w' : World) (sid : String) (o : SynthesizerOutput)
        → w'.db.evidence_items ≡ w.db.evidence_items
        → Added outline w' sid o
        → Added outline w sid o
    Added-db [] w w' sid o e a = absurd a
    Added-db (section ∷ outline) w w' sid o e (inl (same, inl h)) = inl (same, inl h)
    Added-db (section ∷ outline) w w' sid o e (inl (same, inr (stored, l, j))) =
        inl (same, inr (stored, sym (Listed_db section w w' e) ∙ l, j))
    Added-db (section ∷ outline) w w' sid o e (inr a) = inr (Added-db outline w w' sid o e a)

    Sourced-Extends :
        (section : PlannerSection) (outline : List PlannerSection) (pr pr' : Progress) (w : World)
        → Sourced d section pr (Listed d run_id section w) pr'
        → Extends (section ∷ outline) w pr.extracts pr'.extracts
    Sourced-Extends section outline pr pr' w (stored, l, inl e) sid o h = inl (rw (← e) h)
    Sourced-Extends section outline pr pr' w (stored, l, inr (inl e)) sid o h =
        elim (Bool-cases (section.section_id == sid)) [
          | inl t ↦ inr (
              inl (
                (eq_iff _ _).0 t,
                inl (
                    ground (
                      arith,
                      lookup-insert section.section_id sid (empty_output_for_section section)
                          pr.extracts,
                    )),
              ))
          | inr f ↦ inl (
              ground (
                arith,
                lookup-insert section.section_id sid (empty_output_for_section section) pr.extracts,
              ))
        ]
    Sourced-Extends section outline pr pr' w (stored, l, inr (inr (o', j, e))) sid o h =
        elim (Bool-cases (section.section_id == sid)) [
          | inl t ↦
              let same : o' ≡ o =
                ground (arith, lookup-insert section.section_id sid o' pr.extracts) in
              inr
                (inl ((eq_iff _ _).0 t, inr (stored, l, subst (Justified d section stored) same j)))
          | inr f ↦ inl (ground (arith, lookup-insert section.section_id sid o' pr.extracts))
        ]

    abbrev pub LoopDone : List PlannerSection → Progress → World → Result Progress × World → Type 0
    LoopDone outline pr w r =
        ((pr' : Progress) → r.0 ≡ ok pr' → Extends outline w pr.extracts pr'.extracts)
        × Keeps (2 * length outline) w r.1

    continue-LoopDone :
        (section : PlannerSection) (outline : List PlannerSection) (pr : Progress) (w : World)
        (r : Result Progress × World)
        → ((pr' : Progress) (w' : World)
            → LoopDone outline pr' w' (sections_loop d run_id outline pr' w'))
        → SectionDone d section pr (Listed d run_id section w) w r
        → LoopDone (section ∷ outline) pr w (continue (λ pr'. sections_loop d run_id outline pr') r)
    continue-LoopDone section outline pr w (err e, w') ih (s, k) =
        (λ pr' h. absurd (cc), (k.0, omega arith))
    continue-LoopDone section outline pr w (ok next, w') ih (s, k) =
        let (t, m) = ih next w' in
        (
          λ pr' h sid o l. elim (t pr' h sid o l) [
            | inr a ↦ inr (inr (Added-db outline w w' sid o (ap (λ u. u.evidence_items) k.0) a))
            | inl b ↦ elim (Sourced-Extends section outline pr next w (s next refl) sid o b) [
              | inl old ↦ inl old
              | inr new ↦ inr new
            ]
          ],
          (m.0 ∙ k.0, omega arith),
        )

    pub sections_loop-LoopDone :
        (outline : List PlannerSection) (pr : Progress) (w : World)
        → LoopDone outline pr w (sections_loop d run_id outline pr w)
    unfolding sections_loop
    sections_loop-LoopDone [] pr w = (λ pr' h sid o l. inl (ground arith), (refl, omega arith))
    sections_loop-LoopDone (section ∷ outline) pr w =
        continue-LoopDone section outline pr w (section_step d run_id section pr w)
          (sections_loop-LoopDone outline) (section_step-SectionDone d run_id section pr w)
