-- ===== src/Synthesis/Node/Sections.antt =====
-- One round of the loop over the sections.
use surveyforge.Base.{
  ◌≡◌, refl, ◌⊎◌, inl, inr, ℕ, subst, arith, Bool-cases, Option, none, some, List, [], ◌∷◌, String,
  insert,
}
use surveyforge.Runtime.Errors.{Result, ok, err}
use surveyforge.Runtime.World.{World, EvidenceItem, transaction, commit_or_rollback}
use surveyforge.Runtime.Evidence.{list_by_section}
use surveyforge.Schemas.Planner.{PlannerSection, planner_section_valid}
use surveyforge.Schemas.Synthesis.{SynthesizerOutput}
use surveyforge.Llm.Model.{human}
use surveyforge.Synthesis.Tokens.{estimate_tokens, build_user_message}
use surveyforge.Synthesis.Node.{
  Deps, Progress, try_twice, augment, prepare, after_tries, evidence_of, after_prepare, after_list,
  section_step, empty_output_for_section,
}
use surveyforge.Synthesis.Node.Budgeted.{Keeps, Selection, Prepared, prepare_lem}
use surveyforge.Synthesis.Node.Tries.{Keeps-trans, Accepted, Tried, try_twice-Tried}

module _ (d : Deps) where
  -- The evidence that a section's output rests on: the stored items, or what reranking keeps of them.
  abbrev pub Justified : PlannerSection → List EvidenceItem → SynthesizerOutput → Type 0
  Justified section stored o =
      (items : List EvidenceItem) × (dropped : List String) × (out : SynthesizerOutput) × Selection
        d (estimate_tokens (d.template section)) stored (items, dropped)
      × Accepted section items out
      × (o ≡ augment d.show_ids dropped out)

  -- How the outputs of the sections may differ after one section.
  abbrev pub Step : PlannerSection → List EvidenceItem → Progress → Progress → Type 0
  Step section stored pr pr' =
      (pr'.extracts ≡ pr.extracts)
      ⊎ (pr'.extracts ≡ insert section.section_id (empty_output_for_section section) pr.extracts)
      ⊎ ((o : SynthesizerOutput) × Justified section stored o
          × (pr'.extracts ≡ insert section.section_id o pr.extracts))

  module _ (section : PlannerSection) (stored : List EvidenceItem) (pr : Progress) where
    abbrev Stepped : ℕ → World → Result Progress × World → Type 0
    Stepped n w r = ((pr' : Progress) → r.0 ≡ ok pr' → Step section stored pr pr') × Keeps n w r.1

    after_tries-Stepped :
        (items : List EvidenceItem) (dropped : List String) (w : World)
        (r : Result (Option SynthesizerOutput × Option String) × World)
        → Selection d (estimate_tokens (d.template section)) stored (items, dropped)
        → Tried d section items 2 w r
        → Stepped 2 w (after_tries d section dropped pr r)
    unfolding after_tries
    after_tries-Stepped items dropped w (ok (some o, c), w') sel (t, k) =
        (λ pr' h. inr (inr (_, (items, dropped, o, sel, t o c refl, refl), ground arith)), k)
    after_tries-Stepped items dropped w (ok (none, c), w') sel (t, k) =
        (λ pr' h. inl (ground arith), k)
    after_tries-Stepped items dropped w (err e, w') sel (t, k) = (λ pr' h. absurd (cc), k)

    after_prepare-Stepped :
        (w : World) (p : Option (List EvidenceItem × List String) × World)
        → Prepared d (estimate_tokens (d.template section)) stored p.0
        → Keeps 0 w p.1
        → Stepped 2 w (after_prepare d section pr p)
    unfolding after_prepare
    after_prepare-Stepped w (none, w') h k = (λ pr' e. inr (inl (ground arith)), (k.0, omega arith))
    after_prepare-Stepped w (some (items, dropped), w') sel k =
        let messages = human (build_user_message d.show_conf section items d.template) ∷ [] in
        let t = try_twice-Tried d section items messages w' in
        let s =
          after_tries-Stepped items dropped w' (try_twice d section items messages w') sel t in
        (
          s.0,
          Keeps-trans 0 2 w w'
              (after_tries d section dropped pr (try_twice d section items messages w')).1 k s.1,
        )

    after_list-Stepped :
        (w w' : World) → Keeps 0 w w' → Stepped 2 w (after_list d section pr (ok stored, w'))
    unfolding after_list
    after_list-Stepped w w' k = go stored refl
      where
        go :
            (xs : List EvidenceItem)
            → xs ≡ stored
            → Stepped 2 w (after_list d section pr (ok xs, w'))
        go [] e = (λ pr' h. inr (inl (ground arith)), (k.0, omega arith))
        go (i ∷ items) e =
            let p = prepare d section (i ∷ items) w' in
            let h =
              subst (λ xs. Prepared d (estimate_tokens (d.template section)) xs p.0) e
                (prepare_lem d section (i ∷ items) w').0 in
            after_prepare-Stepped w p h
              (Keeps-trans 0 0 w w' p.1 k (prepare_lem d section (i ∷ items) w').1)

  abbrev pub Sourced : PlannerSection → Progress → Result (List EvidenceItem) → Progress → Type 0
  Sourced section pr listed pr' =
      (stored : List EvidenceItem) × (listed ≡ ok stored) × Step section stored pr pr'

  abbrev pub SectionDone :
      PlannerSection
      → Progress
      → Result (List EvidenceItem)
      → World
      → Result Progress × World
      → Type 0
  SectionDone section pr listed w r =
      ((pr' : Progress) → r.0 ≡ ok pr' → Sourced section pr listed pr') × Keeps 2 w r.1

  after_list-SectionDone :
      (section : PlannerSection) (pr : Progress) (w : World)
      (r : Result (List EvidenceItem) × World)
      → Keeps 0 w r.1
      → SectionDone section pr r.0 w (after_list d section pr r)
  unfolding after_list
  after_list-SectionDone section pr w (err e, w') k = (λ pr' h. absurd (cc), (k.0, omega arith))
  after_list-SectionDone section pr w (ok stored, w') k =
      let s = after_list-Stepped section stored pr w w' k in
      (λ pr' h. (stored, refl, s.0 pr' h), s.1)

  read_lem :
      {A : Type 0} (r : Result A) (w : World)
      → ((commit_or_rollback w.db (r, w)).0 ≡ r) × Keeps 0 w (commit_or_rollback w.db (r, w)).1
  unfolding commit_or_rollback
  read_lem (ok a) w = (refl, (refl, omega arith))
  read_lem (err e) w = (refl, (refl, omega arith))

  module _ (run_id : String) where
    abbrev pub Listed : PlannerSection → World → Result (List EvidenceItem)
    Listed section w = list_by_section run_id section.section_id w

    evidence_of_lem :
        (section : PlannerSection) (w : World)
        → ((evidence_of d run_id section w).0 ≡ Listed section w)
          × Keeps 0 w (evidence_of d run_id section w).1
    unfolding transaction list_by_section
    evidence_of_lem section w = read_lem (Listed section w) (record w { now = w.clock })

    pub section_step-SectionDone :
        (section : PlannerSection) (pr : Progress) (w : World)
        → SectionDone section pr (Listed section w) w (section_step d run_id section pr w)
    unfolding section_step
    section_step-SectionDone section pr w = elim (Bool-cases (planner_section_valid section)) [
      | inr f ↦ rw f (λ pr' h. absurd (cc), (refl, omega arith))
      | inl t ↦
          let (e, k) = evidence_of_lem section w in
          let s = after_list-SectionDone section pr w (evidence_of d run_id section w) k in
          rw t (
            subst
              (λ r.
                SectionDone section pr r w
                  (after_list d section pr (evidence_of d run_id section w)))
              e s)
    ]
