-- ===== src/Agents/Planner/Outline.antt =====
-- What is known of the outline that the planner writes.
use surveyforge.Base.{
  ◌≡◌, refl, inl, inr, subst, ◌≤◌, true, Option-cases, Bool-cases, List, [], ◌∷◌, length, all, All,
  arith, Dict, insert,
}
use surveyforge.Runtime.Errors.{Result, ok, err}
use surveyforge.Runtime.Json.{Json}
use surveyforge.Runtime.World.{World, transaction, continue, ◌>>=◌}
use surveyforge.Runtime.Runs.{update_stage}
use surveyforge.Schemas.Planner.{
  PlannerSection, PlannerOutput, planner_section_valid, planner_output_valid,
}
use surveyforge.State.{SurveyState}
use surveyforge.Base.{String}
use surveyforge.Llm.Model.{human}
use surveyforge.Llm.Structured.{structured_call}
use surveyforge.Agents.Planner.{Deps, read_output, planner_node}
use surveyforge.Agents.Deep.{index_sections}

-- Two to four questions, and one to three findings that the section must have.
abbrev pub WellPlanned : PlannerSection → Type 0
WellPlanned s =
    (2 ≤ length s.research_questions)
    × (length s.research_questions ≤ 4)
    × (1 ≤ length s.must_find_evidence)
    × (length s.must_find_evidence ≤ 3)

-- Three to seven sections, each well planned, that later nodes read without an error.
abbrev pub Outlined : List PlannerSection → Type 0
Outlined outline =
    (3 ≤ length outline)
    × (length outline ≤ 7)
    × All WellPlanned outline
    × ((sections : Dict PlannerSection) × (index_sections [] outline ≡ ok sections))

valid-WellPlanned : (s : PlannerSection) → planner_section_valid s ≡ true → WellPlanned s
unfolding planner_section_valid
valid-WellPlanned s h = (ground arith, ground arith, ground arith, ground arith)

all-WellPlanned :
    (outline : List PlannerSection)
    → all planner_section_valid outline ≡ true
    → All WellPlanned outline
all-WellPlanned [] h = tt
all-WellPlanned (s ∷ outline) h =
    (valid-WellPlanned s (ground arith), all-WellPlanned outline (ground arith))

index_sections-ok :
    (outline : List PlannerSection) (d : Dict PlannerSection)
    → all planner_section_valid outline ≡ true
    → (sections : Dict PlannerSection) × (index_sections d outline ≡ ok sections)
unfolding index_sections
index_sections-ok [] d h = (d, refl)
index_sections-ok (s ∷ outline) d h =
    let (sections, e) = index_sections-ok outline (insert s.section_id s d) (ground arith) in
    (sections, ground arith)

output-Outlined : (o : PlannerOutput) → planner_output_valid o ≡ true → Outlined o.sections
unfolding planner_output_valid
output-Outlined o h =
    let every : all planner_section_valid o.sections ≡ true = ground arith in
    (
      ground arith,
      ground arith,
      all-WellPlanned o.sections every,
      index_sections-ok o.sections [] every,
    )

module _ (d : Deps) where
  read_output-Outlined :
      (v : Json) (o : PlannerOutput) → read_output d v ≡ ok o → Outlined o.sections
  unfolding read_output
  read_output-Outlined v o h = elim (Option-cases (d.decode v)) [
    | inl e ↦ absurd (ground arith)
    | inr (o', e) ↦ elim (Bool-cases (planner_output_valid o')) [
      | inr f ↦ absurd (ground arith)
      | inl t ↦
          let same : o' ≡ o = ground arith in
          subst (λ p. Outlined p.sections) same (output-Outlined o' t)
    ]
  ]

  module _ (state state' : SurveyState) where
    abbrev pub Planned : Type 0
    Planned = (state' ≡ record state { outline = state'.outline }) × Outlined state'.outline

    read-Planned :
        (r : Result PlannerOutput) (w : World)
        → ((o : PlannerOutput) → r ≡ ok o → Outlined o.sections)
        → (continue (λ output w'. (ok (record state { outline = output.sections }), w')) (r, w)).0
          ≡ ok state'
        → Planned
    read-Planned (err e) w f h = absurd (cc)
    read-Planned (ok o) w f h =
        let same : record state { outline = o.sections } ≡ state' = ground arith in
        subst (λ s. (s ≡ record state { outline = s.outline }) × Outlined s.outline) same
          (refl, f o refl)

    called-Planned :
        (r : Result Json × World)
        → (continue
            (λ v. (λ w. (read_output d v, w)) >>= λ output.
              λ w. (ok (record state { outline = output.sections }), w))
            r).0
          ≡ ok state'
        → Planned
    called-Planned (err e, w) h = absurd (cc)
    called-Planned (ok v, w) h = read-Planned (read_output d v) w (read_output-Outlined v) h

    started-Planned :
        (run_id : String) (r : Result (Unit {0}) × World)
        → (continue
            (λ started.
              structured_call d.parsers d.llm d.validate "planner_output" d.supports_fc
                (human (d.template state.topic) ∷ [])
                2
              >>= λ v. (λ w. (read_output d v, w)) >>= λ output.
                  λ w. (ok (record state { outline = output.sections }), w))
            r).0
          ≡ ok state'
        → Planned
    started-Planned run_id (err e, w) h = absurd (cc)
    started-Planned run_id (ok u, w) h = called-Planned _ h

-- Where the planner returns, the state differs in the outline alone, which has three to seven
-- sections, each with two to four questions and one to three findings to make, and which the deep
-- researcher reads without a validation error.
pub planner_node-Planned :
    (d : Deps) (run_id : String) (state state' : SurveyState) (w : World)
    → (planner_node d run_id state w).0 ≡ ok state'
    → Planned d state state'
unfolding planner_node
planner_node-Planned d run_id state state' w h =
    started-Planned d state state' run_id (transaction (update_stage run_id "planning") w) h
