-- ===== src/Agents/Deep/Tended.antt =====
-- The node for deep research changes the row of its own run alone.
use surveyforge.Base.{
  refl, ap, inl, inr, ◌/◌, Bool-cases, Option, Option-cases, none, some, String, count, List, [],
  ◌∷◌, Dict, keys, lookup,
}
use surveyforge.Roles.{researcher_deep}
use surveyforge.Runtime.Errors.{Result, ok, err}
use surveyforge.Runtime.Json.{Json}
use surveyforge.Runtime.World.{World, transaction}
use surveyforge.Runtime.Runs.{update_stage}
use surveyforge.Runtime.Runs.Tending.{
  Tends, Tends-trans, Tending, continue-Tends, transaction-Tending, stage-Tending, note-Tending,
  same-Tends,
}
use surveyforge.Runtime.Budget.{BudgetSpec, check, check_keeps}
use surveyforge.Schemas.Planner.{PlannerSection}
use surveyforge.Schemas.Research.{ResearcherDeepOutput, deep_output_valid}
use surveyforge.Llm.Model.{human}
use surveyforge.Llm.Structured.{structured_call, structured_call-Outcome}
use surveyforge.State.{SurveyState}
use surveyforge.Agents.Deep.Fetch.{Fetched}
use surveyforge.Agents.Deep.Tending.{
  QuietLookups, gateway-AllQuiet, fetch_all-Tending, write_cards-Tending,
}
use surveyforge.Agents.Deep.{
  Deps, Progress, gateway, index_sections, papers_by_section, user_message, output_accepted,
  after_write, store_output, after_call, after_budget, after_fetch, section_step, sections_loop,
  note_last_error, researcher_deep_node,
}

module _ (d : Deps) (k run_id : String) (quiet : QuietLookups d) where
  module _ (sid : String) where
    after_write-Tends :
        (pr : Progress) (w : World) (r : Result (Unit {0}) × World)
        → Tends k w r.1
        → Tends k w (after_write d run_id sid pr r).1
    unfolding after_write
    after_write-Tends pr w (ok u, w') h = h
    after_write-Tends pr w (err e, w') h = h

    store_output-Tending :
        (inputs : List String) (o : ResearcherDeepOutput) (pr : Progress)
        → Tending k (store_output d run_id sid inputs o pr)
    unfolding store_output
    store_output-Tending inputs o pr w = elim (Bool-cases (output_accepted sid inputs o)) [
      | inr f ↦ rw f (same-Tends k w w refl)
      | inl t ↦ rw t (
          after_write-Tends _ w _ (
            transaction-Tending k _
              (write_cards-Tending d k (gateway d run_id sid)
                (gateway-AllQuiet d k run_id sid quiet) run_id sid inputs 0 o.evidence_cards)
              w))
    ]

    after_call-Tends :
        (inputs : List String) (pr : Progress) (w : World) (r : Result Json × World)
        → Tends k w r.1
        → Tends k w (after_call d run_id sid inputs pr r).1
    unfolding after_call
    after_call-Tends inputs pr w (err e, w') h = h
    after_call-Tends inputs pr w (ok v, w') h = elim (Option-cases (d.decode v)) [
      | inl e ↦ rw (e, after_call) h
      | inr (o, e) ↦ elim (Bool-cases (deep_output_valid o)) [
        | inl t ↦
            rw (e, after_call)
              (rw t (
                Tends-trans k w w' (store_output d run_id sid inputs o pr w').1 h
                  (store_output-Tending inputs o pr w')))
        | inr f ↦ rw (e, after_call) (rw f h)
      ]
    ]

    after_budget-Tends :
        (message : String) (inputs : List String) (pr : Progress) (w : World)
        (r : Result BudgetSpec × World)
        → Tends k w r.1
        → Tends k w (after_budget d run_id sid message inputs pr r).1
    unfolding after_budget
    after_budget-Tends message inputs pr w (err e, w') h = h
    after_budget-Tends message inputs pr w (ok spec, w') h =
        let called =
          structured_call d.parsers d.llm d.validate "researcher_deep_output" d.supports_fc
            (human message ∷ []) 2 w' in
        let outcome =
          structured_call-Outcome d.parsers d.llm d.validate "researcher_deep_output" d.supports_fc
            (human message ∷ []) 2 w' in
        Tends-trans k w w' (after_call d run_id sid inputs pr called).1 h (
          after_call-Tends inputs pr w' called
            (same-Tends k w' called.1 (ap (λ u. u.db.runs) outcome.1)))

    after_fetch-Tends :
        (section : PlannerSection) (pr : Progress) (w : World) (r : Result Fetched × World)
        → Tends k w r.1
        → Tends k w (after_fetch d run_id sid section pr r).1
    unfolding after_fetch
    after_fetch-Tends section pr w (err e, w') h = h
    after_fetch-Tends section pr w (ok (abstracts, some e), w') h = h
    after_fetch-Tends section pr w (ok ([], none), w') h = h
    after_fetch-Tends section pr w (ok (a ∷ abstracts, none), w') h =
        let message = user_message d section sid (a ∷ abstracts) in
        let checked = check researcher_deep (count message / 4) w' in
        let kept = check_keeps researcher_deep (count message / 4) w' in
        Tends-trans k w w' (after_budget d run_id sid message (keys (a ∷ abstracts)) pr checked).1 h
          (after_budget-Tends message (keys (a ∷ abstracts)) pr w' checked
            (same-Tends k w' checked.1 (ap (λ db. db.runs) kept.0)))

    section_step-Tending :
        (sections : Dict PlannerSection) (papers : List String) (pr : Progress)
        → Tending k (section_step d run_id sid sections papers pr)
    unfolding section_step
    section_step-Tending sections papers pr w = elim (Option-cases (lookup sid sections)) [
      | inl e ↦ rw (e, section_step) (same-Tends k w w refl)
      | inr (section, e) ↦
          rw (e, section_step)
            (after_fetch-Tends section pr w _ (
              transaction-Tending k _
                (fetch_all-Tending d k (gateway d run_id sid)
                  (gateway-AllQuiet d k run_id sid quiet) papers [])
                w))
    ]

  sections_loop-Tending :
      (sections : Dict PlannerSection) (groups : Dict (List String)) (pr : Progress)
      → Tending k (sections_loop d run_id sections groups pr)
  unfolding sections_loop
  sections_loop-Tending sections [] pr w = same-Tends k w w refl
  sections_loop-Tending sections ((sid, papers) ∷ groups) pr w =
      continue-Tends k w (section_step d run_id sid sections papers pr w) _
        (section_step-Tending sid sections papers pr w)
        (λ next. sections_loop-Tending sections groups next)

note_last_error-Tending :
    (d : Deps) (run_id : String) (last : Option String)
    → Tending run_id (note_last_error d run_id last)
unfolding note_last_error
note_last_error-Tending d run_id none w = same-Tends run_id w w refl
note_last_error-Tending d run_id (some category) w = note-Tending run_id category w

pub researcher_deep_node-Tending :
    (d : Deps) (run_id : String) (state : SurveyState)
    → QuietLookups d
    → Tending run_id (researcher_deep_node d run_id state)
unfolding researcher_deep_node
researcher_deep_node-Tending d run_id state quiet w =
    continue-Tends run_id w (transaction (update_stage run_id "research_deep") w) _
      (stage-Tending run_id "research_deep" w)
      (λ u w1.
        continue-Tends run_id w1 (index_sections [] state.outline, w1) _
          (same-Tends run_id w1 w1 refl)
          (λ sections w2.
            continue-Tends run_id w2
              (sections_loop d run_id sections
                (papers_by_section state.deep_read_queue state.section_notes)
                (record { processed = []; last_error = none }) w2)
              _ (sections_loop-Tending d run_id run_id quiet sections _ _ w2)
              (λ pr w3.
                continue-Tends run_id w3 (note_last_error d run_id pr.last_error w3) _
                  (note_last_error-Tending d run_id pr.last_error w3)
                  (λ v w4. same-Tends run_id w4 w4 refl))))
