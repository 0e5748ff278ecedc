-- ===== src/Agents/Deep/Queue.antt =====
-- Which papers leave the queue of the deep researcher.
use surveyforge.Base.{
  ◌≡◌, refl, ◌⊎◌, inl, inr, ◌&&◌, subst, arith, Bool-cases, none, List, [], ◌∷◌, String, Bool, true,
  false, eq_iff, Dict, In, Any, contains, keep, starts_with,
}
use surveyforge.Runtime.Errors.{Result, ok, err}
use surveyforge.Runtime.World.{World, Exec, transaction, continue, ◌>>=◌}
use surveyforge.Runtime.Runs.{update_stage}
use surveyforge.Schemas.Planner.{PlannerSection}
use surveyforge.State.{SurveyState}
use surveyforge.Agents.Deep.{
  Deps, Progress, section_step, sections_loop, note_last_error, stays, index_sections,
  papers_by_section, researcher_deep_node,
}
use surveyforge.Agents.Deep.Sections.{Completed, Finishes, section_step-Ends}

module _ (d : Deps) where
  module _ (run_id : String) where
    abbrev FromGroups : Dict (List String) → Progress → Progress → Type 0
    FromGroups groups pr pr' =
        (pid : String) → In pid pr'.processed → In pid pr.processed ⊎ Any (Completed d pid) groups

    abbrev LoopEnds : Dict (List String) → Progress → Result Progress × World → Type 0
    LoopEnds groups pr r = (pr' : Progress) → r.0 ≡ ok pr' → FromGroups groups pr pr'

    continue-LoopEnds :
        (sections : Dict PlannerSection) (group : String × List String) (rest : Dict (List String))
        (pr : Progress) (r : Result Progress × World)
        → ((pr1 : Progress) (w : World)
            → LoopEnds rest pr1 (sections_loop d run_id sections rest pr1 w))
        → Finishes d group pr r.0
        → LoopEnds (group ∷ rest) pr (continue (sections_loop d run_id sections rest) r)
    continue-LoopEnds sections group rest pr (err e, w) ih first pr' h pid i = absurd (cc)
    continue-LoopEnds sections group rest pr (ok pr1, w) ih first pr' h pid i =
        elim (ih pr1 w pr' h pid i) [
          | inr later ↦ inr (inr later)
          | inl before ↦ elim (first pr1 refl pid before) [
            | inl old ↦ inl old
            | inr here ↦ inr (inl here)
          ]
        ]

    sections_loop-LoopEnds :
        (sections : Dict PlannerSection) (groups : Dict (List String)) (pr : Progress) (w : World)
        → LoopEnds groups pr (sections_loop d run_id sections groups pr w)
    unfolding sections_loop
    sections_loop-LoopEnds sections [] pr w pr' h pid i =
        let same : pr ≡ pr' = ground arith in inl (rw same i)
    sections_loop-LoopEnds sections ((sid, papers) ∷ rest) pr w pr' h pid i =
        continue-LoopEnds sections (sid, papers) rest pr
          (section_step d run_id sid sections papers pr w) (sections_loop-LoopEnds sections rest)
          (section_step-Ends d run_id sid papers sections pr w) pr' h pid i

    abbrev groups_of : SurveyState → Dict (List String)
    groups_of state = papers_by_section state.deep_read_queue state.section_notes

    -- The state after the node, given the state before.
    abbrev pub QueueDone : SurveyState → SurveyState → Type 0
    QueueDone state state' =
        (state' ≡ record state { deep_read_queue = state'.deep_read_queue })
        × ((pid : String)
            → In pid state'.deep_read_queue
            → In pid state.deep_read_queue × (starts_with pid "web:" ≡ false))
        × ((pid : String)
            → In pid state.deep_read_queue
            → In pid state'.deep_read_queue
              ⊎ (starts_with pid "web:" ≡ true)
              ⊎ Any (Completed d pid) (groups_of state))

    contains-keep :
        (p : String → Bool) (xs : List String) (a : String)
        → contains (keep p xs) a ≡ (contains xs a && p a)
    unfolding contains
    contains-keep p [] a = refl
    contains-keep p (x ∷ xs) a = ground (arith, eq_iff a x, contains-keep p xs a)

    kept-QueueDone :
        (state : SurveyState) (processed : List String)
        → ((pid : String) → In pid processed → Any (Completed d pid) (groups_of state))
        → QueueDone state (record state {
          deep_read_queue = keep (stays d run_id processed) state.deep_read_queue;
        })
    unfolding stays
    kept-QueueDone state processed done = (
      refl,
      λ pid h.
          let e = contains-keep (stays d run_id processed) state.deep_read_queue pid in
          (ground arith, ground arith),
      λ pid h. elim (Bool-cases (starts_with pid "web:")) [
        | inl web ↦ inr (inl web)
        | inr other ↦ elim (Bool-cases (contains processed pid)) [
          | inl t ↦ inr (inr (done pid t))
          | inr f ↦
              inl
                (ground (arith, contains-keep (stays d run_id processed) state.deep_read_queue pid))
        ]
      ],
    )

    abbrev NodeEnds : SurveyState → Result SurveyState × World → Type 0
    NodeEnds state r = (state' : SurveyState) → r.0 ≡ ok state' → QueueDone state state'

    abbrev last_part : SurveyState → Progress → Exec SurveyState
    last_part state pr = note_last_error d run_id pr.last_error >>= λ noted. λ w. (
      ok (record state {
        deep_read_queue = keep (stays d run_id pr.processed) state.deep_read_queue;
      }),
      w,
    )

    noted-NodeEnds :
        (state : SurveyState) (pr : Progress) (r : Result (Unit {0}) × World)
        → ((pid : String) → In pid pr.processed → Any (Completed d pid) (groups_of state))
        → NodeEnds state (
            continue
              (λ noted w. (
                ok (record state {
                  deep_read_queue = keep (stays d run_id pr.processed) state.deep_read_queue;
                }),
                w,
              ))
              r)
    noted-NodeEnds state pr (err e, w) done state' h = absurd (cc)
    noted-NodeEnds state pr (ok u, w) done state' h =
        let same : record state {
          deep_read_queue = keep (stays d run_id pr.processed) state.deep_read_queue;
        }
            ≡ state' =
          ground arith in
        subst (QueueDone state) same (kept-QueueDone state pr.processed done)

    loop-NodeEnds :
        (state : SurveyState) (r : Result Progress × World)
        → LoopEnds (groups_of state) (record { processed = []; last_error = none }) r
        → NodeEnds state (continue (last_part state) r)
    unfolding contains
    loop-NodeEnds state (err e, w) done state' h = absurd (cc)
    loop-NodeEnds state (ok pr, w) done state' h =
        noted-NodeEnds state pr _
          (λ pid i. elim (done pr refl pid i) [ inl never ↦ absurd (cc) | inr here ↦ here ]) state'
          h

    sections-NodeEnds :
        (state : SurveyState) (r : Result (Dict PlannerSection) × World)
        → NodeEnds state (
            continue
              (λ sections.
                sections_loop d run_id sections
                  (groups_of state)
                  (record { processed = []; last_error = none })
                >>= last_part state)
              r)
    sections-NodeEnds state (err e, w) state' h = absurd (cc)
    sections-NodeEnds state (ok sections, w) state' h =
        loop-NodeEnds state _
          (sections_loop-LoopEnds sections (groups_of state)
            (record { processed = []; last_error = none }) w)
          state' h

    started-NodeEnds :
        (state : SurveyState) (r : Result (Unit {0}) × World)
        → NodeEnds state (
            continue
              (λ started. (λ w. (index_sections [] state.outline, w)) >>= λ sections.
                sections_loop d run_id sections
                  (groups_of state)
                  (record { processed = []; last_error = none })
                >>= last_part state)
              r)
    started-NodeEnds state (err e, w) state' h = absurd (cc)
    started-NodeEnds state (ok u, w) state' h = sections-NodeEnds state _ state' h

-- Where the node returns, the state differs in the queue alone. What is left in the queue was there
-- and is no `web:` paper; and a paper that was there and is left out is a `web:` paper, or one that a
-- valid answer, which the structured call of the model gives for a message and which is for a section
-- that has the paper among its queued notes, names as processed.
pub researcher_deep_node-QueueDone :
    (d : Deps) (run_id : String) (state state' : SurveyState) (w : World)
    → (researcher_deep_node d run_id state w).0 ≡ ok state'
    → QueueDone d run_id state state'
unfolding researcher_deep_node
researcher_deep_node-QueueDone d run_id state state' w h =
    started-NodeEnds d run_id state (transaction (update_stage run_id "research_deep") w) state' h
