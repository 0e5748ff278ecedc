-- ===== src/Synthesis/Node/Justified.antt =====
-- What the synthesizer's node does to the state and to the tables.
use surveyforge.Base.{
  ◌≡◌, refl, inl, inr, ◌≤◌, ◌+◌, ◌*◌, subst, arith, Option, none, some, String, ap, ◌∙◌,
  Option-cases, length,
}
use surveyforge.Runtime.Errors.{Result, ok, err}
use surveyforge.Runtime.World.{World, Run, transaction, commit_or_rollback, continue, ◌>>=◌}
use surveyforge.Runtime.Runs.{find_run, update_run, update_stage, note_error_category}
use surveyforge.Synthesis.Node.{Deps, Progress, sections_loop, note_last_error, synthesizer_node}
use surveyforge.State.{SurveyState}
use surveyforge.Synthesis.Node.Loop.{Added-db, Extends, LoopDone, sections_loop-LoopDone}

-- Only the table of runs differs.
abbrev pub RunsOnly : World → World → Type 0
RunsOnly w w' =
    (w'.db.evidence_items ≡ w.db.evidence_items)
    × (w'.db.tool_calls ≡ w.db.tool_calls)
    × (w'.llm_calls ≡ w.llm_calls)

commit-RunsOnly :
    {A : Type 0} (w : World) (r : Result A × World)
    → RunsOnly w r.1
    → RunsOnly w (commit_or_rollback w.db r).1
unfolding commit_or_rollback
commit-RunsOnly w (ok a, w') h = h
commit-RunsOnly w (err e, w') (a, b, c) = (refl, refl, c)

update_run-RunsOnly : (k : String) (f : Run → Run) (w : World) → RunsOnly w (update_run k f w).1
unfolding update_run
update_run-RunsOnly k f w = elim (Option-cases (find_run k w.db.runs)) [
  | inl e ↦ rw (e, update_run) (refl, refl, refl)
  | inr (r, e) ↦ rw (e, update_run) (refl, refl, refl)
]

module _ (d : Deps) (run_id : String) where
  stage-RunsOnly :
      (stage : String) (w : World) → RunsOnly w (transaction (update_stage run_id stage) w).1
  unfolding transaction update_stage
  stage-RunsOnly stage w =
      commit-RunsOnly w _ (update_run-RunsOnly run_id _ (record w { now = w.clock }))

  note-RunsOnly : (c : Option String) (w : World) → RunsOnly w (note_last_error d run_id c w).1
  unfolding note_last_error transaction note_error_category
  note-RunsOnly none w = (refl, refl, refl)
  note-RunsOnly (some c) w =
      commit-RunsOnly w _ (update_run-RunsOnly run_id _ (record w { now = w.clock }))

  -- What the node does to the tables but that of runs, and to the state.
  abbrev NodeDone : SurveyState → World → Result SurveyState × World → Type 0
  NodeDone state w r =
      ((state' : SurveyState)
        → r.0 ≡ ok state'
        → (state' ≡ record state { structured_extracts = state'.structured_extracts })
          × Extends d run_id state.outline w state.structured_extracts state'.structured_extracts)
      × (r.1.db.evidence_items ≡ w.db.evidence_items)
      × (r.1.db.tool_calls ≡ w.db.tool_calls)
      × (r.1.llm_calls ≤ w.llm_calls + 2 * length state.outline)

  end-NodeDone :
      (state : SurveyState) (w w1 : World) (pr : Progress) (r : Result (Unit {0}) × World)
      → RunsOnly w1 r.1
      → Extends d run_id state.outline w state.structured_extracts pr.extracts
      → (w1.db.evidence_items ≡ w.db.evidence_items)
      → (w1.db.tool_calls ≡ w.db.tool_calls)
      → w1.llm_calls ≤ w.llm_calls + 2 * length state.outline
      → NodeDone state w
          (continue (λ u w'. (ok (record state { structured_extracts = pr.extracts }), w')) r)
  end-NodeDone state w w1 pr (err e, w') (a, b, c) x f g h =
      (λ s k. absurd (cc), a ∙ f, b ∙ g, omega arith)
  end-NodeDone state w w1 pr (ok u, w') (a, b, c) x f g h = (
    λ s k.
        let same : record state { structured_extracts = pr.extracts } ≡ s = ground arith in
        subst
          (λ s.
            (s ≡ record state { structured_extracts = s.structured_extracts })
            × Extends d run_id state.outline w state.structured_extracts s.structured_extracts)
          same (refl, x),
    a ∙ f,
    b ∙ g,
    omega arith,
  )

  loop-NodeDone :
      (state : SurveyState) (w w1 : World) (r : Result Progress × World)
      → RunsOnly w w1
      → LoopDone d run_id state.outline
          (record { extracts = state.structured_extracts; last_error = none })
          w1
          r
      → NodeDone state w (
          continue
            (λ pr. note_last_error d run_id pr.last_error >>= λ noted.
              λ w'. (ok (record state { structured_extracts = pr.extracts }), w'))
            r)
  loop-NodeDone state w w1 (err e, w2) (a, b, c) (x, k) = (
    λ s h. absurd (cc),
    ap (λ u. u.evidence_items) k.0 ∙ a,
    ap (λ u. u.tool_calls) k.0 ∙ b,
    omega arith,
  )
  loop-NodeDone state w w1 (ok pr, w2) (a, b, c) (x, k) =
      end-NodeDone state w w2 pr (note_last_error d run_id pr.last_error w2)
        (note-RunsOnly pr.last_error w2)
        (λ sid o h. elim (x pr refl sid o h) [
          | inl old ↦ inl old
          | inr new ↦ inr (Added-db d run_id state.outline w w1 sid o a new)
        ])
        (ap (λ u. u.evidence_items) k.0 ∙ a) (ap (λ u. u.tool_calls) k.0 ∙ b) (omega arith)

  start-NodeDone :
      (state : SurveyState) (w : World) (r : Result (Unit {0}) × World)
      → RunsOnly w r.1
      → NodeDone state w (
          continue
            (λ started.
              sections_loop d run_id state.outline
                (record { extracts = state.structured_extracts; last_error = none })
              >>= λ pr. note_last_error d run_id pr.last_error >>= λ noted.
                  λ w'. (ok (record state { structured_extracts = pr.extracts }), w'))
            r)
  start-NodeDone state w (err e, w1) (a, b, c) = (λ s h. absurd (cc), a, b, omega arith)
  start-NodeDone state w (ok u, w1) h =
      loop-NodeDone state w w1 _ h (sections_loop-LoopDone d run_id state.outline _ w1)

-- The state differs in the outputs alone, and each of these is an old one or an added one.
abbrev pub StateDone : Deps → String → SurveyState → World → SurveyState → Type 0
StateDone d run_id state w state' =
    (state' ≡ record state { structured_extracts = state'.structured_extracts })
    × Extends d run_id state.outline w state.structured_extracts state'.structured_extracts

-- Where the node returns, the state differs in `structured_extracts` alone, and each output there is
-- one that stood there before, or belongs to a section of the outline and is the empty output, or is
-- accepted by the schema and grounded in stored evidence of that section which fits the budget, with
-- the dropped papers noted as a gap.
pub synthesizer_node-StateDone :
    (d : Deps) (run_id : String) (state state' : SurveyState) (w : World)
    → (synthesizer_node d run_id state w).0 ≡ ok state'
    → StateDone d run_id state w state'
unfolding synthesizer_node
synthesizer_node-StateDone d run_id state state' w h =
    (start-NodeDone d run_id state w (transaction (update_stage run_id "synthesize") w)
        (stage-RunsOnly d run_id "synthesize" w)).0
      state' h

-- However the node ends, the evidence and the tool calls in the tables are as they were, and the
-- model was called twice for each section at most.
pub synthesizer_node_bounded :
    (d : Deps) (run_id : String) (state : SurveyState) (w : World)
    → let w' = (synthesizer_node d run_id state w).1 in
      (w'.db.evidence_items ≡ w.db.evidence_items)
      × (w'.db.tool_calls ≡ w.db.tool_calls)
      × (w'.llm_calls ≤ w.llm_calls + 2 * length state.outline)
unfolding synthesizer_node
synthesizer_node_bounded d run_id state w =
    let h =
      start-NodeDone d run_id state w (transaction (update_stage run_id "synthesize") w)
        (stage-RunsOnly d run_id "synthesize" w) in
    (h.1, h.2, h.3)
