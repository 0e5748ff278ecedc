-- ===== src/Graph/Pipeline.antt =====
-- What the graph runs, and what stands in the state at its end.
use surveyforge.Base.{
  ◌≡◌, refl, sym, ◌∙◌, subst, ap, inl, inr, String, Dict, List, [], ◌∷◌, arith, contains,
}
use surveyforge.Runtime.Errors.{Result, ok, err, Result-cases}
use surveyforge.Runtime.World.{World, Exec, transaction, ◌>>=◌, continue, continue-ok}
use surveyforge.Runtime.World.Ends.{Anything, stay-Within, stage-Ends, Within, Ends-bind}
use surveyforge.Runtime.Runs.{update_stage}
use surveyforge.Schemas.Planner.{PlannerSection}
use surveyforge.Schemas.Synthesis.{SynthesizerOutput}
use surveyforge.State.{SurveyState}
use surveyforge.Agents.Planner.{planner_node}
use surveyforge.Agents.Planner.Outline.{Outlined, planner_node-Planned}
use surveyforge.Agents.Wide.React.Turns.{QuietTools}
use surveyforge.Agents.Wide.Node.{researcher_wide_node}
use surveyforge.Agents.Wide.Node.Researched.{Noted, Researched, researcher_wide_node-Researched}
use surveyforge.Agents.Deep.{researcher_deep_node}
use surveyforge.Agents.Deep.Queue.{researcher_deep_node-QueueDone}
use surveyforge.Synthesis.Node as Synthesizer
use surveyforge.Synthesis.Node.{synthesizer_node}
use surveyforge.Synthesis.Node.Loop.{Extends, Added-db}
use surveyforge.Synthesis.Node.Justified.{
  StateDone, synthesizer_node-StateDone, synthesizer_node_bounded,
}
use surveyforge.Writing.{write_node}
use surveyforge.Writing.Drafts.{Drafted, Written, write_node-Written}
use surveyforge.Graph.{
  StateGraph, Parts, Settings, Chain, RunsChains, in_turn, wired, build_graph,
  make_postgres_checkpointer,
}

-- The five nodes in sequence.
unfoldable pub pipeline : Parts → String → SurveyState → Exec SurveyState
pipeline p run_id state = do
  s1 ← planner_node p.planner run_id state
  s2 ← researcher_wide_node p.wide run_id s1
  s3 ← researcher_deep_node p.deep run_id s2
  s4 ← synthesizer_node p.synthesizer run_id s3
  write_node run_id s4

abbrev stages : Parts → Chain
stages p =
    ("planner", λ run_id state. planner_node p.planner run_id state)
    ∷ (("researcher_wide", λ run_id state. researcher_wide_node p.wide run_id state)
        ∷ (("researcher_deep", λ run_id state. researcher_deep_node p.deep run_id state)
            ∷ (("synthesize", λ run_id state. synthesizer_node p.synthesizer run_id state)
                ∷ (("write", write_node) ∷ []))))

last_pure : {A : Type 0} (r : Result A × World) → continue (λ a w. (ok a, w)) r ≡ r
last_pure (ok a, w) = refl
last_pure (err e, w) = refl

module _ {A B : Type 0} where
  continue-same :
      (r : Result A × World) (f g : A → Exec B)
      → ((a : A) (w : World) → f a w ≡ g a w)
      → continue f r ≡ continue g r
  continue-same (ok a, w) f g h = h a w
  continue-same (err e, w) f g h = refl

in_turn-pipeline :
    (p : Parts) (run_id : String) (state : SurveyState) (w : World)
    → in_turn (stages p) run_id state w ≡ pipeline p run_id state w
unfolding pipeline
in_turn-pipeline p run_id state w =
    continue-same (planner_node p.planner run_id state w) _ _ (λ s1 w1.
      continue-same (researcher_wide_node p.wide run_id s1 w1) _ _ (λ s2 w2.
        continue-same (researcher_deep_node p.deep run_id s2 w2) _ _ (λ s3 w3.
          continue-same (synthesizer_node p.synthesizer run_id s3 w3) _ _
            (λ s4 w4. last_pure (write_node run_id s4 w4)))))

module _ (lib : StateGraph) where
  built :
      (s : Settings) (g : lib.Graph)
      → build_graph lib s ≡ ok g
      → (p : Parts) × (s.parts ≡ ok p) × (g ≡ wired lib p)
  unfolding build_graph
  built s g h = elim (Result-cases s.routing) [
    | inr (e, f) ↦ absurd (ground arith)
    | inl (r, f) ↦ elim (Result-cases (make_postgres_checkpointer s)) [
      | inr (e, f') ↦ absurd (ground arith)
      | inl (c, f') ↦ elim (Result-cases s.parts) [
        | inr (e, f'') ↦ absurd (ground arith)
        | inl (p, f'') ↦ (p, f'', ground arith)
      ]
    ]
  ]

  wired-pipeline :
      (p : Parts) (run_id : String) (state : SurveyState) (w : World)
      → RunsChains lib
      → lib.invoke (wired lib p) run_id state w ≡ pipeline p run_id state w
  unfolding wired contains
  wired-pipeline p run_id state w runs =
      runs (stages p) run_id state w refl ∙ in_turn-pipeline p run_id state w

-- Where langgraph runs chains as its documentation says, a graph that `build_graph` returns runs the
-- planner, wide research, deep research, the synthesizer and the writer, each once and on the state
-- of the one before, up to the first that raises.
pub invoke-pipeline :
    (lib : StateGraph) (s : Settings) (g : lib.Graph) (p : Parts) (run_id : String)
    (state : SurveyState) (w : World)
    → RunsChains lib
    → s.parts ≡ ok p
    → build_graph lib s ≡ ok g
    → lib.invoke g run_id state w ≡ pipeline p run_id state w
invoke-pipeline lib s g p run_id state w runs given h =
    let (p', e, same) = built lib s g h in
    let one : p' ≡ p = ground arith in
    ap (λ x. lib.invoke x run_id state w) same
    ∙ (wired-pipeline lib p' run_id state w runs ∙ ap (λ q. pipeline q run_id state w) one)

-- The state at the end of a run that began in `state`, with the tables of `w` at its end.
abbrev pub Surveyed : Parts → String → SurveyState → World → SurveyState → Type 0
Surveyed p run_id state w state' =
    (state'.topic ≡ state.topic)
    × Outlined state'.outline
    × Noted state'.outline state.section_notes state'.section_notes
    × Extends p.synthesizer run_id state'.outline w state.structured_extracts
        state'.structured_extracts
    × Drafted state'.structured_extracts state'.outline state.section_drafts state'.section_drafts

write_node-Within :
    (run_id : String) (state : SurveyState) (w : World)
    → Within run_id 0 w (write_node run_id state w).1
unfolding write_node update_stage
write_node-Within run_id state w =
    (Ends-bind run_id Anything Anything 0 0 w (transaction (update_stage run_id "write") w) _
      (stage-Ends run_id "write" w) (λ u w' a. (λ b h. tt, stay-Within run_id 0 w'))).1

Extends-evidence :
    (d : Synthesizer.Deps) (run_id : String) (outline : List PlannerSection) (w w' : World)
    (before after : Dict SynthesizerOutput)
    → w'.db.evidence_items ≡ w.db.evidence_items
    → Extends d run_id outline w before after
    → Extends d run_id outline w' before after
Extends-evidence d run_id outline w w' before after e h sid o l = elim (h sid o l) [
  | inl old ↦ inl old
  | inr new ↦ inr (Added-db d run_id outline w' w sid o (sym e) new)
]

-- Each node leaves alone what another one writes.
composed :
    (p : Parts) (run_id : String) (state s1 s2 s3 s4 state' : SurveyState) (w : World)
    → (s1 ≡ record state { outline = s1.outline }) × Outlined s1.outline
    → Researched s1.outline s1 s2
    → s3 ≡ record s2 { deep_read_queue = s3.deep_read_queue }
    → StateDone p.synthesizer run_id s3 w s4
    → Written s4 state'
    → Surveyed p run_id state w state'
composed p run_id state s1 s2 s3 s4 state' w (a, outlined) (b, noted, longer) c (d, extends)
      (e, drafted) =
    let o3 : s3.outline ≡ s1.outline = ap (λ s. s.outline) c ∙ ap (λ s. s.outline) b in
    let o4 : s4.outline ≡ s1.outline = ap (λ s. s.outline) d ∙ o3 in
    let o : state'.outline ≡ s1.outline = ap (λ s. s.outline) e ∙ o4 in
    let t : state'.topic ≡ state.topic =
      ap (λ s. s.topic) e
      ∙ ap (λ s. s.topic) d
      ∙ ap (λ s. s.topic) c
      ∙ ap (λ s. s.topic) b
      ∙ ap (λ s. s.topic) a in
    let n : state'.section_notes ≡ s2.section_notes =
      ap (λ s. s.section_notes) e ∙ ap (λ s. s.section_notes) d ∙ ap (λ s. s.section_notes) c in
    let x : state'.structured_extracts ≡ s4.structured_extracts =
      ap (λ s. s.structured_extracts) e in
    let x3 : s3.structured_extracts ≡ state.structured_extracts =
      ap (λ s. s.structured_extracts) c
      ∙ ap (λ s. s.structured_extracts) b
      ∙ ap (λ s. s.structured_extracts) a in
    let y : s4.section_drafts ≡ state.section_drafts =
      ap (λ s. s.section_drafts) d
      ∙ ap (λ s. s.section_drafts) c
      ∙ ap (λ s. s.section_drafts) b
      ∙ ap (λ s. s.section_drafts) a in
    rw o (
      rw x (
        rw n (
          t,
          outlined,
          subst (λ z. Noted s1.outline z s2.section_notes) (ap (λ s. s.section_notes) a) noted,
          subst (λ z. Extends p.synthesizer run_id s1.outline w z s4.structured_extracts) x3
              (subst
                (λ z.
                  Extends p.synthesizer run_id z w s3.structured_extracts s4.structured_extracts)
                o3 extends),
          subst (λ z. Drafted z s1.outline state.section_drafts state'.section_drafts) (sym x)
              (subst (λ z. Drafted s4.structured_extracts s1.outline z state'.section_drafts) y
                (subst
                  (λ z. Drafted s4.structured_extracts z s4.section_drafts state'.section_drafts) o4
                  drafted)),
        )))

-- Where the search tools touch neither runs nor evidence nor the model, and all five nodes return: the
-- topic is as it was; the outline has three to seven well planned sections, and each has notes; each
-- extract is an old one, or the empty output of a section, or grounded in the evidence that is stored
-- for its section at the end; and each section has the draft of its extract.
pub pipeline-Surveyed :
    (p : Parts) (run_id : String) (state state' : SurveyState) (w : World)
    → QuietTools p.wide
    → (pipeline p run_id state w).0 ≡ ok state'
    → Surveyed p run_id state (pipeline p run_id state w).1 state'
unfolding pipeline
pipeline-Surveyed p run_id state state' w quiet h =
    let (s1, e1, h1, r1) = continue-ok (planner_node p.planner run_id state w) _ state' h in
    let w1 = (planner_node p.planner run_id state w).1 in
    let (s2, e2, h2, r2) = continue-ok (researcher_wide_node p.wide run_id s1 w1) _ state' h1 in
    let w2 = (researcher_wide_node p.wide run_id s1 w1).1 in
    let (s3, e3, h3, r3) = continue-ok (researcher_deep_node p.deep run_id s2 w2) _ state' h2 in
    let w3 = (researcher_deep_node p.deep run_id s2 w2).1 in
    let (s4, e4, h4, r4) = continue-ok (synthesizer_node p.synthesizer run_id s3 w3) _ state' h3 in
    let w4 = (synthesizer_node p.synthesizer run_id s3 w3).1 in
    let evidence : (pipeline p run_id state w).1.db.evidence_items ≡ w3.db.evidence_items =
      ap (λ r. r.1.db.evidence_items) (r1 ∙ r2 ∙ r3 ∙ r4)
      ∙ (write_node-Within run_id s4 w4).0
      ∙ (synthesizer_node_bounded p.synthesizer run_id s3 w3).0 in
    let (synthesized, extends) = synthesizer_node-StateDone p.synthesizer run_id s3 s4 w3 e4 in
    composed p run_id state s1 s2 s3 s4 state' (pipeline p run_id state w).1
      (planner_node-Planned p.planner run_id state s1 w e1)
      (researcher_wide_node-Researched p.wide run_id s1 s2 w1 quiet e2)
      (researcher_deep_node-QueueDone p.deep run_id s2 s3 w2 e3).0
      (
        synthesized,
        Extends-evidence p.synthesizer run_id s3.outline w3 _ s3.structured_extracts
            s4.structured_extracts evidence extends,
      )
      (write_node-Written run_id s4 state' w4 h4)
