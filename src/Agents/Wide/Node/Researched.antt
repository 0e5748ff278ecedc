-- ===== src/Agents/Wide/Node/Researched.antt =====
-- What the node for wide research adds to the state, and how often it calls the model.
use mathlib.Core.List.{append-nil, append_assoc}
use surveyforge.Base.{
  ◌≡◌, refl, inl, inr, ◌⊎◌, sym, ap, ◌∙◌, subst, ℕ, ◌+◌, ◌*◌, ◌≤◌, true, false, String, ◌==◌,
  eq_iff, Option, none, some, List, [], ◌∷◌, ◌++◌, map, length, length-append, contains, arith,
  Bool-cases, is_empty, Dict, lookup, if◌then◌else◌,
}
use surveyforge.Runtime.Errors.{Result-cases, ok}
use surveyforge.Runtime.World.{World, transaction}
use surveyforge.Runtime.World.Ends.{
  Anything, stay-Within, stage-Ends, note-Ends, Within, Ends, Ends-ok, Ends-more, Ends-bind,
}
use surveyforge.Runtime.Runs.{noted, update_stage, note_error_category}
use surveyforge.Schemas.Planner.{PlannerSection, planner_section_valid}
use surveyforge.State.{Note, SurveyState}
use surveyforge.Agents.Wide.{max_handoff, record_section}
use surveyforge.Agents.Wide.Handoff.{Fresh, Handed, record_section-Handed}
use surveyforge.Agents.Wide.React.{Deps, Outcome, react_one_section, max_turns}
use surveyforge.Agents.Wide.React.Turns.{QuietTools, Settled, react_one_section-Ends}
use surveyforge.Agents.Wide.Node.{
  Progress, or_else, after_section, one_section, sections_loop, note_last_error, start, finished,
  research, researcher_wide_node,
}

-- The queue grows at its end, by `most` ids at most, each new to it.
abbrev pub Longer : ℕ → List String → List String → Type 0
Longer most queue queue' =
    (added : List String) × (queue' ≡ queue ++ added) × (length added ≤ most) × Fresh queue added

abbrev pub section_ids : List PlannerSection → List String
section_ids outline = map (λ s. s.section_id) outline

-- A section of the outline has notes; the notes of any other are as they were.
abbrev pub Noted : List PlannerSection → Dict (List Note) → Dict (List Note) → Type 0
Noted outline before after =
    (j : String)
    → ((contains (section_ids outline) j ≡ true)
        × ((notes : List Note) × (lookup j after ≡ some notes)))
      ⊎ ((contains (section_ids outline) j ≡ false) × (lookup j after ≡ lookup j before))

abbrev pub Researched : List PlannerSection → SurveyState → SurveyState → Type 0
Researched outline state state' =
    (state' ≡ record state {
      section_notes = state'.section_notes;
      deep_read_queue = state'.deep_read_queue;
    })
    × Noted outline state.section_notes state'.section_notes
    × Longer (max_handoff * length outline) state.deep_read_queue state'.deep_read_queue

Fresh-append :
    (queue xs ys : List String) → Fresh queue xs → Fresh (queue ++ xs) ys → Fresh queue (xs ++ ys)
Fresh-append queue [] ys f g = subst (λ q. Fresh q ys) (append-nil queue) g
Fresh-append queue (x ∷ xs) ys (n, f) g = (
  n,
  Fresh-append (queue ++ (x ∷ [])) xs ys f
      (subst (λ q. Fresh q ys) (sym (append_assoc queue (x ∷ []) xs)) g),
)

Longer-trans : (m n : ℕ) (a b c : List String) → Longer m a b → Longer n b c → Longer (m + n) a c
Longer-trans m n a b c (xs, e, k, f) (ys, e', k', f') = (
  xs ++ ys,
  e' ∙ ap (λ q. q ++ ys) e ∙ append_assoc a xs ys,
  omega (arith, length-append xs ys),
  Fresh-append a xs ys f (subst (λ q. Fresh q ys) e f'),
)

-- What the loop over some sections does to what it carries.
abbrev Walked : List PlannerSection → Progress → Progress → Type 0
Walked outline p p' =
    Noted outline p.section_notes p'.section_notes
    × Longer (max_handoff * length outline) p.deep_read_queue p'.deep_read_queue

Walked-nil : (p : Progress) → Walked [] p p
unfolding contains
Walked-nil p = (λ j. inr (refl, refl), ([], sym (append-nil p.deep_read_queue), omega arith, tt))

Noted-cons :
    (s : PlannerSection) (outline : List PlannerSection) (a b c : Dict (List Note))
    (new : List Note)
    → ((j : String) → lookup j b ≡ (if s.section_id == j then some new else lookup j a))
    → Noted outline b c
    → Noted (s ∷ outline) a c
unfolding contains
Noted-cons s outline a b c new h rest j = elim (rest j) [
  | inl (m, (notes, e)) ↦ inl (ground arith, (notes, e))
  | inr (m, e) ↦ elim (Bool-cases (s.section_id == j)) [
    | inl t ↦
        inl
          (ground (arith, eq_iff s.section_id j, eq_iff j s.section_id), (new, ground (arith, h j)))
    | inr f ↦
        inr (ground (arith, eq_iff s.section_id j, eq_iff j s.section_id), ground (arith, h j))
  ]
]

Walked-cons :
    (s : PlannerSection) (outline : List PlannerSection) (p q r : Progress)
    → Handed s.section_id (p.section_notes, p.deep_read_queue) (q.section_notes, q.deep_read_queue)
    → Walked outline q r
    → Walked (s ∷ outline) p r
Walked-cons s outline p q r (new, h, (added, e, n, f, m)) (noted, longer) =
    let (xs, e', k, g) =
      Longer-trans max_handoff (max_handoff * length outline) p.deep_read_queue q.deep_read_queue
        r.deep_read_queue (added, e, n, f) longer in
    (
      Noted-cons s outline p.section_notes q.section_notes r.section_notes new h noted,
      (xs, e', omega arith, g),
    )

after_section-Handed :
    (s : PlannerSection) (p q : Progress) (out : Outcome)
    → after_section s p out ≡ ok q
    → Handed s.section_id (p.section_notes, p.deep_read_queue) (q.section_notes, q.deep_read_queue)
unfolding after_section
after_section-Handed s p q out h =
    elim (Result-cases
      (record_section s.section_id out.output out.seen p.section_notes p.deep_read_queue)) [
        | inr (e, f) ↦ absurd (ground arith)
        | inl ((notes, queue), f) ↦
            let next : Progress = record {
              section_notes = notes;
              deep_read_queue = queue;
              last_error = or_else out.error_category p.last_error;
            } in
            let same : next ≡ q = ground arith in
            subst
              (λ r.
                Handed s.section_id (p.section_notes, p.deep_read_queue)
                  (r.section_notes, r.deep_read_queue))
              same
              (record_section-Handed s.section_id out.output out.seen
                (p.section_notes, p.deep_read_queue) (notes, queue) f)
      ]

module _ (d : Deps) (run_id : String) where
  one_section-Ends :
      (s : PlannerSection) (p : Progress) (w : World)
      → QuietTools d
      → Ends run_id
          (λ q.
            Handed s.section_id
              (p.section_notes, p.deep_read_queue)
              (q.section_notes, q.deep_read_queue))
          max_turns
          w
          (one_section d run_id s p w)
  unfolding one_section
  one_section-Ends s p w quiet = elim (Bool-cases (planner_section_valid s)) [
    | inr f ↦ rw f (λ a h. absurd (cc), stay-Within run_id _ w)
    | inl t ↦ rw t (
        Ends-bind run_id (Settled s) _ max_turns 0 w (react_one_section d run_id s (d.template s) w)
          (λ out w'. (after_section s p out, w'))
          (react_one_section-Ends d run_id s (d.template s) w quiet)
          (λ out w' good. (λ q h. after_section-Handed s p q out h, stay-Within run_id 0 w')))
  ]

  sections_loop-Ends :
      (outline : List PlannerSection) (p : Progress) (w : World)
      → QuietTools d
      → Ends run_id
          (Walked outline p)
          (max_turns * length outline)
          w
          (sections_loop d run_id outline p w)
  unfolding sections_loop
  sections_loop-Ends [] p w quiet = Ends-ok run_id (Walked [] p) p (max_turns * 0) w (Walked-nil p)
  sections_loop-Ends (s ∷ outline) p w quiet =
      Ends-more run_id (Walked (s ∷ outline) p) (max_turns + max_turns * length outline)
        (max_turns * length (s ∷ outline)) w (sections_loop d run_id (s ∷ outline) p w)
        (omega arith)
        (Ends-bind run_id _ (Walked (s ∷ outline) p) max_turns (max_turns * length outline) w
          (one_section d run_id s p w) (λ q. sections_loop d run_id outline q)
          (one_section-Ends s p w quiet)
          (λ q w' handed.
            let (f, k) = sections_loop-Ends outline q w' quiet in
            (λ r h. Walked-cons s outline p q r handed (f r h), k)))

  note_last_error-Ends :
      (last : Option String) (w : World)
      → Ends run_id Anything 0 w (note_last_error d run_id last w)
  unfolding note_last_error note_error_category
  note_last_error-Ends none w = Ends-ok run_id Anything tt 0 w tt
  note_last_error-Ends (some category) w = note-Ends run_id category w

  finished-Researched :
      (state : SurveyState) (p : Progress)
      → Walked state.outline (start d run_id state) p
      → Researched state.outline state (finished d run_id state p)
  finished-Researched state p (noted, longer) = (refl, noted, longer)

  research-Ends :
      (state : SurveyState) (w : World)
      → QuietTools d
      → Ends run_id
          (Researched state.outline state)
          (max_turns * length state.outline)
          w
          (research d run_id state w)
  unfolding research update_stage
  research-Ends state w quiet =
      let n = max_turns * length state.outline in
      Ends-more run_id (Researched state.outline state) (0 + (n + (0 + 0))) n w
        (research d run_id state w) (omega arith)
        (Ends-bind run_id Anything (Researched state.outline state) 0 (n + (0 + 0)) w
          (transaction (update_stage run_id "research_wide") w) _
          (stage-Ends run_id "research_wide" w)
          (λ u w1 a.
            Ends-bind run_id (Walked state.outline (start d run_id state))
              (Researched state.outline state) n (0 + 0) w1
              (sections_loop d run_id state.outline (start d run_id state) w1) _
              (sections_loop-Ends state.outline (start d run_id state) w1 quiet)
              (λ p w2 walked.
                Ends-bind run_id Anything (Researched state.outline state) 0 0 w2
                  (note_last_error d run_id p.last_error w2) _
                  (note_last_error-Ends p.last_error w2)
                  (λ v w3 b.
                    Ends-ok run_id (Researched state.outline state) (finished d run_id state p) 0 w3
                      (finished-Researched state p walked)))))

  node-Ends :
      (state : SurveyState) (w : World)
      → QuietTools d
      → Ends run_id
          (Researched state.outline state)
          (max_turns * length state.outline)
          w
          (researcher_wide_node d run_id state w)
  unfolding researcher_wide_node
  node-Ends state w quiet = elim (Bool-cases (is_empty state.outline)) [
    | inl t ↦ rw t (λ a h. absurd (cc), stay-Within run_id _ w)
    | inr f ↦ rw f (research-Ends state w quiet)
  ]

-- Where the search tools touch neither runs nor evidence nor the model, and wide research returns: the
-- state differs in the notes and the queue alone; each section of the outline has notes, and the
-- notes of any other section are as they were; and the queue has grown at its end by three papers
-- for each section at most, each new to the queue.
pub researcher_wide_node-Researched :
    (d : Deps) (run_id : String) (state state' : SurveyState) (w : World)
    → QuietTools d
    → (researcher_wide_node d run_id state w).0 ≡ ok state'
    → Researched state.outline state state'
researcher_wide_node-Researched d run_id state state' w quiet h =
    (node-Ends d run_id state w quiet).0 state' h

-- Where the search tools touch neither runs nor evidence nor the model: wide research leaves the
-- evidence and the other runs as they were and calls the model eight times for each section of the
-- outline at most, whether it returns or raises.
pub researcher_wide_node_bounded :
    (d : Deps) (run_id : String) (state : SurveyState) (w : World)
    → QuietTools d
    → Within run_id (8 * length state.outline) w (researcher_wide_node d run_id state w).1
researcher_wide_node_bounded d run_id state w quiet = (node-Ends d run_id state w quiet).1
