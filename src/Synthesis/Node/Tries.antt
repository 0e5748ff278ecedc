-- ===== src/Synthesis/Node/Tries.antt =====
-- What the two tries of the model for one section come to.
use surveyforge.Base.{
  ◌≡◌, ◌≢◌, refl, inl, inr, ℕ, ◌+◌, sym, subst, arith, Bool-cases, Option, some, List, [], ◌∷◌,
  ◌++◌, String, true, false, ap, ◌∙◌, Option-cases,
}
use surveyforge.Runtime.Errors.{Result, Result-cases, ok, err, Exc, classify_exception}
use surveyforge.Runtime.Json.{Json}
use surveyforge.Runtime.World.{World, EvidenceItem}
use surveyforge.Schemas.Planner.{PlannerSection}
use surveyforge.Schemas.Synthesis.{SynthesizerOutput, synthesizer_output_valid}
use surveyforge.Llm.Model.{Message, human}
use surveyforge.Llm.Structured.{structured_call-Outcome}
use surveyforge.Synthesis.Grounding.{validate_grounding}
use surveyforge.Synthesis.Grounding.Laws.{IsGrounded, validate_grounding_iff}
use surveyforge.Synthesis.Node.{
  Deps, accept, accept_call, attempt, after_first, try_twice, settle, repairable, paper_ids,
  evidence_ids, paper_map,
}
use surveyforge.Synthesis.Node.Budgeted.{Keeps}

pub Keeps-trans : (m n : ℕ) (a b c : World) → Keeps m a b → Keeps n b c → Keeps (m + n) a c
Keeps-trans m n a b c (e, h) (f, k) = (f ∙ e, omega arith)

-- An output that the node may put into the state for a section, given the evidence in its prompt.
abbrev pub Accepted : PlannerSection → List EvidenceItem → SynthesizerOutput → Type 0
Accepted section items o =
    (synthesizer_output_valid o ≡ true)
    × IsGrounded o (paper_ids items) (evidence_ids items) (paper_map items) section.section_id

module _ (d : Deps) where
  module _ (section : PlannerSection) (items : List EvidenceItem) where
    accept-Accepted :
        (v : Json) (o : SynthesizerOutput)
        → accept d section items v ≡ ok o
        → Accepted section items o
    unfolding accept
    accept-Accepted v o h = elim (Option-cases (d.decode v)) [
      | inl e ↦ absurd (ground arith)
      | inr (o', e) ↦ elim (Bool-cases (synthesizer_output_valid o')) [
        | inr bad ↦ absurd (ground arith)
        | inl good ↦
            elim (Result-cases (
              validate_grounding o' (paper_ids items) (evidence_ids items) (paper_map items)
                section.section_id)) [
                  | inr (x, g) ↦ absurd (ground arith)
                  | inl (u, g) ↦
                      let same : o' ≡ o = ground arith in
                      rw (← same) (
                        good,
                        (validate_grounding_iff o' (paper_ids items) (evidence_ids items)
                              (paper_map items) section.section_id).0
                            g,
                      )
                ]
      ]
    ]

    abbrev Good : ℕ → World → Result SynthesizerOutput × World → Type 0
    Good n w r = ((o : SynthesizerOutput) → r.0 ≡ ok o → Accepted section items o) × Keeps n w r.1

    accept_call-Good :
        (w : World) (r : Result Json × World)
        → Keeps 1 w r.1
        → Good 1 w (accept_call d section items r)
    unfolding accept_call
    accept_call-Good w (ok v, w') k = (accept-Accepted v, k)
    accept_call-Good w (err e, w') k = (λ o h. absurd (cc), k)

    attempt-Good :
        (messages : List Message) (w : World) → Good 1 w (attempt d section items messages w)
    unfolding attempt
    attempt-Good messages w =
        let h =
          structured_call-Outcome d.parsers d.llm d.validate "synthesizer_output" d.supports_fc
            messages 0 w in
        accept_call-Good w _ (ap (λ u. u.db) h.1, omega arith)

    abbrev pub Tried :
        ℕ → World → Result (Option SynthesizerOutput × Option String) × World → Type 0
    Tried n w r =
        ((o : SynthesizerOutput) (c : Option String)
          → r.0 ≡ ok (some o, c)
          → Accepted section items o)
        × Keeps n w r.1

    settle-err :
        (e : Exc) (o : SynthesizerOutput) (c : Option String) → settle (err e) ≢ ok (some o, c)
    unfolding settle
    settle-err e o c h = elim (Bool-cases (repairable e)) [
      | inl t ↦ ground arith
      | inr f ↦ elim (Option-cases (classify_exception e)) [
        | inl n ↦ ground arith
        | inr (k, m) ↦ ground arith
      ]
    ]

    settle-some :
        (r : Result SynthesizerOutput) (o : SynthesizerOutput) (c : Option String)
        → settle r ≡ ok (some o, c)
        → r ≡ ok o
    unfolding settle
    settle-some (ok o') o c h = ground arith
    settle-some (err e) o c h = absurd (settle-err e o c h)

    after_first_fatal :
        (messages : List Message) (e : Exc) (w : World)
        → repairable e ≡ false
        → after_first d section items messages (err e, w) ≡ (settle (err e), w)
    unfolding after_first
    after_first_fatal messages e w f = rw f (refl)

    after_first-Tried :
        (messages : List Message) (w : World) (r : Result SynthesizerOutput × World)
        → Good 1 w r
        → Tried 2 w (after_first d section items messages r)
    unfolding after_first
    after_first-Tried messages w (ok o, w') (g, k) =
        (λ o' c h. g o' (settle-some (ok o) o' c h), (k.0, omega arith))
    after_first-Tried messages w (err e, w') (g, k) = elim (Bool-cases (repairable e)) [
      | inr f ↦
          subst (Tried 2 w) (sym (after_first_fatal messages e w' f))
            (λ o c h. absurd (settle-err e o c h), (k.0, omega arith))
      | inl t ↦
          let next = messages ++ (human (d.repair_text e) ∷ []) in
          let (g', k') = attempt-Good next w' in
          rw t (
            λ o c h. g' o (settle-some (attempt d section items next w').0 o c h),
            Keeps-trans 1 1 w w' (attempt d section items next w').1 k k',
          )
    ]

    pub try_twice-Tried :
        (messages : List Message) (w : World) → Tried 2 w (try_twice d section items messages w)
    unfolding try_twice
    try_twice-Tried messages w =
        after_first-Tried messages w (attempt d section items messages w) (attempt-Good messages w)
