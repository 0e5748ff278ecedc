-- ===== src/Agents/Wide/React/Turns.antt =====
-- How the loop over turns ends, and how often it calls the model.
use surveyforge.Base.{
  ◌≡◌, refl, subst, ap, ◌⊎◌, inl, inr, ℕ, zero, suc, ◌+◌, true, String, ◌==◌, eq_iff, none, some,
  Option-cases, Bool-cases, List, [], ◌∷◌, arith, lookup, if◌then◌else◌,
}
use surveyforge.Roles.{researcher_wide}
use surveyforge.Runtime.Errors.{Result, Result-cases, ok, err}
use surveyforge.Runtime.Json.{Json}
use surveyforge.Runtime.World.{World, Exec, ◌>>=◌}
use surveyforge.Runtime.Runs.Tending.{same-Tends}
use surveyforge.Runtime.World.Ends.{
  Anything, Unmoved-Within, stay-Within, Within, Ends, Ends-ok, Ends-after, Ends-more,
  Ends-transaction, Ends-bind,
}
use surveyforge.Runtime.Budget.{BudgetSpec, check, check_keeps, record_usage}
use surveyforge.Runtime.Gateway.{ToolResult, new_gateway, call}
use surveyforge.Runtime.Gateway.Quiet.{
  everything, Quiet, AllQuiet, register-AllQuiet, call-ToolsOnly,
}
use surveyforge.Schemas.Planner.{PlannerSection}
use surveyforge.Schemas.Research.{ResearcherWideOutput, wide_output_valid}
use surveyforge.Llm.Model.{invoke, Response, ToolRequest, ai}
use surveyforge.Agents.Wide.React.{
  Deps, Talk, Outcome, say, submit_tool, echo, submit_policy, register_wide_tools,
  paper_ids_of_result, read_output, on_submit, after_tool, on_tool, calls_loop, from_content,
  count_usage, note_usage, after_answer, after_check, one_turn, turns, react_one_section, forced,
  captured, fields_of, max_turns,
}

-- An outcome has a valid output of this section and no error, or an error and no output.
abbrev pub Settled : PlannerSection → Outcome → Type 0
Settled section out =
    ((o : ResearcherWideOutput) × (out.output ≡ some o)
      × (out.error_category ≡ none)
      × (wide_output_valid o ≡ true)
      × (o.section_id ≡ section.section_id))
    ⊎ ((out.output ≡ none)
        × ((out.error_category ≡ some "schema_invalid")
            ⊎ (out.error_category ≡ some "context_overflow")))

-- What the loop passes on: a settled outcome, or the talk so far.
abbrev SettledOrTalk : PlannerSection → Outcome ⊎ Talk → Type 0
SettledOrTalk section (inl out) = Settled section out
SettledOrTalk section (inr talk) = Unit

-- The search tools touch neither runs nor evidence nor the model.
abbrev pub QuietTools : Deps → Type 0
QuietTools d =
    Quiet everything d.arxiv_impl × Quiet everything d.s2_impl × Quiet everything d.web_impl

module _ (d : Deps) (run_id : String) (section : PlannerSection) where
  read_output-valid :
      (v : Json) (o : ResearcherWideOutput)
      → read_output d run_id section v ≡ some o
      → wide_output_valid o ≡ true
  unfolding read_output
  read_output-valid v o h = elim (Option-cases (d.decode v)) [
    | inl e ↦ absurd (ground arith)
    | inr (p, e) ↦ elim (Bool-cases (wide_output_valid p)) [
      | inr f ↦ absurd (ground arith)
      | inl t ↦ let same : p ≡ o = ground arith in subst (λ q. wide_output_valid q ≡ true) same t
    ]
  ]

  on_submit-SettledOrTalk :
      (tc : ToolRequest) (talk : Talk) → SettledOrTalk section (on_submit d run_id section tc talk)
  unfolding on_submit
  on_submit-SettledOrTalk tc talk = elim (Option-cases (read_output d run_id section tc.args)) [
    | inl e ↦ rw (e, on_submit) tt
    | inr (o, e) ↦ elim (Bool-cases (o.section_id == section.section_id)) [
      | inl t ↦
          rw (e, on_submit)
            (rw t (
              inl (
                o,
                refl,
                refl,
                read_output-valid tc.args o e,
                (eq_iff o.section_id section.section_id).0 t,
              )))
      | inr f ↦ rw (e, on_submit) (rw f (tt))
    ]
  ]

  from_content-Settled :
      (resp : Response) (talk : Talk) → Settled section (from_content d run_id section resp talk)
  unfolding from_content
  from_content-Settled resp talk =
      elim (Option-cases (if resp.content == "" then none else d.loads resp.content)) [
        | inl e ↦ rw (e, from_content) (inr (refl, inr refl))
        | inr (v, e) ↦ elim (Option-cases (read_output d run_id section v)) [
          | inl f ↦ rw (e, from_content) (rw (f, from_content) (inr (refl, inr refl)))
          | inr (o, f) ↦ elim (Bool-cases (o.section_id == section.section_id)) [
            | inl t ↦
                rw (e, from_content)
                  (rw (f, from_content)
                    (rw t (
                      inl (
                        o,
                        refl,
                        refl,
                        read_output-valid v o f,
                        (eq_iff o.section_id section.section_id).0 t,
                      ))))
            | inr g ↦ rw (e, from_content) (rw (f, from_content) (rw g (inr (refl, inl refl))))
          ]
        ]
      ]

  registered-AllQuiet :
      QuietTools d → AllQuiet everything (register_wide_tools d (new_gateway run_id))
  unfolding register_wide_tools lookup
  registered-AllQuiet (a, s, w) =
      register-AllQuiet everything submit_policy echo _ (λ args u. refl)
        (register-AllQuiet everything d.web_policy d.web_impl _ w (
          register-AllQuiet everything d.s2_policy d.s2_impl _ s (
            register-AllQuiet everything d.arxiv_policy d.arxiv_impl (new_gateway run_id) a
              (λ name impl h. absurd (cc)))))

  after_tool-Ends :
      (turn : ℕ) (tc : ToolRequest) (talk : Talk) (w : World)
      (r : Result (Result ToolResult) × World)
      → Within run_id 0 w r.1
      → Ends run_id Anything 0 w (after_tool d run_id section turn tc talk r)
  unfolding after_tool
  after_tool-Ends turn tc talk w (err e, w') k = (λ a h. tt, k)
  after_tool-Ends turn tc talk w (ok (err e), w') k = (λ a h. tt, k)
  after_tool-Ends turn tc talk w (ok (ok r), w') k =
      elim (Result-cases (paper_ids_of_result tc.name r.output)) [
        | inl (ids, e) ↦ rw (e, after_tool) (λ a h. tt, k)
        | inr (x, e) ↦ rw (e, after_tool) (λ a h. tt, k)
      ]

  on_tool-Ends :
      (turn : ℕ) (tc : ToolRequest) (talk : Talk) (w : World)
      → QuietTools d
      → Ends run_id Anything 0 w (on_tool d run_id section turn tc talk w)
  unfolding on_tool
  on_tool-Ends turn tc talk w quiet =
      let gw = register_wide_tools d (new_gateway run_id) in
      let now : World = record w { now = w.clock } in
      let same =
        call-ToolsOnly everything d.externals gw researcher_wide tc.name (fields_of tc.args) now
          (registered-AllQuiet quiet) in
      after_tool-Ends turn tc talk w _
        (Ends-transaction run_id Anything 0
          (captured (call d.externals gw researcher_wide tc.name (fields_of tc.args))) w
          (
            λ r h. tt,
            Unmoved-Within run_id 0 now
                (call d.externals gw researcher_wide tc.name (fields_of tc.args) now).1
                (ap (λ t. t.1) same, ap (λ t. t.2) same, ap (λ t. t.0) same),
          )).1

  calls_loop-Ends :
      (turn : ℕ) (tcs : List ToolRequest) (talk : Talk) (w : World)
      → QuietTools d
      → Ends run_id (SettledOrTalk section) 0 w (calls_loop d run_id section turn tcs talk w)
  unfolding calls_loop
  calls_loop-Ends turn [] talk w quiet = Ends-ok run_id (SettledOrTalk section) (inr talk) 0 w tt
  calls_loop-Ends turn (tc ∷ tcs) talk w quiet = elim (Bool-cases (tc.name == submit_tool)) [
    | inr f ↦
        rw (f, calls_loop)
          (Ends-bind run_id Anything (SettledOrTalk section) 0 0 w
            (on_tool d run_id section turn tc talk w) _ (on_tool-Ends turn tc talk w quiet)
            (λ talk' w' u. calls_loop-Ends turn tcs talk' w' quiet))
    | inl t ↦
        rw (t, calls_loop)
          (submitted (on_submit d run_id section tc talk) (on_submit-SettledOrTalk tc talk)
            (λ talk'. calls_loop-Ends turn tcs talk' w quiet))
  ]
    where
      submitted :
          (s : Outcome ⊎ Talk)
          → SettledOrTalk section s
          → ((talk' : Talk)
              → Ends run_id
                  (SettledOrTalk section)
                  0
                  w
                  (calls_loop d run_id section turn tcs talk' w))
          → Ends run_id (SettledOrTalk section) 0 w (
              (elim s as (λ x. Exec (Outcome ⊎ Talk)) [
                | inl o ↦ λ w. (ok (inl o), w)
                | inr talk' ↦ calls_loop d run_id section turn tcs talk'
              ])
                w)
      submitted (inl o) good ih = Ends-ok run_id (SettledOrTalk section) (inl o) 0 w good
      submitted (inr talk') good ih = ih talk'

  note_usage-Within :
      (resp : Response) (w : World) → Within run_id 0 w (note_usage d run_id section resp w)
  unfolding record_usage
  note_usage-Within resp w = elim (Option-cases resp.usage_metadata) [
    | inl e ↦ rw e (stay-Within run_id 0 w)
    | inr (u, e) ↦
        rw e (Unmoved-Within run_id 0 w (record_usage researcher_wide u.0 u.1 w) (refl, refl, refl))
  ]

  after_answer-Ends :
      (turn : ℕ) (talk : Talk) (resp : Response) (w : World)
      → QuietTools d
      → Ends run_id (SettledOrTalk section) 0 w (after_answer d run_id section turn talk resp w)
  unfolding after_answer
  after_answer-Ends turn talk resp w quiet =
      Ends-after run_id (SettledOrTalk section) 0 w (note_usage d run_id section resp w)
        (after_answer d run_id section turn talk resp w) (note_usage-Within resp w)
        (answered resp.tool_calls (count_usage d run_id section resp talk))
    where
      answered :
          (tcs : List ToolRequest) (u : Talk)
          → Ends run_id
              (SettledOrTalk section)
              0
              (note_usage d run_id section resp w)
              (elim tcs as (λ x. Result (Outcome ⊎ Talk) × World) [
                | [] ↦ (
                  ok (inl (from_content d run_id section resp (say (ai resp) u))),
                  note_usage d run_id section resp w,
                )
                | tc ∷ tcs ↦
                    calls_loop d run_id section turn
                      (tc ∷ tcs)
                      (say (ai resp) u)
                      (note_usage d run_id section resp w)
              ])
      answered [] u =
          Ends-ok run_id (SettledOrTalk section)
            (inl (from_content d run_id section resp (say (ai resp) u))) 0
            (note_usage d run_id section resp w) (from_content-Settled resp (say (ai resp) u))
      answered (tc ∷ tcs) u =
          calls_loop-Ends turn (tc ∷ tcs) (say (ai resp) u) (note_usage d run_id section resp w)
            quiet

  asked-Ends :
      (turn : ℕ) (talk : Talk) (w : World)
      → QuietTools d
      → Ends run_id
          (SettledOrTalk section)
          1
          w
          ((invoke d.llm talk.messages >>= after_answer d run_id section turn talk) w)
  unfolding invoke
  asked-Ends turn talk w quiet =
      Ends-bind run_id Anything (SettledOrTalk section) 1 0 w (invoke d.llm talk.messages w)
        (after_answer d run_id section turn talk)
        (λ a h. tt, (refl, omega arith, same-Tends run_id w (invoke d.llm talk.messages w).1 refl))
        (λ resp w' u. after_answer-Ends turn talk resp w' quiet)

  after_check-Ends :
      (turn : ℕ) (talk : Talk) (w : World) (r : Result BudgetSpec × World)
      → QuietTools d
      → Within run_id 0 w r.1
      → Ends run_id (SettledOrTalk section) 1 w (after_check d run_id section turn talk r)
  unfolding after_check
  after_check-Ends turn talk w (err e, w') quiet k =
      Ends-after run_id (SettledOrTalk section) 1 w w'
        (after_check d run_id section turn talk (err e, w')) k
        (Ends-ok run_id (SettledOrTalk section) (inl (forced "context_overflow" talk.seen)) 1 w'
          (inr (refl, inr refl)))
  after_check-Ends turn talk w (ok spec, w') quiet k =
      Ends-after run_id (SettledOrTalk section) 1 w w'
        (after_check d run_id section turn talk (ok spec, w')) k (asked-Ends turn talk w' quiet)

  one_turn-Ends :
      (turn : ℕ) (talk : Talk) (w : World)
      → QuietTools d
      → Ends run_id (SettledOrTalk section) 1 w (one_turn d run_id section turn talk w)
  unfolding one_turn
  one_turn-Ends turn talk w quiet =
      let (same, calls) = check_keeps researcher_wide talk.total_input_tokens w in
      after_check-Ends turn talk w (check researcher_wide talk.total_input_tokens w) quiet (
        Unmoved-Within run_id 0 w (check researcher_wide talk.total_input_tokens w).1
          (ap (λ db. db.evidence_items) same, calls, ap (λ db. db.runs) same))

  turns-Ends :
      (left turn : ℕ) (talk : Talk) (w : World)
      → QuietTools d
      → Ends run_id (Settled section) left w (turns d run_id section left turn talk w)
  unfolding turns
  turns-Ends zero turn talk w quiet = elim (Bool-cases talk.had_mismatch) [
    | inl t ↦ rw t (
        Ends-ok run_id (Settled section) (forced "schema_invalid" talk.seen) 0 w
          (inr (refl, inl refl)))
    | inr f ↦ rw f (
        Ends-ok run_id (Settled section) (forced "context_overflow" talk.seen) 0 w
          (inr (refl, inr refl)))
  ]
  turns-Ends (suc left) turn talk w quiet =
      Ends-more run_id (Settled section) (1 + left) (suc left) w
        (turns d run_id section (suc left) turn talk w) (omega arith)
        (Ends-bind run_id (SettledOrTalk section) (Settled section) 1 left w
          (one_turn d run_id section turn talk w) _ (one_turn-Ends turn talk w quiet)
          (turned (λ talk' w'. turns-Ends left (suc turn) talk' w' quiet)))
    where
      turned :
          ((talk' : Talk) (w' : World)
            → Ends run_id
                (Settled section)
                left
                w'
                (turns d run_id section left (suc turn) talk' w'))
          → (s : Outcome ⊎ Talk) (w' : World) → SettledOrTalk section s
          → Ends run_id (Settled section) left w' (
              (elim s as (λ x. Exec Outcome) [
                | inl o ↦ λ w. (ok o, w)
                | inr talk' ↦ turns d run_id section left (suc turn) talk'
              ])
                w')
      turned ih (inl o) w' good = Ends-ok run_id (Settled section) o left w' good
      turned ih (inr talk') w' good = ih talk' w'

  pub react_one_section-Ends :
      (message : String) (w : World)
      → QuietTools d
      → Ends run_id (Settled section) max_turns w (react_one_section d run_id section message w)
  unfolding react_one_section
  react_one_section-Ends message w quiet = turns-Ends max_turns 1 _ w quiet

-- Where the search tools touch neither runs nor evidence nor the model: the loop over the turns of a
-- section, where it returns, has an output that is valid and of this section and no error, or no
-- output and the error `schema_invalid` or `context_overflow`.
pub react_one_section-Settled :
    (d : Deps) (run_id : String) (section : PlannerSection) (message : String) (w : World)
    (out : Outcome)
    → QuietTools d
    → (react_one_section d run_id section message w).0 ≡ ok out
    → Settled section out
react_one_section-Settled d run_id section message w out quiet h =
    (react_one_section-Ends d run_id section message w quiet).0 out h
