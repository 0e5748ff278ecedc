-- ===== src/Agents/Deep/Sections.antt =====
-- Which papers one section of the deep researcher's loop completes.
use surveyforge.Base.{
  ◌≡◌, refl, ◌⊎◌, inl, inr, subst, arith, Bool-cases, Option-cases, Option, none, some, List, [],
  ◌∷◌, String, true, eq_iff, eq_refl, Dict, lookup, insert, keys, In, contains, contains-append,
  Subset, same_set_iff,
}
use surveyforge.Runtime.Errors.{Result, ok, err, Exc, validation_error, classify_exception}
use surveyforge.Runtime.Json.{Json}
use surveyforge.Runtime.World.{World, transaction, commit_or_rollback}
use surveyforge.Runtime.Budget.{BudgetSpec}
use surveyforge.Runtime.Gateway.{ToolGateway}
use surveyforge.Schemas.Planner.{PlannerSection}
use surveyforge.Schemas.Research.{ResearcherDeepOutput, deep_output_valid}
use surveyforge.Llm.Model.{human}
use surveyforge.Llm.Structured.{structured_call}
use surveyforge.Agents.Deep.Fetch.{Fetched, fetch_all, fetched, add_abstract}
use surveyforge.Agents.Deep.{
  Deps, Progress, output_accepted, classify_or_raise, refused, call_failed, after_write,
  store_output, after_call, after_budget, after_fetch, section_step,
}

keys-insert :
    (k j : String) (v : String) (d : Dict String) → In j (keys (insert k v d)) → In j (k ∷ keys d)
unfolding keys insert contains
keys-insert k j v [] h = h
keys-insert k j v ((i, w) ∷ d) h =
    ground (arith, eq_iff i k, eq_iff j i, eq_iff j k, keys-insert k j v d)

module _ (d : Deps) where
  -- What the structured call gives for some message, at some time.
  abbrev pub Answers : Json → Type 0
  Answers v =
      (message : String) × (w : World) × ((structured_call d.parsers d.llm d.validate
          "researcher_deep_output" d.supports_fc (human message ∷ []) 2 w).0
        ≡ ok v)

  -- A valid answer of the model for the section names the paper as processed, and the paper is one
  -- of the section's.
  abbrev pub Completed : String → String × List String → Type 0
  Completed pid (sid, papers) =
      (v : Json) × (o : ResearcherDeepOutput) × Answers v
      × (d.decode v ≡ some o)
      × (deep_output_valid o ≡ true)
      × (o.section_id ≡ sid)
      × In pid o.paper_ids_processed
      × In pid papers

  abbrev pub FromGroup : String × List String → Progress → Progress → Type 0
  FromGroup group pr pr' =
      (pid : String) → In pid pr'.processed → In pid pr.processed ⊎ Completed pid group

  abbrev pub Finishes : String × List String → Progress → Result Progress → Type 0
  Finishes group pr r = (pr' : Progress) → r ≡ ok pr' → FromGroup group pr pr'

  same_processed :
      (group : String × List String) (pr pr' : Progress)
      → pr'.processed ≡ pr.processed
      → FromGroup group pr pr'
  same_processed group pr pr' e pid h = inl (rw (← e) h)

  classify_or_raise-Finishes :
      (group : String × List String) (e : Exc) (pr : Progress)
      → Finishes group pr (classify_or_raise e pr)
  unfolding classify_or_raise
  classify_or_raise-Finishes group e pr pr' h = elim (Option-cases (classify_exception e)) [
    | inl n ↦ absurd (ground arith)
    | inr (c, m) ↦ same_processed group pr pr' (ground arith)
  ]

  call_failed-Finishes :
      (group : String × List String) (e : Exc) (pr : Progress)
      → Finishes group pr (call_failed e pr)
  unfolding call_failed
  call_failed-Finishes group e pr pr' h = elim (Bool-cases (refused e)) [
    | inl t ↦ same_processed group pr pr' (ground arith)
    | inr f ↦ classify_or_raise-Finishes group e pr pr' (ground arith)
  ]

  module _ (run_id sid : String) (papers : List String) where
    abbrev pub Ends : Progress → Result Progress × World → Type 0
    Ends pr r = Finishes (sid, papers) pr r.0

    after_write-Ends :
        (pr pr1 : Progress) (r : Result (Unit {0}) × World)
        → FromGroup (sid, papers) pr pr1
        → Ends pr (after_write d run_id sid pr1 r)
    unfolding after_write
    after_write-Ends pr pr1 (ok u, w) h pr' e =
        let same : pr1 ≡ pr' = ground arith in subst (FromGroup (sid, papers) pr) same h
    after_write-Ends pr pr1 (err x, w) h pr' e = absurd (cc)

    output_accepted_lem :
        (inputs : List String) (o : ResearcherDeepOutput)
        → output_accepted sid inputs o ≡ true
        → (o.section_id ≡ sid) × Subset inputs o.paper_ids_processed
    unfolding output_accepted
    output_accepted_lem inputs o h = (
      ground (arith, eq_iff o.section_id sid),
      ((same_set_iff o.paper_ids_processed inputs).0 (ground arith)).1,
    )

    store_output-Ends :
        (inputs : List String) (o : ResearcherDeepOutput) (pr : Progress) (w : World)
        → (v : Json) → Answers v
        → d.decode v ≡ some o
        → deep_output_valid o ≡ true
        → Subset inputs papers
        → Ends pr (store_output d run_id sid inputs o pr w)
    unfolding store_output
    store_output-Ends inputs o pr w v answered decoded valid sub =
        elim (Bool-cases (output_accepted sid inputs o)) [
          | inr f ↦ rw f (λ pr' e. same_processed _ pr pr' (ground arith))
          | inl t ↦ rw t (
              after_write-Ends pr _ _ λ pid h. elim (Bool-cases (contains inputs pid)) [
                | inl here ↦ inr (
                  v,
                  o,
                  answered,
                  decoded,
                  valid,
                  (output_accepted_lem inputs o t).0,
                  (output_accepted_lem inputs o t).1 pid here,
                  sub pid here,
                )
                | inr other ↦ inl (ground (arith, contains-append inputs pr.processed pid))
              ])
        ]

    after_call-Ends :
        (inputs : List String) (pr : Progress) (r : Result Json × World)
        → ((v : Json) → r.0 ≡ ok v → Answers v)
        → Subset inputs papers
        → Ends pr (after_call d run_id sid inputs pr r)
    unfolding after_call
    after_call-Ends inputs pr (err e, w) from sub = call_failed-Finishes _ e pr
    after_call-Ends inputs pr (ok v, w) from sub = elim (Option-cases (d.decode v)) [
      | inl n ↦ rw (n, after_call) (call_failed-Finishes _ validation_error pr)
      | inr (o, s) ↦ elim (Bool-cases (deep_output_valid o)) [
        | inl t ↦
            rw (s, after_call) (rw t (store_output-Ends inputs o pr w v (from v refl) s t sub))
        | inr f ↦ rw (s, after_call) (rw f (call_failed-Finishes _ validation_error pr))
      ]
    ]

    after_budget-Ends :
        (message : String) (inputs : List String) (pr : Progress) (r : Result BudgetSpec × World)
        → Subset inputs papers
        → Ends pr (after_budget d run_id sid message inputs pr r)
    unfolding after_budget
    after_budget-Ends message inputs pr (err e, w) sub pr' h =
        same_processed _ pr pr' (ground arith)
    after_budget-Ends message inputs pr (ok spec, w) sub pr' h =
        after_call-Ends inputs pr _ (λ v e. (message, w, e)) sub pr' h

    -- The abstracts that were fetched are of the section's papers.
    abbrev Fetches : Result Fetched → Type 0
    Fetches r = (f : Fetched) → r ≡ ok f → Subset (keys f.0) papers

    after_fetch-Ends :
        (section : PlannerSection) (pr : Progress) (r : Result Fetched × World)
        → Fetches r.0
        → Ends pr (after_fetch d run_id sid section pr r)
    unfolding after_fetch
    after_fetch-Ends section pr (err e, w) sub pr' h = absurd (cc)
    after_fetch-Ends section pr (ok (abstracts, some e), w) sub pr' h =
        classify_or_raise-Finishes _ e pr pr' h
    after_fetch-Ends section pr (ok ([], none), w) sub pr' h =
        same_processed _ pr pr' (ground arith)
    after_fetch-Ends section pr (ok (a ∷ abstracts, none), w) sub pr' h =
        after_budget-Ends _ (keys (a ∷ abstracts)) pr _ (sub (a ∷ abstracts, none) refl) pr' h

    add_abstract-keys :
        (pid : String) (a : Option String) (abstracts : Dict String)
        → In pid papers
        → Subset (keys abstracts) papers
        → Subset (keys (add_abstract pid a abstracts)) papers
    unfolding add_abstract contains
    add_abstract-keys pid none abstracts i sub q h = sub q h
    add_abstract-keys pid (some text) abstracts i sub q h =
        ground (arith, keys-insert pid q text abstracts h, eq_iff q pid, sub q)

    fetched-Fetches :
        (gw : ToolGateway) (pid : String) (pids : List String) (abstracts : Dict String)
        (r : Result (Option String) × World)
        → ((acc : Dict String) (w : World)
            → Subset (keys acc) papers
            → Fetches (fetch_all d.externals d.lookups gw pids acc w).0)
        → In pid papers
        → Subset (keys abstracts) papers
        → Fetches
            (fetched d.externals d.lookups gw pid abstracts
              (fetch_all d.externals d.lookups gw pids)
              r).0
    unfolding fetched
    fetched-Fetches gw pid pids abstracts (err e, w) ih i sub f h =
        subst (λ g. Subset (keys g.0) papers) (show_ok h) sub
      where
        show_ok : {f g : Fetched} → ok f ≡ ok g → f ≡ g
        show_ok e = ground arith
    fetched-Fetches gw pid pids abstracts (ok a, w) ih i sub f h =
        ih (add_abstract pid a abstracts) w (add_abstract-keys pid a abstracts i sub) f h

    fetch_all-Fetches :
        (gw : ToolGateway) (pids : List String) (abstracts : Dict String) (w : World)
        → Subset pids papers
        → Subset (keys abstracts) papers
        → Fetches (fetch_all d.externals d.lookups gw pids abstracts w).0
    unfolding fetch_all contains
    fetch_all-Fetches gw [] abstracts w all sub f h =
        let same : (abstracts, none) ≡ f = ground arith in
        subst (λ g. Subset (keys g.0) papers) same sub
    fetch_all-Fetches gw (pid ∷ pids) abstracts w all sub f h =
        fetched-Fetches gw pid pids abstracts _
          (λ acc w' sub'. fetch_all-Fetches gw pids acc w' (λ q h. all q (ground arith)) sub')
          (all pid (ground (arith, eq_refl pid))) sub f h

    commit-Fetches :
        (w : World) (r : Result Fetched × World)
        → Fetches r.0
        → Fetches (commit_or_rollback w.db r).0
    unfolding commit_or_rollback
    commit-Fetches w (ok f, w') h = h
    commit-Fetches w (err e, w') h = h

    pub section_step-Ends :
        (sections : Dict PlannerSection) (pr : Progress) (w : World)
        → Ends pr (section_step d run_id sid sections papers pr w)
    unfolding section_step transaction keys contains
    section_step-Ends sections pr w = elim (Option-cases (lookup sid sections)) [
      | inl n ↦ rw (n, section_step) (λ pr' h. same_processed _ pr pr' (ground arith))
      | inr (section, s) ↦
          rw (s, section_step)
            (after_fetch-Ends section pr _ (
              commit-Fetches w _ (
                fetch_all-Fetches _ papers [] (record w { now = w.clock }) (λ q h. h) (λ q h. cc))))
    ]
