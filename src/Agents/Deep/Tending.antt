-- ===== src/Agents/Deep/Tending.antt =====
-- Deep research changes the row of its own run alone.
use surveyforge.Base.{
  ◌≡◌, refl, inl, inr, ℕ, suc, ◌&&◌, Bool-cases, Option-cases, String, any, Option, List, [], ◌∷◌,
  Dict, lookup, starts_with,
}
use surveyforge.Roles.{researcher_deep}
use surveyforge.Runtime.Errors.{Exc, Result, ok, err}
use surveyforge.Runtime.Json.{Json, Fields}
use surveyforge.Runtime.World.{World, EvidenceItem, Exec, run_exists}
use surveyforge.Runtime.Evidence.{save, has_id}
use surveyforge.Runtime.Runs.Tending.{Tends, Tends-trans, Tending, continue-Tends, same-Tends}
use surveyforge.Runtime.Gateway.{ToolGateway, ToolResult, new_gateway, call}
use surveyforge.Runtime.Gateway.Quiet.{
  only_runs, Quiet, AllQuiet, register-AllQuiet, call-ToolsOnly,
}
use surveyforge.Schemas.Research.{EvidenceCard}
use surveyforge.Agents.Deep.Fetch.{
  Fetched, register_lookups, read_result, is_fallbackable, add_abstract, via_s2, via_arxiv,
  or_s2_error, fall_back, fetch_abstract, fetched, fetch_all,
}
use surveyforge.Agents.Deep.Store.{
  Schema, make_item, after_save, write_impl, write_policy, register_write, card_fits, card_args,
  write_cards,
}
use surveyforge.Agents.Deep.{Deps, gateway}

-- The lookup tools leave the table of runs alone.
abbrev pub QuietLookups : Deps → Type 0
QuietLookups d = Quiet only_runs d.lookups.s2_impl × Quiet only_runs d.lookups.arxiv_impl

after_save-runs :
    (i : EvidenceItem) (w : World) (r : Result (Unit {0}) × World)
    → r.1.db.runs ≡ w.db.runs
    → (after_save i r).1.db.runs ≡ w.db.runs
unfolding after_save
after_save-runs i w (err e, w') h = h
after_save-runs i w (ok u, w') h = h

save-runs : (i : EvidenceItem) (w : World) → (save i w).1.db.runs ≡ w.db.runs
unfolding save
save-runs i w = elim (Bool-cases (any (has_id i.evidence_id) w.db.evidence_items)) [
  | inl t ↦ rw t refl
  | inr f ↦ elim (Bool-cases (run_exists i.run_id w.db)) [
    | inl known ↦ rw (f, save) (rw (known, save) refl)
    | inr unknown ↦ rw (f, save) (rw (unknown, save) refl)
  ]
]

write_impl-Quiet : (s : Schema) → Quiet only_runs (write_impl s)
unfolding write_impl
write_impl-Quiet s args w = elim (Option-cases (make_item s args)) [
  | inl e ↦ rw (e, write_impl) refl
  | inr (i, e) ↦ rw (e, write_impl) (after_save-runs i w (save i w) (save-runs i w))
]

module _ (d : Deps) (k : String) where
  pub gateway-AllQuiet :
      (run_id sid : String) → QuietLookups d → AllQuiet only_runs (gateway d run_id sid)
  unfolding register_write register_lookups lookup
  gateway-AllQuiet run_id sid (s2, arxiv) =
      register-AllQuiet only_runs (write_policy d.schema) (write_impl d.schema) _
        (write_impl-Quiet d.schema)
        (register-AllQuiet only_runs d.lookups.arxiv_policy d.lookups.arxiv_impl _ arxiv (
          register-AllQuiet only_runs d.lookups.s2_policy d.lookups.s2_impl (new_gateway run_id) s2
            (λ name impl h. absurd (cc))))

  module _ (gw : ToolGateway) (quiet : AllQuiet only_runs gw) where
    call-Tending :
        (name : String) (args : Fields) → Tending k (call d.externals gw researcher_deep name args)
    call-Tending name args w =
        same-Tends k w (call d.externals gw researcher_deep name args w).1
          (call-ToolsOnly only_runs d.externals gw researcher_deep name args w quiet)

    read_result-Tends :
        (read : Json → Option (Option (Option String))) (w : World) (r : Result ToolResult × World)
        → Tends k w r.1
        → Tends k w (read_result read r).1
    unfolding read_result
    read_result-Tends read w (err e, w') h = h
    read_result-Tends read w (ok r, w') h = h

    or_s2_error-Tends :
        (e : Exc) (w : World) (r : Result (Option String) × World)
        → Tends k w r.1
        → Tends k w (or_s2_error d.externals d.lookups gw e r).1
    unfolding or_s2_error
    or_s2_error-Tends e w (ok a, w') h = h
    or_s2_error-Tends e w (err e', w') h = h

    fall_back-Tends :
        (pid : String) (w : World) (r : Result (Option String) × World)
        → Tends k w r.1
        → Tends k w (fall_back d.externals d.lookups gw pid r).1
    unfolding fall_back via_arxiv
    fall_back-Tends pid w (ok a, w') h = h
    fall_back-Tends pid w (err e, w') h =
        elim (Bool-cases (is_fallbackable e && starts_with pid "arxiv:")) [
          | inr f ↦ rw f h
          | inl t ↦ rw t (
              Tends-trans k w w'
                (or_s2_error d.externals d.lookups gw e
                  (via_arxiv d.externals d.lookups gw pid w')).1
                h
                (or_s2_error-Tends e w' (via_arxiv d.externals d.lookups gw pid w')
                  (read_result-Tends d.lookups.arxiv_read w' _ (call-Tending "arxiv_lookup" _ w'))))
        ]

    fetch_abstract-Tending :
        (pid : String) → Tending k (fetch_abstract d.externals d.lookups gw pid)
    unfolding fetch_abstract via_s2
    fetch_abstract-Tending pid w = elim (Bool-cases (starts_with pid "web:")) [
      | inl t ↦ rw t (same-Tends k w w refl)
      | inr f ↦ rw f (
          fall_back-Tends pid w (via_s2 d.externals d.lookups gw pid w)
            (read_result-Tends d.lookups.s2_read w _ (call-Tending "s2_lookup" _ w)))
    ]

    fetched-Tends :
        (pid : String) (abstracts : Dict String) (next : Dict String → Exec Fetched) (w : World)
        (r : Result (Option String) × World)
        → ((found : Dict String) → Tending k (next found))
        → Tends k w r.1
        → Tends k w (fetched d.externals d.lookups gw pid abstracts next r).1
    unfolding fetched
    fetched-Tends pid abstracts next w (err e, w') rest h = h
    fetched-Tends pid abstracts next w (ok a, w') rest h =
        let found = add_abstract pid a abstracts in
        Tends-trans k w w' (next found w').1 h (rest found w')

    pub fetch_all-Tending :
        (pids : List String) (abstracts : Dict String)
        → Tending k (fetch_all d.externals d.lookups gw pids abstracts)
    unfolding fetch_all
    fetch_all-Tending [] abstracts w = same-Tends k w w refl
    fetch_all-Tending (pid ∷ pids) abstracts w =
        fetched-Tends pid abstracts (fetch_all d.externals d.lookups gw pids) w
          (fetch_abstract d.externals d.lookups gw pid w) (λ found. fetch_all-Tending pids found)
          (fetch_abstract-Tending pid w)

    pub write_cards-Tending :
        (run_id sid : String) (inputs : List String) (n : ℕ) (cards : List EvidenceCard)
        → Tending k (write_cards d.externals d.schema gw run_id sid inputs n cards)
    unfolding write_cards
    write_cards-Tending run_id sid inputs n [] w = same-Tends k w w refl
    write_cards-Tending run_id sid inputs n (card ∷ cards) w =
        elim (Bool-cases (card_fits d.externals d.schema gw run_id sid inputs card)) [
          | inr f ↦ rw (f, write_cards) (write_cards-Tending run_id sid inputs n cards w)
          | inl t ↦
              rw (t, write_cards)
                (continue-Tends k w
                  (call d.externals gw researcher_deep "evidence_store_write"
                    (card_args d.externals d.schema gw run_id sid n card) w)
                  _ (call-Tending "evidence_store_write" _ w)
                  (λ r w'. write_cards-Tending run_id sid inputs (suc n) cards w'))
        ]
