-- ===== src/Synthesis/Node/Budgeted.antt =====
-- The items that go into a prompt of the synthesizer, and its budget.
use surveyforge.Base.{
  ◌≡◌, refl, ◌⊎◌, inl, inr, ℕ, ◌≤◌, ◌<◌, ◌+◌, sym, arith, ltb, Bool-cases, ltb→lt, Option, none,
  some, List, [], ◌∷◌, String, ap, ◌∙◌,
}
use surveyforge.Roles.{synthesizer}
use surveyforge.Runtime.Errors.{Result, err, budget_exceeded, OverflowFallback}
use surveyforge.Runtime.World.{World, EvidenceItem}
use surveyforge.Runtime.Budget.{
  BudgetSpec, check, check_within, check_over, check_keeps, budget_per_role,
}
use surveyforge.Schemas.Planner.{PlannerSection}
use surveyforge.Synthesis.Tokens.{estimate_tokens, packed_total_tokens}
use surveyforge.Synthesis.Rerank.{top_k_rerank}
use surveyforge.Synthesis.Rerank.Packing.{top_k_rerank_lem}
use surveyforge.Synthesis.Node.{Deps, prepare, after_check, rerank, recheck}

-- The tables are as they were, and the model was called `n` times at most.
abbrev pub Keeps : ℕ → World → World → Type 0
Keeps n w w' = (w'.db ≡ w.db) × (w'.llm_calls ≤ w.llm_calls + n)

abbrev pub budget : ℕ
budget = 96_000

module _ (d : Deps) (base : ℕ) (items : List EvidenceItem) where
  abbrev pub Selection : List EvidenceItem × List String → Type 0
  Selection out =
      (packed_total_tokens d.show_conf out.0 base ≤ budget)
      × (((out.0 ≡ items) × (out.1 ≡ []))
          ⊎ ((budget < packed_total_tokens d.show_conf items base)
              × (out ≡ top_k_rerank d.show_conf base budget items)))

  abbrev pub Prepared : Option (List EvidenceItem × List String) → Type 0
  Prepared none =
      (budget < packed_total_tokens d.show_conf items base)
      × ((top_k_rerank d.show_conf base budget items).0 ≡ [])
  Prepared (some out) = Selection out

  rerank_lem :
      (out : List EvidenceItem × List String) (w : World)
      → out ≡ top_k_rerank d.show_conf base budget items
      → budget < packed_total_tokens d.show_conf items base
      → (packed_total_tokens d.show_conf out.0 base ≤ budget) ⊎ (out.0 ≡ [])
      → Prepared (rerank d out base w).0 × Keeps 0 w (rerank d out base w).1
  unfolding rerank recheck budget_per_role
  rerank_lem ([], dropped) w e over h = ((over, sym (ap (λ o. o.0) e)), (refl, omega arith))
  rerank_lem (i ∷ sel, dropped) w e over (inr h) = absurd (cc)
  rerank_lem (i ∷ sel, dropped) w e over (inl h) =
      rw (check_within synthesizer (packed_total_tokens d.show_conf (i ∷ sel) base) w h)
        ((h, inr (over, e)), (refl, omega arith))

  after_check_over :
      (r : Result BudgetSpec × World) (projected : ℕ) (f : OverflowFallback)
      → r.0 ≡ err (budget_exceeded synthesizer projected budget f)
      → after_check d items base r ≡ rerank d (top_k_rerank d.show_conf base budget items) base r.1
  unfolding after_check
  after_check_over (r, w) projected f e = rw (e) (refl)

prepare-Keeps :
    (a b c : World) → (b.db ≡ a.db) × (b.llm_calls ≡ a.llm_calls) → Keeps 0 b c → Keeps 0 a c
prepare-Keeps a b c (e, n) (f, m) = (f ∙ e, omega arith)

-- The items that go into the prompt fit the synthesizer's budget, and are all the items with
-- nothing dropped, or, where all are too many, what reranking keeps and drops; a section gets no
-- prompt only where all are too many and reranking keeps nothing. The check changes no table and
-- does not call the model.
pub prepare_lem :
    (d : Deps) (section : PlannerSection) (items : List EvidenceItem) (w : World)
    → Prepared d (estimate_tokens (d.template section)) items (prepare d section items w).0
      × Keeps 0 w (prepare d section items w).1
unfolding prepare after_check budget_per_role
prepare_lem d section items w =
    let base = estimate_tokens (d.template section) in
    let projected = packed_total_tokens d.show_conf items base in
    elim (Bool-cases (ltb budget projected)) [
      | inl over ↦
          let o = ltb→lt budget projected over in
          let out = top_k_rerank d.show_conf base budget items in
          let w' = (check synthesizer projected w).1 in
          let e =
            after_check_over d base items (check synthesizer projected w) projected _
              (check_over synthesizer projected w o) in
          let h =
            rerank_lem d base items out w' refl o
              (top_k_rerank_lem d.show_conf base budget items).1 in
          rw e (
            h.0,
            prepare-Keeps w w' (rerank d out base w').1 (check_keeps synthesizer projected w) h.1,
          )
      | inr within ↦
          rw (check_within synthesizer projected w (ground arith))
            ((ground arith, inl (refl, refl)), (refl, omega arith))
    ]
