-- ===== src/Runtime/Budget.antt =====
-- src/litweave/runtime/budget.py: budgets per role, and the totals that a `BudgetManager` keeps. Its
-- `defaultdict` is a function from roles, which starts at zero everywhere.
use surveyforge.Base.{ℕ, ◌+◌, ◌≤◌, ◌<◌, ◌≡◌, arith, ltb, if◌then◌else◌}
use surveyforge.Roles.{
  AgentRole, planner, researcher_wide, researcher_deep, synthesizer, writer, critic_section,
  critic_final, judge_default, judge_final, lite_worker, role_eq,
}
use surveyforge.Runtime.Errors.{
  OverflowFallback, none_fallback, snippet_only, section_batching, top_k_rerank, claim_by_claim,
  aggregate_final, section_batched_fallback, ok, err, budget_exceeded,
}
use surveyforge.Runtime.World.{World, RoleUsage, Exec}

pub record BudgetSpec : Type 0 where
  pub max_input_tokens : ℕ
  pub reserved_output_tokens : ℕ
  pub fallback : OverflowFallback

abbrev spec : ℕ → ℕ → OverflowFallback → BudgetSpec
spec m r f = record { max_input_tokens = m; reserved_output_tokens = r; fallback = f }

unfoldable pub budget_per_role : AgentRole → BudgetSpec
budget_per_role planner = spec 8_000 2_000 none_fallback
budget_per_role researcher_wide = spec 24_000 4_000 snippet_only
budget_per_role researcher_deep = spec 160_000 16_000 section_batching
budget_per_role synthesizer = spec 96_000 16_000 top_k_rerank
budget_per_role writer = spec 160_000 16_000 section_batching
budget_per_role critic_section = spec 96_000 8_000 claim_by_claim
budget_per_role critic_final = spec 160_000 16_000 section_batching
budget_per_role judge_default = spec 220_000 16_000 section_batched_fallback
budget_per_role judge_final = spec 96_000 8_000 aggregate_final
budget_per_role lite_worker = spec 8_000 2_000 none_fallback

-- `self._usage[role] = …`
unfoldable pub set_usage : AgentRole → RoleUsage → World → World
set_usage role u w = record w { usage = λ r. if role_eq role r then u else w.usage r }

unfoldable pub check : AgentRole → ℕ → Exec BudgetSpec
unfolding set_usage
check role projected w =
    let spec = budget_per_role role in
    if ltb spec.max_input_tokens projected
    then (
      err (budget_exceeded role projected spec.max_input_tokens spec.fallback),
      set_usage role (record (w.usage role) { overflow_count = (w.usage role).overflow_count + 1 })
          w,
    )
    else (ok spec, w)

unfoldable pub record_usage : AgentRole → ℕ → ℕ → World → World
unfolding set_usage
record_usage role input output w =
    set_usage role
      (record (w.usage role) {
        actual_input_tokens = (w.usage role).actual_input_tokens + input;
        actual_output_tokens = (w.usage role).actual_output_tokens + output;
      })
      w

abbrev pub get_usage : AgentRole → World → RoleUsage
get_usage role w = w.usage role

module _ (role : AgentRole) (projected : ℕ) (w : World) where
  pub check_within :
      projected ≤ (budget_per_role role).max_input_tokens
      → check role projected w ≡ (ok (budget_per_role role), w)
  unfolding check
  check_within h = ground arith

  pub check_over :
      (budget_per_role role).max_input_tokens < projected
      → (check role projected w).0
        ≡ err (
            budget_exceeded role projected
              (budget_per_role role).max_input_tokens
              (budget_per_role role).fallback)
  unfolding check
  check_over h = ground arith

  -- The tables, the clock and the counts of ids and model calls are not the budget's business.
  pub check_keeps :
      ((check role projected w).1.db ≡ w.db) × ((check role projected w).1.llm_calls ≡ w.llm_calls)
  unfolding check
  check_keeps = ground arith
