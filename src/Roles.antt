-- ===== src/Roles.antt =====
-- src/litweave/llm/roles.py: the ten agent roles. A `StrEnum` is compared by its member.
use surveyforge.Base.{
  ℕ, Bool, true, false, List, [], ◌∷◌, ◌||◌, String, ◌≡◌, refl, arith, eqb, eqb→eq,
}

pub data AgentRole : Type 0 where
  planner researcher_wide researcher_deep synthesizer writer : AgentRole
  critic_section critic_final judge_default judge_final lite_worker : AgentRole

role_index : AgentRole → ℕ
role_index planner = 0
role_index researcher_wide = 1
role_index researcher_deep = 2
role_index synthesizer = 3
role_index writer = 4
role_index critic_section = 5
role_index critic_final = 6
role_index judge_default = 7
role_index judge_final = 8
role_index lite_worker = 9

-- `r == s`
unfoldable pub role_eq : AgentRole → AgentRole → Bool
unfolding role_index
role_eq r s = eqb (role_index r) (role_index s)

role_at : ℕ → AgentRole
role_at n = elim (eqb n 0) [
  | true ↦ planner
  | false ↦ elim (eqb n 1) [
    | true ↦ researcher_wide
    | false ↦ elim (eqb n 2) [
      | true ↦ researcher_deep
      | false ↦ elim (eqb n 3) [
        | true ↦ synthesizer
        | false ↦ elim (eqb n 4) [
          | true ↦ writer
          | false ↦ elim (eqb n 5) [
            | true ↦ critic_section
            | false ↦ elim (eqb n 6) [
              | true ↦ critic_final
              | false ↦ elim (eqb n 7) [
                | true ↦ judge_default
                | false ↦ elim (eqb n 8) [ true ↦ judge_final | false ↦ lite_worker ]
              ]
            ]
          ]
        ]
      ]
    ]
  ]
]

role_at-role_index : (r : AgentRole) → role_at (role_index r) ≡ r
unfolding role_at role_index
role_at-role_index planner = refl
role_at-role_index researcher_wide = refl
role_at-role_index researcher_deep = refl
role_at-role_index synthesizer = refl
role_at-role_index writer = refl
role_at-role_index critic_section = refl
role_at-role_index critic_final = refl
role_at-role_index judge_default = refl
role_at-role_index judge_final = refl
role_at-role_index lite_worker = refl

pub role_eq→eq : (r s : AgentRole) → role_eq r s ≡ true → r ≡ s
unfolding role_eq
role_eq→eq r s h =
    cc (role_at-role_index r, role_at-role_index s, eqb→eq (role_index r) (role_index s) h)

pub role_eq_refl : (r : AgentRole) → role_eq r r ≡ true
unfolding role_eq
role_eq_refl r = ground arith

-- `r in roles`
unfoldable pub role_in : AgentRole → List AgentRole → Bool
unfolding role_eq
role_in r [] = false
role_in r (s ∷ roles) = role_eq r s || role_in r roles

unfoldable pub role_value : AgentRole → String
role_value planner = "planner"
role_value researcher_wide = "researcher_wide"
role_value researcher_deep = "researcher_deep"
role_value synthesizer = "synthesizer"
role_value writer = "writer"
role_value critic_section = "critic_section"
role_value critic_final = "critic_final"
role_value judge_default = "judge_default"
role_value judge_final = "judge_final"
role_value lite_worker = "lite_worker"
