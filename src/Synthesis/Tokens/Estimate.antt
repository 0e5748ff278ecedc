-- ===== src/Synthesis/Tokens/Estimate.antt =====
-- `packed_total_tokens` against the estimate of the prompt that is sent.
use text.Mathlib.TextLemmas.{length-append}
use surveyforge.Base.{
  ℕ, ◌+◌, ◌*◌, ◌/◌, ◌≤◌, String, ◌<>◌, count, List, [], ◌∷◌, ◌++◌, map, length, ◌≡◌, refl, arith,
  Dict,
}
use surveyforge.Runtime.World.{EvidenceItem}
use surveyforge.Schemas.Planner.{PlannerSection}
use surveyforge.Synthesis.Tokens.{
  add_to_group, group_onto, by_paper, join, format_item, format_evidence_items, paper_tokens,
  packed_total_tokens, build_user_message, estimate_tokens, block_joiner, evidence_section_header,
}
use surveyforge.Synthesis.Tokens.Groups.{Distinct, by_paper_lem}

module _ (show_conf : ℕ → String) where
  -- The characters of the blocks, each with a joiner behind it.
  abbrev size : List EvidenceItem → ℕ
  size [] = 0
  size (i ∷ items) = count (format_item show_conf i) + 2 + size items

  abbrev group_size : Dict (List EvidenceItem) → ℕ
  group_size [] = 0
  group_size ((k, xs) ∷ d) = size xs + group_size d

  size-append :
      (xs : List EvidenceItem) (i : EvidenceItem) → size (xs ++ (i ∷ [])) ≡ size xs + size (i ∷ [])
  size-append [] i = omega arith
  size-append (x ∷ xs) i = omega (arith, size-append xs i)

  group_size-add_to_group :
      (i : EvidenceItem) (d : Dict (List EvidenceItem))
      → group_size (add_to_group i d) ≡ group_size d + size (i ∷ [])
  unfolding add_to_group
  group_size-add_to_group i [] = omega arith
  group_size-add_to_group i ((k, xs) ∷ d) =
      ground (arith, size-append xs i, group_size-add_to_group i d)

  group_size-group_onto :
      (d : Dict (List EvidenceItem)) (items : List EvidenceItem)
      → group_size (group_onto d items) ≡ group_size d + size items
  unfolding group_onto
  group_size-group_onto d [] = omega arith
  group_size-group_onto d (i ∷ items) =
      omega (arith, group_size-group_onto (add_to_group i d) items, group_size-add_to_group i d)

  count-format :
      (i : EvidenceItem) (items : List EvidenceItem)
      → count (format_evidence_items show_conf (i ∷ items)) + 2 ≡ size (i ∷ items)
  unfolding format_evidence_items
  count-format i [] = omega arith
  count-format i (j ∷ items) = omega (
    arith,
    length-append (format_item show_conf i)
        (block_joiner <> join block_joiner (map (format_item show_conf) (j ∷ items))),
    length-append block_joiner (join block_joiner (map (format_item show_conf) (j ∷ items))),
    count-format j items,
  )

  paper_tokens-le :
      (d : Dict (List EvidenceItem))
      → Distinct d
      → 4 * paper_tokens show_conf d + 2 * length d ≤ group_size d
  unfolding paper_tokens estimate_tokens
  paper_tokens-le [] u = omega arith
  paper_tokens-le ((k, []) ∷ d) (a, b, c, u) = absurd (b refl)
  paper_tokens-le ((k, i ∷ xs) ∷ d) (a, b, c, u) =
      omega (arith, paper_tokens-le d u, count-format i xs)

  count-message :
      (section : PlannerSection) (items : List EvidenceItem) (template : PlannerSection → String)
      → count (build_user_message show_conf section items template)
        ≡ count (template section)
          + count evidence_section_header
          + count (format_evidence_items show_conf items)
  unfolding build_user_message
  count-message section items template = omega (
    arith,
    length-append (template section)
        (evidence_section_header <> format_evidence_items show_conf items),
    length-append evidence_section_header (format_evidence_items show_conf items),
  )

  packed-le :
      (i : EvidenceItem) (items : List EvidenceItem) (base : ℕ)
      → 4 * packed_total_tokens show_conf (i ∷ items) base
        ≤ 4 * base
          + count evidence_section_header
          + count (format_evidence_items show_conf (i ∷ items))
  unfolding packed_total_tokens
  packed-le i items base = ground (
    arith,
    paper_tokens-le (by_paper (i ∷ items)) (by_paper_lem (i ∷ items)).0,
    group_size-group_onto [] (i ∷ items),
    count-format i items,
  )

  packed-nil : (base : ℕ) → packed_total_tokens show_conf [] base ≡ base
  unfolding packed_total_tokens
  packed-nil base = refl

  -- The projection that the budget is checked against never exceeds the estimate of the prompt that
  -- is then sent.
  pub packed_total_tokens-le :
      (section : PlannerSection) (items : List EvidenceItem) (template : PlannerSection → String)
      → packed_total_tokens show_conf items (estimate_tokens (template section))
        ≤ estimate_tokens (build_user_message show_conf section items template)
  unfolding estimate_tokens
  packed_total_tokens-le section [] template =
      omega (arith, count-message section [] template, packed-nil (count (template section) / 4))
  packed_total_tokens-le section (i ∷ items) template = omega (
    arith,
    count-message section (i ∷ items) template,
    packed-le i items (count (template section) / 4),
  )
