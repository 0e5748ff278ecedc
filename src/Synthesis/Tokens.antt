-- ===== src/Synthesis/Tokens.antt =====
-- The prompt of the synthesizer and its token estimate, of src/litweave/synthesis/synthesizer.py.
-- `show_conf` is the float format `.2f`, and `template` what `template.format` makes of the section.
pub mod Groups
pub mod Estimate
use surveyforge.Base.{
  ℕ, ◌+◌, ◌-◌, ◌*◌, ◌/◌, Bool, true, false, String, ◌<>◌, ◌==◌, count, Option, none, some, List, [],
  ◌∷◌, ◌++◌, map, length, Dict, is_empty, if◌then◌else◌,
}
use surveyforge.Runtime.World.{EvidenceItem}
use surveyforge.Schemas.Planner.{PlannerSection}

abbrev pub chars_per_token : ℕ
chars_per_token = 4

abbrev pub evidence_section_header : String
evidence_section_header = "\n\n## EvidenceItems for this section\n\n"

abbrev pub block_joiner : String
block_joiner = "\n\n"

unfoldable pub estimate_tokens : String → ℕ
estimate_tokens text = count text / chars_per_token

-- `joiner.join(blocks)`
unfoldable pub join : String → List String → String
join joiner [] = ""
join joiner (b ∷ []) = b
join joiner (b ∷ (c ∷ bs)) = b <> (joiner <> join joiner (c ∷ bs))

-- `item.source_span or '(none)'`
unfoldable pub span_text : Option String → String
span_text none = "(none)"
span_text (some s) = if s == "" then "(none)" else s

-- `by_paper.setdefault(item.paper_id, []).append(item)`
unfoldable pub add_to_group : EvidenceItem → Dict (List EvidenceItem) → Dict (List EvidenceItem)
add_to_group i [] = (i.paper_id, i ∷ []) ∷ []
add_to_group i ((k, xs) ∷ d) =
    if k == i.paper_id then (k, xs ++ (i ∷ [])) ∷ d else (k, xs) ∷ add_to_group i d

unfoldable pub group_onto : Dict (List EvidenceItem) → List EvidenceItem → Dict (List EvidenceItem)
group_onto d [] = d
group_onto d (i ∷ items) = group_onto (add_to_group i d) items

unfoldable pub by_paper : List EvidenceItem → Dict (List EvidenceItem)
unfolding group_onto add_to_group
by_paper items = group_onto [] items

module _ (show_conf : ℕ → String) where
  unfoldable pub format_item : EvidenceItem → String
  unfolding span_text
  format_item i =
      "### "
      <> (i.evidence_id
          <> ("\npaper_id: "
              <> (i.paper_id
                  <> ("\nconfidence: "
                      <> (show_conf i.confidence
                          <> ("\nclaim: "
                              <> (i.claim <> ("\nsource_span: " <> span_text i.source_span))))))))

  unfoldable pub format_evidence_items : List EvidenceItem → String
  unfolding join format_item
  format_evidence_items items = join block_joiner (map format_item items)

  unfoldable pub paper_tokens : Dict (List EvidenceItem) → ℕ
  paper_tokens [] = 0
  paper_tokens ((k, xs) ∷ d) = estimate_tokens (format_evidence_items xs) + paper_tokens d

  unfoldable pub packed_total_tokens : List EvidenceItem → ℕ → ℕ
  unfolding by_paper paper_tokens estimate_tokens
  packed_total_tokens items base_tokens =
      let groups = by_paper items in
      if is_empty groups
      then base_tokens
      else base_tokens
        + estimate_tokens evidence_section_header
        + paper_tokens groups
        + (length groups - 1) * estimate_tokens block_joiner

  unfoldable pub build_user_message :
      PlannerSection → List EvidenceItem → (PlannerSection → String) → String
  unfolding format_evidence_items
  build_user_message section items template =
      template section <> (evidence_section_header <> format_evidence_items items)
