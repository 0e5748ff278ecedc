-- ===== src/Synthesis/Rerank.antt =====
-- `_top_k_rerank` of src/litweave/synthesis/synthesizer.py. The average of confidences is compared by
-- cross multiplication, and `sorted(…, reverse=True)`, which is stable, is an insertion sort.
pub mod Packing
use surveyforge.Base.{
  ℕ, ◌+◌, ◌*◌, ◌≤◌, Bool, true, false, ◌&&◌, ◌||◌, String, List, [], ◌∷◌, ◌++◌, length, Dict, leb,
  ltb, eqb, if◌then◌else◌,
}
use surveyforge.Runtime.World.{EvidenceItem}
use surveyforge.Synthesis.Tokens.{by_paper, packed_total_tokens}

unfoldable pub conf_sum : List EvidenceItem → ℕ
conf_sum [] = 0
conf_sum (i ∷ items) = i.confidence + conf_sum items

-- `_paper_score(a) < _paper_score(b)`: by the average confidence, then by the number of items.
unfoldable pub score_lt : List EvidenceItem → List EvidenceItem → Bool
unfolding conf_sum
score_lt a b =
    let x = conf_sum a * length b in
    let y = conf_sum b * length a in ltb x y || eqb x y && ltb (length a) (length b)

-- The best first; of equals, the one that stood first.
unfoldable pub insert_paper :
    String × List EvidenceItem → Dict (List EvidenceItem) → Dict (List EvidenceItem)
insert_paper (k, xs) [] = (k, xs) ∷ []
insert_paper (k, xs) ((j, ys) ∷ d) =
    if score_lt xs ys then (j, ys) ∷ insert_paper (k, xs) d else (k, xs) ∷ ((j, ys) ∷ d)

unfoldable pub sort_papers : Dict (List EvidenceItem) → Dict (List EvidenceItem)
unfolding insert_paper score_lt
sort_papers [] = []
sort_papers (p ∷ d) = insert_paper p (sort_papers d)

module _ (show_conf : ℕ → String) (base_tokens budget_tokens : ℕ) where
  -- The loop over the sorted papers.
  unfoldable pub pack :
      List EvidenceItem → List String → Dict (List EvidenceItem) → List EvidenceItem × List String
  pack selected dropped [] = (selected, dropped)
  pack selected dropped ((k, xs) ∷ d) =
      elim (leb (packed_total_tokens show_conf (selected ++ xs) base_tokens) budget_tokens) [
        | true ↦ pack (selected ++ xs) dropped d
        | false ↦ pack selected (dropped ++ (k ∷ [])) d
      ]

  unfoldable pub top_k_rerank : List EvidenceItem → List EvidenceItem × List String
  unfolding pack sort_papers
  top_k_rerank items = pack [] [] (sort_papers (by_paper items))
