-- ===== src/Synthesis/Tokens/Groups.antt =====
-- Grouping by paper: each paper once, with its items in their order.
use surveyforge.Base.{
  Bool, false, String, ◌==◌, eq_iff, none, List, [], ◌∷◌, ◌++◌, ◌≡◌, refl, ◌≢◌, arith, keep, Dict,
  lookup, if◌then◌else◌, Bool-cases, inl, inr, All, ◌∙◌, ap, sym,
}
use mathlib.Core.List.{append_assoc, append-nil}
use surveyforge.Runtime.World.{EvidenceItem}
use surveyforge.Synthesis.Tokens.{add_to_group, group_onto, by_paper}

abbrev pub of_paper : String → EvidenceItem → Bool
of_paper k i = i.paper_id == k

abbrev Groups : Type 0
Groups = Dict (List EvidenceItem)

-- The items of a paper in the groups.
abbrev pub group_of : String → Groups → List EvidenceItem
group_of k [] = []
group_of k ((j, xs) ∷ d) = if j == k then xs else group_of k d

-- No paper stands twice, and every group is of its paper and not empty.
abbrev pub Distinct : Groups → Type 0
Distinct [] = Unit
Distinct ((k, xs) ∷ d) = (lookup k d ≡ none) × (xs ≢ []) × All (λ i. i.paper_id ≡ k) xs × Distinct d

All-append :
    (k : String) (xs : List EvidenceItem) (i : EvidenceItem)
    → All (λ i. i.paper_id ≡ k) xs
    → i.paper_id ≡ k
    → All (λ i. i.paper_id ≡ k) (xs ++ (i ∷ []))
All-append k [] i h e = (e, tt)
All-append k (x ∷ xs) i (a, h) e = (a, All-append k xs i h e)

append-ne-nil : (xs : List EvidenceItem) (i : EvidenceItem) → xs ++ (i ∷ []) ≢ []
append-ne-nil [] i h = cc
append-ne-nil (x ∷ xs) i h = cc

lookup-add_to_group :
    (i : EvidenceItem) (k : String) (d : Groups)
    → (i.paper_id == k) ≡ false
    → lookup k d ≡ none
    → lookup k (add_to_group i d) ≡ none
unfolding lookup add_to_group
lookup-add_to_group i k [] n h = ground arith
lookup-add_to_group i k ((j, xs) ∷ d) n h =
    ground
      (arith, eq_iff j k, eq_iff j i.paper_id, eq_iff i.paper_id k, lookup-add_to_group i k d n)

add_to_group-Distinct : (i : EvidenceItem) (d : Groups) → Distinct d → Distinct (add_to_group i d)
unfolding add_to_group lookup
add_to_group-Distinct i [] u = (refl, λ h. cc, (refl, tt), tt)
add_to_group-Distinct i ((k, xs) ∷ d) (a, b, c, u) = elim (Bool-cases (k == i.paper_id)) [
  | inl same ↦
      rw same (a, append-ne-nil xs i, All-append k xs i c (sym ((eq_iff k i.paper_id).0 same)), u)
  | inr other ↦ rw other (
    lookup-add_to_group i k d (ground (arith, eq_iff k i.paper_id, eq_iff i.paper_id k)) a,
    b,
    c,
    add_to_group-Distinct i d u,
  )
]

group_of-add_to_group :
    (i : EvidenceItem) (k : String) (d : Groups)
    → Distinct d
    → group_of k (add_to_group i d) ≡ group_of k d ++ keep (of_paper k) (i ∷ [])
unfolding add_to_group
group_of-add_to_group i k [] u = ground arith
group_of-add_to_group i k ((j, xs) ∷ d) (a, b, c, u) = elim (Bool-cases (j == i.paper_id)) [
  | inl same ↦ rw same (
      ground (
        arith,
        same,
        eq_iff j k,
        eq_iff j i.paper_id,
        eq_iff i.paper_id k,
        append-nil (group_of k d),
      ))
  | inr other ↦ rw other (
      ground (
        arith,
        eq_iff j k,
        eq_iff j i.paper_id,
        eq_iff i.paper_id k,
        append-nil xs,
        group_of-add_to_group i k d u,
      ))
]

group_onto-Distinct :
    (d : Groups) (items : List EvidenceItem) → Distinct d → Distinct (group_onto d items)
unfolding group_onto
group_onto-Distinct d [] u = u
group_onto-Distinct d (i ∷ items) u =
    group_onto-Distinct (add_to_group i d) items (add_to_group-Distinct i d u)

keep-cons :
    (k : String) (i : EvidenceItem) (items : List EvidenceItem)
    → keep (of_paper k) (i ∷ []) ++ keep (of_paper k) items ≡ keep (of_paper k) (i ∷ items)
keep-cons k i items = ground arith

group_of-group_onto :
    (k : String) (d : Groups) (items : List EvidenceItem)
    → Distinct d
    → group_of k (group_onto d items) ≡ group_of k d ++ keep (of_paper k) items
unfolding group_onto
group_of-group_onto k d [] u = sym (append-nil (group_of k d))
group_of-group_onto k d (i ∷ items) u =
    group_of-group_onto k (add_to_group i d) items (add_to_group-Distinct i d u)
    ∙ ap (λ xs. xs ++ keep (of_paper k) items) (group_of-add_to_group i k d u)
    ∙ append_assoc (group_of k d) (keep (of_paper k) (i ∷ [])) (keep (of_paper k) items)
    ∙ ap (λ xs. group_of k d ++ xs) (keep-cons k i items)

-- Grouping has each paper once, and gives a paper its items in their order.
pub by_paper_lem :
    (items : List EvidenceItem)
    → Distinct (by_paper items)
      × ((k : String) → group_of k (by_paper items) ≡ keep (of_paper k) items)
unfolding by_paper
by_paper_lem items = (group_onto-Distinct [] items tt, λ k. group_of-group_onto k [] items tt)
