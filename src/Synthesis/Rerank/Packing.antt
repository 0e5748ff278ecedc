-- ===== src/Synthesis/Rerank/Packing.antt =====
-- What reranking keeps and drops.
use mathlib.Core.List.{append-nil}
use surveyforge.Base.{
  subst, ℕ, ◌≤◌, Bool, true, false, String, ◌==◌, eq_iff, eq_refl, none, List, [], ◌∷◌, ◌++◌, ◌≡◌,
  refl, ◌≢◌, ◌⊎◌, inl, inr, arith, leb, leb→le, keep, contains, contains-append, lookup, Dict, All,
  if◌then◌else◌, Bool-cases, ◌∙◌, ap, sym,
}
use surveyforge.Runtime.World.{EvidenceItem}
use surveyforge.Synthesis.Tokens.{by_paper, packed_total_tokens}
use surveyforge.Synthesis.Tokens.Groups.{of_paper, group_of, Distinct, by_paper_lem}
use surveyforge.Synthesis.Rerank.{insert_paper, sort_papers, pack, top_k_rerank, score_lt}

abbrev Groups : Type 0
Groups = Dict (List EvidenceItem)

lookup-insert_paper :
    (k j : String) (xs : List EvidenceItem) (d : Groups)
    → lookup j (insert_paper (k, xs) d) ≡ none
    → (lookup j d ≡ none) × ((k == j) ≡ false)
unfolding lookup insert_paper
lookup-insert_paper k j xs [] h = ground arith
lookup-insert_paper k j xs ((i, ys) ∷ d) h = ground (arith, lookup-insert_paper k j xs d)

lookup-insert_paper_ne :
    (k j : String) (xs : List EvidenceItem) (d : Groups)
    → lookup j d ≡ none
    → (k == j) ≡ false
    → lookup j (insert_paper (k, xs) d) ≡ none
unfolding lookup insert_paper
lookup-insert_paper_ne k j xs [] h n = ground arith
lookup-insert_paper_ne k j xs ((i, ys) ∷ d) h n = ground (arith, lookup-insert_paper_ne k j xs d)

insert_paper-Distinct :
    (k : String) (xs : List EvidenceItem) (d : Groups)
    → lookup k d ≡ none
    → xs ≢ []
    → All (λ i. i.paper_id ≡ k) xs
    → Distinct d
    → Distinct (insert_paper (k, xs) d)
unfolding insert_paper lookup
insert_paper-Distinct k xs [] a b c u = (refl, b, c, tt)
insert_paper-Distinct k xs ((j, ys) ∷ d) a b c (a', b', c', u) =
    elim (Bool-cases (score_lt xs ys)) [
      | inl less ↦ rw less (
        lookup-insert_paper_ne k j xs d a' (ground (arith, eq_iff k j, eq_iff j k)),
        b',
        c',
        insert_paper-Distinct k xs d (ground arith) b c u,
      )
      | inr more ↦ rw more (a, b, c, (a', b', c', u))
    ]

group_of-insert_paper :
    (k j : String) (xs : List EvidenceItem) (d : Groups)
    → lookup k d ≡ none
    → group_of j (insert_paper (k, xs) d) ≡ (if k == j then xs else group_of j d)
unfolding insert_paper lookup
group_of-insert_paper k j xs [] a = refl
group_of-insert_paper k j xs ((i, ys) ∷ d) a = elim (Bool-cases (score_lt xs ys)) [
  | inl less ↦
      rw less (ground (arith, eq_iff i k, eq_iff k j, eq_iff i j, group_of-insert_paper k j xs d))
  | inr more ↦ rw more (refl)
]

lookup-sort_papers : (k : String) (d : Groups) → lookup k d ≡ none → lookup k (sort_papers d) ≡ none
unfolding sort_papers lookup
lookup-sort_papers k [] a = refl
lookup-sort_papers k ((j, xs) ∷ d) a =
    lookup-insert_paper_ne j k xs (sort_papers d) (lookup-sort_papers k d (ground arith))
      (ground arith)

sort_papers-Distinct : (d : Groups) → Distinct d → Distinct (sort_papers d)
unfolding sort_papers
sort_papers-Distinct [] u = tt
sort_papers-Distinct ((k, xs) ∷ d) (a, b, c, u) =
    insert_paper-Distinct k xs (sort_papers d) (lookup-sort_papers k d a) b c
      (sort_papers-Distinct d u)

group_of-sort_papers :
    (k : String) (d : Groups) → Distinct d → group_of k (sort_papers d) ≡ group_of k d
unfolding sort_papers
group_of-sort_papers k [] u = refl
group_of-sort_papers k ((j, xs) ∷ d) (a, b, c, u) =
    group_of-insert_paper j k xs (sort_papers d) (lookup-sort_papers j d a)
    ∙ ap (λ ys. if j == k then xs else ys) (group_of-sort_papers k d u)

keep-append :
    (p : EvidenceItem → Bool) (xs ys : List EvidenceItem)
    → keep p (xs ++ ys) ≡ keep p xs ++ keep p ys
keep-append p [] ys = refl
keep-append p (x ∷ xs) ys = ground (arith, keep-append p xs ys)

keep_own :
    (k : String) (xs : List EvidenceItem) → All (λ i. i.paper_id ≡ k) xs → keep (of_paper k) xs ≡ xs
keep_own k [] h = refl
keep_own k (x ∷ xs) (e, h) = ground (arith, eq_iff x.paper_id k, keep_own k xs h)

keep_other :
    (j k : String) (xs : List EvidenceItem)
    → (j == k) ≡ false
    → All (λ i. i.paper_id ≡ j) xs
    → keep (of_paper k) xs ≡ []
keep_other j k [] n h = refl
keep_other j k (x ∷ xs) n (e, h) =
    ground (arith, eq_iff x.paper_id k, eq_iff j k, keep_other j k xs n h)

lookup-none : (k : String) → lookup {V = List EvidenceItem} k [] ≡ none
unfolding lookup
lookup-none k = refl

module _ (show_conf : ℕ → String) (base budget : ℕ) where
  abbrev fits : List EvidenceItem → Bool
  fits selected = leb (packed_total_tokens show_conf selected base) budget

  abbrev packed : List EvidenceItem → List String → Groups → List EvidenceItem × List String
  packed = pack show_conf base budget

  pack_accept :
      (sel : List EvidenceItem) (drop : List String) (k : String) (xs : List EvidenceItem)
      (d : Groups)
      → fits (sel ++ xs) ≡ true
      → packed sel drop ((k, xs) ∷ d) ≡ packed (sel ++ xs) drop d
  unfolding pack
  pack_accept sel drop k xs d h = ground arith

  pack_reject :
      (sel : List EvidenceItem) (drop : List String) (k : String) (xs : List EvidenceItem)
      (d : Groups)
      → fits (sel ++ xs) ≡ false
      → packed sel drop ((k, xs) ∷ d) ≡ packed sel (drop ++ (k ∷ [])) d
  unfolding pack
  pack_reject sel drop k xs d h = ground arith

  pack_nil : (sel : List EvidenceItem) (drop : List String) → packed sel drop [] ≡ (sel, drop)
  unfolding pack
  pack_nil sel drop = refl

  lookup_rest :
      (j k : String) (xs : List EvidenceItem) (d : Groups)
      → lookup k ((j, xs) ∷ d) ≡ none
      → (lookup k d ≡ none) × ((j == k) ≡ false)
  unfolding lookup
  lookup_rest j k xs d h = ground arith

  abbrev Untouched :
      String → List EvidenceItem → List String → List EvidenceItem × List String → Type 0
  Untouched k sel drop out =
      (keep (of_paper k) out.0 ≡ keep (of_paper k) sel) × (contains out.1 k ≡ contains drop k)

  contains_other :
      (j k : String) (drop : List String)
      → (j == k) ≡ false
      → contains (drop ++ (j ∷ [])) k ≡ contains drop k
  unfolding contains
  contains_other j k drop n =
      ground (arith, contains-append drop (j ∷ []) k, eq_iff j k, eq_iff k j)

  contains_last : (k : String) (drop : List String) → contains (drop ++ (k ∷ [])) k ≡ true
  unfolding contains
  contains_last k drop = ground (arith, contains-append drop (k ∷ []) k, eq_refl k)

  keep_append_other :
      (j k : String) (sel xs : List EvidenceItem)
      → (j == k) ≡ false
      → All (λ i. i.paper_id ≡ j) xs
      → keep (of_paper k) (sel ++ xs) ≡ keep (of_paper k) sel
  keep_append_other j k sel xs n c =
      keep-append (of_paper k) sel xs
      ∙ ap (λ zs. keep (of_paper k) sel ++ zs) (keep_other j k xs n c)
      ∙ append-nil (keep (of_paper k) sel)

  -- A paper that is not among the rest is left as it is.
  pack_absent :
      (k : String) (sel : List EvidenceItem) (drop : List String) (d : Groups)
      → Distinct d
      → lookup k d ≡ none
      → Untouched k sel drop (packed sel drop d)
  pack_absent k sel drop [] u a =
      subst (Untouched k sel drop) (sym (pack_nil sel drop)) (refl, refl)
  pack_absent k sel drop ((j, xs) ∷ d) (a', b, c, u) a =
      let (a'', n) = lookup_rest j k xs d a in
      elim (Bool-cases (fits (sel ++ xs))) [
        | inl t ↦
            let ih = pack_absent k (sel ++ xs) drop d u a'' in
            subst (Untouched k sel drop) (sym (pack_accept sel drop j xs d t))
              (ih.0 ∙ keep_append_other j k sel xs n c, ih.1)
        | inr f ↦
            let ih = pack_absent k sel (drop ++ (j ∷ [])) d u a'' in
            subst (Untouched k sel drop) (sym (pack_reject sel drop j xs d f))
              (ih.0, ih.1 ∙ contains_other j k drop n)
      ]

  abbrev Whole :
      String → List EvidenceItem → List EvidenceItem → List EvidenceItem × List String → Type 0
  Whole k sel group out =
      keep (of_paper k) out.0
      ≡ (if contains out.1 k then keep (of_paper k) sel else keep (of_paper k) sel ++ group)

  Whole-absent :
      (k : String) (sel sel' : List EvidenceItem) (drop : List String) (xs : List EvidenceItem)
      (out : List EvidenceItem × List String)
      → contains drop k ≡ false
      → keep (of_paper k) sel' ≡ keep (of_paper k) sel ++ xs
      → Untouched k sel' drop out
      → Whole k sel xs out
  Whole-absent k sel sel' drop xs out n e (a, b) = ground arith

  Whole-dropped :
      (k : String) (sel : List EvidenceItem) (drop : List String) (xs : List EvidenceItem)
      (out : List EvidenceItem × List String)
      → contains drop k ≡ true
      → Untouched k sel drop out
      → Whole k sel xs out
  Whole-dropped k sel drop xs out t (a, b) = ground arith

  Whole-keep :
      (k : String) (sel sel' group : List EvidenceItem) (out : List EvidenceItem × List String)
      → keep (of_paper k) sel' ≡ keep (of_paper k) sel
      → Whole k sel' group out
      → Whole k sel group out
  Whole-keep k sel sel' group out e h = ground arith

  present_here :
      (j k : String) (sel : List EvidenceItem) (drop : List String) (xs : List EvidenceItem)
      (d : Groups)
      → lookup j d ≡ none
      → All (λ i. i.paper_id ≡ j) xs
      → Distinct d
      → contains drop k ≡ false
      → (j == k) ≡ true
      → Whole k sel (group_of k ((j, xs) ∷ d)) (packed sel drop ((j, xs) ∷ d))
  present_here j k sel drop xs d a c u n same =
      let e : j ≡ k = (eq_iff j k).0 same in
      let a' : lookup k d ≡ none = rw (← e) a in
      let c' : All (λ i. i.paper_id ≡ k) xs = rw (← e) c in
      rw same (elim (Bool-cases (fits (sel ++ xs))) [
        | inl t ↦ subst (Whole k sel xs) (sym (pack_accept sel drop j xs d t)) (
            Whole-absent k sel (sel ++ xs) drop xs (packed (sel ++ xs) drop d) n
              (keep-append (of_paper k) sel xs
                ∙ ap (λ zs. keep (of_paper k) sel ++ zs) (keep_own k xs c'))
              (pack_absent k (sel ++ xs) drop d u a'))
        | inr f ↦ subst (Whole k sel xs) (sym (pack_reject sel drop j xs d f)) (
            Whole-dropped k sel (drop ++ (j ∷ [])) xs (packed sel (drop ++ (j ∷ [])) d)
              (rw e (contains_last k drop)) (pack_absent k sel (drop ++ (j ∷ [])) d u a'))
      ])

  -- A paper of the rest is dropped, or all its items are added.
  pack_present :
      (k : String) (sel : List EvidenceItem) (drop : List String) (d : Groups)
      → Distinct d
      → contains drop k ≡ false
      → Whole k sel (group_of k d) (packed sel drop d)
  pack_present k sel drop [] u n =
      Whole-absent k sel sel drop [] _ n (sym (append-nil _))
        (pack_absent k sel drop [] tt (lookup-none k))
  pack_present k sel drop ((j, xs) ∷ d) (a, b, c, u) n = elim (Bool-cases (j == k)) [
    | inl same ↦ present_here j k sel drop xs d a c u n same
    | inr other ↦ elim (Bool-cases (fits (sel ++ xs))) [
      | inl t ↦
          subst (Whole k sel (group_of k ((j, xs) ∷ d))) (sym (pack_accept sel drop j xs d t)) (
            rw other (
              Whole-keep k sel (sel ++ xs) (group_of k d) (packed (sel ++ xs) drop d)
                (keep_append_other j k sel xs other c) (pack_present k (sel ++ xs) drop d u n)))
      | inr f ↦
          subst (Whole k sel (group_of k ((j, xs) ∷ d))) (sym (pack_reject sel drop j xs d f)) (
            rw other
              (pack_present k sel (drop ++ (j ∷ [])) d u (contains_other j k drop other ∙ n)))
    ]
  ]

  pack_fits :
      (sel : List EvidenceItem) (drop : List String) (d : Groups)
      → (fits sel ≡ true) ⊎ (sel ≡ [])
      → (fits (packed sel drop d).0 ≡ true) ⊎ ((packed sel drop d).0 ≡ [])
  pack_fits sel drop [] h = ground (arith, pack_nil sel drop)
  pack_fits sel drop ((k, xs) ∷ d) h = elim (Bool-cases (fits (sel ++ xs))) [
    | inl t ↦ ground (arith, pack_accept sel drop k xs d t, pack_fits (sel ++ xs) drop d (inl t))
    | inr f ↦ ground (arith, pack_reject sel drop k xs d f, pack_fits sel (drop ++ (k ∷ [])) d h)
  ]

-- Reranking keeps or drops each paper whole and in the order of its items: the kept items of a paper
-- are all of its items, or none if it is listed as dropped. And what is kept fits the budget, or
-- nothing is kept.
pub top_k_rerank_lem :
    (show_conf : ℕ → String) (base budget : ℕ) (items : List EvidenceItem)
    → let out = top_k_rerank show_conf base budget items in
      ((k : String)
        → keep (of_paper k) out.0 ≡ (if contains out.1 k then [] else keep (of_paper k) items))
      × ((packed_total_tokens show_conf out.0 base ≤ budget) ⊎ (out.0 ≡ []))
unfolding top_k_rerank contains
top_k_rerank_lem show_conf base budget items = (
  λ k.
      let groups = by_paper items in
      let (u, g) = by_paper_lem items in
      pack_present show_conf base budget k [] [] (sort_papers groups)
        (sort_papers-Distinct groups u) refl
      ∙ ap
          (λ xs.
            if contains (pack show_conf base budget [] [] (sort_papers groups)).1 k then [] else xs)
          (group_of-sort_papers k groups u ∙ g k),
  elim (pack_fits show_conf base budget [] [] (sort_papers (by_paper items)) (inr refl)) [
    | inl t ↦ inl (leb→le _ budget t)
    | inr e ↦ inr e
  ],
)
