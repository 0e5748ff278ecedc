-- ===== src/Agents/Wide/Handoff.antt =====
-- How much a section of wide research hands over to deep research.

use mathlib.Core.List.{append-nil, append_assoc}
use surveyforge.Base.{
  ◌≡◌, refl, inl, inr, sym, ap, ◌∙◌, subst, ℕ, zero, suc, ◌+◌, ◌≤◌, Bool, true, false, not, ◌&&◌,
  String, ◌==◌, Option, none, some, List, [], ◌∷◌, ◌++◌, map, take, length, length-take-le,
  contains, In, Subset, ltb, arith, Bool-cases, Dict, lookup, insert, lookup-insert, if◌then◌else◌,
}
use surveyforge.Runtime.Errors.{Result-cases, ok}
use surveyforge.Schemas.Research.{CandidatePaper, ResearcherWideOutput}
use surveyforge.State.{Note}
use surveyforge.Agents.Wide.{
  max_handoff, source_from_prefix, note_of, stub_of, stubs, insert_text, sorted, hand_off,
  hand_off_seen, record_section,
}

-- Each of the ids is new to the queue and to the ids before it.
abbrev pub Fresh : List String → List String → Type 0
Fresh queue [] = Unit
Fresh queue (x ∷ xs) = (contains queue x ≡ false) × Fresh (queue ++ (x ∷ [])) xs

-- The queue grows at its end, by so many new ids at most, all of them among `ids`.
abbrev pub Grows : ℕ → List String → List String → List String → Type 0
Grows most ids queue queue' =
    (added : List String) × (queue' ≡ queue ++ added)
    × (length added ≤ most)
    × Fresh queue added
    × Subset added ids

Grows-nil : (most : ℕ) (ids queue : List String) → Grows most ids queue queue
unfolding contains
Grows-nil most ids queue = ([], sym (append-nil queue), omega arith, tt, λ a h. cc)

Grows-skip :
    (most : ℕ) (x : String) (ids queue queue' : List String)
    → Grows most ids queue queue'
    → Grows most (x ∷ ids) queue queue'
unfolding contains
Grows-skip most x ids queue queue' (added, e, n, f, s) =
    (added, e, n, f, λ a h. ground (arith, s a h))

Grows-add :
    (most : ℕ) (x : String) (ids queue queue' : List String)
    → contains queue x ≡ false
    → Grows most ids (queue ++ (x ∷ [])) queue'
    → Grows (suc most) (x ∷ ids) queue queue'
unfolding contains
Grows-add most x ids queue queue' new (added, e, n, f, s) = (
  x ∷ added,
  e ∙ append_assoc queue (x ∷ []) added,
  omega arith,
  (new, f),
  λ a h. ground (arith, s a),
)

abbrev ids_of : List CandidatePaper → List String
ids_of papers = map (λ p. p.paper_id) papers

abbrev handed : ℕ → CandidatePaper → List String → Bool
handed n p queue = p.handoff_to_deep && not (contains queue p.paper_id) && ltb n max_handoff

hand_off_yes :
    (n : ℕ) (p : CandidatePaper) (papers : List CandidatePaper) (queue : List String)
    → handed n p queue ≡ true
    → hand_off n (p ∷ papers) queue ≡ hand_off (suc n) papers (queue ++ (p.paper_id ∷ []))
unfolding hand_off
hand_off_yes n p papers queue h = ground arith

hand_off_no :
    (n : ℕ) (p : CandidatePaper) (papers : List CandidatePaper) (queue : List String)
    → handed n p queue ≡ false
    → hand_off n (p ∷ papers) queue ≡ hand_off n papers queue
unfolding hand_off
hand_off_no n p papers queue h = ground arith

hand_off-Grows :
    (n most : ℕ) (papers : List CandidatePaper) (queue : List String)
    → n + most ≡ max_handoff
    → Grows most (ids_of papers) queue (hand_off n papers queue)
unfolding hand_off
hand_off-Grows n most [] queue h = Grows-nil most [] queue
hand_off-Grows n zero (p ∷ papers) queue h =
    subst (Grows zero (ids_of (p ∷ papers)) queue)
      (sym (hand_off_no n p papers queue (ground arith)))
      (Grows-skip zero p.paper_id (ids_of papers) queue _ (hand_off-Grows n zero papers queue h))
hand_off-Grows n (suc most) (p ∷ papers) queue h = elim (Bool-cases (handed n p queue)) [
  | inl t ↦
      subst (Grows (suc most) (ids_of (p ∷ papers)) queue) (sym (hand_off_yes n p papers queue t)) (
        Grows-add most p.paper_id (ids_of papers) queue _ (ground arith)
          (hand_off-Grows (suc n) most papers (queue ++ (p.paper_id ∷ [])) (omega arith)))
  | inr f ↦
      subst (Grows (suc most) (ids_of (p ∷ papers)) queue) (sym (hand_off_no n p papers queue f)) (
        Grows-skip (suc most) p.paper_id (ids_of papers) queue _
          (hand_off-Grows n (suc most) papers queue h))
]

Grows-more :
    (most : ℕ) (ids queue queue' : List String)
    → Grows most ids queue queue'
    → Grows (suc most) ids queue queue'
Grows-more most ids queue queue' (added, e, n, f, s) = (added, e, omega arith, f, s)

hand_off_seen_no :
    (pid : String) (pids queue : List String)
    → contains queue pid ≡ true
    → hand_off_seen (pid ∷ pids) queue ≡ hand_off_seen pids queue
unfolding hand_off_seen
hand_off_seen_no pid pids queue h = ground arith

hand_off_seen_yes :
    (pid : String) (pids queue : List String)
    → contains queue pid ≡ false
    → hand_off_seen (pid ∷ pids) queue ≡ hand_off_seen pids (queue ++ (pid ∷ []))
unfolding hand_off_seen
hand_off_seen_yes pid pids queue h = ground arith

hand_off_seen-Grows :
    (pids queue : List String) → Grows (length pids) pids queue (hand_off_seen pids queue)
unfolding hand_off_seen
hand_off_seen-Grows [] queue = Grows-nil 0 [] queue
hand_off_seen-Grows (pid ∷ pids) queue = elim (Bool-cases (contains queue pid)) [
  | inl t ↦
      subst (Grows (length (pid ∷ pids)) (pid ∷ pids) queue)
        (sym (hand_off_seen_no pid pids queue t))
        (Grows-skip _ pid pids queue _ (Grows-more _ pids queue _ (hand_off_seen-Grows pids queue)))
  | inr f ↦
      subst (Grows (length (pid ∷ pids)) (pid ∷ pids) queue)
        (sym (hand_off_seen_yes pid pids queue f))
        (Grows-add (length pids) pid pids queue _ f
          (hand_off_seen-Grows pids (queue ++ (pid ∷ []))))
]

insert_text-contains : (x a : String) (ys : List String) → In a (insert_text x ys) → In a (x ∷ ys)
unfolding insert_text contains
insert_text-contains x a [] h = h
insert_text-contains x a (y ∷ ys) h = ground (arith, insert_text-contains x a ys)

sorted-contains : (a : String) (xs : List String) → In a (sorted xs) → In a xs
unfolding sorted contains
sorted-contains a [] h = h
sorted-contains a (x ∷ xs) h =
    ground (arith, insert_text-contains x a (sorted xs) h, sorted-contains a xs)

take-contains : (n : ℕ) (a : String) (xs : List String) → In a (take n xs) → In a xs
unfolding contains
take-contains zero a xs h = absurd (cc)
take-contains (suc n) a [] h = h
take-contains (suc n) a (x ∷ xs) h = ground (arith, take-contains n a xs)

stubs-ids :
    (seen : List String) (notes : List Note)
    → stubs seen ≡ ok notes
    → map (λ n. n.paper_id) notes ≡ seen
unfolding stubs
stubs-ids [] notes h =
    let same : [] ≡ notes = ground arith in subst (λ ns. map (λ n. n.paper_id) ns ≡ []) same refl
stubs-ids (pid ∷ pids) notes h = elim (Result-cases (source_from_prefix pid)) [
  | inr (e, f) ↦ absurd (ground arith)
  | inl (source, f) ↦ elim (Result-cases (stubs pids)) [
    | inr (e, g) ↦ absurd (ground arith)
    | inl (rest, g) ↦
        let same : stub_of pid source ∷ rest ≡ notes = ground arith in
        subst (λ ns. map (λ n. n.paper_id) ns ≡ pid ∷ pids) same
          (ap (λ ids. pid ∷ ids) (stubs-ids pids rest g))
  ]
]

-- The notes and the queue after a section, given those before.
abbrev pub Handed :
    String → Dict (List Note) × List String → Dict (List Note) × List String → Type 0
Handed sid before after =
    (new : List Note) × ((j : String)
      → lookup j after.0 ≡ (if sid == j then some new else lookup j before.0))
    × Grows max_handoff (map (λ n. n.paper_id) new) before.1 after.1

ids-notes :
    (papers : List CandidatePaper) → ids_of papers ≡ map (λ n. n.paper_id) (map note_of papers)
ids-notes [] = refl
ids-notes (p ∷ papers) = ap (λ ids. p.paper_id ∷ ids) (ids-notes papers)

seen-Grows :
    (seen queue : List String)
    → Grows max_handoff seen queue (hand_off_seen (take max_handoff (sorted seen)) queue)
seen-Grows seen queue =
    let pids = take max_handoff (sorted seen) in
    let (added, e, n, f, s) = hand_off_seen-Grows pids queue in
    (
      added,
      e,
      omega (arith, length-take-le max_handoff (sorted seen)),
      f,
      λ a h. sorted-contains a seen (take-contains max_handoff a (sorted seen) (s a h)),
    )

-- A section of wide research puts three papers into the queue for deep research at most, on a normal
-- completion and on a forced exit; each is new to the queue and stands in the section's notes; the
-- queue before is kept in front, and the notes of other sections are as they were.
pub record_section-Handed :
    (sid : String) (output : Option ResearcherWideOutput) (seen : List String)
    (before after : Dict (List Note) × List String)
    → record_section sid output seen before.0 before.1 ≡ ok after
    → Handed sid before after
unfolding record_section
record_section-Handed sid (some o) seen (notes, queue) after h =
    let done : Dict (List Note) × List String =
      (insert sid (map note_of o.candidate_papers) notes, hand_off 0 o.candidate_papers queue) in
    let same : done ≡ after = ground arith in
    subst (Handed sid (notes, queue)) same (
      map note_of o.candidate_papers,
      λ j. lookup-insert sid j (map note_of o.candidate_papers) notes,
      subst (λ ids. Grows max_handoff ids queue (hand_off 0 o.candidate_papers queue))
          (ids-notes o.candidate_papers)
          (hand_off-Grows 0 max_handoff o.candidate_papers queue refl),
    )
record_section-Handed sid none seen (notes, queue) after h = elim (Result-cases (stubs seen)) [
  | inr (e, f) ↦ absurd (ground arith)
  | inl (new, f) ↦
      let done : Dict (List Note) × List String =
        (insert sid new notes, hand_off_seen (take max_handoff (sorted seen)) queue) in
      let same : done ≡ after = ground arith in
      subst (Handed sid (notes, queue)) same (
        new,
        λ j. lookup-insert sid j new notes,
        subst
            (λ ids.
              Grows max_handoff ids queue (hand_off_seen (take max_handoff (sorted seen)) queue))
            (sym (stubs-ids seen new f)) (seen-Grows seen queue),
      )
]
