-- ===== src/Runtime/Evidence/Laws.antt =====
-- The evidence store after a save.
use surveyforge.Base.{
  ◌≡◌, refl, ◌⊎◌, inl, inr, sym, ap, ◌∙◌, subst, Bool, true, false, String, ◌==◌, eq_iff, List, [],
  ◌∷◌, ◌++◌, arith, any, keep, All, Any, Bool-cases, if◌then◌else◌,
}
use surveyforge.Runtime.Errors.{Result, ok, err, unique_violation, foreign_key_violation}
use surveyforge.Runtime.World.{World, EvidenceItem, run_exists}
use surveyforge.Runtime.Evidence.{
  evidence_item_valid, has_id, save, find_item, load, in_section, rows_to_items, list_by_section,
  AllValid,
}

abbrev Valid : List EvidenceItem → Type 0
Valid rows = All (λ row. evidence_item_valid row ≡ true) rows

Valid-append :
    (rows : List EvidenceItem) (item : EvidenceItem)
    → Valid rows
    → evidence_item_valid item ≡ true
    → Valid (rows ++ (item ∷ []))
Valid-append [] item v h = (h, tt)
Valid-append (row ∷ rows) item (a, v) h = (a, Valid-append rows item v h)

rows_to_items-Valid : (rows : List EvidenceItem) → Valid rows → rows_to_items rows ≡ ok rows
unfolding rows_to_items
rows_to_items-Valid [] v = refl
rows_to_items-Valid (row ∷ rows) (a, v) = rw (a, rows_to_items-Valid rows v) (refl)

Valid-keep : (p : EvidenceItem → Bool) (rows : List EvidenceItem) → Valid rows → Valid (keep p rows)
Valid-keep p [] v = tt
Valid-keep p (row ∷ rows) (a, v) = elim (Bool-cases (p row)) [
  | inl t ↦ rw (t, keep) (a, Valid-keep p rows v)
  | inr f ↦ rw (f, keep) (Valid-keep p rows v)
]

find_item-append :
    (k : String) (rows : List EvidenceItem) (item : EvidenceItem)
    → any (has_id item.evidence_id) rows ≡ false
    → evidence_item_valid item ≡ true
    → find_item k (rows ++ (item ∷ []))
      ≡ (if item.evidence_id == k then ok item else find_item k rows)
unfolding find_item has_id
find_item-append k [] item free valid = rw valid (refl)
find_item-append k (row ∷ rows) item free valid = ground (
  arith,
  find_item-append k rows item,
  eq_iff row.evidence_id k,
  eq_iff row.evidence_id item.evidence_id,
  eq_iff item.evidence_id k,
)

keep-append_one :
    (p : EvidenceItem → Bool) (rows : List EvidenceItem) (item : EvidenceItem)
    → keep p (rows ++ (item ∷ [])) ≡ keep p rows ++ (if p item then item ∷ [] else [])
keep-append_one p [] item = elim (Bool-cases (p item)) [ inl t ↦ rw t (refl) | inr f ↦ rw f (refl) ]
keep-append_one p (row ∷ rows) item = ground (arith, keep-append_one p rows item)

-- How the table may be after a save, seen through `load` and `list_by_section`.
abbrev pub Saved : EvidenceItem → World → Result (Unit {0}) × World → Type 0
Saved item w out =
    (Any (λ row. row.evidence_id ≡ item.evidence_id) w.db.evidence_items
      × (out.0 ≡ err (unique_violation item.evidence_id))
      × (out.1 ≡ w))
    ⊎ ((run_exists item.run_id w.db ≡ false)
        × (out.0 ≡ err (foreign_key_violation item.run_id))
        × (out.1 ≡ w))
    ⊎ ((run_exists item.run_id w.db ≡ true)
        × (out.0 ≡ ok tt)
        × ((k : String) → load k out.1 ≡ (if item.evidence_id == k then ok item else load k w))
        × ((run_id section_id : String)
            → list_by_section run_id section_id out.1
              ≡ ok (
                  keep (in_section run_id section_id) w.db.evidence_items
                  ++ (if in_section run_id section_id item then item ∷ [] else [])))
        × AllValid out.1)

any-Any :
    (k : String) (rows : List EvidenceItem)
    → any (has_id k) rows ≡ true
    → Any (λ row. row.evidence_id ≡ k) rows
unfolding has_id
any-Any k [] h = absurd (cc)
any-Any k (row ∷ rows) h = elim (Bool-cases (row.evidence_id == k)) [
  | inl t ↦ inl ((eq_iff row.evidence_id k).0 t)
  | inr f ↦ inr (any-Any k rows (ground arith))
]

module _ (item : EvidenceItem) (w : World) where
  abbrev stored : World
  stored = record w { db = record w.db { evidence_items = w.db.evidence_items ++ (item ∷ []) } }

  save_used :
      any (has_id item.evidence_id) w.db.evidence_items ≡ true
      → save item w ≡ (err (unique_violation item.evidence_id), w)
  unfolding save
  save_used h = rw h (refl)

  save_free :
      any (has_id item.evidence_id) w.db.evidence_items ≡ false
      → run_exists item.run_id w.db ≡ true
      → save item w ≡ (ok tt, stored)
  unfolding save
  save_free h known = rw (h, save) (rw (known, save) refl)

  save_orphan :
      any (has_id item.evidence_id) w.db.evidence_items ≡ false
      → run_exists item.run_id w.db ≡ false
      → save item w ≡ (err (foreign_key_violation item.run_id), w)
  unfolding save
  save_orphan h unknown = rw (h, save) (rw (unknown, save) refl)

  list-stored :
      (run_id section_id : String)
      → evidence_item_valid item ≡ true
      → AllValid w
      → list_by_section run_id section_id stored
        ≡ ok (
            keep (in_section run_id section_id) w.db.evidence_items
            ++ (if in_section run_id section_id item then item ∷ [] else []))
  unfolding list_by_section
  list-stored run_id section_id valid all =
      rows_to_items-Valid _ (
        Valid-keep (in_section run_id section_id) _
          (Valid-append w.db.evidence_items item all valid))
      ∙ ap (λ xs. ok xs) (keep-append_one (in_section run_id section_id) w.db.evidence_items item)

  load-stored :
      (k : String)
      → any (has_id item.evidence_id) w.db.evidence_items ≡ false
      → evidence_item_valid item ≡ true
      → load k stored ≡ (if item.evidence_id == k then ok item else load k w)
  unfolding load
  load-stored k free valid = find_item-append k w.db.evidence_items item free valid

-- Saving a valid item into a table of valid items raises `UniqueViolation` and changes nothing where
-- the id is in use; it raises `ForeignKeyViolation` and changes nothing where the id is free and there
-- is no run with the item's run id; otherwise the item is loaded by its id, every other id loads what it did, each
-- section lists what it did with the item behind it where it is the item's, and the table is valid.
pub save-Saved :
    (item : EvidenceItem) (w : World)
    → evidence_item_valid item ≡ true
    → AllValid w
    → Saved item w (save item w)
save-Saved item w valid all =
    elim (Bool-cases (any (has_id item.evidence_id) w.db.evidence_items)) [
      | inl used ↦
          subst (Saved item w) (sym (save_used item w used))
            (inl (any-Any item.evidence_id w.db.evidence_items used, refl, refl))
      | inr free ↦ elim (Bool-cases (run_exists item.run_id w.db)) [
        | inr unknown ↦
            subst (Saved item w) (sym (save_orphan item w free unknown))
              (inr (inl (unknown, refl, refl)))
        | inl known ↦ subst (Saved item w) (sym (save_free item w free known)) (
            inr (
              inr (
                known,
                refl,
                λ k. load-stored item w k free valid,
                λ run_id section_id. list-stored item w run_id section_id valid all,
                Valid-append w.db.evidence_items item all valid,
              )))
      ]
    ]
