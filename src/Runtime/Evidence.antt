-- ===== src/Runtime/Evidence.antt =====
-- src/litweave/runtime/evidence.py: `EvidenceStore` over the table `evidence_items`. Rows written in one
-- transaction carry one time, and `ORDER BY created_at` is read as the order of insertion.
pub mod Laws
use surveyforge.Base.{
  Bool, true, ◌&&◌, String, ◌==◌, List, [], ◌∷◌, ◌++◌, ◌≡◌, any, keep, leb, if◌then◌else◌, All,
}
use surveyforge.Runtime.Errors.{
  Result, ok, err, validation_error, unique_violation, foreign_key_violation, key_error,
}
use surveyforge.Runtime.World.{World, Exec, EvidenceItem, run_exists}
use surveyforge.Schemas.PaperId.{paper_id_valid}
use surveyforge.Schemas.Research.{conf_one}

-- What constructing an `EvidenceItem` checks.
unfoldable pub evidence_item_valid : EvidenceItem → Bool
evidence_item_valid item = paper_id_valid item.paper_id && leb item.confidence conf_one

unfoldable pub has_id : String → EvidenceItem → Bool
has_id evidence_id row = row.evidence_id == evidence_id

-- `evidence_id` is the primary key, and `run_id` a foreign key.
unfoldable pub save : EvidenceItem → Exec (Unit {0})
unfolding has_id run_exists
save item w =
    if any (has_id item.evidence_id) w.db.evidence_items
    then (err (unique_violation item.evidence_id), w)
    else if run_exists item.run_id w.db
    then (
      ok tt,
      record w { db = record w.db { evidence_items = w.db.evidence_items ++ (item ∷ []) } },
    )
    else (err (foreign_key_violation item.run_id), w)

unfoldable pub find_item : String → List EvidenceItem → Result EvidenceItem
find_item k [] = err (key_error k)
find_item k (row ∷ rows) =
    if has_id k row
    then if evidence_item_valid row then ok row else err validation_error
    else find_item k rows

unfoldable pub load : String → World → Result EvidenceItem
unfolding find_item has_id evidence_item_valid
load evidence_id w = find_item evidence_id w.db.evidence_items

unfoldable pub in_section : String → String → EvidenceItem → Bool
in_section run_id section_id row = row.run_id == run_id && row.section_id == section_id

-- `_row_to_item` validates each row that the query returns.
unfoldable pub rows_to_items : List EvidenceItem → Result (List EvidenceItem)
rows_to_items [] = ok []
rows_to_items (row ∷ rows) =
    if evidence_item_valid row
    then elim (rows_to_items rows) [ ok items ↦ ok (row ∷ items) | err e ↦ err e ]
    else err validation_error

unfoldable pub list_by_section : String → String → World → Result (List EvidenceItem)
unfolding rows_to_items in_section evidence_item_valid
list_by_section run_id section_id w =
    rows_to_items (keep (in_section run_id section_id) w.db.evidence_items)

-- Every row of the table would pass the model's validation.
abbrev pub AllValid : World → Type 0
AllValid w = All (λ row. evidence_item_valid row ≡ true) w.db.evidence_items
