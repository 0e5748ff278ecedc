-- ===== src/Schemas/PaperId.antt =====
-- src/litweave/schemas/paper_id.py: `PaperId`, the prefix form of a paper id.
use surveyforge.Base.{Bool, true, false, String, starts_with, blank_from, if◌then◌else◌}
use surveyforge.Runtime.Errors.{Result, ok, err, value_error}

-- The loop over the prefixes: the first that fits decides.
unfoldable pub validate_paper_id_prefix : String → Result String
unfolding blank_from
validate_paper_id_prefix v =
    if starts_with v "arxiv:"
    then if blank_from 6 v then err (value_error v) else ok v
    else if starts_with v "s2:"
    then if blank_from 3 v then err (value_error v) else ok v
    else if starts_with v "web:"
    then if blank_from 4 v then err (value_error v) else ok v
    else err (value_error v)

unfoldable pub is_ok {ℓ} : {A : Type ℓ} → Result A → Bool
is_ok (ok a) = true
is_ok (err e) = false

-- A field of type `PaperId` accepts `v`.
unfoldable pub paper_id_valid : String → Bool
unfolding validate_paper_id_prefix is_ok
paper_id_valid v = is_ok (validate_paper_id_prefix v)
