-- ===== src/Agents/Deep/Store.antt =====
-- The storing of evidence cards of src/litweave/agents/researcher_deep.py, by the tool
-- `evidence_store_write`. How pydantic reads and dumps an evidence item is an argument.
use surveyforge.Base.{
  ℕ, suc, Bool, true, false, ◌&&◌, String, ◌<>◌, ◌==◌, Option, none, some, List, [], ◌∷◌, contains,
  if◌then◌else◌,
}
use surveyforge.Roles.{researcher_deep, role_value}
use surveyforge.Runtime.Errors.{Result, ok, err, validation_error}
use surveyforge.Runtime.Json.{Json, Fields, end, field, str, null, num, bool, obj}
use surveyforge.Runtime.World.{World, Exec, EvidenceItem, trusted_internal, ◌>>=◌}
use surveyforge.Runtime.Evidence.{save, evidence_item_valid}
use surveyforge.Runtime.Gateway.{Externals, ToolGateway, ToolPolicy, Impl, register, call}
use surveyforge.Schemas.Research.{EvidenceCard}

-- `read_item` reads the fields of an item, without its validators; `write_output` is the schema
-- `_EvidenceWriteOutput`; `max_result_bytes` the default of a policy; `show_num` decimal notation.
pub record Schema : Type 0 where
  pub read_item : Fields → Option EvidenceItem
  pub dump_item : EvidenceItem → Fields
  pub write_output : Json → Option Json
  pub max_result_bytes : ℕ
  pub show_num : ℕ → String

-- `EvidenceItem(**args)`
unfoldable pub make_item : Schema → Fields → Option EvidenceItem
make_item s args = elim (s.read_item args) [
  | none ↦ none
  | some item ↦ if evidence_item_valid item then some item else none
]

unfoldable pub after_save : EvidenceItem → Result (Unit {0}) × World → Result Json × World
after_save item (err e, w) = (err e, w)
after_save item (ok u, w) =
    (ok (obj (field "evidence_id" (str item.evidence_id) (field "saved" (bool true) end))), w)

unfoldable pub write_impl : Schema → Impl
unfolding make_item after_save
write_impl s args w = elim (make_item s args) [
  | none ↦ (err validation_error, w)
  | some item ↦ after_save item (save item w)
]

unfoldable pub write_policy : Schema → ToolPolicy
unfolding make_item
write_policy s = record {
  tool_name = "evidence_store_write";
  tool_version = "0.1.0";
  allowed_roles = researcher_deep ∷ [];
  input_schema =
      λ args. elim (make_item s args) [ none ↦ none | some item ↦ some (s.dump_item item) ];
  output_schema = s.write_output;
  cache_ttl_seconds = none;
  idempotent = false;
  result_trust = trusted_internal;
  max_result_bytes = s.max_result_bytes;
}

unfoldable pub register_write : Schema → ToolGateway → ToolGateway
unfolding write_policy write_impl
register_write s gw = register (write_policy s) (write_impl s) gw

unfoldable pub optional_str : Option String → Json
optional_str none = null
optional_str (some s) = str s

module _ (x : Externals) (s : Schema) (gw : ToolGateway) (run_id sid : String) where
  unfoldable pub evidence_id_of : ℕ → String
  evidence_id_of n = "E-" <> (run_id <> ("-" <> (sid <> ("-" <> s.show_num n))))

  unfoldable pub card_args : ℕ → EvidenceCard → Fields
  unfolding optional_str evidence_id_of
  card_args n card = field "evidence_id" (str (evidence_id_of n)) (
      field "run_id" (str run_id) (
        field "section_id" (str sid) (
          field "paper_id" (str card.paper_id) (
            field "claim" (str card.claim) (
              field "source_span" (optional_str card.source_span) (
                field "source_locator" null (
                  field "confidence" (num card.confidence)
                    (field "created_by" (str (role_value researcher_deep)) end))))))))

  unfoldable pub card_fits : List String → EvidenceCard → Bool
  card_fits inputs card = card.section_id == sid && contains inputs card.paper_id

  -- The loop over the cards; `n` counts those that are stored.
  unfoldable pub write_cards : List String → ℕ → List EvidenceCard → Exec (Unit {0})
  unfolding card_args card_fits
  write_cards inputs n [] = λ w. (ok tt, w)
  write_cards inputs n (card ∷ cards) = elim (card_fits inputs card) [
    | false ↦ write_cards inputs n cards
    | true ↦ call x gw researcher_deep "evidence_store_write" (card_args n card) >>= λ r.
        write_cards inputs (suc n) cards
  ]
