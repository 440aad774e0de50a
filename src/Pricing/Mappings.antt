-- ===== src/Pricing/Mappings.antt =====
-- src/glip/pricing/service.py: `create_quantity_mapping` and `approve_quantity_mapping`.
use arquitech_glip_premium_b.Prelude.{
  ◌+◌, Bool, not, ◌&&◌, ◌||◌, Option, none, some, [], ◌∷◌, ◌==◌, take, find?, update_where, Result,
  ok, Error, failure, RowId, Text, codes, same_text, one_of, is_empty, strip, lower, text_or, ℤ,
}
use arquitech_glip_premium_b.Prelude.Results.{◌>>=◌, ◌>>◌, refuse_if, or_refuse}
use arquitech_glip_premium_b.Pricing.Data.{proposed, approved, Item, Mapping, Db}
use arquitech_glip_premium_b.Pricing.Snapshots.{is_snapshot}
use arquitech_glip_premium_b.Pricing.Gate.{
  require_financial_approver, positive_decimal, eligible_quantity_provenance,
}

pub record MappingBody : Type 0 where
  pub price_source_item_id : RowId
  pub quantity_provenance : Option Text
  pub quantity_value : Option ℤ
  pub quantity_unit : Option Text
  pub status : Option Text
  pub canonical_item_id : Option Text
  pub quantity_source_ref : Option Text
  pub mapping_explanation : Option Text

abbrev pub is_item : RowId → RowId → Item → Bool
is_item tenant i x = x.id == i && x.tenant_id == tenant

abbrev pub is_mapping : RowId → RowId → RowId → Mapping → Bool
is_mapping tenant project i m = m.id == i && m.tenant_id == tenant && m.project_id == project

-- `str(value) if value else None`
abbrev pub text_if : Option Text → Option Text
text_if none = none
text_if (some []) = none
text_if (some (c ∷ t)) = some (c ∷ t)

unfoldable pub create_quantity_mapping :
    RowId → RowId → RowId → MappingBody → Db → Result Error (Mapping × Db)
create_quantity_mapping tenant project actor body db = do
  item ←
      or_refuse (find? (is_item tenant body.price_source_item_id) db.items)
        (failure "PRICE_SOURCE_ITEM_NOT_FOUND")
  snapshot ←
      or_refuse (find? (is_snapshot tenant item.snapshot_id) db.snapshots)
        (failure "PRICE_SOURCE_SNAPSHOT_NOT_FOUND")
  let provenance = lower (strip (text_or body.quantity_provenance []))
  refuse_if (not (one_of provenance eligible_quantity_provenance))
      (failure "QUANTITY_PROVENANCE_NOT_PRICING_ELIGIBLE")
  quantity ← positive_decimal body.quantity_value "QUANTITY_VALUE_INVALID"
  let unit = strip (text_or body.quantity_unit [])
  refuse_if (is_empty unit) (failure "QUANTITY_UNIT_REQUIRED")
  refuse_if (not (same_text unit item.unit)) (failure "QUANTITY_PRICE_UNIT_MISMATCH")
  let requested = lower (strip (text_or body.status (codes "proposed")))
  refuse_if (not (one_of requested (codes "proposed" ∷ codes "approved" ∷ [])))
      (failure "QUANTITY_MAPPING_STATUS_INVALID")
  refuse_if (same_text requested (codes "approved"))
      (failure "QUANTITY_MAPPING_APPROVAL_REQUIRES_APPROVAL_ENDPOINT")
  let canonical = take 160 (strip (text_or body.canonical_item_id []))
  let source_ref = take 500 (strip (text_or body.quantity_source_ref []))
  refuse_if (is_empty canonical || is_empty source_ref)
      (failure "QUANTITY_MAPPING_ID_AND_SOURCE_REQUIRED")
  let mapping : Mapping = record {
    id = db.next_id;
    tenant_id = tenant;
    project_id = project;
    canonical_item_id = canonical;
    quantity_source_ref = source_ref;
    quantity_value = quantity;
    quantity_unit = take 32 unit;
    quantity_provenance = provenance;
    price_source_item_id = item.id;
    mapping_explanation = text_if body.mapping_explanation;
    status = proposed;
    approved_by = none;
    created_by = actor;
  }
  ok (mapping, record db { mappings = mapping ∷ db.mappings; next_id = db.next_id + 1 })

abbrev pub approve_mapping : RowId → Mapping → Mapping
approve_mapping actor m = record m { status = approved; approved_by = some actor }

unfoldable pub approve_quantity_mapping :
    RowId → RowId → RowId → Text → RowId → Db → Result Error (Mapping × Db)
approve_quantity_mapping tenant project actor actor_role mapping_id db = do
  require_financial_approver actor_role
  mapping ←
      or_refuse (find? (is_mapping tenant project mapping_id) db.mappings)
        (failure "QUANTITY_MAPPING_NOT_FOUND")
  ok (
    approve_mapping actor mapping,
    record db {
      mappings = update_where (λ m. m.id == mapping.id) (approve_mapping actor) db.mappings;
    },
  )
