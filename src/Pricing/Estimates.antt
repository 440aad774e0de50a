-- ===== src/Pricing/Estimates.antt =====
-- src/glip/pricing/service.py: `estimate_construction`. Decimal products and quotients are exact here;
-- Python's are while they have at most 28 digits.
use arquitech_glip_premium_b.Prelude.{
  ℕ, zero, suc, ◌+◌, ◌*◌, Bool, true, false, not, ◌&&◌, ◌||◌, Option, none, some, List, [], ◌∷◌,
  if◌then◌else◌, ltb, leb, all, find?, is_none, Result, ok, err, Error, failure, RowId, Text, codes,
  same_text, one_of, pos, IntField, int, truthy,
}
use arquitech_glip_premium_b.Prelude.Results.{◌>>=◌, ◌>>◌, refuse_if, or_refuse}
use arquitech_glip_premium_b.Pricing.Data.{
  valid, Validity, unverified, server_verified, human_approved, Authority, MappingStatus, approved,
  Snapshot, Item, Mapping, Line, construction_cost, Estimate, estimated, estimate_ref, LedgerEntry,
  Db,
}
use arquitech_glip_premium_b.Pricing.Snapshots.{is_snapshot}
use arquitech_glip_premium_b.Pricing.Mappings.{is_item, is_mapping}
use arquitech_glip_premium_b.Pricing.Sources.{detailed_cost_role_allowed}
use arquitech_glip_premium_b.Pricing.Gate.{
  require_financial_approver, eligible_quantity_provenance, server_verified_source_keys,
  round_half_up,
}

abbrev pub is_approved : MappingStatus → Bool
is_approved approved = true
is_approved _ = false

abbrev pub is_valid : Validity → Bool
is_valid valid = true
is_valid _ = false

-- `EXECUTABLE_AUTHORITY_STATES`
abbrev pub is_executable : Authority → Bool
is_executable unverified = false
is_executable _ = true

abbrev pub is_server_verified : Authority → Bool
is_server_verified server_verified = true
is_server_verified _ = false

abbrev pub is_human_approved : Authority → Bool
is_human_approved human_approved = true
is_human_approved _ = false

-- An actor's id, where the empty text counts as missing.
abbrev pub has_approver : Option RowId → Bool
has_approver none = false
has_approver (some i) = truthy i

-- The positive amount that an item must carry.
unfoldable pub cost_authority : Option ℕ → Result Error ℕ
cost_authority none = err (failure "PRICE_ITEM_AMOUNT_REQUIRED")
cost_authority (some zero) = err (failure "PRICE_ITEM_NON_POSITIVE_NOT_COST_AUTHORITY")
cost_authority (some (suc n)) = ok (suc n)

-- The tests that a snapshot and its item pass before they may price a mapping.
unfoldable pub price_of : Mapping → Item → Snapshot → Result Error ℕ
price_of mapping item snapshot = do
  refuse_if (not (is_valid snapshot.validity_status)) (failure "PRICE_SOURCE_NOT_VALID")
  refuse_if (not (is_executable snapshot.authority_status)) (failure "PRICE_SOURCE_NOT_AUTHORIZED")
  refuse_if
      (one_of snapshot.source_key server_verified_source_keys
        && not (is_server_verified snapshot.authority_status))
      (failure "PRICE_SOURCE_SERVER_VERIFICATION_REQUIRED")
  refuse_if (is_human_approved snapshot.authority_status && not item.manually_approved)
      (failure "PRICE_ITEM_NOT_HUMAN_APPROVED")
  refuse_if (not (detailed_cost_role_allowed item.role))
      (failure "PRICE_ROLE_NOT_DETAILED_COST_AUTHORITY")
  cents ← cost_authority item.unit_price_cents
  refuse_if (not (same_text item.unit mapping.quantity_unit))
      (failure "QUANTITY_PRICE_UNIT_MISMATCH")
  ok cents

-- One round of the loop over the mapping ids.
unfoldable pub price_line : RowId → RowId → Db → RowId → Result Error Line
price_line tenant project db mapping_id = do
  mapping ←
      or_refuse (find? (is_mapping tenant project mapping_id) db.mappings)
        (failure "QUANTITY_MAPPING_NOT_FOUND")
  refuse_if (not (is_approved mapping.status) || not (has_approver mapping.approved_by))
      (failure "QUANTITY_MAPPING_NOT_APPROVED")
  refuse_if (not (one_of mapping.quantity_provenance eligible_quantity_provenance))
      (failure "QUANTITY_PROVENANCE_NOT_PRICING_ELIGIBLE")
  item ←
      or_refuse (find? (is_item tenant mapping.price_source_item_id) db.items)
        (failure "PRICE_SOURCE_ITEM_NOT_FOUND")
  snapshot ←
      or_refuse (find? (is_snapshot tenant item.snapshot_id) db.snapshots)
        (failure "PRICE_SOURCE_SNAPSHOT_NOT_FOUND")
  cents ← price_of mapping item snapshot
  ok (record {
    canonical_item_id = mapping.canonical_item_id;
    mapping_id = mapping.id;
    quantity = mapping.quantity_value;
    unit = mapping.quantity_unit;
    quantity_provenance = mapping.quantity_provenance;
    price_source = snapshot.source_key;
    source_code = item.source_code;
    role = item.role;
    competency = snapshot.competency;
    geography = snapshot.geography;
    mapping_explanation = mapping.mapping_explanation;
    approval_status = mapping.status;
    price_source_snapshot_id = snapshot.id;
    price_source_item_id = item.id;
    unit_price_cents = cents;
    base_subtotal_cents = round_half_up (mapping.quantity_value * cents) 1000000;
  })

unfoldable pub price_lines : RowId → RowId → Db → List RowId → Result Error (List Line)
price_lines tenant project db [] = ok []
price_lines tenant project db (i ∷ rest) = do
  let priced = price_lines tenant project db rest
  line ← price_line tenant project db i
  lines ← priced
  ok (line ∷ lines)

unfoldable pub base_total : List Line → ℕ
base_total [] = 0
base_total (l ∷ ls) = l.base_subtotal_cents + base_total ls

-- `isinstance(factor_bps, int)` and the range of the factor.
unfoldable pub checked_factor : IntField → Result Error ℕ
checked_factor (int (pos n)) =
    if ltb 0 n && leb n 50000 then ok n else err (failure "PRICING_FACTOR_INVALID")
checked_factor _ = err (failure "PRICING_FACTOR_INVALID")

unfoldable pub scenarios : List Text
scenarios = codes "conservative" ∷ codes "probable" ∷ codes "premium" ∷ []

-- The ledger entry that goes with an estimate.
unfoldable pub estimate_entry : Estimate → Text → RowId → LedgerEntry
estimate_entry e event new_id = record {
  id = new_id;
  tenant_id = e.tenant_id;
  project_id = e.project_id;
  event_kind = event;
  evidence_status = estimated;
  currency = codes "BRL";
  amount_cents = some e.total_cents;
  source_type = codes "pricing_estimate";
  source_ref = estimate_ref e.id;
  evidence_document_id = none;
  created_by = e.created_by;
}

unfoldable pub record_estimate : Estimate → Text → Db → Db
record_estimate e event db = record db {
  estimates = e ∷ db.estimates;
  ledger = estimate_entry e event (db.next_id + 1) ∷ db.ledger;
  next_id = db.next_id + 2;
}

unfoldable pub estimate_construction :
    RowId → RowId → RowId → Text → List RowId → Text → IntField → Db → Result Error (Estimate × Db)
estimate_construction tenant project actor actor_role mapping_ids scenario factor_bps db = do
  require_financial_approver actor_role
  refuse_if (not (one_of scenario scenarios)) (failure "PRICING_SCENARIO_INVALID")
  factor ← checked_factor factor_bps
  refuse_if (elim mapping_ids [ [] ↦ true | _ ∷ _ ↦ false ]) (failure "PRICING_MAPPINGS_REQUIRED")
  refuse_if
      (not (all (λ i. not (is_none (find? (is_mapping tenant project i) db.mappings))) mapping_ids))
      (failure "QUANTITY_MAPPING_NOT_FOUND")
  lines ← price_lines tenant project db mapping_ids
  let estimate : Estimate = record {
    id = db.next_id;
    tenant_id = tenant;
    project_id = project;
    scenario = scenario;
    total_cents = round_half_up (base_total lines * factor) 10000;
    inputs = construction_cost mapping_ids factor lines;
    created_by = actor;
  }
  ok (estimate, record_estimate estimate (codes "construction_estimate") db)
