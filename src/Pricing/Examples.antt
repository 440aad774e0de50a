-- ===== src/Pricing/Examples.antt =====
-- A run of src/glip/pricing/service.py: a supplier quote is submitted, approved, mapped and priced; and
-- the theorems at it.
use arquitech_glip_premium_b.Prelude.{
  ◌+◌, ◌≤◌, ◌≡◌, refl, true, false, none, some, List, [], ◌∷◌, arith, ok, err, Text, codes, not_int,
  int, uncaught, ◌*◌, pos, All, same_text, one_of, strip, lower, upper, lstrip, rstrip,
}
use arquitech_glip_premium_b.Pricing.Data.{
  Db, Estimate, construction_cost, professional_fee, FeeLine, Line, LedgerEntry, actual, cited,
  approved,
}
use arquitech_glip_premium_b.Pricing.Sources.{
  valid_roles, distinct, normalized_roles, validate_roles, registry, registry_get,
  detailed_cost_role_allowed, detailed_cost_roles, valid_source_statuses,
}
use arquitech_glip_premium_b.Pricing.Gate.{
  financial_approver_roles, require_financial_approver, is_financial_approver, positive_decimal,
  eligible_quantity_provenance, server_verified_source_keys, official_source_keys,
  manual_approvable_source_keys, round_half_up,
}
use arquitech_glip_premium_b.Pricing.Snapshots.{
  SnapshotBody, no_time, is_sha256_hex, parse_dt, prepare_snapshot, item_cents, prepare_item,
  prepare_items, same_evidence, same_item, has_duplicate, create_price_snapshot, grant_authority,
  approve_price_snapshot,
}
use arquitech_glip_premium_b.Pricing.Mappings.{
  MappingBody, create_quantity_mapping, approve_quantity_mapping,
}
use arquitech_glip_premium_b.Pricing.Estimates.{
  cost_authority, price_of, price_line, price_lines, base_total, checked_factor, scenarios,
  estimate_entry, record_estimate, estimate_construction,
}
use arquitech_glip_premium_b.Pricing.Fees.{
  ten_to, FeeBody, CostBody, checked_hourly, bps, labor_cost, cost_with_overhead, pre_tax,
  with_taxes, fee_total, fee_line, estimate_professional_fee, evidence_of, cost_amount,
  after_prefix, document_ref, verified_document, add_realized_cost,
}
use arquitech_glip_premium_b.Pricing.Service.{
  Call, create_snapshot, approve_snapshot, create_mapping, approve_mapping, mutable_project,
  on_project, serve, serve_all,
}
use arquitech_glip_premium_b.Pricing.Priced.{IsEstimate, estimate_construction-IsEstimate}
use arquitech_glip_premium_b.Pricing.Authority.{IsSound}
use arquitech_glip_premium_b.Pricing.Sound.{serve_all-IsSound}
use arquitech_glip_premium_b.Pricing.Quoted.{IsQuoted, estimate-IsQuoted}
use arquitech_glip_premium_b.Pricing.FeeLaws.{IsFeeLine, fee_stages, estimate_professional_fee_lem}
use arquitech_glip_premium_b.Pricing.Costs.{IsEntry, add_realized_cost-IsEntry}
use arquitech_glip_premium_b.Pricing.Isolation.{IsSameFor, serve_isolated}

run : Unit {0}
unfolding lstrip rstrip strip lower upper one_of same_text valid_roles distinct normalized_roles
    validate_roles registry registry_get detailed_cost_role_allowed detailed_cost_roles
    valid_source_statuses financial_approver_roles require_financial_approver positive_decimal
    eligible_quantity_provenance server_verified_source_keys official_source_keys
    manual_approvable_source_keys round_half_up is_sha256_hex parse_dt prepare_snapshot item_cents
    prepare_item prepare_items same_evidence same_item has_duplicate create_price_snapshot
    grant_authority approve_price_snapshot create_quantity_mapping approve_quantity_mapping
    cost_authority price_of price_line price_lines base_total checked_factor scenarios
    estimate_entry record_estimate estimate_construction mutable_project on_project serve serve_all
    checked_hourly bps ten_to labor_cost cost_with_overhead pre_tax with_taxes fee_total fee_line
    estimate_professional_fee evidence_of cost_amount after_prefix document_ref verified_document
    add_realized_cost
run = tt

abbrev empty : Db
empty = record {
  projects = record { id = 3; tenant_id = 7; archived_at = none; context_version = 1 } ∷ [];
  snapshots = [];
  items = [];
  mappings = [];
  estimates = [];
  ledger = [];
  documents =
      record {
        id = codes "d1";
        tenant_id = 7;
        project_id = 3;
        allowed_purposes = codes " Cost_Evidence" ∷ [];
        version = 1;
        active = true;
      }
      ∷ [];
  next_id = 1;
}

abbrev quote : SnapshotBody
quote = record {
  source_key = some (codes " Supplier_Quote ");
  roles = codes "market_quote" ∷ [];
  validity_status = some (codes "valid");
  competency = some (codes "2024-05");
  source_ref = some (codes "offer 12");
  evidence_sha256 = some (codes "0123456789abcdef0123456789abcdef0123456789abcdef0123456789abcdef");
  geography = some 55;
  metadata = none;
  publisher = none;
  retrieved_at = no_time;
  items =
      record {
        role = some (codes "market_quote");
        source_code = some (codes "A1");
        description = some (codes "tile");
        unit = some (codes "m2");
        unit_price_cents = int (pos 1250);
        currency = none;
        evidence = none;
      }
      ∷ [];
}

abbrev area : MappingBody
area = record {
  price_source_item_id = 2;
  quantity_provenance = some (codes "authoritative_ifc");
  quantity_value = some (pos 10500000);
  quantity_unit = some (codes "m2");
  status = none;
  canonical_item_id = some (codes "floor");
  quantity_source_ref = some (codes "ifc:1");
  mapping_explanation = none;
}

abbrev owner : Text
owner = codes "owner"

abbrev calls : List Call
calls =
    create_snapshot 7 8 quote 100
    ∷ approve_snapshot 7 9 owner 1 200
    ∷ create_mapping 7 3 8 area
    ∷ approve_mapping 7 3 9 owner 3
    ∷ []

abbrev line : Line
line = record {
  canonical_item_id = codes "floor";
  mapping_id = 3;
  quantity = 10500000;
  unit = codes "m2";
  quantity_provenance = codes "authoritative_ifc";
  price_source = codes "supplier_quote";
  source_code = codes "A1";
  role = codes "MARKET_QUOTE";
  competency = codes "2024-05";
  geography = 55;
  mapping_explanation = none;
  approval_status = approved;
  price_source_snapshot_id = 1;
  price_source_item_id = 2;
  unit_price_cents = 1250;
  base_subtotal_cents = 13125;
}

abbrev estimate : Estimate
estimate = record {
  id = 4;
  tenant_id = 7;
  project_id = 3;
  scenario = codes "probable";
  total_cents = 14438;
  inputs = construction_cost (3 ∷ []) 11000 (line ∷ []);
  created_by = 9;
}

priced :
    estimate_construction 7 3 9 owner
      (3 ∷ [])
      (codes "probable")
      (int (pos 11000))
      (serve_all calls empty)
    ≡ ok
        (estimate, record_estimate estimate (codes "construction_estimate") (serve_all calls empty))
unfolding run
priced = refl

empty-IsSound : IsSound empty
empty-IsSound = record { trusted = tt; ids_used = tt; ids_once = λ i. ground arith }

abbrev fee_body : FeeBody
fee_body = record {
  expected_hours = some (pos 2000000);
  hours_scale = 6;
  hourly_cost_cents = int (pos 10000);
  overhead_bps = int (pos 1000);
  taxes_bps = int (pos 500);
  target_margin_bps = int (pos 2000);
  scenario = none;
}

abbrev fee_parts : FeeLine
fee_parts = record {
  expected_hours = 2000000;
  hours_scale = 6;
  hourly_cost_cents = 10000;
  labor_cost_cents = 20000;
  overhead_bps = 1000;
  taxes_bps = 500;
  target_margin_bps = 2000;
}

abbrev fee : Estimate
fee = record {
  id = 1;
  tenant_id = 7;
  project_id = 3;
  scenario = codes "probable";
  total_cents = 28875;
  inputs = professional_fee fee_parts;
  created_by = 9;
}

abbrev invoice : CostBody
invoice = record {
  amount_cents = int (pos 500);
  evidence_status = some (codes "actual");
  source_ref = some (codes "document:d1");
  event_kind = none;
  currency = none;
  source_type = none;
}

abbrev cost : LedgerEntry
cost = record {
  id = 1;
  tenant_id = 7;
  project_id = 3;
  event_kind = codes "realized_cost";
  evidence_status = actual;
  currency = codes "BRL";
  amount_cents = some 500;
  source_type = codes "manual";
  source_ref = cited (codes "document:d1");
  evidence_document_id = some (codes "d1");
  created_by = 9;
}

abbrev costed : Db
costed = record empty { ledger = cost ∷ []; next_id = 2 }

-- A text that `int` refuses reaches no handler of the route.
fee_uncaught :
    (estimate_professional_fee 7 3 9 owner (record fee_body { hourly_cost_cents = not_int }) empty)
    ≡ err (uncaught "ValueError")
unfolding run
fee_uncaught = refl

estimate_construction-IsEstimate_example :
    IsEstimate 7 3 9 owner
      (3 ∷ [])
      (codes "probable")
      (serve_all calls empty)
      estimate
      (record_estimate estimate (codes "construction_estimate") (serve_all calls empty))
estimate_construction-IsEstimate_example =
    estimate_construction-IsEstimate 7 3 9 owner (3 ∷ []) (codes "probable") (int (pos 11000))
      (serve_all calls empty) estimate
      (record_estimate estimate (codes "construction_estimate") (serve_all calls empty)) priced

serve_all-IsSound_example : IsSound (serve_all calls empty)
serve_all-IsSound_example = serve_all-IsSound calls empty empty-IsSound

estimate-IsQuoted_example : All (IsQuoted 7 3 (serve_all calls empty)) (3 ∷ [])
estimate-IsQuoted_example =
    estimate-IsQuoted calls empty 7 3 9 owner (3 ∷ []) (codes "probable") (int (pos 11000)) estimate
      (record_estimate estimate (codes "construction_estimate") (serve_all calls empty))
      empty-IsSound priced

fee_parts-IsFeeLine : IsFeeLine fee_parts
unfolding run
fee_parts-IsFeeLine = record {
  hours_pos = omega arith;
  hourly_pos = omega arith;
  overhead-le = omega arith;
  taxes-le = omega arith;
  margin-lt = omega arith;
  labor = refl;
}

fee_stages_example :
    (20000 ≤ cost_with_overhead 20000 1000)
    × (cost_with_overhead 20000 1000 ≤ pre_tax (cost_with_overhead 20000 1000) 2000)
    × (pre_tax (cost_with_overhead 20000 1000) 2000 ≤ fee_total fee_parts)
    × (2 * (8000 * pre_tax (cost_with_overhead 20000 1000) 2000)
        ≤ 2 * (cost_with_overhead 20000 1000 * 10000) + 8000)
    × (2 * (cost_with_overhead 20000 1000 * 10000)
        ≤ 2 * (8000 * pre_tax (cost_with_overhead 20000 1000) 2000) + 8000)
fee_stages_example = fee_stages fee_parts fee_parts-IsFeeLine

fee_made :
    estimate_professional_fee 7 3 9 owner fee_body empty
    ≡ ok (fee, record_estimate fee (codes "professional_fee_estimate") empty)
unfolding run
fee_made = refl

estimate_professional_fee_example :
    (is_financial_approver owner ≡ true)
    × ((l : FeeLine) × IsFeeLine l
        × (fee.inputs ≡ professional_fee l)
        × (fee.total_cents ≡ fee_total l)
        × (l.labor_cost_cents ≤ fee.total_cents))
    × (record_estimate fee (codes "professional_fee_estimate") empty
        ≡ record_estimate fee (codes "professional_fee_estimate") empty)
unfolding record_estimate estimate_entry
estimate_professional_fee_example =
    estimate_professional_fee_lem 7 3 9 owner fee_body empty fee
      (record_estimate fee (codes "professional_fee_estimate") empty) fee_made

cost_made : add_realized_cost 7 3 9 owner invoice empty ≡ ok (cost, costed)
unfolding run
cost_made = refl

add_realized_cost-IsEntry_example : IsEntry 7 3 owner empty cost × (costed ≡ costed)
add_realized_cost-IsEntry_example =
    add_realized_cost-IsEntry 7 3 9 owner invoice empty cost costed cost_made

not_owner : is_financial_approver (codes "member") ≡ false
unfolding run
not_owner = refl

serve_isolated_example :
    IsSameFor 6
      (serve_all calls empty)
      (serve (approve_mapping 7 3 9 owner 3) (serve_all calls empty))
unfolding run
serve_isolated_example =
    serve_isolated 6 (approve_mapping 7 3 9 owner 3) (serve_all calls empty) (ground arith)
      (record { snapshots_once = λ i. ground arith; mappings_once = λ i. ground arith })
