-- ===== src/Pricing/FeeLaws.antt =====
-- What a professional fee of src/glip/pricing/service.py amounts to.
use arquitech_glip_premium_b.Prelude.{
  ℕ, zero, suc, ◌+◌, ◌-◌, ◌*◌, ◌≤◌, ◌<◌, ◌≡◌, ◌∷◌, true, Option, none, some, arith, ok, RowId, Text,
  codes, ℤ, pos, negsuc, IntField, absent, not_int, int, inl, inr,
}
use arquitech_glip_premium_b.Prelude.Results.{Result-cases, >>=-eq-ok}
use arquitech_glip_premium_b.Pricing.Data.{
  FeeLine, professional_fee, Estimate, Db, estimated, estimate_ref,
}
use arquitech_glip_premium_b.Pricing.Gate.{
  require_financial_approver, is_financial_approver, positive_decimal, round_half_up,
}
use arquitech_glip_premium_b.Pricing.Estimates.{record_estimate, estimate_entry}
use arquitech_glip_premium_b.Pricing.Fees.{
  FeeBody, checked_hourly, bps, ten_to, labor_cost, cost_with_overhead, pre_tax, with_taxes,
  fee_total, fee_line, estimate_professional_fee,
}
use arquitech_glip_premium_b.Pricing.Rounding.{round_half_up_bounds, round_half_up_grows}

-- The parameters that a fee accepts.
pub record IsFeeLine (l : FeeLine) : Type 0 where
  pub hours_pos : 0 < l.expected_hours
  pub hourly_pos : 0 < l.hourly_cost_cents
  pub overhead-le : l.overhead_bps ≤ 100000
  pub taxes-le : l.taxes_bps ≤ 100000
  pub margin-lt : l.target_margin_bps < 10000
  pub labor :
      l.labor_cost_cents
      ≡ round_half_up (l.expected_hours * l.hourly_cost_cents) (ten_to l.hours_scale)

bps-le : (f : IntField) {n : ℕ} → bps f ≡ ok n → n ≤ 100000
unfolding bps
bps-le absent h = ground arith
bps-le not_int h = cc
bps-le (int (negsuc k)) h = cc
bps-le (int (pos k)) h = ground arith

checked_hourly-pos : (f : IntField) {n : ℕ} → checked_hourly f ≡ ok n → 0 < n
unfolding checked_hourly
checked_hourly-pos absent h = cc
checked_hourly-pos not_int h = cc
checked_hourly-pos (int (negsuc k)) h = cc
checked_hourly-pos (int (pos zero)) h = cc
checked_hourly-pos (int (pos (suc k))) h = ground arith

positive_decimal-pos :
    (o : Option ℤ) {n : ℕ} → positive_decimal o "FEE_EXPECTED_HOURS_INVALID" ≡ ok n → 0 < n
unfolding positive_decimal
positive_decimal-pos none h = cc
positive_decimal-pos (some (negsuc k)) h = cc
positive_decimal-pos (some (pos zero)) h = cc
positive_decimal-pos (some (pos (suc k))) h = ground arith

fee_line-IsFeeLine : (body : FeeBody) {l : FeeLine} → fee_line body ≡ ok l → IsFeeLine l
unfolding fee_line labor_cost
fee_line-IsFeeLine body {l} h =
    let (hours, a, h₁) =
      >>=-eq-ok (positive_decimal body.expected_hours "FEE_EXPECTED_HOURS_INVALID") _ h in
    let (hourly, b, h₂) = >>=-eq-ok (checked_hourly body.hourly_cost_cents) _ h₁ in
    let (overhead, c, h₃) = >>=-eq-ok (bps body.overhead_bps) _ h₂ in
    let (taxes, d, h₄) = >>=-eq-ok (bps body.taxes_bps) _ h₃ in
    let (margin, e, h₅) = >>=-eq-ok (bps body.target_margin_bps) _ h₄ in
    ground (
      arith,
      positive_decimal-pos body.expected_hours a,
      checked_hourly-pos body.hourly_cost_cents b,
      bps-le body.overhead_bps c,
      bps-le body.taxes_bps d,
      h₅,
    )

-- For parameters in range, each stage of a professional fee only adds, and the amount before taxes
-- is within half a cent of the cost divided by one minus the margin.
pub fee_stages :
    (l : FeeLine)
    → IsFeeLine l
    → let cost = cost_with_overhead l.labor_cost_cents l.overhead_bps in
      let net = pre_tax cost l.target_margin_bps in
      let keep = 10000 - l.target_margin_bps in
      (l.labor_cost_cents ≤ cost)
      × (cost ≤ net)
      × (net ≤ fee_total l)
      × (2 * (keep * net) ≤ 2 * (cost * 10000) + keep)
      × (2 * (cost * 10000) ≤ 2 * (keep * net) + keep)
unfolding fee_total cost_with_overhead pre_tax with_taxes
fee_stages l h =
    let labor = l.labor_cost_cents in
    let cost = round_half_up (labor * (10000 + l.overhead_bps)) 10000 in
    let keep = 10000 - l.target_margin_bps in
    let net = round_half_up (cost * 10000) keep in
    let keep_pos : 0 < keep = let m = h.margin-lt in omega arith in
    let (below, above) = round_half_up_bounds (cost * 10000) keep keep_pos in
    (
      round_half_up_grows labor (10000 + l.overhead_bps) 10000 (omega arith) (omega arith),
      round_half_up_grows cost 10000 keep keep_pos (omega arith),
      round_half_up_grows net (10000 + l.taxes_bps) 10000 (omega arith) (omega arith),
      below,
      omega arith,
    )

-- A professional fee is returned only to a tenant owner and with parameters in range; its total is
-- at least the labour cost, and the tables gain the estimate and one ledger entry, in BRL, of its
-- total and its creator, that refers to it, and nothing else.
pub estimate_professional_fee_lem :
    (tenant project actor : RowId) (role : Text) (body : FeeBody) (db : Db) (e : Estimate)
    (after : Db)
    → estimate_professional_fee tenant project actor role body db ≡ ok (e, after)
    → (is_financial_approver role ≡ true)
      × ((l : FeeLine) × IsFeeLine l
          × (e.inputs ≡ professional_fee l)
          × (e.total_cents ≡ fee_total l)
          × (l.labor_cost_cents ≤ e.total_cents))
      × (after ≡ record db {
        estimates = e ∷ db.estimates;
        ledger =
            record {
              id = db.next_id + 1;
              tenant_id = tenant;
              project_id = project;
              event_kind = codes "professional_fee_estimate";
              evidence_status = estimated;
              currency = codes "BRL";
              amount_cents = some e.total_cents;
              source_type = codes "pricing_estimate";
              source_ref = estimate_ref e.id;
              evidence_document_id = none;
              created_by = actor;
            }
            ∷ db.ledger;
        next_id = db.next_id + 2;
      })
unfolding estimate_professional_fee require_financial_approver record_estimate estimate_entry
estimate_professional_fee_lem tenant project actor role body db e after h =
    elim (Result-cases (fee_line body)) [
      | inl (l, f) ↦
          let valid = fee_line-IsFeeLine body f in
          let (a, b, c, _, _) = fee_stages l valid in
          let total : e.total_cents ≡ fee_total l = ground (arith, f) in
          (ground (arith, f), (l, valid, ground (arith, f), total, omega arith), ground (arith, f))
      | inr (x, f) ↦ ground (arith, f)
    ]
