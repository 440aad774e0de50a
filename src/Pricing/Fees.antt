-- ===== src/Pricing/Fees.antt =====
-- src/glip/pricing/service.py: `estimate_professional_fee` and `add_realized_cost`.
use arquitech_glip_premium_b.Prelude.{
  ℕ, zero, suc, ◌+◌, ◌-◌, ◌*◌, Bool, not, ◌&&◌, Option, none, some, [], ◌∷◌, if◌then◌else◌, ltb,
  leb, ◌==◌, map, take, find?, Result, ok, err, Error, failure, uncaught, RowId, Text, codes,
  same_text, one_of, is_empty, strip, lower, upper, text_or, ℤ, pos, negsuc, IntField, absent,
  not_int, int,
}
use arquitech_glip_premium_b.Prelude.Results.{◌>>=◌, ◌>>◌, refuse_if, or_refuse}
use arquitech_glip_premium_b.Pricing.Data.{
  FeeLine, professional_fee, Estimate, Evidence, unknown, estimated, actual, no_ref, cited,
  LedgerEntry, Document, Db,
}
use arquitech_glip_premium_b.Pricing.Gate.{
  require_financial_approver, positive_decimal, round_half_up,
}
use arquitech_glip_premium_b.Pricing.Estimates.{record_estimate}

pub record FeeBody : Type 0 where
  pub expected_hours : Option ℤ
  pub hours_scale : ℕ
  pub hourly_cost_cents : IntField
  pub overhead_bps : IntField
  pub taxes_bps : IntField
  pub target_margin_bps : IntField
  pub scenario : Option Text

-- `int(body.get("hourly_cost_cents") or 0)` and its test; what `int` refuses is not caught.
unfoldable pub checked_hourly : IntField → Result Error ℕ
checked_hourly not_int = err (uncaught "ValueError")
checked_hourly (int (pos (suc n))) = ok (suc n)
checked_hourly _ = err (failure "FEE_HOURLY_COST_INVALID")

-- The local function `bps`.
unfoldable pub bps : IntField → Result Error ℕ
bps absent = ok 0
bps not_int = err (failure "FEE_BPS_INVALID")
bps (int (negsuc n)) = err (failure "FEE_BPS_INVALID")
bps (int (pos n)) = if ltb 100000 n then err (failure "FEE_BPS_INVALID") else ok n

-- A power of ten.
unfoldable pub ten_to : ℕ → ℕ
ten_to zero = 1
ten_to (suc n) = 10 * ten_to n

-- The hours are a decimal with any number of places.
unfoldable pub labor_cost : ℕ → ℕ → ℕ → ℕ
labor_cost hours scale hourly = round_half_up (hours * hourly) (ten_to scale)

unfoldable pub cost_with_overhead : ℕ → ℕ → ℕ
cost_with_overhead labor overhead = round_half_up (labor * (10000 + overhead)) 10000

unfoldable pub pre_tax : ℕ → ℕ → ℕ
pre_tax cost margin = round_half_up (cost * 10000) (10000 - margin)

unfoldable pub with_taxes : ℕ → ℕ → ℕ
with_taxes net taxes = round_half_up (net * (10000 + taxes)) 10000

unfoldable pub fee_total : FeeLine → ℕ
fee_total l =
    with_taxes (pre_tax (cost_with_overhead l.labor_cost_cents l.overhead_bps) l.target_margin_bps)
      l.taxes_bps

unfoldable pub fee_line : FeeBody → Result Error FeeLine
fee_line body = do
  hours ← positive_decimal body.expected_hours "FEE_EXPECTED_HOURS_INVALID"
  hourly ← checked_hourly body.hourly_cost_cents
  overhead ← bps body.overhead_bps
  taxes ← bps body.taxes_bps
  margin ← bps body.target_margin_bps
  refuse_if (leb 10000 margin) (failure "FEE_MARGIN_MUST_BE_BELOW_100_PERCENT")
  ok (record {
    expected_hours = hours;
    hours_scale = body.hours_scale;
    hourly_cost_cents = hourly;
    labor_cost_cents = labor_cost hours body.hours_scale hourly;
    overhead_bps = overhead;
    taxes_bps = taxes;
    target_margin_bps = margin;
  })

unfoldable pub estimate_professional_fee :
    RowId → RowId → RowId → Text → FeeBody → Db → Result Error (Estimate × Db)
estimate_professional_fee tenant project actor actor_role body db = do
  require_financial_approver actor_role
  line ← fee_line body
  let estimate : Estimate = record {
    id = db.next_id;
    tenant_id = tenant;
    project_id = project;
    scenario = text_or body.scenario (codes "probable");
    total_cents = fee_total line;
    inputs = professional_fee line;
    created_by = actor;
  }
  ok (estimate, record_estimate estimate (codes "professional_fee_estimate") db)

pub record CostBody : Type 0 where
  pub amount_cents : IntField
  pub evidence_status : Option Text
  pub source_ref : Option Text
  pub event_kind : Option Text
  pub currency : Option Text
  pub source_type : Option Text

-- `evidence_status` as one of its three values.
unfoldable pub evidence_of : Text → Result Error Evidence
evidence_of t =
    if same_text t (codes "unknown")
    then ok unknown
    else if same_text t (codes "estimated")
    then ok estimated
    else if same_text t (codes "actual")
    then ok actual
    else err (failure "COST_EVIDENCE_STATUS_INVALID")

unfoldable pub cost_amount : Evidence → IntField → Result Error (Option ℕ)
cost_amount unknown absent = ok none
cost_amount unknown _ = err (failure "UNKNOWN_COST_MUST_NOT_HAVE_AMOUNT")
cost_amount _ (int (pos n)) = ok (some n)
cost_amount _ _ = err (failure "COST_AMOUNT_INVALID")

-- What follows a prefix, if a text starts with it.
unfoldable pub after_prefix : Text → Text → Option Text
after_prefix [] t = some t
after_prefix (p ∷ ps) [] = none
after_prefix (p ∷ ps) (c ∷ t) = if p == c then after_prefix ps t else none

-- The document id of `document:<id>`.
unfoldable pub document_ref : Text → Result Error Text
document_ref [] = err (failure "ACTUAL_COST_EVIDENCE_REQUIRED")
document_ref (c ∷ t) = elim (after_prefix (codes "document:") (c ∷ t)) [
  | none ↦ err (failure "ACTUAL_COST_EVIDENCE_REF_INVALID")
  | some i ↦ if is_empty i then err (failure "ACTUAL_COST_EVIDENCE_REF_INVALID") else ok i
]

abbrev pub is_evidence : RowId → RowId → Text → Document → Bool
is_evidence tenant project i d =
    same_text d.id i && d.tenant_id == tenant && d.project_id == project && d.active

-- What an actual cost is checked against; other costs cite no document.
unfoldable pub verified_document :
    RowId → RowId → Text → Evidence → Text → Db → Result Error (Option Text)
verified_document tenant project actor_role actual source_ref db = do
  require_financial_approver actor_role
  document_id ← document_ref source_ref
  document ←
      or_refuse (find? (is_evidence tenant project document_id) db.documents)
        (failure "ACTUAL_COST_EVIDENCE_NOT_FOUND")
  let purposes = map (λ p. lower (strip p)) document.allowed_purposes
  refuse_if (not (one_of (codes "cost_evidence") purposes))
      (failure "ACTUAL_COST_EVIDENCE_PURPOSE_REQUIRED")
  ok (some document.id)
verified_document tenant project actor_role _ source_ref db = ok none

unfoldable pub add_realized_cost :
    RowId → RowId → RowId → Text → CostBody → Db → Result Error (LedgerEntry × Db)
add_realized_cost tenant project actor actor_role body db = do
  evidence ← evidence_of (lower (strip (text_or body.evidence_status (codes "unknown"))))
  amount ← cost_amount evidence body.amount_cents
  let source_ref = strip (text_or body.source_ref [])
  document ← verified_document tenant project actor_role evidence source_ref db
  let entry : LedgerEntry = record {
    id = db.next_id;
    tenant_id = tenant;
    project_id = project;
    event_kind = take 64 (text_or body.event_kind (codes "realized_cost"));
    evidence_status = evidence;
    currency = take 8 (upper (text_or body.currency (codes "BRL")));
    amount_cents = amount;
    source_type = take 64 (text_or body.source_type (codes "manual"));
    source_ref = if is_empty source_ref then no_ref else cited source_ref;
    evidence_document_id = document;
    created_by = actor;
  }
  ok (entry, record db { ledger = entry ∷ db.ledger; next_id = db.next_id + 1 })
