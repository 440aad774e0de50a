-- ===== src/Pricing/Costs.antt =====
-- What the cost ledger of src/glip/pricing/service.py may hold.
use mathlib.Core.Path.{subst}
use arquitech_glip_premium_b.Prelude.{
  ℕ, ◌+◌, ◌≡◌, refl, ◌≢◌, true, Option, none, some, List, [], ◌∷◌, map, sym, ◌∙◌, arith, find?, ok,
  failure, RowId, Text, codes, same_text-eq, one_of, strip, lower, text_or, pos, negsuc, IntField,
  absent, not_int, int,
}
use arquitech_glip_premium_b.Prelude.Results.{or_refuse, >>=-eq-ok}
use arquitech_glip_premium_b.Prelude.Tables.{find-holds}
use arquitech_glip_premium_b.Pricing.Data.{
  Evidence, unknown, estimated, actual, LedgerEntry, Document, Db,
}
use arquitech_glip_premium_b.Pricing.Gate.{require_financial_approver, is_financial_approver}
use arquitech_glip_premium_b.Pricing.Fees.{
  CostBody, evidence_of, cost_amount, document_ref, is_evidence, verified_document,
  add_realized_cost,
}

-- The document behind an actual cost.
pub record IsEvidenced (tenant project : RowId) (role : Text) (db : Db) (cited : Option Text)
    : Type 0 where
  pub by_owner : is_financial_approver role ≡ true
  pub document : Document
  pub same : cited ≡ some document.id
  pub there : find? (is_evidence tenant project document.id) db.documents ≡ some document
  pub active : document.active ≡ true
  pub purpose :
      one_of (codes "cost_evidence") (map (λ p. lower (strip p)) document.allowed_purposes) ≡ true

-- An entry's amount and document, by its evidence.
pub record IsEntry (tenant project : RowId) (role : Text) (db : Db) (e : LedgerEntry) : Type 0 where
  pub unknown_amount : e.evidence_status ≡ unknown → e.amount_cents ≡ none
  pub known_amount : e.evidence_status ≢ unknown → e.amount_cents ≢ none
  pub evidence :
      e.evidence_status ≡ actual → IsEvidenced tenant project role db e.evidence_document_id
  pub tenant_kept : e.tenant_id ≡ tenant
  pub project_kept : e.project_id ≡ project

cost_amount_unknown :
    (ev : Evidence) (f : IntField) {a : Option ℕ}
    → cost_amount ev f ≡ ok a
    → ev ≡ unknown
    → a ≡ none
unfolding cost_amount
cost_amount_unknown unknown absent h e = cc
cost_amount_unknown unknown not_int h e = cc
cost_amount_unknown unknown (int z) h e = cc
cost_amount_unknown estimated f h e = cc
cost_amount_unknown actual f h e = cc

cost_amount_known :
    (ev : Evidence) (f : IntField) {a : Option ℕ}
    → cost_amount ev f ≡ ok a
    → ev ≢ unknown
    → a ≢ none
unfolding cost_amount
cost_amount_known unknown f h e = absurd (e refl)
cost_amount_known estimated absent h e = cc
cost_amount_known estimated not_int h e = cc
cost_amount_known estimated (int (pos n)) h e = λ z. cc
cost_amount_known estimated (int (negsuc n)) h e = cc
cost_amount_known actual absent h e = cc
cost_amount_known actual not_int h e = cc
cost_amount_known actual (int (pos n)) h e = λ z. cc
cost_amount_known actual (int (negsuc n)) h e = cc

same_id :
    (tenant project : RowId) (i : Text) (docs : List Document) {d : Document}
    → find? (is_evidence tenant project i) docs ≡ some d
    → (d.id ≡ i) × (d.active ≡ true)
same_id tenant project i docs {d} h =
    let e = find-holds (is_evidence tenant project i) docs h in
    (same_text-eq d.id i (ground arith), ground arith)

verified_document-IsEvidenced :
    (tenant project : RowId) (role : Text) (source_ref : Text) (db : Db) {cited : Option Text}
    → verified_document tenant project role actual source_ref db ≡ ok cited
    → IsEvidenced tenant project role db cited
unfolding verified_document require_financial_approver
verified_document-IsEvidenced tenant project role source_ref db {cited} h =
    let (_, gate, h₁) = >>=-eq-ok (require_financial_approver role) _ h in
    let (i, ref, h₂) = >>=-eq-ok (document_ref source_ref) _ h₁ in
    let (d, found, h₃) =
      >>=-eq-ok
        (or_refuse (find? (is_evidence tenant project i) db.documents)
          (failure "ACTUAL_COST_EVIDENCE_NOT_FOUND"))
        _ h₂ in
    let there : find? (is_evidence tenant project i) db.documents ≡ some d = ground arith in
    let (named, on) = same_id tenant project i db.documents there in
    record {
      by_owner = ground arith;
      document = d;
      same = ground arith;
      there = rw named there;
      active = on;
      purpose = ground arith;
    }

-- Every recorded cost is one new ledger entry of the tenant and project; an unknown cost has no
-- amount and any other has one; an actual cost needs a tenant owner and an active document of the
-- tenant and project marked as cost evidence.
pub add_realized_cost-IsEntry :
    (tenant project actor : RowId) (role : Text) (body : CostBody) (db : Db) (e : LedgerEntry)
    (after : Db)
    → add_realized_cost tenant project actor role body db ≡ ok (e, after)
    → IsEntry tenant project role db e
      × (after ≡ record db { ledger = e ∷ db.ledger; next_id = db.next_id + 1 })
unfolding add_realized_cost
add_realized_cost-IsEntry tenant project actor role body db e after h =
    let stated = lower (strip (text_or body.evidence_status (codes "unknown"))) in
    let source_ref = strip (text_or body.source_ref []) in
    let (ev, a, h₁) = >>=-eq-ok (evidence_of stated) _ h in
    let (amount, b, h₂) = >>=-eq-ok (cost_amount ev body.amount_cents) _ h₁ in
    let (doc, c, h₃) = >>=-eq-ok (verified_document tenant project role ev source_ref db) _ h₂ in
    let kind : e.evidence_status ≡ ev = ground arith in
    let paid : e.amount_cents ≡ amount = ground arith in
    let cited : e.evidence_document_id ≡ doc = ground arith in
    (
      record {
        unknown_amount = λ u. paid ∙ cost_amount_unknown ev body.amount_cents b (sym kind ∙ u);
        known_amount =
            λ u n. cost_amount_known ev body.amount_cents b (λ v. u (kind ∙ v)) (sym paid ∙ n);
        evidence = λ u. rw cited (
            verified_document-IsEvidenced tenant project role source_ref db (
              subst (λ v. verified_document tenant project role v source_ref db ≡ ok doc)
                (sym kind ∙ u) c));
        tenant_kept = ground arith;
        project_kept = ground arith;
      },
      ground arith,
    )
