-- ===== src/Pricing/Data.antt =====
-- The tables of src/glip/pricing (src/glip/models.py), and what the request bodies hold. Quantities and
-- hours are counted in millionths, the scale of `Numeric(20,6)`; money in cents. JSON that is only
-- stored is a number.
use arquitech_glip_premium_b.Drafts.Data.{Project}
use arquitech_glip_premium_b.Prelude.{ℕ, Bool, Option, List, RowId, Text}

-- `raw_metadata_json`: the caller's entries, and those that the service writes over them.
pub record Metadata : Type 0 where
  pub extra : Option RowId
  pub submission_trust : Text
  pub requested_validity_status : Text
  pub evidence_hash_trust : Text
  pub monetary_authority : Bool
  pub authority_transition : Option Text

pub data Validity : Type 0 where
  valid partial unavailable human_review_required : Validity

pub data Authority : Type 0 where
  unverified server_verified human_approved : Authority

pub record Snapshot : Type 0 where
  pub id : RowId
  pub tenant_id : RowId
  pub source_key : Text
  pub provider : Text
  pub publisher : Text
  pub roles : List Text
  pub geography : RowId
  pub competency : Text
  pub source_ref : Text
  pub evidence_sha256 : Text
  pub retrieved_at : ℕ
  pub validity_status : Validity
  pub authority_status : Authority
  pub authority_method : Text
  pub authority_by : Option RowId
  pub authority_at : Option ℕ
  pub metadata : Metadata
  pub billing_scope : Text
  pub created_by : RowId

pub record Item : Type 0 where
  pub id : RowId
  pub tenant_id : RowId
  pub snapshot_id : RowId
  pub source_code : Text
  pub description : Text
  pub unit : Text
  pub role : Text
  pub currency : Text
  pub unit_price_cents : Option ℕ
  pub evidence : Option RowId
  pub manually_approved : Bool

pub data MappingStatus : Type 0 where
  proposed approved : MappingStatus

pub record Mapping : Type 0 where
  pub id : RowId
  pub tenant_id : RowId
  pub project_id : RowId
  pub canonical_item_id : Text
  pub quantity_source_ref : Text
  pub quantity_value : ℕ
  pub quantity_unit : Text
  pub quantity_provenance : Text
  pub price_source_item_id : RowId
  pub mapping_explanation : Option Text
  pub status : MappingStatus
  pub approved_by : Option RowId
  pub created_by : RowId

-- One entry of `lines_json` of a construction estimate. The digest of an estimate's provenance is
-- left out.
pub record Line : Type 0 where
  pub canonical_item_id : Text
  pub mapping_id : RowId
  pub quantity : ℕ
  pub unit : Text
  pub quantity_provenance : Text
  pub price_source : Text
  pub source_code : Text
  pub role : Text
  pub competency : Text
  pub geography : RowId
  pub mapping_explanation : Option Text
  pub approval_status : MappingStatus
  pub price_source_snapshot_id : RowId
  pub price_source_item_id : RowId
  pub unit_price_cents : ℕ
  pub base_subtotal_cents : ℕ

-- The entry of a professional fee; the hours are counted in units of 10 to the minus `hours_scale`.
pub record FeeLine : Type 0 where
  pub expected_hours : ℕ
  pub hours_scale : ℕ
  pub hourly_cost_cents : ℕ
  pub labor_cost_cents : ℕ
  pub overhead_bps : ℕ
  pub taxes_bps : ℕ
  pub target_margin_bps : ℕ

pub data Inputs : Type 0 where
  construction_cost : (mapping_ids : List RowId) (factor_bps : ℕ) (lines : List Line) → Inputs
  professional_fee : FeeLine → Inputs

pub record Estimate : Type 0 where
  pub id : RowId
  pub tenant_id : RowId
  pub project_id : RowId
  pub scenario : Text
  pub total_cents : ℕ
  pub inputs : Inputs
  pub created_by : RowId

pub data Evidence : Type 0 where
  unknown estimated actual : Evidence

-- `source_ref`: none, the id of an estimate, or the text that a caller cited.
pub data SourceRef : Type 0 where
  no_ref : SourceRef
  estimate_ref : RowId → SourceRef
  cited : Text → SourceRef

pub record LedgerEntry : Type 0 where
  pub id : RowId
  pub tenant_id : RowId
  pub project_id : RowId
  pub event_kind : Text
  pub evidence_status : Evidence
  pub currency : Text
  pub amount_cents : Option ℕ
  pub source_type : Text
  pub source_ref : SourceRef
  -- `metadata_json["evidence_document_id"]`, which the service writes
  pub evidence_document_id : Option Text
  pub created_by : RowId

pub record Document : Type 0 where
  pub id : Text
  pub tenant_id : RowId
  pub project_id : RowId
  pub allowed_purposes : List Text
  pub version : ℕ
  pub active : Bool

-- The rows, newest first, and the next value of the primary keys' default.
pub record Db : Type 0 where
  pub projects : List Project
  pub snapshots : List Snapshot
  pub items : List Item
  pub mappings : List Mapping
  pub estimates : List Estimate
  pub ledger : List LedgerEntry
  pub documents : List Document
  pub next_id : RowId
