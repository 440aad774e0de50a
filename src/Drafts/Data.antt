-- ===== src/Drafts/Data.antt =====
-- The tables behind a draft's approval (src/glip/models.py). Columns that are only stored for display
-- (capability, voice profile, risk scan, sources) are left out.
use arquitech_glip_premium_b.Prelude.{ℕ, Option, Bool, true, false, List, RowId, Text}

pub record Project : Type 0 where
  pub id : RowId
  pub tenant_id : RowId
  pub archived_at : Option ℕ
  pub context_version : ℕ

-- The `decision` that the routes pass on.
pub data Decision : Type 0 where
  approved rejected : Decision

pub data DraftStatus : Type 0 where
  contextualized calling failed criticized awaiting_approval : DraftStatus
  decided : Decision → DraftStatus

pub record Draft : Type 0 where
  pub id : RowId
  pub tenant_id : RowId
  pub project_id : RowId
  pub status : DraftStatus
  pub current_version : ℕ
  pub created_by : RowId

pub record Version : Type 0 where
  pub id : RowId
  pub tenant_id : RowId
  pub project_id : RowId
  pub draft_id : RowId
  pub version : ℕ
  pub content : Text
  pub content_sha256 : RowId
  pub created_by_id : RowId
  pub project_context_version : ℕ

pub data RequestStatus : Type 0 where
  awaiting invalidated : RequestStatus
  closed : Decision → RequestStatus

pub record ApprovalRequest : Type 0 where
  pub id : RowId
  pub tenant_id : RowId
  pub project_id : RowId
  pub draft_id : RowId
  pub draft_version_id : RowId
  pub requested_content_sha256 : RowId
  pub status : RequestStatus
  pub requested_by : RowId

pub record ApprovalDecision : Type 0 where
  pub id : RowId
  pub tenant_id : RowId
  pub project_id : RowId
  pub approval_request_id : RowId
  pub draft_id : RowId
  pub draft_version_id : RowId
  pub decision : Decision
  pub approved_content_sha256 : Option RowId
  pub actor_id : RowId
  pub reason : Option Text

pub record ApprovedVersion : Type 0 where
  pub id : RowId
  pub tenant_id : RowId
  pub project_id : RowId
  pub draft_id : RowId
  pub draft_version_id : RowId
  pub approval_decision_id : RowId
  pub content : Text
  pub content_sha256 : RowId
  pub approved_by : RowId

pub data CandidateStatus : Type 0 where
  pending promoted : CandidateStatus

pub record MemoryCandidate : Type 0 where
  pub id : RowId
  pub tenant_id : RowId
  pub project_id : RowId
  pub source_approved_version_id : RowId
  pub source_content_sha256 : RowId
  pub status : CandidateStatus
  pub decided_by : Option RowId
  pub decided_at : Option ℕ

pub record MemoryFact : Type 0 where
  pub id : RowId
  pub tenant_id : RowId
  pub project_id : RowId
  pub fact_key : Text
  pub fact_value : Text
  pub version : ℕ
  pub source_approved_version_id : RowId
  pub approved_by : RowId

-- An event of the outbox for an approved draft.
pub record OutboxEvent : Type 0 where
  pub id : RowId
  pub tenant_id : RowId
  pub project_id : RowId
  pub causation_id : RowId
  pub approved_version_id : RowId
  pub draft_id : RowId
  pub content_sha256 : RowId

-- `event_type` and `payload` of an audit event.
pub data AuditKind : Type 0 where
  draft_approved : (approved_version_id : Option RowId) → AuditKind
  memory_promoted : (memory_fact_id candidate_id : RowId) → AuditKind

pub record AuditEvent : Type 0 where
  pub tenant_id : RowId
  pub project_id : RowId
  pub actor_id : RowId
  pub kind : AuditKind

-- The rows, newest first, and the next value of the primary keys' default.
pub record Db : Type 0 where
  pub projects : List Project
  pub drafts : List Draft
  pub versions : List Version
  pub requests : List ApprovalRequest
  pub decisions : List ApprovalDecision
  pub approved_versions : List ApprovedVersion
  pub candidates : List MemoryCandidate
  pub facts : List MemoryFact
  pub outbox : List OutboxEvent
  pub audit : List AuditEvent
  pub next_id : RowId

abbrev pub is_awaiting : RequestStatus → Bool
is_awaiting awaiting = true
is_awaiting _ = false

abbrev pub is_pending : CandidateStatus → Bool
is_pending pending = true
is_pending promoted = false
