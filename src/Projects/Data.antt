-- ===== src/Projects/Data.antt =====
-- The tables of the projects (src/glip/models.py) and the bodies of their requests. Of a cognitive
-- profile, the columns that are copied from the settings are left out.
use arquitech_glip_premium_b.Prelude.{ℕ, Bool, Option, List, RowId, Text}

pub record Client : Type 0 where
  pub id : RowId
  pub tenant_id : Text
  pub name : Text

pub record Project : Type 0 where
  pub id : RowId
  pub tenant_id : Text
  pub client_id : Option RowId
  pub name : Text
  pub code : Option Text
  pub status : Text
  pub description : Option Text
  pub address_summary : Option Text
  pub context_version : ℕ
  pub created_by : Text
  pub archived_at : Option ℕ
  pub archived_by : Option Text

pub record CreateIdempotency : Type 0 where
  pub tenant_id : Text
  pub actor_id : Text
  pub idempotency_key : Text
  pub request_sha256 : RowId
  pub project_id : RowId

pub record CognitiveProfile : Type 0 where
  pub id : RowId
  pub tenant_id : Text
  pub project_id : RowId

pub data Field : Type 0 where
  name code client_id description address_summary status : Field

-- `event_type` and `payload`
pub data AuditKind : Type 0 where
  created : RowId → AuditKind
  updated : List Field → AuditKind
  archived restored : AuditKind

pub record AuditEvent : Type 0 where
  pub tenant_id : Text
  pub project_id : RowId
  pub actor_id : Text
  pub kind : AuditKind

-- The rows, newest first, and the next value of the primary keys.
pub record Tables : Type 0 where
  pub clients : List Client
  pub projects : List Project
  pub idempotency : List CreateIdempotency
  pub profiles : List CognitiveProfile
  pub audit : List AuditEvent
  pub next_id : RowId

-- `_project_create_payload`
pub record Payload : Type 0 where
  pub name : Text
  pub code : Option Text
  pub client_id : Option RowId
  pub description : Option Text
  pub address_summary : Option Text

-- The entries of a body that creates a project: `none` is a missing one or null.
pub record CreateBody : Type 0 where
  pub name : Option Text
  pub code : Option Text
  pub client_id : Option RowId
  pub description : Option Text
  pub address_summary : Option Text

-- A body that updates one: for each entry whether it is there, and its value, `none` for null.
pub record Patch : Type 0 where
  pub name : Option (Option Text)
  pub code : Option (Option Text)
  pub client_id : Option (Option RowId)
  pub description : Option (Option Text)
  pub address_summary : Option (Option Text)
  pub status : Option (Option Text)
  pub has_unknown : Bool
