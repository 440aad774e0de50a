-- ===== src/Bim/Data.antt =====
-- The tables of src/glip/bim/service.py (src/glip/models.py). A scene's JSON is only stored, so an id
-- stands for it.
use arquitech_glip_premium_b.Prelude.{ℕ, Bool, Option, List, RowId, Text, String}

pub record Source : Type 0 where
  pub id : RowId
  pub tenant_id : RowId
  pub project_id : RowId
  pub source_format : Text
  pub storage_key : RowId
  pub sha256 : RowId
  pub status : Text

pub data JobStatus : Type 0 where
  queued processing completed failed : JobStatus

pub record Job : Type 0 where
  pub id : RowId
  pub tenant_id : RowId
  pub project_id : RowId
  pub source_id : RowId
  pub source_sha256 : RowId
  pub engine : Text
  pub engine_version : Option Text
  pub status : JobStatus
  pub scene_id : Option RowId
  pub error_code : Option String
  pub requested_by : RowId
  pub attempt_count : ℕ
  pub lease_owner : Option RowId
  pub lease_expires_at : Option ℕ
  pub started_at : Option ℕ
  pub completed_at : Option ℕ

pub record Scene : Type 0 where
  pub id : RowId
  pub tenant_id : RowId
  pub project_id : RowId
  pub source_id : RowId
  pub source_format : Text
  pub source_sha256 : RowId
  pub scene_json : RowId
  pub version : ℕ
  pub created_by : RowId

pub record UsageEvent : Type 0 where
  pub tenant_id : RowId
  pub project_id : RowId
  pub provider : Text
  pub elements : ℕ
  pub spatial : ℕ

-- The rows, newest first, and the next value of the primary keys.
pub record Tables : Type 0 where
  pub sources : List Source
  pub jobs : List Job
  pub scenes : List Scene
  pub usage : List UsageEvent
  pub next_id : RowId

pub record BimSettings : Type 0 where
  pub bim_semantic_enabled : Bool
  pub bim_semantic_engine : Text
  pub bim_job_lease_seconds : ℕ
