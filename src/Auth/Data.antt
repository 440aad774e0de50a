-- ===== src/Auth/Data.antt =====
-- The tables of src/glip/native_auth.py (src/glip/models.py) and the settings that it reads.
use arquitech_glip_premium_b.Prelude.{ℕ, Bool, Option, List, RowId, Text}

-- `external_subject`: `native:<id of a credential>`, or any other text.
pub data Subject : Type 0 where
  native : RowId → Subject
  external : Text → Subject

-- `Principal` of src/glip/auth.py
pub record Principal : Type 0 where
  pub subject : Text
  pub tenant_id : Text
  pub role : Text

pub record Membership : Type 0 where
  pub id : RowId
  pub tenant_id : Text
  pub external_subject : Subject
  pub role : Text
  pub active : Bool

pub record Credential : Type 0 where
  pub id : RowId
  pub tenant_id : Text
  pub membership_id : RowId
  pub email_normalized : Text
  pub password_salt_b64 : Text
  pub password_hash_b64 : Text
  pub active : Bool
  pub failed_attempts : ℕ
  pub locked_until : Option ℕ
  pub last_login_at : Option ℕ

pub record AuthSession : Type 0 where
  pub id : RowId
  pub tenant_id : Text
  pub credential_id : RowId
  pub membership_id : RowId
  pub token_digest : RowId
  pub created_at : ℕ
  pub last_seen_at : ℕ
  pub expires_at : ℕ
  pub idle_expires_at : ℕ
  pub revoked_at : Option ℕ

pub data EventCode : Type 0 where
  login_success login_rejected login_locked login_rejected_locked : EventCode

pub record AuthEvent : Type 0 where
  pub tenant_id : Text
  pub email_normalized : Text
  pub event_code : EventCode
  pub success : Bool

pub record Settings : Type 0 where
  pub password_max_length : ℕ
  pub max_failed_attempts : ℕ
  pub lockout_seconds : ℕ
  pub session_ttl_seconds : ℕ
  pub idle_ttl_seconds : ℕ
  pub touch_interval_seconds : ℕ

-- The rows, newest first, and the next value of the primary keys' default.
pub record Db : Type 0 where
  pub memberships : List Membership
  pub credentials : List Credential
  pub sessions : List AuthSession
  pub events : List AuthEvent
  pub next_id : RowId
