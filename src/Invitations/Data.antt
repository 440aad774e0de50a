-- ===== src/Invitations/Data.antt =====
-- The tables of the invitations (src/glip/models.py), beside those of the logins.
use arquitech_glip_premium_b.Prelude.{ℕ, Option, List, RowId, Text}
use arquitech_glip_premium_b.Config.{Settings}
use arquitech_glip_premium_b.Auth.Data
use arquitech_glip_premium_b.Auth.Data.{Db}

pub data Status : Type 0 where
  pending accepted revoked : Status

pub record Invitation : Type 0 where
  pub id : RowId
  pub tenant_id : Text
  pub email_normalized : Text
  pub display_name : Option Text
  pub role : Text
  pub token_digest : RowId
  pub token_version : ℕ
  pub status : Status
  pub expires_at : ℕ
  pub invited_by : Text
  pub accepted_membership_id : Option RowId
  pub created_at : ℕ
  pub accepted_at : Option ℕ
  pub revoked_at : Option ℕ

pub record Bucket : Type 0 where
  pub key_digest : RowId
  pub window_started_at : ℕ
  pub count : ℕ

-- `actor_id`: a subject, or `invite:<id of the invitation>`.
pub data Actor : Type 0 where
  subject : Text → Actor
  invite : RowId → Actor

pub data EventType : Type 0 where
  invitation_created invitation_revoked invitation_accepted : EventType

pub record AuditEvent : Type 0 where
  pub tenant_id : Text
  pub actor_id : Actor
  pub event_type : EventType
  pub target_id : RowId

pub record Tables : Type 0 where
  pub auth : Db
  pub invitations : List Invitation
  pub buckets : List Bucket
  pub audit : List AuditEvent

-- What the logins read of the settings.
abbrev pub auth_settings : Settings → Data.Settings
auth_settings s = record {
  password_max_length = s.auth_password_max_length;
  max_failed_attempts = s.auth_max_failed_attempts;
  lockout_seconds = s.auth_lockout_seconds;
  session_ttl_seconds = s.auth_session_ttl_seconds;
  idle_ttl_seconds = s.auth_idle_ttl_seconds;
  touch_interval_seconds = s.auth_session_touch_interval_seconds;
}
