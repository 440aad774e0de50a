-- ===== src/Config.antt =====
-- src/glip/config.py: the settings that the other modules read, and how they are validated.
use arquitech_glip_premium_b.Prelude.{ℤ, ℕ, Bool, Option, Text}
pub mod Texts
pub mod Checks
pub mod Laws
pub mod Examples

-- `Settings`, for the fields that `validate_modes` reads. The times of the ORKIO calls, the pause
-- between them and the cooldown are in microseconds, and are not negative.
pub record Settings : Type 0 where
  pub environment : Text
  pub database_url : Text
  pub cors_origins : Text
  pub auth_mode : Text
  pub auth_session_secret : Text
  pub auth_password_pepper : Text
  pub auth_session_ttl_seconds : ℕ
  pub auth_idle_ttl_seconds : ℕ
  pub auth_session_touch_interval_seconds : ℕ
  pub auth_password_min_length : ℕ
  pub auth_password_max_length : ℕ
  pub auth_scrypt_n : ℕ
  pub auth_scrypt_r : ℕ
  pub auth_scrypt_p : ℕ
  pub auth_max_failed_attempts : ℕ
  pub auth_lockout_seconds : ℕ
  pub orkio_mode : Text
  pub orkio_base_url : Text
  pub orkio_probe_timeout : ℕ
  pub orkio_timeout : ℕ
  pub orkio_max_attempts : ℕ
  pub orkio_retry_backoff : ℤ
  pub orkio_circuit_failure_threshold : ℕ
  pub orkio_circuit_cooldown : ℕ
  pub orkio_execution_lease_seconds : ℕ
  pub orkio_m2m_token : Text
  pub orkio_capability_execute_path : Text
  pub orkio_response_contract_version : Text
  pub artifacts_enabled : Bool
  pub artifact_storage_backend : Text
  pub artifact_storage_bucket : Text
  pub artifact_storage_endpoint_url : Option Text
  pub artifact_storage_access_key_id : Text
  pub artifact_storage_secret_access_key : Text
  pub artifact_storage_sse : Text
  pub artifact_storage_kms_key_id : Text
  pub artifact_storage_prefix : Text
  pub artifact_provider_profile_ref : Text
  pub max_artifact_bytes : ℕ
  pub visual_ai_enabled : Bool
  pub visual_ai_provider : Text
  pub visual_ai_openai_api_key : Text
  pub visual_ai_model : Text
  pub visual_ai_max_input_bytes : ℕ
  pub visual_ai_max_daily_edits : ℕ
  pub chat_attachments_enabled : Bool
  pub chat_attachment_max_bytes : ℕ
  pub architecture_uploads_enabled : Bool
  pub max_architectural_source_bytes : ℕ
  pub bim_semantic_enabled : Bool
  pub bim_semantic_engine : Text
  pub bim_semantic_max_elements : ℕ
  pub bim_job_lease_seconds : ℕ
  pub cad_semantic_enabled : Bool
  pub cad_semantic_engine : Text
  pub cad_semantic_max_entities : ℕ
  pub cad_job_lease_seconds : ℕ
  pub geometry_build_enabled : Bool
  pub geometry_preview_engine : Text
  pub geometry_preview_max_paths : ℕ
  pub geometry_preview_max_points : ℕ
  pub geometry_job_lease_seconds : ℕ
  pub realtime_mode : Text
  pub voice_mode : Text
  pub avatar_mode : Text
  pub require_migration_head : Bool
