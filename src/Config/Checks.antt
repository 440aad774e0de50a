-- ===== src/Config/Checks.antt =====
-- src/glip/config.py: `cors_list` and `validate_modes`, in the order of its tests. A ValueError is
-- its text. `urlsplit` is the library's function of that name.
use arquitech_glip_premium_b.Prelude.{
  ℤ, pos, negsuc, ℕ, ◌+◌, ◌-◌, ◌*◌, ◌/◌, Bool, not, ◌&&◌, ◌||◌, Option, none, some, List, [], ◌∷◌,
  ◌++◌, if◌then◌else◌, ltb, any, Result, ok, Text, codes, same_text, one_of, is_empty, strip, lower,
  String, length, seconds, text_or,
}
use arquitech_glip_premium_b.Prelude.Results.{◌>>◌, refuse_if}
use arquitech_glip_premium_b.Config.{Settings}
use arquitech_glip_premium_b.Config.Texts.{
  after, starts_with, contains, ends_with, split_commas, stripped_parts, is_found,
}

abbrev pub Check : Type 0
Check = Result String (Unit {0})

abbrev pub blank : Text → Bool
blank t = is_empty (strip t)

unfoldable pub deployed : List Text
deployed = codes "staging" ∷ codes "production" ∷ []

unfoldable pub local : List Text
local = codes "development" ∷ codes "test" ∷ []

unfoldable pub cors_list : Settings → List Text
cors_list s = stripped_parts (split_commas s.cors_origins)

unfoldable pub normalized_database_url : Text → Text
normalized_database_url url = elim (after (codes "postgres://") url) [
  | some rest ↦ codes "postgresql+psycopg://" ++ rest
  | none ↦ elim (after (codes "postgresql://") url) [
    | some rest ↦ codes "postgresql+psycopg://" ++ rest
    | none ↦ url
  ]
]

unfoldable pub check_cors : Settings → Check
check_cors s = do
  refuse_if (one_of (codes "*") (cors_list s)) "cors_wildcard_forbidden"
  let plain = any (starts_with (codes "http://")) (cors_list s)
  let loopback =
      any (λ o. contains (codes "localhost") o || contains (codes "127.0.0.1") o) (cors_list s)
  let production = same_text s.environment (codes "production")
  refuse_if (production && plain) "production_cors_https_required"
  refuse_if (production && loopback) "production_cors_localhost_forbidden"

unfoldable pub check_deployment : Settings → Check
check_deployment s =
    let tests : Check = do
      refuse_if (not (starts_with (codes "postgresql") s.database_url))
          "postgresql_required_outside_dev"
      refuse_if (not s.require_migration_head) "migration_head_check_required_outside_dev"
      check_cors s
    in if one_of s.environment deployed then tests else ok tt

unfoldable pub outside : ℕ → ℕ → ℕ → Bool
outside low high n = ltb n low || ltb high n

unfoldable pub check_native : Settings → Check
check_native s = do
  refuse_if (ltb (length s.auth_session_secret) 32) "auth_session_secret_too_short"
  refuse_if (ltb (length s.auth_password_pepper) 32) "auth_password_pepper_too_short"
  refuse_if (outside 900 86400 s.auth_session_ttl_seconds) "auth_session_ttl_invalid"
  refuse_if (outside 300 s.auth_session_ttl_seconds s.auth_idle_ttl_seconds) "auth_idle_ttl_invalid"
  refuse_if (outside 30 s.auth_idle_ttl_seconds s.auth_session_touch_interval_seconds)
      "auth_session_touch_interval_invalid"
  refuse_if (ltb s.auth_password_min_length 12) "auth_password_min_length_too_short"
  refuse_if (ltb s.auth_password_max_length s.auth_password_min_length)
      "auth_password_length_range_invalid"
  refuse_if (ltb s.auth_scrypt_n 16384 || ltb s.auth_scrypt_r 8 || ltb s.auth_scrypt_p 1)
      "auth_scrypt_cost_too_low"
  refuse_if (outside 3 20 s.auth_max_failed_attempts) "auth_max_failed_attempts_invalid"
  refuse_if (outside 60 86400 s.auth_lockout_seconds) "auth_lockout_seconds_invalid"

unfoldable pub check_auth : Settings → Check
check_auth s = do
  let native = same_text s.auth_mode (codes "native_session")
  let headers = same_text s.auth_mode (codes "dev_headers")
  refuse_if (not (headers || native)) "unsupported_auth_mode"
  refuse_if (not (one_of s.environment local) && headers) "dev_headers_forbidden_outside_dev"
  if native then check_native s else ok tt

-- The time that the calls and the pauses between them are taken to need; the sign of the backoff is
-- not checked. No lease is below a negative time, so 0 stands for one.
unfoldable pub needed_time : ℕ → ℕ → ℤ → ℕ
needed_time timeout attempts (pos backoff) =
    timeout * attempts + backoff * (attempts - 1) + seconds 10
needed_time timeout attempts (negsuc n) = timeout * attempts + seconds 10 - (n + 1) * (attempts - 1)

-- `int(...)` of the least lease, in seconds.
unfoldable pub minimum_lease : Settings → ℕ
minimum_lease s = needed_time s.orkio_timeout s.orkio_max_attempts s.orkio_retry_backoff / 1000000

unfoldable pub check_orkio_mode : Settings → Check
check_orkio_mode s = do
  let capability = same_text s.orkio_mode (codes "capability_v1")
  let probe = same_text s.orkio_mode (codes "probe")
  let mock = same_text s.orkio_mode (codes "mock")
  refuse_if (not (same_text s.orkio_mode (codes "disabled") || probe || capability || mock))
      "unsupported_orkio_mode"
  refuse_if (mock && not (one_of s.environment local)) "orkio_mock_forbidden_outside_dev"
  refuse_if ((probe || capability) && blank s.orkio_base_url) "orkio_base_url_required"
  refuse_if (capability && blank s.orkio_m2m_token) "orkio_m2m_token_required"
  refuse_if (capability && blank s.orkio_capability_execute_path)
      "orkio_capability_execute_path_required"

unfoldable pub check_orkio_times : Settings → Check
check_orkio_times s = do
  refuse_if (outside 1 (seconds 10) s.orkio_probe_timeout) "orkio_probe_timeout_invalid"
  refuse_if (outside 1 (seconds 60) s.orkio_timeout) "orkio_timeout_invalid"
  refuse_if (outside 1 3 s.orkio_max_attempts) "orkio_max_attempts_invalid"
  refuse_if (ltb s.orkio_execution_lease_seconds (minimum_lease s))
      "orkio_execution_lease_too_short"
  refuse_if (ltb 600 s.orkio_execution_lease_seconds) "orkio_execution_lease_too_long"

unfoldable pub check_visual : Settings → Check
check_visual s = do
  let openai = same_text s.visual_ai_provider (codes "openai")
  let durable =
      same_text s.artifact_storage_backend (codes "s3") && not (blank s.artifact_storage_bucket)
  let production = same_text s.environment (codes "production")
  refuse_if (not (same_text s.visual_ai_provider (codes "disabled") || openai))
      "visual_ai_provider_invalid"
  refuse_if (outside 1000000 20000000 s.visual_ai_max_input_bytes)
      "visual_ai_max_input_bytes_invalid"
  refuse_if (outside 1 100 s.visual_ai_max_daily_edits) "visual_ai_daily_quota_invalid"
  refuse_if (s.visual_ai_enabled && production && not durable)
      "visual_ai_requires_durable_s3_in_production"
  refuse_if (s.visual_ai_enabled && openai && blank s.visual_ai_openai_api_key)
      "visual_ai_openai_api_key_required"
  refuse_if
      (s.visual_ai_enabled && openai && not (starts_with (codes "gpt-image-") s.visual_ai_model))
      "visual_ai_model_invalid"

-- What `urlsplit` returns, for the parts that the code reads.
pub record SplitResult : Type 0 where
  pub scheme : Text
  pub hostname : Option Text
  pub username : Option Text
  pub password : Option Text

unfoldable pub is_railway_bucket : SplitResult → Bool
is_railway_bucket endpoint =
    same_text endpoint.scheme (codes "https")
    && ends_with (codes ".storageapi.dev") (lower (text_or endpoint.hostname []))
    && not (is_found endpoint.username)
    && not (is_found endpoint.password)

unfoldable pub check_storage : (Text → SplitResult) → Settings → Check
check_storage urlsplit s = do
  let managed = same_text s.artifact_storage_sse (codes "provider_managed")
  let encryptions = codes "AES256" ∷ codes "aws:kms" ∷ codes "provider_managed" ∷ []
  refuse_if (not (one_of s.artifact_storage_backend (codes "local" ∷ codes "s3" ∷ [])))
      "artifact_storage_backend_invalid"
  refuse_if (not (one_of s.artifact_storage_sse encryptions)) "artifact_storage_sse_invalid"
  refuse_if
      (managed && not (is_railway_bucket (urlsplit (text_or s.artifact_storage_endpoint_url []))))
      "provider_managed_requires_railway_bucket_endpoint"
  refuse_if (outside 100000 8000000 s.chat_attachment_max_bytes) "chat_attachment_max_bytes_invalid"
  refuse_if (outside 1000000 500000000 s.max_artifact_bytes) "max_artifact_bytes_invalid"
  refuse_if (outside 10000000 2000000000 s.max_architectural_source_bytes)
      "max_architectural_source_bytes_invalid"

unfoldable pub check_engines : Settings → Check
check_engines s = do
  let uploads = s.architecture_uploads_enabled
  refuse_if (not (same_text s.bim_semantic_engine (codes "ifcopenshell")))
      "bim_semantic_engine_invalid"
  refuse_if (outside 100 1000000 s.bim_semantic_max_elements) "bim_semantic_max_elements_invalid"
  refuse_if (outside 60 3600 s.bim_job_lease_seconds) "bim_job_lease_seconds_invalid"
  refuse_if (s.bim_semantic_enabled && not uploads) "bim_semantic_requires_architecture_uploads"
  refuse_if (not (same_text s.cad_semantic_engine (codes "ezdxf"))) "cad_semantic_engine_invalid"
  refuse_if (outside 100 1000000 s.cad_semantic_max_entities) "cad_semantic_max_entities_invalid"
  refuse_if (outside 60 3600 s.cad_job_lease_seconds) "cad_job_lease_seconds_invalid"
  refuse_if (s.cad_semantic_enabled && not uploads) "cad_semantic_requires_architecture_uploads"
  refuse_if (not (same_text s.geometry_preview_engine (codes "trimesh")))
      "geometry_preview_engine_invalid"
  refuse_if (outside 100 100000 s.geometry_preview_max_paths) "geometry_preview_max_paths_invalid"
  refuse_if (outside 1000 5000000 s.geometry_preview_max_points)
      "geometry_preview_max_points_invalid"
  refuse_if (outside 60 3600 s.geometry_job_lease_seconds) "geometry_job_lease_seconds_invalid"
  refuse_if (s.geometry_build_enabled && not uploads) "geometry_build_requires_architecture_uploads"

unfoldable pub stores_artifacts : Settings → Bool
stores_artifacts s =
    s.artifacts_enabled || s.chat_attachments_enabled || s.architecture_uploads_enabled
    || s.bim_semantic_enabled || s.cad_semantic_enabled || s.geometry_build_enabled

abbrev pub glip_scoped : Text → Bool
glip_scoped t = starts_with (codes "glip") (lower (strip t))

unfoldable pub check_artifacts : Settings → Check
check_artifacts s = do
  let stored = stores_artifacts s
  let remote = one_of s.environment deployed && stored
  let kms = same_text s.artifact_storage_sse (codes "aws:kms")
  refuse_if (stored && not (glip_scoped s.artifact_provider_profile_ref))
      "artifact_provider_profile_must_be_glip_scoped"
  refuse_if (remote && not (same_text s.artifact_storage_backend (codes "s3")))
      "artifact_s3_required_outside_dev"
  refuse_if (remote && blank s.artifact_storage_bucket) "artifact_storage_bucket_required"
  refuse_if
      (remote
        && (blank s.artifact_storage_access_key_id || blank s.artifact_storage_secret_access_key))
      "artifact_storage_credentials_required"
  refuse_if (remote && not (glip_scoped s.artifact_storage_prefix))
      "artifact_storage_prefix_must_be_glip_scoped"
  refuse_if (remote && kms && blank s.artifact_storage_kms_key_id)
      "artifact_storage_kms_key_required"

unfoldable pub allowed_modes : List Text
allowed_modes = codes "disabled" ∷ codes "pending_external" ∷ codes "enabled" ∷ []

unfoldable pub check_modes : Settings → Check
check_modes s = do
  refuse_if (not (one_of s.realtime_mode allowed_modes)) "realtime_mode_invalid"
  refuse_if (not (one_of s.voice_mode allowed_modes)) "voice_mode_invalid"
  refuse_if (not (one_of s.avatar_mode allowed_modes)) "avatar_mode_invalid"

-- The settings with the database's address rewritten.
unfoldable pub validate_modes : (Text → SplitResult) → Settings → Result String Settings
validate_modes urlsplit given = do
  let s = record given { database_url = normalized_database_url given.database_url }
  check_deployment s
  check_auth s
  check_orkio_mode s
  check_orkio_times s
  check_visual s
  check_storage urlsplit s
  check_engines s
  check_artifacts s
  check_modes s
  ok s
