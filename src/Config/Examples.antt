-- ===== src/Config/Examples.antt =====
-- Settings that src/glip/config.py accepts, and two that it should look at again.
use arquitech_glip_premium_b.Prelude.{
  pos, true, false, ◌≡◌, refl, none, [], ok, err, Text, codes, seconds, same_text, one_of, is_space,
  lstrip, rstrip, strip, lower,
}
use arquitech_glip_premium_b.Config.{Settings}
use arquitech_glip_premium_b.Config.Texts.{after, contains, ends_with, split_commas, stripped_parts}
use arquitech_glip_premium_b.Config.Checks.{
  needed_time, SplitResult, deployed, local, cors_list, normalized_database_url, check_cors,
  check_deployment, outside, check_native, check_auth, minimum_lease, check_orkio_mode,
  check_orkio_times, check_visual, is_railway_bucket, check_storage, check_engines,
  stores_artifacts, check_artifacts, allowed_modes, check_modes, validate_modes,
}

abbrev pub sample : Settings
sample = record {
  environment = codes "staging";
  database_url = codes "postgresql+psycopg://db";
  cors_origins = codes "https://glip.app, http://localhost:5174";
  auth_mode = codes "native_session";
  auth_session_secret = codes "0123456789abcdef0123456789abcdef";
  auth_password_pepper = codes "0123456789abcdef0123456789abcdef";
  auth_session_ttl_seconds = 28800;
  auth_idle_ttl_seconds = 1800;
  auth_session_touch_interval_seconds = 300;
  auth_password_min_length = 12;
  auth_password_max_length = 256;
  auth_scrypt_n = 16384;
  auth_scrypt_r = 8;
  auth_scrypt_p = 1;
  auth_max_failed_attempts = 8;
  auth_lockout_seconds = 900;
  orkio_mode = codes "capability_v1";
  orkio_base_url = codes "https://orkio";
  orkio_probe_timeout = seconds 5;
  orkio_timeout = seconds 20;
  orkio_max_attempts = 2;
  orkio_retry_backoff = pos 250000;
  orkio_circuit_failure_threshold = 4;
  orkio_circuit_cooldown = seconds 20;
  orkio_execution_lease_seconds = 90;
  orkio_m2m_token = codes "token";
  orkio_capability_execute_path = codes "/execute";
  orkio_response_contract_version = codes "ORKIO-RESPONSE-1";
  artifacts_enabled = false;
  artifact_storage_backend = codes "local";
  artifact_storage_bucket = [];
  artifact_storage_endpoint_url = none;
  artifact_storage_access_key_id = [];
  artifact_storage_secret_access_key = [];
  artifact_storage_sse = codes "AES256";
  artifact_storage_kms_key_id = [];
  artifact_storage_prefix = codes "glip";
  artifact_provider_profile_ref = codes "glip-local";
  max_artifact_bytes = 50000000;
  visual_ai_enabled = false;
  visual_ai_provider = codes "disabled";
  visual_ai_openai_api_key = [];
  visual_ai_model = codes "gpt-image-2.5-sunburst";
  visual_ai_max_input_bytes = 8000000;
  visual_ai_max_daily_edits = 10;
  chat_attachments_enabled = false;
  chat_attachment_max_bytes = 8000000;
  architecture_uploads_enabled = false;
  max_architectural_source_bytes = 250000000;
  bim_semantic_enabled = false;
  bim_semantic_engine = codes "ifcopenshell";
  bim_semantic_max_elements = 100000;
  bim_job_lease_seconds = 300;
  cad_semantic_enabled = false;
  cad_semantic_engine = codes "ezdxf";
  cad_semantic_max_entities = 100000;
  cad_job_lease_seconds = 300;
  geometry_build_enabled = false;
  geometry_preview_engine = codes "trimesh";
  geometry_preview_max_paths = 20000;
  geometry_preview_max_points = 500000;
  geometry_job_lease_seconds = 300;
  realtime_mode = codes "pending_external";
  voice_mode = codes "pending_external";
  avatar_mode = codes "pending_external";
  require_migration_head = true;
}

-- A long pause and three attempts: the lease that is asked for is 73 seconds.
abbrev pub hasty : Settings
hasty = record sample {
  orkio_timeout = seconds 1;
  orkio_max_attempts = 3;
  orkio_retry_backoff = pos (seconds 30);
  orkio_execution_lease_seconds = 73;
}

abbrev pub no_parts : Text → SplitResult
no_parts url = record { scheme = []; hostname = none; username = none; password = none }

run : Unit {0}
unfolding same_text one_of is_space lstrip rstrip strip lower after contains ends_with split_commas
    stripped_parts deployed local cors_list normalized_database_url check_cors check_deployment
    outside check_native check_auth minimum_lease needed_time check_orkio_mode check_orkio_times
    check_visual is_railway_bucket check_storage check_engines stores_artifacts check_artifacts
    allowed_modes check_modes validate_modes
run = tt

pub sample_valid : validate_modes no_parts sample ≡ ok sample
unfolding run
sample_valid = refl

pub hasty_valid : validate_modes no_parts hasty ≡ ok hasty
unfolding run
hasty_valid = refl

production_refused :
    validate_modes no_parts (record sample { environment = codes "production" })
    ≡ err "production_cors_https_required"
unfolding run
production_refused = refl
