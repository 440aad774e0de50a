-- ===== src/Bim/Extraction.antt =====
-- src/glip/bim/service.py: `process_bim_extraction_job`. `digest_of` is the SHA-256 of the file that a
-- storage key leads to, or none where it cannot be read, and `extract` is the IFC engine.
use arquitech_glip_premium_b.Prelude.{
  ℕ, ◌+◌, Bool, not, ◌&&◌, Option, none, some, List, [], ◌∷◌, ◌==◌, if◌then◌else◌, find?,
  update_where, select_where, max, Action, pure, raise, gets, ◌>>=◌, ◌>>◌, modify, Error, failure,
  RowId, Text, codes, same_text, String,
}
use arquitech_glip_premium_b.Bim.Data.{Source, completed, failed, Job, Scene, Tables, BimSettings}

pub record ExtractionResult : Type 0 where
  pub scene : RowId
  pub engine : Text
  pub engine_version : Text
  pub element_count : ℕ
  pub spatial_count : ℕ

-- What the engine does: a result, a `BIMSemanticError`, or any other exception.
pub data Extracted : Type 0 where
  extracted : ExtractionResult → Extracted
  semantic_error : String → Extracted
  other_exception : Extracted

abbrev pub is_source : Job → Source → Bool
is_source job s =
    s.id == job.source_id && s.tenant_id == job.tenant_id && s.project_id == job.project_id

abbrev pub is_scene_of : Source → Scene → Bool
is_scene_of s x = x.tenant_id == s.tenant_id && x.project_id == s.project_id && x.source_id == s.id

-- The version of the latest scene, or 0.
unfoldable pub latest_version : List Scene → ℕ
latest_version [] = 0
latest_version (x ∷ xs) = max x.version (latest_version xs)

unfoldable pub new_scene : Source → Job → ExtractionResult → ℕ → RowId → Scene
new_scene s job result version new_id = record {
  id = new_id;
  tenant_id = s.tenant_id;
  project_id = s.project_id;
  source_id = s.id;
  source_format = s.source_format;
  source_sha256 = s.sha256;
  scene_json = result.scene;
  version = version;
  created_by = job.requested_by;
}

unfoldable pub complete_job : ℕ → RowId → ExtractionResult → Job → Job
complete_job now scene_id result j = record j {
  scene_id = some scene_id;
  engine_version = some result.engine_version;
  status = completed;
  error_code = none;
  completed_at = some now;
  lease_owner = none;
  lease_expires_at = none;
}

-- A failure before the file is read keeps the lease, one after it does not.
unfoldable pub fail_early : String → ℕ → Job → Job
fail_early code now j = record j {
  status = failed;
  error_code = some code;
  completed_at = some now;
}

unfoldable pub fail_job : String → ℕ → Job → Job
fail_job code now j = record j {
  status = failed;
  error_code = some code;
  completed_at = some now;
  lease_owner = none;
  lease_expires_at = none;
}

unfoldable pub write_job : RowId → (Job → Job) → Tables → Tables
write_job id f t = record t { jobs = update_where (λ x. x.id == id) f t.jobs }

unfoldable pub persist : ℕ → Source → Job → ExtractionResult → Scene → Tables → Tables
persist now s job result scene t = record t {
  scenes = scene ∷ t.scenes;
  jobs = update_where (λ x. x.id == job.id) (complete_job now scene.id result) t.jobs;
  sources =
      update_where (λ x. x.id == s.id) (λ x. record x { status = codes "semantic_ready" })
        t.sources;
  usage =
      record {
        tenant_id = s.tenant_id;
        project_id = s.project_id;
        provider = result.engine;
        elements = result.element_count;
        spatial = result.spatial_count;
      }
      ∷ t.usage;
  next_id = t.next_id + 1;
}

unfoldable pub failing : (Job → Job) → String → Job → Action Tables Error Scene
failing f code job = modify (write_job job.id f) >> raise (failure code)

unfoldable pub finish : ℕ → Source → Job → Extracted → Action Tables Error Scene
finish now s job (extracted result) = do
  t ← gets (λ t. t)
  let scene =
      new_scene s job result (latest_version (select_where (is_scene_of s) t.scenes) + 1) t.next_id
  modify (persist now s job result scene)
  pure scene
finish now s job (semantic_error code) = failing (fail_job code now) code job
finish now s job other_exception =
    failing (fail_job "BIM_SEMANTIC_INTERNAL_ERROR" now) "BIM_SEMANTIC_INTERNAL_ERROR" job

module _ (settings : BimSettings) (digest_of : RowId → Option RowId)
    (extract : Source → Extracted) where
  -- The file is read and compared before the engine sees it.
  unfoldable pub read_source : Source → Extracted
  read_source s = elim (digest_of s.storage_key) [
    | none ↦ other_exception
    | some digest ↦
        if not (digest == s.sha256)
        then semantic_error "BIM_SOURCE_INTEGRITY_MISMATCH"
        else extract s
  ]

  unfoldable pub process_source : ℕ → Job → Source → Action Tables Error Scene
  process_source now job s =
      if not (same_text s.source_format (codes "ifc"))
      then failing (fail_early "BIM_SEMANTIC_SOURCE_FORMAT_UNSUPPORTED" now)
          "BIM_SEMANTIC_SOURCE_FORMAT_UNSUPPORTED" job
      else if not (same_text settings.bim_semantic_engine (codes "ifcopenshell"))
      then raise (failure "BIM_ENGINE_UNSUPPORTED")
      else finish now s job (read_source s)

  unfoldable pub process_bim_extraction_job : ℕ → Job → Action Tables Error Scene
  process_bim_extraction_job now job = do
    found ← gets (λ t. find? (is_source job) t.sources)
    elim found [
      | none ↦ failing (fail_early "BIM_SOURCE_NOT_FOUND" now) "BIM_SOURCE_NOT_FOUND" job
      | some s ↦ process_source now job s
    ]
