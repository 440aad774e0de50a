-- ===== src/Bim/Queue.antt =====
-- src/glip/bim/service.py: `enqueue_bim_extraction` and `claim_next_bim_job`. A caller commits what
-- they flush. `locked` tells which rows other open transactions hold.
use arquitech_glip_premium_b.Prelude.{
  ℕ, ◌+◌, Bool, true, false, not, ◌&&◌, ◌||◌, Option, none, some, List, [], ◌∷◌, ◌==◌,
  if◌then◌else◌, ltb, find?, update_where, Action, pure, gets, raise_if, ◌>>=◌, ◌>>◌, modify,
  commit, Error, failure, RowId, codes, same_text, seconds,
}
use arquitech_glip_premium_b.Bim.Data.{
  Source, JobStatus, queued, processing, failed, Job, Tables, BimSettings,
}

abbrev pub is_active : JobStatus → Bool
is_active failed = false
is_active _ = true

abbrev pub is_queued : JobStatus → Bool
is_queued queued = true
is_queued _ = false

abbrev pub is_processing : JobStatus → Bool
is_processing processing = true
is_processing _ = false

abbrev pub is_job_of : RowId → RowId → Source → Job → Bool
is_job_of tenant project source j =
    j.tenant_id == tenant
    && j.project_id == project
    && j.source_id == source.id
    && j.source_sha256 == source.sha256
    && is_active j.status

unfoldable pub new_job : BimSettings → RowId → RowId → Source → RowId → RowId → Job
new_job settings tenant project source actor new_id = record {
  id = new_id;
  tenant_id = tenant;
  project_id = project;
  source_id = source.id;
  source_sha256 = source.sha256;
  engine = settings.bim_semantic_engine;
  engine_version = none;
  status = queued;
  scene_id = none;
  error_code = none;
  requested_by = actor;
  attempt_count = 0;
  lease_owner = none;
  lease_expires_at = none;
  started_at = none;
  completed_at = none;
}

unfoldable pub enqueue_bim_extraction :
    BimSettings → RowId → RowId → Source → RowId → Action Tables Error Job
enqueue_bim_extraction settings tenant project source actor = do
  raise_if (not settings.bim_semantic_enabled) (failure "BIM_SEMANTIC_DISABLED")
  raise_if (not (same_text source.source_format (codes "ifc")))
      (failure "BIM_SEMANTIC_SOURCE_FORMAT_UNSUPPORTED")
  existing ← gets (λ t. find? (is_job_of tenant project source) t.jobs)
  t ← gets (λ t. t)
  elim existing [
    | some job ↦ pure job
    | none ↦ do
      let job = new_job settings tenant project source actor t.next_id
      modify (λ t. record t { jobs = job ∷ t.jobs; next_id = t.next_id + 1 })
      pure job
  ]

unfoldable pub has_expired : ℕ → Option ℕ → Bool
has_expired now none = false
has_expired now (some expires) = ltb expires now

unfoldable pub is_claimable : ℕ → Job → Bool
is_claimable now j =
    is_queued j.status || (is_processing j.status && has_expired now j.lease_expires_at)

-- `order_by(created_at.asc())` with `db.scalar`: the oldest row that fits.
unfoldable pub find_oldest : (Job → Bool) → List Job → Option Job
find_oldest p [] = none
find_oldest p (j ∷ js) = elim (find_oldest p js) [
  | some older ↦ some older
  | none ↦ if p j then some j else none
]

abbrev pub or_now : ℕ → Option ℕ → Option ℕ
or_now now none = some now
or_now now (some t) = some t

unfoldable pub take_job : BimSettings → RowId → ℕ → Job → Job
take_job settings worker now j = record j {
  status = processing;
  lease_owner = some worker;
  lease_expires_at = some (now + seconds settings.bim_job_lease_seconds);
  started_at = or_now now j.started_at;
  attempt_count = j.attempt_count + 1;
}

unfoldable pub claim_next_bim_job :
    BimSettings → RowId → ℕ → (RowId → Bool) → Action Tables Error (Option Job)
claim_next_bim_job settings worker now locked = do
  found ← gets (λ t. find_oldest (λ j. is_claimable now j && not (locked j.id)) t.jobs)
  elim found [
    | none ↦ pure none
    | some j ↦ do
      modify (λ t. record t {
        jobs = update_where (λ x. x.id == j.id) (take_job settings worker now) t.jobs;
      })
      pure (some (take_job settings worker now j))
  ]

-- The worker (scripts/process_bim_jobs.py) commits the claim before it works on the job.
unfoldable pub next_job :
    BimSettings → RowId → ℕ → (RowId → Bool) → Action Tables Error (Option Job)
next_job settings worker now locked = do
  job ← claim_next_bim_job settings worker now locked
  commit
  pure job
