-- ===== src/Bim/Examples.antt =====
-- A queue of src/glip/bim/service.py with one source, and the theorems at it.
use arquitech_glip_premium_b.Prelude.{
  ◌≡◌, refl, true, false, Bool, Option, some, [], ◌∷◌, ◌==◌, ok, begin, request, RowId, codes,
  seconds, arith, same_text,
}
use arquitech_glip_premium_b.Bim.Data.{Source, Job, Scene, Tables, BimSettings}
use arquitech_glip_premium_b.Bim.Queue.{
  new_job, enqueue_bim_extraction, has_expired, is_claimable, find_oldest, take_job,
  claim_next_bim_job, next_job,
}
use arquitech_glip_premium_b.Bim.Extraction.{
  ExtractionResult, Extracted, extracted, latest_version, new_scene, complete_job, fail_early,
  fail_job, write_job, persist, failing, finish, read_source, process_source,
  process_bim_extraction_job,
}
use arquitech_glip_premium_b.Bim.Exclusive.{start, claim_exclusive}
use arquitech_glip_premium_b.Bim.Intact.{IsIntact, processed-IsIntact}

run : Unit {0}
unfolding same_text new_job enqueue_bim_extraction has_expired is_claimable find_oldest take_job
    claim_next_bim_job next_job latest_version new_scene complete_job fail_early fail_job write_job
    persist failing finish read_source process_source process_bim_extraction_job
run = tt

abbrev settings : BimSettings
settings = record {
  bim_semantic_enabled = true;
  bim_semantic_engine = codes "ifcopenshell";
  bim_job_lease_seconds = 300;
}

abbrev house : Source
house = record {
  id = 1;
  tenant_id = 2;
  project_id = 3;
  source_format = codes "ifc";
  storage_key = 4;
  sha256 = 44;
  status = codes "uploaded";
}

abbrev older : Job
older = new_job settings 2 3 house 6 10

abbrev newer : Job
newer = new_job settings 2 3 house 6 11

abbrev two_jobs : Tables
two_jobs = record {
  sources = house ∷ [];
  jobs = newer ∷ older ∷ [];
  scenes = [];
  usage = [];
  next_id = 12;
}

abbrev free : RowId → Bool
free id = false

abbrev first_taken : Tables
first_taken = (request (next_job settings 7 5 free) two_jobs).1

abbrev both_taken : Tables
both_taken = (request (next_job settings 8 6 free) first_taken).1

first_claim :
    request (next_job settings 7 5 free) two_jobs
    ≡ (ok (some (take_job settings 7 5 older)), first_taken)
unfolding run
first_claim = refl

second_claim :
    request (next_job settings 8 6 free) first_taken
    ≡ (ok (some (take_job settings 8 6 newer)), both_taken)
unfolding run
second_claim = refl

claim_exclusive_example :
    ((take_job settings 8 6 newer).id == (take_job settings 7 5 older).id) ≡ false
claim_exclusive_example =
    claim_exclusive settings 7 8 5 6 free free two_jobs first_taken first_taken both_taken
      (take_job settings 7 5 older) (take_job settings 8 6 newer) first_claim start second_claim
      (omega arith)

abbrev result : ExtractionResult
result = record {
  scene = 77;
  engine = codes "ifcopenshell";
  engine_version = codes "0.8";
  element_count = 3;
  spatial_count = 1;
}

abbrev digest_of : RowId → Option RowId
digest_of key = some 44

abbrev extract : Source → Extracted
extract s = extracted result

abbrev scene : Scene
scene = new_scene house older result 1 12

processed :
    (process_bim_extraction_job settings digest_of extract 9 older (begin two_jobs)).0 ≡ ok scene
unfolding run
processed = refl

processed-IsIntact_example :
    IsIntact settings digest_of extract 9 older two_jobs scene
      (process_bim_extraction_job settings digest_of extract 9 older
        (begin two_jobs)).1.working.scenes
processed-IsIntact_example =
    processed-IsIntact settings digest_of extract 9 older two_jobs scene processed

-- A worker that comes back after its lease has ended writes a second scene of the same job.
abbrev one_job : Tables
one_job = record two_jobs { jobs = older ∷ [] }

abbrev taken_over : Tables
taken_over =
    (request (next_job settings 8 (seconds 400) free)
      (request (next_job settings 7 5 free) one_job).1).1

abbrev by_second : Tables
by_second =
    (process_bim_extraction_job settings digest_of extract (seconds 500)
      (take_job settings 8 (seconds 400) older) (begin taken_over)).1.working

two_scenes :
    (process_bim_extraction_job settings digest_of extract
      (seconds 501)
      (take_job settings 7 5 older)
      (begin by_second)).1.working.scenes
    ≡ new_scene house older result 2 13 ∷ new_scene house older result 1 12 ∷ []
unfolding run
two_scenes = refl
