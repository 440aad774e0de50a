-- ===== src/Bim/Intact.antt =====
-- Which files a scene of src/glip/bim/service.py comes from.
use arquitech_glip_premium_b.Prelude.{
  ℕ, ◌+◌, ◌≡◌, refl, ap, ◌∙◌, true, ◌&&◌, Option, some, List, [], ◌∷◌, foldr, max, ◌==◌, find?,
  select_where, ok, begin, RowId, codes, same_text, arith, Option-cases, Bool-cases, inl, inr,
}
use arquitech_glip_premium_b.Prelude.Tables.{find-holds}
use arquitech_glip_premium_b.Bim.Data.{Source, Job, Scene, Tables, BimSettings}
use arquitech_glip_premium_b.Bim.Extraction.{
  ExtractionResult, Extracted, extracted, semantic_error, other_exception, is_source, is_scene_of,
  latest_version, new_scene, persist, failing, finish, read_source, process_source,
  process_bim_extraction_job,
}

module _ (settings : BimSettings) (digest_of : RowId → Option RowId) (extract : Source → Extracted)
    (now : ℕ) (job : Job) (t : Tables) where
  -- A scene that rests on the file that was uploaded.
  pub record IsIntact (scene : Scene) (scenes : List Scene) : Type 0 where
    pub source : Source
    pub result : ExtractionResult
    pub there : find? (is_source job) t.sources ≡ some source
    pub of_format : same_text source.source_format (codes "ifc") ≡ true
    pub same_file : digest_of source.storage_key ≡ some source.sha256
    pub engine_said : extract source ≡ extracted result
    pub owned :
        (source.id ≡ job.source_id)
        × (source.tenant_id ≡ job.tenant_id)
        × (source.project_id ≡ job.project_id)
    pub made : scene ≡ record {
      id = t.next_id;
      tenant_id = source.tenant_id;
      project_id = source.project_id;
      source_id = source.id;
      source_format = source.source_format;
      source_sha256 = source.sha256;
      scene_json = result.scene;
      version =
          foldr
            (λ x n. max x.version n)
            0
            (select_where
              (λ x.
                x.tenant_id == source.tenant_id
                && x.project_id == source.project_id
                && x.source_id == source.id)
              t.scenes)
          + 1;
      created_by = job.requested_by;
    }
    pub added : scenes ≡ scene ∷ t.scenes

  latest_version-foldr : (xs : List Scene) → latest_version xs ≡ foldr (λ x n. max x.version n) 0 xs
  unfolding latest_version
  latest_version-foldr [] = refl
  latest_version-foldr (x ∷ xs) = ap (λ n. max x.version n) (latest_version-foldr xs)

  abbrev versioned : Source → ExtractionResult → ℕ → Scene
  versioned s result version = record {
    id = t.next_id;
    tenant_id = s.tenant_id;
    project_id = s.project_id;
    source_id = s.id;
    source_format = s.source_format;
    source_sha256 = s.sha256;
    scene_json = result.scene;
    version = version;
    created_by = job.requested_by;
  }

  new_scene_lem :
      (s : Source) (result : ExtractionResult) (version : ℕ)
      → new_scene s job result version t.next_id ≡ versioned s result version
  unfolding new_scene
  new_scene_lem s result version = refl

  finished :
      (s : Source) (read : Extracted) (scene : Scene)
      → (finish now s job read (begin t)).0 ≡ ok scene
      → (result : ExtractionResult) × (read ≡ extracted result)
        × (scene
            ≡ new_scene s job result
                (latest_version (select_where (is_scene_of s) t.scenes) + 1)
                t.next_id)
        × ((finish now s job read (begin t)).1.working.scenes ≡ scene ∷ t.scenes)
  unfolding finish failing persist
  finished s (extracted result) scene h = (result, refl, ground (arith, h), ground (arith, h))
  finished s (semantic_error code) scene h = cc
  finished s other_exception scene h = cc

  read_intact :
      (s : Source) (result : ExtractionResult)
      → read_source settings digest_of extract s ≡ extracted result
      → (digest_of s.storage_key ≡ some s.sha256) × (extract s ≡ extracted result)
  unfolding read_source
  read_intact s result h = elim (Option-cases (digest_of s.storage_key)) [
    | inl e ↦ ground (arith, e, h)
    | inr (digest, e) ↦ elim (Bool-cases (digest == s.sha256)) [
      | inl same ↦
          let equal : digest ≡ s.sha256 = ground (arith, same) in
          (e ∙ ap some equal, ground (arith, e, same, h))
      | inr other ↦ ground (arith, e, other, h)
    ]
  ]

  -- A scene is returned only for an IFC source of the tenant and project of the job, whose file
  -- has the digest that was stored at its upload; it holds what the engine found in that source,
  -- its version is one more than the highest of the scenes of the source, and it is the one scene
  -- that is added.
  pub processed-IsIntact :
      (scene : Scene)
      → (process_bim_extraction_job settings digest_of extract now job (begin t)).0 ≡ ok scene
      → IsIntact scene
          (process_bim_extraction_job settings digest_of extract now job (begin t)).1.working.scenes
  unfolding process_bim_extraction_job process_source failing
  processed-IsIntact scene h = elim (Option-cases (find? (is_source job) t.sources)) [
    | inl e ↦ ground (arith, e, h)
    | inr (s, e) ↦ elim (Bool-cases (same_text s.source_format (codes "ifc"))) [
      | inr other ↦ ground (arith, e, other, h)
      | inl ifc ↦
          elim (Bool-cases (same_text settings.bim_semantic_engine (codes "ifcopenshell"))) [
            | inr foreign ↦ ground (arith, e, ifc, foreign, h)
            | inl native ↦
                let read = read_source settings digest_of extract s in
                let (result, got, made, added) =
                  finished s read scene (ground (arith, e, ifc, native, h)) in
                let own = find-holds (is_source job) t.sources e in
                let intact = read_intact s result got in
                record {
                  source = s;
                  result = result;
                  there = e;
                  of_format = ifc;
                  same_file = intact.0;
                  engine_said = intact.1;
                  owned = (ground (arith, own), ground (arith, own), ground (arith, own));
                  made =
                      made
                      ∙ new_scene_lem s result _
                      ∙ ap (λ n. versioned s result (n + 1)) (latest_version-foldr _);
                  added = ground (arith, e, ifc, native, added);
                }
          ]
    ]
  ]
