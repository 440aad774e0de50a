-- ===== src/Projects/Examples.antt =====
-- Projects of src/glip/routes.py on small tables, and the theorems at them.
use arquitech_glip_premium_b.Prelude.{
  ◌≡◌, refl, true, false, none, some, List, [], ◌∷◌, ◌==◌, ok, err, http, request, RowId, codes,
  length, find?, same_text, one_of, is_space, lstrip, rstrip, strip, lower,
}
use arquitech_glip_premium_b.Auth.Data.{Principal}
use arquitech_glip_premium_b.Projects.Data.{Project, Tables, Payload, CreateBody, Patch}
use arquitech_glip_premium_b.Projects.Authz.{
  project_capabilities, role_capabilities, clean_role, has_capability, before, insert, sorted,
  capabilities_for,
}
use arquitech_glip_premium_b.Projects.Body.{
  payload_code, project_create_payload, check_create, client_missing,
}
use arquitech_glip_premium_b.Projects.Create.{
  require_capability, is_project, existing_project_create, new_project, violates_unique,
  ensure_cognitive_profile, let_in, insert_project, replay_or_conflict, add_project, write_project,
  create_checked, create_project,
}
use arquitech_glip_premium_b.Projects.Edit.{
  project_or_404, edit_name, edit_code, edit_client, edit_description, edit_address, edit_status,
  edited, sorted_fields,
}
use arquitech_glip_premium_b.Projects.Change.{
  take_from, write_back, bump, save, update_project, archive_project, restore_project,
}
use arquitech_glip_premium_b.Projects.Archive.{archive_restore}
use arquitech_glip_premium_b.Projects.Calls.{Call, create, update, archive, serve, serve_all}
use arquitech_glip_premium_b.Projects.Repeat.{created_replays}

run : Unit {0}
unfolding same_text one_of is_space lstrip rstrip strip lower project_capabilities role_capabilities
    clean_role has_capability before insert sorted capabilities_for payload_code
    project_create_payload check_create require_capability existing_project_create new_project
    violates_unique ensure_cognitive_profile let_in insert_project replay_or_conflict add_project
    write_project create_checked create_project project_or_404 edit_name edit_code edit_client
    edit_description edit_address edit_status edited sorted_fields take_from write_back bump save
    update_project archive_project restore_project serve serve_all
run = tt

abbrev boss : Principal
boss = record { subject = codes "u1"; tenant_id = codes "acme"; role = codes " Owner" }

abbrev builder : Principal
builder = record { subject = codes "u2"; tenant_id = codes "acme"; role = codes "member" }

sorted_for_owner :
    capabilities_for (some (codes " Owner"))
    ≡ codes "project.archive"
      ∷ codes "project.create"
      ∷ codes "project.restore"
      ∷ codes "project.update"
      ∷ []
unfolding run
sorted_for_owner = refl

abbrev canonical_sha256 : Payload → RowId
canonical_sha256 payload = length payload.name

abbrev nothing : Tables
nothing = record {
  clients = [];
  projects = [];
  idempotency = [];
  profiles = [];
  audit = [];
  next_id = 5;
}

abbrev body : CreateBody
body = record {
  name = some (codes " Casa ");
  code = some (codes " ");
  client_id = none;
  description = none;
  address_summary = none;
}

abbrev other_body : CreateBody
other_body = record {
  name = some (codes "Torre");
  code = none;
  client_id = none;
  description = none;
  address_summary = none;
}

abbrev house : Project
house = record {
  id = 5;
  tenant_id = codes "acme";
  client_id = none;
  name = codes "Casa";
  code = some [];
  status = codes "planning";
  description = none;
  address_summary = none;
  context_version = 1;
  created_by = codes "u2";
  archived_at = none;
  archived_by = none;
}

abbrev built : Tables
built = (request (create_project canonical_sha256 builder body (codes "k1") (λ u. u)) nothing).1

creation_ok :
    request (create_project canonical_sha256 builder body (codes "k1") (λ u. u)) nothing
    ≡ (ok house, built)
unfolding run
creation_ok = refl

-- A second code of spaces is in conflict with the first.
blank_code_conflicts :
    (request (create_project canonical_sha256 builder body (codes "k2") (λ u. u)) built).0
    ≡ err (http 409 "project_conflict")
unfolding run
blank_code_conflicts = refl

abbrev patch : Patch
patch = record {
  name = some (some (codes "Casa 2"));
  code = some none;
  client_id = none;
  description = none;
  address_summary = none;
  status = none;
  has_unknown = false;
}

patched :
    (request (update_project builder 5 patch) built).0
    ≡ ok (record house { name = codes "Casa 2"; code = none; context_version = 2 })
unfolding run
patched = refl

abbrev calls : List Call
calls = update builder 5 patch ∷ archive boss 5 9 ∷ create boss other_body (codes "k1") ∷ []

other_tested :
    check_create builder other_body (codes "k1") (serve_all canonical_sha256 calls built)
    ≡ ok (strip (codes "k1"), project_create_payload other_body)
unfolding run
other_tested = refl

two_digests :
    (canonical_sha256 (project_create_payload body)
      == canonical_sha256 (project_create_payload other_body))
    ≡ false
unfolding run
two_digests = refl

no_client :
    client_missing builder.tenant_id
      (project_create_payload body).client_id
      (serve_all canonical_sha256 calls built)
    ≡ false
unfolding run
no_client = refl

created_replays_example :
    ((y : Project) × (request
          (create_project canonical_sha256 builder body (codes "k1") (λ u. u))
          (serve_all canonical_sha256 calls built)
        ≡ (ok y, serve_all canonical_sha256 calls built))
      × (y.id ≡ 5))
    × (request
          (create_project canonical_sha256 builder other_body (codes "k1") (λ u. u))
          (serve_all canonical_sha256 calls built)
        ≡ (err (http 409 "idempotency_key_reused"), serve_all canonical_sha256 calls built))
created_replays_example =
    created_replays canonical_sha256 builder body other_body (codes "k1") (λ u. u) (λ u. u) calls
      nothing built house creation_ok no_client other_tested two_digests

house_there : find? (is_project boss.tenant_id 5) built.projects ≡ some house
unfolding run
house_there = refl

may_archive : has_capability boss.role (codes "project.archive") ≡ true
unfolding run
may_archive = refl

may_update : has_capability builder.role (codes "project.update") ≡ true
unfolding run
may_update = refl

may_restore : has_capability boss.role (codes "project.restore") ≡ true
unfolding run
may_restore = refl

archive_restore_example :
    (request (update_project builder 5 patch) (request (archive_project boss 5 9) built).1
      ≡ (err (http 409 "project_archived"), (request (archive_project boss 5 9) built).1))
    × ((request (restore_project boss 5) (request (archive_project boss 5 9) built).1).0
        ≡ ok (record house { archived_at = none; archived_by = none; context_version = 3 }))
archive_restore_example =
    archive_restore boss builder boss 5 9 built house house_there refl may_archive refl may_update
      refl may_restore patch
