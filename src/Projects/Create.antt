-- ===== src/Projects/Create.antt =====
-- src/glip/routes.py: `create_project`, with `ensure_cognitive_profile` of src/glip/services.py.
-- `canonical_sha256` is the digest of the payload's canonical JSON. `meanwhile` is what other requests
-- commit between the search for the key and the flush.
use arquitech_glip_premium_b.Prelude.{
  ◌+◌, Bool, false, not, ◌&&◌, ◌||◌, Option, none, some, ◌∷◌, ◌==◌, if◌then◌else◌, any, find?, ok,
  Action, pure, gets, raise_if, or_raise, ◌>>=◌, ◌>>◌, modify, commit, rollback, Error, http, RowId,
  Text, codes, same_text, is_none,
}
use arquitech_glip_premium_b.Auth.Data.{Principal}
use arquitech_glip_premium_b.Projects.Data.{
  Project, CreateIdempotency, CognitiveProfile, AuditKind, created, Tables, Payload, CreateBody,
}
use arquitech_glip_premium_b.Prelude.Results.{checked}
use arquitech_glip_premium_b.Projects.Body.{check_create}
use arquitech_glip_premium_b.Projects.Authz.{has_capability}

unfoldable pub require_capability : Principal → Text → Action Tables Error (Unit {0})
require_capability p capability =
    raise_if (not (has_capability p.role capability)) (http 403 "capability_required")

abbrev pub has_create_key : Text → Text → Text → CreateIdempotency → Bool
has_create_key tenant actor key r =
    same_text r.tenant_id tenant && same_text r.actor_id actor && same_text r.idempotency_key key

abbrev pub is_project : Text → RowId → Project → Bool
is_project tenant id x = x.id == id && same_text x.tenant_id tenant

-- `value == other`, where NULL is equal to nothing.
abbrev pub same_code : Text → Option Text → Bool
same_code code none = false
same_code code (some t) = same_text t code

abbrev pub emit : Text → RowId → Text → AuditKind → Tables → Tables
emit tenant project actor kind t = record t {
  audit =
      record { tenant_id = tenant; project_id = project; actor_id = actor; kind = kind } ∷ t.audit;
}

-- A project with the header `Idempotent-Replay`, or none.
unfoldable pub existing_project_create :
    Principal → Text → RowId → Action Tables Error (Option Project)
existing_project_create p key request_sha256 = do
  existing ← gets (λ t. find? (has_create_key p.tenant_id p.subject key) t.idempotency)
  elim existing [
    | none ↦ pure none
    | some row ↦ do
      raise_if (not (row.request_sha256 == request_sha256)) (http 409 "idempotency_key_reused")
      project ← gets (λ t. find? (is_project p.tenant_id row.project_id) t.projects)
      raise_if (is_none project) (http 409 "idempotency_record_inconsistent")
      pure project
  ]

unfoldable pub new_project : Principal → Payload → RowId → Project
new_project p payload new_id = record {
  id = new_id;
  tenant_id = p.tenant_id;
  client_id = payload.client_id;
  name = payload.name;
  code = payload.code;
  status = codes "planning";
  description = payload.description;
  address_summary = payload.address_summary;
  context_version = 1;
  created_by = p.subject;
  archived_at = none;
  archived_by = none;
}

-- The unique indexes of the two rows that are flushed.
unfoldable pub violates_unique : Principal → Text → Payload → Tables → Bool
violates_unique p key payload t =
    any (has_create_key p.tenant_id p.subject key) t.idempotency || elim payload.code [
      | none ↦ false
      | some code ↦ any (λ x. same_text x.tenant_id p.tenant_id && same_code code x.code) t.projects
    ]

abbrev pub is_profile : Text → RowId → CognitiveProfile → Bool
is_profile tenant project x = same_text x.tenant_id tenant && x.project_id == project

unfoldable pub ensure_cognitive_profile : Text → RowId → Action Tables Error RowId
ensure_cognitive_profile tenant project = do
  found ← gets (λ t. find? (is_profile tenant project) t.profiles)
  t ← gets (λ t. t)
  elim found [
    | some profile ↦ pure profile.id
    | none ↦ do
      modify (λ t. record t {
        profiles = record { id = t.next_id; tenant_id = tenant; project_id = project } ∷ t.profiles;
        next_id = t.next_id + 1;
      })
      pure t.next_id
  ]

-- What other requests committed is seen by this one, which has written nothing yet.
unfoldable pub let_in : (Tables → Tables) → Action Tables Error (Unit {0})
let_in meanwhile s =
    (ok tt, record { committed = meanwhile s.committed; working = meanwhile s.committed })

unfoldable pub insert_project : Principal → Text → RowId → Payload → Tables → Tables
insert_project p key sha payload t = record t {
  projects = new_project p payload t.next_id ∷ t.projects;
  idempotency =
      record {
        tenant_id = p.tenant_id;
        actor_id = p.subject;
        idempotency_key = key;
        request_sha256 = sha;
        project_id = t.next_id;
      }
      ∷ t.idempotency;
  next_id = t.next_id + 1;
}

-- After a failed flush, the key is looked for again.
unfoldable pub replay_or_conflict : Principal → Text → RowId → Action Tables Error Project
replay_or_conflict p key sha = do
  rollback
  replay ← existing_project_create p key sha
  or_raise replay (http 409 "project_conflict")

unfoldable pub add_project : Principal → Text → RowId → Payload → Action Tables Error Project
add_project p key sha payload = do
  t ← gets (λ t. t)
  modify (insert_project p key sha payload)
  profile ← ensure_cognitive_profile p.tenant_id t.next_id
  modify (emit p.tenant_id t.next_id p.subject (created profile))
  commit
  pure (new_project p payload t.next_id)

-- The flush and what follows it.
unfoldable pub write_project : Principal → Text → RowId → Payload → Action Tables Error Project
write_project p key sha payload = do
  clash ← gets (violates_unique p key payload)
  if clash then replay_or_conflict p key sha else add_project p key sha payload

module _ (canonical_sha256 : Payload → RowId) where
  -- From the search for the key on.
  unfoldable pub create_checked :
      Principal → Text × Payload → (Tables → Tables) → Action Tables Error Project
  create_checked p (key, payload) meanwhile = do
    replay ← existing_project_create p key (canonical_sha256 payload)
    elim replay [
      | some project ↦ pure project
      | none ↦ do let_in meanwhile; write_project p key (canonical_sha256 payload) payload
    ]

  unfoldable pub create_project :
      Principal → CreateBody → Text → (Tables → Tables) → Action Tables Error Project
  create_project p body raw_key meanwhile = do
    tested ← checked (check_create p body raw_key)
    create_checked p tested meanwhile
