-- ===== src/Drafts/Approval.antt =====
-- src/glip/services.py: `add_version`, `request_approval`, `decide`;
-- src/glip/context.py: `project_or_404`, `mutable_project_or_409`; and the routes `edit`, `request`,
-- `approve` and `reject` of src/glip/routes.py; src/glip/audit.py: `emit`. `sha` is SHA-256 of a text.
use arquitech_glip_premium_b.Prelude.{
  ◌+◌, Bool, not, ◌&&◌, ◌||◌, Option, none, some, ◌∷◌, ◌==◌, if◌then◌else◌, any, find?,
  update_where, is_none, Action, pure, raise, gets, or_raise, ◌>>=◌, ◌>>◌, raise_if, modify, commit,
  Error, http, integrity, RowId, Text, strip, is_empty,
}
use arquitech_glip_premium_b.Drafts.Data.{
  Project, Decision, approved, rejected, criticized, awaiting_approval, decided, Draft, Version,
  awaiting, invalidated, closed, ApprovalRequest, ApprovalDecision, ApprovedVersion, pending,
  MemoryCandidate, OutboxEvent, AuditKind, draft_approved, Db, is_awaiting,
}

abbrev pub is_project : RowId → RowId → Project → Bool
is_project tenant i p = p.id == i && p.tenant_id == tenant

unfoldable pub project_or_404 : RowId → RowId → Action Db Error Project
project_or_404 tenant i = do
  db ← gets (λ db. db)
  or_raise (find? (is_project tenant i) db.projects) (http 404 "project_not_found")

unfoldable pub mutable_project_or_409 : RowId → RowId → Action Db Error Project
unfolding project_or_404
mutable_project_or_409 tenant i = do
  project ← project_or_404 tenant i
  raise_if (not (is_none project.archived_at)) (http 409 "project_archived")
  pure project

abbrev pub is_draft : RowId → RowId → RowId → Draft → Bool
is_draft tenant project i d = d.id == i && d.tenant_id == tenant && d.project_id == project

abbrev pub is_version : RowId → RowId → RowId → RowId → Version → Bool
is_version tenant project draft i v =
    v.id == i && v.draft_id == draft && v.tenant_id == tenant && v.project_id == project

-- The requests that a new version invalidates.
abbrev pub awaits_draft : RowId → RowId → ApprovalRequest → Bool
awaits_draft tenant draft r = r.tenant_id == tenant && r.draft_id == draft && is_awaiting r.status

-- The requests that a decision looks for.
abbrev pub awaits_version : RowId → RowId → RowId → RowId → ApprovalRequest → Bool
awaits_version tenant project draft version r =
    r.tenant_id == tenant
    && r.project_id == project
    && r.draft_id == draft
    && r.draft_version_id == version
    && is_awaiting r.status

abbrev pub set_request : ApprovalRequest → ApprovalRequest
set_request r = record r { status = invalidated }

abbrev pub close_request : Decision → ApprovalRequest → ApprovalRequest
close_request d r = record r { status = closed d }

unfoldable pub request_approval :
    RowId → RowId → RowId → RowId → RowId → Action Db Error ApprovalRequest
request_approval tenant project_id draft_id version_id actor = do
  db ← gets (λ db. db)
  draft ←
      or_raise (find? (is_draft tenant project_id draft_id) db.drafts)
        (http 404 "draft_or_version_not_found")
  version ←
      or_raise (find? (is_version tenant project_id draft_id version_id) db.versions)
        (http 404 "draft_or_version_not_found")
  raise_if (not (version.version == draft.current_version))
      (http 409 "approval_requires_current_version")
  let request : ApprovalRequest = record {
    id = db.next_id;
    tenant_id = tenant;
    project_id = project_id;
    draft_id = draft_id;
    draft_version_id = version_id;
    requested_content_sha256 = version.content_sha256;
    status = awaiting;
    requested_by = actor;
  }
  modify (λ db. record db {
    drafts =
        update_where (λ d. d.id == draft.id) (λ d. record d { status = awaiting_approval })
          db.drafts;
    requests = request ∷ db.requests;
    next_id = db.next_id + 1;
  })
  pure request

module _ (sha : Text → RowId) where
  unfoldable pub add_version : RowId → RowId → RowId → RowId → Text → Action Db Error Version
  unfolding project_or_404
  add_version tenant project_id draft_id actor content = do
    db ← gets (λ db. db)
    draft ←
        or_raise (find? (is_draft tenant project_id draft_id) db.drafts)
          (http 404 "draft_not_found")
    raise_if (is_empty (strip content)) (http 422 "content_required")
    project ← project_or_404 tenant project_id
    let next = draft.current_version + 1
    let version : Version = record {
      id = db.next_id;
      tenant_id = tenant;
      project_id = project_id;
      draft_id = draft.id;
      version = next;
      content = content;
      content_sha256 = sha content;
      created_by_id = actor;
      project_context_version = project.context_version;
    }
    raise_if (any (λ v. v.draft_id == draft.id && v.version == next) db.versions) integrity
    modify (λ db. record db {
      drafts =
          update_where (λ d. d.id == draft.id)
            (λ d. record d { current_version = next; status = criticized }) db.drafts;
      versions = version ∷ db.versions;
      requests = update_where (awaits_draft tenant draft_id) set_request db.requests;
      next_id = db.next_id + 1;
    })
    pure version

  -- `version.version != draft.current_version or sha(version.content) != …`
  unfoldable pub is_stale : Draft → Version → ApprovalRequest → Bool
  is_stale draft version request =
      not (version.version == draft.current_version)
      || not (sha version.content == request.requested_content_sha256)

module _ (tenant project_id draft_id version_id : RowId) where
  -- What a decision of a valid request writes, without the rows of an approval.
  unfoldable pub write_decision :
      Decision → Draft → Version → ApprovalRequest → RowId → Option Text → Db → Db
  write_decision decision draft version request actor reason db =
      let row : ApprovalDecision = record {
        id = db.next_id;
        tenant_id = tenant;
        project_id = project_id;
        approval_request_id = request.id;
        draft_id = draft_id;
        draft_version_id = version_id;
        decision = decision;
        approved_content_sha256 = elim decision [
          | approved ↦ some version.content_sha256
          | rejected ↦ none
        ];
        actor_id = actor;
        reason = reason;
      } in
      record db {
        requests = update_where (λ r. r.id == request.id) (close_request decision) db.requests;
        drafts =
            update_where (λ d. d.id == draft.id) (λ d. record d { status = decided decision })
              db.drafts;
        decisions = row ∷ db.decisions;
        next_id = db.next_id + 1;
      }

  -- The rows that an approval adds: the approved version, the memory candidate, the event.
  unfoldable pub write_approval : Version → RowId → RowId → Db → Db
  write_approval version decision_id actor db =
      let approved_row : ApprovedVersion = record {
        id = db.next_id;
        tenant_id = tenant;
        project_id = project_id;
        draft_id = draft_id;
        draft_version_id = version_id;
        approval_decision_id = decision_id;
        content = version.content;
        content_sha256 = version.content_sha256;
        approved_by = actor;
      } in
      let candidate : MemoryCandidate = record {
        id = db.next_id + 1;
        tenant_id = tenant;
        project_id = project_id;
        source_approved_version_id = approved_row.id;
        source_content_sha256 = approved_row.content_sha256;
        status = pending;
        decided_by = none;
        decided_at = none;
      } in
      let event : OutboxEvent = record {
        id = db.next_id + 2;
        tenant_id = tenant;
        project_id = project_id;
        causation_id = decision_id;
        approved_version_id = approved_row.id;
        draft_id = draft_id;
        content_sha256 = approved_row.content_sha256;
      } in
      record db {
        approved_versions = approved_row ∷ db.approved_versions;
        candidates = candidate ∷ db.candidates;
        outbox = event ∷ db.outbox;
        next_id = db.next_id + 3;
      }

unfoldable pub emit : RowId → RowId → RowId → AuditKind → Action Db Error (Unit {0})
emit tenant project_id actor kind = modify (λ db. record db {
  audit =
      record { tenant_id = tenant; project_id = project_id; actor_id = actor; kind = kind }
      ∷ db.audit;
})

-- `uq_approved_draft_version`
abbrev pub was_approved : RowId → RowId → Db → Bool
was_approved tenant version db =
    any (λ a. a.tenant_id == tenant && a.draft_version_id == version) db.approved_versions

module _ (sha : Text → RowId) where
  -- `decide` when its three rows are found; it returns the id of the approved version.
  unfoldable pub decide_rows :
      RowId
      → RowId
      → RowId
      → RowId
      → RowId
      → Decision
      → Option Text
      → Draft
      → Version
      → ApprovalRequest
      → Action Db Error (Option RowId)
  decide_rows tenant project_id draft_id version_id actor decision reason draft version request = do
    db ← gets (λ db. db)
    let invalidate : Action Db Error (Option RowId) =
        modify (λ db. record db {
          requests = update_where (λ r. r.id == request.id) set_request db.requests;
        })
        >> raise (http 409 "approval_invalidated")
    let approve : Action Db Error (Option RowId) =
        raise_if (was_approved tenant version_id db) integrity
        >> modify (write_approval tenant project_id draft_id version_id version db.next_id actor)
        >> pure (some (db.next_id + 1))
    let carry_out : Action Db Error (Option RowId) =
        modify (
          write_decision tenant project_id draft_id version_id decision draft version request actor
            reason)
        >> elim decision [ rejected ↦ pure none | approved ↦ approve ]
    if is_stale sha draft version request then invalidate else carry_out

  unfoldable pub decide :
      RowId
      → RowId
      → RowId
      → RowId
      → RowId
      → Decision
      → Option Text
      → Action Db Error (Option RowId)
  decide tenant project_id draft_id version_id actor decision reason = do
    db ← gets (λ db. db)
    draft ←
        or_raise (find? (is_draft tenant project_id draft_id) db.drafts)
          (http 404 "approval_request_not_found")
    version ←
        or_raise (find? (is_version tenant project_id draft_id version_id) db.versions)
          (http 404 "approval_request_not_found")
    request ←
        or_raise (find? (awaits_version tenant project_id draft_id version_id) db.requests)
          (http 404 "approval_request_not_found")
    decide_rows tenant project_id draft_id version_id actor decision reason draft version request

  -- The routes: each checks that the project may change, and commits what its service returns.
  unfoldable pub edit : RowId → RowId → RowId → RowId → Text → Action Db Error (Unit {0})
  edit tenant project_id draft_id actor content = do
    mutable_project_or_409 tenant project_id
    add_version sha tenant project_id draft_id actor content
    commit

  unfoldable pub approve_or_reject :
      RowId → RowId → RowId → RowId → RowId → Decision → Option Text → Action Db Error (Unit {0})
  approve_or_reject tenant project_id draft_id version_id actor decision reason = do
    mutable_project_or_409 tenant project_id
    approved_id ← decide tenant project_id draft_id version_id actor decision reason
    elim decision [
      | approved ↦ emit tenant project_id actor (draft_approved approved_id)
      | rejected ↦ pure tt
    ]
    commit

unfoldable pub request_for_approval :
    RowId → RowId → RowId → RowId → RowId → Action Db Error (Unit {0})
request_for_approval tenant project_id draft_id version_id actor = do
  mutable_project_or_409 tenant project_id
  request_approval tenant project_id draft_id version_id actor
  commit
