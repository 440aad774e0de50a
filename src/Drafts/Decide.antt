-- ===== src/Drafts/Decide.antt =====
-- What the routes of src/glip/routes.py do to a draft's approval, on every branch.
use arquitech_glip_premium_b.Prelude.{
  ◌+◌, ◌≡◌, inl, inr, true, false, Option, none, some, ◌∷◌, ◌==◌, find?, update_where, arith, ap,
  request, ok, err, Error, http, RowId, Text, Option-cases,
}
use arquitech_glip_premium_b.Drafts.Data.{
  Project, Decision, approved, Draft, Version, ApprovalRequest, draft_approved, AuditEvent, Db,
  decided, closed, pending,
}
use arquitech_glip_premium_b.Drafts.Approval.{
  is_project, mutable_project_or_409, is_draft, is_version, awaits_version, add_version,
  request_approval, is_stale, write_decision, write_approval, was_approved, emit, decide_rows,
  decide, edit, approve_or_reject, request_for_approval,
}

-- A request that fails, or stops before its commit, leaves the tables as they were.
pub edit_atomic :
    (sha : Text → RowId) (tenant project draft actor : RowId) (content : Text) (db : Db) {e : Error}
    → (request (edit sha tenant project draft actor content) db).0 ≡ err e
    → (request (edit sha tenant project draft actor content) db).1 ≡ db
unfolding edit add_version mutable_project_or_409
edit_atomic sha tenant project draft actor content db h = ground arith

pub request_for_approval_atomic :
    (tenant project draft version actor : RowId) (db : Db) {e : Error}
    → (request (request_for_approval tenant project draft version actor) db).0 ≡ err e
    → (request (request_for_approval tenant project draft version actor) db).1 ≡ db
unfolding request_for_approval request_approval mutable_project_or_409
request_for_approval_atomic tenant project draft version actor db h = ground arith

-- A decision request that ends in an error leaves every table as it was.
pub approve_or_reject_atomic :
    (sha : Text → RowId) (tenant project draft version actor : RowId) (d : Decision)
    (reason : Option Text) (db : Db) {e : Error}
    → (request (approve_or_reject sha tenant project draft version actor d reason) db).0 ≡ err e
    → (request (approve_or_reject sha tenant project draft version actor d reason) db).1 ≡ db
unfolding approve_or_reject decide decide_rows emit mutable_project_or_409
approve_or_reject_atomic sha tenant project draft version actor d reason db h = ground arith

-- The rows that a decision stands on.
pub record IsDecidable (sha : Text → RowId) (tenant project draft_id version_id : RowId) (db : Db)
    : Type 0 where
  pub project_row : Project
  pub draft : Draft
  pub version : Version
  pub asked : ApprovalRequest
  pub project_there : find? (is_project tenant project) db.projects ≡ some project_row
  pub active : project_row.archived_at ≡ none
  pub draft_there : find? (is_draft tenant project draft_id) db.drafts ≡ some draft
  pub version_there :
      find? (is_version tenant project draft_id version_id) db.versions ≡ some version
  pub asked_there :
      find? (awaits_version tenant project draft_id version_id) db.requests ≡ some asked

-- What is reviewed is what is decided.
abbrev pub IsReviewed : (Text → RowId) → Draft → Version → ApprovalRequest → Type 0
IsReviewed sha d v r =
    (v.version ≡ d.current_version) × (sha v.content ≡ r.requested_content_sha256)

is_stale-IsReviewed :
    (sha : Text → RowId) (d : Draft) (v : Version) (r : ApprovalRequest)
    → is_stale sha d v r ≡ false
    → IsReviewed sha d v r
unfolding is_stale
is_stale-IsReviewed sha d v r h = (ground arith, ground arith)

module _ (sha : Text → RowId) (tenant project draft_id version_id actor : RowId)
    (reason : Option Text) (db : Db) where
  pub decidable_rows :
      (d : Decision)
      → (request (approve_or_reject sha tenant project draft_id version_id actor d reason) db).0
        ≡ ok tt
      → IsDecidable sha tenant project draft_id version_id db
  unfolding approve_or_reject decide mutable_project_or_409
  decidable_rows d h = elim (Option-cases (find? (is_project tenant project) db.projects)) [
    | inl e ↦ ground (arith, e)
    | inr (p, e) ↦ elim (Option-cases (find? (is_draft tenant project draft_id) db.drafts)) [
      | inl f ↦ ground (arith, e, f)
      | inr (dr, f) ↦
          elim (Option-cases (find? (is_version tenant project draft_id version_id) db.versions)) [
            | inl g ↦ ground (arith, e, f, g)
            | inr (v, g) ↦
                elim (Option-cases
                  (find? (awaits_version tenant project draft_id version_id) db.requests)) [
                    | inl k ↦ ground (arith, e, f, g, k)
                    | inr (r, k) ↦ record {
                      project_row = p;
                      draft = dr;
                      version = v;
                      asked = r;
                      project_there = e;
                      active = ground (arith, e);
                      draft_there = f;
                      version_there = g;
                      asked_there = k;
                    }
                  ]
          ]
    ]
  ]

  -- The tables after an approval, column by column: the decision, the approved copy, the candidate
  -- and the event take the next four ids.
  abbrev pub approved_tables : Draft → Version → ApprovalRequest → Db
  approved_tables d v r = record {
    projects = db.projects;
    drafts =
        update_where (λ x. x.id == d.id) (λ x. record x { status = decided approved }) db.drafts;
    versions = db.versions;
    requests =
        update_where (λ x. x.id == r.id) (λ x. record x { status = closed approved }) db.requests;
    decisions =
        record {
          id = db.next_id;
          tenant_id = tenant;
          project_id = project;
          approval_request_id = r.id;
          draft_id = draft_id;
          draft_version_id = version_id;
          decision = approved;
          approved_content_sha256 = some v.content_sha256;
          actor_id = actor;
          reason = reason;
        }
        ∷ db.decisions;
    approved_versions =
        record {
          id = db.next_id + 1;
          tenant_id = tenant;
          project_id = project;
          draft_id = draft_id;
          draft_version_id = version_id;
          approval_decision_id = db.next_id;
          content = v.content;
          content_sha256 = v.content_sha256;
          approved_by = actor;
        }
        ∷ db.approved_versions;
    candidates =
        record {
          id = db.next_id + 1 + 1;
          tenant_id = tenant;
          project_id = project;
          source_approved_version_id = db.next_id + 1;
          source_content_sha256 = v.content_sha256;
          status = pending;
          decided_by = none;
          decided_at = none;
        }
        ∷ db.candidates;
    facts = db.facts;
    outbox =
        record {
          id = db.next_id + 1 + 2;
          tenant_id = tenant;
          project_id = project;
          causation_id = db.next_id;
          approved_version_id = db.next_id + 1;
          draft_id = draft_id;
          content_sha256 = v.content_sha256;
        }
        ∷ db.outbox;
    audit =
        record {
          tenant_id = tenant;
          project_id = project;
          actor_id = actor;
          kind = draft_approved (some (db.next_id + 1));
        }
        ∷ db.audit;
    next_id = db.next_id + 1 + 3;
  }

  written :
      (d : Draft) (v : Version) (r : ApprovalRequest) (after : Db)
      → after ≡ (
          let made =
            write_approval tenant project draft_id version_id v db.next_id actor
              (write_decision tenant project draft_id version_id approved d v r actor reason db) in
          let event : AuditEvent = record {
            tenant_id = tenant;
            project_id = project;
            actor_id = actor;
            kind = draft_approved (some (db.next_id + 1));
          } in
          record made { audit = event ∷ made.audit })
      → after ≡ approved_tables d v r
  unfolding write_decision write_approval
  written d v r after h = h

  -- A successful approval stands on an unarchived project, the current version of the draft and a
  -- pending request for exactly that text, of a version not approved before; the tables gain the
  -- decision, the approved copy, one pending memory candidate, one outbox event and one audit
  -- event, each linked to the others by id and with the text and digest of the version, the
  -- request and the draft are marked as approved, and nothing else changes.
  pub approve_lem :
      (after : Db)
      → request (approve_or_reject sha tenant project draft_id version_id actor approved reason) db
        ≡ (ok tt, after)
      → (k : IsDecidable sha tenant project draft_id version_id db) × IsReviewed sha k.draft
          k.version k.asked
        × (was_approved tenant version_id db ≡ false)
        × (after ≡ approved_tables k.draft k.version k.asked)
  unfolding approve_or_reject decide decide_rows emit mutable_project_or_409
  approve_lem after h =
      let k = decidable_rows approved (ap (λ x. x.0) h) in
      (
        k,
        is_stale-IsReviewed sha k.draft k.version k.asked (
            ground
              (arith, k.project_there, k.active, k.draft_there, k.version_there, k.asked_there)),
        ground (arith, k.project_there, k.active, k.draft_there, k.version_there, k.asked_there),
        written k.draft k.version k.asked after (
            ground
              (arith, k.project_there, k.active, k.draft_there, k.version_there, k.asked_there)),
      )

  -- A decision that finds a changed text or an older version is refused with 409 and changes
  -- nothing: the mark as invalidated that it writes is not committed.
  pub invalidation_lost :
      (d : Decision) (k : IsDecidable sha tenant project draft_id version_id db)
      → is_stale sha k.draft k.version k.asked ≡ true
      → request (approve_or_reject sha tenant project draft_id version_id actor d reason) db
        ≡ (err (http 409 "approval_invalidated"), db)
  unfolding approve_or_reject decide decide_rows emit mutable_project_or_409
  invalidation_lost d k h =
      ground (arith, k.project_there, k.active, k.draft_there, k.version_there, k.asked_there)
