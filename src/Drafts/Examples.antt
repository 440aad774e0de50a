-- ===== src/Drafts/Examples.antt =====
-- A draft of src/glip/services.py that is edited, put up for approval, decided and remembered; and the
-- theorems at it.
use arquitech_glip_premium_b.Prelude.{
  ◌≡◌, refl, ◌≢◌, true, false, none, some, [], ◌∷◌, ok, err, http, integrity, RowId, Text, codes,
  find?, request, length, strip, lstrip, rstrip, is_empty, same_text,
}
use arquitech_glip_premium_b.Drafts.Data.{
  Db, Project, Draft, Version, ApprovalRequest, approved, rejected, decided, awaiting,
  awaiting_approval, criticized, MemoryCandidate, MemoryFact, pending,
}
use arquitech_glip_premium_b.Drafts.Approval.{
  project_or_404, mutable_project_or_409, request_approval, add_version, is_stale, write_decision,
  write_approval, decide_rows, decide, emit, edit, approve_or_reject, request_for_approval,
  is_draft, was_approved,
}
use arquitech_glip_premium_b.Drafts.Memory.{
  current_max, approve_memory_candidate, promote_memory, is_candidate, IsVersioned,
  promotion_source, promotion_versions,
}
use arquitech_glip_premium_b.Drafts.Once.{start, promotion, promoted_once}
use arquitech_glip_premium_b.Drafts.Decide.{
  approve_or_reject_atomic, IsDecidable, IsReviewed, approve_lem, approved_tables,
  invalidation_lost,
}
use arquitech_glip_premium_b.Drafts.Edits.{edit_withdraws, rejected_after_approval, approved_twice}

run : Unit {0}
unfolding lstrip rstrip strip same_text project_or_404 mutable_project_or_409 request_approval
    add_version is_stale write_decision write_approval decide_rows decide emit edit
    approve_or_reject request_for_approval current_max approve_memory_candidate promote_memory
    IsVersioned
run = tt

-- A digest for the runs.
abbrev sha : Text → RowId
sha t = length t

abbrev project : Project
project = record { id = 3; tenant_id = 7; archived_at = none; context_version = 1 }

abbrev draft : Draft
draft = record {
  id = 4;
  tenant_id = 7;
  project_id = 3;
  status = criticized;
  current_version = 1;
  created_by = 8;
}

abbrev version : Version
version = record {
  id = 5;
  tenant_id = 7;
  project_id = 3;
  draft_id = 4;
  version = 1;
  content = codes "hello";
  content_sha256 = 5;
  created_by_id = 8;
  project_context_version = 1;
}

abbrev asked : ApprovalRequest
asked = record {
  id = 6;
  tenant_id = 7;
  project_id = 3;
  draft_id = 4;
  draft_version_id = 5;
  requested_content_sha256 = 5;
  status = awaiting;
  requested_by = 8;
}

abbrev submitted : Db
submitted = record {
  projects = project ∷ [];
  drafts = record draft { status = awaiting_approval } ∷ [];
  versions = version ∷ [];
  requests = asked ∷ [];
  decisions = [];
  approved_versions = [];
  candidates = [];
  facts = [];
  outbox = [];
  audit = [];
  next_id = 20;
}

-- The same draft with two pending requests, and after the first was approved.
abbrev twice : Db
twice = record submitted { requests = asked ∷ record asked { id = 7 } ∷ [] }

abbrev settled : Db
settled = (request (approve_or_reject sha 7 3 4 5 9 approved none) twice).1

-- The request's text is not the version's.
abbrev changed : Db
changed = record submitted { versions = record version { content = codes "hello!" } ∷ [] }

submitting :
    request
      (request_for_approval 7 3 4 5 8)
      (record submitted { drafts = draft ∷ []; requests = []; next_id = 6 })
    ≡ (ok tt, record submitted { next_id = 7 })
unfolding run
submitting = refl

approve_ok : (request (approve_or_reject sha 7 3 4 5 9 approved none) submitted).0 ≡ ok tt
unfolding run
approve_ok = refl

decidable : IsDecidable sha 7 3 4 5 submitted
unfolding run
decidable = record {
  project_row = project;
  draft = record draft { status = awaiting_approval };
  version = version;
  asked = asked;
  project_there = refl;
  active = refl;
  draft_there = refl;
  version_there = refl;
  asked_there = refl;
}

abbrev changed_rows : IsDecidable sha 7 3 4 5 changed
changed_rows = record {
  project_row = project;
  draft = record draft { status = awaiting_approval };
  version = record version { content = codes "hello!" };
  asked = asked;
  project_there = refl;
  active = refl;
  draft_there = refl;
  version_there = refl;
  asked_there = refl;
}

stale_changed : is_stale sha changed_rows.draft changed_rows.version changed_rows.asked ≡ true
unfolding run
stale_changed = refl

approve_or_reject_atomic_example :
    (request (approve_or_reject sha 7 3 4 5 9 approved none) changed).1 ≡ changed
unfolding run
approve_or_reject_atomic_example =
    approve_or_reject_atomic sha 7 3 4 5 9 approved none changed
      {e = http 409 "approval_invalidated"} refl

approve_example :
    (k : IsDecidable sha 7 3 4 5 submitted) × IsReviewed sha k.draft k.version k.asked
    × (was_approved 7 5 submitted ≡ false)
    × ((request (approve_or_reject sha 7 3 4 5 9 approved none) submitted).1
        ≡ approved_tables sha 7 3 4 5 9 none submitted k.draft k.version k.asked)
unfolding run
approve_example =
    approve_lem sha 7 3 4 5 9 none submitted
      (request (approve_or_reject sha 7 3 4 5 9 approved none) submitted).1 refl

invalidation_lost_example :
    request (approve_or_reject sha 7 3 4 5 9 approved none) changed
    ≡ (err (http 409 "approval_invalidated"), changed)
invalidation_lost_example =
    invalidation_lost sha 7 3 4 5 9 none changed approved changed_rows stale_changed

edit_ok : (request (edit sha 7 3 4 8 (codes "new text")) submitted).0 ≡ ok tt
unfolding run
edit_ok = refl

edit_withdraws_example :
    (request
      (approve_or_reject sha 7 3 4 5 9 approved none)
      (request (edit sha 7 3 4 8 (codes "new text")) submitted).1).0
    ≢ ok tt
edit_withdraws_example =
    edit_withdraws sha 7 3 4 8 (codes "new text") submitted 5 9 approved none edit_ok

settled_rows : IsDecidable sha 7 3 4 5 settled
unfolding run
settled_rows = record {
  project_row = project;
  draft = record draft { status = decided approved };
  version = version;
  asked = record asked { id = 7 };
  project_there = refl;
  active = refl;
  draft_there = refl;
  version_there = refl;
  asked_there = refl;
}

settled-IsReviewed : IsReviewed sha settled_rows.draft settled_rows.version settled_rows.asked
unfolding settled_rows
settled-IsReviewed = (refl, refl)

settled_approved : was_approved 7 5 settled ≡ true
unfolding run
settled_approved = refl

rejected_after_approval_example :
    (after : Db) × (request (approve_or_reject sha 7 3 4 5 9 rejected none) settled
      ≡ (ok tt, after))
    × (after.approved_versions ≡ settled.approved_versions)
    × (find? (is_draft 7 3 4) after.drafts
        ≡ some (record settled_rows.draft { status = decided rejected }))
rejected_after_approval_example =
    rejected_after_approval sha 7 3 4 5 9 none settled settled_rows settled-IsReviewed
      settled_approved

approved_twice_example :
    request (approve_or_reject sha 7 3 4 5 9 approved none) settled ≡ (err integrity, settled)
approved_twice_example =
    approved_twice sha 7 3 4 5 9 none settled settled_rows settled-IsReviewed settled_approved

abbrev candidate : MemoryCandidate
candidate = record {
  id = 11;
  tenant_id = 7;
  project_id = 3;
  source_approved_version_id = 10;
  source_content_sha256 = 5;
  status = pending;
  decided_by = none;
  decided_at = none;
}

abbrev old_fact : MemoryFact
old_fact = record {
  id = 12;
  tenant_id = 7;
  project_id = 3;
  fact_key = codes "tone";
  fact_value = codes "formal";
  version = 4;
  source_approved_version_id = 9;
  approved_by = 9;
}

abbrev remembering : Db
remembering = record submitted { candidates = candidate ∷ []; facts = old_fact ∷ [] }

abbrev new_fact : MemoryFact
new_fact = record old_fact {
  id = 20;
  fact_value = codes "warm";
  version = 5;
  source_approved_version_id = 10;
}

promoting :
    (request (promote_memory 7 3 11 9 (codes " tone ") (codes "warm") 50) remembering).0
    ≡ ok new_fact
unfolding run
promoting = refl

remembering-IsVersioned : IsVersioned remembering.facts
unfolding run
remembering-IsVersioned = (tt, tt)

promotion_source_example :
    (c : MemoryCandidate) × (find? (is_candidate 7 3 11) remembering.candidates ≡ some c)
    × (new_fact.source_approved_version_id ≡ c.source_approved_version_id)
    × (new_fact.approved_by ≡ 9)
    × (is_empty new_fact.fact_key ≡ false)
    × (is_empty new_fact.fact_value ≡ false)
promotion_source_example =
    promotion_source 7 3 11 9 (codes " tone ") (codes "warm") 50 remembering new_fact promoting

promotion_versions_example :
    IsVersioned
      (request (promote_memory 7 3 11 9 (codes " tone ") (codes "warm") 50) remembering).1.facts
promotion_versions_example =
    promotion_versions 7 3 11 9 (codes " tone ") (codes "warm") 50 remembering
      remembering-IsVersioned

promoted_once_example :
    let once =
      (request (promote_memory 7 3 11 9 (codes " tone ") (codes "warm") 50) remembering).1 in
    let u = (request (promote_memory 7 3 12 9 (codes "tone") (codes "cool") 55) once).1 in
    let again = request (promote_memory 7 3 11 8 (codes "tone") (codes "cold") 60) u in
    ((second : MemoryFact) → again.0 ≢ ok second) × (again.1 ≡ u)
promoted_once_example =
    promoted_once 7 3 11 9 (codes " tone ") (codes "warm") 50 remembering _ 8 (codes "tone")
      (codes "cold") 60 promoting (promotion 7 3 12 9 (codes "tone") (codes "cool") 55 start)
