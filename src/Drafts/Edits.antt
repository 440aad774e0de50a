-- ===== src/Drafts/Edits.antt =====
-- How edits and requests of src/glip/services.py bear on later decisions.
use arquitech_glip_premium_b.Prelude.{
  ◌≡◌, refl, ◌≢◌, true, Option, none, some, ◌==◌, find?, update_where, arith, request, Result, ok,
  err, Error, integrity, RowId, Text,
}
use mathlib.Core.Path.{subst, sym}
use arquitech_glip_premium_b.Prelude.Tables.{find-update_unique, find-none_of_update}
use arquitech_glip_premium_b.Drafts.Data.{Decision, approved, rejected, Db, decided}
use arquitech_glip_premium_b.Drafts.Approval.{
  project_or_404, mutable_project_or_409, is_draft, awaits_draft, awaits_version, set_request,
  add_version, is_stale, write_decision, was_approved, decide_rows, decide, edit, approve_or_reject,
}
use arquitech_glip_premium_b.Drafts.Decide.{IsDecidable, IsReviewed, decidable_rows}

module _ (sha : Text → RowId) (tenant project draft_id actor : RowId) (content : Text)
    (db : Db) where
  abbrev edited : Result Error (Unit {0}) × Db
  edited = request (edit sha tenant project draft_id actor content) db

  edit_requests :
      edited.0 ≡ ok tt
      → edited.1.requests ≡ update_where (awaits_draft tenant draft_id) set_request db.requests
  unfolding edit add_version mutable_project_or_409 project_or_404
  edit_requests h = ground arith

  -- After a successful edit of a draft, a decision on any of its versions, made next by the same
  -- tenant in the same project, does not succeed.
  pub edit_withdraws :
      (version_id other : RowId) (d : Decision) (reason : Option Text)
      → edited.0 ≡ ok tt
      → (request
          (approve_or_reject sha tenant project draft_id version_id other d reason)
          edited.1).0
        ≢ ok tt
  edit_withdraws version_id other d reason h again =
      let k = decidable_rows sha tenant project draft_id version_id other reason edited.1 d again in
      let there = k.asked_there in
      let gone : find? (awaits_version tenant project draft_id version_id) edited.1.requests
          ≡ none =
        subst (λ rs. find? (awaits_version tenant project draft_id version_id) rs ≡ none)
          (sym (edit_requests h))
          (find-none_of_update (awaits_draft tenant draft_id)
            (awaits_version tenant project draft_id version_id) set_request db.requests
            (λ r e. ground arith) (λ r e. ground arith)) in
      cc

module _ (sha : Text → RowId) (tenant project draft_id version_id actor : RowId)
    (reason : Option Text) (db : Db) where
  -- Where an approved version has another pending request for its text, a rejection of that
  -- request succeeds: the approved copies stay and the draft is marked as rejected.
  pub rejected_after_approval :
      (k : IsDecidable sha tenant project draft_id version_id db)
      → IsReviewed sha k.draft k.version k.asked
      → was_approved tenant version_id db ≡ true
      → (after : Db) × (request
            (approve_or_reject sha tenant project draft_id version_id actor rejected reason)
            db
          ≡ (ok tt, after))
        × (after.approved_versions ≡ db.approved_versions)
        × (find? (is_draft tenant project draft_id) after.drafts
            ≡ some (record k.draft { status = decided rejected }))
  unfolding approve_or_reject decide decide_rows mutable_project_or_409 project_or_404 is_stale
      write_decision
  rejected_after_approval k h a =
      let marked =
        find-update_unique (λ d. d.id == k.draft.id) (is_draft tenant project draft_id)
          (λ d. record d { status = decided rejected }) db.drafts (λ d. refl) k.draft_there in
      (
        write_decision tenant project draft_id version_id rejected k.draft k.version k.asked actor
            reason db,
        ground (
          arith, k.project_there, k.active, k.draft_there, k.version_there, k.asked_there, h.0, h.1,
        ),
        refl,
        ground (arith, marked),
      )

  -- Where an approved version has another pending request for its text, a second approval ends in
  -- the integrity error of the unique index and changes nothing.
  pub approved_twice :
      (k : IsDecidable sha tenant project draft_id version_id db)
      → IsReviewed sha k.draft k.version k.asked
      → was_approved tenant version_id db ≡ true
      → request (approve_or_reject sha tenant project draft_id version_id actor approved reason) db
        ≡ (err integrity, db)
  unfolding approve_or_reject decide decide_rows mutable_project_or_409 project_or_404 is_stale
  approved_twice k h a =
      ground
        (arith, k.project_there, k.active, k.draft_there, k.version_there, k.asked_there, h.0, h.1)
