-- ===== src/Projects/Repeat.antt =====
-- A creation that is sent again (src/glip/routes.py), after any other requests.
use arquitech_glip_premium_b.Prelude.{
  ◌≡◌, ap, ◌∙◌, true, false, List, ◌==◌, find?, ok, err, request, http, RowId, Text, strip, arith,
  inl, inr,
}
use arquitech_glip_premium_b.Prelude.Results.{Result-cases}
use arquitech_glip_premium_b.Prelude.Tables.{find-holds}
use arquitech_glip_premium_b.Auth.Data.{Principal}
use arquitech_glip_premium_b.Projects.Data.{Project, Tables, Payload, CreateBody}
use arquitech_glip_premium_b.Projects.Body.{check_create, client_missing, project_create_payload}
use arquitech_glip_premium_b.Projects.Create.{
  is_project, existing_project_create, create_checked, create_project,
}
use arquitech_glip_premium_b.Projects.Replay.{IsKept, create_checked-IsKept}
use arquitech_glip_premium_b.Projects.Calls.{Call, serve_all, serve_all-IsKept}

-- The tests read the tables only for the client.
check_create-ok :
    (p : Principal) (body : CreateBody) (raw_key : Text) (t : Tables) (made : Text × Payload)
    → check_create p body raw_key t ≡ ok made
    → made ≡ (strip raw_key, project_create_payload body)
unfolding check_create
check_create-ok p body raw_key t made h = ground (arith, h)

check_create-again :
    (p : Principal) (body : CreateBody) (raw_key : Text) (t later : Tables) (made : Text × Payload)
    → check_create p body raw_key t ≡ ok made
    → client_missing p.tenant_id (project_create_payload body).client_id later ≡ false
    → check_create p body raw_key later ≡ ok made
unfolding check_create
check_create-again p body raw_key t later made h there = ground (arith, h, there)

module _ (canonical_sha256 : Payload → RowId) (p : Principal) (key : Text) (payload : Payload)
    (meanwhile : Tables → Tables) (t : Tables) where
  kept-replayed :
      {id : RowId} (kept : IsKept p.tenant_id p.subject key (canonical_sha256 payload) id t)
      → request (create_checked canonical_sha256 p (key, payload) meanwhile) t
        ≡ (ok kept.project, t)
  unfolding create_checked existing_project_create
  kept-replayed kept =
      let same : (kept.row.request_sha256 == canonical_sha256 payload) ≡ true =
        ground (arith, kept.digest) in
      let there = ap (λ i. find? (is_project p.tenant_id i) t.projects) kept.leads ∙ kept.there in
      cc (kept.keyed, same, there)

  kept-reused :
      {sha id : RowId} (kept : IsKept p.tenant_id p.subject key sha id t)
      → (sha == canonical_sha256 payload) ≡ false
      → request (create_checked canonical_sha256 p (key, payload) meanwhile) t
        ≡ (err (http 409 "idempotency_key_reused"), t)
  unfolding create_checked existing_project_create
  kept-reused kept different =
      let other = ap (λ d. d == canonical_sha256 payload) kept.digest ∙ different in
      cc (kept.keyed, other)

module _ (canonical_sha256 : Payload → RowId) (p : Principal) (body other : CreateBody)
    (raw_key : Text) (meanwhile next : Tables → Tables) (calls : List Call) (t made : Tables)
    (x : Project) where
  abbrev now_there : Tables
  now_there = serve_all canonical_sha256 calls made

  -- After a successful creation of a project, whatever other requests committed between its search
  -- for the key and its flush, and whatever creations, updates, archivals and restorations are
  -- served later: the same body under the same key, while its client is there, is answered by the
  -- project of the same id, and another body that passes the tests and has another digest is
  -- refused with 409 idempotency_key_reused; both change nothing.
  pub created_replays :
      request (create_project canonical_sha256 p body raw_key meanwhile) t ≡ (ok x, made)
      → client_missing p.tenant_id (project_create_payload body).client_id now_there ≡ false
      → check_create p other raw_key now_there ≡ ok (strip raw_key, project_create_payload other)
      → (canonical_sha256 (project_create_payload body)
          == canonical_sha256 (project_create_payload other))
        ≡ false
      → ((y : Project) × (request (create_project canonical_sha256 p body raw_key next) now_there
            ≡ (ok y, now_there))
          × (y.id ≡ x.id))
        × (request (create_project canonical_sha256 p other raw_key next) now_there
            ≡ (err (http 409 "idempotency_key_reused"), now_there))
  unfolding create_project
  created_replays created client tested different =
      elim (Result-cases (check_create p body raw_key t)) [
        | inr (failed, e) ↦ ground (arith, created, e)
        | inl (tested_body, e) ↦
            let shape = check_create-ok p body raw_key t tested_body e in
            let fine : check_create p body raw_key t
                ≡ ok (strip raw_key, project_create_payload body) =
              e ∙ ap ok shape in
            let first =
              create_checked-IsKept canonical_sha256 p (strip raw_key) (project_create_payload body)
                meanwhile t made x (ground (arith, created, fine)) in
            let kept =
              serve_all-IsKept canonical_sha256 p.tenant_id p.subject (strip raw_key) _ x.id calls
                made first in
            let again = check_create-again p body raw_key t now_there _ fine client in
            let held = find-holds (is_project p.tenant_id x.id) now_there.projects kept.there in
            let replayed =
              kept-replayed canonical_sha256 p (strip raw_key) (project_create_payload body) next
                now_there kept in
            let reused =
              kept-reused canonical_sha256 p (strip raw_key) (project_create_payload other) next
                now_there kept different in
            ((kept.project, cc (again, replayed), ground (arith, held)), cc (tested, reused))
      ]
