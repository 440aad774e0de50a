-- ===== src/Projects/Archive.antt =====
-- A project between its archival and its restoration (src/glip/routes.py).
use arquitech_glip_premium_b.Prelude.{
  ℕ, ◌+◌, ◌≡◌, refl, ap, ◌∙◌, true, none, some, ◌==◌, find?, ok, err, request, http, RowId, Text,
  codes, arith, if_true,
}
use arquitech_glip_premium_b.Prelude.Tables.{find-update_unique}
use arquitech_glip_premium_b.Auth.Data.{Principal}
use arquitech_glip_premium_b.Projects.Data.{Project, Tables, Patch}
use arquitech_glip_premium_b.Projects.Authz.{has_capability}
use arquitech_glip_premium_b.Projects.Create.{is_project, require_capability}
use arquitech_glip_premium_b.Projects.Edit.{project_or_404}
use arquitech_glip_premium_b.Projects.Change.{
  take_from, write_back, bump, update_project, archive_project, restore_project,
}

-- The row that a search finds after it was written back.
write_back-find :
    (tenant : Text) (id : RowId) (x next : Project) (t : Tables)
    → find? (is_project tenant id) t.projects ≡ some x
    → next.id ≡ x.id
    → find? (is_project tenant id) (write_back next t).projects ≡ some (take_from next x)
unfolding write_back take_from
write_back-find tenant id x next t found same =
    let own : (x.id == next.id) ≡ true = ground (arith, same) in
    find-update_unique (λ y. y.id == next.id) (is_project tenant id) (take_from next) t.projects
      (λ y. refl) found
    ∙ ap some (if_true (take_from next x) x own)

update-refused :
    (q : Principal) (id : RowId) (body : Patch) (t : Tables) (x : Project) {at : ℕ}
    → find? (is_project q.tenant_id id) t.projects ≡ some x
    → x.archived_at ≡ some at
    → has_capability q.role (codes "project.update") ≡ true
    → request (update_project q id body) t ≡ (err (http 409 "project_archived"), t)
unfolding update_project require_capability project_or_404
update-refused q id body t x found shelved may = cc (found, shelved, may)

restore-returns :
    (r : Principal) (id : RowId) (t : Tables) (x : Project) {at : ℕ}
    → find? (is_project r.tenant_id id) t.projects ≡ some x
    → x.archived_at ≡ some at
    → has_capability r.role (codes "project.restore") ≡ true
    → (request (restore_project r id) t).0
      ≡ ok (record x {
        archived_at = none;
        archived_by = none;
        context_version = x.context_version + 1;
      })
unfolding restore_project require_capability project_or_404 bump
restore-returns r id t x found shelved may = cc (found, shelved, may)

module _ (p q r : Principal) (id : RowId) (now : ℕ) (t : Tables) (x : Project) where
  abbrev at_rest : Project
  at_rest = record x {
    archived_at = some now;
    archived_by = some p.subject;
    context_version = x.context_version + 1;
  }

  abbrev shelved : Tables
  shelved = (request (archive_project p id now) t).1

  archive-projects :
      find? (is_project p.tenant_id id) t.projects ≡ some x
      → x.archived_at ≡ none
      → has_capability p.role (codes "project.archive") ≡ true
      → shelved.projects ≡ (write_back at_rest t).projects
  unfolding archive_project require_capability project_or_404 bump
  archive-projects found live may = cc (found, live, may)

  archive-find :
      find? (is_project p.tenant_id id) t.projects ≡ some x
      → x.archived_at ≡ none
      → has_capability p.role (codes "project.archive") ≡ true
      → find? (is_project p.tenant_id id) shelved.projects ≡ some at_rest
  unfolding take_from
  archive-find found live may =
      ap (find? (is_project p.tenant_id id)) (archive-projects found live may)
      ∙ write_back-find p.tenant_id id x at_rest t found refl

  -- When a project that is not archived was archived by someone who may, any update of it by
  -- someone of its tenant who may update is refused with 409 project_archived and changes nothing,
  -- and a restoration by someone who may answers with the project as it was, two context versions
  -- later and with no one named as its archiver.
  pub archive_restore :
      find? (is_project p.tenant_id id) t.projects ≡ some x
      → x.archived_at ≡ none
      → has_capability p.role (codes "project.archive") ≡ true
      → q.tenant_id ≡ p.tenant_id
      → has_capability q.role (codes "project.update") ≡ true
      → r.tenant_id ≡ p.tenant_id
      → has_capability r.role (codes "project.restore") ≡ true
      → (body : Patch)
      → (request (update_project q id body) shelved ≡ (err (http 409 "project_archived"), shelved))
        × ((request (restore_project r id) shelved).0
            ≡ ok (record x {
              archived_at = none;
              archived_by = none;
              context_version = x.context_version + 1 + 1;
            }))
  archive_restore found live may same_tenant may_update of_tenant may_restore body =
      let shelf = archive-find found live may in
      let seen : find? (is_project q.tenant_id id) shelved.projects ≡ some at_rest =
        ap (λ tenant. find? (is_project tenant id) shelved.projects) same_tenant ∙ shelf in
      let kept : find? (is_project r.tenant_id id) shelved.projects ≡ some at_rest =
        ap (λ tenant. find? (is_project tenant id) shelved.projects) of_tenant ∙ shelf in
      (
        update-refused q id body shelved at_rest seen refl may_update,
        restore-returns r id shelved at_rest kept refl may_restore,
      )
