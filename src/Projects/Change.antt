-- ===== src/Projects/Change.antt =====
-- src/glip/routes.py: `update_project`, `archive_project` and `restore_project`.
use arquitech_glip_premium_b.Prelude.{
  gets, ℕ, ◌+◌, not, none, some, [], ◌∷◌, ◌==◌, if◌then◌else◌, update_where, Action, ◌>>=◌, ◌>>◌,
  pure, raise_if, modify, commit, Error, http, RowId, codes, is_none,
}
use arquitech_glip_premium_b.Prelude.Results.{checked}
use arquitech_glip_premium_b.Auth.Data.{Principal}
use arquitech_glip_premium_b.Projects.Data.{
  Project, AuditKind, updated, archived, restored, Tables, Patch,
}
use arquitech_glip_premium_b.Projects.Create.{require_capability, emit}
use arquitech_glip_premium_b.Projects.Edit.{code_taken, project_or_404, Edit, edited, sorted_fields}

-- The columns that an UPDATE of the row writes.
unfoldable pub take_from : Project → Project → Project
take_from x y = record y {
  client_id = x.client_id;
  name = x.name;
  code = x.code;
  status = x.status;
  description = x.description;
  address_summary = x.address_summary;
  context_version = x.context_version;
  archived_at = x.archived_at;
  archived_by = x.archived_by;
}

unfoldable pub write_back : Project → Tables → Tables
write_back x t = record t { projects = update_where (λ y. y.id == x.id) (take_from x) t.projects }

-- One more version of the context, with its audit event.
unfoldable pub bump : Principal → AuditKind → Project → Action Tables Error Project
bump p kind x = do
  let next = record x { context_version = x.context_version + 1 }
  modify (write_back next)
  modify (emit p.tenant_id x.id p.subject kind)
  commit
  pure next

-- The commit of the changed columns, under `uq_project_code`.
unfoldable pub save : Principal → Edit → Action Tables Error Project
save p (x, []) = pure x
save p (x, f ∷ fs) = do
  taken ← gets (λ t. code_taken t x x.code)
  raise_if taken (http 409 "project_conflict")
  bump p (updated (sorted_fields (f ∷ fs))) x

unfoldable pub update_project : Principal → RowId → Patch → Action Tables Error Project
update_project p id body = do
  require_capability p (codes "project.update")
  x ← checked (project_or_404 p.tenant_id id)
  raise_if (not (is_none x.archived_at)) (http 409 "project_archived")
  e ← checked (λ t. edited t body x)
  save p e

unfoldable pub archive_project : Principal → RowId → ℕ → Action Tables Error Project
archive_project p id now = do
  require_capability p (codes "project.archive")
  x ← checked (project_or_404 p.tenant_id id)
  if is_none x.archived_at
      then bump p archived (record x { archived_at = some now; archived_by = some p.subject })
      else pure x

unfoldable pub restore_project : Principal → RowId → Action Tables Error Project
restore_project p id = do
  require_capability p (codes "project.restore")
  x ← checked (project_or_404 p.tenant_id id)
  if is_none x.archived_at
      then pure x
      else bump p restored (record x { archived_at = none; archived_by = none })
