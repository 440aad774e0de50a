-- ===== src/Projects/Edit.antt =====
-- src/glip/routes.py: the fields of `update_project`. An edit is the row with the fields that were
-- changed so far; it is lost when a later field is refused.
use arquitech_glip_premium_b.Prelude.{
  Bool, true, false, not, ◌&&◌, Option, none, some, List, [], ◌∷◌, ◌++◌, ◌==◌, if◌then◌else◌, ltb,
  any, find?, select_where, length, Result, ok, err, Error, http, RowId, Text, same_text, is_empty,
  strip, truthy, is_none, text_or,
}
use arquitech_glip_premium_b.Prelude.Results.{◌>>=◌, ◌>>◌, refuse_if}
use arquitech_glip_premium_b.Projects.Data.{
  Project, Field, name, code, client_id, description, address_summary, status, Tables, Patch,
}
use arquitech_glip_premium_b.Projects.Body.{client_missing, longer}
use arquitech_glip_premium_b.Projects.Create.{is_project, same_code}

-- `project_or_404`
unfoldable pub project_or_404 : Text → RowId → Tables → Result Error Project
project_or_404 tenant id t = elim (find? (is_project tenant id) t.projects) [
  | none ↦ err (http 404 "project_not_found")
  | some x ↦ ok x
]

abbrev pub Edit : Type 0
Edit = Project × List Field

abbrev pub same_option : Option Text → Option Text → Bool
same_option none none = true
same_option (some a) (some b) = same_text a b
same_option _ _ = false

abbrev pub same_id : Option RowId → Option RowId → Bool
same_id none none = true
same_id (some a) (some b) = a == b
same_id _ _ = false

-- `value or None`
abbrev pub or_none : Text → Option Text
or_none t = if is_empty t then none else some t

abbrev pub id_or_none : Option RowId → Option RowId
id_or_none none = none
id_or_none (some id) = if truthy id then some id else none

unfoldable pub edit_name : Option (Option Text) → Edit → Result Error Edit
edit_name none e = ok e
edit_name (some value) (x, changed) =
    let new = strip (text_or value []) in
    if is_empty new
    then err (http 422 "name_required")
    else if ltb 240 (length new)
    then err (http 422 "name_too_long")
    else ok (
        if same_text x.name new
        then (x, changed)
        else (record x { name = new }, changed ++ (name ∷ [])))

abbrev pub code_taken : Tables → Project → Option Text → Bool
code_taken t x none = false
code_taken t x (some new) =
    any (λ y. same_text y.tenant_id x.tenant_id && same_code new y.code && not (y.id == x.id))
      t.projects

unfoldable pub edit_code : Tables → Option (Option Text) → Edit → Result Error Edit
edit_code t none e = ok e
edit_code t (some value) (x, changed) =
    let new = or_none (strip (text_or value [])) in
    if longer 80 new
    then err (http 422 "code_too_long")
    else if code_taken t x new
    then err (http 409 "project_code_conflict")
    else ok (
        if same_option x.code new
        then (x, changed)
        else (record x { code = new }, changed ++ (code ∷ [])))

unfoldable pub edit_client : Tables → Option (Option RowId) → Edit → Result Error Edit
edit_client t none e = ok e
edit_client t (some value) (x, changed) =
    let new = id_or_none value in
    if client_missing x.tenant_id new t
    then err (http 400 "client_not_found")
    else ok (
        if same_id x.client_id new
        then (x, changed)
        else (record x { client_id = new }, changed ++ (client_id ∷ [])))

unfoldable pub edit_description : Option (Option Text) → Edit → Result Error Edit
edit_description none e = ok e
edit_description (some new) (x, changed) = ok (
    if same_option x.description new
    then (x, changed)
    else (record x { description = new }, changed ++ (description ∷ [])))

unfoldable pub edit_address : Option (Option Text) → Edit → Result Error Edit
edit_address none e = ok e
edit_address (some new) (x, changed) = ok (
    if same_option x.address_summary new
    then (x, changed)
    else (record x { address_summary = new }, changed ++ (address_summary ∷ [])))

unfoldable pub edit_status : Option (Option Text) → Edit → Result Error Edit
edit_status none e = ok e
edit_status (some value) (x, changed) =
    let new = strip (text_or value []) in
    if is_empty new
    then err (http 422 "status_required")
    else if ltb 32 (length new)
    then err (http 422 "status_too_long")
    else ok (
        if same_text x.status new
        then (x, changed)
        else (record x { status = new }, changed ++ (status ∷ [])))

abbrev pub patch_empty : Patch → Bool
patch_empty body =
    is_none body.name
    && is_none body.code
    && is_none body.client_id
    && is_none body.description
    && is_none body.address_summary
    && is_none body.status

-- The fields in the body's order of tests.
unfoldable pub edited : Tables → Patch → Project → Result Error Edit
edited t body x = do
  refuse_if body.has_unknown (http 422 "unsupported_project_fields")
  refuse_if (patch_empty body) (http 422 "project_patch_empty")
  named ← edit_name body.name (x, [])
  coded ← edit_code t body.code named
  of_client ← edit_client t body.client_id coded
  described ← edit_description body.description of_client
  addressed ← edit_address body.address_summary described
  edit_status body.status addressed

-- `sorted(changed)`: no field is there twice.
abbrev pub same_field : Field → Field → Bool
same_field name name = true
same_field code code = true
same_field client_id client_id = true
same_field description description = true
same_field address_summary address_summary = true
same_field status status = true
same_field _ _ = false

unfoldable pub sorted_fields : List Field → List Field
sorted_fields changed =
    select_where (λ f. any (same_field f) changed)
      (address_summary ∷ client_id ∷ code ∷ description ∷ name ∷ status ∷ [])
