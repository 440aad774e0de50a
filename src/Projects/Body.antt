-- ===== src/Projects/Body.antt =====
-- src/glip/routes.py: what `create_project` reads of its body, and the tests before the key is looked for.
use arquitech_glip_premium_b.Prelude.{
  ℕ, Bool, false, not, ◌&&◌, ◌||◌, Option, none, some, [], ◌==◌, if◌then◌else◌, ltb, find?, length,
  Result, ok, Error, http, RowId, Text, codes, same_text, is_empty, strip, truthy, is_none, text_or,
}
use arquitech_glip_premium_b.Prelude.Results.{◌>>◌, refuse_if}
use arquitech_glip_premium_b.Auth.Data.{Principal}
use arquitech_glip_premium_b.Projects.Data.{Client, Tables, Payload, CreateBody}
use arquitech_glip_premium_b.Projects.Authz.{has_capability}

-- `str(value).strip() if value not in (None, "") else None`
unfoldable pub payload_code : Option Text → Option Text
payload_code none = none
payload_code (some t) = if is_empty t then none else some (strip t)

unfoldable pub project_create_payload : CreateBody → Payload
project_create_payload body = record {
  name = strip (text_or body.name []);
  code = payload_code body.code;
  client_id = body.client_id;
  description = body.description;
  address_summary = body.address_summary;
}

abbrev pub is_client : Text → RowId → Client → Bool
is_client tenant id c = c.id == id && same_text c.tenant_id tenant

abbrev pub client_missing : Text → Option RowId → Tables → Bool
client_missing tenant none t = false
client_missing tenant (some id) t = truthy id && is_none (find? (is_client tenant id) t.clients)

abbrev pub longer : ℕ → Option Text → Bool
longer n none = false
longer n (some t) = ltb n (length t)

-- The key and the payload of a body that passes its tests.
unfoldable pub check_create : Principal → CreateBody → Text → Tables → Result Error (Text × Payload)
check_create p body raw_key t = do
  refuse_if (not (has_capability p.role (codes "project.create"))) (http 403 "capability_required")
  let key = strip raw_key
  refuse_if (is_empty key || ltb 200 (length key)) (http 422 "idempotency_key_invalid")
  let payload = project_create_payload body
  refuse_if (is_empty payload.name) (http 422 "name_required")
  refuse_if (ltb 240 (length payload.name)) (http 422 "name_too_long")
  refuse_if (longer 80 payload.code) (http 422 "code_too_long")
  refuse_if (client_missing p.tenant_id payload.client_id t) (http 400 "client_not_found")
  ok (key, payload)
