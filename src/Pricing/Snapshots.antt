-- ===== src/Pricing/Snapshots.antt =====
-- src/glip/pricing/service.py: `create_price_snapshot` and `approve_price_snapshot`. An operation takes
-- the tables and returns them changed, or raises: it never commits, and the routes of
-- src/glip/pricing/routes.py roll back what a raising operation wrote.
use arquitech_glip_premium_b.Prelude.{
  ℕ, ◌+◌, Bool, true, false, not, ◌&&◌, ◌||◌, Option, none, some, List, [], ◌∷◌, ◌++◌, leb, ◌==◌,
  length, take, any, all, find?, update_where, Result, ok, err, Error, failure, integrity, RowId,
  Text, codes, same_text, one_of, is_empty, strip, lower, upper, text_or, pos, negsuc, IntField,
  absent, not_int, int,
}
use arquitech_glip_premium_b.Prelude.Results.{◌>>=◌, ◌>>◌, refuse_if, or_refuse}
use arquitech_glip_premium_b.Pricing.Data.{
  valid, human_review_required, unverified, human_approved, Snapshot, Item, Db,
}
use arquitech_glip_premium_b.Pricing.Sources.{registry_get, validate_roles, valid_source_statuses}
use arquitech_glip_premium_b.Pricing.Gate.{
  require_financial_approver, server_verified_source_keys, manual_approvable_source_keys,
}

-- `retrieved_at` of a body: missing, a text that is no date, or a time.
pub data TimeField : Type 0 where
  no_time not_time : TimeField
  at : ℕ → TimeField

pub record ItemBody : Type 0 where
  pub role : Option Text
  pub source_code : Option Text
  pub description : Option Text
  pub unit : Option Text
  pub unit_price_cents : IntField
  pub currency : Option Text
  pub evidence : Option RowId

-- `geography` is `none` where the body has no object, or an empty one.
pub record SnapshotBody : Type 0 where
  pub source_key : Option Text
  pub roles : List Text
  pub validity_status : Option Text
  pub competency : Option Text
  pub source_ref : Option Text
  pub evidence_sha256 : Option Text
  pub geography : Option RowId
  pub metadata : Option RowId
  pub publisher : Option Text
  pub retrieved_at : TimeField
  pub items : List ItemBody

unfoldable pub is_sha256_hex : Text → Bool
is_sha256_hex t =
    length t == 64 && all (λ c. (leb b'0' c && leb c b'9') || (leb b'a' c && leb c b'f')) t

-- `_parse_dt(value) or now`
unfoldable pub parse_dt : TimeField → ℕ → Result Error ℕ
parse_dt no_time now = ok now
parse_dt not_time now = err (failure "PRICE_SOURCE_RETRIEVED_AT_INVALID")
parse_dt (at t) now = ok t

-- The snapshot that the checks of a body lead to.
unfoldable pub prepare_snapshot : RowId → RowId → SnapshotBody → ℕ → RowId → Result Error Snapshot
prepare_snapshot tenant actor body now new_id = do
  let source_key = lower (strip (text_or body.source_key []))
  adapter ← registry_get source_key
  roles ← validate_roles adapter body.roles
  refuse_if (same_text source_key (codes "glip_historical")) (failure "PRICE_SOURCE_INTERNAL_ONLY")
  let requested = lower (strip (text_or body.validity_status (codes "human_review_required")))
  refuse_if (not (one_of requested valid_source_statuses)) (failure "PRICE_SOURCE_STATUS_INVALID")
  let competency = strip (text_or body.competency [])
  let source_ref = strip (text_or body.source_ref [])
  let evidence = lower (strip (text_or body.evidence_sha256 []))
  refuse_if (is_empty competency) (failure "PRICE_SOURCE_COMPETENCY_REQUIRED")
  refuse_if (is_empty source_ref) (failure "PRICE_SOURCE_REF_REQUIRED")
  refuse_if (not (is_sha256_hex evidence)) (failure "PRICE_SOURCE_EVIDENCE_SHA256_INVALID")
  geography ← or_refuse body.geography (failure "PRICE_SOURCE_GEOGRAPHY_REQUIRED")
  retrieved_at ← parse_dt body.retrieved_at now
  ok (record {
    id = new_id;
    tenant_id = tenant;
    source_key = source_key;
    provider = adapter.provider;
    publisher = take 200 (strip (text_or body.publisher adapter.publisher));
    roles = roles;
    geography = geography;
    competency = take 32 competency;
    source_ref = take 1000 source_ref;
    evidence_sha256 = evidence;
    retrieved_at = retrieved_at;
    validity_status = human_review_required;
    authority_status = unverified;
    authority_method = codes "client_submission";
    authority_by = none;
    authority_at = none;
    metadata = record {
      extra = body.metadata;
      submission_trust = codes "caller_unverified";
      requested_validity_status = requested;
      evidence_hash_trust = codes "caller_claimed";
      monetary_authority = false;
      authority_transition = none;
    };
    billing_scope = codes "glip";
    created_by = actor;
  })

unfoldable pub item_cents : IntField → Result Error (Option ℕ)
item_cents absent = ok none
item_cents not_int = err (failure "PRICE_ITEM_PRICE_INVALID")
item_cents (int (pos n)) = ok (some n)
item_cents (int (negsuc n)) = err (failure "PRICE_ITEM_PRICE_INVALID")

unfoldable pub prepare_item : Snapshot → ItemBody → RowId → Result Error Item
prepare_item s raw new_id = do
  let role = upper (strip (text_or raw.role []))
  refuse_if (not (one_of role s.roles)) (failure "PRICE_ITEM_ROLE_NOT_IN_SNAPSHOT")
  let code = strip (text_or raw.source_code [])
  let description = strip (text_or raw.description [])
  let unit = strip (text_or raw.unit [])
  refuse_if (is_empty code || is_empty description || is_empty unit)
      (failure "PRICE_ITEM_CODE_DESCRIPTION_UNIT_REQUIRED")
  cents ← item_cents raw.unit_price_cents
  ok (record {
    id = new_id;
    tenant_id = s.tenant_id;
    snapshot_id = s.id;
    source_code = take 160 code;
    description = description;
    unit = take 32 unit;
    role = role;
    currency = take 8 (upper (text_or raw.currency (codes "BRL")));
    unit_price_cents = cents;
    evidence = raw.evidence;
    manually_approved = false;
  })

-- The loop over `body["items"]`.
unfoldable pub prepare_items : Snapshot → List ItemBody → RowId → Result Error (List Item)
prepare_items s [] new_id = ok []
prepare_items s (raw ∷ rest) new_id = do
  let items = prepare_items s rest (new_id + 1)
  item ← prepare_item s raw new_id
  others ← items
  ok (item ∷ others)

-- `uq_price_snapshot_evidence`
unfoldable pub same_evidence : Snapshot → Snapshot → Bool
same_evidence s r =
    r.tenant_id == s.tenant_id
    && same_text r.source_key s.source_key
    && same_text r.evidence_sha256 s.evidence_sha256

-- `uq_price_item_snapshot_code_unit_role`, among the items of one snapshot.
unfoldable pub same_item : Item → Item → Bool
same_item i j =
    same_text i.source_code j.source_code && same_text i.unit j.unit && same_text i.role j.role

unfoldable pub has_duplicate : List Item → Bool
has_duplicate [] = false
has_duplicate (i ∷ rest) = any (same_item i) rest || has_duplicate rest

unfoldable pub create_price_snapshot :
    RowId → RowId → SnapshotBody → ℕ → Db → Result Error (Snapshot × Db)
create_price_snapshot tenant actor body now db = do
  snapshot ← prepare_snapshot tenant actor body now db.next_id
  refuse_if (any (same_evidence snapshot) db.snapshots) integrity
  items ← prepare_items snapshot body.items (db.next_id + 1)
  refuse_if (has_duplicate items) integrity
  ok (
    snapshot,
    record db {
      snapshots = snapshot ∷ db.snapshots;
      items = items ++ db.items;
      next_id = db.next_id + 1 + length items;
    },
  )

abbrev pub is_snapshot : RowId → RowId → Snapshot → Bool
is_snapshot tenant i s = s.id == i && s.tenant_id == tenant

abbrev pub is_item_of : RowId → RowId → Item → Bool
is_item_of tenant snapshot i = i.snapshot_id == snapshot && i.tenant_id == tenant

-- What the approval writes on the snapshot.
unfoldable pub grant_authority : RowId → ℕ → Snapshot → Snapshot
grant_authority actor now s = record s {
  validity_status = valid;
  authority_status = human_approved;
  authority_method = codes "tenant_owner_approval";
  authority_by = some actor;
  authority_at = some now;
  metadata = record {
    extra = s.metadata.extra;
    submission_trust = s.metadata.submission_trust;
    requested_validity_status = s.metadata.requested_validity_status;
    evidence_hash_trust = s.metadata.evidence_hash_trust;
    monetary_authority = true;
    authority_transition = some (codes "explicit_human_approval");
  };
}

abbrev pub approve_item : Item → Item
approve_item i = record i { manually_approved = true }

unfoldable pub approve_price_snapshot :
    RowId → RowId → Text → RowId → ℕ → Db → Result Error (Snapshot × Db)
approve_price_snapshot tenant actor actor_role snapshot_id now db = do
  require_financial_approver actor_role
  snapshot ←
      or_refuse
        (find? (λ s. is_snapshot tenant snapshot_id s && same_text s.billing_scope (codes "glip"))
          db.snapshots)
        (failure "PRICE_SOURCE_SNAPSHOT_NOT_FOUND")
  refuse_if (one_of snapshot.source_key server_verified_source_keys)
      (failure "PRICE_SOURCE_SERVER_VERIFICATION_REQUIRED")
  refuse_if (not (one_of snapshot.source_key manual_approvable_source_keys))
      (failure "PRICE_SOURCE_MANUAL_APPROVAL_NOT_ALLOWED")
  refuse_if (not (any (is_item_of tenant snapshot.id) db.items))
      (failure "PRICE_SOURCE_ITEMS_REQUIRED")
  ok (
    grant_authority actor now snapshot,
    record db {
      snapshots = update_where (λ s. s.id == snapshot.id) (grant_authority actor now) db.snapshots;
      items = update_where (is_item_of tenant snapshot.id) approve_item db.items;
    },
  )
