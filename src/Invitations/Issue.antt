-- ===== src/Invitations/Issue.antt =====
-- src/glip/admin_routes.py: `create_invitation` and `revoke`. `sha256` is the digest of a text, and
-- `raw_token` what `secrets.token_urlsafe` returns. A request holds the tenant's lock to its end.
use arquitech_glip_premium_b.Prelude.{
  ℕ, ◌+◌, ◌-◌, ◌%◌, Bool, true, false, not, ◌&&◌, Option, none, some, List, ◌∷◌, ◌++◌, ◌==◌,
  if◌then◌else◌, ltb, leb, any, find?, update_where, Action, pure, gets, raise_if, or_raise, ◌>>=◌,
  ◌>>◌, modify, commit, Error, http, RowId, Text, codes, same_text, is_empty, strip, take, seconds,
  is_none,
}
use arquitech_glip_premium_b.Auth.Identity.{normalize_email, valid_email_shape}
use arquitech_glip_premium_b.Auth.Login.{is_credential}
use arquitech_glip_premium_b.Auth.Data.{Principal}
use arquitech_glip_premium_b.Invitations.Data.{
  pending, accepted, revoked, Invitation, Bucket, Actor, subject, EventType, invitation_created,
  invitation_revoked, Tables,
}

-- `owner`
abbrev pub owner : Principal → Action Tables Error (Unit {0})
owner p = raise_if (not (same_text p.role (codes "owner"))) (http 403 "owner_required")

abbrev pub is_invited : Text → Text → Invitation → Bool
is_invited tenant email i = same_text i.tenant_id tenant && same_text i.email_normalized email

unfoldable pub is_accepted : Option Invitation → Bool
is_accepted (some i) = elim i.status [ accepted ↦ true | _ ↦ false ]
is_accepted none = false

unfoldable pub is_pending : Invitation → Bool
is_pending i = elim i.status [ pending ↦ true | _ ↦ false ]

unfoldable pub is_live : ℕ → Invitation → Bool
is_live now i = is_pending i && ltb now i.expires_at

abbrev pub has_live : ℕ → Option Invitation → Bool
has_live now none = false
has_live now (some i) = is_live now i

-- `current.replace(minute=0, second=0, microsecond=0)`
unfoldable pub hour_of : ℕ → ℕ
hour_of current = current - current % seconds 3600

abbrev pub is_bucket : RowId → ℕ → Bucket → Bool
is_bucket key hour b = b.key_digest == key && b.window_started_at == hour

abbrev pub is_full : Option Bucket → Bool
is_full none = false
is_full (some b) = leb 10 b.count

abbrev pub count_one : Bucket → Bucket
count_one b = record b { count = b.count + 1 }

-- The bucket after one more invitation.
unfoldable pub count_issue : RowId → ℕ → Option Bucket → List Bucket → List Bucket
count_issue key hour none buckets =
    record { key_digest = key; window_started_at = hour; count = 1 } ∷ buckets
count_issue key hour (some b) buckets = update_where (is_bucket key hour) count_one buckets

unfoldable pub clean_name : Option Text → Option Text
clean_name none = none
clean_name (some name) =
    let kept = take 200 (strip name) in if is_empty kept then none else some kept

unfoldable pub new_invitation : Principal → Text → Option Text → ℕ → RowId → RowId → Invitation
new_invitation p email display_name current digest new_id = record {
  id = new_id;
  tenant_id = p.tenant_id;
  email_normalized = email;
  display_name = display_name;
  role = codes "member";
  token_digest = digest;
  token_version = 1;
  status = pending;
  expires_at = current + seconds 172800;
  invited_by = p.subject;
  accepted_membership_id = none;
  created_at = current;
  accepted_at = none;
  revoked_at = none;
}

unfoldable pub reissue : Principal → Option Text → ℕ → RowId → Invitation → Invitation
reissue p display_name current digest i = record i {
  token_version = i.token_version + 1;
  token_digest = digest;
  display_name = display_name;
  role = codes "member";
  invited_by = p.subject;
  status = pending;
  expires_at = current + seconds 172800;
  created_at = current;
  accepted_at = none;
  revoked_at = none;
  accepted_membership_id = none;
}

abbrev pub audited : Text → Actor → EventType → RowId → Tables → Tables
audited tenant actor event target t = record t {
  audit =
      record { tenant_id = tenant; actor_id = actor; event_type = event; target_id = target }
      ∷ t.audit;
}

-- What is answered: the row's id and its token.
pub record Issued : Type 0 where
  pub id : RowId
  pub expires_at : ℕ
  pub activation_token : Text

abbrev pub target_of : RowId → Option Invitation → RowId
target_of new_id none = new_id
target_of new_id (some i) = i.id

unfoldable pub write_row :
    Principal → Text → Option Text → ℕ → RowId → Option Invitation → Tables → Tables
write_row p email display_name current digest none t = record t {
  invitations = new_invitation p email display_name current digest t.auth.next_id ∷ t.invitations;
  auth = record t.auth { next_id = t.auth.next_id + 1 };
}
write_row p email display_name current digest (some row) t = record t {
  invitations =
      update_where (λ i. i.id == row.id) (reissue p display_name current digest) t.invitations;
}

-- `uq_user_invitation_token_digest`, when the row is written.
abbrev pub is_other_token : RowId → RowId → Invitation → Bool
is_other_token own digest i = i.token_digest == digest && not (i.id == own)

module _ (sha256 : Text → RowId) where
  unfoldable pub rate_key : Text → RowId
  rate_key tenant = sha256 (codes "glip:invitation-rate:v1:" ++ tenant)

  -- The writes of an issue that passed its checks.
  unfoldable pub issue_rows :
      Principal
      → Text
      → Option Text
      → ℕ
      → Text
      → Option Invitation
      → Option Bucket
      → Tables
      → Tables
  issue_rows p email display_name current raw_token row bucket t =
      record (audited p.tenant_id (subject p.subject) invitation_created
        (target_of t.auth.next_id row)
        (write_row p email display_name current (sha256 raw_token) row t)) {
          buckets = count_issue (rate_key p.tenant_id) (hour_of current) bucket t.buckets;
        }

  unfoldable pub issue :
      Principal
      → Text
      → Option Text
      → ℕ
      → Text
      → Option Invitation
      → Option Bucket
      → Action Tables Error Issued
  issue p email display_name current raw_token row bucket = do
    t ← gets (λ t. t)
    let target = target_of t.auth.next_id row
    modify (issue_rows p email display_name current raw_token row bucket)
    raise_if (any (is_other_token target (sha256 raw_token)) t.invitations)
        (http 409 "invitation_conflict")
    commit
    pure (record {
      id = target;
      expires_at = current + seconds 172800;
      activation_token = raw_token;
    })

  unfoldable pub create_invitation :
      Principal → Text → Option Text → ℕ → Text → Action Tables Error Issued
  create_invitation p raw_email name current raw_token = do
    owner p
    let email = normalize_email raw_email
    raise_if (not (valid_email_shape email)) (http 422 "invalid_email")
    known ← gets (λ t. find? (is_credential p.tenant_id email) t.auth.credentials)
    raise_if (not (is_none known)) (http 409 "user_already_exists")
    row ← gets (λ t. find? (is_invited p.tenant_id email) t.invitations)
    raise_if (is_accepted row) (http 409 "invitation_already_accepted")
    raise_if (has_live current row) (http 409 "invitation_already_pending")
    bucket ← gets (λ t. find? (is_bucket (rate_key p.tenant_id) (hour_of current)) t.buckets)
    raise_if (is_full bucket) (http 429 "invitation_rate_limited")
    issue p email (clean_name name) current raw_token row bucket

unfoldable pub revoke_row : ℕ → Invitation → Invitation
revoke_row now i = record i { status = revoked; revoked_at = some now }

unfoldable pub revoke : Principal → RowId → ℕ → Action Tables Error RowId
revoke p invitation_id now = do
  owner p
  found ←
      gets
        (λ t. find? (λ i. same_text i.tenant_id p.tenant_id && i.id == invitation_id) t.invitations)
  row ← or_raise found (http 404 "invitation_not_found")
  raise_if (not (is_pending row)) (http 409 "invitation_not_pending")
  modify (λ t. audited p.tenant_id (subject p.subject) invitation_revoked row.id (record t {
    invitations = update_where (λ i. i.id == row.id) (revoke_row now) t.invitations;
  }))
  commit
  pure row.id
