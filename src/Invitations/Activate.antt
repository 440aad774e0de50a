-- ===== src/Invitations/Activate.antt =====
-- src/glip/invitation_routes.py: `accept_invitation`; src/glip/native_auth.py: `new_password_record`.
-- The derivation of a hash and the encoder of base64 are parameters, and `salt` is what
-- `secrets.token_bytes` returns.
use arquitech_glip_premium_b.Prelude.{
  any, ◌&&◌, ℕ, ◌+◌, Bool, true, false, not, ◌||◌, none, some, ◌∷◌, ◌==◌, if◌then◌else◌, ltb, find?,
  update_where, length, Result, ok, err, Action, pure, raise, gets, raise_if, or_raise, ◌>>=◌, ◌>>◌,
  modify, commit, Error, http, RowId, Text, codes, same_text, String,
}
use arquitech_glip_premium_b.Config.{Settings}
use arquitech_glip_premium_b.Auth.Data.{Membership, Credential, native}
use arquitech_glip_premium_b.Auth.Login.{is_native, is_credential}
use arquitech_glip_premium_b.Invitations.Data.{
  Invitation, accepted, invite, invitation_accepted, Tables,
}
use arquitech_glip_premium_b.Invitations.Issue.{has_live, audited}

unfoldable pub validate_password_policy : Settings → Text → Result String (Unit {0})
validate_password_policy s password =
    if ltb (length password) s.auth_password_min_length
    then err "password_too_short"
    else if ltb s.auth_password_max_length (length password)
    then err "password_too_long"
    else ok tt

unfoldable pub accept_row : RowId → ℕ → Invitation → Invitation
accept_row membership_id now i = record i {
  status = accepted;
  accepted_membership_id = some membership_id;
  accepted_at = some now;
}

abbrev pub has_token : RowId → Invitation → Bool
has_token digest i = i.token_digest == digest

unfoldable pub new_membership : Invitation → RowId → RowId → Membership
new_membership row membership_id credential_id = record {
  id = membership_id;
  tenant_id = row.tenant_id;
  external_subject = native credential_id;
  role = codes "member";
  active = true;
}

-- The unique keys that the commit of the two new rows may break: their ids, the membership's subject,
-- and the credential's address and membership.
unfoldable pub account_conflict : Invitation → Tables → Bool
account_conflict row t =
    any
      (λ m.
        m.id == t.auth.next_id + 1
        || (same_text m.tenant_id row.tenant_id && is_native t.auth.next_id m.external_subject))
      t.auth.memberships
    || any
        (λ c.
          c.id == t.auth.next_id
          || c.membership_id == t.auth.next_id + 1
          || is_credential row.tenant_id row.email_normalized c)
        t.auth.credentials

module _ (sha256 : Text → RowId) (derive_password_hash : Text → RowId → RowId)
    (encode : RowId → Text) (s : Settings) where
  unfoldable pub new_password_record : Text → RowId → Result String (Text × Text)
  new_password_record password salt = elim (validate_password_policy s password) [
    | err code ↦ err code
    | ok passed ↦ ok (encode salt, encode (derive_password_hash password salt))
  ]

  unfoldable pub new_credential : Invitation → RowId → RowId → Text × Text → Credential
  new_credential row credential_id membership_id (salt_b64, hash_b64) = record {
    id = credential_id;
    tenant_id = row.tenant_id;
    membership_id = membership_id;
    email_normalized = row.email_normalized;
    password_salt_b64 = salt_b64;
    password_hash_b64 = hash_b64;
    active = true;
    failed_attempts = 0;
    locked_until = none;
    last_login_at = none;
  }

  -- The rows of an accepted invitation: the new ids are the next two.
  unfoldable pub activate : Invitation → ℕ → Text × Text → Tables → Tables
  activate row now hashed t =
      let credential_id = t.auth.next_id in
      let membership_id = t.auth.next_id + 1 in
      audited row.tenant_id (invite row.id) invitation_accepted membership_id (record t {
        auth = record t.auth {
          memberships = new_membership row membership_id credential_id ∷ t.auth.memberships;
          credentials = new_credential row credential_id membership_id hashed ∷ t.auth.credentials;
          next_id = t.auth.next_id + 2;
        };
        invitations =
            update_where (λ i. i.id == row.id) (accept_row membership_id now) t.invitations;
      })

  unfoldable pub accept_found : Invitation → Text → RowId → ℕ → Action Tables Error Text
  accept_found row password salt now = do
    raise_if (not (same_text row.role (codes "member"))) (http 409 "invitation_role_unsupported")
    known ← gets (λ t. find? (is_credential row.tenant_id row.email_normalized) t.auth.credentials)
    raise_if (elim known [ none ↦ false | some _ ↦ true ]) (http 409 "account_already_exists")
    elim (new_password_record password salt) [
      | err code ↦ raise (http 422 code)
      | ok hashed ↦ do
        conflict ← gets (account_conflict row)
        raise_if conflict (http 409 "invitation_conflict")
        modify (activate row now hashed)
        commit
        pure row.tenant_id
    ]

  unfoldable pub accept_invitation : Text → Text → RowId → ℕ → Action Tables Error Text
  accept_invitation token password salt now = do
    raise_if (ltb (length token) 32 || ltb 256 (length token)) (http 404 "invitation_unavailable")
    found ← gets (λ t. find? (has_token (sha256 token)) t.invitations)
    raise_if (not (has_live now found)) (http 404 "invitation_unavailable")
    row ← or_raise found (http 404 "invitation_unavailable")
    accept_found row password salt now
