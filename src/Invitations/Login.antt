-- ===== src/Invitations/Login.antt =====
-- The first login (src/glip/native_auth.py) after an invitation was accepted.
use arquitech_glip_premium_b.Prelude.{
  ℕ, ◌+◌, ◌≡◌, refl, ap, ◌∙◌, true, false, Option, some, ◌==◌, any, find?, ok, request, RowId, Text,
  same_text_refl, strip, arith, seconds,
}
use arquitech_glip_premium_b.Config.{Settings}
use arquitech_glip_premium_b.Auth.Data.{Membership, Credential}
use arquitech_glip_premium_b.Auth.Identity.{normalize_email, is_malformed, verify_password}
use arquitech_glip_premium_b.Auth.Login.{
  is_credential, is_membership, is_locked, authenticate_native, attempt, accept, may_login,
  record_auth_event,
}
use arquitech_glip_premium_b.Invitations.Data.{Invitation, Tables, auth_settings}
use arquitech_glip_premium_b.Invitations.Activate.{new_membership, new_credential, activate}

module _ (sha256 : Text → RowId) (derive : Text → RowId → RowId) (encode : RowId → Text)
    (decode : Text → Option RowId) (digest : Text → RowId) (s : Settings) where
  module _ (row : Invitation) (password : Text) (salt : RowId) (now later : ℕ)
      (session_token : Text) (t : Tables) where
    abbrev member : Membership
    member = new_membership row (t.auth.next_id + 1) t.auth.next_id

    abbrev made : Credential
    made =
        new_credential sha256 derive encode s row t.auth.next_id (t.auth.next_id + 1)
          (encode salt, encode (derive password salt))

    abbrev after : Tables
    after = activate sha256 derive encode s row now (encode salt, encode (derive password salt)) t

    credential_found :
        find? (is_credential row.tenant_id row.email_normalized) after.auth.credentials ≡ some made
    unfolding activate new_credential
    credential_found =
        ground (arith, same_text_refl row.tenant_id, same_text_refl row.email_normalized)

    membership_found :
        find? (is_membership row.tenant_id made.membership_id) after.auth.memberships ≡ some member
    unfolding activate new_credential new_membership
    membership_found = ground (arith, same_text_refl row.tenant_id)

    password_right :
        ((x : RowId) → decode (encode x) ≡ some x)
        → verify_password derive decode password (some made) ≡ true
    unfolding new_credential verify_password
    password_right inverse = ground (arith, inverse salt, inverse (derive password salt))

    may_enter : may_login true later made member ≡ true
    unfolding may_login is_locked new_credential new_membership
    may_enter = ground arith

    sessions_kept : after.auth.sessions ≡ t.auth.sessions
    unfolding activate
    sessions_kept = refl

    attempt_enters :
        any (λ x. x.token_digest == digest session_token) after.auth.sessions ≡ false
        → ((x : RowId) → decode (encode x) ≡ some x)
        → (request
            (attempt
              (auth_settings s)
              (verify_password derive decode)
              digest
              row.tenant_id
              row.email_normalized
              password
              later
              session_token
              (some made))
            after.auth).0
          ≡ ok (record {
            raw_session_token = session_token;
            membership = member;
            expires_at = later + seconds s.auth_session_ttl_seconds;
          })
    unfolding attempt accept record_auth_event
    attempt_enters fresh inverse = cc (membership_found, password_right inverse, may_enter, fresh)

    pub first_login :
        (raw_tenant raw_email : Text)
        → ((x : RowId) → decode (encode x) ≡ some x)
        → strip raw_tenant ≡ row.tenant_id
        → normalize_email raw_email ≡ row.email_normalized
        → is_malformed (auth_settings s) row.tenant_id row.email_normalized password ≡ false
        → any (λ x. x.token_digest == digest session_token) t.auth.sessions ≡ false
        → (request
            (authenticate_native
              (auth_settings s)
              (verify_password derive decode)
              digest
              raw_tenant
              raw_email
              password
              later
              session_token)
            after.auth).0
          ≡ ok (record {
            raw_session_token = session_token;
            membership = member;
            expires_at = later + seconds s.auth_session_ttl_seconds;
          })
    unfolding authenticate_native
    first_login raw_tenant raw_email inverse same_tenant same_email formed fresh =
        let fresh_after =
          ap (any (λ x. x.token_digest == digest session_token)) sessions_kept ∙ fresh in
        cc (same_tenant, same_email, formed, credential_found, attempt_enters fresh_after inverse)
