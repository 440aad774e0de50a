-- ===== src/Auth/LoginLaws.antt =====
-- What a login of src/glip/native_auth.py rests on, and what its failures lead to.
use arquitech_glip_premium_b.Prelude.{
  ℕ, ◌+◌, ◌*◌, ◌≤◌, ◌<◌, ◌≡◌, Bool, true, false, Option, none, some, min, same_text, ◌∷◌, ◌==◌, leb,
  find?, update_where, Result, ok, err, request, Error, http, RowId, Text, strip, seconds, arith,
  Option-cases, inl, inr,
}
use arquitech_glip_premium_b.Prelude.Tables.{find-update_unique, find-holds}
use arquitech_glip_premium_b.Auth.Data.{Membership, Credential, Settings, Db}
use arquitech_glip_premium_b.Auth.Identity.{normalize_email, is_malformed}
use arquitech_glip_premium_b.Auth.Login.{
  is_native, is_credential, is_membership, is_locked, may_login, count_failure, record_auth_event,
  LoginResult, new_session, reject, accept, attempt, authenticate_native,
}

-- The rows behind a login that succeeded, and what it left.
pub record IsLogin (settings : Settings) (verify : Text → Option Credential → Bool)
    (digest : Text → RowId) (tenant email password : Text) (now : ℕ) (token : Text) (db : Db)
    (l : LoginResult) (after : Db) : Type 0 where
  pub credential : Credential
  pub there : find? (is_credential tenant email) db.credentials ≡ some credential
  pub joined :
      find? (is_membership tenant credential.membership_id) db.memberships ≡ some l.membership
  pub unlocked : is_locked now credential ≡ false
  pub password_ok : verify password (some credential) ≡ true
  pub active : (credential.active ≡ true) × (l.membership.active ≡ true)
  pub linked : is_native credential.id l.membership.external_subject ≡ true
  pub same_tenant :
      (same_text credential.tenant_id tenant ≡ true)
      × (same_text l.membership.tenant_id tenant ≡ true)
      × (l.membership.id ≡ credential.membership_id)
  pub opened :
      after.sessions
      ≡ record {
        id = db.next_id;
        tenant_id = tenant;
        credential_id = credential.id;
        membership_id = l.membership.id;
        token_digest = digest token;
        created_at = now;
        last_seen_at = now;
        expires_at = now + settings.session_ttl_seconds * 1000000;
        idle_expires_at =
            min
              (now + settings.session_ttl_seconds * 1000000)
              (now + settings.idle_ttl_seconds * 1000000);
        revoked_at = none;
      }
        ∷ db.sessions
  pub reset :
      after.credentials
      ≡ update_where
          (λ x. x.id == credential.id)
          (λ x. record x { failed_attempts = 0; locked_until = none; last_login_at = some now })
          db.credentials

count_keeps :
    (settings : Settings) (now : ℕ) (tenant email : Text) (c : Credential)
    → is_credential tenant email (count_failure settings now c) ≡ is_credential tenant email c
unfolding count_failure
count_keeps settings now tenant email c = ground arith

module _ (settings : Settings) (verify : Text → Option Credential → Bool)
    (digest : Text → RowId) where
  module _ (raw_tenant raw_email password : Text) (now : ℕ) (token : Text) (db : Db) where
    abbrev tried : Result Error LoginResult × Db
    tried =
        request (authenticate_native settings verify digest raw_tenant raw_email password now token)
          db

    -- A login succeeds only for an active, unlocked credential whose password is right and whose
    -- membership is active, of the same tenant and linked to it; it opens one session, of the
    -- membership and the credential, with the configured ends, and sets the failures of the
    -- credential to none, with no lock and this login as the last.
    pub authenticate_native-IsLogin :
        (l : LoginResult) (after : Db)
        → tried ≡ (ok l, after)
        → IsLogin settings verify digest
            (strip raw_tenant)
            (normalize_email raw_email)
            password
            now
            token
            db
            l
            after
    unfolding authenticate_native attempt reject accept may_login record_auth_event new_session
    authenticate_native-IsLogin l after h =
        let tenant = strip raw_tenant in
        elim (Option-cases
          (find? (is_credential tenant (normalize_email raw_email)) db.credentials)) [
            | inl e ↦ ground (arith, e)
            | inr (c, e) ↦
                elim (Option-cases (find? (is_membership tenant c.membership_id) db.memberships)) [
                  | inl f ↦ ground (arith, e, f)
                  | inr (m, f) ↦
                      let own = find-holds (is_credential tenant (normalize_email raw_email)) _ e in
                      let joint = find-holds (is_membership tenant c.membership_id) _ f in
                      let member : l.membership ≡ m = ground (arith, e, f) in
                      record {
                        credential = c;
                        there = e;
                        joined = ground (arith, e, f);
                        unlocked = ground (arith, e, f);
                        password_ok = ground (arith, e, f);
                        active = ground (arith, e, f);
                        same_tenant = (
                          ground (arith, own),
                          ground (arith, joint, member),
                          ground (arith, joint, member),
                        );
                        linked = ground (arith, e, f);
                        opened = ground (arith, e, f);
                        reset = ground (arith, e, f);
                      }
                ]
          ]

    -- A login that is not let in leaves the credential as `count_failure` does.
    failure_stored :
        (c : Credential)
        → is_malformed settings (strip raw_tenant) (normalize_email raw_email) password ≡ false
        → find? (is_credential (strip raw_tenant) (normalize_email raw_email)) db.credentials
          ≡ some c
        → ((m : Membership) → may_login (verify password (some c)) now c m ≡ false)
        → (tried.0 ≡ err (http 401 "invalid_credentials"))
          × (find?
                (is_credential (strip raw_tenant) (normalize_email raw_email))
                tried.1.credentials
              ≡ some (count_failure settings now c))
    unfolding authenticate_native attempt reject record_auth_event
    failure_stored c formed e refused =
        let tenant = strip raw_tenant in
        let email = normalize_email raw_email in
        let kept =
          find-update_unique (λ x. x.id == c.id) (is_credential tenant email)
            (count_failure settings now) db.credentials (count_keeps settings now tenant email) e in
        elim (Option-cases (find? (is_membership tenant c.membership_id) db.memberships)) [
          | inl f ↦ (ground (arith, formed, e, f), ground (arith, formed, e, f, kept))
          | inr (m, f) ↦
              let denied = refused m in
              (ground (arith, formed, e, f, denied), ground (arith, formed, e, f, denied, kept))
        ]

    -- While a credential is locked, a well-formed login with it is refused, whatever the password,
    -- and leaves the credential as it is: the lock is neither lifted nor extended.
    pub locked_refused :
        (c : Credential)
        → is_malformed settings (strip raw_tenant) (normalize_email raw_email) password ≡ false
        → find? (is_credential (strip raw_tenant) (normalize_email raw_email)) db.credentials
          ≡ some c
        → is_locked now c ≡ true
        → (tried.0 ≡ err (http 401 "invalid_credentials"))
          × (find?
                (is_credential (strip raw_tenant) (normalize_email raw_email))
                tried.1.credentials
              ≡ some c)
    unfolding may_login count_failure
    locked_refused c formed e locked =
        let (answer, kept) = failure_stored c formed e (λ m. ground arith) in (answer, ground arith)

  -- For a credential that is not locked, the wrong password that reaches the limit of failures
  -- locks it: a login with it before the lockout has passed is refused, even with the right
  -- password (both logins being well-formed).
  pub lockout :
      (raw_tenant raw_email wrong password : Text) (now later : ℕ) (token other : Text) (db : Db)
      (c : Credential)
      → is_malformed settings (strip raw_tenant) (normalize_email raw_email) wrong ≡ false
      → is_malformed settings (strip raw_tenant) (normalize_email raw_email) password ≡ false
      → find? (is_credential (strip raw_tenant) (normalize_email raw_email)) db.credentials ≡ some c
      → is_locked now c ≡ false
      → verify wrong (some c) ≡ false
      → settings.max_failed_attempts ≤ c.failed_attempts + 1
      → later < now + seconds settings.lockout_seconds
      → (tried raw_tenant raw_email password later other
          (tried raw_tenant raw_email wrong now token db).1).0
        ≡ err (http 401 "invalid_credentials")
  unfolding may_login count_failure is_locked
  lockout raw_tenant raw_email wrong password now later token other db c formed well e unlocked
        denied last soon =
      let (_, kept) =
        failure_stored raw_tenant raw_email wrong now token db c formed e (λ m. ground arith) in
      let after = (tried raw_tenant raw_email wrong now token db).1 in
      let limit : leb settings.max_failed_attempts (c.failed_attempts + 1) ≡ true = ground arith in
      (locked_refused raw_tenant raw_email password later other after (count_failure settings now c)
        well kept (ground arith)).0
