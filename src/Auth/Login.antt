-- ===== src/Auth/Login.antt =====
-- src/glip/native_auth.py: `authenticate_native`. `verify` is `verify_password`, `digest` is
-- `session_digest`, and `token` is what `secrets.token_urlsafe` returns.
use arquitech_glip_premium_b.Prelude.{
  ℕ, ◌+◌, Bool, true, false, not, ◌&&◌, Option, none, some, ◌∷◌, ◌==◌, if◌then◌else◌, ltb, leb, any,
  find?, update_where, Action, pure, raise, gets, raise_if, ◌>>=◌, ◌>>◌, modify, commit, Error,
  http, integrity, RowId, Text, same_text, strip, seconds, min,
}
use arquitech_glip_premium_b.Auth.Data.{
  Subject, native, external, Membership, Credential, AuthSession, EventCode, login_success,
  login_rejected, login_locked, login_rejected_locked, Settings, Db,
}
use arquitech_glip_premium_b.Auth.Identity.{normalize_email, is_malformed}

-- `membership.external_subject == f"native:{credential.id}"`
abbrev pub is_native : RowId → Subject → Bool
is_native i (native j) = j == i
is_native i (external t) = false

abbrev pub is_credential : Text → Text → Credential → Bool
is_credential tenant email c = same_text c.tenant_id tenant && same_text c.email_normalized email

abbrev pub is_membership : Text → RowId → Membership → Bool
is_membership tenant i m = m.id == i && same_text m.tenant_id tenant

unfoldable pub is_locked : ℕ → Credential → Bool
is_locked now c = elim c.locked_until [ none ↦ false | some t ↦ ltb now t ]

-- `valid`, of a credential and its membership that were found.
unfoldable pub may_login : Bool → ℕ → Credential → Membership → Bool
may_login password_ok now c m =
    not (is_locked now c)
    && password_ok
    && c.active
    && m.active
    && is_native c.id m.external_subject

-- What a rejected login writes on the credential.
unfoldable pub count_failure : Settings → ℕ → Credential → Credential
count_failure settings now c =
    if is_locked now c
    then c
    else if leb settings.max_failed_attempts (c.failed_attempts + 1)
    then record c {
      failed_attempts = c.failed_attempts + 1;
      locked_until = some (now + seconds settings.lockout_seconds);
    }
    else record c { failed_attempts = c.failed_attempts + 1 }

unfoldable pub failure_code : Settings → ℕ → Credential → EventCode
failure_code settings now c =
    if is_locked now c
    then login_rejected_locked
    else if leb settings.max_failed_attempts (c.failed_attempts + 1)
    then login_locked
    else login_rejected

abbrev pub reset_failures : ℕ → Credential → Credential
reset_failures now c = record c {
  failed_attempts = 0;
  locked_until = none;
  last_login_at = some now;
}

unfoldable pub record_auth_event : Text → Text → EventCode → Bool → Action Db Error (Unit {0})
record_auth_event tenant email code success = modify (λ db. record db {
  events =
      record { tenant_id = tenant; email_normalized = email; event_code = code; success = success }
      ∷ db.events;
})

pub record LoginResult : Type 0 where
  pub raw_session_token : Text
  pub membership : Membership
  pub expires_at : ℕ

unfoldable pub new_session :
    Settings → (Text → RowId) → Text → Credential → Membership → ℕ → Text → RowId → AuthSession
new_session settings digest tenant c m now token new_id = record {
  id = new_id;
  tenant_id = tenant;
  credential_id = c.id;
  membership_id = m.id;
  token_digest = digest token;
  created_at = now;
  last_seen_at = now;
  expires_at = now + seconds settings.session_ttl_seconds;
  idle_expires_at =
      min (now + seconds settings.session_ttl_seconds) (now + seconds settings.idle_ttl_seconds);
  revoked_at = none;
}

module _ (settings : Settings) (verify : Text → Option Credential → Bool)
    (digest : Text → RowId) where
  -- A rejection commits what it counted, and answers every cause alike.
  unfoldable pub reject : Text → Text → ℕ → Option Credential → Action Db Error LoginResult
  reject tenant email now none = do
    record_auth_event tenant email login_rejected false
    commit
    raise (http 401 "invalid_credentials")
  reject tenant email now (some c) = do
    modify (λ db. record db {
      credentials = update_where (λ x. x.id == c.id) (count_failure settings now) db.credentials;
    })
    record_auth_event tenant email (failure_code settings now c) false
    commit
    raise (http 401 "invalid_credentials")

  unfoldable pub accept :
      Text → Text → ℕ → Text → Credential → Membership → Action Db Error LoginResult
  accept tenant email now token c m = do
    db ← gets (λ db. db)
    raise_if (any (λ s. s.token_digest == digest token) db.sessions) integrity
    modify (λ db. record db {
      credentials = update_where (λ x. x.id == c.id) (reset_failures now) db.credentials;
      sessions = new_session settings digest tenant c m now token db.next_id ∷ db.sessions;
      next_id = db.next_id + 1;
    })
    record_auth_event tenant email login_success true
    commit
    pure (record {
      raw_session_token = token;
      membership = m;
      expires_at = now + seconds settings.session_ttl_seconds;
    })

  -- The rows of a login attempt, once its credential was looked for.
  unfoldable pub attempt :
      Text → Text → Text → ℕ → Text → Option Credential → Action Db Error LoginResult
  attempt tenant email password now token none = reject tenant email now none
  attempt tenant email password now token (some c) = do
    found ← gets (λ db. find? (is_membership tenant c.membership_id) db.memberships)
    elim found [
      | none ↦ reject tenant email now (some c)
      | some m ↦
          if may_login (verify password (some c)) now c m
          then accept tenant email now token c m
          else reject tenant email now (some c)
    ]

  unfoldable pub authenticate_native : Text → Text → Text → ℕ → Text → Action Db Error LoginResult
  authenticate_native raw_tenant raw_email password now token = do
    let tenant = strip raw_tenant
    let email = normalize_email raw_email
    raise_if (is_malformed settings tenant email password) (http 401 "invalid_credentials")
    credential ← gets (λ db. find? (is_credential tenant email) db.credentials)
    attempt tenant email password now token credential
