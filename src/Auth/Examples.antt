-- ===== src/Auth/Examples.antt =====
-- Logins and sessions of src/glip/native_auth.py on small tables, and the theorems at them.
use arquitech_glip_premium_b.Auth.Bounded.{IsBounded, sessions-IsBounded}
use arquitech_glip_premium_b.Prelude.{
  All, ◌+◌, ◌≡◌, refl, ◌≢◌, true, false, Option, none, some, [], ◌∷◌, arith, ok, err, http, request,
  RowId, Text, codes, length, same_text, strip, lstrip, rstrip, lower, find?, Bool,
}
use arquitech_glip_premium_b.Auth.Data.{Membership, Credential, AuthSession, Settings, Db, native}
use arquitech_glip_premium_b.Auth.Identity.{
  normalize_email, count, local_part, domain_part, starts_with_dot, ends_with_dot,
  valid_email_shape, is_malformed, verify_password,
}
use arquitech_glip_premium_b.Auth.Login.{
  is_credential, is_locked, may_login, count_failure, failure_code, record_auth_event, LoginResult,
  new_session, reject, accept, attempt, authenticate_native,
}
use arquitech_glip_premium_b.Auth.Sessions.{
  has_ended, is_identity, touch, end_session, continue, check_identity, authenticate_session,
  revoke_session, revoke_all_credential_sessions,
}
use arquitech_glip_premium_b.Auth.LoginLaws.{IsLogin, authenticate_native-IsLogin, lockout}
use arquitech_glip_premium_b.Auth.SessionLaws.{
  IsAccepted, authenticate_session-IsAccepted, revoke_all_refused,
}

run : Unit {0}
unfolding lstrip rstrip strip lower same_text normalize_email count local_part domain_part
    starts_with_dot ends_with_dot valid_email_shape is_malformed verify_password is_locked may_login
    count_failure failure_code record_auth_event new_session reject accept attempt
    authenticate_native has_ended is_identity touch end_session continue check_identity
    authenticate_session revoke_session revoke_all_credential_sessions
run = tt

-- Stand-ins for the hash, the decoder and the digest.
abbrev derive : Text → RowId → RowId
derive password salt = length password + salt

abbrev decode : Text → Option RowId
decode t = some (length t)

abbrev verify : Text → Option Credential → Bool
verify = verify_password derive decode

abbrev digest : Text → RowId
digest t = length t

abbrev settings : Settings
settings = record {
  password_max_length = 256;
  max_failed_attempts = 3;
  lockout_seconds = 900;
  session_ttl_seconds = 28800;
  idle_ttl_seconds = 1800;
  touch_interval_seconds = 300;
}

abbrev member : Membership
member = record {
  id = 2;
  tenant_id = codes "acme";
  external_subject = native 1;
  role = codes "owner";
  active = true;
}

-- The right password has five characters.
abbrev credential : Credential
credential = record {
  id = 1;
  tenant_id = codes "acme";
  membership_id = 2;
  email_normalized = codes "a@b.co";
  password_salt_b64 = codes "salt";
  password_hash_b64 = codes "123456789";
  active = true;
  failed_attempts = 2;
  locked_until = none;
  last_login_at = none;
}

abbrev tables : Db
tables = record {
  memberships = member ∷ [];
  credentials = credential ∷ [];
  sessions = [];
  events = [];
  next_id = 9;
}

abbrev tenant : Text
tenant = codes " acme "

abbrev email : Text
email = codes " A@b.co"

abbrev entered : Db
entered =
    (request
      (authenticate_native settings verify digest tenant email (codes "right") 10 (codes "token"))
      tables).1

abbrev result : LoginResult
result = record { raw_session_token = codes "token"; membership = member; expires_at = 28800000010 }

login_ok :
    request
      (authenticate_native settings verify digest tenant email (codes "right") 10 (codes "token"))
      tables
    ≡ (ok result, entered)
unfolding run
login_ok = refl

authenticate_native-IsLogin_example :
    IsLogin settings verify digest
      (strip tenant)
      (normalize_email email)
      (codes "right")
      10
      (codes "token")
      tables
      result
      entered
authenticate_native-IsLogin_example =
    authenticate_native-IsLogin settings verify digest tenant email (codes "right") 10
      (codes "token") tables result entered login_ok

abbrev locked : Credential
locked = record credential { failed_attempts = 3; locked_until = some 900000010 }

malformed_not : is_malformed settings (strip tenant) (normalize_email email) (codes "right") ≡ false
unfolding run
malformed_not = refl

wrong_formed : is_malformed settings (strip tenant) (normalize_email email) (codes "wrong!") ≡ false
unfolding run
wrong_formed = refl

found :
    find? (is_credential (strip tenant) (normalize_email email)) tables.credentials
    ≡ some credential
unfolding run
found = refl

locked_found :
    find? (is_credential (strip tenant) (normalize_email email)) (locked ∷ []) ≡ some locked
unfolding run
locked_found = refl

is_locked_now : is_locked 20 locked ≡ true
unfolding run
is_locked_now = refl

not_locked : is_locked 10 credential ≡ false
unfolding run
not_locked = refl

wrong_password : verify (codes "wrong!") (some credential) ≡ false
unfolding run
wrong_password = refl

abbrev locked_tables : Db
locked_tables = record tables { credentials = locked ∷ [] }

lockout_example :
    (request
      (authenticate_native settings verify digest tenant email (codes "right") 20 (codes "other"))
      (request
        (authenticate_native settings verify digest tenant email
          (codes "wrong!")
          10
          (codes "token"))
        tables).1).0
    ≡ err (http 401 "invalid_credentials")
lockout_example =
    lockout settings verify digest tenant email (codes "wrong!") (codes "right") 10 20
      (codes "token") (codes "other") tables credential wrong_formed malformed_not found not_locked
      wrong_password (omega arith) (omega arith)

abbrev session : AuthSession
session = record {
  id = 9;
  tenant_id = codes "acme";
  credential_id = 1;
  membership_id = 2;
  token_digest = 5;
  created_at = 10;
  last_seen_at = 10;
  expires_at = 28800000010;
  idle_expires_at = 1800000010;
  revoked_at = none;
}

session_ok :
    (request (authenticate_session settings digest (codes "token") 20) entered).0
    ≡ ok (member, session)
unfolding run
session_ok = refl

authenticate_session-IsAccepted_example : IsAccepted digest (codes "token") 20 entered member
authenticate_session-IsAccepted_example =
    authenticate_session-IsAccepted settings digest (codes "token") 20 entered member session
      session_ok

-- A session of another credential stays open.
abbrev other_session : AuthSession
other_session = record session { id = 10; credential_id = 7; membership_id = 3; token_digest = 3 }

abbrev other_member : Membership
other_member = record member { id = 3; external_subject = native 7 }

abbrev others : Db
others = record tables {
  sessions = other_session ∷ session ∷ [];
  credentials =
      credential
      ∷ record credential { id = 7; membership_id = 3; email_normalized = codes "c@b.co" }
      ∷ [];
  memberships = member ∷ other_member ∷ [];
}

other_ok :
    (request
      (authenticate_session settings digest (codes "abc") 40)
      (request (revoke_all_credential_sessions 1 30) others).1).0
    ≡ ok (other_member, other_session)
unfolding run
other_ok = refl

revoke_all_refused_example : other_session.credential_id ≢ 1
revoke_all_refused_example =
    revoke_all_refused settings digest 1 (codes "abc") 30 40 others other_member other_session
      other_ok

sessions-IsBounded_example :
    All IsBounded
      (request
        (authenticate_native settings verify digest tenant email
          (codes "right")
          10
          (codes "fresh!"))
        others).1.sessions
    × All IsBounded
        (request (authenticate_session settings digest (codes "abc") 10) others).1.sessions
    × All IsBounded (request (revoke_session settings digest (codes "abc") 10) others).1.sessions
    × All IsBounded (request (revoke_all_credential_sessions 7 10) others).1.sessions
sessions-IsBounded_example =
    sessions-IsBounded settings verify digest tenant email (codes "right") (codes "abc")
      (codes "fresh!") 7 10 others (omega arith, (omega arith, tt))
