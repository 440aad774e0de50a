-- ===== src/Auth/Sessions.antt =====
-- src/glip/native_auth.py: `authenticate_session`, `revoke_session`, `revoke_all_credential_sessions`.
use arquitech_glip_premium_b.Prelude.{
  ℕ, ◌+◌, Bool, ◌&&◌, ◌||◌, none, some, ◌==◌, if◌then◌else◌, leb, find?, update_where, count_where,
  Action, pure, raise, gets, or_raise, raise_if, ◌>>=◌, ◌>>◌, modify, commit, Error, http, RowId,
  Text, same_text, is_empty, is_none, seconds, min,
}
use arquitech_glip_premium_b.Auth.Data.{Membership, Credential, AuthSession, Settings, Db}
use arquitech_glip_premium_b.Auth.Login.{is_native}

-- The row that a token leads to.
abbrev pub is_live : RowId → AuthSession → Bool
is_live d s = s.token_digest == d && is_none s.revoked_at

abbrev pub revoke : ℕ → AuthSession → AuthSession
revoke now s = record s { revoked_at = some now }

unfoldable pub has_ended : ℕ → AuthSession → Bool
has_ended now s = leb s.expires_at now || leb s.idle_expires_at now

-- The test of the two identity rows.
unfoldable pub is_identity : AuthSession → Credential → Membership → Bool
is_identity s c m =
    c.active
    && m.active
    && same_text c.tenant_id s.tenant_id
    && same_text m.tenant_id s.tenant_id
    && is_native c.id m.external_subject

unfoldable pub touch : Settings → ℕ → AuthSession → AuthSession
touch settings now s =
    if leb (s.last_seen_at + seconds settings.touch_interval_seconds) now
    then record s {
      last_seen_at = now;
      idle_expires_at = min s.expires_at (now + seconds settings.idle_ttl_seconds);
    }
    else s

-- A session is revoked for good, and the request is refused.
unfoldable pub end_session : ℕ → AuthSession → Error → Action Db Error (Membership × AuthSession)
end_session now s e = do
  modify (λ db. record db { sessions = update_where (λ x. x.id == s.id) (revoke now) db.sessions })
  commit
  raise e

unfoldable pub continue :
    Settings → ℕ → AuthSession → Membership → Action Db Error (Membership × AuthSession)
continue settings now s m = do
  modify (λ db. record db {
    sessions = update_where (λ x. x.id == s.id) (touch settings now) db.sessions;
  })
  commit
  pure (m, touch settings now s)

module _ (settings : Settings) (digest : Text → RowId) where
  unfoldable pub check_identity : ℕ → AuthSession → Action Db Error (Membership × AuthSession)
  check_identity now s = do
    credential ← gets (λ db. find? (λ c. c.id == s.credential_id) db.credentials)
    membership ← gets (λ db. find? (λ m. m.id == s.membership_id) db.memberships)
    let refused : Action Db Error (Membership × AuthSession) =
        end_session now s (http 401 "invalid_session_identity")
    elim credential [
      | none ↦ refused
      | some c ↦ elim membership [
        | none ↦ refused
        | some m ↦ if is_identity s c m then continue settings now s m else refused
      ]
    ]

  unfoldable pub authenticate_session : Text → ℕ → Action Db Error (Membership × AuthSession)
  authenticate_session raw_token now = do
    raise_if (is_empty raw_token) (http 401 "missing_session")
    found ← gets (λ db. find? (is_live (digest raw_token)) db.sessions)
    session ← or_raise found (http 401 "invalid_session")
    let expired : Action Db Error (Membership × AuthSession) =
        end_session now session (http 401 "expired_session")
    if has_ended now session then expired else check_identity now session

  -- The committed effect of a logout; a token that leads to no live session changes nothing.
  unfoldable pub revoke_session : Text → ℕ → Action Db Error (Unit {0})
  revoke_session raw_token now = do
    found ← gets (λ db. find? (is_live (digest raw_token)) db.sessions)
    elim found [
      | none ↦ pure tt
      | some s ↦
          if is_empty raw_token
          then pure tt
          else modify (λ db. record db {
            sessions = update_where (λ x. x.id == s.id) (revoke now) db.sessions;
          })
            >> commit
    ]

abbrev pub is_open_of : RowId → AuthSession → Bool
is_open_of credential s = s.credential_id == credential && is_none s.revoked_at

unfoldable pub revoke_all_credential_sessions : RowId → ℕ → Action Db Error ℕ
revoke_all_credential_sessions credential now = do
  revoked ← gets (λ db. count_where (is_open_of credential) db.sessions)
  modify
      (λ db. record db { sessions = update_where (is_open_of credential) (revoke now) db.sessions })
  commit
  pure revoked
