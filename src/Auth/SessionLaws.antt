-- ===== src/Auth/SessionLaws.antt =====
-- What a session of src/glip/native_auth.py that is accepted rests on, and how it ends.
use arquitech_glip_premium_b.Prelude.{
  ℕ, ◌≤◌, ◌<◌, ◌≡◌, refl, ◌≢◌, Bool, true, false, none, some, List, [], ◌∷◌, ◌==◌, find?,
  update_where, count_where, Result, ok, err, request, Error, http, RowId, Text, same_text-eq,
  is_empty, arith, All, Bool-cases, Option-cases, inl, inr,
}
use mathlib.Core.Path.{subst, sym}
use arquitech_glip_premium_b.Prelude.Tables.{find-holds, All-find}
use arquitech_glip_premium_b.Auth.Data.{Membership, Credential, AuthSession, Settings, Db}
use arquitech_glip_premium_b.Auth.Login.{is_native}
use arquitech_glip_premium_b.Auth.Sessions.{
  is_live, revoke, has_ended, is_identity, touch, end_session, continue, check_identity,
  authenticate_session, revoke_session, is_open_of, revoke_all_credential_sessions,
}

-- The rows behind a session that was accepted.
pub record IsAccepted (digest : Text → RowId) (raw : Text) (now : ℕ) (db : Db) (m : Membership)
    : Type 0 where
  pub session : AuthSession
  pub credential : Credential
  pub there : find? (is_live (digest raw)) db.sessions ≡ some session
  pub lasts : now < session.expires_at
  pub not_idle : now < session.idle_expires_at
  pub owned : find? (λ c. c.id == session.credential_id) db.credentials ≡ some credential
  pub joined : find? (λ x. x.id == session.membership_id) db.memberships ≡ some m
  pub credential_active : credential.active ≡ true
  pub membership_active : m.active ≡ true
  pub one_tenant : credential.tenant_id ≡ m.tenant_id
  pub linked : is_native credential.id m.external_subject ≡ true

module _ (settings : Settings) (digest : Text → RowId) (raw : Text) (now : ℕ) (db : Db) where
  abbrev entered : Result Error (Membership × AuthSession) × Db
  entered = request (authenticate_session settings digest raw now) db

  session_rows :
      (m : Membership) (s : AuthSession)
      → entered.0 ≡ ok (m, s)
      → (old : AuthSession) × (c : Credential) × (find? (is_live (digest raw)) db.sessions
          ≡ some old)
        × (find? (λ c. c.id == old.credential_id) db.credentials ≡ some c)
        × (find? (λ x. x.id == old.membership_id) db.memberships ≡ some m)
        × (has_ended now old ≡ false)
        × (is_identity old c m ≡ true)
        × (s ≡ touch settings now old)
  unfolding authenticate_session check_identity end_session continue
  session_rows m s h = elim (Option-cases (find? (is_live (digest raw)) db.sessions)) [
    | inl e ↦ ground (arith, e)
    | inr (old, e) ↦ elim (Option-cases (find? (λ c. c.id == old.credential_id) db.credentials)) [
      | inl f ↦ ground (arith, e, f)
      | inr (c, f) ↦ elim (Option-cases (find? (λ x. x.id == old.membership_id) db.memberships)) [
        | inl g ↦ ground (arith, e, f, g)
        | inr (n, g) ↦
            let same : n ≡ m = ground (arith, e, f, g) in
            let ends : has_ended now old ≡ false = ground (arith, e, f, g) in
            let right : is_identity old c n ≡ true = ground (arith, e, f, g) in
            (
              old,
              c,
              e,
              f,
              subst (λ x. find? (λ y. y.id == old.membership_id) db.memberships ≡ some x) same g,
              ends,
              subst (λ x. is_identity old c x ≡ true) same right,
              ground (arith, e, f, g),
            )
      ]
    ]
  ]

  -- A request is let in only by an unrevoked session before both its ends, whose credential and
  -- membership are active, of one tenant, and linked to each other.
  pub authenticate_session-IsAccepted :
      (m : Membership) (s : AuthSession) → entered.0 ≡ ok (m, s) → IsAccepted digest raw now db m
  unfolding has_ended is_identity
  authenticate_session-IsAccepted m s h =
      let (old, c, e, f, g, ends, right, _) = session_rows m s h in
      let mine : c.tenant_id ≡ old.tenant_id = same_text-eq _ _ (ground arith) in
      let theirs : m.tenant_id ≡ old.tenant_id = same_text-eq _ _ (ground arith) in
      record {
        session = old;
        credential = c;
        there = e;
        lasts = ground arith;
        not_idle = ground arith;
        owned = f;
        joined = g;
        credential_active = ground arith;
        membership_active = ground arith;
        one_tenant = ground arith;
        linked = ground arith;
      }

-- A revocation makes no row live.
still_none :
    (d : RowId) (now : ℕ) (p : AuthSession → Bool) (rows : List AuthSession)
    → find? (is_live d) rows ≡ none
    → find? (is_live d) (update_where p (revoke now) rows) ≡ none
still_none d now p [] h = refl
still_none d now p (r ∷ rows) h = elim (Bool-cases (p r)) [
  | inl e ↦ ground (arith, e, still_none d now p rows)
  | inr e ↦ ground (arith, e, still_none d now p rows)
]

none_of_digest :
    (d : RowId) (rows : List AuthSession)
    → count_where (λ s. s.token_digest == d) rows ≡ 0
    → find? (is_live d) rows ≡ none
none_of_digest d [] h = refl
none_of_digest d (r ∷ rows) h = ground (arith, none_of_digest d rows)

-- A live row that was revoked leaves no live row under its digest.
revoked_gone :
    (d : RowId) (now : ℕ) (rows : List AuthSession) {s : AuthSession}
    → count_where (λ s. s.token_digest == d) rows ≤ 1
    → find? (is_live d) rows ≡ some s
    → find? (is_live d) (update_where (λ x. x.id == s.id) (revoke now) rows) ≡ none
revoked_gone d now [] once e = refl
revoked_gone d now (r ∷ rows) {s} once e = elim (Bool-cases (is_live d r)) [
  | inl here ↦
      let same : r.id ≡ s.id = ground (arith, here) in
      let digest : (r.token_digest == d) ≡ true = ground (arith, here) in
      let left : count_where (λ s. s.token_digest == d) rows ≡ 0 = ground (arith, digest) in
      let rest = still_none d now (λ x. x.id == s.id) rows (none_of_digest d rows left) in
      ground (arith, same, rest)
  | inr there ↦
      let rest = revoked_gone d now rows {s = s} (ground arith) (ground (arith, there)) in
      ground (arith, there, rest)
]

-- After a logout its token lets nobody in at any time, where no digest is stored twice and the
-- token is not empty.
pub revoked_refused :
    (settings : Settings) (digest : Text → RowId) (raw : Text) (now later : ℕ) (db : Db)
    → is_empty raw ≡ false
    → count_where (λ s. s.token_digest == digest raw) db.sessions ≤ 1
    → (request
        (authenticate_session settings digest raw later)
        (request (revoke_session settings digest raw now) db).1).0
      ≡ err (http 401 "invalid_session")
unfolding authenticate_session revoke_session
revoked_refused settings digest raw now later db named once =
    elim (Option-cases (find? (is_live (digest raw)) db.sessions)) [
      | inl e ↦ ground (arith, e)
      | inr (s, e) ↦
          let gone = revoked_gone (digest raw) now db.sessions once e in ground (arith, e, gone)
    ]

closed_rows :
    (credential : RowId) (now : ℕ) (rows : List AuthSession)
    → All
        (λ s. is_open_of credential s ≡ false)
        (update_where (is_open_of credential) (revoke now) rows)
closed_rows credential now [] = tt
closed_rows credential now (r ∷ rows) = elim (Bool-cases (is_open_of credential r)) [
  | inl e ↦ (ground (arith, e), closed_rows credential now rows)
  | inr e ↦ (ground (arith, e), closed_rows credential now rows)
]

touch_owner :
    (settings : Settings) (now : ℕ) (s : AuthSession)
    → (touch settings now s).credential_id ≡ s.credential_id
unfolding touch
touch_owner settings now s = ground arith

-- After all sessions of a credential are revoked, no request is let in by a session of that
-- credential, whatever its token.
pub revoke_all_refused :
    (settings : Settings) (digest : Text → RowId) (credential : RowId) (raw : Text) (now later : ℕ)
    (db : Db) (m : Membership) (s : AuthSession)
    → (request
        (authenticate_session settings digest raw later)
        (request (revoke_all_credential_sessions credential now) db).1).0
      ≡ ok (m, s)
    → s.credential_id ≢ credential
unfolding revoke_all_credential_sessions
revoke_all_refused settings digest credential raw now later db m s h mine =
    let rows = update_where (is_open_of credential) (revoke now) db.sessions in
    let (old, c, e, _, _, _, _, same) =
      session_rows settings digest raw later (record db { sessions = rows }) m s h in
    let closed =
      All-find (λ s. is_open_of credential s ≡ false) (is_live (digest raw)) rows e
        (closed_rows credential now db.sessions) in
    let live = find-holds (is_live (digest raw)) rows e in
    let owner : s.credential_id ≡ old.credential_id =
      subst (λ x. x.credential_id ≡ old.credential_id) (sym same)
        (touch_owner settings later old) in
    ground arith
