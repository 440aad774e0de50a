-- ===== src/Auth/Bounded.antt =====
-- Every session of src/glip/native_auth.py ends at its absolute expiry, however often it is touched.
use arquitech_glip_premium_b.Prelude.{
  ℕ, ◌≤◌, ◌≡◌, ◌⊎◌, is_empty, Bool, Option, some, ◌∷◌, ◌==◌, find?, update_where, request, RowId,
  Text, arith, All, Option-cases, inl, inr, strip, Bool-cases, any,
}
use mathlib.Core.Path.{subst, sym}
use arquitech_glip_premium_b.Prelude.Tables.{All-update_where}
use arquitech_glip_premium_b.Auth.Data.{Membership, Credential, AuthSession, Settings, Db}
use arquitech_glip_premium_b.Auth.Identity.{normalize_email, is_malformed}
use arquitech_glip_premium_b.Auth.Login.{
  is_credential, is_membership, may_login, record_auth_event, new_session, reject, accept, attempt,
  authenticate_native,
}
use arquitech_glip_premium_b.Auth.Sessions.{
  is_live, revoke, touch, end_session, continue, has_ended, is_identity, check_identity,
  authenticate_session, revoke_session, is_open_of, revoke_all_credential_sessions,
}

abbrev pub IsBounded : AuthSession → Type 0
IsBounded s = s.idle_expires_at ≤ s.expires_at

touch-IsBounded :
    (settings : Settings) (now : ℕ) (s : AuthSession)
    → IsBounded s
    → IsBounded (touch settings now s)
unfolding touch
touch-IsBounded settings now s h = grind arith

module _ (settings : Settings) (verify : Text → Option Credential → Bool)
    (digest : Text → RowId) where
  new_session-IsBounded :
      (tenant : Text) (c : Credential) (m : Membership) (now : ℕ) (token : Text) (i : RowId)
      → IsBounded (new_session settings digest tenant c m now token i)
  unfolding new_session
  new_session-IsBounded tenant c m now token i = grind arith

  login_sessions :
      (tenant email password : Text) (now : ℕ) (token : Text) (db : Db)
      → let after =
          (request
            (authenticate_native settings verify digest tenant email password now token)
            db).1 in
        (after.sessions ≡ db.sessions)
        ⊎ ((c : Credential) × (m : Membership) × (after.sessions
              ≡ new_session settings digest (strip tenant) c m now token db.next_id ∷ db.sessions))
  unfolding authenticate_native attempt accept reject record_auth_event
  login_sessions tenant email password now token db =
      elim (Bool-cases (is_malformed settings (strip tenant) (normalize_email email) password)) [
        | inl bad ↦ inl (ground (arith, bad))
        | inr good ↦
            elim (Option-cases
              (find? (is_credential (strip tenant) (normalize_email email)) db.credentials)) [
                | inl e ↦ inl (ground (arith, good, e))
                | inr (c, e) ↦
                    elim (Option-cases
                      (find? (is_membership (strip tenant) c.membership_id) db.memberships)) [
                        | inl f ↦ inl (ground (arith, good, e, f))
                        | inr (m, f) ↦
                            elim (Bool-cases (may_login (verify password (some c)) now c m)) [
                              | inr denied ↦ inl (ground (arith, good, e, f, denied))
                              | inl allowed ↦
                                  elim (Bool-cases
                                    (any (λ s. s.token_digest == digest token) db.sessions)) [
                                      | inl taken ↦ inl (ground (arith, good, e, f, allowed, taken))
                                      | inr free ↦
                                          inr (c, m, ground (arith, good, e, f, allowed, free))
                                    ]
                            ]
                      ]
              ]
      ]

  login-IsBounded :
      (tenant email password : Text) (now : ℕ) (token : Text) (db : Db)
      → All IsBounded db.sessions
      → All IsBounded
          (request
            (authenticate_native settings verify digest tenant email password now token)
            db).1.sessions
  login-IsBounded tenant email password now token db h =
      elim (login_sessions tenant email password now token db) [
        | inl same ↦ subst (All IsBounded) (sym same) h
        | inr (c, m, same) ↦
            subst (All IsBounded) (sym same)
              (new_session-IsBounded (strip tenant) c m now token db.next_id, h)
      ]

  -- What a session check leaves: the rows as they were, or one session revoked or touched.
  enter_sessions :
      (raw : Text) (now : ℕ) (db : Db)
      → let after = (request (authenticate_session settings digest raw now) db).1 in
        (after.sessions ≡ db.sessions)
        ⊎ ((i : RowId) × (after.sessions ≡ update_where (λ x. x.id == i) (revoke now) db.sessions))
        ⊎ ((i : RowId) × (after.sessions
              ≡ update_where (λ x. x.id == i) (touch settings now) db.sessions))
  unfolding authenticate_session check_identity end_session continue
  enter_sessions raw now db = elim (Option-cases (find? (is_live (digest raw)) db.sessions)) [
    | inl e ↦ inl (ground (arith, e))
    | inr (s, e) ↦ elim (Bool-cases (is_empty raw)) [
      | inl none_given ↦ inl (ground (arith, none_given))
      | inr given ↦ elim (Bool-cases (has_ended now s)) [
        | inl ended ↦ inr (inl (s.id, ground (arith, e, given, ended)))
        | inr going ↦ elim (Option-cases (find? (λ c. c.id == s.credential_id) db.credentials)) [
          | inl f ↦ inr (inl (s.id, ground (arith, e, given, going, f)))
          | inr (c, f) ↦ elim (Option-cases (find? (λ m. m.id == s.membership_id) db.memberships)) [
            | inl g ↦ inr (inl (s.id, ground (arith, e, given, going, f, g)))
            | inr (m, g) ↦ elim (Bool-cases (is_identity s c m)) [
              | inl right ↦ inr (inr (s.id, ground (arith, e, given, going, f, g, right)))
              | inr wrong ↦ inr (inl (s.id, ground (arith, e, given, going, f, g, wrong)))
            ]
          ]
        ]
      ]
    ]
  ]

  enter-IsBounded :
      (raw : Text) (now : ℕ) (db : Db)
      → All IsBounded db.sessions
      → All IsBounded (request (authenticate_session settings digest raw now) db).1.sessions
  enter-IsBounded raw now db h = elim (enter_sessions raw now db) [
    | inl same ↦ subst (All IsBounded) (sym same) h
    | inr (inl (i, same)) ↦
        subst (All IsBounded) (sym same)
          (All-update_where IsBounded (λ x. x.id == i) (revoke now) db.sessions (λ s b e. b) h)
    | inr (inr (i, same)) ↦ subst (All IsBounded) (sym same) (
        All-update_where IsBounded (λ x. x.id == i) (touch settings now) db.sessions
          (λ s b e. touch-IsBounded settings now s b) h)
  ]

  leave-IsBounded :
      (raw : Text) (now : ℕ) (db : Db)
      → All IsBounded db.sessions
      → All IsBounded (request (revoke_session settings digest raw now) db).1.sessions
  unfolding revoke_session
  leave-IsBounded raw now db h = elim (Option-cases (find? (is_live (digest raw)) db.sessions)) [
    | inl e ↦
        let same : (request (revoke_session settings digest raw now) db).1.sessions ≡ db.sessions =
          ground (arith, e) in
        subst (All IsBounded) (sym same) h
    | inr (s, e) ↦
        let marked =
          All-update_where IsBounded (λ x. x.id == s.id) (revoke now) db.sessions (λ s b e. b) h in
        elim (Bool-cases (is_empty raw)) [
          | inl none_given ↦
              let same : (request (revoke_session settings digest raw now) db).1.sessions
                  ≡ db.sessions =
                ground (arith, e, none_given) in
              subst (All IsBounded) (sym same) h
          | inr given ↦
              let same : (request (revoke_session settings digest raw now) db).1.sessions
                  ≡ update_where (λ x. x.id == s.id) (revoke now) db.sessions =
                ground (arith, e, given) in
              subst (All IsBounded) (sym same) marked
        ]
  ]

  -- If no session may stay idle past its absolute expiry, this still holds after a login, a
  -- session check, a logout and the revocation of all sessions of a credential, successful or not.
  pub sessions-IsBounded :
      (tenant email password raw token : Text) (credential : RowId) (now : ℕ) (db : Db)
      → All IsBounded db.sessions
      → All IsBounded
          (request
            (authenticate_native settings verify digest tenant email password now token)
            db).1.sessions
        × All IsBounded (request (authenticate_session settings digest raw now) db).1.sessions
        × All IsBounded (request (revoke_session settings digest raw now) db).1.sessions
        × All IsBounded (request (revoke_all_credential_sessions credential now) db).1.sessions
  unfolding revoke_all_credential_sessions
  sessions-IsBounded tenant email password raw token credential now db h = (
    login-IsBounded tenant email password now token db h,
    enter-IsBounded raw now db h,
    leave-IsBounded raw now db h,
    All-update_where IsBounded (is_open_of credential) (revoke now) db.sessions (λ s b e. b) h,
  )
