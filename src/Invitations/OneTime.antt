-- ===== src/Invitations/OneTime.antt =====
-- An invitation's token (src/glip/invitation_routes.py) opens one account.
use arquitech_glip_premium_b.Prelude.{
  Bool-cases, ℕ, ◌+◌, ◌≡◌, refl, ap, sym, ◌∙◌, true, false, ◌&&◌, none, some, List, ◌==◌, find?,
  update_where, ok, err, request, http, RowId, Text, same_text, arith, Option-cases, if_true, inl,
  inr,
}
use arquitech_glip_premium_b.Prelude.Tables.{find-update_unique, find-holds}
use arquitech_glip_premium_b.Prelude.Results.{Result-cases}
use arquitech_glip_premium_b.Config.{Settings}
use arquitech_glip_premium_b.Auth.Login.{is_credential}
use arquitech_glip_premium_b.Auth.Data.{Principal}
use arquitech_glip_premium_b.Invitations.Data.{Invitation, Tables}
use arquitech_glip_premium_b.Invitations.Issue.{is_live, is_pending, revoke, revoke_row}
use arquitech_glip_premium_b.Invitations.Activate.{
  account_conflict, has_token, validate_password_policy, accept_row, new_password_record, activate,
  accept_found, accept_invitation,
}

accept_row_dead :
    (m : RowId) (at now : ℕ) (row : Invitation) → is_live now (accept_row m at row) ≡ false
unfolding is_live is_pending accept_row
accept_row_dead m at now row = refl

revoke_row_dead : (at now : ℕ) (row : Invitation) → is_live now (revoke_row at row) ≡ false
unfolding is_live is_pending revoke_row
revoke_row_dead at now row = refl

accept_row_keeps :
    (m : RowId) (at : ℕ) (digest : RowId) (row : Invitation)
    → has_token digest (accept_row m at row) ≡ has_token digest row
unfolding accept_row
accept_row_keeps m at digest row = refl

revoke_row_keeps :
    (at : ℕ) (digest : RowId) (row : Invitation)
    → has_token digest (revoke_row at row) ≡ has_token digest row
unfolding revoke_row
revoke_row_keeps at digest row = refl

revoke-rows :
    (p : Principal) (id : RowId) (now : ℕ) (t after : Tables) (answered : RowId)
    → request (revoke p id now) t ≡ (ok answered, after)
    → after.invitations ≡ update_where (λ i. i.id == id) (revoke_row now) t.invitations
unfolding revoke
revoke-rows p id now t after answered h =
    elim (Option-cases
      (find? (λ i. same_text i.tenant_id p.tenant_id && i.id == id) t.invitations)) [
        | inl e ↦ ground (arith, e)
        | inr (row, e) ↦
            let held =
              find-holds (λ i. same_text i.tenant_id p.tenant_id && i.id == id) t.invitations e in
            let same : row.id ≡ id = ground (arith, held) in
            ground (arith, e)
            ∙ ap (λ x. update_where (λ i. i.id == x) (revoke_row now) t.invitations) same
      ]

-- The row that a token leads to, once the row of that id was rewritten.
rewritten :
    (f : Invitation → Invitation) (digest : RowId) (rows : List Invitation) (row : Invitation)
    → ((x : Invitation) → has_token digest (f x) ≡ has_token digest x)
    → find? (has_token digest) rows ≡ some row
    → find? (has_token digest) (update_where (λ i. i.id == row.id) f rows) ≡ some (f row)
rewritten f digest rows row keeps found =
    let same : (row.id == row.id) ≡ true = ground arith in
    find-update_unique (λ i. i.id == row.id) (has_token digest) f rows keeps found
    ∙ ap some (if_true (f row) row same)

module _ (sha256 : Text → RowId) (derive : Text → RowId → RowId) (encode : RowId → Text)
    (s : Settings) where
  -- The row behind an accepted invitation, and what it left.
  pub record IsActivation (token password : Text) (salt : RowId) (now : ℕ) (t after : Tables)
      (tenant : Text) : Type 0 where
    pub row : Invitation
    pub found : find? (has_token (sha256 token)) t.invitations ≡ some row
    pub live : is_live now row ≡ true
    pub unknown : find? (is_credential row.tenant_id row.email_normalized) t.auth.credentials ≡ none
    pub policy : validate_password_policy s password ≡ ok tt
    pub written :
        after
        ≡ activate sha256 derive encode s row now (encode salt, encode (derive password salt)) t
    pub joined : tenant ≡ row.tenant_id

  accept_found-ok :
      (row : Invitation) (password : Text) (salt : RowId) (now : ℕ) (t after : Tables)
      (tenant : Text)
      → request (accept_found sha256 derive encode s row password salt now) t ≡ (ok tenant, after)
      → (find? (is_credential row.tenant_id row.email_normalized) t.auth.credentials ≡ none)
        × (validate_password_policy s password ≡ ok tt)
        × (after
            ≡ activate sha256 derive encode s row now
                (encode salt, encode (derive password salt))
                t)
        × (tenant ≡ row.tenant_id)
  unfolding accept_found new_password_record
  accept_found-ok row password salt now t after tenant h =
      elim (Option-cases
        (find? (is_credential row.tenant_id row.email_normalized) t.auth.credentials)) [
          | inl e ↦ elim (Result-cases (validate_password_policy s password)) [
            | inl (passed, f) ↦ elim (Bool-cases (account_conflict row t)) [
              | inl conflict ↦ ground (arith, e, f, conflict)
              | inr free ↦ (e, f, ground (arith, e, f, free), ground (arith, e, f, free))
            ]
            | inr (code, f) ↦ ground (arith, e, f)
          ]
          | inr (c, e) ↦ ground (arith, e)
        ]

  pub accept_invitation-IsActivation :
      (token password : Text) (salt : RowId) (now : ℕ) (t after : Tables) (tenant : Text)
      → request (accept_invitation sha256 derive encode s token password salt now) t
        ≡ (ok tenant, after)
      → IsActivation token password salt now t after tenant
  unfolding accept_invitation
  accept_invitation-IsActivation token password salt now t after tenant h =
      elim (Option-cases (find? (has_token (sha256 token)) t.invitations)) [
        | inl e ↦ ground (arith, e)
        | inr (row, e) ↦
            let rest = accept_found-ok row password salt now t after tenant (ground (arith, e)) in
            record {
              row = row;
              found = e;
              live = ground (arith, e);
              unknown = rest.0;
              policy = rest.1;
              written = rest.2;
              joined = rest.3;
            }
      ]

  unavailable :
      (token password : Text) (salt : RowId) (now : ℕ) (t : Tables) (row : Invitation)
      → find? (has_token (sha256 token)) t.invitations ≡ some row
      → is_live now row ≡ false
      → request (accept_invitation sha256 derive encode s token password salt now) t
        ≡ (err (http 404 "invitation_unavailable"), t)
  unfolding accept_invitation
  unavailable token password salt now t row found dead = ground (arith, found, dead)

  -- Once an invitation was accepted, its token is refused with 404 at any later time, whatever the
  -- password, and the refusal changes nothing.
  pub token_used :
      (token password next_password : Text) (salt next_salt : RowId) (now next : ℕ)
      (t after : Tables) (tenant : Text)
      → request (accept_invitation sha256 derive encode s token password salt now) t
        ≡ (ok tenant, after)
      → request (accept_invitation sha256 derive encode s token next_password next_salt next) after
        ≡ (err (http 404 "invitation_unavailable"), after)
  unfolding accept_invitation activate
  token_used token password next_password salt next_salt now next t after tenant h =
      let first = accept_invitation-IsActivation token password salt now t after tenant h in
      let accepted_row = accept_row (t.auth.next_id + 1) now in
      let dead : find? (has_token (sha256 token)) after.invitations
          ≡ some (accepted_row first.row) =
        ap (λ x. find? (has_token (sha256 token)) x.invitations) first.written
        ∙ rewritten accepted_row (sha256 token) t.invitations first.row
            (accept_row_keeps (t.auth.next_id + 1) now (sha256 token)) first.found in
      unavailable token next_password next_salt next after (accepted_row first.row) dead
        (accept_row_dead (t.auth.next_id + 1) now next first.row)

  pub token_revoked :
      (p : Principal) (id : RowId) (token password : Text) (salt : RowId) (now next : ℕ)
      (t after : Tables) (answered : RowId) (row : Invitation)
      → find? (has_token (sha256 token)) t.invitations ≡ some row
      → row.id ≡ id
      → request (revoke p id now) t ≡ (ok answered, after)
      → request (accept_invitation sha256 derive encode s token password salt next) after
        ≡ (err (http 404 "invitation_unavailable"), after)
  token_revoked p id token password salt now next t after answered row found same h =
      let rows : after.invitations
          ≡ update_where (λ i. i.id == row.id) (revoke_row now) t.invitations =
        revoke-rows p id now t after answered h
        ∙ ap (λ x. update_where (λ i. i.id == x) (revoke_row now) t.invitations) (sym same) in
      let dead : find? (has_token (sha256 token)) after.invitations ≡ some (revoke_row now row) =
        ap (find? (has_token (sha256 token))) rows
        ∙ rewritten (revoke_row now) (sha256 token) t.invitations row
            (revoke_row_keeps now (sha256 token)) found in
      unavailable token password salt next after (revoke_row now row) dead
        (revoke_row_dead now next row)
