-- ===== src/Invitations/SignIn.antt =====
-- From an invitation (src/glip/admin_routes.py) over its acceptance (src/glip/invitation_routes.py) to
-- the first login (src/glip/native_auth.py).
use arquitech_glip_premium_b.Prelude.{
  ◌&&◌, ℕ, ◌+◌, ◌≤◌, ◌<◌, ◌≡◌, refl, ap, sym, ◌∙◌, Bool, true, false, ◌||◌, Option, none, some,
  List, [], ◌∷◌, ◌==◌, ltb, any, find?, update_where, count_where, length, ok, request, RowId, Text,
  codes, same_text, same_text-eq, is_empty, strip, arith, Option-cases, Bool-cases, if_true, inl,
  inr, seconds,
}
use arquitech_glip_premium_b.Prelude.Tables.{find-update_unique, find-holds}
use arquitech_glip_premium_b.Config.{Settings}
use arquitech_glip_premium_b.Auth.Identity.{
  normalize_email, valid_email_shape, is_malformed, verify_password,
}
use arquitech_glip_premium_b.Auth.Login.{is_native, is_credential, LoginResult, authenticate_native}
use arquitech_glip_premium_b.Auth.Data.{Membership, Credential, Principal}
use arquitech_glip_premium_b.Invitations.Data.{Invitation, pending, Bucket, Tables, auth_settings}
use arquitech_glip_premium_b.Invitations.Issue.{
  is_live, is_pending, is_invited, is_bucket, is_other_token, hour_of, rate_key, clean_name,
  reissue, new_invitation, write_row, issue_rows, issue, Issued, create_invitation,
}
use arquitech_glip_premium_b.Invitations.Login.{first_login}
use arquitech_glip_premium_b.Invitations.Activate.{
  account_conflict, has_token, validate_password_policy, new_membership, new_password_record,
  activate, accept_found, accept_invitation,
}

-- The only row whose digest is the new one is the row that was reissued.
reissued_find :
    (p : Principal) (name : Option Text) (current : ℕ) (digest own : RowId) (rows : List Invitation)
    → any (is_other_token own digest) rows ≡ false
    → find?
        (has_token digest)
        (update_where (λ i. i.id == own) (reissue p name current digest) rows)
      ≡ find?
          (λ i. i.id == own)
          (update_where (λ i. i.id == own) (reissue p name current digest) rows)
unfolding reissue
reissued_find p name current digest own [] alone = refl
reissued_find p name current digest own (x ∷ xs) alone =
    ground (arith, alone, reissued_find p name current digest own xs)

reissue_keeps :
    (p : Principal) (name : Option Text) (current : ℕ) (digest own : RowId) (x : Invitation)
    → ((reissue p name current digest x).id == own) ≡ (x.id == own)
unfolding reissue
reissue_keeps p name current digest own x = refl

count_pos_of_find :
    (q : Invitation → Bool) (i : Invitation) (rows : List Invitation)
    → find? q rows ≡ some i
    → 1 ≤ count_where (λ x. x.id == i.id) rows
count_pos_of_find q i [] found = cc
count_pos_of_find q i (x ∷ xs) found = elim (Bool-cases (q x)) [
  | inl here ↦ let same : x ≡ i = ground (arith, here) in ground (arith, ap (λ r. r.id) same)
  | inr there ↦ ground (arith, there, count_pos_of_find q i xs)
]

-- Where ids are unique, a row is the first of its id.
find_first_id :
    (q : Invitation → Bool) (i : Invitation) (rows : List Invitation)
    → count_where (λ x. x.id == i.id) rows ≤ 1
    → find? q rows ≡ some i
    → find? (λ x. x.id == i.id) rows ≡ some i
find_first_id q i [] unique found = cc
find_first_id q i (x ∷ xs) unique found = elim (Bool-cases (q x)) [
  | inl here ↦ let same : x ≡ i = ground (arith, here) in ground (arith, same, ap (λ r. r.id) same)
  | inr there ↦
      let later : find? q xs ≡ some i = ground (arith, there) in
      ground (arith, unique, count_pos_of_find q i xs later, find_first_id q i xs)
]

password_fits :
    (s : Settings) (password : Text)
    → 1 ≤ s.auth_password_min_length
    → validate_password_policy s password ≡ ok tt
    → (is_empty password ≡ false) × (length password ≤ s.auth_password_max_length)
unfolding validate_password_policy
password_fits s [] least policy = ground (arith, least, policy)
password_fits s (x ∷ xs) least policy = (refl, ground (arith, policy))

well_formed :
    (s : Settings) (tenant email password : Text)
    → is_empty tenant ≡ false
    → length tenant ≤ 64
    → valid_email_shape email ≡ true
    → 1 ≤ s.auth_password_min_length
    → validate_password_policy s password ≡ ok tt
    → is_malformed (auth_settings s) tenant email password ≡ false
unfolding is_malformed
well_formed s tenant email password filled short shaped least policy =
    ground (arith, filled, short, shaped, password_fits s password least policy)

-- No membership and no credential has the next two ids.
unfoldable pub IsFresh : Tables → Type 0
IsFresh t =
    (any (λ m. m.id == t.auth.next_id + 1 || is_native t.auth.next_id m.external_subject)
        t.auth.memberships
      ≡ false)
    × (any (λ c. c.id == t.auth.next_id || c.membership_id == t.auth.next_id + 1) t.auth.credentials
        ≡ false)

no_member :
    (tenant : Text) (n : RowId) (ms : List Membership)
    → any (λ m. m.id == n + 1 || is_native n m.external_subject) ms ≡ false
    → any
        (λ m. m.id == n + 1 || (same_text m.tenant_id tenant && is_native n m.external_subject))
        ms
      ≡ false
no_member tenant n [] h = refl
no_member tenant n (m ∷ ms) h = ground (arith, h, no_member tenant n ms)

no_account :
    (tenant email : Text) (n : RowId) (cs : List Credential)
    → any (λ c. c.id == n || c.membership_id == n + 1) cs ≡ false
    → find? (is_credential tenant email) cs ≡ none
    → any (λ c. c.id == n || c.membership_id == n + 1 || is_credential tenant email c) cs ≡ false
no_account tenant email n [] h absent = refl
no_account tenant email n (c ∷ cs) h absent =
    ground (arith, h, absent, no_account tenant email n cs)

no_conflict :
    (row : Invitation) (t : Tables)
    → IsFresh t
    → find? (is_credential row.tenant_id row.email_normalized) t.auth.credentials ≡ none
    → account_conflict row t ≡ false
unfolding account_conflict IsFresh
no_conflict row t fresh unknown = ground (
  arith,
  no_member row.tenant_id t.auth.next_id t.auth.memberships fresh.0,
  no_account row.tenant_id row.email_normalized t.auth.next_id t.auth.credentials fresh.1 unknown,
)

module _ (sha256 : Text → RowId) where
  -- What a row answers for, once it was issued.
  pub record IsIssued (p : Principal) (email : Text) (current : ℕ) (raw_token : Text) (t : Tables)
      : Type 0 where
    pub row : Invitation
    pub found : find? (has_token (sha256 raw_token)) t.invitations ≡ some row
    pub is_pending_row : row.status ≡ pending
    pub expires : row.expires_at ≡ current + seconds 172800
    pub of_tenant : row.tenant_id ≡ p.tenant_id
    pub of_email : row.email_normalized ≡ email
    pub as_member : row.role ≡ codes "member"
    pub unknown : find? (is_credential p.tenant_id email) t.auth.credentials ≡ none

  issue-IsIssued :
      (p : Principal) (email : Text) (name : Option Text) (current : ℕ) (raw_token : Text)
      (row : Option Invitation) (bucket : Option Bucket) (t after : Tables) (issued : Issued)
      → ((i : Invitation) → count_where (λ x. x.id == i.id) t.invitations ≤ 1)
      → find? (is_invited p.tenant_id email) t.invitations ≡ row
      → find? (is_credential p.tenant_id email) t.auth.credentials ≡ none
      → request (issue sha256 p email name current raw_token row bucket) t ≡ (ok issued, after)
      → IsIssued p email current raw_token after
  unfolding issue issue_rows write_row new_invitation reissue
  issue-IsIssued p email name current raw_token none bucket t after issued unique e unknown h =
      record {
        row = new_invitation p email name current (sha256 raw_token) t.auth.next_id;
        found = ground (arith);
        is_pending_row = refl;
        expires = refl;
        of_tenant = refl;
        of_email = refl;
        as_member = refl;
        unknown = ground (arith, unknown);
      }
  issue-IsIssued p email name current raw_token (some i) bucket t after issued unique e unknown h =
      let digest = sha256 raw_token in
      let renew = reissue p name current digest in
      let own : (i.id == i.id) ≡ true = ground arith in
      let held = find-holds (is_invited p.tenant_id email) t.invitations e in
      let first = find_first_id _ i t.invitations (unique i) e in
      let renewed : find? (has_token digest) (update_where (λ x. x.id == i.id) renew t.invitations)
          ≡ some (renew i) =
        reissued_find p name current digest i.id t.invitations (ground (arith, h))
        ∙ find-update_unique (λ x. x.id == i.id) (λ x. x.id == i.id) renew t.invitations
            (reissue_keeps p name current digest i.id) first
        ∙ ap some (if_true (renew i) i own) in
      record {
        row = renew i;
        found = ground (arith, h, renewed);
        is_pending_row = refl;
        expires = refl;
        of_tenant = same_text-eq _ _ (ground (arith, held));
        of_email = same_text-eq _ _ (ground (arith, held));
        as_member = refl;
        unknown = ground (arith, h, unknown);
      }

  pub create_invitation-IsIssued :
      (p : Principal) (raw_email : Text) (name : Option Text) (current : ℕ) (raw_token : Text)
      (t after : Tables) (issued : Issued)
      → ((i : Invitation) → count_where (λ x. x.id == i.id) t.invitations ≤ 1)
      → request (create_invitation sha256 p raw_email name current raw_token) t ≡ (ok issued, after)
      → IsIssued p (normalize_email raw_email) current raw_token after
        × (valid_email_shape (normalize_email raw_email) ≡ true)
  unfolding create_invitation
  create_invitation-IsIssued p raw_email name current raw_token t after issued unique h =
      let email = normalize_email raw_email in
      let row = find? (is_invited p.tenant_id email) t.invitations in
      let bucket = find? (is_bucket (rate_key sha256 p.tenant_id) (hour_of current)) t.buckets in
      let unknown : find? (is_credential p.tenant_id email) t.auth.credentials ≡ none =
        elim (Option-cases (find? (is_credential p.tenant_id email) t.auth.credentials)) [
          | inl e ↦ e
          | inr (c, e) ↦ ground (arith, e)
        ] in
      (
        issue-IsIssued p email (clean_name name) current raw_token row bucket t after issued unique
            refl unknown (ground (arith, h, unknown)),
        ground (arith, h),
      )

  module _ (derive : Text → RowId → RowId) (encode : RowId → Text) (s : Settings) where
    accept_found-run :
        (row : Invitation) (password : Text) (salt : RowId) (now : ℕ) (t : Tables)
        → row.role ≡ codes "member"
        → find? (is_credential row.tenant_id row.email_normalized) t.auth.credentials ≡ none
        → validate_password_policy s password ≡ ok tt
        → IsFresh t
        → request (accept_found sha256 derive encode s row password salt now) t ≡ (
          ok row.tenant_id,
          activate sha256 derive encode s row now (encode salt, encode (derive password salt)) t,
        )
    unfolding accept_found new_password_record same_text
    accept_found-run row password salt now t role unknown policy fresh =
        let member : same_text row.role (codes "member") ≡ true =
          ap (λ r. same_text r (codes "member")) role in
        ground (arith, member, unknown, policy, no_conflict row t fresh unknown)

    accept_invitation-run :
        (row : Invitation) (token password : Text) (salt : RowId) (now : ℕ) (t : Tables)
        → (ltb (length token) 32 || ltb 256 (length token)) ≡ false
        → find? (has_token (sha256 token)) t.invitations ≡ some row
        → is_live now row ≡ true
        → request (accept_invitation sha256 derive encode s token password salt now) t
          ≡ request (accept_found sha256 derive encode s row password salt now) t
    unfolding accept_invitation
    accept_invitation-run row token password salt now t sized found live = cc (sized, found, live)

    accept_issued :
        (p : Principal) (email : Text) (current now : ℕ) (token password : Text) (salt : RowId)
        (t : Tables) (i : IsIssued p email current token t)
        → 32 ≤ length token
        → length token ≤ 256
        → now < current + seconds 172800
        → validate_password_policy s password ≡ ok tt
        → IsFresh t
        → request (accept_invitation sha256 derive encode s token password salt now) t ≡ (
          ok i.row.tenant_id,
          activate sha256 derive encode s i.row now (encode salt, encode (derive password salt)) t,
        )
    unfolding is_live is_pending
    accept_issued p email current now token password salt t i short long early policy fresh =
        let unknown : find? (is_credential i.row.tenant_id i.row.email_normalized)
              t.auth.credentials
            ≡ none =
          ap (λ x. find? (is_credential x i.row.email_normalized) t.auth.credentials) i.of_tenant
          ∙ ap (λ x. find? (is_credential p.tenant_id x) t.auth.credentials) i.of_email
          ∙ i.unknown in
        let live : is_live now i.row ≡ true = ground (arith, i.is_pending_row, i.expires, early) in
        accept_invitation-run i.row token password salt now t (ground (arith, short, long)) i.found
          live
        ∙ accept_found-run i.row password salt now t i.as_member unknown policy fresh

    module _ (decode : Text → Option RowId) (digest : Text → RowId) (p : Principal)
        (raw_email : Text) (name : Option Text) (current now later : ℕ)
        (token password raw_tenant session_token : Text) (salt : RowId) (t invited : Tables)
        (issued : Issued) where
      -- Where ids are unique and the next two unused, the decoder inverts base64, the least length
      -- of a password is at least 1, and the tenant is a stripped text of 1 to 64 characters:
      -- whoever accepts the token of an invitation just issued, of 32 to 256 characters, before
      -- its 48 hours have passed and with a password that the policy allows, gets an account, and
      -- the first login with the address that was invited and that password succeeds, as a member
      -- of that tenant, given a fresh session token.
      pub invited_signs_in :
          ((x : RowId) → decode (encode x) ≡ some x)
          → ((i : Invitation) → count_where (λ x. x.id == i.id) t.invitations ≤ 1)
          → request (create_invitation sha256 p raw_email name current token) t
            ≡ (ok issued, invited)
          → (32 ≤ length token) × (length token ≤ 256)
          → now < current + seconds 172800
          → validate_password_policy s password ≡ ok tt
          → 1 ≤ s.auth_password_min_length
          → strip raw_tenant ≡ p.tenant_id
          → (is_empty p.tenant_id ≡ false) × (length p.tenant_id ≤ 64)
          → any (λ x. x.token_digest == digest session_token) invited.auth.sessions ≡ false
          → any
              (λ m.
                m.id == invited.auth.next_id + 1
                || is_native invited.auth.next_id m.external_subject)
              invited.auth.memberships
            ≡ false
          → any
              (λ c. c.id == invited.auth.next_id || c.membership_id == invited.auth.next_id + 1)
              invited.auth.credentials
            ≡ false
          → (joined : Tables) × (l : LoginResult) × (request
                (accept_invitation sha256 derive encode s token password salt now)
                invited
              ≡ (ok p.tenant_id, joined))
            × ((request
                  (authenticate_native
                    (auth_settings s)
                    (verify_password derive decode)
                    digest
                    raw_tenant
                    raw_email
                    password
                    later
                    session_token)
                  joined.auth).0
                ≡ ok l)
            × (l.membership.tenant_id ≡ p.tenant_id)
            × (l.membership.role ≡ codes "member")
      unfolding new_membership IsFresh
      invited_signs_in inverse unique created sized early policy least same_tenant tenant fresh
            members accounts =
          let (i, shaped) =
            create_invitation-IsIssued p raw_email name current token t invited issued unique
              created in
          let accepts =
            accept_issued p (normalize_email raw_email) current now token password salt invited i
              sized.0 sized.1 early policy (members, accounts) in
          let formed : is_malformed (auth_settings s) i.row.tenant_id i.row.email_normalized
                password
              ≡ false =
            ap (λ x. is_malformed (auth_settings s) x i.row.email_normalized password) i.of_tenant
            ∙ ap (λ x. is_malformed (auth_settings s) p.tenant_id x password) i.of_email
            ∙ well_formed s p.tenant_id (normalize_email raw_email) password tenant.0 tenant.1
                shaped least policy in
          let joined =
            activate sha256 derive encode s i.row now (encode salt, encode (derive password salt))
              invited in
          (
            joined,
            _,
            accepts ∙ ap (λ x. (ok x, joined)) i.of_tenant,
            first_login sha256 derive encode decode digest s i.row password salt now later
                session_token invited raw_tenant raw_email inverse (same_tenant ∙ sym i.of_tenant)
                (sym i.of_email) formed fresh,
            i.of_tenant,
            refl,
          )
