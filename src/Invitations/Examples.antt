-- ===== src/Invitations/Examples.antt =====
-- Invitations of src/glip/admin_routes.py and src/glip/invitation_routes.py on small tables, and the
-- theorems at them.
use arquitech_glip_premium_b.Prelude.{
  ◌||◌, ◌+◌, ◌≤◌, ◌≡◌, refl, false, Option, none, some, List, [], ◌∷◌, ◌==◌, arith, ok, err, http,
  request, RowId, Text, codes, length, same_text, strip, lstrip, rstrip, lower, is_space, any,
}
use arquitech_glip_premium_b.Config.Examples.{sample}
use arquitech_glip_premium_b.Auth.Identity.{
  normalize_email, count, local_part, domain_part, starts_with_dot, ends_with_dot,
  valid_email_shape, verify_password,
}
use arquitech_glip_premium_b.Auth.Login.{is_native, LoginResult, authenticate_native}
use arquitech_glip_premium_b.Auth.Data.{Principal}
use arquitech_glip_premium_b.Invitations.Data.{Tables, auth_settings}
use arquitech_glip_premium_b.Invitations.Issue.{
  is_accepted, is_pending, is_live, hour_of, count_issue, clean_name, new_invitation, reissue,
  write_row, rate_key, issue_rows, issue, Issued, create_invitation, revoke_row, revoke,
}
use arquitech_glip_premium_b.Invitations.Activate.{
  account_conflict, validate_password_policy, accept_row, new_membership, new_password_record,
  new_credential, activate, accept_found, accept_invitation,
}
use arquitech_glip_premium_b.Invitations.OneTime.{token_used}
use arquitech_glip_premium_b.Invitations.Quota.{
  Call, invite, withdraw, activation, bucket_count, serve, issued_in, issued_total,
  issued_at_most_ten,
}
use arquitech_glip_premium_b.Invitations.SignIn.{invited_signs_in}

run : Unit {0}
unfolding same_text strip lstrip rstrip lower is_space normalize_email count local_part domain_part
    starts_with_dot ends_with_dot valid_email_shape is_accepted is_pending is_live hour_of
    count_issue clean_name new_invitation reissue write_row rate_key issue_rows issue
    create_invitation revoke_row revoke validate_password_policy accept_row new_membership
    new_password_record account_conflict new_credential activate accept_found accept_invitation
    bucket_count serve issued_in issued_total
run = tt

-- Stand-ins for the digest, the hash and base64.
abbrev sha256 : Text → RowId
sha256 t = length t

abbrev derive : Text → RowId → RowId
derive password salt = length password + salt

abbrev encode : RowId → Text
encode x = x ∷ []

abbrev decode : Text → Option RowId
decode [] = none
decode (x ∷ _) = some x

abbrev boss : Principal
boss = record { subject = codes "u1"; tenant_id = codes "acme"; role = codes "owner" }

abbrev empty_tables : Tables
empty_tables = record {
  auth = record { memberships = []; credentials = []; sessions = []; events = []; next_id = 5 };
  invitations = [];
  buckets = [];
  audit = [];
}

abbrev token : Text
token = codes "0123456789012345678901234567890123456789abc"

abbrev password : Text
password = codes "correct horse"

abbrev invited : Tables
invited = (request (create_invitation sha256 boss (codes " Ana@b.co") none 7 token) empty_tables).1

abbrev answer : Issued
answer = record { id = 5; expires_at = 172800000007; activation_token = token }

created :
    request (create_invitation sha256 boss (codes " Ana@b.co") none 7 token) empty_tables
    ≡ (ok answer, invited)
unfolding run
created = refl

policy : validate_password_policy sample password ≡ ok tt
unfolding run
policy = refl

trimmed : strip (codes " acme") ≡ codes "acme"
unfolding run
trimmed = refl

nobody : any (λ x. x.token_digest == sha256 (codes "s")) invited.auth.sessions ≡ false
unfolding run
nobody = refl

no_members :
    any
      (λ m. m.id == invited.auth.next_id + 1 || is_native invited.auth.next_id m.external_subject)
      invited.auth.memberships
    ≡ false
unfolding run
no_members = refl

no_accounts :
    any
      (λ c. c.id == invited.auth.next_id || c.membership_id == invited.auth.next_id + 1)
      invited.auth.credentials
    ≡ false
unfolding run
no_accounts = refl

invited_signs_in_example :
    (joined : Tables) × (l : LoginResult) × (request
        (accept_invitation sha256 derive encode sample token password 3 9)
        invited
      ≡ (ok (codes "acme"), joined))
    × ((request
          (authenticate_native
            (auth_settings sample)
            (verify_password derive decode)
            sha256
            (codes " acme")
            (codes " Ana@b.co")
            password
            20
            (codes "s"))
          joined.auth).0
        ≡ ok l)
    × (l.membership.tenant_id ≡ codes "acme")
    × (l.membership.role ≡ codes "member")
invited_signs_in_example =
    invited_signs_in sha256 derive encode sample decode sha256 boss (codes " Ana@b.co") none 7 9 20
      token password (codes " acme") (codes "s") 3 empty_tables invited answer (λ x. refl)
      (λ i. omega arith) created (omega arith, omega arith) (omega arith) policy (omega arith)
      trimmed (refl, omega arith) nobody no_members no_accounts

abbrev joined_tables : Tables
joined_tables =
    (request (accept_invitation sha256 derive encode sample token password 3 9) invited).1

accepts_once :
    request (accept_invitation sha256 derive encode sample token password 3 9) invited
    ≡ (ok (codes "acme"), joined_tables)
unfolding run
accepts_once = refl

token_used_example :
    request
      (accept_invitation sha256 derive encode sample token (codes "another password") 4 10)
      joined_tables
    ≡ (err (http 404 "invitation_unavailable"), joined_tables)
token_used_example =
    token_used sha256 derive encode sample token password (codes "another password") 3 4 9 10
      invited joined_tables (codes "acme") accepts_once

abbrev calls : List Call
calls =
    invite boss (codes "a@b.co") none 7 token
    ∷ activation token password 3 9
    ∷ invite boss (codes "c@b.co") none 8 (codes "another token of more than 32 codes")
    ∷ withdraw boss 8 9
    ∷ []

issued_two : issued_total sha256 derive encode sample (codes "acme") 0 calls empty_tables ≡ 2
unfolding run
issued_two = refl

none_yet : bucket_count (rate_key sha256 (codes "acme")) 0 [] ≡ 0
unfolding run
none_yet = refl

issued_at_most_ten_example :
    bucket_count (rate_key sha256 (codes "acme")) 0 []
      + issued_total sha256 derive encode sample (codes "acme") 0 calls empty_tables
    ≤ 10
issued_at_most_ten_example =
    issued_at_most_ten sha256 derive encode sample (codes "acme") 0 calls empty_tables
      (omega (arith, none_yet))
