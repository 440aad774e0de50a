-- ===== src/Invitations/Quota.antt =====
-- The hourly limit of src/glip/admin_routes.py over any sequence of requests.
use arquitech_glip_premium_b.Prelude.{
  leb, ltb, ◌*◌, ℕ, ◌+◌, ◌≤◌, ◌<◌, ◌≡◌, ap, sym, ◌∙◌, Bool, true, false, not, ◌&&◌, Option, none,
  some, List, [], ◌∷◌, ◌==◌, if◌then◌else◌, find?, update_where, Result, ok, err, request, Error,
  RowId, Text, same_text, same_text-eq, arith, Option-cases, Bool-cases, inl, inr, is_none,
}
use arquitech_glip_premium_b.Config.{Settings}
use arquitech_glip_premium_b.Auth.Identity.{normalize_email}
use arquitech_glip_premium_b.Auth.Data.{Principal}
use arquitech_glip_premium_b.Invitations.Data.{Invitation, Bucket, Tables}
use arquitech_glip_premium_b.Invitations.Issue.{
  is_invited, is_bucket, hour_of, count_one, count_issue, rate_key, clean_name, write_row,
  issue_rows, issue, create_invitation, revoke,
}
use arquitech_glip_premium_b.Invitations.Activate.{activate, accept_found, accept_invitation}

abbrev pub returned : {A : Type 0} → Result Error A → Bool
returned (ok _) = true
returned (err _) = false

-- The invitations that a bucket counts.
abbrev pub counted : Option Bucket → ℕ
counted none = 0
counted (some b) = b.count

unfoldable pub bucket_count : RowId → ℕ → List Bucket → ℕ
bucket_count key hour buckets = counted (find? (is_bucket key hour) buckets)

count_one-find :
    (key own : RowId) (hour at : ℕ) (buckets : List Bucket)
    → bucket_count key hour (update_where (is_bucket own at) count_one buckets)
      ≡ (if own == key && at == hour && not (is_none (find? (is_bucket own at) buckets))
          then 1
          else 0)
        + bucket_count key hour buckets
unfolding bucket_count
count_one-find key own hour at [] = ground arith
count_one-find key own hour at (b ∷ bs) = ground (arith, count_one-find key own hour at bs)

-- One more invitation in the bucket of its tenant and hour, and none in any other.
count_issue-count :
    (key own : RowId) (hour at : ℕ) (buckets : List Bucket)
    → bucket_count key hour (count_issue own at (find? (is_bucket own at) buckets) buckets)
      ≡ (if own == key && at == hour then 1 else 0) + bucket_count key hour buckets
unfolding count_issue bucket_count
count_issue-count key own hour at buckets = elim (Option-cases (find? (is_bucket own at) buckets)) [
  | inl e ↦ elim (Bool-cases (own == key && at == hour)) [
    | inl both ↦
        let same_key : own ≡ key = ground (arith, both) in
        let same_hour : at ≡ hour = ground (arith, both) in
        let absent : find? (is_bucket key hour) buckets ≡ none =
          ap (λ k. find? (is_bucket k hour) buckets) (sym same_key)
          ∙ ap (λ h. find? (is_bucket own h) buckets) (sym same_hour)
          ∙ e in
        ground (arith, e, both, absent)
    | inr other ↦ ground (arith, e, other)
  ]
  | inr (b, e) ↦ ground (arith, e, count_one-find key own hour at buckets)
]

module _ (sha256 : Text → RowId) where
  issue-buckets :
      (p : Principal) (email : Text) (name : Option Text) (current : ℕ) (raw_token : Text)
      (row : Option Invitation) (bucket : Option Bucket) (t : Tables)
      → (request (issue sha256 p email name current raw_token row bucket) t).1.buckets ≡ (
          if returned (request (issue sha256 p email name current raw_token row bucket) t).0
          then count_issue (rate_key sha256 p.tenant_id) (hour_of current) bucket t.buckets
          else t.buckets)
  unfolding issue issue_rows write_row
  issue-buckets p email name current raw_token row bucket t = ground arith

  create_invitation-buckets :
      (p : Principal) (raw_email : Text) (name : Option Text) (current : ℕ) (raw_token : Text)
      (t : Tables)
      → ((request (create_invitation sha256 p raw_email name current raw_token) t).1.buckets ≡ (
          if returned (request (create_invitation sha256 p raw_email name current raw_token) t).0
          then count_issue
              (rate_key sha256 p.tenant_id)
              (hour_of current)
              (find? (is_bucket (rate_key sha256 p.tenant_id) (hour_of current)) t.buckets)
              t.buckets
          else t.buckets))
  unfolding create_invitation
  create_invitation-buckets p raw_email name current raw_token t =
      let email = normalize_email raw_email in
      let row = find? (is_invited p.tenant_id email) t.invitations in
      let bucket = find? (is_bucket (rate_key sha256 p.tenant_id) (hour_of current)) t.buckets in
      ground (arith, issue-buckets p email (clean_name name) current raw_token row bucket t)

  create_invitation-below :
      (p : Principal) (raw_email : Text) (name : Option Text) (current : ℕ) (raw_token : Text)
      (t : Tables)
      → returned (request (create_invitation sha256 p raw_email name current raw_token) t).0 ≡ true
      → bucket_count (rate_key sha256 p.tenant_id) (hour_of current) t.buckets < 10
  unfolding create_invitation bucket_count
  create_invitation-below p raw_email name current raw_token t h =
      elim (Option-cases
        (find? (is_bucket (rate_key sha256 p.tenant_id) (hour_of current)) t.buckets)) [
          | inl e ↦ ground (arith, e)
          | inr (b, e) ↦ ground (arith, e, h)
        ]

-- The n-th hour since the epoch, in microseconds.
hour_of_lem :
    (current n : ℕ)
    → n * 3600000000 ≤ current
    → current < n * 3600000000 + 3600000000
    → hour_of current ≡ n * 3600000000
unfolding hour_of
hour_of_lem current n low high = omega (arith, low, high)

revoke-buckets :
    (p : Principal) (id : RowId) (now : ℕ) (t : Tables)
    → (request (revoke p id now) t).1.buckets ≡ t.buckets
unfolding revoke
revoke-buckets p id now t = ground arith

one_more :
    (key own : RowId) (hour at : ℕ) (buckets : List Bucket) (after : ℕ) (counts : Bool)
    → after ≡ (if own == key && at == hour then 1 else 0) + bucket_count key hour buckets
    → bucket_count own at buckets < 10
    → bucket_count key hour buckets ≤ 10
    → (counts ≡ true → (own == key && at == hour) ≡ true)
    → (bucket_count key hour buckets + (if counts then 1 else 0) ≤ after) × (after ≤ 10)
one_more key own hour at buckets after counts grown below low same =
    elim (Bool-cases (own == key && at == hour)) [
      | inl both ↦
          let same_key : own ≡ key = ground (arith, both) in
          let same_hour : at ≡ hour = ground (arith, both) in
          let moved =
            ap (λ k. bucket_count k at buckets) same_key
            ∙ ap (λ h. bucket_count key h buckets) same_hour in
          ground (arith, grown, both, below, moved)
      | inr other ↦ ground (arith, grown, other, low, same)
    ]

-- The requests that write these tables, by anyone at any time.
pub data Call : Type 0 where
  invite : Principal → Text → Option Text → ℕ → Text → Call
  withdraw : Principal → RowId → ℕ → Call
  activation : Text → Text → RowId → ℕ → Call

module _ (sha256 : Text → RowId) (derive : Text → RowId → RowId) (encode : RowId → Text)
    (s : Settings) where
  accept_invitation-buckets :
      (token password : Text) (salt : RowId) (now : ℕ) (t : Tables)
      → (request (accept_invitation sha256 derive encode s token password salt now) t).1.buckets
        ≡ t.buckets
  unfolding accept_invitation accept_found activate
  accept_invitation-buckets token password salt now t = ground arith

  same_tenant_key :
      (tenant own : Text) (current n : ℕ) (fine : Bool)
      → (same_text own tenant
          && leb (n * 3600000000) current
          && ltb current (n * 3600000000 + 3600000000)
          && fine)
        ≡ true
      → (rate_key sha256 own == rate_key sha256 tenant && hour_of current == n * 3600000000) ≡ true
  same_tenant_key tenant own current n fine h =
      let same = same_text-eq own tenant (ground (arith, h)) in
      let at = hour_of_lem current n (ground (arith, h)) (ground (arith, h)) in
      ground (arith, h, at, ap (rate_key sha256) same)

  unfoldable pub serve : Call → Tables → Tables
  serve (invite p email name current token) t =
      (request (create_invitation sha256 p email name current token) t).1
  serve (withdraw p id now) t = (request (revoke p id now) t).1
  serve (activation token password salt now) t =
      (request (accept_invitation sha256 derive encode s token password salt now) t).1

  -- A call that issues an invitation of the tenant in the n-th hour since the epoch.
  unfoldable pub issued_in : Text → ℕ → Call → Tables → ℕ
  issued_in tenant n (invite p email name current token) t =
      if same_text p.tenant_id tenant
        && leb (n * 3600000000) current
        && ltb current (n * 3600000000 + 3600000000)
        && returned (request (create_invitation sha256 p email name current token) t).0
      then 1
      else 0
  issued_in tenant n _ t = 0

  unfoldable pub issued_total : Text → ℕ → List Call → Tables → ℕ
  issued_total tenant n [] t = 0
  issued_total tenant n (c ∷ cs) t = issued_in tenant n c t + issued_total tenant n cs (serve c t)

  serve-count :
      (tenant : Text) (n : ℕ) (c : Call) (t : Tables)
      → bucket_count (rate_key sha256 tenant) (n * 3600000000) t.buckets ≤ 10
      → (bucket_count (rate_key sha256 tenant) (n * 3600000000) t.buckets + issued_in tenant n c t
          ≤ bucket_count (rate_key sha256 tenant) (n * 3600000000) (serve c t).buckets)
        × (bucket_count (rate_key sha256 tenant) (n * 3600000000) (serve c t).buckets ≤ 10)
  unfolding serve issued_in
  serve-count tenant n (invite p email name current token) t low =
      let key = rate_key sha256 tenant in
      let own = rate_key sha256 p.tenant_id in
      let at = hour_of current in
      let outcome = request (create_invitation sha256 p email name current token) t in
      let buckets = create_invitation-buckets sha256 p email name current token t in
      elim (Bool-cases (returned outcome.0)) [
        | inr refused ↦
            let same : outcome.1.buckets ≡ t.buckets = ground (arith, buckets, refused) in
            ground (arith, ap (bucket_count key (n * 3600000000)) same, low, refused)
        | inl made ↦
            let more : outcome.1.buckets
                ≡ count_issue own at (find? (is_bucket own at) t.buckets) t.buckets =
              ground (arith, buckets, made) in
            let after =
              ap (bucket_count key (n * 3600000000)) more
              ∙ count_issue-count key own (n * 3600000000) at t.buckets in
            let below = create_invitation-below sha256 p email name current token t made in
            one_more key own (n * 3600000000) at t.buckets
              (bucket_count key (n * 3600000000) outcome.1.buckets) _ after below low
              (same_tenant_key tenant p.tenant_id current n (returned outcome.0))
      ]
  serve-count tenant n (withdraw p id now) t low =
      let same =
        ap (bucket_count (rate_key sha256 tenant) (n * 3600000000)) (revoke-buckets p id now t) in
      (omega (arith, same), omega (arith, same, low))
  serve-count tenant n (activation token password salt now) t low =
      let same =
        ap (bucket_count (rate_key sha256 tenant) (n * 3600000000))
          (accept_invitation-buckets token password salt now t) in
      (omega (arith, same), omega (arith, same, low))

  -- If the bucket of a tenant and the n-th hour since the epoch counts at most ten, then what it
  -- counts and the invitations of that tenant that any sequence of requests issues in the 3600
  -- seconds of that hour are together at most ten.
  pub issued_at_most_ten :
      (tenant : Text) (n : ℕ) (calls : List Call) (t : Tables)
      → bucket_count (rate_key sha256 tenant) (n * 3600000000) t.buckets ≤ 10
      → bucket_count (rate_key sha256 tenant) (n * 3600000000) t.buckets
          + issued_total tenant n calls t
        ≤ 10
  unfolding issued_total
  issued_at_most_ten tenant n [] t low = omega (arith, low)
  issued_at_most_ten tenant n (c ∷ cs) t low =
      let step = serve-count tenant n c t low in
      omega (arith, step.0, issued_at_most_ten tenant n cs (serve c t) step.1)
