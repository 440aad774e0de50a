-- ===== src/Bim/Exclusive.antt =====
-- Who works on a job of src/glip/bim/service.py, and how its work ends.
use arquitech_glip_premium_b.Prelude.{
  any, none, ◌*◌, ℕ, ◌+◌, ◌≡◌, ◌≤◌, refl, ap, sym, ◌∙◌, Bool, true, false, not, ◌&&◌, some, List,
  [], ◌∷◌, ◌==◌, update_where, ok, request, RowId, arith, Option-cases, Bool-cases, inl, inr,
}
use arquitech_glip_premium_b.Bim.Data.{Job, Tables, BimSettings}
use arquitech_glip_premium_b.Bim.Queue.{
  has_expired, is_claimable, find_oldest, take_job, claim_next_bim_job, next_job,
}

find_oldest-holds :
    (p : Job → Bool) (js : List Job) (j : Job) → find_oldest p js ≡ some j → p j ≡ true
unfolding find_oldest
find_oldest-holds p [] j h = cc
find_oldest-holds p (x ∷ xs) j h = elim (Option-cases (find_oldest p xs)) [
  | inl e ↦ elim (Bool-cases (p x)) [
    | inl fits ↦ let same : x ≡ j = ground (arith, e, fits, h) in ap p (sym same) ∙ fits
    | inr misfit ↦ ground (arith, e, misfit, h)
  ]
  | inr (older, e) ↦ find_oldest-holds p xs j (ground (arith, e, h))
]

-- What holds of no row does not hold of the row that is found.
find_oldest-any :
    (p q : Job → Bool) (js : List Job) (j : Job)
    → find_oldest p js ≡ some j
    → any q js ≡ false
    → q j ≡ false
unfolding find_oldest
find_oldest-any p q [] j h absent = cc
find_oldest-any p q (x ∷ xs) j h absent = elim (Option-cases (find_oldest p xs)) [
  | inr (older, e) ↦ find_oldest-any p q xs j (ground (arith, e, h)) (ground (arith, absent))
  | inl e ↦ elim (Bool-cases (p x)) [
    | inl fits ↦
        let same : x ≡ j = ground (arith, e, fits, h) in ap q (sym same) ∙ ground (arith, absent)
    | inr misfit ↦ ground (arith, e, misfit, h)
  ]
]

-- A rewriting of the rows of an id under which a test holds of none of them.
rewritten_hidden :
    (p : Job → Bool) (f : Job → Job) (id : RowId) (js : List Job)
    → ((x : Job) → p (f x) ≡ false)
    → ((x : Job) → (x.id == id) ≡ false → p x ≡ false)
    → any p (update_where (λ x. x.id == id) f js) ≡ false
rewritten_hidden p f id [] hides apart = refl
rewritten_hidden p f id (x ∷ xs) hides apart =
    let rest = rewritten_hidden p f id xs hides apart in
    elim (Bool-cases (x.id == id)) [
      | inl own ↦ ground (arith, own, hides x, rest)
      | inr other ↦ ground (arith, other, apart x other, rest)
    ]

-- A rewriting under which a test of each row stays false or becomes so.
kept_hidden :
    (p q : Job → Bool) (f : Job → Job) (js : List Job)
    → ((x : Job) → q x ≡ true → p (f x) ≡ false)
    → any p js ≡ false
    → any p (update_where q f js) ≡ false
kept_hidden p q f [] hides absent = refl
kept_hidden p q f (x ∷ xs) hides absent =
    let rest = kept_hidden p q f xs hides (ground (arith, absent)) in
    elim (Bool-cases (q x)) [
      | inl hit ↦ ground (arith, hit, hides x hit, rest)
      | inr miss ↦ ground (arith, miss, absent, rest)
    ]

take_job-id :
    (settings : BimSettings) (worker : RowId) (now : ℕ) (x : Job)
    → (take_job settings worker now x).id ≡ x.id
unfolding take_job
take_job-id settings worker now x = refl

next_job-found :
    (settings : BimSettings) (worker : RowId) (now : ℕ) (locked : RowId → Bool) (t after : Tables)
    (j : Job)
    → request (next_job settings worker now locked) t ≡ (ok (some j), after)
    → (held : Job) × (find_oldest (λ x. is_claimable now x && not (locked x.id)) t.jobs ≡ some held)
      × (j ≡ take_job settings worker now held)
      × (after.jobs ≡ update_where (λ x. x.id == held.id) (take_job settings worker now) t.jobs)
unfolding next_job claim_next_bim_job
next_job-found settings worker now locked t after j h =
    elim (Option-cases (find_oldest (λ x. is_claimable now x && not (locked x.id)) t.jobs)) [
      | inl e ↦ ground (arith, e, h)
      | inr (held, e) ↦ (held, e, ground (arith, e, h), ground (arith, e, h))
    ]

-- Claims by any workers at any times up to one, one after another, each committed.
pub data Claims (settings : BimSettings) (until : ℕ) (t : Tables) : Tables → Type 0 where
  start : Claims settings until t t
  claim :
      {u : Tables} (worker : RowId) (now : ℕ) (locked : RowId → Bool)
      → Claims settings until t u
      → now ≤ until
      → Claims settings until t (request (next_job settings worker now locked) u).1

-- No claim up to a time can take a job of the id.
unfoldable Hidden : RowId → ℕ → Tables → Type 0
Hidden id until t =
    (now : ℕ) → now ≤ until → any (λ x. x.id == id && is_claimable now x) t.jobs ≡ false

module _ (settings : BimSettings) (worker : RowId) (now : ℕ) (locked : RowId → Bool) where
  next_job-none :
      (t : Tables)
      → find_oldest (λ x. is_claimable now x && not (locked x.id)) t.jobs ≡ none
      → (request (next_job settings worker now locked) t).1.jobs ≡ t.jobs
  unfolding next_job claim_next_bim_job
  next_job-none t e = ground (arith, e)

  next_job-some :
      (t : Tables) (held : Job)
      → find_oldest (λ x. is_claimable now x && not (locked x.id)) t.jobs ≡ some held
      → (request (next_job settings worker now locked) t).1.jobs
        ≡ update_where (λ x. x.id == held.id) (take_job settings worker now) t.jobs
  unfolding next_job claim_next_bim_job
  next_job-some t held e = ground (arith, e)

  taken_hidden :
      (next : ℕ)
      → next ≤ now + settings.bim_job_lease_seconds * 1000000
      → (x : Job) → is_claimable next (take_job settings worker now x) ≡ false
  unfolding is_claimable has_expired take_job
  taken_hidden next soon x = ground (arith, soon)

  -- A job that can be claimed now is another one, and it is all that is rewritten.
  claim-Hidden :
      (id : RowId) (until : ℕ) (t : Tables)
      → now ≤ until
      → Hidden id until t
      → Hidden id until (request (next_job settings worker now locked) t).1
  unfolding Hidden take_job
  claim-Hidden id until t early hidden next soon =
      let p = λ (x : Job). x.id == id && is_claimable next x in
      elim (Option-cases (find_oldest (λ x. is_claimable now x && not (locked x.id)) t.jobs)) [
        | inl e ↦ ap (any p) (next_job-none t e) ∙ hidden next soon
        | inr (held, e) ↦
            let fits = find_oldest-holds _ t.jobs held e in
            let shut = find_oldest-any _ _ t.jobs held e (hidden now early) in
            let apart : (held.id == id) ≡ false = ground (arith, fits, shut) in
            ap (any p) (next_job-some t held e)
            ∙ kept_hidden p (λ x. x.id == held.id) (take_job settings worker now) t.jobs
                (λ x own. ground (arith, own, apart)) (hidden next soon)
      ]

Claims-Hidden :
    {settings : BimSettings} {until : ℕ} {t u : Tables} (id : RowId)
    → Claims settings until t u
    → Hidden id until t
    → Hidden id until u
Claims-Hidden id start h = h
Claims-Hidden {settings} {until} id (claim worker now locked w early) h =
    claim-Hidden settings worker now locked id until _ early (Claims-Hidden id w h)

module _ (settings : BimSettings) (worker next_worker : RowId) (now next : ℕ)
    (locked next_locked : RowId → Bool) (t after u later : Tables) (j k : Job) where
  first-Hidden :
      request (next_job settings worker now locked) t ≡ (ok (some j), after)
      → Hidden j.id (now + settings.bim_job_lease_seconds * 1000000) after
  unfolding Hidden take_job
  first-Hidden first at soon =
      let (held, _, taken, rows) = next_job-found settings worker now locked t after j first in
      let id : j.id ≡ held.id = ap (λ x. x.id) taken ∙ take_job-id settings worker now held in
      let p = λ (x : Job). x.id == j.id && is_claimable at x in
      ap (any p) rows
      ∙ rewritten_hidden p (take_job settings worker now) held.id t.jobs
          (λ x. ground (arith, taken_hidden settings worker now locked at soon x))
          (λ x other. ground (arith, other, id))

  -- If a worker has claimed a job, and any workers have made any number of further claims up to
  -- the end of that lease, then a claim by any worker up to that end returns another job or none,
  -- whichever rows other transactions hold.
  pub claim_exclusive :
      request (next_job settings worker now locked) t ≡ (ok (some j), after)
      → Claims settings (now + settings.bim_job_lease_seconds * 1000000) after u
      → request (next_job settings next_worker next next_locked) u ≡ (ok (some k), later)
      → next ≤ now + settings.bim_job_lease_seconds * 1000000
      → (k.id == j.id) ≡ false
  unfolding Hidden
  claim_exclusive first claims second soon =
      let (chosen, found, same, _) =
        next_job-found settings next_worker next next_locked u later k second in
      let next_id : k.id ≡ chosen.id =
        ap (λ x. x.id) same ∙ take_job-id settings next_worker next chosen in
      let shut =
        find_oldest-any _ _ u.jobs chosen found
          (Claims-Hidden j.id claims (first-Hidden first) next soon) in
      let fits = find_oldest-holds _ u.jobs chosen found in ground (arith, shut, fits, next_id)
