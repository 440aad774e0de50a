-- ===== src/Orkio/Lease.antt =====
-- A run of src/glip/integrations/orkio/client.py against the lease that src/glip/config.py accepts.
use arquitech_glip_premium_b.Prelude.{
  pos, ℕ, zero, suc, ◌+◌, ◌*◌, ◌-◌, ◌≤◌, ◌≡◌, refl, [], arith, seconds, ok, Text, ◌⊎◌, inl, inr,
}
use native.Mathlib.Nat.{mul-le-mul_left}
use arquitech_glip_premium_b.Config.{Settings}
use arquitech_glip_premium_b.Config.Checks.{SplitResult, validate_modes}
use arquitech_glip_premium_b.Config.Laws.{validate-orkio, orkio_times_bounds}
use arquitech_glip_premium_b.Orkio.Request.{CapabilityRequest}
use arquitech_glip_premium_b.Orkio.Client.{Circuit, Reply, Run, power, attempts, draft}
use arquitech_glip_premium_b.Orkio.Cases.{draft_elim}
use arquitech_glip_premium_b.Orkio.Bounded.{total, attempts_posts, attempts_pauses, power_grows}

-- The time that the calls of a run may take and the pauses between them.
unfoldable pub time_bound : Settings → Run → ℕ
time_bound s run = s.orkio_timeout * run.posts + total run.pauses

module _ (s : Settings) (request : CapabilityRequest) (post : ℕ → Reply) (now later : ℕ)
    (created : Text) (c : Circuit) where
  Called : Run → Type 0
  Called run =
      ((run.posts ≡ 0) × (run.pauses ≡ []))
      ⊎ ((ready : Circuit) × (run ≡ attempts s request post later s.orkio_max_attempts 0 0 ready))

  draft-IsCalled : Called (draft s request post now later created c)
  unfolding Called
  draft-IsCalled =
      draft_elim s request post now later created c Called (λ e _. inl (refl, refl))
        (λ mock. inl (refl, refl)) (λ real ready _. inr (ready, refl))

  pub draft_posts : (draft s request post now later created c).posts ≤ s.orkio_max_attempts
  unfolding Called
  draft_posts = elim draft-IsCalled [
    | inl (h, _) ↦ ground (arith, h)
    | inr (ready, h) ↦
        ground (arith, h, attempts_posts s request post later s.orkio_max_attempts 0 0 ready)
  ]

  pub draft_pauses :
      (backoff : ℕ)
      → s.orkio_retry_backoff ≡ pos backoff
      → total (draft s request post now later created c).pauses + backoff
        ≤ backoff * power (s.orkio_max_attempts - 1)
  unfolding Called total power
  draft_pauses backoff sign = elim draft-IsCalled [
    | inl (_, h) ↦
        let grows = power_grows backoff 0 (s.orkio_max_attempts - 1) in ground (arith, h, grows)
    | inr (ready, h) ↦
        let bound =
          attempts_pauses s request post later s.orkio_max_attempts 0 0 ready backoff sign in
        ground (arith, h, bound)
  ]

-- A product of bounds that the two lemmas above give, with at most three attempts.
attempts_cost :
    (timeout backoff attempts posts pauses : ℕ)
    → 1 ≤ attempts
    → attempts ≤ 3
    → posts ≤ attempts
    → pauses + backoff ≤ backoff * power (attempts - 1)
    → (attempts ≤ 2) ⊎ (backoff ≤ seconds 9)
    → timeout * posts + pauses ≤ timeout * attempts + backoff * (attempts - 1) + seconds 9
unfolding power
attempts_cost timeout backoff zero posts pauses low high p q limit = omega (arith, low)
attempts_cost timeout backoff (suc zero) posts pauses low high p q limit =
    omega (arith, q, mul-le-mul_left timeout p)
attempts_cost timeout backoff (suc (suc zero)) posts pauses low high p q limit =
    omega (arith, q, mul-le-mul_left timeout p)
attempts_cost timeout backoff (suc (suc (suc zero))) posts pauses low high p q (inl few) =
    omega (arith, few)
attempts_cost timeout backoff (suc (suc (suc zero))) posts pauses low high p q (inr short) =
    omega (arith, q, short, mul-le-mul_left timeout p)
attempts_cost timeout backoff (suc (suc (suc (suc n)))) posts pauses low high p q limit =
    omega (arith, high)

-- With settings that the validation accepts, a backoff that is not negative, and either at most
-- two attempts or a first pause of at most nine seconds, the calls of a run, each no longer than
-- its timeout, and the pauses between them end within the lease of the execution.
pub draft_within_lease :
    (urlsplit : Text → SplitResult) (given s : Settings) (request : CapabilityRequest)
    (post : ℕ → Reply) (now later : ℕ) (created : Text) (c : Circuit) (backoff : ℕ)
    → validate_modes urlsplit given ≡ ok s
    → s.orkio_retry_backoff ≡ pos backoff
    → (s.orkio_max_attempts ≤ 2) ⊎ (backoff ≤ 9 * 1000000)
    → time_bound s (draft s request post now later created c)
      ≤ s.orkio_execution_lease_seconds * 1000000
unfolding time_bound
draft_within_lease urlsplit given s request post now later created c backoff valid sign limit =
    let bounds = orkio_times_bounds s backoff sign (validate-orkio urlsplit given s valid).2 in
    let posts = draft_posts s request post now later created c in
    let pauses = draft_pauses s request post now later created c backoff sign in
    omega (
      arith,
      bounds,
      attempts_cost s.orkio_timeout backoff s.orkio_max_attempts _ _ bounds.0 bounds.1 posts pauses
          limit,
    )
