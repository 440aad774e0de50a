-- ===== src/Config/Laws.antt =====
-- What the validated settings of src/glip/config.py guarantee.
use arquitech_glip_premium_b.Prelude.{
  ℕ, pos, ◌+◌, ◌*◌, ◌-◌, ◌≤◌, ◌≡◌, ap, sym, ◌∙◌, arith, ok, Text, seconds,
}
use arquitech_glip_premium_b.Prelude.Results.{>>-ok, ok-injective}
use arquitech_glip_premium_b.Config.{Settings}
use arquitech_glip_premium_b.Config.Checks.{
  needed_time, SplitResult, outside, normalized_database_url, minimum_lease, check_deployment,
  check_auth, check_orkio_mode, check_orkio_times, check_visual, check_storage, check_engines,
  check_artifacts, check_modes, validate_modes,
}

-- The tests of the ORKIO settings that every validated configuration has passed.
pub validate-orkio :
    (urlsplit : Text → SplitResult) (given s : Settings)
    → validate_modes urlsplit given ≡ ok s
    → (check_auth s ≡ ok tt) × (check_orkio_mode s ≡ ok tt) × (check_orkio_times s ≡ ok tt)
unfolding validate_modes
validate-orkio urlsplit given s h =
    let v : Settings = record given { database_url = normalized_database_url given.database_url } in
    let after_deployment = >>-ok (check_deployment v) h in
    let after_auth = >>-ok (check_auth v) after_deployment.1 in
    let after_mode = >>-ok (check_orkio_mode v) after_auth.1 in
    let after_times = >>-ok (check_orkio_times v) after_mode.1 in
    let after_visual = >>-ok (check_visual v) after_times.1 in
    let after_storage = >>-ok (check_storage urlsplit v) after_visual.1 in
    let after_engines = >>-ok (check_engines v) after_storage.1 in
    let after_artifacts = >>-ok (check_artifacts v) after_engines.1 in
    let after_modes = >>-ok (check_modes v) after_artifacts.1 in
    let same : v ≡ s = ok-injective after_modes.1 in
    (
      ap check_auth (sym same) ∙ after_auth.0,
      ap check_orkio_mode (sym same) ∙ after_mode.0,
      ap check_orkio_times (sym same) ∙ after_times.0,
    )

-- Between one and three attempts, and a lease of at least the time that `minimum_lease` counts.
pub orkio_times_bounds :
    (s : Settings) (backoff : ℕ)
    → s.orkio_retry_backoff ≡ pos backoff
    → check_orkio_times s ≡ ok tt
    → (1 ≤ s.orkio_max_attempts)
      × (s.orkio_max_attempts ≤ 3)
      × (s.orkio_timeout * s.orkio_max_attempts + backoff * (s.orkio_max_attempts - 1) + seconds 9
          ≤ seconds s.orkio_execution_lease_seconds)
unfolding check_orkio_times outside minimum_lease needed_time
orkio_times_bounds s backoff e h = ground (arith, e, h)
