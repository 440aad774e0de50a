-- ===== src/Orkio/Bounded.antt =====
-- How long a run of src/glip/integrations/orkio/client.py may take.
use arquitech_glip_premium_b.Prelude.{
  pos, ℕ, zero, suc, ◌+◌, ◌*◌, ◌-◌, ◌≤◌, ◌≡◌, List, [], ◌∷◌, arith, sym, ap, ◌∙◌,
}
use native.Mathlib.Nat.{mul_left_comm, add-zero}
use arquitech_glip_premium_b.Config.{Settings}
use arquitech_glip_premium_b.Orkio.Request.{CapabilityRequest}
use arquitech_glip_premium_b.Orkio.Client.{
  Circuit, Reply, power, exhausted, sleep_then, attempts, after_round,
}

unfoldable pub total : List ℕ → ℕ
total [] = 0
total (x ∷ xs) = x + total xs

power_pos : (n : ℕ) → 1 ≤ power n
unfolding power
power_pos zero = omega arith
power_pos (suc n) = grind (arith, power_pos n)

power_suc : (n : ℕ) → power (n + 1) ≡ 2 * power n
unfolding power
power_suc n = ap power suc_eq
  where
    suc_eq : n + 1 ≡ suc n
    suc_eq = omega arith

pub power_double : (b n : ℕ) → b * power (n + 1) ≡ 2 * (b * power n)
power_double b n = ap (λ p. b * p) (power_suc n) ∙ mul_left_comm b 2 (power n)

pub power_grows : (b n k : ℕ) → b * power n ≤ b * power (n + k)
power_grows b n zero = omega (arith, ap (λ m. b * power m) (sym (add-zero n)))
power_grows b n (suc k) =
    let shift : n + suc k ≡ n + k + 1 = omega arith in
    omega (arith, power_grows b n k, power_double b (n + k), ap (λ m. b * power m) shift)

module _ (s : Settings) (request : CapabilityRequest) (post : ℕ → Reply) (later : ℕ) where
  pub attempts_posts :
      (left attempt retries : ℕ) (c : Circuit)
      → (attempts s request post later left attempt retries c).posts ≤ attempt + left
  unfolding attempts after_round exhausted sleep_then
  attempts_posts zero attempt retries c = omega arith
  attempts_posts (suc left) attempt retries c =
      ground (arith, attempts_posts left (attempt + 1) (retries + 1) c)

  -- A pause is made only before another call: the pauses are backoff * 2 ^ i in turn, and end below
  -- the limit.
  pub attempts_pauses :
      (left attempt retries : ℕ) (c : Circuit) (backoff : ℕ)
      → s.orkio_retry_backoff ≡ pos backoff
      → attempt + left ≡ s.orkio_max_attempts
      → total (attempts s request post later left attempt retries c).pauses
          + backoff * power attempt
        ≤ backoff * power (attempt + (left - 1))
  unfolding attempts after_round exhausted total sleep_then
  attempts_pauses zero attempt retries c backoff sign e =
      ground (arith, power_grows backoff attempt 0)
  attempts_pauses (suc zero) attempt retries c backoff sign e = ground (arith, sign, e)
  attempts_pauses (suc (suc l)) attempt retries c backoff sign e =
      let here = power_grows backoff attempt (suc l) in
      let next : attempt + 1 + suc l ≡ s.orkio_max_attempts = omega (arith, e) in
      let rest = attempts_pauses (suc l) (attempt + 1) (retries + 1) c backoff sign next in
      let shift : attempt + 1 + (suc l - 1) ≡ attempt + (suc (suc l) - 1) = omega arith in
      ground (
        arith,
        sign,
        e,
        here,
        rest,
        power_double backoff attempt,
        ap (λ m. backoff * power m) shift,
      )
