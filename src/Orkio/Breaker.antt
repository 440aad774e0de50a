-- ===== src/Orkio/Breaker.antt =====
-- The circuit breaker of src/glip/integrations/orkio/client.py across runs.
use arquitech_glip_premium_b.Prelude.{
  ℕ, zero, suc, ◌+◌, ◌<◌, ◌≡◌, refl, ap, sym, ◌∙◌, Bool, true, false, Option, none, some, [], ◌∷◌,
  one_of, some-injective, if◌then◌else◌, leb, ltb, arith, Result, ok, err, Text, same_text, codes,
  if_elim, subst, ℤ, pos, negsuc,
}
use arquitech_glip_premium_b.Config.{Settings}
use arquitech_glip_premium_b.Orkio.Json.{Value}
use arquitech_glip_premium_b.Orkio.Request.{CapabilityRequest}
use arquitech_glip_premium_b.Orkio.Response.{Normalized, Raised, violation, type_error}
use arquitech_glip_premium_b.Orkio.Client.{
  Circuit, Reply, status, timeout_or_network, other_exception, Run, Round, done, stop, stop_counted,
  again, give_up, round, attempts, after_round, called, exhausted, sleep_then, draft, draft_mock,
  mock_result, circuit_before_call, circuit_failure, HttpFailureClass, auth_terminal,
  contract_terminal, upstream_terminal, retryable_transient, classify_http_failure, refused, judged,
  answered,
}
use arquitech_glip_premium_b.Orkio.Cases.{is_request_failed, draft_elim}

unfoldable pub is_open : Settings → ℕ → Circuit → Bool
is_open s now c =
    if ltb c.failures s.orkio_circuit_failure_threshold
    then false
    else ltb now (c.opened_at + s.orkio_circuit_cooldown)

open_refuses :
    (s : Settings) (now : ℕ) (c : Circuit)
    → is_open s now c ≡ true
    → circuit_before_call s now c ≡ none
unfolding is_open circuit_before_call
open_refuses s now c h = ground (arith, h)

-- While the breaker is open, no call is made, and it stays as it is.
pub open_breaker :
    (s : Settings) (request : CapabilityRequest) (post : ℕ → Reply) (now later : ℕ) (created : Text)
    (c : Circuit)
    → is_open s now c ≡ true
    → ((draft s request post now later created c).posts ≡ 0)
      × ((draft s request post now later created c).circuit ≡ c)
unfolding draft called
open_breaker s request post now later created c h = ground (arith, open_refuses s now c h)

-- A round that ends the loop at once does not say that the request failed.
unfoldable stops_failed : Round → Bool
stops_failed (stop e) = is_request_failed (err e)
stops_failed _ = false

refused_otherwise : (c : HttpFailureClass) (code : ℕ) → stops_failed (refused c code) ≡ false
unfolding refused stops_failed same_text
refused_otherwise auth_terminal code = refl
refused_otherwise contract_terminal code = refl
refused_otherwise upstream_terminal code = refl
refused_otherwise retryable_transient code = refl

judged_otherwise :
    (upstream : Value) (r : Result Raised Normalized) → stops_failed (judged upstream r) ≡ false
unfolding judged stops_failed
judged_otherwise upstream (ok n) = refl
judged_otherwise upstream (err (violation v)) = refl
judged_otherwise upstream (err type_error) = refl

answered_otherwise :
    (s : Settings) (request : CapabilityRequest) (body : Option Value)
    → stops_failed (answered s request body) ≡ false
unfolding answered stops_failed
answered_otherwise s request none = refl
answered_otherwise s request (some upstream) = judged_otherwise upstream _

round_otherwise :
    (s : Settings) (request : CapabilityRequest) (reply : Reply)
    → stops_failed (round s request reply) ≡ false
unfolding round stops_failed
round_otherwise s request timeout_or_network = refl
round_otherwise s request other_exception = refl
round_otherwise s request (status code body) =
    if_elim (λ ended. stops_failed ended ≡ false) (leb 400 code)
      (refused_otherwise (classify_http_failure code) code) (answered_otherwise s request body)

module _ (s : Settings) (request : CapabilityRequest) (post : ℕ → Reply) (later : ℕ) where
  -- A run that failed for want of an answer has counted it.
  unfoldable Counted : Circuit → Run → Type 0
  Counted c run = is_request_failed run.outcome ≡ true → run.circuit ≡ circuit_failure s later c

  sleep_then-Counted :
      (attempt : ℕ) (c : Circuit) (retry : Run) (backoff : ℤ)
      → Counted c retry
      → Counted c (sleep_then s request post later attempt c retry backoff)
  unfolding sleep_then Counted
  sleep_then-Counted attempt c retry (pos b) ih h = ih h
  sleep_then-Counted attempt c retry (negsuc n) ih h = cc

  after_round-Counted :
      (attempt retries : ℕ) (c : Circuit) (retry : Run) (ended : Round)
      → Counted c retry
      → stops_failed ended ≡ false
      → Counted c (after_round s request post later attempt retries c retry ended)
  unfolding after_round exhausted Counted stops_failed
  after_round-Counted attempt retries c retry (done n u) ih other h = cc
  after_round-Counted attempt retries c retry (stop e) ih other h = cc (other, h)
  after_round-Counted attempt retries c retry (stop_counted e) ih other h = refl
  after_round-Counted attempt retries c retry again ih other h =
      if_elim
        (λ (run : Run).
          (is_request_failed run.outcome ≡ true) → run.circuit ≡ circuit_failure s later c)
        (leb s.orkio_max_attempts (attempt + 1)) (λ failed. refl)
        (sleep_then-Counted attempt c retry s.orkio_retry_backoff ih) h
  after_round-Counted attempt retries c retry give_up ih other h = refl

  attempts-Counted :
      (left attempt retries : ℕ) (c : Circuit)
      → Counted c (attempts s request post later left attempt retries c)
  unfolding attempts exhausted Counted
  attempts-Counted zero attempt retries c h = refl
  attempts-Counted (suc left) attempt retries c h =
      after_round-Counted attempt retries c _ _
        (attempts-Counted left (attempt + 1) (retries + 1) c)
        (round_otherwise s request (post attempt)) h

mock_result_otherwise :
    (upstream : Value) (judgement : Result Raised Normalized)
    → is_request_failed (mock_result upstream judgement) ≡ false
unfolding mock_result
mock_result_otherwise upstream (ok n) = refl
mock_result_otherwise upstream (err raised) = refl

mock_otherwise :
    (s : Settings) (request : CapabilityRequest) (created : Text)
    → is_request_failed (draft_mock s request created) ≡ false
unfolding draft_mock mock_result same_text
mock_otherwise s request created =
    if_elim (λ result. is_request_failed result ≡ false)
      (one_of s.environment (codes "development" ∷ codes "test" ∷ [])) (mock_result_otherwise _ _)
      refl

closed_passes :
    (s : Settings) (now : ℕ) (c : Circuit)
    → ltb c.failures s.orkio_circuit_failure_threshold ≡ true
    → circuit_before_call s now c ≡ some c
unfolding circuit_before_call
closed_passes s now c closed = cc (closed)

draft-failed_circuit :
    (s : Settings) (request : CapabilityRequest) (post : ℕ → Reply) (now later : ℕ) (created : Text)
    (c : Circuit)
    → ltb c.failures s.orkio_circuit_failure_threshold ≡ true
    → is_request_failed (draft s request post now later created c).outcome ≡ true
    → (draft s request post now later created c).circuit ≡ circuit_failure s later c
unfolding Counted
draft-failed_circuit s request post now later created c closed =
    draft_elim s request post now later created c (Counted s request post later c)
      (λ e other h. cc (other, h)) (λ mock h. cc (mock_otherwise s request created, h))
      (λ real ready starts.
        let same : c ≡ ready = some-injective (sym (closed_passes s now c closed) ∙ starts) in
        subst
          (λ from.
            Counted s request post later c
              (attempts s request post later s.orkio_max_attempts 0 0 from))
          same (attempts-Counted s request post later s.orkio_max_attempts 0 0 c))

-- If a run ends in orkio_request_failed and this failure reaches the limit, then a run that starts
-- before the cooldown has passed makes no call, whatever its request is.
pub breaker_trips :
    (s : Settings) (request next_request : CapabilityRequest) (post next_post : ℕ → Reply)
    (now later next next_later : ℕ) (created next_created : Text) (c : Circuit)
    → c.failures + 1 ≡ s.orkio_circuit_failure_threshold
    → is_request_failed (draft s request post now later created c).outcome ≡ true
    → next < later + s.orkio_circuit_cooldown
    → (draft s next_request next_post next next_later next_created
        (draft s request post now later created c).circuit).posts
      ≡ 0
unfolding is_open circuit_failure
breaker_trips s request next_request post next_post now later next next_later created next_created c
      limit failed early =
    let run = draft s request post now later created c in
    let closed : ltb c.failures s.orkio_circuit_failure_threshold ≡ true = ground (arith, limit) in
    let counted = draft-failed_circuit s request post now later created c closed failed in
    let opened : is_open s next (circuit_failure s later c) ≡ true = ground (arith, limit, early) in
    (open_breaker s next_request next_post next next_later next_created run.circuit
      (ap (is_open s next) counted ∙ opened)).0
