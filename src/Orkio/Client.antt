-- ===== src/Orkio/Client.antt =====
-- src/glip/integrations/orkio/client.py: the circuit breaker and `draft`; and retry_policy.py:
-- `classify_http_failure`. The HTTP client is the parameter `post`: what the i-th call of a run gets.
-- `now` is the monotonic clock when the run starts, `later` when it records a failure.
use arquitech_glip_premium_b.Prelude.{
  ℤ, pos, negsuc, ℕ, zero, suc, ◌+◌, ◌*◌, true, false, not, ◌||◌, Option, none, some, List, [], ◌∷◌,
  ◌==◌, if◌then◌else◌, leb, ltb, any, Result, ok, err, Text, codes, same_text, one_of, is_empty,
  String, ◌++◌, strip,
}
use arquitech_glip_premium_b.Config.{Settings}
use arquitech_glip_premium_b.Orkio.Json.{
  Value, null, boolean, number, text, object, items_of, array, fields_of,
}
use arquitech_glip_premium_b.Orkio.Request.{Violation, broken, CapabilityRequest}
use arquitech_glip_premium_b.Orkio.Response.{
  Normalized, Raised, violation, type_error, validate_draft_response,
}

pub data HttpFailureClass : Type 0 where
  auth_terminal contract_terminal retryable_transient upstream_terminal : HttpFailureClass

unfoldable pub auth_terminal_statuses : List ℕ
auth_terminal_statuses = 401 ∷ 403 ∷ []

unfoldable pub contract_terminal_statuses : List ℕ
contract_terminal_statuses = 400 ∷ 404 ∷ 409 ∷ 410 ∷ 412 ∷ 415 ∷ 422 ∷ []

unfoldable pub retryable_transient_statuses : List ℕ
retryable_transient_statuses = 408 ∷ 429 ∷ 502 ∷ 503 ∷ 504 ∷ []

unfoldable pub classify_http_failure : ℕ → HttpFailureClass
classify_http_failure status_code =
    if any (λ s. s == status_code) auth_terminal_statuses
    then auth_terminal
    else if any (λ s. s == status_code) contract_terminal_statuses
    then contract_terminal
    else if any (λ s. s == status_code) retryable_transient_statuses
    then retryable_transient
    else upstream_terminal

-- `_failures` and `_opened_at`
pub record Circuit : Type 0 where
  pub failures : ℕ
  pub opened_at : ℕ

-- `OrkioAdapterError` by its text; `escaped` is an exception of another class.
pub data AdapterError : Type 0 where
  adapter : String → AdapterError
  rejected : String → ℕ → AdapterError
  contract : Violation → AdapterError
  negative_sleep : AdapterError
  escaped : Raised → AdapterError

-- What `http.post` and `response.json()` do: a status with its body, where `none` is a body that is
-- no JSON; a timeout or a network error; or any other exception.
pub data Reply : Type 0 where
  status : ℕ → Option Value → Reply
  timeout_or_network : Reply
  other_exception : Reply

pub record AdapterResult : Type 0 where
  pub normalized : Normalized
  pub upstream : Value
  pub retry_count : ℕ

-- A run of `draft`: its outcome, the circuit afterwards, the calls made and the pauses between them.
pub record Run : Type 0 where
  pub outcome : Result AdapterError AdapterResult
  pub circuit : Circuit
  pub posts : ℕ
  pub pauses : List ℕ

abbrev pub closed_circuit : Circuit
closed_circuit = record { failures = 0; opened_at = 0 }

-- `monotonic() - opened_at` is exact: the clock does not run backwards.
unfoldable pub circuit_before_call : Settings → ℕ → Circuit → Option Circuit
circuit_before_call s now c =
    if ltb c.failures s.orkio_circuit_failure_threshold
    then some c
    else if leb (c.opened_at + s.orkio_circuit_cooldown) now
    then some closed_circuit
    else none

unfoldable pub circuit_failure : Settings → ℕ → Circuit → Circuit
circuit_failure s now c =
    if leb s.orkio_circuit_failure_threshold (c.failures + 1)
    then record c { failures = c.failures + 1; opened_at = now }
    else record c { failures = c.failures + 1 }

-- What one round of the loop comes to.
pub data Round : Type 0 where
  done : Normalized → Value → Round
  stop : AdapterError → Round
  stop_counted : AdapterError → Round
  again : Round
  give_up : Round

-- A status of at least 400.
unfoldable pub refused : HttpFailureClass → ℕ → Round
refused auth_terminal code = stop (adapter "orkio_auth_rejected")
refused contract_terminal code = stop (rejected "orkio_upstream_contract_rejected" code)
refused upstream_terminal code = stop_counted (rejected "orkio_upstream_terminal" code)
refused retryable_transient code = again

-- A body, once it is validated.
unfoldable pub judged : Value → Result Raised Normalized → Round
judged upstream (ok normalized) = done normalized upstream
judged upstream (err (violation v)) = stop (contract v)
judged upstream (err type_error) = give_up

unfoldable pub answered : Settings → CapabilityRequest → Option Value → Round
answered s request none = stop (contract (broken "orkio_contract_invalid_json"))
answered s request (some upstream) =
    judged upstream
      (validate_draft_response upstream s.orkio_response_contract_version request (codes "orkio"))

unfoldable pub round : Settings → CapabilityRequest → Reply → Round
round s request timeout_or_network = again
round s request other_exception = give_up
round s request (status code body) =
    if leb 400 code then refused (classify_http_failure code) code else answered s request body

-- `2 ** attempt`
unfoldable pub power : ℕ → ℕ
power zero = 1
power (suc n) = 2 * power n

module _ (s : Settings) (request : CapabilityRequest) (post : ℕ → Reply) (later : ℕ) where
  -- What follows the loop.
  unfoldable pub exhausted : Circuit → ℕ → Run
  exhausted c posts = record {
    outcome = err (adapter "orkio_request_failed");
    circuit = circuit_failure s later c;
    posts = posts;
    pauses = [];
  }

  abbrev pub finished : Result AdapterError AdapterResult → Circuit → ℕ → Run
  finished outcome c posts = record { outcome = outcome; circuit = c; posts = posts; pauses = [] }

  abbrev pub paused : ℕ → Run → Run
  paused pause run = record run { pauses = pause ∷ run.pauses }

  -- `sleep(orkio_retry_backoff_seconds * 2 ** attempt)` before the next round: `sleep` refuses a
  -- negative time with a `ValueError`, which nothing here catches.
  unfoldable pub sleep_then : ℕ → Circuit → Run → ℤ → Run
  sleep_then attempt c retry (pos backoff) = paused (backoff * power attempt) retry
  sleep_then attempt c retry (negsuc n) = finished (err negative_sleep) c (attempt + 1)

  -- The end of a round: the last argument but one is the run that the next round would give.
  unfoldable pub after_round : ℕ → ℕ → Circuit → Run → Round → Run
  after_round attempt retry_count c retry (done normalized upstream) =
      finished
        (ok (record { normalized = normalized; upstream = upstream; retry_count = retry_count }))
        closed_circuit (attempt + 1)
  after_round attempt retry_count c retry (stop e) = finished (err e) c (attempt + 1)
  after_round attempt retry_count c retry (stop_counted e) =
      finished (err e) (circuit_failure s later c) (attempt + 1)
  after_round attempt retry_count c retry again =
      if leb s.orkio_max_attempts (attempt + 1)
      then exhausted c (attempt + 1)
      else sleep_then attempt c retry s.orkio_retry_backoff
  after_round attempt retry_count c retry give_up = exhausted c (attempt + 1)

  -- `for attempt in range(...)`: the first argument is how many rounds are left. Every pause is
  -- followed by one more retry, so `retry_count` is the number of the attempt.
  unfoldable pub attempts : ℕ → ℕ → ℕ → Circuit → Run
  attempts zero attempt retry_count c = exhausted c attempt
  attempts (suc left) attempt retry_count c =
      after_round attempt retry_count c (attempts left (attempt + 1) (retry_count + 1) c)
        (round s request (post attempt))

  -- The calls, when `_circuit_before_call` lets them through.
  unfoldable pub called : Circuit → Option Circuit → Run
  called c none = finished (err (adapter "orkio_circuit_open")) c 0
  called c (some ready) = attempts s.orkio_max_attempts 0 0 ready

-- `_mock`
unfoldable pub mock_reply : Settings → CapabilityRequest → Text → Value
mock_reply s r created_at = object (
    fields_of (
      (codes "schema_version", text s.orkio_response_contract_version)
      ∷ (codes "message_id", text (codes "mock-" ++ r.execution_id))
      ∷ (codes "request_id", text r.request_id)
      ∷ (codes "execution_id", text r.execution_id)
      ∷ (codes "correlation_id", text r.correlation_id)
      ∷ (codes "tenant_id", text r.tenant_id)
      ∷ (codes "source_platform", text (codes "orkio"))
      ∷ (codes "agent_id", text (codes "orkio"))
      ∷ (codes "agent_name", text (codes "Orkio"))
      ∷ (codes "display_name", text (codes "Orkio"))
      ∷ (codes "final_speaker", text (codes "Orkio"))
      ∷ (codes "turn_owner", text (codes "orkio"))
      ∷ (codes "ownership_locked", boolean true)
      ∷ (codes "capability_id", text r.capability_id)
      ∷ (codes "capability_version", text r.capability_version)
      ∷ (codes "status", text (codes "completed"))
      ∷ (
        codes "content",
        object (
            fields_of (
              (codes "draft", text (codes "Rascunho para aprovação: " ++ strip r.input.instruction))
              ∷ (codes "facts_used", array (items_of []))
              ∷ (codes "assumptions", array (items_of []))
              ∷ (codes "draft_only", boolean true)
              ∷ (codes "external_write_allowed", boolean false)
              ∷ (codes "external_write_executed", boolean false)
              ∷ (codes "human_approval_required", boolean true)
              ∷ [])),
      )
      ∷ (codes "error", null)
      ∷ (
        codes "token_usage",
        object
            (fields_of ((codes "input_tokens", number 0) ∷ (codes "output_tokens", number 0) ∷ [])),
      )
      ∷ (codes "latency", number 0)
      ∷ (codes "created_at", text created_at)
      ∷ []))

-- A failed validation leaves `draft` as it is raised: no handler stands around it here.
unfoldable pub mock_result : Value → Result Raised Normalized → Result AdapterError AdapterResult
mock_result upstream (ok normalized) =
    ok (record { normalized = normalized; upstream = upstream; retry_count = 0 })
mock_result upstream (err raised) = err (escaped raised)

-- The mock branch, where no HTTP call is made.
unfoldable pub draft_mock : Settings → CapabilityRequest → Text → Result AdapterError AdapterResult
draft_mock s request created_at =
    let upstream = mock_reply s request created_at in
    if one_of s.environment (codes "development" ∷ codes "test" ∷ [])
    then mock_result upstream
        (validate_draft_response upstream s.orkio_response_contract_version request (codes "orkio"))
    else err (adapter "mock_forbidden_outside_dev")

unfoldable pub draft : Settings → CapabilityRequest → (ℕ → Reply) → ℕ → ℕ → Text → Circuit → Run
draft s request post now later created_at c =
    let mocked : Run = record {
      outcome = draft_mock s request created_at;
      circuit = c;
      posts = 0;
      pauses = [];
    } in
    let refused : AdapterError → Run =
      λ e. record { outcome = err e; circuit = c; posts = 0; pauses = [] } in
    if same_text s.orkio_mode (codes "mock")
    then mocked
    else if not (same_text s.orkio_mode (codes "capability_v1"))
    then refused (adapter "orkio_capability_execution_disabled")
    else if is_empty s.orkio_base_url || is_empty s.orkio_capability_execute_path
    then refused (adapter "orkio_capability_not_configured")
    else if is_empty s.orkio_m2m_token
    then refused (adapter "orkio_m2m_not_configured")
    else called s request post later c (circuit_before_call s now c)
