-- ===== src/Orkio/Examples.antt =====
-- Runs of src/glip/integrations/orkio/client.py on small requests, and the theorems at them.
use arquitech_glip_premium_b.Prelude.{
  ℕ, zero, suc, ◌≤◌, ◌≡◌, refl, inl, true, false, none, some, [], ◌∷◌, arith, ok, Text, codes,
  seconds, same_text, one_of, is_space, lstrip, rstrip, strip, upper, lower,
}
use arquitech_glip_premium_b.Config.Examples.{sample, hasty, no_parts, sample_valid}
use arquitech_glip_premium_b.Orkio.Json.{
  Value, object, get, Fields, filled, values, keys, characters, list_of,
}
use arquitech_glip_premium_b.Orkio.Request.{
  Origin, DraftBody, CapabilityRequest, stripped, classifications, draft_only_governance,
  build_draft_capability_request,
}
use arquitech_glip_premium_b.Orkio.Response.{
  Normalized, required_keys, check_required, check_exact, exact, check_envelope, check_governance,
  normalize, validate_draft_response,
}
use arquitech_glip_premium_b.Orkio.Client.{
  Circuit, Reply, status, AdapterResult, closed_circuit, auth_terminal_statuses,
  contract_terminal_statuses, retryable_transient_statuses, classify_http_failure,
  circuit_before_call, circuit_failure, refused, judged, answered, round, power, exhausted,
  sleep_then, after_round, attempts, called, mock_reply, mock_result, draft_mock, draft,
}
use arquitech_glip_premium_b.Orkio.Bounded.{total}
use arquitech_glip_premium_b.Orkio.Cases.{is_request_failed}
use arquitech_glip_premium_b.Orkio.Breaker.{breaker_trips}
use arquitech_glip_premium_b.Orkio.Lease.{time_bound, draft_within_lease}
use arquitech_glip_premium_b.Orkio.Contract.{Answers}
use arquitech_glip_premium_b.Orkio.Accepted.{draft-Answers}

run : Unit {0}
unfolding same_text one_of is_space lstrip rstrip strip upper lower get values keys characters
    list_of stripped classifications draft_only_governance build_draft_capability_request
    required_keys check_required check_exact exact check_envelope check_governance normalize
    validate_draft_response auth_terminal_statuses contract_terminal_statuses
    retryable_transient_statuses classify_http_failure circuit_before_call circuit_failure refused
    judged answered round power exhausted sleep_then after_round attempts called mock_reply
    mock_result draft_mock draft total time_bound
run = tt

abbrev origin : Origin
origin = record {
  request_schema_version = codes "ORKIO-CAPABILITY-REQUEST-1";
  tenant_id = codes "t1";
  source_environment = codes "staging";
  request_id = codes "r1";
  execution_id = codes "e1";
  correlation_id = codes "c1";
  idempotency_key = codes "k1";
  project_id = codes "p1";
  actor_user_id = codes "u1";
  context_version = 1;
  source_refs = [];
}

abbrev asked : CapabilityRequest
asked = record {
  schema_version = codes "ORKIO-CAPABILITY-REQUEST-1";
  request_id = codes "r1";
  execution_id = codes "e1";
  correlation_id = codes "c1";
  idempotency_key = codes "k1";
  tenant_id = codes "t1";
  source_platform = codes "glip";
  source_environment = codes "staging";
  capability_id = codes "glip.draft_message";
  capability_version = codes "1.0.0";
  data_classification = codes "INTERNAL";
  context = record {
    organization_id = codes "t1";
    project_id = codes "p1";
    actor_user_id = codes "u1";
    context_version = 1;
    purpose = codes "draft_message";
    source_refs = [];
  };
  input = record {
    schema_version = codes "glip.draft-message.input.v1";
    instruction = codes "Oi";
    recipient_role = codes "unspecified";
    intent = codes "draft";
    channel = codes "internal";
    facts = codes "a" ∷ [];
    constraints = [];
    tone = codes "professional";
    language = codes "pt-BR";
  };
  governance = record {
    governance_mode = codes "human_approval";
    write_allowed = false;
    execution_allowed = true;
    external_write_allowed = false;
    human_approval_required = true;
    draft_only = true;
  };
}

abbrev body : DraftBody
body = record {
  data_classification = some (codes "internal");
  instruction = some (codes " Oi ");
  recipient_role = none;
  intent = some [];
  channel = none;
  facts = codes " a" ∷ codes "  " ∷ [];
  constraints = [];
  tone = none;
  language = none;
}

built : build_draft_capability_request origin body ≡ ok asked
unfolding run
built = refl

-- The upstream repeats the request, as the mock does.
abbrev reply : Value
reply = mock_reply sample asked (codes "now")

abbrev second_answers : ℕ → Reply
second_answers zero = status 503 none
second_answers (suc i) = status 200 (some reply)

abbrev drafted : Normalized
drafted = record {
  draft = codes "Rascunho para aprovação: Oi";
  facts_used = [];
  assumptions = [];
  agent_id = codes "orkio";
  agent_name = codes "Orkio";
  display_name = codes "Orkio";
  final_speaker = codes "Orkio";
  turn_owner = codes "orkio";
  ownership_locked = true;
  external_write_allowed = false;
  human_approval_required = true;
  draft_only = true;
}

abbrev expected_result : AdapterResult
expected_result = record { normalized = drafted; upstream = reply; retry_count = 1 }

accepted :
    (draft sample asked second_answers 0 0 (codes "now") closed_circuit).outcome
    ≡ ok expected_result
unfolding run
accepted = refl

abbrev unavailable : ℕ → Reply
unavailable i = status 503 none

-- Three attempts whose lease was accepted take longer than it.
overrun :
    time_bound hasty (draft hasty asked unavailable 0 0 (codes "now") closed_circuit) ≡ seconds 93
unfolding run
overrun = refl

draft_within_lease_example :
    time_bound sample (draft sample asked unavailable 0 0 (codes "now") closed_circuit) ≤ seconds 90
draft_within_lease_example =
    draft_within_lease no_parts sample sample asked unavailable 0 0 (codes "now") closed_circuit
      250000 sample_valid refl (inl (omega arith))

abbrev failing : Circuit
failing = record { failures = 3; opened_at = 0 }

fails :
    is_request_failed (draft sample asked unavailable 0 (seconds 1) (codes "now") failing).outcome
    ≡ true
unfolding run
fails = refl

breaker_trips_example :
    (draft sample asked second_answers
      (seconds 9)
      0
      (codes "now")
      (draft sample asked unavailable 0 (seconds 1) (codes "now") failing).circuit).posts
    ≡ 0
breaker_trips_example =
    breaker_trips sample asked asked unavailable second_answers 0 (seconds 1) (seconds 9) 0
      (codes "now") (codes "now") failing refl fails (omega arith)

draft-Answers_example :
    (answer content : Fields) × (reply ≡ object answer)
    × (get (codes "content") answer ≡ some (object content))
    × Answers asked (codes "orkio") answer content
    × ((written : Text) × (filled (get (codes "draft") content) ≡ some written)
        × (drafted.draft ≡ strip written))
draft-Answers_example =
    draft-Answers sample asked second_answers 0 0 (codes "now") closed_circuit expected_result
      accepted
