-- ===== src/Orkio/Response.antt =====
-- src/glip/integrations/orkio/contracts.py: `validate_draft_response`.
use arquitech_glip_premium_b.Prelude.{
  Bool, true, false, not, Option, none, some, List, [], ◌∷◌, Result, ok, Text, codes, strip,
  is_none,
}
use arquitech_glip_premium_b.Prelude.Results.{◌>>=◌, ◌>>◌, refuse_if, or_refuse}
use arquitech_glip_premium_b.Orkio.Json.{
  Value, object, Fields, get, is_true, filled, is_text, is_no_error, list_of,
}
use arquitech_glip_premium_b.Orkio.Request.{Violation, broken, missing, mismatch, CapabilityRequest}

-- What the validation raises: a `ContractViolation`, or the `TypeError` of `list(...)`.
pub data Raised : Type 0 where
  violation : Violation → Raised
  type_error : Raised

pub record Normalized : Type 0 where
  pub draft : Text
  pub facts_used : List Value
  pub assumptions : List Value
  pub agent_id : Text
  pub agent_name : Text
  pub display_name : Text
  pub final_speaker : Text
  pub turn_owner : Text
  pub ownership_locked : Bool
  pub external_write_allowed : Bool
  pub human_approval_required : Bool
  pub draft_only : Bool

unfoldable pub required_keys : List Text
required_keys =
    codes "message_id"
    ∷ codes "request_id"
    ∷ codes "execution_id"
    ∷ codes "correlation_id"
    ∷ codes "tenant_id"
    ∷ codes "source_platform"
    ∷ codes "agent_id"
    ∷ codes "agent_name"
    ∷ codes "display_name"
    ∷ codes "final_speaker"
    ∷ codes "turn_owner"
    ∷ codes "capability_id"
    ∷ codes "capability_version"
    ∷ codes "status"
    ∷ codes "created_at"
    ∷ []

-- The loop of `_required_string`.
unfoldable pub check_required : List Text → Fields → Result Raised (Unit {0})
check_required [] reply = ok tt
check_required (k ∷ ks) reply = do
  let rest = check_required ks reply
  refuse_if (is_none (filled (get k reply))) (violation (missing k))
  rest

-- The loop over `exact`.
unfoldable pub check_exact : List (Text × Text) → Fields → Result Raised (Unit {0})
check_exact [] reply = ok tt
check_exact ((k, v) ∷ rest) reply = do
  let later = check_exact rest reply
  refuse_if (not (is_text v (get k reply))) (violation (mismatch k))
  later

unfoldable pub exact : CapabilityRequest → Text → List (Text × Text)
exact expected platform =
    (codes "request_id", expected.request_id)
    ∷ (codes "execution_id", expected.execution_id)
    ∷ (codes "correlation_id", expected.correlation_id)
    ∷ (codes "tenant_id", expected.tenant_id)
    ∷ (codes "source_platform", platform)
    ∷ (codes "capability_id", expected.capability_id)
    ∷ (codes "capability_version", expected.capability_version)
    ∷ []

abbrev pub fields_in : Option Value → Option Fields
fields_in (some (object fs)) = some fs
fields_in _ = none

-- `data[key]` of a key that is known to hold a text.
abbrev pub text_at : Text → Fields → Text
text_at k reply = elim (filled (get k reply)) [ none ↦ [] | some t ↦ t ]

-- The tests of the envelope, once it is an object.
unfoldable pub check_envelope : Fields → Text → CapabilityRequest → Text → Result Raised (Unit {0})
check_envelope reply version expected platform = do
  refuse_if (not (is_text version (get (codes "schema_version") reply)))
      (violation (broken "orkio_contract_schema_mismatch"))
  check_required required_keys reply
  check_exact (exact expected platform) reply
  refuse_if (not (is_true (get (codes "ownership_locked") reply)))
      (violation (broken "orkio_contract_ownership_not_locked"))
  refuse_if (not (is_text (codes "completed") (get (codes "status") reply)))
      (violation (broken "orkio_contract_status_not_completed"))
  refuse_if (not (is_no_error (get (codes "error") reply)))
      (violation (broken "orkio_contract_completed_with_error"))

-- The tests of what the response claims about external writes and approval.
unfoldable pub check_governance : Fields → Fields → Result Raised (Unit {0})
check_governance reply content = do
  refuse_if (is_true (get (codes "external_write_allowed") reply))
      (violation (broken "orkio_contract_external_write_allowed"))
  refuse_if (is_true (get (codes "external_write_allowed") content))
      (violation (broken "orkio_contract_external_write_allowed"))
  refuse_if (is_true (get (codes "external_write_executed") content))
      (violation (broken "orkio_contract_external_write_executed"))
  refuse_if (not (is_true (get (codes "draft_only") content)))
      (violation (broken "orkio_contract_draft_only_required"))
  refuse_if (not (is_true (get (codes "human_approval_required") content)))
      (violation (broken "orkio_contract_human_approval_required"))

unfoldable pub normalize : Fields → Text → List Value → List Value → Normalized
normalize reply draft facts assumptions = record {
  draft = strip draft;
  facts_used = facts;
  assumptions = assumptions;
  agent_id = text_at (codes "agent_id") reply;
  agent_name = text_at (codes "agent_name") reply;
  display_name = text_at (codes "display_name") reply;
  final_speaker = text_at (codes "final_speaker") reply;
  turn_owner = text_at (codes "turn_owner") reply;
  ownership_locked = true;
  external_write_allowed = false;
  human_approval_required = true;
  draft_only = true;
}

unfoldable pub validate_draft_response :
    Value → Text → CapabilityRequest → Text → Result Raised Normalized
validate_draft_response response version expected platform = do
  reply ←
      or_refuse (fields_in (some response))
        (violation (broken "orkio_contract_response_not_object"))
  check_envelope reply version expected platform
  content ←
      or_refuse (fields_in (get (codes "content") reply))
        (violation (broken "orkio_contract_content_not_object"))
  draft ←
      or_refuse (filled (get (codes "draft") content))
        (violation (broken "orkio_contract_empty_draft"))
  check_governance reply content
  facts ← or_refuse (list_of (get (codes "facts_used") content)) type_error
  assumptions ← or_refuse (list_of (get (codes "assumptions") content)) type_error
  ok (normalize reply draft facts assumptions)
