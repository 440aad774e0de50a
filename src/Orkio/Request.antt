-- ===== src/Orkio/Request.antt =====
-- src/glip/integrations/orkio/contracts.py: `build_draft_capability_request`.
use arquitech_glip_premium_b.Prelude.{
  ℕ, Bool, true, false, not, Option, List, [], ◌∷◌, if◌then◌else◌, Result, ok, Text, codes, one_of,
  is_empty, strip, upper, text_or, String,
}
use arquitech_glip_premium_b.Prelude.Results.{◌>>◌, refuse_if}

-- What `ContractViolation` says: a code, or one that names a key of the response.
pub data Violation : Type 0 where
  broken : String → Violation
  missing mismatch : Text → Violation

-- The entries of the route's body that the request reads.
pub record DraftBody : Type 0 where
  pub data_classification : Option Text
  pub instruction : Option Text
  pub recipient_role : Option Text
  pub intent : Option Text
  pub channel : Option Text
  pub facts : List Text
  pub constraints : List Text
  pub tone : Option Text
  pub language : Option Text

-- The version of the context is sent as a decimal text.
pub record Context : Type 0 where
  pub organization_id : Text
  pub project_id : Text
  pub actor_user_id : Text
  pub context_version : ℕ
  pub purpose : Text
  pub source_refs : List Text

pub record Input : Type 0 where
  pub schema_version : Text
  pub instruction : Text
  pub recipient_role : Text
  pub intent : Text
  pub channel : Text
  pub facts : List Text
  pub constraints : List Text
  pub tone : Text
  pub language : Text

pub record Governance : Type 0 where
  pub governance_mode : Text
  pub write_allowed : Bool
  pub execution_allowed : Bool
  pub external_write_allowed : Bool
  pub human_approval_required : Bool
  pub draft_only : Bool

pub record CapabilityRequest : Type 0 where
  pub schema_version : Text
  pub request_id : Text
  pub execution_id : Text
  pub correlation_id : Text
  pub idempotency_key : Text
  pub tenant_id : Text
  pub source_platform : Text
  pub source_environment : Text
  pub capability_id : Text
  pub capability_version : Text
  pub data_classification : Text
  pub context : Context
  pub input : Input
  pub governance : Governance

-- `[str(x).strip() for x in xs if str(x).strip()]`
unfoldable pub stripped : List Text → List Text
stripped [] = []
stripped (x ∷ xs) = let rest = stripped xs in if is_empty (strip x) then rest else strip x ∷ rest

unfoldable pub classifications : List Text
classifications = codes "PUBLIC" ∷ codes "INTERNAL" ∷ codes "CONFIDENTIAL" ∷ []

-- The keyword arguments, without the body.
pub record Origin : Type 0 where
  pub request_schema_version : Text
  pub tenant_id : Text
  pub source_environment : Text
  pub request_id : Text
  pub execution_id : Text
  pub correlation_id : Text
  pub idempotency_key : Text
  pub project_id : Text
  pub actor_user_id : Text
  pub context_version : ℕ
  pub source_refs : List Text

unfoldable pub draft_only_governance : Governance
draft_only_governance = record {
  governance_mode = codes "human_approval";
  write_allowed = false;
  execution_allowed = true;
  external_write_allowed = false;
  human_approval_required = true;
  draft_only = true;
}

unfoldable pub build_draft_capability_request :
    Origin → DraftBody → Result Violation CapabilityRequest
build_draft_capability_request origin body = do
  let classification = upper (text_or body.data_classification (codes "INTERNAL"))
  refuse_if (not (one_of classification classifications))
      (broken "orkio_request_data_classification_invalid")
  let instruction = strip (text_or body.instruction [])
  refuse_if (is_empty instruction) (broken "orkio_request_instruction_required")
  ok (record {
    schema_version = origin.request_schema_version;
    request_id = origin.request_id;
    execution_id = origin.execution_id;
    correlation_id = origin.correlation_id;
    idempotency_key = origin.idempotency_key;
    tenant_id = origin.tenant_id;
    source_platform = codes "glip";
    source_environment = origin.source_environment;
    capability_id = codes "glip.draft_message";
    capability_version = codes "1.0.0";
    data_classification = classification;
    context = record {
      organization_id = origin.tenant_id;
      project_id = origin.project_id;
      actor_user_id = origin.actor_user_id;
      context_version = origin.context_version;
      purpose = codes "draft_message";
      source_refs = origin.source_refs;
    };
    input = record {
      schema_version = codes "glip.draft-message.input.v1";
      instruction = instruction;
      recipient_role = text_or body.recipient_role (codes "unspecified");
      intent = text_or body.intent (codes "draft");
      channel = text_or body.channel (codes "internal");
      facts = stripped body.facts;
      constraints = stripped body.constraints;
      tone = text_or body.tone (codes "professional");
      language = text_or body.language (codes "pt-BR");
    };
    governance = draft_only_governance;
  })
