-- ===== src/Orkio/Contract.antt =====
-- What src/glip/integrations/orkio/contracts.py accepts, and which reply of a run is accepted.
use arquitech_glip_premium_b.Prelude.{
  ◌≡◌, refl, ap, sym, Bool, true, false, not, Option, none, some, some-injective, List, ◌∷◌, ok,
  Text, same_text-eq, codes, strip,
}
use arquitech_glip_premium_b.Prelude.Results.{
  >>-ok, ok-injective, refuse_if-ok, refuse_if-last, or_refuse-ok,
}
use arquitech_glip_premium_b.Orkio.Json.{
  Value, object, text, null, boolean, number, array, Fields, get, is_true, filled, is_text, list_of,
}
use arquitech_glip_premium_b.Orkio.Request.{CapabilityRequest}
use arquitech_glip_premium_b.Orkio.Response.{
  Normalized, check_exact, exact, fields_in, check_envelope, check_governance, normalize,
  validate_draft_response,
}

-- An envelope answers a request: it repeats the request's identities, and its content claims a draft
-- that awaits approval and wrote nothing.
unfoldable pub Answers : CapabilityRequest → Text → Fields → Fields → Type 0
Answers expected platform reply content =
    (get (codes "request_id") reply ≡ some (text expected.request_id))
    × (get (codes "execution_id") reply ≡ some (text expected.execution_id))
    × (get (codes "correlation_id") reply ≡ some (text expected.correlation_id))
    × (get (codes "tenant_id") reply ≡ some (text expected.tenant_id))
    × (get (codes "source_platform") reply ≡ some (text platform))
    × (get (codes "capability_id") reply ≡ some (text expected.capability_id))
    × (get (codes "capability_version") reply ≡ some (text expected.capability_version))
    × (is_true (get (codes "ownership_locked") reply) ≡ true)
    × (is_true (get (codes "external_write_allowed") reply) ≡ false)
    × (is_true (get (codes "external_write_allowed") content) ≡ false)
    × (is_true (get (codes "external_write_executed") content) ≡ false)
    × (is_true (get (codes "draft_only") content) ≡ true)
    × (is_true (get (codes "human_approval_required") content) ≡ true)

is_text-eq : (t : Text) (o : Option Value) → is_text t o ≡ true → o ≡ some (text t)
is_text-eq t (some (text s)) h = ap (λ u. some (text u)) (same_text-eq s t h)
is_text-eq t (some null) h = cc
is_text-eq t (some (boolean b)) h = cc
is_text-eq t (some (number n)) h = cc
is_text-eq t (some (array xs)) h = cc
is_text-eq t (some (object fs)) h = cc
is_text-eq t none h = cc

fields_in-eq : (o : Option Value) {fs : Fields} → fields_in o ≡ some fs → o ≡ some (object fs)
fields_in-eq (some (object fs)) h = ap (λ x. some (object x)) (some-injective h)
fields_in-eq (some null) h = cc
fields_in-eq (some (boolean b)) h = cc
fields_in-eq (some (number n)) h = cc
fields_in-eq (some (array xs)) h = cc
fields_in-eq (some (text t)) h = cc
fields_in-eq none h = cc

not-false : (b : Bool) → not b ≡ false → b ≡ true
not-false true h = refl
not-false false h = cc

check_exact-tail :
    (k v : Text) (rest : List (Text × Text)) (reply : Fields)
    → check_exact ((k, v) ∷ rest) reply ≡ ok tt
    → (get k reply ≡ some (text v)) × (check_exact rest reply ≡ ok tt)
unfolding check_exact
check_exact-tail k v rest reply h =
    let parts = refuse_if-ok (not (is_text v (get k reply))) _ h in
    (is_text-eq v (get k reply) (not-false _ parts.0), parts.1)

exact-ids :
    (expected : CapabilityRequest) (platform : Text) (reply : Fields)
    → check_exact (exact expected platform) reply ≡ ok tt
    → (get (codes "request_id") reply ≡ some (text expected.request_id))
      × (get (codes "execution_id") reply ≡ some (text expected.execution_id))
      × (get (codes "correlation_id") reply ≡ some (text expected.correlation_id))
      × (get (codes "tenant_id") reply ≡ some (text expected.tenant_id))
      × (get (codes "source_platform") reply ≡ some (text platform))
      × (get (codes "capability_id") reply ≡ some (text expected.capability_id))
      × (get (codes "capability_version") reply ≡ some (text expected.capability_version))
unfolding exact
exact-ids expected platform reply h =
    let request = check_exact-tail _ _ _ reply h in
    let execution = check_exact-tail _ _ _ reply request.1 in
    let correlation = check_exact-tail _ _ _ reply execution.1 in
    let tenant = check_exact-tail _ _ _ reply correlation.1 in
    let source = check_exact-tail _ _ _ reply tenant.1 in
    let capability = check_exact-tail _ _ _ reply source.1 in
    let version = check_exact-tail _ _ _ reply capability.1 in
    (request.0, execution.0, correlation.0, tenant.0, source.0, capability.0, version.0)

check_envelope-ok :
    (reply : Fields) (version : Text) (expected : CapabilityRequest) (platform : Text)
    → check_envelope reply version expected platform ≡ ok tt
    → (check_exact (exact expected platform) reply ≡ ok tt)
      × (is_true (get (codes "ownership_locked") reply) ≡ true)
unfolding check_envelope
check_envelope-ok reply version expected platform h =
    let versioned = refuse_if-ok _ _ h in
    let filled_in = >>-ok _ versioned.1 in
    let matched = >>-ok _ filled_in.1 in
    let locked = refuse_if-ok _ _ matched.1 in (matched.0, not-false _ locked.0)

check_governance-ok :
    (reply content : Fields)
    → check_governance reply content ≡ ok tt
    → (is_true (get (codes "external_write_allowed") reply) ≡ false)
      × (is_true (get (codes "external_write_allowed") content) ≡ false)
      × (is_true (get (codes "external_write_executed") content) ≡ false)
      × (is_true (get (codes "draft_only") content) ≡ true)
      × (is_true (get (codes "human_approval_required") content) ≡ true)
unfolding check_governance
check_governance-ok reply content h =
    let reply_write = refuse_if-ok _ _ h in
    let content_write = refuse_if-ok _ _ reply_write.1 in
    let executed = refuse_if-ok _ _ content_write.1 in
    let draft_only = refuse_if-ok _ _ executed.1 in
    let approval = refuse_if-last _ _ draft_only.1 in
    (reply_write.0, content_write.0, executed.0, not-false _ draft_only.0, not-false _ approval)

pub validate_draft_response-Answers :
    (response : Value) (version : Text) (expected : CapabilityRequest) (platform : Text)
    (n : Normalized)
    → validate_draft_response response version expected platform ≡ ok n
    → (reply content : Fields) × (response ≡ object reply)
      × (get (codes "content") reply ≡ some (object content))
      × Answers expected platform reply content
      × ((drafted : Text) × (filled (get (codes "draft") content) ≡ some drafted)
          × (n.draft ≡ strip drafted))
unfolding validate_draft_response normalize Answers
validate_draft_response-Answers response version expected platform n h =
    let reply = or_refuse-ok (fields_in (some response)) _ h in
    let enveloped = >>-ok (check_envelope reply.0 version expected platform) reply.2 in
    let content = or_refuse-ok (fields_in (get (codes "content") reply.0)) _ enveloped.1 in
    let draft = or_refuse-ok (filled (get (codes "draft") content.0)) _ content.2 in
    let governed = >>-ok (check_governance reply.0 content.0) draft.2 in
    let envelope = check_envelope-ok reply.0 version expected platform enveloped.0 in
    let ids = exact-ids expected platform reply.0 envelope.0 in
    let claims = check_governance-ok reply.0 content.0 governed.0 in
    let facts = or_refuse-ok (list_of (get (codes "facts_used") content.0)) _ governed.1 in
    let assumptions = or_refuse-ok (list_of (get (codes "assumptions") content.0)) _ facts.2 in
    (
      reply.0,
      content.0,
      some-injective (fields_in-eq (some response) reply.1),
      fields_in-eq (get (codes "content") reply.0) content.1,
      (
        ids.0, ids.1, ids.2, ids.3, ids.4, ids.5, ids.6, envelope.1, claims.0, claims.1, claims.2,
        claims.3, claims.4,
      ),
      (draft.0, draft.1, sym (ap (λ made. made.draft) (ok-injective assumptions.2))),
    )
