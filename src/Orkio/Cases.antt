-- ===== src/Orkio/Cases.antt =====
-- The ways through `draft` of src/glip/integrations/orkio/client.py.
use arquitech_glip_premium_b.Prelude.{
  ℕ, ◌≡◌, refl, Bool, true, false, not, ◌||◌, Option, none, some, Result, err, Text, if_elim,
  if_case, same_text, is_empty, codes,
}
use arquitech_glip_premium_b.Config.{Settings}
use arquitech_glip_premium_b.Orkio.Request.{CapabilityRequest}
use arquitech_glip_premium_b.Orkio.Client.{
  Circuit, Reply, Run, AdapterError, AdapterResult, adapter, attempts, called, finished, draft,
  draft_mock, circuit_before_call,
}

-- `OrkioAdapterError("orkio_request_failed")`
abbrev pub is_request_failed : Result AdapterError AdapterResult → Bool
is_request_failed (err (adapter e)) = same_text (codes e) (codes "orkio_request_failed")
is_request_failed _ = false

-- The configuration's tests come before the first call: what holds of both ways to get a reply, and
-- of a refusal, holds of `draft`.
module _ (s : Settings) (request : CapabilityRequest) (post : ℕ → Reply) (now later : ℕ)
    (created : Text) (c : Circuit) where
  called_elim :
      (P : Run → Type 0) (o : Option Circuit)
      → ((e : AdapterError)
          → is_request_failed (err e) ≡ false
          → P (finished s request post later (err e) c 0))
      → ((ready : Circuit)
          → o ≡ some ready
          → P (attempts s request post later s.orkio_max_attempts 0 0 ready))
      → P (called s request post later c o)
  unfolding called same_text
  called_elim P none failed calls = failed _ refl
  called_elim P (some ready) failed calls = calls ready refl

  pub draft_elim :
      (P : Run → Type 0)
      → ((e : AdapterError)
          → is_request_failed (err e) ≡ false
          → P (finished s request post later (err e) c 0))
      → (same_text s.orkio_mode (codes "mock") ≡ true
          → P (finished s request post later (draft_mock s request created) c 0))
      → (same_text s.orkio_mode (codes "mock") ≡ false
          → (ready : Circuit) → circuit_before_call s now c ≡ some ready
          → P (attempts s request post later s.orkio_max_attempts 0 0 ready))
      → P (draft s request post now later created c)
  unfolding draft same_text
  draft_elim P failed mocked calls =
      if_case P (same_text s.orkio_mode (codes "mock")) mocked (λ real.
        if_elim P (not (same_text s.orkio_mode (codes "capability_v1"))) (failed _ refl) (
          if_elim P (is_empty s.orkio_base_url || is_empty s.orkio_capability_execute_path)
            (failed _ refl)
            (if_elim P (is_empty s.orkio_m2m_token) (failed _ refl)
              (called_elim P (circuit_before_call s now c) failed (calls real)))))
