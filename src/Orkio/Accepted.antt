-- ===== src/Orkio/Accepted.antt =====
-- Which reply a successful run of src/glip/integrations/orkio/client.py returns.
use arquitech_glip_premium_b.Prelude.{
  ℕ, zero, suc, ◌+◌, ◌<◌, ◌≡◌, refl, ap, sym, ◌∙◌, false, Option, none, some, [], ◌∷◌, one_of, leb,
  arith, Result, ok, err, Text, Bool-cases, inl, inr, same_text, codes, strip, if_elim, subst,
  if_true, if_false, ℤ, pos, negsuc,
}
use arquitech_glip_premium_b.Prelude.Results.{ok-injective}
use arquitech_glip_premium_b.Config.{Settings}
use arquitech_glip_premium_b.Orkio.Json.{Value, object, Fields, get, filled}
use arquitech_glip_premium_b.Orkio.Request.{CapabilityRequest}
use arquitech_glip_premium_b.Orkio.Response.{
  Normalized, Raised, violation, type_error, validate_draft_response,
}
use arquitech_glip_premium_b.Orkio.Client.{
  Circuit, Reply, status, timeout_or_network, other_exception, Run, AdapterResult, AdapterError,
  Round, done, stop, stop_counted, again, give_up, round, attempts, after_round, exhausted,
  sleep_then, draft, draft_mock, mock_result, HttpFailureClass, auth_terminal, contract_terminal,
  upstream_terminal, retryable_transient, classify_http_failure, refused, judged, answered,
}
use arquitech_glip_premium_b.Orkio.Cases.{draft_elim}
use arquitech_glip_premium_b.Orkio.Contract.{Answers, validate_draft_response-Answers}

module _ (s : Settings) (request : CapabilityRequest) where
  -- A reply that ends the loop with a result: a status below 400 and a body that keeps the contract.
  unfoldable pub Accepts : Reply → Normalized → Value → Type 0
  Accepts reply normalized upstream =
      (code : ℕ) × (reply ≡ status code (some upstream))
      × (code < 400)
      × (validate_draft_response upstream s.orkio_response_contract_version request (codes "orkio")
          ≡ ok normalized)

  refused_undone :
      (c : HttpFailureClass) (code : ℕ) (n : Normalized) (u : Value) → refused c code ≡ done n u → ⊥
  unfolding refused
  refused_undone auth_terminal code n u h = cc
  refused_undone contract_terminal code n u h = cc
  refused_undone upstream_terminal code n u h = cc
  refused_undone retryable_transient code n u h = cc

  done_normalized : {n m : Normalized} {u v : Value} → done n u ≡ done m v → n ≡ m
  done_normalized h = cc

  done_upstream : {n m : Normalized} {u v : Value} → done n u ≡ done m v → u ≡ v
  done_upstream h = cc

  judged_done :
      (upstream : Value) (r : Result Raised Normalized) (n : Normalized) (u : Value)
      → judged upstream r ≡ done n u
      → (r ≡ ok n) × (upstream ≡ u)
  unfolding judged
  judged_done upstream (ok m) n u h = (ap ok (done_normalized h), done_upstream h)
  judged_done upstream (err (violation v)) n u h = cc
  judged_done upstream (err type_error) n u h = cc

  answered_done :
      (code : ℕ) (small : code < 400) (body : Option Value) (n : Normalized) (u : Value)
      → answered s request body ≡ done n u
      → Accepts (status code body) n u
  unfolding answered Accepts
  answered_done code small none n u h = cc
  answered_done code small (some upstream) n u h =
      let validated = judged_done upstream _ n u h in
      (
        code,
        ap (λ v. status code (some v)) validated.1,
        small,
        ap
              (λ v.
                validate_draft_response v s.orkio_response_contract_version request (codes "orkio"))
              (sym validated.1)
            ∙ validated.0,
      )

  round_done :
      (reply : Reply) (n : Normalized) (u : Value)
      → round s request reply ≡ done n u
      → Accepts reply n u
  unfolding round
  round_done timeout_or_network n u h = cc
  round_done other_exception n u h = cc
  round_done (status code body) n u h = elim (Bool-cases (leb 400 code)) [
    | inl big ↦
        absurd (refused_undone (classify_http_failure code) code n u (sym (if_true _ _ big) ∙ h))
    | inr small ↦ answered_done code (ground (arith, small)) body n u (sym (if_false _ _ small) ∙ h)
  ]

  module _ (post : ℕ → Reply) (later : ℕ) where
    -- A run that returned a result did so with its last call.
    unfoldable pub Accepted : ℕ → ℕ → ℕ → AdapterResult → ℕ → Type 0
    Accepted left attempt retries r posts =
        (i : ℕ) × (i < left)
        × Accepts (post (attempt + i)) r.normalized r.upstream
        × (r.retry_count ≡ retries + i)
        × (posts ≡ attempt + i + 1)

    later-Accepted :
        (left attempt retries : ℕ) (r : AdapterResult) (posts : ℕ)
        → Accepted left (attempt + 1) (retries + 1) r posts
        → Accepted (suc left) attempt retries r posts
    unfolding Accepted
    later-Accepted left attempt retries r posts (i, below, accepts, counted, made) =
        let shift : attempt + 1 + i ≡ attempt + (i + 1) = omega arith in
        let accepts' = subst (λ a. Accepts (post a) r.normalized r.upstream) shift accepts in
        (i + 1, omega (arith, below), accepts', omega (arith, counted), omega (arith, made))

    done-Accepted :
        (left attempt retries : ℕ) (n : Normalized) (u : Value)
        → Accepts (post attempt) n u
        → Accepted
            (suc left)
            attempt
            retries
            (record { normalized = n; upstream = u; retry_count = retries })
            (attempt + 1)
    unfolding Accepted
    done-Accepted left attempt retries n u accepts =
        let same : attempt ≡ attempt + 0 = omega arith in
        (0, omega arith, subst (λ a. Accepts (post a) n u) same accepts, omega arith, omega arith)

    sleep_then-Accepted :
        (left attempt retries : ℕ) (c : Circuit) (retry : Run) (backoff : ℤ) (r : AdapterResult)
        → ((retry.outcome ≡ ok r) → Accepted left (attempt + 1) (retries + 1) r retry.posts)
        → (sleep_then s request post later attempt c retry backoff).outcome ≡ ok r
        → Accepted
            (suc left)
            attempt
            retries
            r
            (sleep_then s request post later attempt c retry backoff).posts
    unfolding sleep_then
    sleep_then-Accepted left attempt retries c retry (pos b) r ih returned =
        later-Accepted left attempt retries r retry.posts (ih returned)
    sleep_then-Accepted left attempt retries c retry (negsuc n) r ih returned = cc

    after_round-Accepted :
        (left attempt retries : ℕ) (c : Circuit) (retry : Run) (ended : Round) (r : AdapterResult)
        → ((retry.outcome ≡ ok r) → Accepted left (attempt + 1) (retries + 1) r retry.posts)
        → round s request (post attempt) ≡ ended
        → (after_round s request post later attempt retries c retry ended).outcome ≡ ok r
        → Accepted
            (suc left)
            attempt
            retries
            r
            (after_round s request post later attempt retries c retry ended).posts
    unfolding after_round exhausted
    after_round-Accepted left attempt retries c retry (done n u) r ih e h =
        subst (λ made. Accepted (suc left) attempt retries made (attempt + 1)) (ok-injective h)
          (done-Accepted left attempt retries n u (round_done (post attempt) n u e))
    after_round-Accepted left attempt retries c retry (stop x) r ih e h = cc
    after_round-Accepted left attempt retries c retry (stop_counted x) r ih e h = cc
    after_round-Accepted left attempt retries c retry again r ih e h =
        if_elim
          (λ (run : Run). (run.outcome ≡ ok r) → Accepted (suc left) attempt retries r run.posts)
          (leb s.orkio_max_attempts (attempt + 1)) (λ given_up. cc)
          (sleep_then-Accepted left attempt retries c retry s.orkio_retry_backoff r ih) h
    after_round-Accepted left attempt retries c retry give_up r ih e h = cc

    attempts-Accepted :
        (left attempt retries : ℕ) (c : Circuit) (r : AdapterResult)
        → (attempts s request post later left attempt retries c).outcome ≡ ok r
        → Accepted left attempt retries r
            (attempts s request post later left attempt retries c).posts
    unfolding attempts exhausted
    attempts-Accepted zero attempt retries c r h = cc
    attempts-Accepted (suc left) attempt retries c r h =
        after_round-Accepted left attempt retries c _ _ r
          (attempts-Accepted left (attempt + 1) (retries + 1) c r) refl h

module _ (s : Settings) (request : CapabilityRequest) (post : ℕ → Reply) (now later : ℕ)
    (created : Text) (c : Circuit) where
  -- Outside the mock mode, a result is what the last call of the run answered.
  pub draft-Accepted :
      (r : AdapterResult)
      → same_text s.orkio_mode (codes "mock") ≡ false
      → (draft s request post now later created c).outcome ≡ ok r
      → Accepted s request post later s.orkio_max_attempts 0 0 r
          (draft s request post now later created c).posts
  draft-Accepted r real =
      draft_elim s request post now later created c
        (λ run.
          run.outcome ≡ ok r → Accepted s request post later s.orkio_max_attempts 0 0 r run.posts)
        (λ e _. cc) (λ mock. cc (mock, real))
        (λ _ ready _. attempts-Accepted s request post later s.orkio_max_attempts 0 0 ready r)

  Validated : AdapterResult → Type 0
  Validated r =
      validate_draft_response r.upstream s.orkio_response_contract_version request (codes "orkio")
      ≡ ok r.normalized

  mock_result-ok :
      (upstream : Value) (judgement : Result Raised Normalized) (r : AdapterResult)
      → mock_result upstream judgement ≡ ok r
      → (upstream ≡ r.upstream) × (judgement ≡ ok r.normalized)
  unfolding mock_result
  mock_result-ok upstream (ok n) r h = (
    ap (λ made. made.upstream) (ok-injective h),
    ap (λ made. ok made.normalized) (ok-injective h),
  )
  mock_result-ok upstream (err raised) r h = cc

  mock-Validated : (r : AdapterResult) → draft_mock s request created ≡ ok r → Validated r
  unfolding draft_mock Validated
  mock-Validated r =
      if_elim (λ (result : Result AdapterError AdapterResult). result ≡ ok r → Validated r)
        (one_of s.environment (codes "development" ∷ codes "test" ∷ []))
        (λ made.
          let (same, fine) = mock_result-ok _ _ r made in
          ap
            (λ u.
              validate_draft_response u s.orkio_response_contract_version request (codes "orkio"))
            (sym same)
          ∙ fine)
        (λ forbidden. cc)

  -- Whenever a run returns a result, in the mock mode too, its upstream reply is an object that
  -- repeats the request, execution and correlation ids of the request, its tenant, capability and
  -- capability version, and the expected platform, whose ownership is locked, which claims no
  -- external write, and whose content is a draft that awaits approval; the text returned is the
  -- stripped draft of that content.
  pub draft-Answers :
      (r : AdapterResult)
      → (draft s request post now later created c).outcome ≡ ok r
      → (reply content : Fields) × (r.upstream ≡ object reply)
        × (get (codes "content") reply ≡ some (object content))
        × Answers request (codes "orkio") reply content
        × ((drafted : Text) × (filled (get (codes "draft") content) ≡ some drafted)
            × (r.normalized.draft ≡ strip drafted))
  unfolding Validated Accepted Accepts
  draft-Answers r h =
      let kept =
        draft_elim s request post now later created c (λ run. run.outcome ≡ ok r → Validated r)
          (λ e _. cc) (λ mock. mock-Validated r)
          (λ _ ready _ returned.
            let (i, below, (code, got, small, fine), counted, made) =
              attempts-Accepted s request post later s.orkio_max_attempts 0 0 ready r returned in
            fine)
          h in
      validate_draft_response-Answers r.upstream s.orkio_response_contract_version request
        (codes "orkio") r.normalized kept
