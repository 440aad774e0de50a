-- ===== src/Idempotency/Examples.antt =====
-- Runs of src/glip/integration_idempotency.py on small ledgers, and the theorems at them.
use arquitech_glip_premium_b.Prelude.{
  ◌+◌, ◌≡◌, refl, true, none, some, [], ◌∷◌, arith, ok, begin, request, RowId, false, ◌==◌, ◌*◌,
  Session,
}
use arquitech_glip_premium_b.Idempotency.{
  Table, Execution, Json, contextualized, calling, completed, replay, acquired, new, Outcome,
  find_execution, violated, recover_winner, commit_new_or_recover_winner, take_lease,
  acquire_execution_lease, complete, finalize_execution_if_owner, fail_execution_if_owner,
  lease_is_free, close_if_owner, is_owned, abandon,
}
use arquitech_glip_premium_b.Idempotency.Keys.{IsLedger}
use arquitech_glip_premium_b.Idempotency.Steps.{here, next, claims, after, Reach-IsLedger}
use arquitech_glip_premium_b.Idempotency.Lease.{stored, acquire_free}
use arquitech_glip_premium_b.Idempotency.Others.{start}
use arquitech_glip_premium_b.Idempotency.Lifecycle.{
  closed_once, completed_replays, takeover, taken_completes, lost,
}

abbrev reply : Json
reply = record { is_truthy = true; value = 1 }

abbrev outcome : Outcome
outcome = record { upstream = reply; domain = reply; latency_ms = 12; retry_count = 0 }

abbrev fresh : Execution
fresh = record {
  id = 1;
  tenant_id = 7;
  project_id = 8;
  destination_service = 9;
  execution_id = 10;
  idempotency_key = 11;
  request_sha256 = 12;
  request_json = reply;
  upstream_response_json = none;
  domain_response_json = none;
  draft_id = 13;
  cognitive_execution_id = 14;
  status = contextualized;
  owner_token = none;
  lease_expires_at = none;
  attempt_count = 0;
  latency_ms = none;
  retry_count = 0;
  error_code = none;
  completed_at = none;
}

-- The row under worker 21's lease, which ends at second 90.
abbrev running : Execution
running = record fresh {
  status = calling;
  owner_token = some 21;
  lease_expires_at = some 90000000;
  attempt_count = 1;
}

abbrev finished : Execution
finished = record fresh {
  status = completed;
  upstream_response_json = some reply;
  domain_response_json = some reply;
  latency_ms = some 12;
  completed_at = some 50000000;
  attempt_count = 1;
}

-- A second submission of the same key, under another row id.
abbrev again : Execution
again = record fresh { id = 2; execution_id = 15 }

one_row-IsLedger : (r : Execution) → IsLedger (r ∷ [])
one_row-IsLedger r = record { ids = λ i. ground arith; keys = λ a b c. ground arith }

run : Unit {0}
unfolding commit_new_or_recover_winner find_execution violated recover_winner
    acquire_execution_lease finalize_execution_if_owner fail_execution_if_owner close_if_owner
    is_owned complete abandon
run = tt

first_wins :
    request (commit_new_or_recover_winner fresh 12) []
    ≡ (ok (record { row = fresh; disposition = new; owner_token = none }), fresh ∷ [])
unfolding run
first_wins = refl

worker_acquires :
    (request (acquire_execution_lease (λ rows. rows) fresh 90 none 21 0) (fresh ∷ [])).1
    ≡ running ∷ []
unfolding run
worker_acquires = refl

Reach-IsLedger_example : IsLedger (after (commit_new_or_recover_winner again 12) (fresh ∷ []))
Reach-IsLedger_example =
    Reach-IsLedger {t = fresh ∷ []} (next here (claims again 12)) (one_row-IsLedger fresh)

-- The same row under worker 22's lease.
abbrev renewed : Execution
renewed = record running {
  owner_token = some 22;
  lease_expires_at = some (91000000 + 90 * 1000000);
  attempt_count = 2;
}

acquire_free_example :
    let run =
      acquire_execution_lease (λ rows. rows) running 90 none 22 91000000 (begin (running ∷ [])) in
    (run.0 ≡ ok (record { row = renewed; disposition = acquired; owner_token = some 22 }))
    × (run.1.working ≡ run.1.committed)
    × (stored 1 run.1.committed ≡ some renewed)
    × ((i : RowId) → (1 == i) ≡ false → stored i run.1.committed ≡ stored i (running ∷ []))
unfolding lease_is_free take_lease run
acquire_free_example =
    acquire_free (running ∷ []) running running 90 none 22 91000000 (one_row-IsLedger running) refl
      refl refl refl refl

closed_once_example :
    let s = begin (finished ∷ []) in
    (finalize_execution_if_owner 1 7 21 outcome 60000000 s ≡ lost s)
    × (fail_execution_if_owner 1 7 21 33 60000000 s ≡ lost s)
closed_once_example =
    closed_once 1 7 21 33 outcome 60000000 (begin (finished ∷ [])) (one_row-IsLedger finished) refl
      refl here refl

completed_replays_example :
    let s = begin (finished ∷ []) in
    commit_new_or_recover_winner again 12 s
    ≡ (ok (record { row = finished; disposition = replay; owner_token = none }), s)
unfolding find_execution
completed_replays_example =
    completed_replays again finished 12 (begin (finished ∷ [])) refl refl refl here refl

-- What worker 22 commits, and a session of worker 21 that holds other rows back.
abbrev renewed_rows : Session Table
renewed_rows =
    (acquire_execution_lease (λ rows. rows) running 90 none 22 91000000 (begin (running ∷ []))).1

abbrev late : Session Table
late = record { committed = []; working = renewed_rows.working }

takeover_example :
    (finalize_execution_if_owner 1 7 21 outcome 95000000 late ≡ lost late)
    × (fail_execution_if_owner 1 7 21 33 95000000 late ≡ lost late)
unfolding lease_is_free acquire_execution_lease
takeover_example =
    takeover (running ∷ []) running running 90 none 22 91000000 (one_row-IsLedger running) refl refl
      refl refl refl 21 33 95000000 outcome late (omega arith) start

taken_completes_example :
    let run = finalize_execution_if_owner 1 7 22 outcome 95000000 renewed_rows in
    let done = record finished { completed_at = some 95000000; attempt_count = 2 } in
    (run.0 ≡ ok done)
    × (stored 1 run.1.working ≡ some done)
    × (run.1.committed ≡ renewed_rows.committed)
unfolding lease_is_free
taken_completes_example =
    taken_completes (running ∷ []) running running 90 none 22 91000000 (one_row-IsLedger running)
      refl refl refl refl refl 95000000 outcome (omega arith)
