-- ===== src/Idempotency.antt =====
-- src/glip/integration_idempotency.py: the durable idempotency ledger of the calls to ORKIO. A row is
-- claimed once per (tenant, destination, key); its lease is taken, renewed and closed by single
-- SQL UPDATEs that test ownership. Times are microseconds since the epoch.
pub mod Keys
pub mod Steps
pub mod Lease
pub mod Others
pub mod Lifecycle
mod Examples
use arquitech_glip_premium_b.Prelude.{
  ℕ, suc, ◌+◌, String, Bool, true, false, not, ◌&&◌, ◌||◌, Option, none, some, List, [], ◌∷◌, ◌++◌,
  ltb, leb, ◌==◌, if◌then◌else◌, find?, update_where, count_where, any, Session, Action, pure,
  raise, gets, modify, commit, rollback, or_raise, raise_if, ◌>>=◌, ◌>>◌, Result, ok, err, Error,
  http, integrity, RowId, truthy, or_else, is_id, is_none, seconds,
}

pub data Status : Type 0 where
  contextualized calling completed failed : Status

-- A JSON column: whether Python takes the value for true, and the value.
pub record Json : Type 0 where
  pub is_truthy : Bool
  pub value : ℕ

-- `IntegrationExecution`, without the request's descriptive columns.
pub record Execution : Type 0 where
  pub id : RowId
  pub tenant_id : RowId
  pub project_id : RowId
  pub destination_service : RowId
  pub execution_id : RowId
  pub idempotency_key : RowId
  pub request_sha256 : RowId
  pub request_json : Json
  pub upstream_response_json : Option Json
  pub domain_response_json : Option Json
  pub draft_id : RowId
  pub cognitive_execution_id : RowId
  pub status : Status
  pub owner_token : Option RowId
  pub lease_expires_at : Option ℕ
  pub attempt_count : ℕ
  pub latency_ms : Option ℕ
  pub retry_count : ℕ
  pub error_code : Option RowId
  pub completed_at : Option ℕ

abbrev pub Table : Type 0
Table = List Execution

pub data Disposition : Type 0 where
  new replay in_progress failed acquired : Disposition

pub record ClaimResult : Type 0 where
  pub row : Execution
  pub disposition : Disposition
  pub owner_token : Option RowId

abbrev pub has_json : Option Json → Bool
has_json none = false
has_json (some j) = j.is_truthy

abbrev pub is_completed : Status → Bool
is_completed completed = true
is_completed _ = false

abbrev pub is_failed : Status → Bool
is_failed Status.failed = true
is_failed _ = false

abbrev pub is_calling : Status → Bool
is_calling calling = true
is_calling _ = false

-- `status.in_(["contextualized", "calling"])`
abbrev pub is_open : Status → Bool
is_open contextualized = true
is_open calling = true
is_open _ = false

-- Same tenant, destination and key: the columns of `uq_integration_idempotency`.
abbrev pub has_key : RowId → RowId → RowId → Execution → Bool
has_key tenant destination key r =
    r.tenant_id == tenant && r.destination_service == destination && r.idempotency_key == key

unfoldable pub find_execution : RowId → RowId → RowId → Table → Option Execution
find_execution tenant destination key rows = find? (has_key tenant destination key) rows

pub data Constraint : Type 0 where
  uq_integration_idempotency uq_integration_execution_id primary_key : Constraint

-- The constraint that an INSERT of the candidate breaks, if any. Where it breaks several, which one is
-- reported is the database's choice; here it is the idempotency key, the one that a row with new
-- random ids can break.
unfoldable pub violated : Execution → Table → Option Constraint
violated c rows =
    if any (has_key c.tenant_id c.destination_service c.idempotency_key) rows
    then some uq_integration_idempotency
    else if any (λ r. r.tenant_id == c.tenant_id && r.execution_id == c.execution_id) rows
    then some uq_integration_execution_id
    else if any (λ r. r.id == c.id) rows
    then some primary_key
    else none

-- Which constraint the text of the `IntegrityError` names.
abbrev pub integrity_is_expected_idempotency : Constraint → Bool
integrity_is_expected_idempotency uq_integration_idempotency = true
integrity_is_expected_idempotency _ = false

abbrev claim : Execution → Disposition → ClaimResult
claim r d = record { row = r; disposition = d; owner_token = none }

-- What the loser of the unique key is told of the winner's row.
unfoldable pub recover_winner : RowId → Option Execution → Result Error ClaimResult
recover_winner sha none = err (http 409 "idempotency_winner_not_visible")
recover_winner sha (some w) =
    if not (w.request_sha256 == sha)
    then err (http 409 "idempotency_key_reused_with_different_request")
    else if is_completed w.status && has_json w.domain_response_json
    then ok (claim w replay)
    else if is_failed w.status
    then ok (claim w Disposition.failed)
    else ok (claim w in_progress)

-- `commit` of a session that adds the candidate to the committed rows: a breach rolls it back.
unfoldable pub commit_new_or_recover_winner : Execution → RowId → Action Table Error ClaimResult
commit_new_or_recover_winner c sha s = elim (violated c s.committed) [
  | none ↦
      let rows = c ∷ s.working in (ok (claim c new), record { committed = rows; working = rows })
  | some k ↦ (
    if integrity_is_expected_idempotency k
        then recover_winner sha
            (find_execution c.tenant_id c.destination_service c.idempotency_key s.committed)
        else err integrity,
    record { committed = s.committed; working = s.committed },
  )
]

-- `or_(owner is NULL, lease is NULL, lease <= now, owner == me)`
unfoldable pub lease_is_free : RowId → ℕ → Execution → Bool
lease_is_free owner now r =
    is_none r.owner_token
    || elim r.lease_expires_at [ none ↦ true | some t ↦ leb t now ]
    || is_id r.owner_token owner

-- The WHERE clause of the claiming UPDATE.
unfoldable pub is_claimable : Execution → RowId → ℕ → Execution → Bool
unfolding lease_is_free
is_claimable row owner now r =
    r.id == row.id
    && r.tenant_id == row.tenant_id
    && r.request_sha256 == row.request_sha256
    && is_open r.status
    && lease_is_free owner now r

unfoldable pub take_lease : RowId → ℕ → Execution → Execution
take_lease owner expires r = record r {
  status = calling;
  owner_token = some owner;
  lease_expires_at = some expires;
  attempt_count = r.attempt_count + 1;
}

-- The row as `acquire_execution_lease` reads it again after its UPDATE was committed.
unfoldable pub lease_outcome : RowId → ℕ → ℕ → Option Execution → Result Error ClaimResult
lease_outcome owner now count none = err (http 409 "integration_execution_disappeared")
lease_outcome owner now count (some r) =
    if count == 1 && is_id r.owner_token owner
    then ok (record { row = r; disposition = acquired; owner_token = some owner })
    else if is_completed r.status && has_json r.domain_response_json
    then ok (claim r replay)
    else if is_failed r.status
    then ok (claim r Disposition.failed)
    else if is_calling r.status
        && elim r.owner_token [ none ↦ false | some o ↦ truthy o ]
        && elim r.lease_expires_at [ none ↦ false | some t ↦ ltb now t ]
    then ok (claim r in_progress)
    else err (http 409 "integration_execution_claim_conflict")

-- `others` is what other workers commit between the UPDATE and the second read.
unfoldable pub acquire_execution_lease :
    (others : Table → Table) (row : Execution) (lease_seconds : ℕ) (owner_token : Option RowId)
    (uuid : RowId) (now : ℕ)
    → Action Table Error ClaimResult
unfolding is_claimable take_lease lease_outcome
acquire_execution_lease others row lease_seconds owner_token uuid now s =
    let owner = or_else owner_token uuid in
    let mine = is_claimable row owner now in
    let count = count_where mine s.working in
    let updated = update_where mine (take_lease owner (now + seconds lease_seconds)) s.working in
    let rows = others updated in
    (
      lease_outcome owner now count (find? (λ r. r.id == row.id) rows),
      record { committed = rows; working = rows },
    )

-- The WHERE clause of both closing UPDATEs; the database's clock decides.
unfoldable pub is_owned : RowId → RowId → RowId → ℕ → Execution → Bool
is_owned execution tenant owner db_now r =
    r.id == execution
    && r.tenant_id == tenant
    && is_calling r.status
    && is_id r.owner_token owner
    && elim r.lease_expires_at [ none ↦ false | some t ↦ ltb db_now t ]

-- The values that a successful call writes.
pub record Outcome : Type 0 where
  pub upstream : Json
  pub domain : Json
  pub latency_ms : ℕ
  pub retry_count : ℕ

unfoldable pub complete : Outcome → ℕ → Execution → Execution
complete o db_now r = record r {
  status = completed;
  upstream_response_json = some o.upstream;
  domain_response_json = some o.domain;
  latency_ms = some o.latency_ms;
  retry_count = o.retry_count;
  error_code = none;
  completed_at = some db_now;
  owner_token = none;
  lease_expires_at = none;
}

unfoldable pub abandon : RowId → ℕ → Execution → Execution
abandon code db_now r = record r {
  status = Status.failed;
  error_code = some code;
  completed_at = some db_now;
  owner_token = none;
  lease_expires_at = none;
}

-- `update(...).where(is_owned)`, the test of the row count, and the second read.
unfoldable pub close_if_owner :
    (Execution → Execution) → RowId → RowId → RowId → ℕ → Action Table Error Execution
unfolding is_owned
close_if_owner change execution tenant owner db_now s =
    let mine = is_owned execution tenant owner db_now in
    let updated = update_where mine change s.working in
    let undone = record s { working = s.committed } in
    if not (count_where mine s.working == 1)
    then (err (http 409 "integration_execution_ownership_lost"), undone)
    else elim (find? (λ r. r.id == execution) updated) [
      | none ↦ (err (http 409 "integration_execution_disappeared"), undone)
      | some r ↦ (ok r, record s { working = updated })
    ]

unfoldable pub finalize_execution_if_owner :
    RowId → RowId → RowId → Outcome → ℕ → Action Table Error Execution
finalize_execution_if_owner execution tenant owner o db_now =
    close_if_owner (complete o db_now) execution tenant owner db_now

unfoldable pub fail_execution_if_owner :
    RowId → RowId → RowId → RowId → ℕ → Action Table Error Execution
fail_execution_if_owner execution tenant owner code db_now =
    close_if_owner (abandon code db_now) execution tenant owner db_now
