-- ===== src/Idempotency/Lifecycle.antt =====
-- The life of one call in src/glip/integration_idempotency.py: takeover of an expired lease, a single
-- completion, and the replay of its response.
use arquitech_glip_premium_b.Prelude.{
  if◌then◌else◌, Bool-cases, ◌==◌, inl, inr, refl, ℕ, ◌+◌, ◌*◌, ◌<◌, ◌∙◌, subst, ◌≡◌, ◌≢◌, true,
  false, Option, none, some, arith, Session, Result, ok, err, Error, http, RowId, begin, or_else,
  seconds, ap,
}
use arquitech_glip_premium_b.Prelude.Tables.{any-of_find}
use arquitech_glip_premium_b.Idempotency.{
  completed, uq_integration_idempotency, Execution, Table, replay, Outcome, has_key, has_json,
  is_open, is_completed, find_execution, violated, recover_winner, commit_new_or_recover_winner,
  take_lease, acquire_execution_lease, is_owned, complete, abandon, finalize_execution_if_owner,
  fail_execution_if_owner, lease_is_free, is_claimable,
}
use arquitech_glip_premium_b.Idempotency.Keys.{
  IsLedger, IsQuiet, take_lease-IsQuiet, complete-IsQuiet, abandon-IsQuiet, update-IsLedger,
}
use arquitech_glip_premium_b.Idempotency.Steps.{
  Reach, Reach-closed, Reach-closed_id, Reach-IsLedger,
}
use arquitech_glip_premium_b.Idempotency.Lease.{
  stored, stored_id, leased, acquire_leases, close_lost, close_owned,
}
use arquitech_glip_premium_b.Idempotency.Others.{
  Without, Without-Reach, NotOf, Without-NotOf, not_of_owned,
}

abbrev pub lost : {A : Type 0} → Session Table → Result Error A × Session Table
lost s = (err (http 409 "integration_execution_ownership_lost"), record s { working = s.committed })

closed_not_owned :
    (e tenant owner : RowId) (now : ℕ) (r : Execution)
    → is_open r.status ≡ false
    → is_owned e tenant owner now r ≡ false
unfolding is_owned
closed_not_owned e tenant owner now r h = ground arith

-- A row that is completed or failed, in a table without duplicate keys, can be closed by nobody
-- again: in every reachable table both closing operations report lost ownership, for any token and
-- time, and roll the session back.
pub closed_once :
    {t u : Table} (e tenant owner code : RowId) (o : Outcome) (now : ℕ) (s : Session Table)
    {r : Execution}
    → IsLedger t
    → stored e t ≡ some r
    → is_open r.status ≡ false
    → Reach t u
    → s.working ≡ u
    → (finalize_execution_if_owner e tenant owner o now s ≡ lost s)
      × (fail_execution_if_owner e tenant owner code now s ≡ lost s)
unfolding finalize_execution_if_owner fail_execution_if_owner
closed_once e tenant owner code o now s {r} l h closed w at_u =
    let there : stored e s.working ≡ some r = rw at_u (Reach-closed_id e w closed h) in
    let ledger : IsLedger s.working = rw at_u (Reach-IsLedger w l) in
    let free = closed_not_owned e tenant owner now r closed in
    (
      close_lost (complete o now) (complete-IsQuiet o now) e tenant owner now s ledger there free,
      close_lost (abandon code now) (abandon-IsQuiet code now) e tenant owner now s ledger there
          free,
    )

recover_replay :
    (sha : RowId) (r : Execution)
    → r.request_sha256 ≡ sha
    → is_completed r.status ≡ true
    → has_json r.domain_response_json ≡ true
    → recover_winner sha (some r)
      ≡ ok (record { row = r; disposition = replay; owner_token = none })
unfolding recover_winner
recover_replay sha r a b c = ground arith

recover_reused :
    (sha : RowId) (r : Execution)
    → r.request_sha256 ≢ sha
    → recover_winner sha (some r) ≡ err (http 409 "idempotency_key_reused_with_different_request")
unfolding recover_winner
recover_reused sha r a = ground arith

violated-taken :
    (c : Execution) (t : Table) {r : Execution}
    → find_execution c.tenant_id c.destination_service c.idempotency_key t ≡ some r
    → violated c t ≡ some uq_integration_idempotency
unfolding violated find_execution
violated-taken c t h =
    rw (any-of_find (has_key c.tenant_id c.destination_service c.idempotency_key) t h)

-- The loser of a unique key writes nothing and is answered from the winner's row.
pub commit_new-loses :
    (c : Execution) (sha : RowId) (s : Session Table) {r : Execution}
    → find_execution c.tenant_id c.destination_service c.idempotency_key s.committed ≡ some r
    → commit_new_or_recover_winner c sha s
      ≡ (recover_winner sha (some r), record s { working = s.committed })
unfolding commit_new_or_recover_winner
commit_new-loses c sha s h = ground (arith, violated-taken c s.committed h, h)

-- In every table reachable from a completed row with a response, a new submission under its key
-- writes nothing: the same digest is answered by the completed row, another digest is refused with
-- 409.
pub completed_replays :
    {t u : Table} (c r : Execution) (sha : RowId) (s : Session Table)
    → find_execution c.tenant_id c.destination_service c.idempotency_key t ≡ some r
    → is_completed r.status ≡ true
    → has_json r.domain_response_json ≡ true
    → Reach t u
    → s.committed ≡ u
    → commit_new_or_recover_winner c sha s ≡ (
      (if r.request_sha256 == sha
          then ok (record { row = r; disposition = replay; owner_token = none })
          else err (http 409 "idempotency_key_reused_with_different_request")),
      record s { working = s.committed },
    )
completed_replays {t} c r sha s h done full w at_u =
    let closed : is_open r.status ≡ false = ground arith in
    let there : find_execution c.tenant_id c.destination_service c.idempotency_key s.committed
        ≡ some r =
      rw at_u (Reach-closed c.tenant_id c.destination_service c.idempotency_key w closed h) in
    elim (Bool-cases (r.request_sha256 == sha)) [
      | inl e ↦
          let same : r.request_sha256 ≡ sha = ground arith in
          rw (commit_new-loses c sha s there, recover_replay sha r same done full, e) refl
      | inr e ↦
          let other : r.request_sha256 ≢ sha = λ z. ground arith in
          rw (commit_new-loses c sha s there, recover_reused sha r other, e) refl
    ]

taken_owned :
    (e tenant thief : RowId) (now expires : ℕ) (r : Execution)
    → r.id ≡ e
    → r.tenant_id ≡ tenant
    → now < expires
    → is_owned e tenant thief now (take_lease thief expires r) ≡ true
unfolding is_owned take_lease
taken_owned e tenant thief now expires r a b c = ground arith

module _ (t : Table) (row r : Execution) (n : ℕ) (token : Option RowId) (uuid : RowId) (now : ℕ)
    (l : IsLedger t) (h : stored row.id t ≡ some r) (a : r.tenant_id ≡ row.tenant_id)
    (b : r.request_sha256 ≡ row.request_sha256) (c : is_open r.status ≡ true)
    (d : lease_is_free (or_else token uuid) now r ≡ true) where
  abbrev thief : RowId
  thief = or_else token uuid

  abbrev taken : Session Table
  taken = begin (leased row thief n now t)

  taken-IsLedger : IsLedger taken.working
  taken-IsLedger =
      update-IsLedger (is_claimable row thief now) (take_lease thief (now + seconds n)) t
        (take_lease-IsQuiet thief (now + seconds n)) l

  acquired_rows :
      ((acquire_execution_lease (λ rows. rows) row n token uuid now (begin t)).1 ≡ taken)
      × (stored row.id taken.working ≡ some (take_lease thief (now + seconds n) r))
  acquired_rows =
      let (outcome, there) = acquire_leases t row r n token uuid now l h a b c d in
      (ap (λ x. x.1) outcome, there)

  -- Once a worker has acquired an open row of its tenant and digest whose lease was free, in a
  -- table without duplicate keys, an owner with another token can neither finalize nor fail it,
  -- whatever steps the workers have taken since, as long as none of them took a lease under that
  -- token, and at any time: each try, in any session that sees those rows, reports lost ownership
  -- and goes back to the rows that the session has committed.
  pub takeover :
      (previous code : RowId) (later : ℕ) (o : Outcome) (s : Session Table)
      → previous ≢ or_else token uuid
      → Without previous
          (acquire_execution_lease (λ rows. rows) row n token uuid now (begin t)).1.committed
          s.working
      → (finalize_execution_if_owner row.id row.tenant_id previous o later s ≡ lost s)
        × (fail_execution_if_owner row.id row.tenant_id previous code later s ≡ lost s)
  unfolding finalize_execution_if_owner fail_execution_if_owner NotOf take_lease
  takeover previous code later o s other w =
      let (rows, there) = acquired_rows in
      let since : Without previous taken.committed s.working =
        subst (λ x. Without previous x.committed s.working) rows w in
      let at_first : NotOf previous row.id taken.committed =
        (take_lease thief (now + seconds n) r, there, ground (arith, other)) in
      let (now_there, found, free) = Without-NotOf row.id since at_first in
      let ledger = Reach-IsLedger (Without-Reach since) taken-IsLedger in
      let shut = not_of_owned row.id row.tenant_id previous later now_there free in
      let refused = λ (f : Execution → Execution) (q : IsQuiet f).
        close_lost f q row.id row.tenant_id previous later s ledger found shut in
      (
        refused (complete o later) (complete-IsQuiet o later),
        refused (abandon code later) (abandon-IsQuiet code later),
      )

  -- Once a worker has acquired an open row of its tenant and digest whose lease was free, in a
  -- table without duplicate keys, it completes the row at any database time before the new expiry:
  -- the row is stored as completed at that time, with the responses and the figures of the outcome
  -- and without an owner, a lease or an error, in a session that is not yet committed.
  pub taken_completes :
      (later : ℕ) (o : Outcome)
      → later < now + n * 1000000
      → let s = (acquire_execution_lease (λ rows. rows) row n token uuid now (begin t)).1 in
        let run = finalize_execution_if_owner row.id row.tenant_id (or_else token uuid) o later s in
        let done = record r {
          status = completed;
          upstream_response_json = some o.upstream;
          domain_response_json = some o.domain;
          latency_ms = some o.latency_ms;
          retry_count = o.retry_count;
          error_code = none;
          completed_at = some later;
          owner_token = none;
          lease_expires_at = none;
          attempt_count = r.attempt_count + 1;
        } in
        (run.0 ≡ ok done)
        × (stored row.id run.1.working ≡ some done)
        × (run.1.committed ≡ s.committed)
  unfolding finalize_execution_if_owner complete take_lease
  taken_completes later o live =
      let (rows, there) = acquired_rows in
      let mine =
        taken_owned row.id row.tenant_id thief later (now + seconds n) r (stored_id row.id t h) a
          live in
      let (closed, found) =
        close_owned (complete o later) (complete-IsQuiet o later) row.id row.tenant_id thief later
          taken taken-IsLedger there mine in
      rw rows (
        ap (λ x. x.0) closed,
        ap (λ x. stored row.id x.1.working) closed ∙ found,
        ap (λ x. x.1.committed) closed,
      )
