-- ===== src/Idempotency/Lease.antt =====
-- Who may run and close a call: the lease of src/glip/integration_idempotency.py.
use arquitech_glip_premium_b.Prelude.{
  ℕ, ◌+◌, ◌*◌, ◌<◌, ◌≡◌, ◌≢◌, refl, ap, sym, ◌∙◌, [], ◌∷◌, inl, inr, Bool-cases, Bool, true, false,
  Option, none, some, arith, ◌==◌, if◌then◌else◌, find?, update_where, count_where, Session, ok,
  err, http, RowId, begin, or_else, seconds, truthy,
}
use arquitech_glip_premium_b.Prelude.Tables.{
  find-update_unique, count_unique, update_where-none, find-holds,
}
use arquitech_glip_premium_b.Idempotency.{
  Execution, Table, calling, in_progress, acquired, is_open, is_claimable, take_lease,
  lease_outcome, acquire_execution_lease, is_owned, close_if_owner, lease_is_free,
}
use arquitech_glip_premium_b.Idempotency.Keys.{IsLedger, IsQuiet, take_lease-IsQuiet}

-- The row under an id.
abbrev pub stored : RowId → Table → Option Execution
stored i t = find? (λ r. r.id == i) t

-- What the two UPDATEs do to a ledger: they count and change the stored row alone.
quiet_id :
    (f : Execution → Execution) (i : RowId)
    → IsQuiet f
    → (r : Execution) → ((f r).id == i) ≡ (r.id == i)
quiet_id f i q r = rw (q.same_id r)

pub stored-update :
    (p : Execution → Bool) (f : Execution → Execution) (i : RowId) (t : Table) {r : Execution}
    → IsQuiet f
    → stored i t ≡ some r
    → stored i (update_where p f t) ≡ some (if p r then f r else r)
stored-update p f i t q h = find-update_unique p (λ r. r.id == i) f t (quiet_id f i q) h

-- The rows of an id that the UPDATE does not meet stay as they are.
stored_apart :
    (p : Execution → Bool) (f : Execution → Execution) (i : RowId) (t : Table)
    → IsQuiet f
    → ((x : Execution) → (x.id == i) ≡ true → p x ≡ false)
    → stored i (update_where p f t) ≡ stored i t
stored_apart p f i [] q shut = refl
stored_apart p f i (x ∷ xs) q shut = elim (Bool-cases (x.id == i)) [
  | inl mine ↦ ground (arith, mine, shut x mine)
  | inr apart ↦ elim (Bool-cases (p x)) [
    | inl hit ↦ ground (arith, apart, hit, quiet_id f i q x, stored_apart p f i xs q shut)
    | inr miss ↦ ground (arith, apart, miss, stored_apart p f i xs q shut)
  ]
]

is_claimable_id :
    (row : Execution) (owner : RowId) (now : ℕ) (r : Execution)
    → (r.id == row.id) ≡ false
    → is_claimable row owner now r ≡ false
unfolding is_claimable
is_claimable_id row owner now r h = ground arith

is_owned_id :
    (e tenant owner : RowId) (now : ℕ) (r : Execution)
    → (r.id == e) ≡ false
    → is_owned e tenant owner now r ≡ false
unfolding is_owned
is_owned_id e tenant owner now r h = ground arith

pub claimable_count :
    (row : Execution) (owner : RowId) (now : ℕ) (t : Table) {r : Execution}
    → IsLedger t
    → stored row.id t ≡ some r
    → count_where (is_claimable row owner now) t ≡ (if is_claimable row owner now r then 1 else 0)
claimable_count row owner now t l h =
    count_unique (is_claimable row owner now) (λ r. r.id == row.id) t
      (is_claimable_id row owner now) (l.ids row.id) h

pub owned_count :
    (e tenant owner : RowId) (now : ℕ) (t : Table) {r : Execution}
    → IsLedger t
    → stored e t ≡ some r
    → count_where (is_owned e tenant owner now) t ≡ (if is_owned e tenant owner now r then 1 else 0)
owned_count e tenant owner now t l h =
    count_unique (is_owned e tenant owner now) (λ r. r.id == e) t (is_owned_id e tenant owner now)
      (l.ids e) h

-- A live lease of another owner.
pub record IsHeld (r : Execution) (holder : RowId) (until : ℕ) : Type 0 where
  pub runs : r.status ≡ calling
  pub owner : r.owner_token ≡ some holder
  pub expires : r.lease_expires_at ≡ some until

held_not_claimable :
    (row : Execution) (owner holder : RowId) (now until : ℕ) (r : Execution)
    → IsHeld r holder until
    → now < until
    → owner ≢ holder
    → is_claimable row owner now r ≡ false
unfolding is_claimable
held_not_claimable row owner holder now until r h live other = ground arith

held_outcome :
    (owner holder : RowId) (now until : ℕ) (r : Execution)
    → IsHeld r holder until
    → now < until
    → owner ≢ holder
    → truthy holder ≡ true
    → lease_outcome owner now 0 (some r)
      ≡ ok (record { row = r; disposition = in_progress; owner_token = none })
unfolding lease_outcome
held_outcome owner holder now until r h live other named = ground arith

-- In a table without duplicate keys, while a lease with a nonempty token is live, a worker with
-- another token is told IN_PROGRESS and changes no row.
pub acquire_held :
    (t : Table) (row r : Execution) (n : ℕ) (token : Option RowId) (uuid holder : RowId)
    (now until : ℕ)
    → IsLedger t
    → stored row.id t ≡ some r
    → IsHeld r holder until
    → truthy holder ≡ true
    → now < until
    → or_else token uuid ≢ holder
    → acquire_execution_lease (λ rows. rows) row n token uuid now (begin t)
      ≡ (ok (record { row = r; disposition = in_progress; owner_token = none }), begin t)
unfolding acquire_execution_lease
acquire_held t row r n token uuid holder now until l h held named live other =
    let owner = or_else token uuid in
    let shut = held_not_claimable row owner holder now until r held live other in
    let none_mine : count_where (is_claimable row owner now) t ≡ 0 =
      ground (arith, claimable_count row owner now t l h) in
    rw (
      update_where-none (is_claimable row owner now) (take_lease owner (now + seconds n)) t
          none_mine,
      none_mine,
      h,
      held_outcome owner holder now until r held live other named,
    )

-- The committed rows that a lease leaves.
abbrev pub leased : Execution → RowId → ℕ → ℕ → Table → Table
leased row owner n now t =
    update_where (is_claimable row owner now) (take_lease owner (now + seconds n)) t

free_claimable :
    (row r : Execution) (owner : RowId) (now : ℕ)
    → r.id ≡ row.id
    → r.tenant_id ≡ row.tenant_id
    → r.request_sha256 ≡ row.request_sha256
    → is_open r.status ≡ true
    → lease_is_free owner now r ≡ true
    → is_claimable row owner now r ≡ true
unfolding is_claimable
free_claimable row r owner now a b c d e = ground arith

acquired_outcome :
    (owner : RowId) (now expires : ℕ) (r : Execution)
    → lease_outcome owner now 1 (some (take_lease owner expires r))
      ≡ ok (record {
        row = take_lease owner expires r;
        disposition = acquired;
        owner_token = some owner;
      })
unfolding lease_outcome take_lease
acquired_outcome owner now expires r = ground arith

pub stored_id : (i : RowId) (t : Table) {r : Execution} → stored i t ≡ some r → r.id ≡ i
stored_id i t {r} h = let e = find-holds (λ r. r.id == i) t h in ground arith

-- The same outcome, by the names of the helpers.
pub acquire_leases :
    (t : Table) (row r : Execution) (n : ℕ) (token : Option RowId) (uuid : RowId) (now : ℕ)
    → IsLedger t
    → stored row.id t ≡ some r
    → r.tenant_id ≡ row.tenant_id
    → r.request_sha256 ≡ row.request_sha256
    → is_open r.status ≡ true
    → lease_is_free (or_else token uuid) now r ≡ true
    → let owner = or_else token uuid in
      let won = take_lease owner (now + seconds n) r in
      let rows = leased row owner n now t in
      (acquire_execution_lease (λ rows. rows) row n token uuid now (begin t)
        ≡ (ok (record { row = won; disposition = acquired; owner_token = some owner }), begin rows))
      × (stored row.id rows ≡ some won)
unfolding acquire_execution_lease
acquire_leases t row r n token uuid now l h b c d e =
    let owner = or_else token uuid in
    let mine = free_claimable row r owner now (stored_id row.id t h) b c d e in
    let one : count_where (is_claimable row owner now) t ≡ 1 =
      ground (arith, claimable_count row owner now t l h) in
    let found : stored row.id (leased row owner n now t)
        ≡ some (take_lease owner (now + seconds n) r) =
      ground (
        arith,
        stored-update (is_claimable row owner now) (take_lease owner (now + seconds n)) row.id t
            (take_lease-IsQuiet owner (now + seconds n)) h,
      ) in
    (rw (one, found, acquired_outcome owner now (now + seconds n) r), found)

-- In a table without duplicate keys, an open row of the tenant and digest whose lease is free is
-- acquired: the stored row is that row with the status calling, the worker's token, an expiry the
-- lease's seconds from now, and one more attempt; it is committed, and the rows of other ids stay
-- as they are.
pub acquire_free :
    (t : Table) (row r : Execution) (n : ℕ) (token : Option RowId) (uuid : RowId) (now : ℕ)
    → IsLedger t
    → stored row.id t ≡ some r
    → r.tenant_id ≡ row.tenant_id
    → r.request_sha256 ≡ row.request_sha256
    → is_open r.status ≡ true
    → lease_is_free (or_else token uuid) now r ≡ true
    → let owner = or_else token uuid in
      let won = record r {
        status = calling;
        owner_token = some owner;
        lease_expires_at = some (now + n * 1000000);
        attempt_count = r.attempt_count + 1;
      } in
      let run = acquire_execution_lease (λ rows. rows) row n token uuid now (begin t) in
      (run.0 ≡ ok (record { row = won; disposition = acquired; owner_token = some owner }))
      × (run.1.working ≡ run.1.committed)
      × (stored row.id run.1.committed ≡ some won)
      × ((i : RowId) → (row.id == i) ≡ false → stored i run.1.committed ≡ stored i t)
unfolding take_lease
acquire_free t row r n token uuid now l h b c d e =
    let owner = or_else token uuid in
    let (outcome, there) = acquire_leases t row r n token uuid now l h b c d e in
    let rows = ap (λ x. x.1.committed) outcome in
    (
      ap (λ x. x.0) outcome,
      ap (λ x. x.1.working) outcome ∙ sym rows,
      ap (stored row.id) rows ∙ there,
      λ i apart.
          ap (stored i) rows
          ∙ stored_apart (is_claimable row owner now) (take_lease owner (now + seconds n)) i t
              (take_lease-IsQuiet owner (now + seconds n))
              (λ x mine. is_claimable_id row owner now x (ground (arith, mine, apart))),
    )

module _ (f : Execution → Execution) (quiet : IsQuiet f) (e tenant owner : RowId) (now : ℕ)
    (s : Session Table) {r : Execution} (l : IsLedger s.working)
    (h : stored e s.working ≡ some r) where
  -- A closing UPDATE of a row that is not owned reports it and rolls the session back.
  pub close_lost :
      is_owned e tenant owner now r ≡ false
      → close_if_owner f e tenant owner now s ≡ (
        err (http 409 "integration_execution_ownership_lost"),
        record s { working = s.committed },
      )
  unfolding close_if_owner
  close_lost lost =
      let none_mine : count_where (is_owned e tenant owner now) s.working ≡ 0 =
        ground (arith, owned_count e tenant owner now s.working l h) in
      rw none_mine

  pub close_owned :
      is_owned e tenant owner now r ≡ true
      → (close_if_owner f e tenant owner now s ≡ (
        ok (f r),
        record s { working = update_where (is_owned e tenant owner now) f s.working },
      ))
        × (stored e (update_where (is_owned e tenant owner now) f s.working) ≡ some (f r))
  unfolding close_if_owner
  close_owned mine =
      let one : count_where (is_owned e tenant owner now) s.working ≡ 1 =
        ground (arith, owned_count e tenant owner now s.working l h) in
      let found : stored e (update_where (is_owned e tenant owner now) f s.working) ≡ some (f r) =
        ground (arith, stored-update (is_owned e tenant owner now) f e s.working quiet h) in
      (rw (one, found), found)
