-- ===== src/Idempotency/Steps.antt =====
-- Workers that share the ledger: every operation of src/glip/integration_idempotency.py as one step
-- on the committed rows, in any order, with any clock readings.
use arquitech_glip_premium_b.Prelude.{
  ℕ, ◌+◌, ◌≡◌, refl, Bool, false, inl, inr, Option, none, some, ◌∷◌, arith, ◌==◌, find?,
  update_where, count_where, Action, Error, RowId, Bool-cases, Option-cases, begin, request, commit,
  ◌>>=◌, or_else, seconds,
}
use arquitech_glip_premium_b.Prelude.Tables.{find-update_where_fixed, find-none_of_any}
use arquitech_glip_premium_b.Idempotency.{
  Constraint, Execution, Table, Outcome, has_key, is_open, find_execution, violated,
  commit_new_or_recover_winner, is_claimable, take_lease, acquire_execution_lease, is_owned,
  complete, abandon, close_if_owner, finalize_execution_if_owner, fail_execution_if_owner,
}
use arquitech_glip_premium_b.Idempotency.Keys.{
  IsLedger, IsQuiet, take_lease-IsQuiet, complete-IsQuiet, abandon-IsQuiet, update-IsLedger,
  insert-IsLedger, violated-none, has_key_eq,
}

-- The rows that a request leaves behind, as a worker that commits a successful closing does.
abbrev pub after : {A : Type 0} → Action Table Error A → Table → Table
after m rows = (request (do r ← m; commit) rows).1

pub data Step (t : Table) : Table → Type 0 where
  claims : (c : Execution) (sha : RowId) → Step t (after (commit_new_or_recover_winner c sha) t)
  leases :
      (row : Execution) (n : ℕ) (token : Option RowId) (uuid : RowId) (now : ℕ)
      → Step t (after (acquire_execution_lease (λ rows. rows) row n token uuid now) t)
  finalizes :
      (e tenant owner : RowId) (o : Outcome) (now : ℕ)
      → Step t (after (finalize_execution_if_owner e tenant owner o now) t)
  fails :
      (e tenant owner code : RowId) (now : ℕ)
      → Step t (after (fail_execution_if_owner e tenant owner code now) t)

pub data Reach (t : Table) : Table → Type 0 where
  here : Reach t t
  next : {u v : Table} → Reach t u → Step u v → Reach t v

-- The owner token that a step writes on the rows that it updates.
unfoldable pub written : {t u : Table} → Step t u → Option RowId
written (claims c sha) = none
written (leases row n token uuid now) = some (or_else token uuid)
written (finalizes e tenant owner o now) = none
written (fails e tenant owner code now) = none

-- Each step inserts a row that breaks no constraint, updates some rows that are open and writes its
-- owner token on them, or does nothing.
pub data Change (w : Option RowId) (t : Table) (u : Table) : Type 0 where
  same : u ≡ t → Change w t u
  inserted : (c : Execution) → violated c t ≡ none → u ≡ c ∷ t → Change w t u
  updated :
      (p : Execution → Bool) (f : Execution → Execution)
      → IsQuiet f
      → ((r : Execution) → is_open r.status ≡ false → p r ≡ false)
      → ((r : Execution) → (f r).owner_token ≡ w)
      → u ≡ update_where p f t
      → Change w t u

-- A handler that commits all that it writes.
after-settled :
    {A : Type 0} (u t : Table) (m : Action Table Error A)
    → (m (begin t)).1 ≡ record { committed = u; working = u }
    → after m t ≡ u
after-settled u t m h = ground (arith, h)

commit_new-free :
    (c : Execution) (sha : RowId) (t : Table)
    → violated c t ≡ none
    → after (commit_new_or_recover_winner c sha) t ≡ c ∷ t
unfolding commit_new_or_recover_winner
commit_new-free c sha t h = ground (arith, h)

commit_new-taken :
    (c : Execution) (sha : RowId) (t : Table) {k : Constraint}
    → violated c t ≡ some k
    → after (commit_new_or_recover_winner c sha) t ≡ t
unfolding commit_new_or_recover_winner
commit_new-taken c sha t {k} h =
    after-settled t t (commit_new_or_recover_winner c sha) (ground (arith, h))

commit_new-Change :
    (c : Execution) (sha : RowId) (t : Table)
    → Change none t (after (commit_new_or_recover_winner c sha) t)
commit_new-Change c sha t = elim (Option-cases (violated c t)) [
  | inl free ↦ inserted c free (commit_new-free c sha t free)
  | inr (k, taken) ↦ same (commit_new-taken c sha t taken)
]

is_claimable_open :
    (row : Execution) (owner : RowId) (now : ℕ) (r : Execution)
    → is_open r.status ≡ false
    → is_claimable row owner now r ≡ false
unfolding is_claimable
is_claimable_open row owner now r h = ground arith

is_owned_open :
    (e tenant owner : RowId) (now : ℕ) (r : Execution)
    → is_open r.status ≡ false
    → is_owned e tenant owner now r ≡ false
unfolding is_owned
is_owned_open e tenant owner now r h = ground arith

acquire-Change :
    (row : Execution) (n : ℕ) (token : Option RowId) (uuid : RowId) (now : ℕ) (t : Table)
    → Change
        (some (or_else token uuid))
        t
        (after (acquire_execution_lease (λ rows. rows) row n token uuid now) t)
unfolding acquire_execution_lease take_lease
acquire-Change row n token uuid now t =
    let owner = or_else token uuid in
    updated (is_claimable row owner now) (take_lease owner (now + seconds n))
      (take_lease-IsQuiet _ _) (is_claimable_open row owner now) (λ r. refl)
      (after-settled _ t (acquire_execution_lease (λ rows. rows) row n token uuid now) refl)

close-Change :
    (f : Execution → Execution) (e tenant owner : RowId) (now : ℕ) (t : Table)
    → IsQuiet f
    → ((r : Execution) → (f r).owner_token ≡ none)
    → Change none t (after (close_if_owner f e tenant owner now) t)
unfolding close_if_owner
close-Change f e tenant owner now t q freed =
    elim (Bool-cases (count_where (is_owned e tenant owner now) t == 1)) [
      | inl mine ↦
          elim (Option-cases
            (find? (λ r. r.id == e) (update_where (is_owned e tenant owner now) f t))) [
              | inl gone ↦ same (ground (arith, mine, gone))
              | inr (r, there) ↦
                  updated (is_owned e tenant owner now) f q (is_owned_open e tenant owner now) freed
                    (ground (arith, mine, there))
            ]
      | inr lost ↦ same (ground (arith, lost))
    ]

pub Step-Change : {t u : Table} (s : Step t u) → Change (written s) t u
unfolding finalize_execution_if_owner fail_execution_if_owner written complete abandon
Step-Change {t} (claims c sha) = commit_new-Change c sha t
Step-Change {t} (leases row n token uuid now) = acquire-Change row n token uuid now t
Step-Change {t} (finalizes e tenant owner o now) =
    close-Change (complete o now) e tenant owner now t (complete-IsQuiet o now) (λ r. refl)
Step-Change {t} (fails e tenant owner code now) =
    close-Change (abandon code now) e tenant owner now t (abandon-IsQuiet code now) (λ r. refl)

Change-IsLedger : {w : Option RowId} {t u : Table} → Change w t u → IsLedger t → IsLedger u
Change-IsLedger (same e) l = rw e l
Change-IsLedger {t} (inserted c free e) l = rw e (insert-IsLedger c t free l)
Change-IsLedger {t} (updated p f q _ _ e) l = rw e (update-IsLedger p f t q l)

-- From a table without duplicate keys, whatever the workers do, in whatever order and by whatever
-- clocks, no two rows share an id and no two rows share a tenant, destination and key.
pub Reach-IsLedger : {t u : Table} → Reach t u → IsLedger t → IsLedger u
Reach-IsLedger here l = l
Reach-IsLedger (next r s) l = Change-IsLedger (Step-Change s) (Reach-IsLedger r l)

Change-closed :
    {w : Option RowId} {t u : Table} (a b k : RowId) {r : Execution}
    → Change w t u
    → is_open r.status ≡ false
    → find? (has_key a b k) t ≡ some r
    → find? (has_key a b k) u ≡ some r
Change-closed a b k (same e) closed h = rw e h
Change-closed {t} a b k (updated p f q shut freed e) closed h =
    rw e (find-update_where_fixed p (has_key a b k) f t (q.same_key a b k) (shut _ closed) h)
Change-closed {t} a b k (inserted c free e) closed h = elim (Bool-cases (has_key a b k c)) [
  | inl mine ↦
      let (x, y, z) = has_key_eq a b k c mine in
      let absent : find? (has_key a b k) t ≡ none =
        rw (x, y, z) at (find-none_of_any _ t (violated-none c t free).0) in
      cc
  | inr other ↦ rw e (ground (arith, other))
]

-- A completed or failed row is never changed again, whatever the workers do: its key leads to the
-- same row, response included.
pub Reach-closed :
    {t u : Table} (a b k : RowId) {r : Execution}
    → Reach t u
    → is_open r.status ≡ false
    → find_execution a b k t ≡ some r
    → find_execution a b k u ≡ some r
unfolding find_execution
Reach-closed a b k here closed h = h
Reach-closed a b k (next w s) closed h =
    Change-closed a b k (Step-Change s) closed (Reach-closed a b k w closed h)

Change-closed_id :
    {w : Option RowId} {t u : Table} (i : RowId) {r : Execution}
    → Change w t u
    → is_open r.status ≡ false
    → find? (λ x. x.id == i) t ≡ some r
    → find? (λ x. x.id == i) u ≡ some r
Change-closed_id i (same e) closed h = rw e h
Change-closed_id {t} i (updated p f q shut freed e) closed h =
    rw e (find-update_where_fixed p (λ x. x.id == i) f t (λ r. rw (q.same_id r)) (shut _ closed) h)
Change-closed_id {t} i (inserted c free e) closed h = elim (Bool-cases (c.id == i)) [
  | inl mine ↦
      let absent : find? (λ x. x.id == i) t ≡ none =
        let x : c.id ≡ i = ground arith in
        rw x at (find-none_of_any (λ r. r.id == c.id) t (violated-none c t free).1) in
      cc
  | inr other ↦ rw e (ground (arith, other))
]

pub Reach-closed_id :
    {t u : Table} (i : RowId) {r : Execution}
    → Reach t u
    → is_open r.status ≡ false
    → find? (λ x. x.id == i) t ≡ some r
    → find? (λ x. x.id == i) u ≡ some r
Reach-closed_id i here closed h = h
Reach-closed_id i (next w s) closed h =
    Change-closed_id i (Step-Change s) closed (Reach-closed_id i w closed h)
