-- ===== src/Idempotency/Others.antt =====
-- What workers of src/glip/integration_idempotency.py do while one owner token is not used for a lease:
-- a row that does not carry the token will not carry it.
use arquitech_glip_premium_b.Prelude.{
  ℕ, ◌≡◌, ◌≢◌, ap, ◌∙◌, false, inl, inr, Option, none, some, arith, ◌==◌, find?, RowId, Bool-cases,
  is_id,
}
use arquitech_glip_premium_b.Prelude.Tables.{find-none_of_any}
use arquitech_glip_premium_b.Idempotency.{Execution, Table, is_owned}
use arquitech_glip_premium_b.Idempotency.Keys.{violated-none}
use arquitech_glip_premium_b.Idempotency.Lease.{stored, stored-update}
use arquitech_glip_premium_b.Idempotency.Steps.{
  Step, Reach, here, next, written, Change, same, inserted, updated, Step-Change,
}

-- Steps of which none takes a lease under the token.
pub data Without (owner : RowId) (t : Table) : Table → Type 0 where
  start : Without owner t t
  step :
      {u v : Table}
      → Without owner t u
      → (s : Step u v) → written s ≢ some owner
      → Without owner t v

pub Without-Reach : {owner : RowId} {t u : Table} → Without owner t u → Reach t u
Without-Reach start = here
Without-Reach (step w s other) = next (Without-Reach w) s

-- The row under the id is there, and is not the token's.
unfoldable pub NotOf : RowId → RowId → Table → Type 0
NotOf owner i t = (r : Execution) × (stored i t ≡ some r) × (is_id r.owner_token owner ≡ false)

written_other :
    (w o : Option RowId) (owner : RowId) → o ≡ w → w ≢ some owner → is_id o owner ≡ false
written_other none o owner e other = ap (λ v. is_id v owner) e
written_other (some x) o owner e other = elim (Bool-cases (x == owner)) [
  | inl mine ↦ let own : x ≡ owner = ground (arith, mine) in absurd (other (ap some own))
  | inr apart ↦ ap (λ v. is_id v owner) e ∙ apart
]

Change-NotOf :
    {w : Option RowId} {t u : Table} (owner i : RowId)
    → Change w t u
    → w ≢ some owner
    → NotOf owner i t
    → NotOf owner i u
unfolding NotOf
Change-NotOf owner i (same e) other (r, there, free) = (r, rw e there, free)
Change-NotOf {t = t} owner i (inserted c fits e) other (r, there, free) =
    elim (Bool-cases (c.id == i)) [
      | inl mine ↦
          let absent : find? (λ x. x.id == i) t ≡ none =
            let x : c.id ≡ i = ground arith in
            rw x at (find-none_of_any (λ r. r.id == c.id) t (violated-none c t fits).1) in
          cc
      | inr apart ↦ (r, rw e (ground (arith, apart, there)), free)
    ]
Change-NotOf {t = t} owner i (updated p f q shut freed e) other (r, there, free) =
    let found = stored-update p f i t q there in
    elim (Bool-cases (p r)) [
      | inl hit ↦ (
        f r,
        rw e (ground (arith, found, hit)),
        written_other _ (f r).owner_token owner (freed r) other,
      )
      | inr miss ↦ (r, rw e (ground (arith, found, miss)), free)
    ]

pub Without-NotOf :
    {owner : RowId} {t u : Table} (i : RowId)
    → Without owner t u
    → NotOf owner i t
    → NotOf owner i u
Without-NotOf i start h = h
Without-NotOf {owner} i (step w s other) h =
    Change-NotOf owner i (Step-Change s) other (Without-NotOf i w h)

pub not_of_owned :
    (e tenant owner : RowId) (now : ℕ) (r : Execution)
    → is_id r.owner_token owner ≡ false
    → is_owned e tenant owner now r ≡ false
unfolding is_owned
not_of_owned e tenant owner now r h = ground (arith, h)
