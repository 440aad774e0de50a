-- ===== src/Idempotency/Keys.antt =====
-- What each operation of src/glip/integration_idempotency.py does to the identity of the rows.
use arquitech_glip_premium_b.Prelude.{
  ℕ, ◌≤◌, ◌≡◌, refl, Bool, true, false, inl, inr, none, ◌∷◌, arith, ◌==◌, update_where, count_where,
  any, RowId, Bool-cases,
}
use arquitech_glip_premium_b.Prelude.Tables.{count-update_where, count-zero_of_any}
use arquitech_glip_premium_b.Idempotency.{
  Execution, Table, Outcome, has_key, violated, take_lease, complete, abandon,
}

-- The primary key and the unique key of `integration_executions`.
pub record IsLedger (rows : Table) : Type 0 where
  pub ids : (i : RowId) → count_where (λ r. r.id == i) rows ≤ 1
  pub keys : (a b c : RowId) → count_where (has_key a b c) rows ≤ 1

-- The updates of a row, by what the ledger's UPDATE statements set.
pub record IsQuiet (f : Execution → Execution) : Type 0 where
  pub same_id : (r : Execution) → (f r).id ≡ r.id
  pub same_key : (a b c : RowId) (r : Execution) → has_key a b c (f r) ≡ has_key a b c r

pub take_lease-IsQuiet : (owner : RowId) (t : ℕ) → IsQuiet (take_lease owner t)
unfolding take_lease
take_lease-IsQuiet owner t = record { same_id = λ r. refl; same_key = λ a b c r. refl }

pub complete-IsQuiet : (o : Outcome) (t : ℕ) → IsQuiet (complete o t)
unfolding complete
complete-IsQuiet o t = record { same_id = λ r. refl; same_key = λ a b c r. refl }

pub abandon-IsQuiet : (code : RowId) (t : ℕ) → IsQuiet (abandon code t)
unfolding abandon
abandon-IsQuiet code t = record { same_id = λ r. refl; same_key = λ a b c r. refl }

pub update-IsLedger :
    (p : Execution → Bool) (f : Execution → Execution) (rows : Table)
    → IsQuiet f
    → IsLedger rows
    → IsLedger (update_where p f rows)
update-IsLedger p f rows quiet h = record {
  ids = λ i.
      let same : (r : Execution) → ((f r).id == i) ≡ (r.id == i) = λ r. rw (quiet.same_id r) in
      omega (arith, count-update_where p (λ r. r.id == i) f rows same, h.ids i);
  keys = λ a b c.
      omega
        (arith, count-update_where p (has_key a b c) f rows (quiet.same_key a b c), h.keys a b c);
}

-- An INSERT that breaks no constraint.
pub violated-none :
    (c : Execution) (rows : Table)
    → violated c rows ≡ none
    → (any (has_key c.tenant_id c.destination_service c.idempotency_key) rows ≡ false)
      × (any (λ r. r.id == c.id) rows ≡ false)
unfolding violated
violated-none c rows h = ground arith

pub has_key_eq :
    (a b c : RowId) (r : Execution)
    → has_key a b c r ≡ true
    → (r.tenant_id ≡ a) × (r.destination_service ≡ b) × (r.idempotency_key ≡ c)
has_key_eq a b c r h = ground arith

pub insert_ids :
    (c : Execution) (rows : Table) (i : RowId)
    → any (λ r. r.id == c.id) rows ≡ false
    → count_where (λ r. r.id == i) rows ≤ 1
    → count_where (λ r. r.id == i) (c ∷ rows) ≤ 1
insert_ids c rows i fresh h = elim (Bool-cases (c.id == i)) [
  | inl e ↦
      let same : c.id ≡ i = ground arith in
      ground (arith, rw same at (count-zero_of_any (λ r. r.id == c.id) rows fresh))
  | inr e ↦ ground arith
]

pub insert_keys :
    (c : Execution) (rows : Table) (i j k : RowId)
    → any (has_key c.tenant_id c.destination_service c.idempotency_key) rows ≡ false
    → count_where (has_key i j k) rows ≤ 1
    → count_where (has_key i j k) (c ∷ rows) ≤ 1
insert_keys c rows i j k fresh h = elim (Bool-cases (has_key i j k c)) [
  | inl e ↦
      let (a, b, d) = has_key_eq i j k c e in
      let none_there : count_where (has_key i j k) rows ≡ 0 =
        rw (a, b, d) at
          (count-zero_of_any (has_key c.tenant_id c.destination_service c.idempotency_key) rows
            fresh) in
      ground (arith, none_there)
  | inr e ↦ ground (arith, e)
]

pub insert-IsLedger :
    (c : Execution) (rows : Table) → violated c rows ≡ none → IsLedger rows → IsLedger (c ∷ rows)
insert-IsLedger c rows h l =
    let (keys_free, id_free) = violated-none c rows h in
    record {
      ids = λ i. insert_ids c rows i id_free (l.ids i);
      keys = λ a b d. insert_keys c rows a b d keys_free (l.keys a b d);
    }
