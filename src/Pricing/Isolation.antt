-- ===== src/Pricing/Isolation.antt =====
-- Who may price in src/glip/pricing/service.py, and whose rows a call touches.
use arquitech_glip_premium_b.Prelude.{
  ℕ, ◌+◌, ◌≤◌, ◌≡◌, refl, ◌≢◌, false, List, [], ◌∷◌, ◌++◌, arith, ◌==◌, find?, update_where,
  select_where, count_where, Result, ok, err, Error, RowId, Text, Option-cases, inl, inr, length,
}
use mathlib.Core.Path.{subst, sym}
use arquitech_glip_premium_b.Prelude.Results.{Result-cases, >>=-eq-ok, ok-injective}
use arquitech_glip_premium_b.Prelude.Tables.{
  find-holds, find_unique, select-update_where, select-update_unique,
}
use arquitech_glip_premium_b.Pricing.Data.{Snapshot, Item, Mapping, Estimate, LedgerEntry, Db}
use arquitech_glip_premium_b.Pricing.Gate.{require_financial_approver}
use arquitech_glip_premium_b.Pricing.Snapshots.{
  SnapshotBody, ItemBody, is_item_of, prepare_item, prepare_items, create_price_snapshot,
  approve_price_snapshot, grant_authority, approve_item,
}
use arquitech_glip_premium_b.Pricing.Mappings.{
  MappingBody, is_mapping, approve_mapping as mark_approved, create_quantity_mapping,
  approve_quantity_mapping,
}
use arquitech_glip_premium_b.Pricing.Fees.{
  FeeBody, CostBody, fee_line, estimate_professional_fee, add_realized_cost,
}
use arquitech_glip_premium_b.Pricing.Service.{
  Call, create_snapshot, approve_snapshot, create_mapping, approve_mapping, construction_estimate,
  professional_fee_estimate, create_cost_event, serve, settle, on_project-keeps, factor_or_default,
}
use arquitech_glip_premium_b.Pricing.Costs.{add_realized_cost-IsEntry}
use arquitech_glip_premium_b.Pricing.Priced.{estimate_construction-IsEstimate}
use arquitech_glip_premium_b.Pricing.FeeLaws.{estimate_professional_fee_lem}
use arquitech_glip_premium_b.Pricing.Authority.{
  approve_snapshot_rows, create_snapshot_rows, prepare_snapshot_new,
}

-- Primary keys are not used twice.
pub record IsKeyed (db : Db) : Type 0 where
  pub snapshots_once : (i : RowId) → count_where (λ s. s.id == i) db.snapshots ≤ 1
  pub mappings_once : (i : RowId) → count_where (λ m. m.id == i) db.mappings ≤ 1

-- The tenant whose principal makes a call.
abbrev pub caller : Call → RowId
caller (create_snapshot t a body now) = t
caller (approve_snapshot t a role s now) = t
caller (create_mapping t p a body) = t
caller (approve_mapping t p a role m) = t
caller (construction_estimate t p a role ids scenario f) = t
caller (professional_fee_estimate t p a role body) = t
caller (create_cost_event t p a role body) = t

-- Two databases hold the same rows of a tenant.
pub record IsSameFor (t : RowId) (before after : Db) : Type 0 where
  pub snapshots :
      select_where (λ s. s.tenant_id == t) after.snapshots
      ≡ select_where (λ s. s.tenant_id == t) before.snapshots
  pub items :
      select_where (λ s. s.tenant_id == t) after.items
      ≡ select_where (λ s. s.tenant_id == t) before.items
  pub mappings :
      select_where (λ s. s.tenant_id == t) after.mappings
      ≡ select_where (λ s. s.tenant_id == t) before.mappings
  pub estimates :
      select_where (λ s. s.tenant_id == t) after.estimates
      ≡ select_where (λ s. s.tenant_id == t) before.estimates
  pub ledger :
      select_where (λ s. s.tenant_id == t) after.ledger
      ≡ select_where (λ s. s.tenant_id == t) before.ledger

same_refl : (t : RowId) (db : Db) → IsSameFor t db db
same_refl t db = record {
  snapshots = refl;
  items = refl;
  mappings = refl;
  estimates = refl;
  ledger = refl;
}

prepare_item-tenant :
    (s : Snapshot) (raw : ItemBody) (n : RowId) {x : Item}
    → prepare_item s raw n ≡ ok x
    → x.tenant_id ≡ s.tenant_id
unfolding prepare_item
prepare_item-tenant s raw n h = ground arith

items_of_other :
    (t : RowId) (s : Snapshot) (raw : List ItemBody) (n : RowId) (xs : List Item) (old : List Item)
    → prepare_items s raw n ≡ ok xs
    → s.tenant_id ≢ t
    → select_where (λ i. i.tenant_id == t) (xs ++ old) ≡ select_where (λ i. i.tenant_id == t) old
unfolding prepare_items
items_of_other t s [] n [] old h d = refl
items_of_other t s [] n (x ∷ xs) old h d = cc
items_of_other t s (raw ∷ rest) n xs old h d =
    let (x, e, h₁) = >>=-eq-ok (prepare_item s raw n) _ h in
    let (others, f, last) = >>=-eq-ok (prepare_items s rest (n + 1)) (λ ys. ok (x ∷ ys)) h₁ in
    let other : (x.tenant_id == t) ≡ false = ground (arith, prepare_item-tenant s raw n e) in
    subst
      (λ ys.
        select_where (λ i. i.tenant_id == t) (ys ++ old) ≡ select_where (λ i. i.tenant_id == t) old)
      (ok-injective last) (ground (arith, other, items_of_other t s rest (n + 1) others old f d))

create_snapshot_items :
    (tenant actor : RowId) (body : SnapshotBody) (now : ℕ) (db : Db) {s : Snapshot} {after : Db}
    → create_price_snapshot tenant actor body now db ≡ ok (s, after)
    → (xs : List Item) × (prepare_items s body.items (db.next_id + 1) ≡ ok xs)
      × (s.tenant_id ≡ tenant)
      × (after ≡ record db {
        snapshots = s ∷ db.snapshots;
        items = xs ++ db.items;
        next_id = db.next_id + 1 + length xs;
      })
unfolding create_price_snapshot
create_snapshot_items tenant actor body now db {s} h =
    let (made, _, _) = create_snapshot_rows tenant actor body now db h in
    let (_, owner, _, _, _) = prepare_snapshot_new tenant actor body now db.next_id made in
    elim (Result-cases (prepare_items s body.items (db.next_id + 1))) [
      | inl (xs, e) ↦ (xs, e, owner, ground (arith, e, made))
      | inr (x, e) ↦ ground (arith, e, made)
    ]

module _ (t tenant : RowId) (d : tenant ≢ t) (db : Db) where
  create_snapshot_isolated :
      (actor : RowId) (body : SnapshotBody) (now : ℕ) {s : Snapshot} {after : Db}
      → create_price_snapshot tenant actor body now db ≡ ok (s, after)
      → IsSameFor t db after
  create_snapshot_isolated actor body now {s} h =
      let (xs, e, owner, same) = create_snapshot_items tenant actor body now db h in
      let other : (s.tenant_id == t) ≡ false = ground arith in
      let left = items_of_other t s body.items (db.next_id + 1) xs db.items e (λ z. ground arith) in
      subst (IsSameFor t db) (sym same) (record {
        snapshots = ground (arith, other);
        items = left;
        mappings = refl;
        estimates = refl;
        ledger = refl;
      })

  approve_snapshot_isolated :
      (actor : RowId) (role : Text) (i : RowId) (now : ℕ) {s : Snapshot} {after : Db}
      → IsKeyed db
      → approve_price_snapshot tenant actor role i now db ≡ ok (s, after)
      → IsSameFor t db after
  unfolding grant_authority
  approve_snapshot_isolated actor role i now keyed h =
      let (old, there, _, _, _, _, _, same) = approve_snapshot_rows tenant actor role i now db h in
      let found = find-holds _ db.snapshots there in
      let once = keyed.snapshots_once old.id in
      let by_key =
        find_unique (λ s. s.id == old.id) _ db.snapshots (λ s e. ground arith) once there in
      let before : (old.tenant_id == t) ≡ false = ground arith in
      subst (IsSameFor t db) (sym same) (record {
        snapshots =
            select-update_unique (λ s. s.id == old.id) (λ s. s.tenant_id == t)
              (grant_authority actor now) db.snapshots once by_key before before;
        items =
            select-update_where (is_item_of tenant old.id) (λ s. s.tenant_id == t) approve_item
              db.items (λ s e. ground arith) (λ s e. ground arith);
        mappings = refl;
        estimates = refl;
        ledger = refl;
      })

  approve_mapping_isolated :
      (project actor : RowId) (role : Text) (i : RowId) {m : Mapping} {after : Db}
      → IsKeyed db
      → approve_quantity_mapping tenant project actor role i db ≡ ok (m, after)
      → IsSameFor t db after
  unfolding approve_quantity_mapping require_financial_approver
  approve_mapping_isolated project actor role i {after = after} keyed h =
      elim (Option-cases (find? (is_mapping tenant project i) db.mappings)) [
        | inl e ↦ ground (arith, e)
        | inr (m, e) ↦
            let found = find-holds (is_mapping tenant project i) db.mappings e in
            let once = keyed.mappings_once m.id in
            let by_key =
              find_unique (λ x. x.id == m.id) _ db.mappings (λ x f. ground arith) once e in
            let before : (m.tenant_id == t) ≡ false = ground arith in
            let marked =
              select-update_unique (λ x. x.id == m.id) (λ x. x.tenant_id == t) (mark_approved actor)
                db.mappings once by_key before before in
            let same : after ≡ record db {
              mappings = update_where (λ x. x.id == m.id) (mark_approved actor) db.mappings;
            } =
              ground (arith, e) in
            subst (IsSameFor t db) (sym same) (record {
              snapshots = refl;
              items = refl;
              mappings = marked;
              estimates = refl;
              ledger = refl;
            })
      ]

  create_mapping_isolated :
      (project actor : RowId) (body : MappingBody) {m : Mapping} {after : Db}
      → create_quantity_mapping tenant project actor body db ≡ ok (m, after)
      → IsSameFor t db after
  unfolding create_quantity_mapping
  create_mapping_isolated project actor body {m} {after} h =
      let same : after ≡ record db { mappings = m ∷ db.mappings; next_id = db.next_id + 1 } =
        ground arith in
      let owner : m.tenant_id ≡ tenant = ground arith in
      let other : (m.tenant_id == t) ≡ false = ground arith in
      subst (IsSameFor t db) (sym same) (record {
        snapshots = refl;
        items = refl;
        mappings = ground (arith, other);
        estimates = refl;
        ledger = refl;
      })

  cost_isolated :
      (project actor : RowId) (role : Text) (body : CostBody) {e : LedgerEntry} {after : Db}
      → add_realized_cost tenant project actor role body db ≡ ok (e, after)
      → IsSameFor t db after
  cost_isolated project actor role body {e} {after} h =
      let (entry, same) = add_realized_cost-IsEntry tenant project actor role body db e after h in
      let owner = entry.tenant_kept in
      let other : (e.tenant_id == t) ≡ false = ground arith in
      subst (IsSameFor t db) (sym same) (record {
        snapshots = refl;
        items = refl;
        mappings = refl;
        estimates = refl;
        ledger = ground (arith, other);
      })

  -- A call that fails changes nothing, so what it commits is all that counts.
  settled :
      {A : Type 0} (r : Result Error (A × Db))
      → ((a : A) (after : Db) → r ≡ ok (a, after) → IsSameFor t db after)
      → IsSameFor t db (settle db r)
  settled (ok (a, after)) h = h a after refl
  settled (err e) h = same_refl t db

  estimate_isolated :
      (e : Estimate) (entry : LedgerEntry)
      → e.tenant_id ≡ tenant
      → entry.tenant_id ≡ tenant
      → IsSameFor t db (record db {
        estimates = e ∷ db.estimates;
        ledger = entry ∷ db.ledger;
        next_id = db.next_id + 2;
      })
  estimate_isolated e entry h k =
      let other_entry : (entry.tenant_id == t) ≡ false = ground arith in
      let other : (e.tenant_id == t) ≡ false = ground arith in
      record {
        snapshots = refl;
        items = refl;
        mappings = refl;
        estimates = ground (arith, other);
        ledger = ground (arith, other_entry);
      }

fee_tenant :
    (tenant project actor : RowId) (role : Text) (body : FeeBody) (db : Db) {e : Estimate}
    {after : Db}
    → estimate_professional_fee tenant project actor role body db ≡ ok (e, after)
    → e.tenant_id ≡ tenant
unfolding estimate_professional_fee
fee_tenant tenant project actor role body db h =
    let (_, _, h₁) = >>=-eq-ok (require_financial_approver role) _ h in
    let (_, _, h₂) = >>=-eq-ok (fee_line body) _ h₁ in ground arith

-- Where no primary key of snapshots and mappings is used twice, a pricing call of one tenant
-- leaves the snapshots, items, mappings, estimates and ledger entries of every other tenant as
-- they are.
pub serve_isolated :
    (t : RowId) (c : Call) (db : Db) → caller c ≢ t → IsKeyed db → IsSameFor t db (serve c db)
unfolding serve
serve_isolated t (create_snapshot tenant a body now) db d keyed =
    settled t tenant d db _ (λ s after. create_snapshot_isolated t tenant d db a body now)
serve_isolated t (approve_snapshot tenant a role i now) db d keyed =
    settled t tenant d db _ (λ s after. approve_snapshot_isolated t tenant d db a role i now keyed)
serve_isolated t (create_mapping tenant p a body) db d keyed =
    on_project-keeps (IsSameFor t db) tenant p db _ (same_refl t db)
      (settled t tenant d db _ (λ m after. create_mapping_isolated t tenant d db p a body))
serve_isolated t (approve_mapping tenant p a role i) db d keyed =
    on_project-keeps (IsSameFor t db) tenant p db _ (same_refl t db)
      (settled t tenant d db _ (λ m after. approve_mapping_isolated t tenant d db p a role i keyed))
serve_isolated t (construction_estimate tenant p a role ids scenario f) db d keyed =
    on_project-keeps (IsSameFor t db) tenant p db _ (same_refl t db) (
      settled t tenant d db _ (λ e after h.
        let made =
          estimate_construction-IsEstimate tenant p a role ids scenario (factor_or_default f) db e
            after h in
        subst (IsSameFor t db) (sym made.stored)
          (estimate_isolated t tenant d db e _ made.owned.0 refl)))
serve_isolated t (professional_fee_estimate tenant p a role body) db d keyed =
    on_project-keeps (IsSameFor t db) tenant p db _ (same_refl t db) (
      settled t tenant d db _ (λ e after h.
        let (_, _, same) = estimate_professional_fee_lem tenant p a role body db e after h in
        subst (IsSameFor t db) (sym same)
          (estimate_isolated t tenant d db e _ (fee_tenant tenant p a role body db h) refl)))
serve_isolated t (create_cost_event tenant p a role body) db d keyed =
    on_project-keeps (IsSameFor t db) tenant p db _ (same_refl t db)
      (settled t tenant d db _ (λ e after. cost_isolated t tenant d db p a role body))
