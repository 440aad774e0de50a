-- ===== src/Pricing/Sound.antt =====
-- Every sequence of pricing calls keeps monetary authority sound.
use arquitech_glip_premium_b.Prelude.{
  ℕ, ◌≤◌, ◌<◌, ◌≡◌, refl, true, ◌&&◌, some, List, [], ◌∷◌, arith, ◌==◌, all, All, find?,
  update_where, count_where, Result, ok, err, Error, RowId, Text, codes, same_text, one_of,
  IntField, inl, inr, Bool-cases,
}
use arquitech_glip_premium_b.Prelude.Tables.{
  count-update_where, find_unique, find-holds, All-update_where, update-unique_All,
}
use arquitech_glip_premium_b.Pricing.Data.{
  human_review_required, unverified, Snapshot, Mapping, Estimate, LedgerEntry, Db,
}
use arquitech_glip_premium_b.Pricing.Snapshots.{
  SnapshotBody, is_snapshot, create_price_snapshot, approve_price_snapshot, grant_authority,
}
use arquitech_glip_premium_b.Pricing.Mappings.{
  MappingBody, create_quantity_mapping, approve_quantity_mapping,
}
use arquitech_glip_premium_b.Pricing.Estimates.{estimate_construction, record_estimate}
use arquitech_glip_premium_b.Pricing.Fees.{
  FeeBody, CostBody, estimate_professional_fee, add_realized_cost,
}
use arquitech_glip_premium_b.Pricing.Gate.{manual_approvable_source_keys}
use arquitech_glip_premium_b.Pricing.Service.{
  Call, create_snapshot, approve_snapshot, create_mapping, approve_mapping, construction_estimate,
  professional_fee_estimate, create_cost_event, serve, serve_all, settle, on_project-keeps,
  factor_or_default,
}
use arquitech_glip_premium_b.Pricing.Authority.{
  IsTrusted, IsSound, prepare_snapshot_new, create_snapshot_rows, approve_snapshot_rows,
}

count-fresh :
    (n : ℕ) (rows : List Snapshot)
    → All (λ s. s.id < n) rows
    → count_where (λ s. s.id == n) rows ≡ 0
count-fresh n [] h = refl
count-fresh n (s ∷ rows) h = ground (arith, h.0, count-fresh n rows h.1)

All-id_mono :
    (n m : ℕ) (rows : List Snapshot) → n ≤ m → All (λ s. s.id < n) rows → All (λ s. s.id < m) rows
All-id_mono n m [] h all = tt
All-id_mono n m (s ∷ rows) h all = (omega arith, All-id_mono n m rows h all.1)

unverified-IsTrusted :
    (s : Snapshot)
    → s.authority_status ≡ unverified
    → s.validity_status ≡ human_review_required
    → IsTrusted s
unverified-IsTrusted s a v = record {
  not_server = ground (arith, a);
  validity = λ h. ground (arith, v);
  source = λ h. ground (arith, a);
  approver = λ h. ground (arith, a);
}

granted-IsTrusted :
    (actor : RowId) (now : ℕ) (s : Snapshot)
    → one_of s.source_key manual_approvable_source_keys ≡ true
    → IsTrusted (grant_authority actor now s)
unfolding grant_authority
granted-IsTrusted actor now s h = record {
  not_server = refl;
  validity = λ v. refl;
  source = λ v. h;
  approver = λ v e. cc;
}

-- Tables whose snapshots are as they were.
same_snapshots :
    {db after : Db}
    → after.snapshots ≡ db.snapshots
    → db.next_id ≤ after.next_id
    → IsSound db
    → IsSound after
same_snapshots {db} {after} e n h = record {
  trusted = rw e h.trusted;
  ids_used = rw e (All-id_mono db.next_id after.next_id db.snapshots n h.ids_used);
  ids_once = λ i. rw e (h.ids_once i);
}

insert_once :
    (s : Snapshot) (n : ℕ) (rows : List Snapshot) (i : RowId)
    → s.id ≡ n
    → count_where (λ s. s.id == n) rows ≡ 0
    → count_where (λ s. s.id == i) rows ≤ 1
    → count_where (λ s. s.id == i) (s ∷ rows) ≤ 1
insert_once s n rows i e fresh h = elim (Bool-cases (s.id == i)) [
  | inl mine ↦ let same : n ≡ i = ground arith in ground (arith, rw same at fresh)
  | inr other ↦ ground (arith, other)
]

create_snapshot-IsSound :
    (tenant actor : RowId) (body : SnapshotBody) (now : ℕ) (db : Db) {s : Snapshot} {after : Db}
    → create_price_snapshot tenant actor body now db ≡ ok (s, after)
    → IsSound db
    → IsSound after
create_snapshot-IsSound tenant actor body now db {s} {after} h sound =
    let (made, rows, more) = create_snapshot_rows tenant actor body now db h in
    let (id, _, validity, authority, _) =
      prepare_snapshot_new tenant actor body now db.next_id made in
    let fresh = count-fresh db.next_id db.snapshots sound.ids_used in
    record {
      trusted = rw rows (unverified-IsTrusted s authority validity, sound.trusted);
      ids_used = rw rows (
        omega arith,
        All-id_mono db.next_id after.next_id db.snapshots (omega arith) sound.ids_used,
      );
      ids_once = λ i. rw rows (insert_once s db.next_id db.snapshots i id fresh (sound.ids_once i));
    }

granted_id :
    (actor : RowId) (now : ℕ) (s : Snapshot) {n : ℕ}
    → s.id < n
    → (grant_authority actor now s).id < n
unfolding grant_authority
granted_id actor now s h = h

granted_once :
    (actor : RowId) (now : ℕ) (i j : RowId) (rows : List Snapshot)
    → count_where (λ s. s.id == j) rows ≤ 1
    → count_where (λ s. s.id == j) (update_where (λ s. s.id == i) (grant_authority actor now) rows)
      ≤ 1
unfolding grant_authority
granted_once actor now i j rows h =
    rw
      (count-update_where (λ s. s.id == i) (λ s. s.id == j) (grant_authority actor now) rows
        (λ s. refl))
      h

approve_snapshot-IsSound :
    (tenant actor : RowId) (role : Text) (i : RowId) (now : ℕ) (db : Db) {s : Snapshot} {after : Db}
    → approve_price_snapshot tenant actor role i now db ≡ ok (s, after)
    → IsSound db
    → IsSound after
approve_snapshot-IsSound tenant actor role i now db {s} {after} h sound =
    let (old, found, _, manual, _, _, _, e) = approve_snapshot_rows tenant actor role i now db h in
    let holds =
      find-holds (λ s. is_snapshot tenant i s && same_text s.billing_scope (codes "glip"))
        db.snapshots found in
    let named : old.id ≡ i = ground (arith, holds) in
    let here : find? (λ s. s.id == old.id) db.snapshots ≡ some old =
      find_unique (λ s. s.id == old.id)
        (λ s. is_snapshot tenant i s && same_text s.billing_scope (codes "glip")) db.snapshots
        (λ x other. ground (arith, named, other)) (sound.ids_once old.id) found in
    rw e (record {
      trusted =
          update-unique_All IsTrusted (λ s. s.id == old.id) (grant_authority actor now) db.snapshots
            (sound.ids_once old.id) here (granted-IsTrusted actor now old manual) sound.trusted;
      ids_used =
          All-update_where (λ s. s.id < db.next_id) (λ s. s.id == old.id)
            (grant_authority actor now) db.snapshots (λ x h _. granted_id actor now x h)
            sound.ids_used;
      ids_once = λ j. granted_once actor now old.id j db.snapshots (sound.ids_once j);
    })

mapping_rows :
    (tenant project actor : RowId) (body : MappingBody) (db : Db) {m : Mapping} {after : Db}
    → create_quantity_mapping tenant project actor body db ≡ ok (m, after)
    → (after.snapshots ≡ db.snapshots) × (db.next_id ≤ after.next_id)
unfolding create_quantity_mapping
mapping_rows tenant project actor body db h = ground arith

approve_mapping_rows :
    (tenant project actor : RowId) (role : Text) (i : RowId) (db : Db) {m : Mapping} {after : Db}
    → approve_quantity_mapping tenant project actor role i db ≡ ok (m, after)
    → (after.snapshots ≡ db.snapshots) × (db.next_id ≤ after.next_id)
unfolding approve_quantity_mapping
approve_mapping_rows tenant project actor role i db h = ground arith

construction_rows :
    (tenant project actor : RowId) (role : Text) (ids : List RowId) (scenario : Text) (f : IntField)
    (db : Db) {e : Estimate} {after : Db}
    → estimate_construction tenant project actor role ids scenario f db ≡ ok (e, after)
    → (after.snapshots ≡ db.snapshots) × (db.next_id ≤ after.next_id)
unfolding estimate_construction record_estimate
construction_rows tenant project actor role ids scenario f db h = ground arith

fee_rows :
    (tenant project actor : RowId) (role : Text) (body : FeeBody) (db : Db) {e : Estimate}
    {after : Db}
    → estimate_professional_fee tenant project actor role body db ≡ ok (e, after)
    → (after.snapshots ≡ db.snapshots) × (db.next_id ≤ after.next_id)
unfolding estimate_professional_fee record_estimate
fee_rows tenant project actor role body db h = ground arith

cost_rows :
    (tenant project actor : RowId) (role : Text) (body : CostBody) (db : Db) {e : LedgerEntry}
    {after : Db}
    → add_realized_cost tenant project actor role body db ≡ ok (e, after)
    → (after.snapshots ≡ db.snapshots) × (db.next_id ≤ after.next_id)
unfolding add_realized_cost
cost_rows tenant project actor role body db h = ground arith

settle-IsSound :
    {A : Type 0} (r : Result Error (A × Db)) (db : Db)
    → ((a : A) (after : Db) → r ≡ ok (a, after) → IsSound after)
    → IsSound db
    → IsSound (settle db r)
settle-IsSound (ok (a, after)) db h sound = h a after refl
settle-IsSound (err e) db h sound = sound

serve-IsSound : (c : Call) (db : Db) → IsSound db → IsSound (serve c db)
unfolding serve
serve-IsSound (create_snapshot t a body now) db h =
    settle-IsSound _ db (λ s after e. create_snapshot-IsSound t a body now db e h) h
serve-IsSound (approve_snapshot t a role s now) db h =
    settle-IsSound _ db (λ x after e. approve_snapshot-IsSound t a role s now db e h) h
serve-IsSound (create_mapping t p a body) db h = on_project-keeps IsSound t p db _ h (
    settle-IsSound _ db
      (λ x after e. let (s, n) = mapping_rows t p a body db e in same_snapshots s n h) h)
serve-IsSound (approve_mapping t p a role m) db h = on_project-keeps IsSound t p db _ h (
    settle-IsSound _ db
      (λ x after e. let (s, n) = approve_mapping_rows t p a role m db e in same_snapshots s n h) h)
serve-IsSound (construction_estimate t p a role ids scenario f) db h =
    on_project-keeps IsSound t p db _ h (
      settle-IsSound _ db
        (λ x after e.
          let (s, n) = construction_rows t p a role ids scenario (factor_or_default f) db e in
          same_snapshots s n h)
        h)
serve-IsSound (professional_fee_estimate t p a role body) db h =
    on_project-keeps IsSound t p db _ h (
      settle-IsSound _ db
        (λ x after e. let (s, n) = fee_rows t p a role body db e in same_snapshots s n h) h)
serve-IsSound (create_cost_event t p a role body) db h = on_project-keeps IsSound t p db _ h (
    settle-IsSound _ db
      (λ x after e. let (s, n) = cost_rows t p a role body db e in same_snapshots s n h) h)

-- Every sequence of pricing calls keeps the tables sound: snapshot ids stay unique, no snapshot is
-- server-verified, and one that is valid or human-approved is of a manually approvable source and
-- names its approver.
pub serve_all-IsSound : (cs : List Call) (db : Db) → IsSound db → IsSound (serve_all cs db)
unfolding serve_all
serve_all-IsSound [] db h = h
serve_all-IsSound (c ∷ cs) db h = serve_all-IsSound cs (serve c db) (serve-IsSound c db h)
