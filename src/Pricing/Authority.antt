-- ===== src/Pricing/Authority.antt =====
-- Where monetary authority comes from in src/glip/pricing/service.py.
use arquitech_glip_premium_b.Prelude.{
  ℕ, ◌+◌, ◌≤◌, ◌<◌, ◌≡◌, ◌≢◌, true, false, ◌&&◌, none, some, ◌∷◌, arith, ◌==◌, any, All, find?,
  update_where, count_where, ok, RowId, Text, codes, same_text, one_of, Option-cases, inl, inr,
}
use arquitech_glip_premium_b.Pricing.Data.{human_review_required, unverified, Snapshot, Db}
use arquitech_glip_premium_b.Pricing.Snapshots.{
  SnapshotBody, is_snapshot, is_item_of, prepare_snapshot, create_price_snapshot,
  approve_price_snapshot, grant_authority, approve_item,
}
use arquitech_glip_premium_b.Pricing.Gate.{
  require_financial_approver, is_financial_approver, manual_approvable_source_keys,
  server_verified_source_keys,
}
use arquitech_glip_premium_b.Pricing.Estimates.{is_valid, is_human_approved, is_server_verified}

-- A snapshot carries authority only if it is a manually approvable source that somebody approved.
pub record IsTrusted (s : Snapshot) : Type 0 where
  pub not_server : is_server_verified s.authority_status ≡ false
  pub validity : is_valid s.validity_status ≡ true → is_human_approved s.authority_status ≡ true
  pub source :
      is_human_approved s.authority_status ≡ true
      → one_of s.source_key manual_approvable_source_keys ≡ true
  pub approver : is_human_approved s.authority_status ≡ true → s.authority_by ≢ none

pub record IsSound (db : Db) : Type 0 where
  pub trusted : All IsTrusted db.snapshots
  pub ids_used : All (λ s. s.id < db.next_id) db.snapshots
  pub ids_once : (i : RowId) → count_where (λ s. s.id == i) db.snapshots ≤ 1

pub prepare_snapshot_new :
    (tenant actor : RowId) (body : SnapshotBody) (now : ℕ) (new_id : RowId) {s : Snapshot}
    → prepare_snapshot tenant actor body now new_id ≡ ok s
    → (s.id ≡ new_id)
      × (s.tenant_id ≡ tenant)
      × (s.validity_status ≡ human_review_required)
      × (s.authority_status ≡ unverified)
      × (s.metadata.monetary_authority ≡ false)
unfolding prepare_snapshot
prepare_snapshot_new tenant actor body now new_id h = ground arith

pub create_snapshot_rows :
    (tenant actor : RowId) (body : SnapshotBody) (now : ℕ) (db : Db) {s : Snapshot} {after : Db}
    → create_price_snapshot tenant actor body now db ≡ ok (s, after)
    → (prepare_snapshot tenant actor body now db.next_id ≡ ok s)
      × (after.snapshots ≡ s ∷ db.snapshots)
      × (db.next_id + 1 ≤ after.next_id)
unfolding create_price_snapshot
create_snapshot_rows tenant actor body now db h = ground arith

pub approve_snapshot_rows :
    (tenant actor : RowId) (role : Text) (i : RowId) (now : ℕ) (db : Db) {s : Snapshot} {after : Db}
    → approve_price_snapshot tenant actor role i now db ≡ ok (s, after)
    → (old : Snapshot) × (find?
          (λ s. is_snapshot tenant i s && same_text s.billing_scope (codes "glip"))
          db.snapshots
        ≡ some old)
      × (one_of old.source_key server_verified_source_keys ≡ false)
      × (one_of old.source_key manual_approvable_source_keys ≡ true)
      × (is_financial_approver role ≡ true)
      × (any (is_item_of tenant old.id) db.items ≡ true)
      × (s ≡ grant_authority actor now old)
      × (after ≡ record db {
        snapshots = update_where (λ s. s.id == old.id) (grant_authority actor now) db.snapshots;
        items = update_where (is_item_of tenant old.id) approve_item db.items;
      })
unfolding approve_price_snapshot require_financial_approver
approve_snapshot_rows tenant actor role i now db h =
    elim (Option-cases (
      find? (λ s. is_snapshot tenant i s && same_text s.billing_scope (codes "glip"))
        db.snapshots)) [
          | inl e ↦ ground (arith, e)
          | inr (old, e) ↦ (
            old,
            e,
            ground (arith, e),
            ground (arith, e),
            ground (arith, e),
            ground (arith, e),
            ground (arith, e),
            ground (arith, e),
          )
        ]
