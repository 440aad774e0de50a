-- ===== src/Pricing/Quoted.antt =====
-- What prices a construction estimate of src/glip/pricing/service.py in the tables that pricing calls
-- can lead to.
use arquitech_glip_premium_b.Prelude.{
  ◌≡◌, ◌≢◌, true, none, some, List, [], ◌∷◌, arith, All, find?, ok, RowId, Text, codes,
  same_text-eq, one_of, IntField,
}
use arquitech_glip_premium_b.Prelude.Tables.{All-find}
use arquitech_glip_premium_b.Pricing.Data.{Snapshot, Item, Mapping, Line, Estimate, Db}
use arquitech_glip_premium_b.Pricing.Snapshots.{is_snapshot}
use arquitech_glip_premium_b.Pricing.Mappings.{is_item, is_mapping}
use arquitech_glip_premium_b.Pricing.Gate.{manual_approvable_source_keys}
use arquitech_glip_premium_b.Pricing.Estimates.{
  is_approved, is_human_approved, estimate_construction,
}
use arquitech_glip_premium_b.Pricing.Priced.{IsPriced, AllPriced, estimate_construction-IsEstimate}
use arquitech_glip_premium_b.Pricing.Service.{Call, serve_all}
use arquitech_glip_premium_b.Pricing.Authority.{IsTrusted, IsSound}
use arquitech_glip_premium_b.Pricing.Sound.{serve_all-IsSound}

-- A mapping that is approved and priced by an approved item of an approved supplier quote.
pub record IsQuoted (tenant project : RowId) (db : Db) (i : RowId) : Type 0 where
  pub mapping : Mapping
  pub item : Item
  pub snapshot : Snapshot
  pub mapped : find? (is_mapping tenant project i) db.mappings ≡ some mapping
  pub itemised : find? (is_item tenant mapping.price_source_item_id) db.items ≡ some item
  pub sourced : find? (is_snapshot tenant item.snapshot_id) db.snapshots ≡ some snapshot
  pub mapping_approved : is_approved mapping.status ≡ true
  pub item_approved : item.manually_approved ≡ true
  pub human : is_human_approved snapshot.authority_status ≡ true
  pub approver : snapshot.authority_by ≢ none
  pub quote : snapshot.source_key ≡ codes "supplier_quote"

manual_key : (k : Text) → one_of k manual_approvable_source_keys ≡ true → k ≡ codes "supplier_quote"
unfolding one_of manual_approvable_source_keys
manual_key k h = same_text-eq k (codes "supplier_quote") (ground arith)

IsPriced-IsQuoted :
    (tenant project : RowId) (db : Db) (i : RowId) (l : Line)
    → IsSound db
    → IsPriced tenant project db i l
    → IsQuoted tenant project db i
IsPriced-IsQuoted tenant project db i l sound p =
    let trust : IsTrusted p.snapshot =
      All-find IsTrusted (is_snapshot tenant p.item.snapshot_id) db.snapshots p.sourced
        sound.trusted in
    let human = trust.validity p.source_valid in
    record {
      mapping = p.mapping;
      item = p.item;
      snapshot = p.snapshot;
      mapped = p.mapped;
      itemised = p.itemised;
      sourced = p.sourced;
      mapping_approved = p.mapping_approved;
      item_approved = p.item_approved human;
      human = human;
      approver = trust.approver human;
      quote = manual_key p.snapshot.source_key (trust.source human);
    }

AllPriced-IsQuoted :
    (tenant project : RowId) (db : Db) (ids : List RowId) (ls : List Line)
    → IsSound db
    → AllPriced tenant project db ids ls
    → All (IsQuoted tenant project db) ids
AllPriced-IsQuoted tenant project db [] [] sound p = tt
AllPriced-IsQuoted tenant project db (i ∷ ids) (l ∷ ls) sound p = (
  IsPriced-IsQuoted tenant project db i l sound p.0,
  AllPriced-IsQuoted tenant project db ids ls sound p.1,
)
AllPriced-IsQuoted tenant project db [] (l ∷ ls) sound p = absurd p
AllPriced-IsQuoted tenant project db (i ∷ ids) [] sound p = absurd p

-- After any pricing calls on sound tables, every mapping of a construction estimate that is
-- returned is approved and priced by an approved item of a supplier quote that a named approver
-- approved.
pub estimate-IsQuoted :
    (cs : List Call) (start : Db) (tenant project actor : RowId) (role : Text) (ids : List RowId)
    (scenario : Text) (factor : IntField) (e : Estimate) (after : Db)
    → IsSound start
    → estimate_construction tenant project actor role ids scenario factor (serve_all cs start)
      ≡ ok (e, after)
    → All (IsQuoted tenant project (serve_all cs start)) ids
estimate-IsQuoted cs start tenant project actor role ids scenario factor e after sound h =
    let db = serve_all cs start in
    let made =
      estimate_construction-IsEstimate tenant project actor role ids scenario factor db e after h in
    AllPriced-IsQuoted tenant project db ids made.lines (serve_all-IsSound cs start sound)
      made.justified
