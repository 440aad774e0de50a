-- ===== src/Pricing/Service.antt =====
-- The operations of src/glip/pricing/service.py as the routes of src/glip/pricing/routes.py run them: what
-- a successful call changed is committed, what a failing call changed is rolled back.
use arquitech_glip_premium_b.Prelude.{
  ℕ, List, [], ◌∷◌, Result, ok, err, Error, http, RowId, Text, IntField, absent, int, pos, find?,
  not, is_none,
}
use arquitech_glip_premium_b.Prelude.Results.{◌>>=◌, ◌>>◌, or_refuse, refuse_if}
use arquitech_glip_premium_b.Drafts.Data.{Project}
use arquitech_glip_premium_b.Drafts.Approval.{is_project}
use arquitech_glip_premium_b.Pricing.Data.{Db}
use arquitech_glip_premium_b.Pricing.Snapshots.{
  SnapshotBody, create_price_snapshot, approve_price_snapshot,
}
use arquitech_glip_premium_b.Pricing.Mappings.{
  MappingBody, create_quantity_mapping, approve_quantity_mapping,
}
use arquitech_glip_premium_b.Pricing.Estimates.{estimate_construction}
use arquitech_glip_premium_b.Pricing.Fees.{
  FeeBody, CostBody, estimate_professional_fee, add_realized_cost,
}

-- `tenant`, `subject` and `role` are the principal's.
pub data Call : Type 0 where
  create_snapshot : (tenant actor : RowId) (body : SnapshotBody) (now : ℕ) → Call
  approve_snapshot : (tenant actor : RowId) (role : Text) (snapshot : RowId) (now : ℕ) → Call
  create_mapping : (tenant project actor : RowId) (body : MappingBody) → Call
  approve_mapping : (tenant project actor : RowId) (role : Text) (mapping : RowId) → Call
  construction_estimate :
      (tenant project actor : RowId) (role : Text) (ids : List RowId) (scenario : Text)
      (factor : IntField)
      → Call
  professional_fee_estimate : (tenant project actor : RowId) (role : Text) (body : FeeBody) → Call
  create_cost_event : (tenant project actor : RowId) (role : Text) (body : CostBody) → Call

-- `db.commit()` after the call, or `db.rollback()` in the handler of its exception.
abbrev pub settle : {A : Type 0} → Db → Result Error (A × Db) → Db
settle db (ok (a, after)) = after
settle db (err e) = db

-- `mutable_project_or_409`, on these tables.
unfoldable pub mutable_project : RowId → RowId → Db → Result Error Project
mutable_project tenant project db = do
  row ← or_refuse (find? (is_project tenant project) db.projects) (http 404 "project_not_found")
  refuse_if (not (is_none row.archived_at)) (http 409 "project_archived")
  ok row

-- What a route of a project leaves, given what its call leaves.
unfoldable pub on_project : RowId → RowId → Db → Db → Db
on_project tenant project db after = elim (mutable_project tenant project db) [
  | ok row ↦ after
  | err e ↦ db
]

-- `factor_bps` where the body has none.
abbrev pub factor_or_default : IntField → IntField
factor_or_default absent = int (pos 10000)
factor_or_default f = f

unfoldable pub serve : Call → Db → Db
serve (create_snapshot t a body now) db = settle db (create_price_snapshot t a body now db)
serve (approve_snapshot t a role s now) db = settle db (approve_price_snapshot t a role s now db)
serve (create_mapping t p a body) db =
    on_project t p db (settle db (create_quantity_mapping t p a body db))
serve (approve_mapping t p a role m) db =
    on_project t p db (settle db (approve_quantity_mapping t p a role m db))
serve (construction_estimate t p a role ids scenario f) db =
    on_project t p db
      (settle db (estimate_construction t p a role ids scenario (factor_or_default f) db))
serve (professional_fee_estimate t p a role body) db =
    on_project t p db (settle db (estimate_professional_fee t p a role body db))
serve (create_cost_event t p a role body) db =
    on_project t p db (settle db (add_realized_cost t p a role body db))

unfoldable pub serve_all : List Call → Db → Db
serve_all [] db = db
serve_all (c ∷ cs) db = serve_all cs (serve c db)

-- A property of the tables that a route's call and its refusal both have.
pub on_project-keeps :
    (P : Db → Type 0) (tenant project : RowId) (db after : Db)
    → P db
    → P after
    → P (on_project tenant project db after)
unfolding on_project
on_project-keeps P tenant project db after before later =
    elim (mutable_project tenant project db) as (λ r. P (elim r [ ok row ↦ after | err e ↦ db ])) [
      | ok row ↦ later
      | err e ↦ before
    ]
