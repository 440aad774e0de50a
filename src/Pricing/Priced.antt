-- ===== src/Pricing/Priced.antt =====
-- What a construction estimate of src/glip/pricing/service.py rests on, line by line.
use arquitech_glip_premium_b.Prelude.{
  ℕ, zero, suc, ◌+◌, ◌*◌, ap, ◌∙◌, foldr, ◌≤◌, ◌<◌, ◌≡◌, refl, ◌≢◌, true, Option, none, some, List,
  [], ◌∷◌, arith, find?, ok, RowId, Text, codes, same_text, one_of, pos, negsuc, IntField, absent,
  not_int, int, Option-cases, inl, inr,
}
use arquitech_glip_premium_b.Prelude.Results.{>>=-eq-ok, ok-injective, Result-cases}
use mathlib.Core.Path.{subst}
use arquitech_glip_premium_b.Pricing.Data.{
  Snapshot, Item, Mapping, Line, construction_cost, Estimate, Db, estimated, estimate_ref,
}
use arquitech_glip_premium_b.Pricing.Snapshots.{is_snapshot}
use arquitech_glip_premium_b.Pricing.Mappings.{is_item, is_mapping}
use arquitech_glip_premium_b.Pricing.Sources.{detailed_cost_role_allowed}
use arquitech_glip_premium_b.Pricing.Gate.{
  require_financial_approver, is_financial_approver, eligible_quantity_provenance, round_half_up,
}
use arquitech_glip_premium_b.Pricing.Estimates.{
  is_approved, is_valid, is_executable, is_human_approved, has_approver, cost_authority, price_of,
  price_line, price_lines, base_total, checked_factor, estimate_construction, record_estimate,
  estimate_entry, scenarios,
}

-- The rows of the tables that justify one line.
pub record IsPriced (tenant project : RowId) (db : Db) (i : RowId) (line : Line) : Type 0 where
  pub mapping : Mapping
  pub item : Item
  pub snapshot : Snapshot
  pub mapped : find? (is_mapping tenant project i) db.mappings ≡ some mapping
  pub itemised : find? (is_item tenant mapping.price_source_item_id) db.items ≡ some item
  pub sourced : find? (is_snapshot tenant item.snapshot_id) db.snapshots ≡ some snapshot
  pub mapping_approved : is_approved mapping.status ≡ true
  pub approver : has_approver mapping.approved_by ≡ true
  pub eligible : one_of mapping.quantity_provenance eligible_quantity_provenance ≡ true
  pub source_valid : is_valid snapshot.validity_status ≡ true
  pub source_executable : is_executable snapshot.authority_status ≡ true
  pub item_approved :
      is_human_approved snapshot.authority_status ≡ true → item.manually_approved ≡ true
  pub role_allowed : detailed_cost_role_allowed item.role ≡ true
  pub cents : ℕ
  pub amount : item.unit_price_cents ≡ some (suc cents)
  pub same_unit : same_text item.unit mapping.quantity_unit ≡ true
  pub priced : line.unit_price_cents ≡ suc cents
  pub subtotal :
      line.base_subtotal_cents ≡ round_half_up (mapping.quantity_value * suc cents) 1000000

cost_authority_ok :
    (o : Option ℕ) {c : ℕ} → cost_authority o ≡ ok c → (n : ℕ) × (c ≡ suc n) × (o ≡ some (suc n))
unfolding cost_authority
cost_authority_ok none h = cc
cost_authority_ok (some zero) h = cc
cost_authority_ok (some (suc n)) h = (n, ground arith, refl)

price_of_ok :
    (m : Mapping) (i : Item) (s : Snapshot) {c : ℕ}
    → price_of m i s ≡ ok c
    → (is_valid s.validity_status ≡ true)
      × (is_executable s.authority_status ≡ true)
      × (is_human_approved s.authority_status ≡ true → i.manually_approved ≡ true)
      × (detailed_cost_role_allowed i.role ≡ true)
      × (cost_authority i.unit_price_cents ≡ ok c)
      × (same_text i.unit m.quantity_unit ≡ true)
unfolding price_of
price_of_ok m i s h =
    (ground arith, ground arith, ground arith, ground arith, ground arith, ground arith)

module _ (tenant project : RowId) (db : Db) where
  -- The three lookups of a round, for a round that returned.
  line_rows :
      (i : RowId) {line : Line}
      → price_line tenant project db i ≡ ok line
      → (m : Mapping) × (x : Item) × (s : Snapshot) × (find?
            (is_mapping tenant project i)
            db.mappings
          ≡ some m)
        × (find? (is_item tenant m.price_source_item_id) db.items ≡ some x)
        × (find? (is_snapshot tenant x.snapshot_id) db.snapshots ≡ some s)
  unfolding price_line
  line_rows i h = elim (Option-cases (find? (is_mapping tenant project i) db.mappings)) [
    | inl e ↦ ground (arith, e)
    | inr (m, e) ↦ elim (Option-cases (find? (is_item tenant m.price_source_item_id) db.items)) [
      | inl f ↦ ground (arith, e, f)
      | inr (x, f) ↦ elim (Option-cases (find? (is_snapshot tenant x.snapshot_id) db.snapshots)) [
        | inl g ↦ ground (arith, e, f, g)
        | inr (s, g) ↦ (m, x, s, e, f, g)
      ]
    ]
  ]

  line_facts :
      (i : RowId) (m : Mapping) (x : Item) (s : Snapshot) {line : Line}
      → price_line tenant project db i ≡ ok line
      → find? (is_mapping tenant project i) db.mappings ≡ some m
      → find? (is_item tenant m.price_source_item_id) db.items ≡ some x
      → find? (is_snapshot tenant x.snapshot_id) db.snapshots ≡ some s
      → (is_approved m.status ≡ true)
        × (has_approver m.approved_by ≡ true)
        × (one_of m.quantity_provenance eligible_quantity_provenance ≡ true)
        × (price_of m x s ≡ ok line.unit_price_cents)
        × (line.base_subtotal_cents
            ≡ round_half_up (m.quantity_value * line.unit_price_cents) 1000000)
  unfolding price_line
  line_facts i m x s h e f g = ground (arith, e, f, g)

  price_line-IsPriced :
      (i : RowId) (line : Line)
      → price_line tenant project db i ≡ ok line
      → IsPriced tenant project db i line
  price_line-IsPriced i line h =
      let (m, x, s, e, f, g) = line_rows i h in
      let (status, approver, provenance, price, amount) = line_facts i m x s h e f g in
      let (is_valid, executable, by_hand, role, paid, unit) = price_of_ok m x s price in
      let (n, cents, there) = cost_authority_ok x.unit_price_cents paid in
      record {
        mapping = m;
        item = x;
        snapshot = s;
        mapped = e;
        itemised = f;
        sourced = g;
        mapping_approved = status;
        approver = approver;
        eligible = provenance;
        source_valid = is_valid;
        source_executable = executable;
        item_approved = by_hand;
        role_allowed = role;
        cents = n;
        amount = there;
        same_unit = unit;
        priced = cents;
        subtotal = ground (arith, amount, cents);
      }

  -- Lines that justify a list of mapping ids, one each, in order.
  abbrev pub AllPriced : List RowId → List Line → Type 0
  AllPriced [] [] = Unit
  AllPriced (i ∷ is) (l ∷ ls) = IsPriced tenant project db i l × AllPriced is ls
  AllPriced _ _ = ⊥

  price_lines-AllPriced :
      (ids : List RowId) (lines : List Line)
      → price_lines tenant project db ids ≡ ok lines
      → AllPriced ids lines
  unfolding price_lines
  price_lines-AllPriced [] [] h = tt
  price_lines-AllPriced [] (l ∷ ls) h = cc
  price_lines-AllPriced (i ∷ ids) lines h =
      let (line, e, rest) = >>=-eq-ok (price_line tenant project db i) _ h in
      let (others, f, last) =
        >>=-eq-ok (price_lines tenant project db ids) (λ ls. ok (line ∷ ls)) rest in
      subst (AllPriced (i ∷ ids)) (ok-injective last)
        (price_line-IsPriced i line e, price_lines-AllPriced ids others f)

-- What a construction estimate that is returned consists of.
pub record IsEstimate (tenant project actor : RowId) (role : Text) (ids : List RowId)
    (scenario : Text) (db : Db) (e : Estimate) (after : Db) : Type 0 where
  pub factor : ℕ
  pub lines : List Line
  pub by_owner : is_financial_approver role ≡ true
  pub known_scenario : one_of scenario scenarios ≡ true
  pub factor_pos : 0 < factor
  pub factor-le : factor ≤ 50000
  pub some_mapping : ids ≢ []
  pub justified : AllPriced tenant project db ids lines
  pub inputs : e.inputs ≡ construction_cost ids factor lines
  pub total :
      e.total_cents
      ≡ round_half_up (foldr (λ l n. l.base_subtotal_cents + n) 0 lines * factor) 10000
  pub owned : (e.tenant_id ≡ tenant) × (e.project_id ≡ project) × (e.created_by ≡ actor)
  pub stored : after ≡ record db {
    estimates = e ∷ db.estimates;
    ledger =
        record {
          id = db.next_id + 1;
          tenant_id = tenant;
          project_id = project;
          event_kind = codes "construction_estimate";
          evidence_status = estimated;
          currency = codes "BRL";
          amount_cents = some e.total_cents;
          source_type = codes "pricing_estimate";
          source_ref = estimate_ref e.id;
          evidence_document_id = none;
          created_by = actor;
        }
        ∷ db.ledger;
    next_id = db.next_id + 2;
  }

-- The sum of the subtotals.
base_total-foldr :
    (lines : List Line) → base_total lines ≡ foldr (λ l n. l.base_subtotal_cents + n) 0 lines
unfolding base_total
base_total-foldr [] = refl
base_total-foldr (l ∷ ls) = ap (λ n. l.base_subtotal_cents + n) (base_total-foldr ls)

estimate_lines :
    (tenant project actor : RowId) (role : Text) (ids : List RowId) (scenario : Text)
    (factor : IntField) (db : Db) {e : Estimate} {after : Db}
    → estimate_construction tenant project actor role ids scenario factor db ≡ ok (e, after)
    → (n : ℕ) × (lines : List Line) × (checked_factor factor ≡ ok n)
      × (price_lines tenant project db ids ≡ ok lines)
unfolding estimate_construction require_financial_approver
estimate_lines tenant project actor role ids scenario factor db h =
    elim (Result-cases (checked_factor factor)) [
      | inl (n, e) ↦ elim (Result-cases (price_lines tenant project db ids)) [
        | inl (lines, f) ↦ (n, lines, e, f)
        | inr (x, f) ↦ ground (arith, e, f)
      ]
      | inr (x, e) ↦ ground (arith, e)
    ]

checked_factor_range : (f : IntField) {n : ℕ} → checked_factor f ≡ ok n → (0 < n) × (n ≤ 50000)
unfolding checked_factor
checked_factor_range (int (pos k)) h = (ground arith, ground arith)
checked_factor_range (int (negsuc k)) h = cc
checked_factor_range absent h = cc
checked_factor_range not_int h = cc

-- A construction estimate is returned only to a tenant owner, for a known scenario, a factor from
-- 1 to 50000 basis points and at least one mapping; each mapping gives one line justified by rows
-- of the tenant, the total is the sum of the subtotals times the factor, rounded, and the tables
-- gain the estimate and one ledger entry, in BRL, of its total and its creator, that refers to it,
-- and nothing else.
pub estimate_construction-IsEstimate :
    (tenant project actor : RowId) (role : Text) (ids : List RowId) (scenario : Text)
    (factor : IntField) (db : Db) (e : Estimate) (after : Db)
    → estimate_construction tenant project actor role ids scenario factor db ≡ ok (e, after)
    → IsEstimate tenant project actor role ids scenario db e after
unfolding estimate_construction require_financial_approver record_estimate estimate_entry
estimate_construction-IsEstimate tenant project actor role ids scenario factor db e after h =
    let (n, lines, f, g) = estimate_lines tenant project actor role ids scenario factor db h in
    let (pos_factor, small) = checked_factor_range factor f in
    let sum_total : e.total_cents ≡ round_half_up (base_total lines * n) 10000 =
      ground (arith, f, g) in
    record {
      factor = n;
      lines = lines;
      by_owner = ground arith;
      known_scenario = ground arith;
      factor_pos = pos_factor;
      factor-le = small;
      some_mapping = λ empty. ground (arith, empty, f);
      justified = price_lines-AllPriced tenant project db ids lines g;
      inputs = ground (arith, f, g);
      total = sum_total ∙ ap (λ m. round_half_up (m * n) 10000) (base_total-foldr lines);
      owned = ground (arith, f, g);
      stored = ground (arith, f, g);
    }
