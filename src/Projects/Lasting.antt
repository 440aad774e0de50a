-- ===== src/Projects/Lasting.antt =====
-- What later requests leave of a created project and its key (src/glip/routes.py).
use arquitech_glip_premium_b.Prelude.{
  ◌≡◌, ◌⊎◌, refl, ap, ◌∙◌, subst, true, false, ◌&&◌, some, List, ◌∷◌, ◌==◌, any, find?, begin,
  request, RowId, Text, same_text, same_text-eq, arith, Option-cases, Bool-cases, inl, inr,
}
use arquitech_glip_premium_b.Prelude.Results.{Result-cases}
use arquitech_glip_premium_b.Prelude.Tables.{any-of_find, find-update_unique}
use arquitech_glip_premium_b.Auth.Data.{Principal}
use arquitech_glip_premium_b.Projects.Data.{Project, Tables, Payload}
use arquitech_glip_premium_b.Projects.Create.{
  has_create_key, is_project, existing_project_create, replay_or_conflict, add_project,
  write_project, insert_project, violates_unique, is_profile, ensure_cognitive_profile, new_project,
}
use arquitech_glip_premium_b.Projects.Change.{write_back, take_from}
use arquitech_glip_premium_b.Projects.Replay.{IsKept, existing-keeps}

-- The rows of a creation that inserted, in the tables that it left.
pub record IsInserted (q : Principal) (key : Text) (sha : RowId) (payload : Payload)
    (t after : Tables) : Type 0 where
  pub free : violates_unique q key payload t ≡ false
  pub keys : after.idempotency ≡ (insert_project q key sha payload t).idempotency
  pub projects : after.projects ≡ (insert_project q key sha payload t).projects
  pub clients : after.clients ≡ t.clients

module _ (q : Principal) (key : Text) (sha : RowId) (payload : Payload) (t : Tables) where
  add-IsInserted :
      violates_unique q key payload t ≡ false
      → IsInserted q key sha payload t (request (add_project q key sha payload) t).1
  unfolding add_project insert_project ensure_cognitive_profile
  add-IsInserted free = elim (Option-cases (find? (is_profile q.tenant_id t.next_id) t.profiles)) [
    | inl e ↦ record {
      free = free;
      keys = ground (arith, e);
      projects = ground (arith, e);
      clients = ground (arith, e);
    }
    | inr (profile, e) ↦ record {
      free = free;
      keys = ground (arith, e);
      projects = ground (arith, e);
      clients = ground (arith, e);
    }
  ]

  pub conflict-keeps : (request (replay_or_conflict q key sha) t).1 ≡ t
  unfolding replay_or_conflict
  conflict-keeps =
      let kept = existing-keeps q key sha (begin t) in
      elim (Result-cases (existing_project_create q key sha (begin t)).0) [
        | inl (found, e) ↦ elim (Option-cases found) [
          | inl f ↦ ground (arith, kept, e, f)
          | inr (y, f) ↦ ground (arith, kept, e, f)
        ]
        | inr (failed, e) ↦ ground (arith, kept, e)
      ]

  unfoldable pub Effect : Tables → Type 0
  Effect after = (after ≡ t) ⊎ IsInserted q key sha payload t after

  pub write-Effect : Effect (request (write_project q key sha payload) t).1
  unfolding write_project Effect
  write-Effect = elim (Bool-cases (violates_unique q key payload t)) [
    | inl clash ↦ inl (ground (arith, clash, conflict-keeps))
    | inr free ↦
        let same : (request (add_project q key sha payload) t).1
            ≡ (request (write_project q key sha payload) t).1 =
          ground (arith, free) in
        inr (subst (IsInserted q key sha payload t) same (add-IsInserted free))
  ]

module _ (tenant actor key : Text) (sha : RowId) (id : RowId) where
  other_key :
      (q : Principal) (k : Text) (other : RowId) (payload : Payload) (t : Tables)
      → IsKept tenant actor key sha id t
      → violates_unique q k payload t ≡ false
      → (same_text q.tenant_id tenant && same_text q.subject actor && same_text k key) ≡ false
  unfolding violates_unique
  other_key q k other payload t kept free =
      elim (Bool-cases
        (same_text q.tenant_id tenant && same_text q.subject actor && same_text k key)) [
          | inl same ↦
              let of_tenant = same_text-eq q.tenant_id tenant (ground (arith, same)) in
              let of_actor = same_text-eq q.subject actor (ground (arith, same)) in
              let of_key = same_text-eq k key (ground (arith, same)) in
              let taken : any (has_create_key tenant actor key) t.idempotency ≡ true =
                any-of_find (has_create_key tenant actor key) t.idempotency kept.keyed in
              let clash : any (has_create_key q.tenant_id q.subject k) t.idempotency ≡ true =
                ap (λ x. any (has_create_key x q.subject k) t.idempotency) of_tenant
                ∙ ap (λ x. any (has_create_key tenant x k) t.idempotency) of_actor
                ∙ ap (λ x. any (has_create_key tenant actor x) t.idempotency) of_key
                ∙ taken in
              ground (arith, clash, free)
          | inr other_one ↦ other_one
        ]

  first_project :
      (new : Project) (rows : List Project) (x : Project)
      → find? (is_project tenant id) rows ≡ some x
      → (y : Project) × (find? (is_project tenant id) (new ∷ rows) ≡ some y)
  first_project new rows x found = elim (Bool-cases (is_project tenant id new)) [
    | inl here ↦ (new, ground (arith, here))
    | inr there ↦ (x, ground (arith, there, found))
  ]

  pub inserted-IsKept :
      (q : Principal) (k : Text) (other : RowId) (payload : Payload) (t after : Tables)
      → IsKept tenant actor key sha id t
      → IsInserted q k other payload t after
      → IsKept tenant actor key sha id after
  unfolding insert_project
  inserted-IsKept q k other payload t after kept inserted =
      let different = other_key q k other payload t kept inserted.free in
      let first =
        first_project (new_project q payload t.next_id) t.projects kept.project kept.there in
      record {
        row = kept.row;
        keyed =
            ap (find? (has_create_key tenant actor key)) inserted.keys
            ∙ ground (arith, different, kept.keyed);
        digest = kept.digest;
        leads = kept.leads;
        project = first.0;
        there = ap (find? (is_project tenant id)) inserted.projects ∙ first.1;
      }

  pub written-IsKept :
      (x : Project) (t after : Tables)
      → IsKept tenant actor key sha id t
      → after.idempotency ≡ t.idempotency
      → after.projects ≡ (write_back x t).projects
      → IsKept tenant actor key sha id after
  unfolding write_back take_from
  written-IsKept x t after kept keys projects = record {
    row = kept.row;
    keyed = ap (find? (has_create_key tenant actor key)) keys ∙ kept.keyed;
    digest = kept.digest;
    leads = kept.leads;
    project = _;
    there =
        ap (find? (is_project tenant id)) projects
        ∙ find-update_unique (λ y. y.id == x.id) (is_project tenant id) (take_from x) t.projects
            (λ y. refl) kept.there;
  }
