-- ===== src/Projects/Replay.antt =====
-- The idempotency key of `create_project` (src/glip/routes.py) under any later requests.
use arquitech_glip_premium_b.Prelude.{
  ◌≡◌, refl, ap, sym, ◌∙◌, subst, some, ◌∷◌, ◌==◌, find?, ok, Session, begin, request, RowId, Text,
  same_text_refl, arith, Option-cases, Bool-cases, inl, inr,
}
use arquitech_glip_premium_b.Prelude.Results.{Result-cases}
use arquitech_glip_premium_b.Prelude.Tables.{find-holds}
use arquitech_glip_premium_b.Auth.Data.{Principal}
use arquitech_glip_premium_b.Projects.Data.{Project, CreateIdempotency, Tables, Payload}
use arquitech_glip_premium_b.Projects.Create.{
  has_create_key, is_project, existing_project_create, replay_or_conflict, add_project,
  write_project, create_checked, insert_project, violates_unique, is_profile,
  ensure_cognitive_profile, let_in, new_project,
}

-- A key that leads to a project of its tenant.
pub record IsKept (tenant actor key : Text) (sha : RowId) (project_id : RowId) (t : Tables)
    : Type 0 where
  pub row : CreateIdempotency
  pub keyed : find? (has_create_key tenant actor key) t.idempotency ≡ some row
  pub digest : row.request_sha256 ≡ sha
  pub leads : row.project_id ≡ project_id
  pub project : Project
  pub there : find? (is_project tenant project_id) t.projects ≡ some project

module _ (p : Principal) (key : Text) (sha : RowId) where
  existing-ok :
      (t : Tables) (x : Project)
      → (existing_project_create p key sha (begin t)).0 ≡ ok (some x)
      → IsKept p.tenant_id p.subject key sha x.id t
  unfolding existing_project_create
  existing-ok t x h =
      elim (Option-cases (find? (has_create_key p.tenant_id p.subject key) t.idempotency)) [
        | inl e ↦ ground (arith, e)
        | inr (row, e) ↦
            elim (Option-cases (find? (is_project p.tenant_id row.project_id) t.projects)) [
              | inl f ↦ ground (arith, e, f)
              | inr (y, f) ↦
                  let same : y ≡ x = ground (arith, e, f) in
                  let held = find-holds (is_project p.tenant_id row.project_id) t.projects f in
                  let id : row.project_id ≡ x.id = ground (arith, held, ap (λ z. z.id) same) in
                  record {
                    row = row;
                    keyed = e;
                    digest = ground (arith, e, f);
                    leads = id;
                    project = y;
                    there = ap (λ i. find? (is_project p.tenant_id i) t.projects) (sym id) ∙ f;
                  }
            ]
      ]

  pub existing-keeps : (s : Session Tables) → (existing_project_create p key sha s).1 ≡ s
  unfolding existing_project_create
  existing-keeps s =
      elim (Option-cases (find? (has_create_key p.tenant_id p.subject key) s.working.idempotency)) [
        | inl e ↦ cc (e)
        | inr (row, e) ↦ elim (Bool-cases (row.request_sha256 == sha)) [
          | inl same ↦
              elim (Option-cases
                (find? (is_project p.tenant_id row.project_id) s.working.projects)) [
                  | inl f ↦ cc (e, same, f)
                  | inr (y, f) ↦ cc (e, same, f)
                ]
          | inr other ↦ cc (e, other)
        ]
      ]

  module _ (u t1 : Tables) (x : Project) where
    conflict-IsKept :
        request (replay_or_conflict p key sha) u ≡ (ok x, t1)
        → IsKept p.tenant_id p.subject key sha x.id t1
    unfolding replay_or_conflict
    conflict-IsKept h =
        let kept = existing-keeps (begin u) in
        elim (Result-cases (existing_project_create p key sha (begin u)).0) [
          | inl (found, e) ↦ elim (Option-cases found) [
            | inl f ↦ ground (arith, h, kept, e, f)
            | inr (y, f) ↦
                let same : y ≡ x = ground (arith, h, kept, e, f) in
                let unchanged : t1 ≡ u = ground (arith, h, kept, e, f) in
                subst (IsKept p.tenant_id p.subject key sha x.id) (sym unchanged)
                  (existing-ok u x (e ∙ ap ok f ∙ ap (λ z. ok (some z)) same))
          ]
          | inr (failed, e) ↦ ground (arith, h, kept, e)
        ]

    add-rows :
        (payload : Payload)
        → request (add_project p key sha payload) u ≡ (ok x, t1)
        → (x ≡ new_project p payload u.next_id)
          × (t1.idempotency ≡ (insert_project p key sha payload u).idempotency)
          × (t1.projects ≡ new_project p payload u.next_id ∷ u.projects)
    unfolding add_project insert_project ensure_cognitive_profile
    add-rows payload h = elim (Option-cases (find? (is_profile p.tenant_id u.next_id) u.profiles)) [
      | inl e ↦ (ground (arith, e, h), ground (arith, e, h), ground (arith, e, h))
      | inr (profile, e) ↦ (ground (arith, e, h), ground (arith, e, h), ground (arith, e, h))
    ]

    add-IsKept :
        (payload : Payload)
        → request (add_project p key sha payload) u ≡ (ok x, t1)
        → IsKept p.tenant_id p.subject key sha x.id t1
    unfolding insert_project new_project
    add-IsKept payload h =
        let rows = add-rows payload h in
        let own = same_text_refl p.tenant_id in
        let id : u.next_id ≡ x.id = ap (λ y. y.id) (sym rows.0) in
        record {
          row = record {
            tenant_id = p.tenant_id;
            actor_id = p.subject;
            idempotency_key = key;
            request_sha256 = sha;
            project_id = u.next_id;
          };
          keyed =
              ap (find? (has_create_key p.tenant_id p.subject key)) rows.1
              ∙ ground (arith, own, same_text_refl p.subject, same_text_refl key);
          digest = refl;
          leads = id;
          project = new_project p payload u.next_id;
          there =
              ap (find? (is_project p.tenant_id x.id)) rows.2
              ∙ ap
                  (λ i.
                    find? (is_project p.tenant_id i) (new_project p payload u.next_id ∷ u.projects))
                  (sym id)
              ∙ ground (arith, own);
        }

    write-IsKept :
        (payload : Payload)
        → request (write_project p key sha payload) u ≡ (ok x, t1)
        → IsKept p.tenant_id p.subject key sha x.id t1
    unfolding write_project
    write-IsKept payload h = elim (Bool-cases (violates_unique p key payload u)) [
      | inl clash ↦ conflict-IsKept (ground (arith, clash, h))
      | inr free ↦ add-IsKept payload (ground (arith, free, h))
    ]

module _ (canonical_sha256 : Payload → RowId) where
  pub create_checked-IsKept :
      (p : Principal) (key : Text) (payload : Payload) (meanwhile : Tables → Tables) (t t1 : Tables)
      (x : Project)
      → request (create_checked canonical_sha256 p (key, payload) meanwhile) t ≡ (ok x, t1)
      → IsKept p.tenant_id p.subject key (canonical_sha256 payload) x.id t1
  unfolding create_checked let_in
  create_checked-IsKept p key payload meanwhile t t1 x h =
      let sha = canonical_sha256 payload in
      let kept = existing-keeps p key sha (begin t) in
      elim (Result-cases (existing_project_create p key sha (begin t)).0) [
        | inl (found, e) ↦ elim (Option-cases found) [
          | inl f ↦
              write-IsKept p key sha (meanwhile t) t1 x payload (ground (arith, h, kept, e, f))
          | inr (y, f) ↦
              let same : y ≡ x = ground (arith, h, kept, e, f) in
              let unchanged : t1 ≡ t = ground (arith, h, kept, e, f) in
              subst (IsKept p.tenant_id p.subject key sha x.id) (sym unchanged)
                (existing-ok p key sha t x (e ∙ ap ok f ∙ ap (λ z. ok (some z)) same))
        ]
        | inr (failed, e) ↦ ground (arith, h, kept, e)
      ]
