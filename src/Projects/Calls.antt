-- ===== src/Projects/Calls.antt =====
-- Any sequence of requests on projects (src/glip/routes.py), and a repeated creation after it.
use arquitech_glip_premium_b.Prelude.{
  ℕ, ◌+◌, ◌≡◌, ◌⊎◌, refl, sym, subst, Bool, true, false, not, List, [], ◌∷◌, if◌then◌else◌, Result,
  ok, err, Action, ◌>>=◌, ◌>>◌, raise_if, pure, begin, request, Error, http, RowId, Text, codes,
  is_none, arith, Option-cases, inl, inr,
}
use arquitech_glip_premium_b.Prelude.Results.{Result-cases, checked}
use arquitech_glip_premium_b.Auth.Data.{Principal}
use arquitech_glip_premium_b.Projects.Data.{
  updated, Project, Tables, Payload, CreateBody, Patch, AuditKind,
}
use arquitech_glip_premium_b.Projects.Authz.{has_capability}
use arquitech_glip_premium_b.Projects.Body.{check_create}
use arquitech_glip_premium_b.Projects.Create.{
  existing_project_create, write_project, create_checked, create_project, let_in,
  require_capability,
}
use arquitech_glip_premium_b.Projects.Edit.{sorted_fields, code_taken, Edit, edited, project_or_404}
use arquitech_glip_premium_b.Projects.Change.{
  update_project, archive_project, restore_project, bump, write_back, save,
}
use arquitech_glip_premium_b.Projects.Replay.{IsKept, existing-keeps}
use arquitech_glip_premium_b.Projects.Lasting.{
  Effect, write-Effect, inserted-IsKept, written-IsKept,
}

-- What a change of one project may do.
Change : Tables → Tables → Type 0
Change t after =
    (after ≡ t)
    ⊎ ((x : Project) × (after.idempotency ≡ t.idempotency)
        × (after.projects ≡ (write_back x t).projects))

Changes : {A : Type 0} → Tables → Action Tables Error A → Type 0
Changes t m = Change t (request m t).1

bump-Changes :
    (p : Principal) (kind : AuditKind) (x : Project) (t : Tables) → Changes t (bump p kind x)
unfolding bump Changes Change write_back
bump-Changes p kind x t = inr (record x { context_version = x.context_version + 1 }, refl, refl)

pure-Changes : {A : Type 0} (t : Tables) (a : A) → Changes t (pure a)
unfolding Changes Change
pure-Changes t a = inl refl

-- A request that stops before its write changes nothing.
guarded-Changes :
    {A : Type 0} (t : Tables) (b : Bool) (e : Error) (rest : Action Tables Error A)
    → Changes t rest
    → Changes t (raise_if b e >> rest)
unfolding Changes Change
guarded-Changes t true e rest later = inl refl
guarded-Changes t false e rest later = later

save-Changes : (p : Principal) (e : Edit) (t : Tables) → Changes t (save p e)
unfolding save Changes Change
save-Changes p (x, []) t = inl refl
save-Changes p (x, f ∷ fs) t =
    let kind = updated (sorted_fields (f ∷ fs)) in
    guarded-Changes t (code_taken t x x.code) (http 409 "project_conflict") (bump p kind x)
      (bump-Changes p kind x t)

result-Changes :
    {A B : Type 0} (t : Tables) (r : Result Error A) (rest : A → Action Tables Error B)
    → ((a : A) → Changes t (rest a))
    → Changes t ((λ s. (r, s)) >>= rest)
unfolding Changes Change
result-Changes t (err e) rest later = inl refl
result-Changes t (ok a) rest later = later a

checked-Changes :
    {A B : Type 0} (t : Tables) (f : Tables → Result Error A) (rest : A → Action Tables Error B)
    → ((a : A) → Changes t (rest a))
    → Changes t (checked f >>= rest)
unfolding Changes
checked-Changes t f rest later = result-Changes t (f t) rest later

chosen-Changes :
    {A : Type 0} (t : Tables) (b : Bool) (yes_then no_then : Action Tables Error A)
    → Changes t yes_then
    → Changes t no_then
    → Changes t (if b then yes_then else no_then)
chosen-Changes t true yes_then no_then first second = first
chosen-Changes t false yes_then no_then first second = second

update-Changes :
    (p : Principal) (id : RowId) (body : Patch) (t : Tables) → Changes t (update_project p id body)
unfolding update_project require_capability
update-Changes p id body t =
    guarded-Changes t (not (has_capability p.role (codes "project.update")))
      (http 403 "capability_required") _
      (checked-Changes t (project_or_404 p.tenant_id id) _ (λ x.
        guarded-Changes t (not (is_none x.archived_at)) (http 409 "project_archived") _
          (checked-Changes t (λ u. edited u body x) _ (λ e. save-Changes p e t))))

archive-Changes :
    (p : Principal) (id : RowId) (now : ℕ) (t : Tables) → Changes t (archive_project p id now)
unfolding archive_project require_capability
archive-Changes p id now t =
    guarded-Changes t (not (has_capability p.role (codes "project.archive")))
      (http 403 "capability_required") _
      (checked-Changes t (project_or_404 p.tenant_id id) _ (λ x.
        chosen-Changes t (is_none x.archived_at) _ _ (bump-Changes p _ _ t) (pure-Changes t x)))

restore-Changes : (p : Principal) (id : RowId) (t : Tables) → Changes t (restore_project p id)
unfolding restore_project require_capability
restore-Changes p id t =
    guarded-Changes t (not (has_capability p.role (codes "project.restore")))
      (http 403 "capability_required") _
      (checked-Changes t (project_or_404 p.tenant_id id) _ (λ x.
        chosen-Changes t (is_none x.archived_at) _ _ (pure-Changes t x) (bump-Changes p _ _ t)))

pub data Call : Type 0 where
  create : Principal → CreateBody → Text → Call
  update : Principal → RowId → Patch → Call
  archive : Principal → RowId → ℕ → Call
  restore : Principal → RowId → Call

module _ (canonical_sha256 : Payload → RowId) where
  unfoldable pub serve : Call → Tables → Tables
  serve (create p body key) t = (request (create_project canonical_sha256 p body key (λ u. u)) t).1
  serve (update p id body) t = (request (update_project p id body) t).1
  serve (archive p id now) t = (request (archive_project p id now) t).1
  serve (restore p id) t = (request (restore_project p id) t).1

  unfoldable pub serve_all : List Call → Tables → Tables
  serve_all [] t = t
  serve_all (c ∷ cs) t = serve_all cs (serve c t)

  create_checked-Effect :
      (q : Principal) (key : Text) (payload : Payload) (t : Tables)
      → Effect q key
          (canonical_sha256 payload)
          payload
          t
          (request (create_checked canonical_sha256 q (key, payload) (λ u. u)) t).1
  unfolding create_checked let_in Effect
  create_checked-Effect q key payload t =
      let sha = canonical_sha256 payload in
      let kept = existing-keeps q key sha (begin t) in
      elim (Result-cases (existing_project_create q key sha (begin t)).0) [
        | inl (found, e) ↦ elim (Option-cases found) [
          | inl f ↦
              let same : (request (write_project q key sha payload) t).1
                  ≡ (request (create_checked canonical_sha256 q (key, payload) (λ u. u)) t).1 =
                ground (arith, kept, e, f) in
              subst (Effect q key sha payload t) same (write-Effect q key sha payload t)
          | inr (y, f) ↦ inl (ground (arith, kept, e, f))
        ]
        | inr (failed, e) ↦ inl (ground (arith, kept, e))
      ]

  module _ (tenant actor key : Text) (sha : RowId) (id : RowId) where
    abbrev Kept : Tables → Type 0
    Kept = IsKept tenant actor key sha id

    changed-IsKept : (t after : Tables) → Kept t → Change t after → Kept after
    unfolding Change
    changed-IsKept t after kept (inl same) = subst Kept (sym same) kept
    changed-IsKept t after kept (inr (x, keys, projects)) =
        written-IsKept tenant actor key sha id x t after kept keys projects

    created-IsKept :
        (q : Principal) (body : CreateBody) (k : Text) (t : Tables)
        → Kept t
        → Kept (serve (create q body k) t)
    unfolding serve create_project Effect
    created-IsKept q body k t kept = elim (Result-cases (check_create q body k t)) [
      | inr (refused, e) ↦
          let same : serve (create q body k) t ≡ t = ground (arith, e) in subst Kept (sym same) kept
      | inl ((own, payload), e) ↦
          let after = (request (create_checked canonical_sha256 q (own, payload) (λ u. u)) t).1 in
          let same : serve (create q body k) t ≡ after = ground (arith, e) in
          subst Kept (sym same) (elim (create_checked-Effect q own payload t) [
            | inl unchanged ↦ subst Kept (sym unchanged) kept
            | inr inserted ↦
                inserted-IsKept tenant actor key sha id q own (canonical_sha256 payload) payload t
                  after kept inserted
          ])
    ]

    serve-IsKept : (c : Call) (t : Tables) → Kept t → Kept (serve c t)
    unfolding serve Changes
    serve-IsKept (create q body k) t kept = created-IsKept q body k t kept
    serve-IsKept (update p i body) t kept = changed-IsKept t _ kept (update-Changes p i body t)
    serve-IsKept (archive p i now) t kept = changed-IsKept t _ kept (archive-Changes p i now t)
    serve-IsKept (restore p i) t kept = changed-IsKept t _ kept (restore-Changes p i t)

    pub serve_all-IsKept : (cs : List Call) (t : Tables) → Kept t → Kept (serve_all cs t)
    unfolding serve_all
    serve_all-IsKept [] t kept = kept
    serve_all-IsKept (c ∷ cs) t kept = serve_all-IsKept cs (serve c t) (serve-IsKept c t kept)
