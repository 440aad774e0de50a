-- ===== src/Drafts/Memory.antt =====
-- src/glip/services.py: `approve_memory_candidate`, and what it keeps true of the project's memory.
use arquitech_glip_premium_b.Prelude.{
  ℕ, ◌+◌, ◌<◌, ◌≡◌, refl, ◌≢◌, inl, inr, Bool, true, false, ◌&&◌, ◌||◌, none, some, List, [], ◌∷◌,
  ◌==◌, if◌then◌else◌, find?, update_where, arith, Action, request, pure, gets, or_raise, ◌>>=◌,
  ◌>>◌, raise_if, modify, commit, Result, ok, err, Error, http, RowId, Text, same_text, strip,
  is_empty, max, Option-cases, Bool-cases, All,
}
use mathlib.Core.Path.{subst, sym}
use arquitech_glip_premium_b.Prelude.Results.{Result-cases, ok-injective}
use arquitech_glip_premium_b.Prelude.Tables.{find-holds, find-none_of_update}
use arquitech_glip_premium_b.Drafts.Data.{
  promoted, Project, MemoryCandidate, MemoryFact, Db, is_pending, memory_promoted,
}
use arquitech_glip_premium_b.Drafts.Approval.{mutable_project_or_409, emit, is_project}

-- The highest version of a fact's key, `func.max(...) or 0`.
unfoldable pub current_max : RowId → RowId → Text → List MemoryFact → ℕ
current_max tenant project_id key [] = 0
current_max tenant project_id key (f ∷ fs) =
    let rest = current_max tenant project_id key fs in
    if f.tenant_id == tenant && f.project_id == project_id && same_text f.fact_key key
    then max f.version rest
    else rest

abbrev pub is_candidate : RowId → RowId → RowId → MemoryCandidate → Bool
is_candidate tenant project_id i c =
    c.id == i && c.tenant_id == tenant && c.project_id == project_id && is_pending c.status

unfoldable pub approve_memory_candidate :
    RowId → RowId → RowId → RowId → Text → Text → ℕ → Action Db Error MemoryFact
approve_memory_candidate tenant project_id candidate_id actor key value now = do
  db ← gets (λ db. db)
  candidate ←
      or_raise (find? (is_candidate tenant project_id candidate_id) db.candidates)
        (http 404 "memory_candidate_not_found")
  raise_if (is_empty (strip key) || is_empty (strip value)) (http 422 "fact_key_and_value_required")
  let fact : MemoryFact = record {
    id = db.next_id;
    tenant_id = tenant;
    project_id = project_id;
    fact_key = strip key;
    fact_value = strip value;
    version = current_max tenant project_id (strip key) db.facts + 1;
    source_approved_version_id = candidate.source_approved_version_id;
    approved_by = actor;
  }
  modify (λ db. record db {
    candidates =
        update_where (λ c. c.id == candidate.id)
          (λ c. record c { status = promoted; decided_by = some actor; decided_at = some now })
          db.candidates;
    facts = fact ∷ db.facts;
    next_id = db.next_id + 1;
  })
  pure fact

-- The route: the fact's promotion also moves the project's context on.
unfoldable pub promote_memory :
    RowId → RowId → RowId → RowId → Text → Text → ℕ → Action Db Error MemoryFact
promote_memory tenant project_id candidate_id actor key value now = do
  project ← mutable_project_or_409 tenant project_id
  fact ← approve_memory_candidate tenant project_id candidate_id actor key value now
  modify (λ db. record db {
    projects =
        update_where (λ p. p.id == project.id)
          (λ p. record p { context_version = p.context_version + 1 }) db.projects;
  })
  emit tenant project_id actor (memory_promoted fact.id candidate_id)
  commit
  pure fact

-- The facts of one key.
abbrev pub is_fact : RowId → RowId → Text → MemoryFact → Bool
is_fact tenant project_id key f =
    f.tenant_id == tenant && f.project_id == project_id && same_text f.fact_key key

-- Above the maximum, no version of the key is in use.
current_max-bounds :
    (tenant project_id : RowId) (key : Text) (n : ℕ) (fs : List MemoryFact)
    → current_max tenant project_id key fs < n
    → All (λ f. is_fact tenant project_id key f ≡ true → f.version < n) fs
unfolding current_max
current_max-bounds tenant project_id key n [] h = tt
current_max-bounds tenant project_id key n (f ∷ fs) h = (
  λ here. ground (arith, here),
  current_max-bounds tenant project_id key n fs
      (elim (Bool-cases (is_fact tenant project_id key f)) [
        | inl here ↦ ground (arith, here)
        | inr there ↦ ground (arith, there)
      ]),
)

-- A fact is newer than every fact of its key that was written before it: newest first, the versions
-- of one key go down, and none is used twice.
unfoldable pub IsVersioned : List MemoryFact → Type 0
IsVersioned [] = Unit
IsVersioned (f ∷ fs) =
    All (λ g. is_fact f.tenant_id f.project_id f.fact_key g ≡ true → g.version < f.version) fs
    × IsVersioned fs

-- Every candidate's promotion is recorded, with who did it and when.
abbrev pub IsRecorded : MemoryCandidate → Type 0
IsRecorded c = c.status ≡ promoted → (c.decided_by ≢ none) × (c.decided_at ≢ none)

-- What a promotion stands on.
pub record IsPromotable (tenant project_id candidate_id : RowId) (key value : Text) (db : Db)
    : Type 0 where
  pub project_row : Project
  pub candidate : MemoryCandidate
  pub project_there : find? (is_project tenant project_id) db.projects ≡ some project_row
  pub active : project_row.archived_at ≡ none
  pub candidate_there :
      find? (is_candidate tenant project_id candidate_id) db.candidates ≡ some candidate
  pub has_key : is_empty (strip key) ≡ false
  pub has_value : is_empty (strip value) ≡ false

module _ (tenant project_id candidate_id actor : RowId) (key value : Text) (now : ℕ) (db : Db) where
  abbrev pub promote : Result Error MemoryFact × Db
  promote = request (promote_memory tenant project_id candidate_id actor key value now) db

  abbrev pub promoted_fact : MemoryCandidate → MemoryFact
  promoted_fact c = record {
    id = db.next_id;
    tenant_id = tenant;
    project_id = project_id;
    fact_key = strip key;
    fact_value = strip value;
    version = current_max tenant project_id (strip key) db.facts + 1;
    source_approved_version_id = c.source_approved_version_id;
    approved_by = actor;
  }

  pub promotable :
      (fact : MemoryFact)
      → promote.0 ≡ ok fact
      → IsPromotable tenant project_id candidate_id key value db
  unfolding promote_memory approve_memory_candidate mutable_project_or_409
  promotable fact h = elim (Option-cases (find? (is_project tenant project_id) db.projects)) [
    | inl e ↦ ground (arith, e)
    | inr (p, e) ↦
        elim (Option-cases (find? (is_candidate tenant project_id candidate_id) db.candidates)) [
          | inl f ↦ ground (arith, e, f)
          | inr (c, f) ↦ record {
            project_row = p;
            candidate = c;
            project_there = e;
            active = ground (arith, e);
            candidate_there = f;
            has_key = ground (arith, e, f);
            has_value = ground (arith, e, f);
          }
        ]
  ]

  pub promotion_writes :
      (k : IsPromotable tenant project_id candidate_id key value db)
      → (promote.0 ≡ ok (promoted_fact k.candidate))
        × (promote.1.facts ≡ promoted_fact k.candidate ∷ db.facts)
        × (promote.1.candidates
            ≡ update_where
                (λ c. c.id == k.candidate.id)
                (λ c. record c {
                  status = promoted;
                  decided_by = some actor;
                  decided_at = some now;
                })
                db.candidates)
        × (promote.1.projects
            ≡ update_where
                (λ p. p.id == k.project_row.id)
                (λ p. record p { context_version = p.context_version + 1 })
                db.projects)
  unfolding promote_memory approve_memory_candidate mutable_project_or_409 emit
  promotion_writes k =
      ground (arith, k.project_there, k.active, k.candidate_there, k.has_key, k.has_value)

  -- A failing promotion leaves the tables as they were.
  pub promotion_atomic : {e : Error} → promote.0 ≡ err e → promote.1 ≡ db
  unfolding promote_memory approve_memory_candidate mutable_project_or_409 emit
  promotion_atomic h = ground arith

  -- A promotion that answers rests on a pending candidate of the tenant and project; the fact
  -- cites that candidate's approved version and names who promoted it, and its key and text are
  -- not empty.
  pub promotion_source :
      (fact : MemoryFact)
      → promote.0 ≡ ok fact
      → (c : MemoryCandidate) × (find? (is_candidate tenant project_id candidate_id) db.candidates
          ≡ some c)
        × (fact.source_approved_version_id ≡ c.source_approved_version_id)
        × (fact.approved_by ≡ actor)
        × (is_empty fact.fact_key ≡ false)
        × (is_empty fact.fact_value ≡ false)
  promotion_source fact h =
      let k = promotable fact h in
      let same : promoted_fact k.candidate ≡ fact =
        (let w = (promotion_writes k).0 in ok-injective {E = Error} cc) in
      subst
        (λ f.
          (c : MemoryCandidate) × (find? (is_candidate tenant project_id candidate_id) db.candidates
            ≡ some c)
          × (f.source_approved_version_id ≡ c.source_approved_version_id)
          × (f.approved_by ≡ actor)
          × (is_empty f.fact_key ≡ false)
          × (is_empty f.fact_value ≡ false))
        same (k.candidate, k.candidate_there, refl, refl, k.has_key, k.has_value)

  -- A promotion keeps the versions of each fact key strictly increasing in the order of writing,
  -- whether it succeeds or fails.
  pub promotion_versions : IsVersioned db.facts → IsVersioned promote.1.facts
  unfolding IsVersioned
  promotion_versions h = elim (Result-cases promote.0) [
    | inl (fact, e) ↦
        let k = promotable fact e in
        let newest =
          current_max-bounds tenant project_id (strip key)
            (current_max tenant project_id (strip key) db.facts + 1) db.facts (omega arith) in
        subst IsVersioned (sym (promotion_writes k).1) (newest, h)
    | inr (e, failed) ↦ subst (λ d. IsVersioned d.facts) (sym (promotion_atomic failed)) h
  ]

  pub candidate_gone :
      {fact : MemoryFact}
      → promote.0 ≡ ok fact
      → find? (is_candidate tenant project_id candidate_id) promote.1.candidates ≡ none
  candidate_gone {fact} h =
      let k = promotable fact h in
      let own =
        find-holds (is_candidate tenant project_id candidate_id) db.candidates k.candidate_there in
      subst (λ cs. find? (is_candidate tenant project_id candidate_id) cs ≡ none)
        (sym (promotion_writes k).2)
        (find-none_of_update (λ c. c.id == k.candidate.id)
          (is_candidate tenant project_id candidate_id)
          (λ c. record c { status = promoted; decided_by = some actor; decided_at = some now })
          db.candidates (λ c e. ground arith) (λ c e. ground arith))
