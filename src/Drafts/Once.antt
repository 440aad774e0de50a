-- ===== src/Drafts/Once.antt =====
-- A memory candidate of src/glip/services.py after its promotion, over further promotions.
use arquitech_glip_premium_b.Prelude.{
  ℕ, ◌≡◌, ◌≢◌, refl, ap, ◌∙◌, Bool, false, none, some, List, [], ◌∷◌, find?, update_where, arith,
  request, ok, RowId, Text, Bool-cases, inl, inr, ◌==◌,
}
use arquitech_glip_premium_b.Prelude.Results.{Result-cases}
use arquitech_glip_premium_b.Drafts.Data.{promoted, MemoryCandidate, MemoryFact, Db}
use arquitech_glip_premium_b.Drafts.Memory.{
  is_candidate, promote_memory, promotable, promotion_writes, promotion_atomic, candidate_gone,
}

-- Calls of the promotion, by anyone on any candidate, one after another.
pub data Promotions (t : Db) : Db → Type 0 where
  start : Promotions t t
  promotion :
      {u : Db} (tenant project_id candidate_id actor : RowId) (key value : Text) (now : ℕ)
      → Promotions t u
      → Promotions t
          (request (promote_memory tenant project_id candidate_id actor key value now) u).1

-- An update whose rows fail a test brings no row under it.
find-none_of_set :
    (p q : MemoryCandidate → Bool) (f : MemoryCandidate → MemoryCandidate)
    (xs : List MemoryCandidate)
    → ((x : MemoryCandidate) → q (f x) ≡ false)
    → find? q xs ≡ none
    → find? q (update_where p f xs) ≡ none
find-none_of_set p q f [] fails h = refl
find-none_of_set p q f (x ∷ xs) fails h = elim (Bool-cases (q x)) [
  | inl hit ↦ ground (arith, hit, h)
  | inr miss ↦
      let rest = find-none_of_set p q f xs fails (ground (arith, miss, h)) in
      elim (Bool-cases (p x)) [
        | inl own ↦ ground (arith, own, fails x, rest)
        | inr other ↦ ground (arith, other, miss, rest)
      ]
]

module _ (tenant project_id candidate_id : RowId) where
  promotion-gone :
      (other_tenant other_project other_candidate actor : RowId) (key value : Text) (now : ℕ)
      (u : Db)
      → find? (is_candidate tenant project_id candidate_id) u.candidates ≡ none
      → find?
          (is_candidate tenant project_id candidate_id)
          (request
            (promote_memory other_tenant other_project other_candidate actor key value now)
            u).1.candidates
        ≡ none
  promotion-gone t p c actor key value now u gone =
      let run = request (promote_memory t p c actor key value now) u in
      let mine = is_candidate tenant project_id candidate_id in
      elim (Result-cases run.0) [
        | inl (fact, e) ↦
            let k = promotable t p c actor key value now u fact e in
            ap (find? mine) (promotion_writes t p c actor key value now u k).2
            ∙ find-none_of_set (λ x. x.id == k.candidate.id) mine
                (λ x. record x {
                  status = promoted;
                  decided_by = some actor;
                  decided_at = some now;
                })
                u.candidates (λ x. ground arith) gone
        | inr (e, failed) ↦
            ap (λ d. find? mine d.candidates) (promotion_atomic t p c actor key value now u failed)
            ∙ gone
      ]

  Promotions-gone :
      {t u : Db}
      → Promotions t u
      → find? (is_candidate tenant project_id candidate_id) t.candidates ≡ none
      → find? (is_candidate tenant project_id candidate_id) u.candidates ≡ none
  Promotions-gone start h = h
  Promotions-gone (promotion t p c actor key value now w) h =
      promotion-gone t p c actor key value now _ (Promotions-gone w h)

  -- Once a memory candidate was promoted, and whatever promotions of any candidates are tried
  -- after it, a promotion of that candidate answers with no fact and changes nothing.
  pub promoted_once :
      (actor : RowId) (key value : Text) (now : ℕ) (db u : Db) (other : RowId)
      (other_key other_value : Text) (later : ℕ) {fact : MemoryFact}
      → (request (promote_memory tenant project_id candidate_id actor key value now) db).0 ≡ ok fact
      → Promotions
          (request (promote_memory tenant project_id candidate_id actor key value now) db).1
          u
      → let again =
          request
            (promote_memory tenant project_id candidate_id other other_key other_value later)
            u in
        ((second : MemoryFact) → again.0 ≢ ok second) × (again.1 ≡ u)
  promoted_once actor key value now db u other other_key other_value later h since =
      let gone =
        Promotions-gone since
          (candidate_gone tenant project_id candidate_id actor key value now db h) in
      let refused : (second : MemoryFact)
          → (request
              (promote_memory tenant project_id candidate_id other other_key other_value later) u).0
            ≢ ok second =
        λ second again.
          let k =
            promotable tenant project_id candidate_id other other_key other_value later u second
              again in
          let there = k.candidate_there in cc in
      (
        refused,
        elim (Result-cases
            (request
              (promote_memory tenant project_id candidate_id other other_key other_value later)
              u).0) [
                | inl (second, e) ↦ absurd (refused second e)
                | inr (e, failed) ↦
                    promotion_atomic tenant project_id candidate_id other other_key other_value
                      later u failed
              ],
      )
