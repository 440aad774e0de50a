-- ===== src/Prelude/Tables.antt =====
-- Tables whose rows carry a key: what a search and a bulk update do when no key is held twice.
use arquitech_glip_premium_b.Prelude.Tests.{if◌then◌else◌, Bool-cases}
use arquitech_glip_premium_b.Prelude.Lists.{
  find?, update_where, count_where, select_where, any, All,
}
use Prim.Native.Nat.{◌≤◌}
use mathlib.Core.Path.{◌≡◌, refl, subst, sym}
use mathlib.Core.Logic.{inl, inr}
use mathlib.Core.Bool.{Bool, true, false}
use mathlib.Core.List.{List, [], ◌∷◌, ◌++◌}
use mathlib.Core.Option.{none, some}
use native.Mathlib.Omega.{arith}

module _ {ℓ} {A : Type ℓ} where
  -- An update that leaves a test alone leaves the test's count alone.
  pub count-update_where :
      (p q : A → Bool) (f : A → A) (xs : List A)
      → ((x : A) → q (f x) ≡ q x)
      → count_where q (update_where p f xs) ≡ count_where q xs
  count-update_where p q f [] h = refl
  count-update_where p q f (x ∷ xs) h = ground (arith, h x, count-update_where p q f xs h)

  pub count-zero_of_none : (q : A → Bool) (xs : List A) → find? q xs ≡ none → count_where q xs ≡ 0
  count-zero_of_none q [] h = refl
  count-zero_of_none q (x ∷ xs) h = ground (arith, count-zero_of_none q xs)

  pub count-zero_of_any : (q : A → Bool) (xs : List A) → any q xs ≡ false → count_where q xs ≡ 0
  count-zero_of_any q [] h = refl
  count-zero_of_any q (x ∷ xs) h = ground (arith, count-zero_of_any q xs)

  pub find-none_of_count : (q : A → Bool) (xs : List A) → count_where q xs ≡ 0 → find? q xs ≡ none
  find-none_of_count q [] h = refl
  find-none_of_count q (x ∷ xs) h = ground (arith, find-none_of_count q xs)

  pub find-none_of_any : (q : A → Bool) (xs : List A) → any q xs ≡ false → find? q xs ≡ none
  find-none_of_any q [] h = refl
  find-none_of_any q (x ∷ xs) h = ground (arith, find-none_of_any q xs)

  pub find-holds : (q : A → Bool) (xs : List A) {a : A} → find? q xs ≡ some a → q a ≡ true
  find-holds q [] h = cc
  find-holds q (x ∷ xs) {a} h = elim (Bool-cases (q x)) [
    | inl e ↦ ground (arith, e)
    | inr e ↦ find-holds q xs (ground arith)
  ]

  -- An update that changes neither the row that a search finds nor the search's test.
  pub find-update_where_fixed :
      (p q : A → Bool) (f : A → A) (xs : List A) {a : A}
      → ((x : A) → q (f x) ≡ q x)
      → p a ≡ false
      → find? q xs ≡ some a
      → find? q (update_where p f xs) ≡ some a
  find-update_where_fixed p q f [] h n e = cc
  find-update_where_fixed p q f (x ∷ xs) h n e =
      ground (arith, h x, find-update_where_fixed p q f xs h n)

  pub update_where-none :
      (p : A → Bool) (f : A → A) (xs : List A) → count_where p xs ≡ 0 → update_where p f xs ≡ xs
  update_where-none p f [] h = refl
  update_where-none p f (x ∷ xs) h = ground (arith, update_where-none p f xs)

  -- A narrower test that holds of no row.
  pub count-zero_of_implies :
      (p q : A → Bool) (xs : List A)
      → ((x : A) → q x ≡ false → p x ≡ false)
      → count_where q xs ≡ 0
      → count_where p xs ≡ 0
  count-zero_of_implies p q [] h e = refl
  count-zero_of_implies p q (x ∷ xs) h e = ground (arith, h x, count-zero_of_implies p q xs h)

  -- Where `q` holds of one row at most, a narrower test `p` counts and updates that row alone.
  pub count_unique :
      (p q : A → Bool) (xs : List A) {a : A}
      → ((x : A) → q x ≡ false → p x ≡ false)
      → count_where q xs ≤ 1
      → find? q xs ≡ some a
      → count_where p xs ≡ (if p a then 1 else 0)
  count_unique p q [] h u e = cc
  count_unique p q (x ∷ xs) {a} h u e = elim (Bool-cases (q x)) [
    | inl here ↦ ground (arith, count-zero_of_implies p q xs h, here)
    | inr there ↦ ground (arith, h x there, count_unique p q xs {a = a} h, there)
  ]

  pub find-update_unique :
      (p q : A → Bool) (f : A → A) (xs : List A) {a : A}
      → ((x : A) → q (f x) ≡ q x)
      → find? q xs ≡ some a
      → find? q (update_where p f xs) ≡ some (if p a then f a else a)
  find-update_unique p q f [] h e = cc
  find-update_unique p q f (x ∷ xs) {a} h e =
      ground (arith, h x, find-update_unique p q f xs {a = a} h)

  -- A search for rows that an update leaves none of.
  pub find-none_of_update :
      (p q : A → Bool) (f : A → A) (xs : List A)
      → ((x : A) → p x ≡ true → q (f x) ≡ false)
      → ((x : A) → p x ≡ false → q x ≡ false)
      → find? q (update_where p f xs) ≡ none
  find-none_of_update p q f [] h g = refl
  find-none_of_update p q f (x ∷ xs) h g = elim (Bool-cases (p x)) [
    | inl e ↦ ground (arith, e, h x e, find-none_of_update p q f xs h g)
    | inr e ↦ ground (arith, e, g x e, find-none_of_update p q f xs h g)
  ]

  pub any-of_find : (q : A → Bool) (xs : List A) {a : A} → find? q xs ≡ some a → any q xs ≡ true
  any-of_find q [] h = cc
  any-of_find q (x ∷ xs) {a} h = elim (Bool-cases (q x)) [
    | inl e ↦ ground (arith, e)
    | inr e ↦ ground (arith, e, any-of_find q xs {a = a} (ground (arith, e)))
  ]

module _ {ℓ κ} {A : Type ℓ} (P : A → Type κ) where
  pub All-append : (xs ys : List A) → All P xs → All P ys → All P (xs ++ ys)
  All-append [] ys hx hy = hy
  All-append (x ∷ xs) ys hx hy = (hx.0, All-append xs ys hx.1 hy)

  pub All-find : (q : A → Bool) (xs : List A) {a : A} → find? q xs ≡ some a → All P xs → P a
  All-find q [] h all = cc
  All-find q (x ∷ xs) {a} h all = elim (Bool-cases (q x)) [
    | inl e ↦ let same : x ≡ a = ground (arith, e) in subst P same all.0
    | inr e ↦ All-find q xs (ground (arith, e)) all.1
  ]

  -- An update whose values have the property wherever they are written.
  pub All-update_where :
      (p : A → Bool) (f : A → A) (xs : List A)
      → ((x : A) → P x → p x ≡ true → P (f x))
      → All P xs
      → All P (update_where p f xs)
  All-update_where p f [] h all = tt
  All-update_where p f (x ∷ xs) h all = elim (Bool-cases (p x)) [
    | inl e ↦ rw e (h x all.0 e, All-update_where p f xs h all.1)
    | inr e ↦ rw e (all.0, All-update_where p f xs h all.1)
  ]

module _ {ℓ} {A : Type ℓ} where
  -- A search by a narrower test finds the one row that the wider test has.
  pub find_unique :
      (p q : A → Bool) (xs : List A) {a : A}
      → ((x : A) → p x ≡ false → q x ≡ false)
      → count_where p xs ≤ 1
      → find? q xs ≡ some a
      → find? p xs ≡ some a
  find_unique p q [] h u e = cc
  find_unique p q (x ∷ xs) {a} h u e = elim (Bool-cases (p x)) [
    | inl here ↦ elim (Bool-cases (q x)) [
      | inl first ↦ ground (arith, here, first)
      | inr later ↦
          let none_left : count_where p xs ≡ 0 = ground (arith, here) in
          let absent : find? q xs ≡ none =
            find-none_of_count q xs (count-zero_of_implies q p xs h none_left) in
          ground (arith, here, later, absent)
    ]
    | inr there ↦ ground (arith, there, h x there, find_unique p q xs {a = a} h)
  ]

module _ {ℓ κ} {A : Type ℓ} (P : A → Type κ) where
  -- An update of one row, which has the property afterwards.
  pub update-unique_All :
      (p : A → Bool) (f : A → A) (xs : List A) {a : A}
      → count_where p xs ≤ 1
      → find? p xs ≡ some a
      → P (f a)
      → All P xs
      → All P (update_where p f xs)
  update-unique_All p f [] u e new all = tt
  update-unique_All p f (x ∷ xs) {a} u e new all = elim (Bool-cases (p x)) [
    | inl here ↦
        let same : x ≡ a = ground (arith, here) in
        let left : count_where p xs ≡ 0 = ground (arith, here) in
        rw (here, update_where-none p f xs left) (subst (λ y. P (f y)) (sym same) new, all.1)
    | inr there ↦
        rw there (
          all.0,
          update-unique_All p f xs (ground (arith, there)) (ground (arith, there)) new all.1,
        )
  ]

module _ {ℓ} {A : Type ℓ} where
  -- An update that stays outside a selection before and after.
  pub select-update_where :
      (p q : A → Bool) (f : A → A) (xs : List A)
      → ((x : A) → p x ≡ true → q x ≡ false)
      → ((x : A) → p x ≡ true → q (f x) ≡ false)
      → select_where q (update_where p f xs) ≡ select_where q xs
  select-update_where p q f [] h g = refl
  select-update_where p q f (x ∷ xs) h g = elim (Bool-cases (p x)) [
    | inl e ↦ ground (arith, e, h x e, g x e, select-update_where p q f xs h g)
    | inr e ↦ ground (arith, e, select-update_where p q f xs h g)
  ]

  -- An update of one row, which a selection does not hold before or after.
  pub select-update_unique :
      (p q : A → Bool) (f : A → A) (xs : List A) {a : A}
      → count_where p xs ≤ 1
      → find? p xs ≡ some a
      → q a ≡ false
      → q (f a) ≡ false
      → select_where q (update_where p f xs) ≡ select_where q xs
  select-update_unique p q f [] u e h g = refl
  select-update_unique p q f (x ∷ xs) {a} u e h g = elim (Bool-cases (p x)) [
    | inl here ↦
        let same : x ≡ a = ground (arith, here) in
        let left : count_where p xs ≡ 0 = ground (arith, here) in
        let rest = update_where-none p f xs left in
        let before : q x ≡ false = subst (λ y. q y ≡ false) (sym same) h in
        let later : q (f x) ≡ false = subst (λ y. q (f y) ≡ false) (sym same) g in
        ground (arith, here, before, later, rest)
    | inr there ↦ ground (
      arith,
      there,
      select-update_unique p q f xs {a = a} (ground (arith, there)) (ground (arith, there)) h g,
    )
  ]
