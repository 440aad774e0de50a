-- ===== src/Prelude/Results.antt =====
-- Checks that read the state and may raise: a `do` block over results alone.
use mathlib.Core.Path.{◌≡◌, refl}
use mathlib.Core.Logic.{◌⊎◌, inl, inr}
use mathlib.Core.Bool.{Bool, true, false}
use mathlib.Core.Option.{Option, none, some}
use arquitech_glip_premium_b.Prelude.Handlers.{Result, ok, err, Action}

module _ {E : Type 0} where
  -- `if c: raise e`
  abbrev pub refuse_if : Bool → E → Result E (Unit {0})
  refuse_if false e = ok tt
  refuse_if true e = err e

  -- `if not row: raise e`
  abbrev pub or_refuse : {A : Type 0} → Option A → E → Result E A
  or_refuse (some row) e = ok row
  or_refuse none e = err e

  -- What follows runs only if this check passes.
  infixl 5 ◌>>=◌ ◌>>◌
  abbrev pub ◌>>=◌ : {A B : Type 0} → Result E A → (A → Result E B) → Result E B
  err failed >>= rest = err failed
  ok value >>= rest = rest value

  abbrev pub ◌>>◌ : {A B : Type 0} → Result E A → Result E B → Result E B
  check >> rest = check >>= (λ passed. rest)

-- A check at the start of a handler, on the session's own copy of the tables.
abbrev pub checked : {S E A : Type 0} → (S → Result E A) → Action S E A
checked f s = (f s.working, s)

-- Both parts of a sequence that returned.
pub >>=-eq-ok :
    {E A C : Type 0} (check : Result E A) (rest : A → Result E C) {made : C}
    → check >>= rest ≡ ok made
    → (value : A) × (check ≡ ok value) × (rest value ≡ ok made)
>>=-eq-ok (err failed) rest returned = cc
>>=-eq-ok (ok value) rest returned = (value, refl, returned)

pub ok-injective : {E A : Type 0} {a b : A} → ◌≡◌ {A = Result E A} (ok a) (ok b) → a ≡ b
ok-injective h = cc

pub Result-cases :
    {E A : Type 0} (r : Result E A) → ((a : A) × (r ≡ ok a)) ⊎ ((e : E) × (r ≡ err e))
Result-cases (ok a) = inl (a, refl)
Result-cases (err e) = inr (e, refl)

-- Two checks in a row that passed.
pub >>-ok :
    {E A : Type 0} (check : Result E (Unit {0})) {rest : Result E A} {made : A}
    → check >> rest ≡ ok made
    → (check ≡ ok tt) × (rest ≡ ok made)
>>-ok (err failed) returned = cc
>>-ok (ok value) returned = (refl, returned)

-- A test that did not refuse, and what followed it.
pub refuse_if-ok :
    {E A : Type 0} (b : Bool) (e : E) {rest : Result E A} {made : A}
    → refuse_if b e >> rest ≡ ok made
    → (b ≡ false) × (rest ≡ ok made)
refuse_if-ok false e returned = (refl, returned)
refuse_if-ok true e returned = cc

pub refuse_if-last : {E : Type 0} (b : Bool) (e : E) → refuse_if b e ≡ ok tt → b ≡ false
refuse_if-last false e passed = refl
refuse_if-last true e passed = cc

pub or_refuse-ok :
    {E A B : Type 0} (row : Option B) (e : E) {rest : B → Result E A} {made : A}
    → or_refuse row e >>= rest ≡ ok made
    → (found : B) × (row ≡ some found) × (rest found ≡ ok made)
or_refuse-ok (some found) e returned = (found, refl, returned)
or_refuse-ok none e returned = cc
