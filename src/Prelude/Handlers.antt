-- ===== src/Prelude/Handlers.antt =====
-- A database session and the handlers that run in it. A handler works on its own copy of the
-- tables; `commit` publishes that copy, `rollback` drops it, and what is neither is lost when the
-- request ends (`get_db` of src/glip/database.py closes the session and commits nothing).
use mathlib.Core.Bool.{Bool}
use mathlib.Core.Option.{Option, none, some}
use arquitech_glip_premium_b.Prelude.Tests.{if◌then◌else◌}

pub data Result (E A : Type 0) : Type 0 where
  ok : A → Result E A
  err : E → Result E A

pub record Session (S : Type 0) : Type 0 where
  pub committed : S
  pub working : S

abbrev pub Action : Type 0 → Type 0 → Type 0 → Type 0
Action S E A = Session S → Result E A × Session S

module _ {S E A : Type 0} where
  abbrev pub pure : A → Action S E A
  pure a s = (ok a, s)

  abbrev pub raise : E → Action S E A
  raise e s = (err e, s)

  abbrev pub gets : (S → A) → Action S E A
  gets f s = (ok (f s.working), s)

  -- `if not row: raise e`
  abbrev pub or_raise : Option A → E → Action S E A
  or_raise none e = raise e
  or_raise (some a) e = pure a

infixl 5 ◌>>=◌ ◌>>◌
abbrev pub ◌>>=◌ : {S E A B : Type 0} → Action S E A → (A → Action S E B) → Action S E B
◌>>=◌ m f s = let (r, s') = m s in elim r [ ok a ↦ f a s' | err e ↦ raise e s' ]

abbrev pub ◌>>◌ : {S E A B : Type 0} → Action S E A → Action S E B → Action S E B
m >> k = m >>= λ _. k

module _ {S E : Type 0} where
  abbrev pub raise_if : Bool → E → Action S E (Unit {0})
  raise_if c e s = (if c then err e else ok tt, s)

  abbrev pub modify : (S → S) → Action S E (Unit {0})
  modify f s = (ok tt, record s { working = f s.working })

  abbrev pub commit : Action S E (Unit {0})
  commit s = (ok tt, record s { committed = s.working })

  abbrev pub rollback : Action S E (Unit {0})
  rollback s = (ok tt, record s { working = s.committed })

abbrev pub begin : {S : Type 0} → S → Session S
begin s = record { committed = s; working = s }

-- One request in a fresh session: the response and the tables that it leaves behind.
abbrev pub request : {S E A : Type 0} → Action S E A → S → Result E A × S
request m s = let (r, s') = m (begin s) in (r, s'.committed)
