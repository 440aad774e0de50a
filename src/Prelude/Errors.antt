-- ===== src/Prelude/Errors.antt =====
-- What a handler raises, and the codes of identifiers.
-- Identifiers, tokens and digests (uuid4 texts, SHA-256 texts) are only compared and tested for
-- truth, so a number stands for each, and 0 for the empty text.
use Prim.Native.Nat.{ℕ, ◌*◌}
use Prim.Native.String.{String}
use mathlib.Core.Bool.{Bool, true, false, not}
use mathlib.Core.Option.{Option, none, some}
use arquitech_glip_premium_b.Prelude.Tests.{◌==◌, if◌then◌else◌}

pub data Error : Type 0 where
  -- `HTTPException(status, detail)`
  http : ℕ → String → Error
  -- an `IntegrityError` that no handler catches
  integrity : Error
  -- an exception of the domain, by its code: `PricingError(code)` and its like
  failure : String → Error
  -- any other exception that no handler catches, by its class: the server answers 500
  uncaught : String → Error

abbrev pub RowId : Type 0
RowId = ℕ

abbrev pub truthy : RowId → Bool
truthy i = not (i == 0)

-- `value or fallback`
abbrev pub or_else : Option RowId → RowId → RowId
or_else none d = d
or_else (some i) d = if truthy i then i else d

-- `value == i`, where NULL is equal to nothing.
abbrev pub is_id : Option RowId → RowId → Bool
is_id none i = false
is_id (some j) i = j == i

abbrev pub is_none {ℓ} : {A : Type ℓ} → Option A → Bool
is_none none = true
is_none (some _) = false

-- `timedelta(seconds=n)`, in the microseconds that all times are counted in.
abbrev pub seconds : ℕ → ℕ
seconds n = n * 1000000
