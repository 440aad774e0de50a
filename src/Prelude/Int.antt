-- ===== src/Prelude/Int.antt =====
-- Integers of the request bodies, and what `int(...)` makes of a JSON value.
use Prim.Native.Nat.{ℕ}

-- `negsuc n` is -(n + 1).
pub data ℤ : Type 0 where
  pos : ℕ → ℤ
  negsuc : ℕ → ℤ

-- A body's field: missing or null, a value that `int` refuses, or an integer.
pub data IntField : Type 0 where
  absent not_int : IntField
  int : ℤ → IntField
