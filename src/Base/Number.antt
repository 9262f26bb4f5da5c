-- ===== src/Base/Number.antt =====
-- A JavaScript number as the source tests it: an integer, or any other value (a fraction, `NaN`
-- or an infinity), on which `Number.isInteger` answers false.
use mathlib.Core.Option.{Option, none, some}
use management_app.Base.Int.{ℤ}

pub data Number : Type 0 where
  integer : ℤ → Number
  other : Number

-- The value of a number that passes `Number.isInteger`.
abbrev pub as_integer : Number → Option ℤ
as_integer (integer n) = some n
as_integer other = none
