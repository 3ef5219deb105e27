-- ===== src/Base/Float.antt =====
-- Python's numbers (int and float) and its aware datetimes, as far as the source computes with them.
-- The operations are those of the language; nothing is assumed of them beyond what a theorem names.
use Prim.Native.Nat.{ℕ}
use Prim.Native.String.{String}
use mathlib.Core.Bool.{Bool}
use mathlib.Core.Option.{Option, none, some}
use diep_lab.Base.Tests.{if◌then◌else◌}
use diep_lab.Base.Int.{ℤ}

pub record FloatOps (V : Type 0) : Type 0 where
  -- a float literal, by its digits and the number of decimals: 273.15 is `decimal 27315 2`
  pub decimal : ℕ → ℕ → V
  pub of_int : ℤ → V
  pub is_finite : V → Bool
  pub le : V → V → Bool
  pub lt : V → V → Bool
  pub add : V → V → V
  pub sub : V → V → V
  pub mul : V → V → V
  -- `a / b` for a divisor that is not zero
  pub div : V → V → V
  pub is_zero : V → Bool
  pub abs : V → V
  pub neg : V → V
  -- `round`, with `none` where Python raises: for infinities and nan
  pub round : V → Option ℤ
  -- `round(x, 2)`
  pub round2 : V → V
  -- `timedelta.total_seconds()`, from microseconds
  pub total_seconds : ℤ → V

-- `a / b`, with `none` for ZeroDivisionError.
unfoldable pub divide : {V : Type 0} ⦃F : FloatOps V⦄ → V → V → Option V
divide ⦃F⦄ a b = if F.is_zero b then none else some (F.div a b)

-- A parsed datetime: microseconds, and the offset of its time zone where it has one.
pub record Stamp : Type 0 where
  pub micros : ℤ
  pub offset : Option ℤ

-- `datetime.fromisoformat`, with `none` for ValueError.
abbrev pub Parser : Type 0
Parser = String → Option Stamp
