-- ===== src/Js/Float.antt =====
-- Double-precision numbers as the sources use them. There are no floats in the model: a theorem
-- about code that computes with them holds for any type with these operations.
use Prim.Native.String.{String}
use paystream_contracts.Prelude.{Bool}
use paystream_contracts.Prelude.Int.{ℤ}

pub record Float : Type 1 where
  pub F : Type 0
  -- `Number(n)` of a bigint, and a literal
  pub of_int : ℤ → F
  pub add : F → F → F
  pub sub : F → F → F
  pub mul : F → F → F
  pub div : F → F → F
  pub lt : F → F → Bool
  pub le : F → F → Bool
  pub is_nan : F → Bool
  -- `Number(s)`, `parseFloat(s)` and `parseInt(s, 10)`
  pub number : String → F
  pub parse_float : String → F
  pub parse_int : String → F
  -- `Math.round` and `Math.floor`
  pub round : F → F
  pub floor : F → F
  -- `BigInt(x)` of an integral number
  pub to_int : F → ℤ
  -- `x.toFixed(digits)` and `String(x)`
  pub to_fixed : F → F → String
  pub show : F → String
