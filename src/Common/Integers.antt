-- ===== src/Common/Integers.antt =====
-- Signed fixed-point quantities, and the Python values that `isinstance` tells apart.
use Prim.Native.Nat.{ℕ, suc}
use Prim.Native.String.{String}
use mathlib.Core.Bool.{Bool, false}
use ros2_agent_workflow.Common.Tests.{ltb}

-- `negsuc n` is -(n + 1).
pub data ℤ : Type 0 where
  pos : ℕ → ℤ
  negsuc : ℕ → ℤ

abbrev pub abs : ℤ → ℕ
abs (pos n) = n
abs (negsuc n) = suc n

-- `n < z` for a reading `n` of a clock.
abbrev pub ltb_ℤ : ℕ → ℤ → Bool
ltb_ℤ n (pos m) = ltb n m
ltb_ℤ n (negsuc m) = false

-- A value handed in by a caller or read from JSON. A finite int or float is a fixed-point number;
-- `absent` is a missing key or `None`.
pub data Value : Type 0 where
  absent nan infinity neg_infinity other : Value
  boolean : Bool → Value
  number : ℤ → Value
  text : String → Value
