-- ===== src/Prelude/Float.antt =====
-- `f64`, of which the program uses these operations. No law of it is assumed; sums and scores are
-- numbers whatever the rounding is, and not-a-number does not occur among the scores.
use Prim.Native.Nat.{ℕ}
use mathlib.Core.Bool.{Bool}

pub record F64 : Type 1 where
  pub Num : Type 0
  pub of_u64 : ℕ → Num
  pub add : Num → Num → Num
  pub sub : Num → Num → Num
  pub mul : Num → Num → Num
  pub div : Num → Num → Num
  pub maximum : Num → Num → Num
  pub lt : Num → Num → Bool
  -- `as u64`
  pub to_u64 : Num → ℕ
  -- `ceil() as u32`
  pub ceil_u32 : Num → ℕ
  -- `f64::MAX`
  pub largest : Num
