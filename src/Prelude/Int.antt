-- ===== src/Prelude/Int.antt =====
-- Go's int64 values: integers over the native numbers, with the tests that the code makes.
use Prim.Native.Nat.{ℕ, zero, suc, ◌≤◌}
use mathlib.Core.Bool.{Bool, true, false}
use kpack.Prelude.Tests.{ltb, Bool-cases}
use native.Mathlib.Omega.{arith}
use mathlib.Core.Logic.{inl, inr}

-- `negsuc n` is -(n + 1).
pub data ℤ : Type 0 where
  pos negsuc : ℕ → ℤ

-- `a > b` for a length `a`.
abbrev pub exceeds : ℕ → ℤ → Bool
exceeds a (pos b) = ltb b a
exceeds a (negsuc b) = true

abbrev pub ltb_ℤ : ℤ → ℤ → Bool
ltb_ℤ (pos a) (pos b) = ltb a b
ltb_ℤ (pos a) (negsuc b) = false
ltb_ℤ (negsuc a) (pos b) = true
ltb_ℤ (negsuc a) (negsuc b) = ltb b a

abbrev pub max_int64 : ℕ
max_int64 = 9223372036854775807

-- `n + 1` in an int64: the greatest value wraps to the least.
abbrev pub increment : ℤ → ℤ
increment (pos n) = elim (ltb n max_int64) [ true ↦ pos (suc n) | false ↦ negsuc max_int64 ]
increment (negsuc zero) = pos 0
increment (negsuc (suc n)) = negsuc n

-- The range of an int64.
abbrev pub IsInt64 : ℤ → Type 0
IsInt64 (pos n) = n ≤ max_int64
IsInt64 (negsuc n) = n ≤ max_int64

pub increment-IsInt64 : (z : ℤ) → IsInt64 z → IsInt64 (increment z)
increment-IsInt64 (pos n) h = elim (Bool-cases (ltb n max_int64)) [
  | inl t ↦ rw (t, increment) (ground arith)
  | inr f ↦ rw (f, increment) (omega arith)
]
increment-IsInt64 (negsuc zero) h = omega arith
increment-IsInt64 (negsuc (suc n)) h = omega (arith, h)
