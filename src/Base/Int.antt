-- ===== src/Base/Int.antt =====
-- Go's `int` without its bounds: `negsuc n` is -(n + 1).
use Prim.Native.Nat.{ℕ, zero, suc}
use mathlib.Core.Bool.{Bool, true, false}
use obvious.Base.Tests.{ltb}

pub data ℤ : Type 0 where
  pos : ℕ → ℤ
  negsuc : ℕ → ℤ

-- `if n <= 0 { n = d }`
abbrev pub positive_or : ℤ → ℕ → ℕ
positive_or (pos zero) d = d
positive_or (pos (suc n)) d = suc n
positive_or (negsuc n) d = d

-- `m < n`
abbrev pub lessb : ℤ → ℤ → Bool
lessb (pos m) (pos n) = ltb m n
lessb (pos m) (negsuc n) = false
lessb (negsuc m) (pos n) = true
lessb (negsuc m) (negsuc n) = ltb n m
