-- ===== src/Base/Int64.antt =====
-- Go's 64-bit `int` with its wrap-around: addition, multiplication, and division towards zero, by
-- any divisor but 0.
use Prim.Native.Nat.{ℕ, zero, suc, ◌+◌, ◌-◌, ◌*◌, ◌/◌, ◌%◌}
use obvious.Base.Tests.{ltb, if◌then◌else◌}
use obvious.Base.Int.{ℤ, pos, negsuc}

-- 2 ^ 64 and 2 ^ 63.
abbrev pub two_64 : ℕ
two_64 = 18446744073709551616

abbrev pub two_63 : ℕ
two_63 = 9223372036854775808

-- The residue modulo 2 ^ 64, and the number of 64 bits that has it.
abbrev residue : ℤ → ℕ
residue (pos n) = n % 18446744073709551616
residue (negsuc n) = 18446744073709551615 - n % 18446744073709551616

abbrev pub of_residue : ℕ → ℤ
of_residue r = if ltb r 9223372036854775808 then pos r else negsuc (18446744073709551615 - r)

unfoldable pub wrap : ℤ → ℤ
wrap x = of_residue (residue x)

-- m - n
abbrev pub subtract : ℕ → ℕ → ℤ
subtract m n = if ltb m n then negsuc (n - m - 1) else pos (m - n)

abbrev sum : ℤ → ℤ → ℤ
sum (pos m) (pos n) = pos (m + n)
sum (pos m) (negsuc n) = subtract m (n + 1)
sum (negsuc m) (pos n) = subtract n (m + 1)
sum (negsuc m) (negsuc n) = negsuc (m + n + 1)

-- -n
abbrev pub minus : ℕ → ℤ
minus zero = pos 0
minus (suc n) = negsuc n

abbrev product : ℤ → ℤ → ℤ
product (pos m) (pos n) = pos (m * n)
product (pos m) (negsuc n) = minus (m * (n + 1))
product (negsuc m) (pos n) = minus ((m + 1) * n)
product (negsuc m) (negsuc n) = pos ((m + 1) * (n + 1))

abbrev quotient : ℤ → ℤ → ℤ
quotient (pos m) (pos n) = pos (m / n)
quotient (pos m) (negsuc n) = minus (m / (n + 1))
quotient (negsuc m) (pos n) = minus ((m + 1) / n)
quotient (negsuc m) (negsuc n) = pos ((m + 1) / (n + 1))

unfoldable pub add : ℤ → ℤ → ℤ
unfolding wrap
add x y = wrap (sum x y)

unfoldable pub mul : ℤ → ℤ → ℤ
unfolding wrap
mul x y = wrap (product x y)

unfoldable pub div : ℤ → ℤ → ℤ
unfolding wrap
div x y = wrap (quotient x y)
