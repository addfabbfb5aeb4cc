-- ===== src/Planning/Utilisation.antt =====
-- The utilisation of an auditor in services/planning/internal/domain/plan.go, against arithmetic
-- without wrap-around.
use native.Mathlib.Nat.{div-le_self, div-lt_iff_lt-mul, mod-eq_of_lt}
use obvious.Base.{
  ℕ, ◌+◌, ◌*◌, ◌/◌, ◌%◌, ◌≤◌, ◌<◌, ◌≡◌, ◌↔◌, ◌∙◌, ap, suc, List, [], ◌∷◌, map, arith, ltb,
  if◌then◌else◌,
}
use obvious.Base.Int.{ℤ, pos}
use obvious.Base.Int64.{wrap, add, mul, div}
use obvious.Planning.Calendar.{
  Assignment, AuditorAllocation, total_days, allocated_days, utilisation_pct, percentage,
}

abbrev pub sum : List ℕ → ℕ
sum [] = 0
sum (d ∷ ds) = d + sum ds

wrap-small : (n : ℕ) → n < 9223372036854775808 → wrap (pos n) ≡ pos n
unfolding wrap
wrap-small n h =
    let small : n % 18446744073709551616 ≡ n = mod-eq_of_lt (omega (arith, h)) in
    rw small (ground (arith, h))

total-sum :
    (t : ℕ) (rows : List Assignment) (days : List ℕ)
    → map (λ (a : Assignment). a.allocated_days) rows ≡ map pos days
    → t + sum days < 9223372036854775808
    → total_days (pos t) rows ≡ pos (t + sum days)
unfolding total_days add
total-sum t [] [] e h = ap pos (omega arith)
total-sum t [] (d ∷ ds) e h = cc
total-sum t (a ∷ rows) [] e h = cc
total-sum t (a ∷ rows) (d ∷ ds) e h =
    let first : a.allocated_days ≡ pos d = ground arith in
    let next : wrap (pos (t + d)) ≡ pos (t + d) = wrap-small (t + d) (omega arith) in
    let rest = total-sum (t + d) rows ds (ground arith) (omega arith) in
    let both : t + d + sum ds ≡ t + (d + sum ds) = omega arith in
    rw (first, next) (rest ∙ ap pos both)

percentage-exact :
    (n m : ℕ)
    → n * 100 < 9223372036854775808
    → percentage (pos n) (pos (suc m))
      ≡ pos (if ltb 100 (n * 100 / suc m) then 100 else n * 100 / suc m)
unfolding mul div
percentage-exact n m h =
    let product = wrap-small (n * 100) h in
    let less = div-le_self (n * 100) (suc m) in
    let quotient = wrap-small (n * 100 / suc m) (omega arith) in
    rw (product, quotient) (ground arith)

full-when : (n m : ℕ) → (100 ≤ n * 100 / suc m) ↔ (suc m ≤ n)
full-when n m =
    let bound = div-lt_iff_lt-mul {k = suc m} {x = n * 100} {y = 100} (omega arith) in
    grind (arith, bound)

capped-full :
    (u : ℤ) (q n k : ℕ)
    → u ≡ pos (if ltb 100 q then 100 else q)
    → (100 ≤ q) ↔ (k ≤ n)
    → (n < k → u ≡ pos q) × ((u ≡ pos 100) ↔ (k ≤ n))
capped-full u q n k e full = (
  λ less. ground (arith, e, full, less),
  ((λ top. ground (arith, e, full, top)), λ more. ground (arith, e, full, more)),
)

-- Where an auditor is available on some days, every assignment takes a number of days that is not
-- negative, and a hundred times their sum is below 2 ^ 63: the utilisation is a hundred times the
-- sum over the days available, rounded down, while less is allocated than available, and it is 100
-- just when no less is allocated than available.
pub utilisation_exact :
    (a : AuditorAllocation) (m : ℕ) (days : List ℕ)
    → a.available_days ≡ pos (suc m)
    → map (λ (x : Assignment). x.allocated_days) a.assignments ≡ map pos days
    → sum days * 100 < 9223372036854775808
    → (sum days < suc m → utilisation_pct a ≡ pos (sum days * 100 / suc m))
      × ((utilisation_pct a ≡ pos 100) ↔ (suc m ≤ sum days))
unfolding utilisation_pct allocated_days
utilisation_exact a m days available allocated small =
    let total : allocated_days a ≡ pos (sum days) =
      total-sum 0 a.assignments days allocated (omega arith) ∙ ap pos (omega arith) in
    let exact : utilisation_pct a
        ≡ pos (if ltb 100 (sum days * 100 / suc m) then 100 else sum days * 100 / suc m) =
      rw (total, available) (percentage-exact (sum days) m small) in
    let full = full-when (sum days) m in
    capped-full (utilisation_pct a) (sum days * 100 / suc m) (sum days) (suc m) exact full
