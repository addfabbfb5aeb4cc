-- ===== src/Base/Table.antt =====
-- Go's `map[uuid.UUID]T`, as an association list over numbers in which a key stands once. The
-- order of the entries is one of those in which Go may iterate.
use Prim.Native.Nat.{ℕ}
use mathlib.Core.Path.{◌≡◌, subst}
use mathlib.Core.Logic.{◌⊎◌, inl, inr}
use mathlib.Core.Option.{Option, none, some}
use mathlib.Core.List.{List, [], ◌∷◌}
use native.Mathlib.Omega.{arith}
use obvious.Base.Tests.{◌==◌, if◌then◌else◌, Bool-cases}
use obvious.Base.Lists.{All}

abbrev pub Table {ℓ} : Type ℓ → Type ℓ
Table V = List (ℕ × V)

module _ {ℓ} {V : Type ℓ} where
  -- v, ok := m[k]
  unfoldable pub get : Table V → ℕ → Option V
  get [] k = none
  get ((j, v) ∷ m) k = if j == k then some v else get m k

  -- m[k] = v
  unfoldable pub put : Table V → ℕ → V → Table V
  put [] k v = (k, v) ∷ []
  put ((j, w) ∷ m) k v = if j == k then (k, v) ∷ m else (j, w) ∷ put m k v

  -- The values, in the order of iteration.
  unfoldable pub values : Table V → List V
  values [] = []
  values ((j, v) ∷ m) = v ∷ values m

  pub get-put :
      (m : Table V) (k j : ℕ) (v : V) → get (put m k v) j ≡ (if k == j then some v else get m j)
  unfolding get put
  get-put [] k j v = ground arith
  get-put ((i, w) ∷ m) k j v = ground (arith, get-put m k j v)

  pub get-put_self : (m : Table V) (k : ℕ) (v : V) → get (put m k v) k ≡ some v
  get-put_self m k v = ground (arith, get-put m k k v)

  -- What stands under a key after a write: the new value under its own, or what stood there.
  pub put-cases :
      (m : Table V) (k j : ℕ) (v : V) {w : V}
      → get (put m k v) j ≡ some w
      → ((k ≡ j) × (v ≡ w)) ⊎ (get m j ≡ some w)
  put-cases m k j v found = ground (arith, get-put m k j v)

module _ {ℓ κ} {V : Type ℓ} (P : V → Type κ) where
  -- What holds of all values, and of a new one, holds of all values after a write.
  pub All-values-put :
      (m : Table V) (k : ℕ) (v : V) → All P (values m) → P v → All P (values (put m k v))
  unfolding values put
  All-values-put [] k v h p = (p, tt)
  All-values-put ((j, w) ∷ m) k v h p = elim (Bool-cases (j == k)) [
    | inl same ↦ rw same (p, h.1)
    | inr other ↦ rw other (h.0, All-values-put m k v h.1 p)
  ]

  pub All-values-get : (m : Table V) (k : ℕ) {v : V} → All P (values m) → get m k ≡ some v → P v
  unfolding values get
  All-values-get [] k h e = cc
  All-values-get ((j, w) ∷ m) k {v} h e = elim (Bool-cases (j == k)) [
    | inl same ↦ let first : w ≡ v = ground arith in subst P first h.0
    | inr other ↦ All-values-get m k h.1 (rw other at e)
  ]
