-- ===== src/Planning/Repository.antt =====
-- The plain stores of services/planning/internal/store/store.go, which differ in their rows alone,
-- and what a handler needs of any of the four stores.
use obvious.Base.{
  ℕ, ◌≡◌, ap, ◌∙◌, Option, none, some, List, if◌then◌else◌, ◌==◌, arith, All, filter,
}
use obvious.Base.Table
use obvious.Base.Table.{Table, get-put, All-values-put, All-values-get}
use obvious.Planning.Annual.{Result, ok, err, not_found}

-- The fields ID and OrgID of a row.
pub record Row (A : Type 0) : Type 0 where
  pub id_of : A → ℕ
  pub org_of : A → ℕ

-- What the handlers call.
pub record Repository (S A : Type 0) : Type 0 where
  pub row : Row A
  pub add : S → A → S × Result (Unit {0})
  pub read : S → ℕ → ℕ → Result A
  pub write : S → A → S × Result (Unit {0})

-- A row that was read lies under its ID, and another organisation's reads do not see a write of it.
pub record Lawful {S A : Type 0} (r : Repository S A) : Type 1 where
  pub Good : S → Type 0
  pub add-Good : (s : S) (p : A) → Good s → Good (r.add s p).0
  pub write-Good : (s : S) (p : A) → Good s → Good (r.write s p).0
  pub read-own :
      (s : S) (org id : ℕ) (p : A)
      → Good s
      → r.read s org id ≡ ok p
      → (r.row.id_of p ≡ id) × (r.row.org_of p ≡ org)
  pub write-other :
      (s : S) (org id : ℕ) (p q : A)
      → Good s
      → r.read s org id ≡ ok p
      → r.row.id_of q ≡ r.row.id_of p
      → r.row.org_of q ≡ r.row.org_of p
      → (other i : ℕ) → (other ≡ org → ⊥)
      → r.read (r.write s q).0 other i ≡ r.read s other i

module _ {A : Type 0} (row : Row A) where
  unfoldable pub create : Table A → A → Table A × Result (Unit {0})
  create s p = (Table.put s (row.id_of p) p, ok tt)

  abbrev pub scoped : ℕ → Option A → Result A
  scoped org none = err not_found
  scoped org (some p) = if row.org_of p == org then ok p else err not_found

  unfoldable pub get : Table A → ℕ → ℕ → Result A
  get s org id = scoped org (Table.get s id)

  unfoldable pub list : Table A → ℕ → List A
  list s org = filter (λ p. row.org_of p == org) (Table.values s)

  abbrev pub written : Table A → A → Option A → Table A × Result (Unit {0})
  written s p none = (s, err not_found)
  written s p (some _) = (Table.put s (row.id_of p) p, ok tt)

  unfoldable pub update : Table A → A → Table A × Result (Unit {0})
  update s p = written s p (Table.get s (row.id_of p))

  abbrev pub repository : Repository (Table A) A
  repository = record { row = row; add = create; read = get; write = update }

  -- Every row lies under its ID.
  abbrev pub Keyed : Table A → Type 0
  Keyed s = (k : ℕ) (p : A) → Table.get s k ≡ some p → row.id_of p ≡ k

  put-Keyed : (s : Table A) (p : A) → Keyed s → Keyed (Table.put s (row.id_of p) p)
  put-Keyed s p g k q found = ground (arith, get-put s (row.id_of p) k p, g k q)

  pub create-Keyed : (s : Table A) (p : A) → Keyed s → Keyed (create s p).0
  unfolding create
  create-Keyed s p g = put-Keyed s p g

  written-Keyed : (s : Table A) (p : A) (o : Option A) → Keyed s → Keyed (written s p o).0
  written-Keyed s p none g = g
  written-Keyed s p (some old) g = put-Keyed s p g

  pub update-Keyed : (s : Table A) (p : A) → Keyed s → Keyed (update s p).0
  unfolding update
  update-Keyed s p g = written-Keyed s p (Table.get s (row.id_of p)) g

  scoped-some :
      (org : ℕ) (o : Option A) (p : A) → scoped org o ≡ ok p → (o ≡ some p) × (row.org_of p ≡ org)
  scoped-some org none p e = cc
  scoped-some org (some q) p e = ground arith

  pub get-own :
      (s : Table A) (org id : ℕ) (p : A)
      → Keyed s
      → get s org id ≡ ok p
      → (row.id_of p ≡ id) × (row.org_of p ≡ org)
  unfolding get
  get-own s org id p g e =
      let found = scoped-some org (Table.get s id) p e in (g id p found.0, found.1)

  put-other :
      (s : Table A) (org k : ℕ) (p q : A)
      → Table.get s k ≡ some p
      → row.org_of p ≡ org
      → row.org_of q ≡ org
      → (other i : ℕ) → (other ≡ org → ⊥)
      → scoped other (Table.get (Table.put s k q) i) ≡ scoped other (Table.get s i)
  put-other s org k p q found own own' other i differ = ground (arith, get-put s k i q)

  pub update-other :
      (s : Table A) (org id : ℕ) (p q : A)
      → Keyed s
      → get s org id ≡ ok p
      → row.id_of q ≡ row.id_of p
      → row.org_of q ≡ row.org_of p
      → (other i : ℕ) → (other ≡ org → ⊥)
      → get (update s q).0 other i ≡ get s other i
  unfolding get update
  update-other s org id p q g e same_id same_org other i differ =
      let found = scoped-some org (Table.get s id) p e in
      let there : Table.get s (row.id_of q) ≡ some p =
        ap (Table.get s) (same_id ∙ g id p found.0) ∙ found.0 in
      rw there (put-other s org (row.id_of q) p q there found.1 (same_org ∙ found.1) other i differ)

  abbrev pub lawful : Lawful repository
  lawful = record {
    Good = Keyed;
    add-Good = create-Keyed;
    write-Good = update-Keyed;
    read-own = get-own;
    write-other = update-other;
  }

  pub create-All :
      (P : A → Type 0) (s : Table A) (p : A)
      → All P (Table.values s)
      → P p
      → All P (Table.values (create s p).0)
  unfolding create
  create-All P s p h x = All-values-put P s (row.id_of p) p h x

  written-All :
      (P : A → Type 0) (s : Table A) (p : A) (o : Option A)
      → All P (Table.values s)
      → P p
      → All P (Table.values (written s p o).0)
  written-All P s p none h x = h
  written-All P s p (some old) h x = All-values-put P s (row.id_of p) p h x

  pub update-All :
      (P : A → Type 0) (s : Table A) (p : A)
      → All P (Table.values s)
      → P p
      → All P (Table.values (update s p).0)
  unfolding update
  update-All P s p h x = written-All P s p (Table.get s (row.id_of p)) h x

  pub get-All :
      (P : A → Type 0) (s : Table A) (org id : ℕ) (p : A)
      → All P (Table.values s)
      → get s org id ≡ ok p
      → P p
  unfolding get
  get-All P s org id p h e = All-values-get P s id h (scoped-some org (Table.get s id) p e).0
