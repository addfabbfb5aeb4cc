-- ===== src/Approval/Store.antt =====
-- services/approval/internal/store/store.go: the in-memory store. A workflow is a value here, so
-- `copyWorkflow` is the identity, and a nil history is the empty one.
use obvious.Base.{
  ℕ, ◌≡◌, Bool, true, false, ◌&&◌, Option, none, some, List, [], ◌∷◌, arith, str_eq, String,
  if◌then◌else◌, ◌==◌, Bool-cases, inl, inr,
}
use obvious.Base.Table
use obvious.Base.Table.{Table, get-put, All-values-put}
use obvious.Approval.Types.{Result, ok, err, workflow_not_found, Workflow}
use mathlib.Core.Path.{subst}

-- The field `data`.
pub record Store : Type 0 where
  pub entries : Table Workflow

unfoldable pub new : Store
new = record { entries = [] }

-- Create never fails; it overwrites what stands under the ID.
unfoldable pub create : Store → Workflow → Store
create s w = record { entries = Table.put s.entries w.id w }

scoped : ℕ → Option Workflow → Result Workflow
scoped org none = err workflow_not_found
scoped org (some w) = if w.org_id == org then ok w else err workflow_not_found

unfoldable pub get : Store → ℕ → ℕ → Result Workflow
unfolding scoped
get s org id = scoped org (Table.get s.entries id)

written : Store → Workflow → Option Workflow → Store × Result (Unit {0})
written s w none = (s, err workflow_not_found)
written s w (some _) = (record { entries = Table.put s.entries w.id w }, ok tt)

unfoldable pub update : Store → Workflow → Store × Result (Unit {0})
unfolding written
update s w = written s w (Table.get s.entries w.id)

-- `resourceID != nil && w.ResourceID != *resourceID`, negated.
abbrev resource_matches : Option ℕ → Workflow → Bool
resource_matches none w = true
resource_matches (some id) w = w.resource_id == id

abbrev listed : ℕ → String → Option ℕ → Workflow → Bool
listed org kind resource w =
    if w.org_id == org
    then (if str_eq kind "" then true else str_eq w.resource_type kind)
      && resource_matches resource w
    else false

select : ℕ → String → Option ℕ → List Workflow → List Workflow
select org kind resource [] = []
select org kind resource (w ∷ ws) =
    let out = select org kind resource ws in if listed org kind resource w then w ∷ out else out

unfoldable pub list : Store → ℕ → String → Option ℕ → List Workflow
unfolding select
list s org kind resource = select org kind resource (Table.values s.entries)

-- What a client of one organisation reads after a write: the new workflow under its own ID, if it
-- is its own; any other ID as before.
pub get-create :
    (s : Store) (w : Workflow) (org id : ℕ)
    → get (create s w) org id ≡ (
        if w.id == id
        then (if w.org_id == org then ok w else err workflow_not_found)
        else get s org id)
unfolding get create
get-create s w org id = ground (arith, get-put s.entries w.id id w)

-- Every workflow stands under its own ID, and satisfies a predicate.
pub record Keeps (P : Workflow → Type 0) (s : Store) : Type 0 where
  pub at : (k : ℕ) (w : Workflow) → Table.get s.entries k ≡ some w → (w.id ≡ k) × P w

module _ {P : Workflow → Type 0} (s : Store) (k : Keeps P s) (w : Workflow) where
  pub create-Keeps : P w → Keeps P (create s w)
  unfolding create
  create-Keeps p = record {
    at = λ j v found. elim (Bool-cases (w.id == j)) [
      | inl same ↦
          let v_is_w : w ≡ v = ground (arith, get-put s.entries w.id j w) in
          (ground (arith, get-put s.entries w.id j w), subst P v_is_w p)
      | inr other ↦ k.at j v (ground (arith, get-put s.entries w.id j w))
    ];
  }

  pub update-Keeps : P w → Keeps P (update s w).0
  unfolding update
  update-Keeps p = go (Table.get s.entries w.id)
    where
      go : (o : Option Workflow) → Keeps P (written s w o).0
      go none = k
      go (some _) = unfold create in create-Keeps p

  pub get-Keeps : (org id : ℕ) → get s org id ≡ ok w → (w.org_id ≡ org) × (w.id ≡ id) × P w
  unfolding get
  get-Keeps org id found = ground (arith, k.at id w)

-- What is read can be written back: it replaces what stood under its ID, and nothing else.
pub update_read :
    {P : Workflow → Type 0} (s : Store) (k : Keeps P s) (org id : ℕ) (old w : Workflow)
    → get s org id ≡ ok old
    → w.id ≡ old.id
    → ((update s w).1 ≡ ok tt)
      × ((j : ℕ)
          → Table.get (update s w).0.entries j
            ≡ (if w.id == j then some w else Table.get s.entries j))
unfolding get update
update_read s k org id old w found same =
    (ground (arith, k.at id old), λ j. ground (arith, k.at id old, get-put s.entries w.id j w))
