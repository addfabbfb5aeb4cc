-- ===== src/Engagement/Store.antt =====
-- services/engagement/internal/store/store.go: the in-memory store. An engagement is a value here:
-- the store copies the struct, and no caller writes through the maps or the slice that the copies
-- share.
use obvious.Base.{
  ℕ, ◌≡◌, Option, none, some, List, [], ◌∷◌, arith, if◌then◌else◌, ◌==◌, Bool-cases, inl, inr,
}
use mathlib.Core.Path.{subst}
use obvious.Base.Table
use obvious.Base.Table.{Table, get-put}
use obvious.Engagement.Lifecycle.{Result, ok, err, engagement_not_found, Engagement}

-- The field `data`.
pub record EngagementStore : Type 0 where
  pub entries : Table Engagement

unfoldable pub new_engagement_store : EngagementStore
new_engagement_store = record { entries = [] }

unfoldable pub create : EngagementStore → Engagement → EngagementStore
create s e = record { entries = Table.put s.entries e.id e }

scoped : ℕ → Option Engagement → Result Engagement
scoped org none = err engagement_not_found
scoped org (some e) = if e.org_id == org then ok e else err engagement_not_found

unfoldable pub get : EngagementStore → ℕ → ℕ → Result Engagement
unfolding scoped
get s org id = scoped org (Table.get s.entries id)

select : ℕ → List Engagement → List Engagement
select org [] = []
select org (e ∷ es) = let out = select org es in if e.org_id == org then e ∷ out else out

unfoldable pub list : EngagementStore → ℕ → List Engagement
unfolding select
list s org = select org (Table.values s.entries)

written : EngagementStore → Engagement → Option Engagement → EngagementStore × Result (Unit {0})
written s e none = (s, err engagement_not_found)
written s e (some _) = (record { entries = Table.put s.entries e.id e }, ok tt)

unfoldable pub update : EngagementStore → Engagement → EngagementStore × Result (Unit {0})
unfolding written
update s e = written s e (Table.get s.entries e.id)

-- Every engagement stands under its own ID, and satisfies a predicate.
pub record Keeps (P : Engagement → Type 0) (s : EngagementStore) : Type 0 where
  pub at : (k : ℕ) (e : Engagement) → Table.get s.entries k ≡ some e → (e.id ≡ k) × P e

module _ {P : Engagement → Type 0} (s : EngagementStore) (k : Keeps P s) (e : Engagement) where
  pub engagement_create-Keeps : P e → Keeps P (create s e)
  unfolding create
  engagement_create-Keeps p = record {
    at = λ j v found. elim (Bool-cases (e.id == j)) [
      | inl same ↦
          let v_is_e : e ≡ v = ground (arith, get-put s.entries e.id j e) in
          (ground (arith, get-put s.entries e.id j e), subst P v_is_e p)
      | inr other ↦ k.at j v (ground (arith, get-put s.entries e.id j e))
    ];
  }

  pub engagement_update-Keeps : P e → Keeps P (update s e).0
  unfolding update
  engagement_update-Keeps p = go (Table.get s.entries e.id)
    where
      go : (o : Option Engagement) → Keeps P (written s e o).0
      go none = k
      go (some _) = unfold create in engagement_create-Keeps p

  pub engagement_get-Keeps :
      (org id : ℕ) → get s org id ≡ ok e → (e.org_id ≡ org) × (e.id ≡ id) × P e
  unfolding get
  engagement_get-Keeps org id found = ground (arith, k.at id e)

pub engagement_update_read :
    {P : Engagement → Type 0} (s : EngagementStore) (k : Keeps P s) (org id : ℕ)
    (old e : Engagement)
    → get s org id ≡ ok old
    → e.id ≡ old.id
    → ((update s e).1 ≡ ok tt)
      × ((j : ℕ)
          → Table.get (update s e).0.entries j
            ≡ (if e.id == j then some e else Table.get s.entries j))
unfolding get update
engagement_update_read s k org id old e found same =
    (ground (arith, k.at id old), λ j. ground (arith, k.at id old, get-put s.entries e.id j e))
