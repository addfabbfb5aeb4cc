-- ===== src/Planning/Store.antt =====
-- The store of annual plans of services/planning/internal/store/store.go. A plan is a value here:
-- the store copies the struct, and no caller writes through the slice that the copies share.
use obvious.Base.{
  ℕ, Bool, true, false, not, ◌&&◌, Option, none, some, List, [], ◌∷◌, if◌then◌else◌, ◌==◌,
}
use obvious.Base.Table
use obvious.Base.Table.{Table}
use obvious.Planning.Annual.{
  archived, eq_status, Result, ok, err, not_found, duplicate_year, AnnualPlan,
}

-- The field `data`.
pub record AnnualPlanStore : Type 0 where
  pub entries : Table AnnualPlan

unfoldable pub new_annual_plan_store : AnnualPlanStore
new_annual_plan_store = record { entries = [] }

-- The condition of the loop in Create.
abbrev pub rivals : AnnualPlan → AnnualPlan → Bool
rivals p existing =
    existing.org_id == p.org_id
    && existing.year == p.year
    && not (eq_status existing.status archived)

-- The loop in Create.
unfoldable pub has_rival : AnnualPlan → List AnnualPlan → Bool
has_rival p [] = false
has_rival p (q ∷ qs) = let rest = has_rival p qs in if rivals p q then true else rest

-- Create, by what the loop found.
unfoldable pub created : AnnualPlanStore → AnnualPlan → Bool → AnnualPlanStore × Result (Unit {0})
created s p true = (s, err duplicate_year)
created s p false = (record { entries = Table.put s.entries p.id p }, ok tt)

unfoldable pub create : AnnualPlanStore → AnnualPlan → AnnualPlanStore × Result (Unit {0})
unfolding has_rival created
create s p = created s p (has_rival p (Table.values s.entries))

scoped : ℕ → Option AnnualPlan → Result AnnualPlan
scoped org none = err not_found
scoped org (some p) = if p.org_id == org then ok p else err not_found

unfoldable pub get : AnnualPlanStore → ℕ → ℕ → Result AnnualPlan
unfolding scoped
get s org id = scoped org (Table.get s.entries id)

select : ℕ → ℕ → List AnnualPlan → List AnnualPlan
select org year [] = []
select org year (p ∷ ps) =
    let out = select org year ps in
    if not (p.org_id == org)
    then out
    else if not (year == 0) && not (p.year == year)
    then out
    else p ∷ out

unfoldable pub list : AnnualPlanStore → ℕ → ℕ → List AnnualPlan
unfolding select
list s org year = select org year (Table.values s.entries)

unfoldable pub written :
    AnnualPlanStore → AnnualPlan → Option AnnualPlan → AnnualPlanStore × Result (Unit {0})
written s p none = (s, err not_found)
written s p (some _) = (record { entries = Table.put s.entries p.id p }, ok tt)

unfoldable pub update : AnnualPlanStore → AnnualPlan → AnnualPlanStore × Result (Unit {0})
unfolding written
update s p = written s p (Table.get s.entries p.id)
