-- ===== src/Planning/Stores.antt =====
-- The four stores of services/planning/internal/store/store.go, each as a repository, and their
-- bundle.
use obvious.Base.{ℕ, ◌≡◌, ◌∙◌, ap, some, List, [], arith}
use obvious.Base.Table
use obvious.Base.Table.{Table, get-put}
use obvious.Planning.Annual.{AnnualPlan, ok}
use obvious.Planning.Strategic.{StrategicPlan}
use obvious.Planning.Assurance.{AssuranceMap}
use obvious.Planning.Calendar.{ResourceCalendar}
use obvious.Planning.Store
use obvious.Planning.Store.{AnnualPlanStore, new_annual_plan_store}
use obvious.Planning.Repository.{Row, Repository, Lawful, repository, lawful, list}

abbrev pub strategic_row : Row StrategicPlan
strategic_row = record { id_of = λ p. p.id; org_of = λ p. p.org_id }

abbrev pub annual_row : Row AnnualPlan
annual_row = record { id_of = λ p. p.id; org_of = λ p. p.org_id }

abbrev pub map_row : Row AssuranceMap
map_row = record { id_of = λ m. m.id; org_of = λ m. m.org_id }

abbrev pub calendar_row : Row ResourceCalendar
calendar_row = record { id_of = λ rc. rc.id; org_of = λ rc. rc.org_id }

-- StrategicPlanStore, AnnualPlanStore, AssuranceMapStore and ResourceCalendarStore.
abbrev pub strategic_repository : Repository (Table StrategicPlan) StrategicPlan
strategic_repository = repository strategic_row

abbrev pub annual_repository : Repository AnnualPlanStore AnnualPlan
annual_repository = record {
  row = annual_row;
  add = Store.create;
  read = Store.get;
  write = Store.update;
}

abbrev pub map_repository : Repository (Table AssuranceMap) AssuranceMap
map_repository = repository map_row

abbrev pub calendar_repository : Repository (Table ResourceCalendar) ResourceCalendar
calendar_repository = repository calendar_row

-- Their methods List.
abbrev pub list_strategic_plans : Table StrategicPlan → ℕ → List StrategicPlan
list_strategic_plans s org = list strategic_row s org

abbrev pub list_assurance_maps : Table AssuranceMap → ℕ → List AssuranceMap
list_assurance_maps s org = list map_row s org

abbrev pub list_resource_calendars : Table ResourceCalendar → ℕ → List ResourceCalendar
list_resource_calendars s org = list calendar_row s org

pub record Stores : Type 0 where
  pub strategic_plans : Table StrategicPlan
  pub annual_plans : AnnualPlanStore
  pub assurance_maps : Table AssuranceMap
  pub resource_calendars : Table ResourceCalendar

abbrev pub new : Stores
new = record {
  strategic_plans = [];
  annual_plans = new_annual_plan_store;
  assurance_maps = [];
  resource_calendars = [];
}

abbrev pub strategic_lawful : Lawful strategic_repository
strategic_lawful = lawful strategic_row

abbrev pub map_lawful : Lawful map_repository
map_lawful = lawful map_row

abbrev pub calendar_lawful : Lawful calendar_repository
calendar_lawful = lawful calendar_row

abbrev pub Keyed : AnnualPlanStore → Type 0
Keyed s = (k : ℕ) (p : AnnualPlan) → Table.get s.entries k ≡ some p → p.id ≡ k

pub add-Keyed : (s : AnnualPlanStore) (p : AnnualPlan) → Keyed s → Keyed (Store.create s p).0
unfolding Store.create
add-Keyed s p g k q found = ground (arith, get-put s.entries p.id k p, g k q)

pub write-Keyed : (s : AnnualPlanStore) (p : AnnualPlan) → Keyed s → Keyed (Store.update s p).0
unfolding Store.update
write-Keyed s p g k q found = ground (arith, get-put s.entries p.id k p, g k q)

read-some :
    (s : AnnualPlanStore) (org id : ℕ) (p : AnnualPlan)
    → Store.get s org id ≡ ok p
    → (Table.get s.entries id ≡ some p) × (p.org_id ≡ org)
unfolding Store.get
read-some s org id p e = ground arith

pub read-own :
    (s : AnnualPlanStore) (org id : ℕ) (p : AnnualPlan)
    → Keyed s
    → Store.get s org id ≡ ok p
    → (p.id ≡ id) × (p.org_id ≡ org)
read-own s org id p g e = let found = read-some s org id p e in (g id p found.0, found.1)

pub write-other :
    (s : AnnualPlanStore) (org id : ℕ) (p q : AnnualPlan)
    → Keyed s
    → Store.get s org id ≡ ok p
    → q.id ≡ p.id
    → q.org_id ≡ p.org_id
    → (other i : ℕ) → (other ≡ org → ⊥)
    → Store.get (Store.update s q).0 other i ≡ Store.get s other i
unfolding Store.get Store.update
write-other s org id p q g e same_id same_org other i differ =
    let found = read-some s org id p e in
    let there : Table.get s.entries q.id ≡ some p =
      ap (Table.get s.entries) (same_id ∙ g id p found.0) ∙ found.0 in
    ground (arith, there, found.1, get-put s.entries q.id i q)

abbrev pub annual_lawful : Lawful annual_repository
annual_lawful = record {
  Good = Keyed;
  add-Good = add-Keyed;
  write-Good = write-Keyed;
  read-own = read-own;
  write-other = write-other;
}
