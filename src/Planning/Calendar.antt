-- ===== src/Planning/Calendar.antt =====
-- The resource calendar of services/planning/internal/domain/plan.go. A day count is a 64-bit `int`
-- that wraps around; `fresh i` is the auditor's ID that `uuid.New()` gives in round `i` of the outer
-- loop, and `fresh_in i j` the assignment's in round `j` of the inner one.
use obvious.Base.{
  ℕ, zero, ◌+◌, String, ◌||◌, Option, List, [], ◌∷◌, str_eq, if◌then◌else◌, ◌==◌, ltb,
}
use obvious.Base.Int.{ℤ, pos, lessb}
use obvious.Base.Int64.{add, mul, div}
use obvious.Base.Json.{Fields}
use obvious.Planning.Annual.{Result, ok, err, invalid}
use obvious.Planning.Strategic.{or_empty_map, renamed}

pub record Assignment : Type 0 where
  pub id : ℕ
  pub engagement_name : String
  pub start_date : String
  pub end_date : String
  pub allocated_days : ℤ
  pub quarter : ℤ

pub record AuditorAllocation : Type 0 where
  pub auditor_id : ℕ
  pub auditor_name : String
  pub auditor_email : String
  pub role : String
  pub available_days : ℤ
  pub assignments : List Assignment

-- The loop of AllocatedDays, from a total on.
unfoldable pub total_days : ℤ → List Assignment → ℤ
total_days total [] = total
total_days total (a ∷ rest) = total_days (add total a.allocated_days) rest

unfoldable pub allocated_days : AuditorAllocation → ℤ
unfolding total_days
allocated_days a = total_days (pos 0) a.assignments

abbrev pub capped : ℤ → ℤ
capped pct = if lessb (pos 100) pct then pos 100 else pct

abbrev pub percentage : ℤ → ℤ → ℤ
percentage allocated (pos zero) = pos 0
percentage allocated available = capped (div (mul allocated (pos 100)) available)

unfoldable pub utilisation_pct : AuditorAllocation → ℤ
unfolding allocated_days
utilisation_pct a = percentage (allocated_days a) a.available_days

pub record ResourceCalendar : Type 0 where
  pub id : ℕ
  pub org_id : ℕ
  pub annual_plan_id : Option ℕ
  pub year : ℕ
  pub name : String
  pub auditors : List AuditorAllocation
  pub metadata : Fields
  pub created_at : ℕ
  pub updated_at : ℕ

-- A negative year is refused as one below 2000 is, so a year is a number.
pub record CreateResourceCalendarRequest : Type 0 where
  pub org_id : ℕ
  pub annual_plan_id : Option ℕ
  pub year : ℕ
  pub name : String
  pub auditors : List AuditorAllocation
  pub metadata : Option Fields

pub record UpdateResourceCalendarRequest : Type 0 where
  pub name : Option String
  pub auditors : Option (List AuditorAllocation)

-- The inner loop, from round `j` on.
unfoldable pub assigned : (ℕ → ℕ) → ℕ → List Assignment → List Assignment
assigned fresh j [] = []
assigned fresh j (a ∷ rest) =
    record a { id = if a.id == 0 then fresh j else a.id } ∷ assigned fresh (j + 1) rest

-- The outer loop, from round `i` on.
unfoldable pub allocated :
    (ℕ → ℕ) → (ℕ → ℕ → ℕ) → ℕ → List AuditorAllocation → List AuditorAllocation
unfolding assigned
allocated fresh fresh_in i [] = []
allocated fresh fresh_in i (a ∷ rest) =
    record a {
      auditor_id = if a.auditor_id == 0 then fresh i else a.auditor_id;
      assignments = assigned (fresh_in i) 0 a.assignments;
    }
    ∷ allocated fresh fresh_in (i + 1) rest

unfoldable pub new_resource_calendar :
    (ℕ → ℕ) → (ℕ → ℕ → ℕ) → ℕ → ℕ → CreateResourceCalendarRequest → Result ResourceCalendar
unfolding allocated
new_resource_calendar fresh fresh_in id now req =
    if str_eq req.name ""
    then err (invalid "name is required")
    else if req.org_id == 0
    then err (invalid "org_id is required")
    else if ltb req.year 2000 || ltb 2100 req.year
    then err (invalid "valid year is required")
    else ok (record {
      id = id;
      org_id = req.org_id;
      annual_plan_id = req.annual_plan_id;
      year = req.year;
      name = req.name;
      auditors = allocated fresh fresh_in 0 req.auditors;
      metadata = or_empty_map req.metadata;
      created_at = now;
      updated_at = now;
    })

unfoldable pub apply : ℕ → UpdateResourceCalendarRequest → ResourceCalendar → ResourceCalendar
apply now req rc = record rc {
  name = renamed req.name rc.name;
  auditors = renamed req.auditors rc.auditors;
  updated_at = now;
}
