-- ===== src/Planning/Annual.antt =====
-- The annual plan of services/planning/internal/domain/plan.go. A method that changes the plan
-- takes it to a new one and its result; the time and the fresh IDs are arguments: `fresh i` is what
-- `uuid.New()` gives in round `i` of a loop. A year is a number, since a negative one is refused as
-- one below 2000 is.
use obvious.Base.{
  ℕ, ◌+◌, String, Bool, true, false, not, ◌||◌, Option, none, some, List, [], ◌∷◌, str_eq,
  if◌then◌else◌, ltb, ◌==◌,
}
use obvious.Base.Int.{ℤ}
use obvious.Base.Json.{Fields, end}

pub data PlanStatus : Type 0 where
  draft approved active archived : PlanStatus

abbrev pub eq_status : PlanStatus → PlanStatus → Bool
eq_status draft draft = true
eq_status approved approved = true
eq_status active active = true
eq_status archived archived = true
eq_status _ _ = false

-- `other_status` holds any other text, the empty one included.
pub data EngagementPlanStatus : Type 0 where
  planned in_progress completed deferred : EngagementPlanStatus
  other_status : String → EngagementPlanStatus

-- The sentinel errors, and those made on the spot, by their message.
pub data Error : Type 0 where
  not_found invalid_transition duplicate_year : Error
  invalid : String → Error

pub data Result {ℓ} (A : Type ℓ) : Type ℓ where
  ok : A → Result A
  err : Error → Result A

pub record PlannedEngagement : Type 0 where
  pub id : ℕ
  pub name : String
  pub auditable_entity : String
  pub assigned_team : List String
  pub lead_auditor_id : String
  pub quarter : ℤ
  pub start_date : String
  pub end_date : String
  pub budget_days : ℤ
  pub status : EngagementPlanStatus
  pub engagement_id : Option ℕ

pub record AnnualPlan : Type 0 where
  pub id : ℕ
  pub org_id : ℕ
  pub strategic_plan_id : Option ℕ
  pub year : ℕ
  pub name : String
  pub status : PlanStatus
  pub version : ℕ
  pub engagements : List PlannedEngagement
  pub approval_id : Option ℕ
  pub metadata : Fields
  pub created_at : ℕ
  pub updated_at : ℕ

pub record CreateAnnualPlanRequest : Type 0 where
  pub org_id : ℕ
  pub strategic_plan_id : Option ℕ
  pub year : ℕ
  pub name : String
  pub engagements : List PlannedEngagement
  pub metadata : Option Fields

pub record UpdateAnnualPlanRequest : Type 0 where
  pub name : Option String
  pub engagements : Option (List PlannedEngagement)
  pub metadata : Option Fields

abbrev or_empty_map : Option Fields → Fields
or_empty_map none = end
or_empty_map (some m) = m

abbrev or_planned : EngagementPlanStatus → EngagementPlanStatus
or_planned (other_status t) = if str_eq t "" then planned else other_status t
or_planned s = s

-- The loop that fills in IDs and statuses, from round `i` on.
unfoldable pub filled : (ℕ → ℕ) → ℕ → List PlannedEngagement → List PlannedEngagement
filled fresh i [] = []
filled fresh i (e ∷ es) =
    record e { id = if e.id == 0 then fresh i else e.id; status = or_planned e.status }
    ∷ filled fresh (i + 1) es

unfoldable pub new_annual_plan : (ℕ → ℕ) → ℕ → ℕ → CreateAnnualPlanRequest → Result AnnualPlan
unfolding filled
new_annual_plan fresh id now req =
    if str_eq req.name ""
    then err (invalid "name is required")
    else if req.org_id == 0
    then err (invalid "org_id is required")
    else if ltb req.year 2000 || ltb 2100 req.year
    then err (invalid "valid year is required")
    else ok (record {
      id = id;
      org_id = req.org_id;
      strategic_plan_id = req.strategic_plan_id;
      year = req.year;
      name = req.name;
      status = draft;
      version = 1;
      engagements = filled fresh 0 req.engagements;
      approval_id = none;
      metadata = or_empty_map req.metadata;
      created_at = now;
      updated_at = now;
    })

unfoldable pub approve : ℕ → Option ℕ → AnnualPlan → AnnualPlan × Result (Unit {0})
approve now approval p =
    if not (eq_status p.status draft)
    then (p, err invalid_transition)
    else (record p { status = approved; approval_id = approval; updated_at = now }, ok tt)

unfoldable pub activate : ℕ → AnnualPlan → AnnualPlan × Result (Unit {0})
activate now p =
    if not (eq_status p.status approved)
    then (p, err invalid_transition)
    else (record p { status = active; updated_at = now }, ok tt)

unfoldable pub archive : ℕ → AnnualPlan → AnnualPlan × Result (Unit {0})
archive now p =
    if eq_status p.status archived
    then (p, err invalid_transition)
    else (record p { status = archived; updated_at = now }, ok tt)

abbrev renamed : Option String → String → String
renamed none old = old
renamed (some new) old = new

abbrev replanned :
    (ℕ → ℕ) → Option (List PlannedEngagement) → List PlannedEngagement → List PlannedEngagement
replanned fresh none old = old
replanned fresh (some es) old = filled fresh 0 es

-- Apply looks at no other field of the request.
unfoldable pub apply : (ℕ → ℕ) → ℕ → UpdateAnnualPlanRequest → AnnualPlan → AnnualPlan
apply fresh now req p = record p {
  name = renamed req.name p.name;
  engagements = replanned fresh req.engagements p.engagements;
  version = p.version + 1;
  updated_at = now;
}
