-- ===== src/Planning/Strategic.antt =====
-- The strategic plan of services/planning/internal/domain/plan.go. The time and the fresh IDs are
-- arguments: `fresh i` is what `uuid.New()` gives in round `i` of a loop.
use obvious.Base.{
  ℕ, ◌+◌, String, Bool, false, not, ◌||◌, Option, none, some, List, [], ◌∷◌, str_eq, if◌then◌else◌,
  ◌==◌,
}
use obvious.Base.Int.{ℤ, pos, negsuc, lessb}
use obvious.Base.Json.{Fields, end}
use obvious.Planning.Annual.{
  PlanStatus, draft, approved, active, archived, eq_status, Result, ok, err, invalid,
  invalid_transition,
}

-- `other_rating` holds any other text.
pub data RiskRating : Type 0 where
  critical high medium low : RiskRating
  other_rating : String → RiskRating

pub record AuditableEntity : Type 0 where
  pub id : ℕ
  pub name : String
  pub business_unit : String
  pub risk_rating : RiskRating
  pub priority : ℤ
  pub planned_year : ℤ
  pub control_domains : List String
  pub notes : String

pub record StrategicPlan : Type 0 where
  pub id : ℕ
  pub org_id : ℕ
  pub name : String
  pub description : String
  pub start_year : ℤ
  pub end_year : ℤ
  pub status : PlanStatus
  pub version : ℕ
  pub entities : List AuditableEntity
  pub approval_id : Option ℕ
  pub approved_at : Option ℕ
  pub approved_by : String
  pub metadata : Fields
  pub created_at : ℕ
  pub updated_at : ℕ

pub record CreateStrategicPlanRequest : Type 0 where
  pub org_id : ℕ
  pub name : String
  pub description : String
  pub start_year : ℤ
  pub end_year : ℤ
  pub entities : List AuditableEntity
  pub metadata : Option Fields

pub record UpdateStrategicPlanRequest : Type 0 where
  pub name : Option String
  pub description : Option String
  pub entities : Option (List AuditableEntity)
  pub metadata : Option Fields

abbrev pub or_empty_map : Option Fields → Fields
or_empty_map none = end
or_empty_map (some m) = m

abbrev is_zero : ℤ → Bool
is_zero (pos n) = n == 0
is_zero (negsuc n) = false

-- The loop that fills in the entities' IDs, from round `i` on.
unfoldable pub identified : (ℕ → ℕ) → ℕ → List AuditableEntity → List AuditableEntity
identified fresh i [] = []
identified fresh i (e ∷ es) =
    record e { id = if e.id == 0 then fresh i else e.id } ∷ identified fresh (i + 1) es

unfoldable pub new_strategic_plan :
    (ℕ → ℕ) → ℕ → ℕ → CreateStrategicPlanRequest → Result StrategicPlan
unfolding identified
new_strategic_plan fresh id now req =
    if str_eq req.name ""
    then err (invalid "name is required")
    else if req.org_id == 0
    then err (invalid "org_id is required")
    else if is_zero req.start_year || is_zero req.end_year || lessb req.end_year req.start_year
    then err (invalid "valid start_year and end_year are required")
    else ok (record {
      id = id;
      org_id = req.org_id;
      name = req.name;
      description = req.description;
      start_year = req.start_year;
      end_year = req.end_year;
      status = draft;
      version = 1;
      entities = identified fresh 0 req.entities;
      approval_id = none;
      approved_at = none;
      approved_by = "";
      metadata = or_empty_map req.metadata;
      created_at = now;
      updated_at = now;
    })

unfoldable pub approve : ℕ → String → Option ℕ → StrategicPlan → StrategicPlan × Result (Unit {0})
approve now by_email approval p =
    if not (eq_status p.status draft) then (p, err invalid_transition) else (
      record p {
        status = approved;
        approved_at = some now;
        approved_by = by_email;
        approval_id = approval;
        updated_at = now;
      },
      ok tt,
    )

unfoldable pub activate : ℕ → StrategicPlan → StrategicPlan × Result (Unit {0})
activate now p =
    if not (eq_status p.status approved)
    then (p, err invalid_transition)
    else (record p { status = active; updated_at = now }, ok tt)

unfoldable pub archive : ℕ → StrategicPlan → StrategicPlan × Result (Unit {0})
archive now p =
    if eq_status p.status archived
    then (p, err invalid_transition)
    else (record p { status = archived; updated_at = now }, ok tt)

abbrev pub renamed {ℓ} : {A : Type ℓ} → Option A → A → A
renamed none old = old
renamed (some new) old = new

abbrev replanned :
    (ℕ → ℕ) → Option (List AuditableEntity) → List AuditableEntity → List AuditableEntity
replanned fresh none old = old
replanned fresh (some es) old = identified fresh 0 es

-- Apply does not look at the request's metadata.
unfoldable pub apply : (ℕ → ℕ) → ℕ → UpdateStrategicPlanRequest → StrategicPlan → StrategicPlan
unfolding identified
apply fresh now req p = record p {
  name = renamed req.name p.name;
  description = renamed req.description p.description;
  entities = replanned fresh req.entities p.entities;
  version = p.version + 1;
  updated_at = now;
}
