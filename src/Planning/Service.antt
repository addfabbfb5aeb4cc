-- ===== src/Planning/Service.antt =====
-- The handlers of services/planning/internal/handler/handler.go. The time, the fresh IDs, and what
-- decoding the body gives are arguments.
use obvious.Base.{ℕ, String, Option, none, some, [], str_eq, if◌then◌else◌}
use obvious.Base.Int.{ℤ, pos, negsuc}
use obvious.Base.Table.{Table}
use obvious.Planning.Annual
use obvious.Planning.Annual.{
  AnnualPlan, CreateAnnualPlanRequest, UpdateAnnualPlanRequest, new_annual_plan,
}
use obvious.Planning.Strategic
use obvious.Planning.Strategic.{
  StrategicPlan, CreateStrategicPlanRequest, UpdateStrategicPlanRequest, new_strategic_plan,
}
use obvious.Planning.Assurance.{
  AssuranceMap, CreateAssuranceMapRequest, UpdateAssuranceMapRequest, new_assurance_map,
  apply_update,
}
use obvious.Planning.Calendar
use obvious.Planning.Calendar.{
  ResourceCalendar, CreateResourceCalendarRequest, UpdateResourceCalendarRequest,
  new_resource_calendar,
}
use obvious.Planning.Store
use obvious.Planning.Store.{AnnualPlanStore}
use obvious.Planning.Stores.{
  strategic_repository, annual_repository, map_repository, calendar_repository,
  list_strategic_plans, list_assurance_maps, list_resource_calendars,
}
use obvious.Planning.Handler.{
  Body, decoded, malformed, Request, Response, failure, several, Change, refused, server_error,
  year_error, require_org_id, modify, show, make, transition, patch,
}

-- The body of ApproveStrategicPlan.
pub record Approving : Type 0 where
  pub approved_by : String
  pub approval_id : Option ℕ

-- What ApproveStrategicPlan makes of the plan.
abbrev pub approving : ℕ → Body Approving → StrategicPlan → Change StrategicPlan
approving now (malformed problem) p = refused (failure 400 "INVALID_REQUEST" problem)
approving now (decoded body) p =
    if str_eq body.approved_by ""
    then refused (failure 400 "INVALID_REQUEST" "approved_by is required")
    else transition (Strategic.approve now body.approved_by body.approval_id p)

module _ (parse : String → Option ℕ) where
  unfoldable pub create_strategic_plan :
      (ℕ → ℕ)
      → ℕ
      → ℕ
      → Body CreateStrategicPlanRequest
      → Table StrategicPlan
      → Table StrategicPlan × Response StrategicPlan
  create_strategic_plan fresh id now body s =
      make strategic_repository body (new_strategic_plan fresh id now) server_error s

  unfoldable pub list_strategic_plans_call :
      Request → Table StrategicPlan → Table StrategicPlan × Response StrategicPlan
  list_strategic_plans_call req s =
      require_org_id parse req (λ org. (s, several 200 (list_strategic_plans s org))) s

  unfoldable pub get_strategic_plan :
      Request → Table StrategicPlan → Table StrategicPlan × Response StrategicPlan
  get_strategic_plan req s = show strategic_repository parse "strategic plan not found" req s

  unfoldable pub update_strategic_plan :
      (ℕ → ℕ)
      → ℕ
      → Request
      → Body UpdateStrategicPlanRequest
      → Table StrategicPlan
      → Table StrategicPlan × Response StrategicPlan
  update_strategic_plan fresh now req body s =
      modify strategic_repository parse "strategic plan not found" req
        (patch body (Strategic.apply fresh now)) s

  unfoldable pub approve_strategic_plan :
      ℕ
      → Request
      → Body Approving
      → Table StrategicPlan
      → Table StrategicPlan × Response StrategicPlan
  approve_strategic_plan now req body s =
      modify strategic_repository parse "strategic plan not found" req (approving now body) s

  unfoldable pub activate_strategic_plan :
      ℕ → Request → Table StrategicPlan → Table StrategicPlan × Response StrategicPlan
  activate_strategic_plan now req s =
      modify strategic_repository parse "strategic plan not found" req
        (λ p. transition (Strategic.activate now p)) s

  unfoldable pub archive_strategic_plan :
      ℕ → Request → Table StrategicPlan → Table StrategicPlan × Response StrategicPlan
  archive_strategic_plan now req s =
      modify strategic_repository parse "strategic plan not found" req
        (λ p. transition (Strategic.archive now p)) s

  unfoldable pub create_annual_plan :
      (ℕ → ℕ)
      → ℕ
      → ℕ
      → Body CreateAnnualPlanRequest
      → AnnualPlanStore
      → AnnualPlanStore × Response AnnualPlan
  create_annual_plan fresh id now body s =
      make annual_repository body (new_annual_plan fresh id now) year_error s

  -- No plan has a negative year.
  abbrev listed : AnnualPlanStore → ℕ → Option ℤ → AnnualPlanStore × Response AnnualPlan
  listed s org none = (s, failure 400 "INVALID_REQUEST" "year must be an integer")
  listed s org (some (pos year)) = (s, several 200 (Store.list s org year))
  listed s org (some (negsuc year)) = (s, several 200 [])

  -- `atoi` is strconv.Atoi.
  unfoldable pub list_annual_plans_call :
      (String → Option ℤ)
      → Request
      → String
      → AnnualPlanStore
      → AnnualPlanStore × Response AnnualPlan
  list_annual_plans_call atoi req year s =
      require_org_id parse req
        (λ org. if str_eq year "" then listed s org (some (pos 0)) else listed s org (atoi year)) s

  unfoldable pub get_annual_plan : Request → AnnualPlanStore → AnnualPlanStore × Response AnnualPlan
  get_annual_plan req s = show annual_repository parse "annual plan not found" req s

  unfoldable pub update_annual_plan :
      (ℕ → ℕ)
      → ℕ
      → Request
      → Body UpdateAnnualPlanRequest
      → AnnualPlanStore
      → AnnualPlanStore × Response AnnualPlan
  update_annual_plan fresh now req body s =
      modify annual_repository parse "annual plan not found" req
        (patch body (Annual.apply fresh now)) s

  -- The error of decoding the body is not looked at: the approval's ID is what it leaves.
  unfoldable pub approve_annual_plan :
      ℕ → Request → Option ℕ → AnnualPlanStore → AnnualPlanStore × Response AnnualPlan
  approve_annual_plan now req approval s =
      modify annual_repository parse "annual plan not found" req
        (λ p. transition (Annual.approve now approval p)) s

  unfoldable pub activate_annual_plan :
      ℕ → Request → AnnualPlanStore → AnnualPlanStore × Response AnnualPlan
  activate_annual_plan now req s =
      modify annual_repository parse "annual plan not found" req
        (λ p. transition (Annual.activate now p)) s

  unfoldable pub archive_annual_plan :
      ℕ → Request → AnnualPlanStore → AnnualPlanStore × Response AnnualPlan
  archive_annual_plan now req s =
      modify annual_repository parse "annual plan not found" req
        (λ p. transition (Annual.archive now p)) s

  unfoldable pub create_assurance_map :
      ℕ
      → ℕ
      → Body CreateAssuranceMapRequest
      → Table AssuranceMap
      → Table AssuranceMap × Response AssuranceMap
  create_assurance_map id now body s =
      make map_repository body (new_assurance_map id now) server_error s

  unfoldable pub list_assurance_maps_call :
      Request → Table AssuranceMap → Table AssuranceMap × Response AssuranceMap
  list_assurance_maps_call req s =
      require_org_id parse req (λ org. (s, several 200 (list_assurance_maps s org))) s

  unfoldable pub get_assurance_map :
      Request → Table AssuranceMap → Table AssuranceMap × Response AssuranceMap
  get_assurance_map req s = show map_repository parse "assurance map not found" req s

  unfoldable pub update_assurance_map :
      ℕ
      → Request
      → Body UpdateAssuranceMapRequest
      → Table AssuranceMap
      → Table AssuranceMap × Response AssuranceMap
  update_assurance_map now req body s =
      modify map_repository parse "assurance map not found" req (patch body (apply_update now)) s

  unfoldable pub create_resource_calendar :
      (ℕ → ℕ)
      → (ℕ → ℕ → ℕ)
      → ℕ
      → ℕ
      → Body CreateResourceCalendarRequest
      → Table ResourceCalendar
      → Table ResourceCalendar × Response ResourceCalendar
  create_resource_calendar fresh fresh_in id now body s =
      make calendar_repository body (new_resource_calendar fresh fresh_in id now) server_error s

  unfoldable pub list_resource_calendars_call :
      Request → Table ResourceCalendar → Table ResourceCalendar × Response ResourceCalendar
  list_resource_calendars_call req s =
      require_org_id parse req (λ org. (s, several 200 (list_resource_calendars s org))) s

  unfoldable pub get_resource_calendar :
      Request → Table ResourceCalendar → Table ResourceCalendar × Response ResourceCalendar
  get_resource_calendar req s = show calendar_repository parse "resource calendar not found" req s

  unfoldable pub update_resource_calendar :
      ℕ
      → Request
      → Body UpdateResourceCalendarRequest
      → Table ResourceCalendar
      → Table ResourceCalendar × Response ResourceCalendar
  update_resource_calendar now req body s =
      modify calendar_repository parse "resource calendar not found" req
        (patch body (Calendar.apply now)) s
