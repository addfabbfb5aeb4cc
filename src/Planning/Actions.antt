-- ===== src/Planning/Actions.antt =====
-- Requests to the handlers of services/planning/internal/handler/handler.go, one after another, on
-- the bundle of stores.
use obvious.Base.{ℕ, String, Option, none, some, List, [], ◌∷◌}
use obvious.Planning.Annual.{CreateAnnualPlanRequest, UpdateAnnualPlanRequest}
use obvious.Planning.Strategic.{CreateStrategicPlanRequest, UpdateStrategicPlanRequest}
use obvious.Planning.Assurance.{CreateAssuranceMapRequest, UpdateAssuranceMapRequest}
use obvious.Planning.Calendar.{CreateResourceCalendarRequest, UpdateResourceCalendarRequest}
use obvious.Planning.Stores.{Stores}
use obvious.Planning.Handler.{Body, Request}
use obvious.Planning.Service.{
  Approving, create_strategic_plan, update_strategic_plan, approve_strategic_plan,
  activate_strategic_plan, archive_strategic_plan, create_annual_plan, update_annual_plan,
  approve_annual_plan, activate_annual_plan, archive_annual_plan, create_assurance_map,
  update_assurance_map, create_resource_calendar, update_resource_calendar,
}

-- A request that changes a store, at a time.
pub data Action : Type 0 where
  strategic_create : (ℕ → ℕ) → ℕ → ℕ → Body CreateStrategicPlanRequest → Action
  strategic_update : (ℕ → ℕ) → ℕ → Request → Body UpdateStrategicPlanRequest → Action
  strategic_approve : ℕ → Request → Body Approving → Action
  strategic_activate strategic_archive : ℕ → Request → Action
  annual_create : (ℕ → ℕ) → ℕ → ℕ → Body CreateAnnualPlanRequest → Action
  annual_update : (ℕ → ℕ) → ℕ → Request → Body UpdateAnnualPlanRequest → Action
  annual_approve : ℕ → Request → Option ℕ → Action
  annual_activate annual_archive : ℕ → Request → Action
  map_create : ℕ → ℕ → Body CreateAssuranceMapRequest → Action
  map_update : ℕ → Request → Body UpdateAssuranceMapRequest → Action
  calendar_create : (ℕ → ℕ) → (ℕ → ℕ → ℕ) → ℕ → ℕ → Body CreateResourceCalendarRequest → Action
  calendar_update : ℕ → Request → Body UpdateResourceCalendarRequest → Action

-- The request in whose organisation a row is changed; a creation names it in the body.
abbrev pub acting : Action → Option Request
acting (strategic_create fresh id now body) = none
acting (strategic_update fresh now req body) = some req
acting (strategic_approve now req body) = some req
acting (strategic_activate now req) = some req
acting (strategic_archive now req) = some req
acting (annual_create fresh id now body) = none
acting (annual_update fresh now req body) = some req
acting (annual_approve now req approval) = some req
acting (annual_activate now req) = some req
acting (annual_archive now req) = some req
acting (map_create id now body) = none
acting (map_update now req body) = some req
acting (calendar_create fresh fresh_in id now body) = none
acting (calendar_update now req body) = some req

module _ (parse : String → Option ℕ) where
  unfoldable pub perform : Action → Stores → Stores
  perform (strategic_create fresh id now body) st = record st {
    strategic_plans = (create_strategic_plan parse fresh id now body st.strategic_plans).0;
  }
  perform (strategic_update fresh now req body) st = record st {
    strategic_plans = (update_strategic_plan parse fresh now req body st.strategic_plans).0;
  }
  perform (strategic_approve now req body) st = record st {
    strategic_plans = (approve_strategic_plan parse now req body st.strategic_plans).0;
  }
  perform (strategic_activate now req) st = record st {
    strategic_plans = (activate_strategic_plan parse now req st.strategic_plans).0;
  }
  perform (strategic_archive now req) st = record st {
    strategic_plans = (archive_strategic_plan parse now req st.strategic_plans).0;
  }
  perform (annual_create fresh id now body) st = record st {
    annual_plans = (create_annual_plan parse fresh id now body st.annual_plans).0;
  }
  perform (annual_update fresh now req body) st = record st {
    annual_plans = (update_annual_plan parse fresh now req body st.annual_plans).0;
  }
  perform (annual_approve now req approval) st = record st {
    annual_plans = (approve_annual_plan parse now req approval st.annual_plans).0;
  }
  perform (annual_activate now req) st = record st {
    annual_plans = (activate_annual_plan parse now req st.annual_plans).0;
  }
  perform (annual_archive now req) st = record st {
    annual_plans = (archive_annual_plan parse now req st.annual_plans).0;
  }
  perform (map_create id now body) st = record st {
    assurance_maps = (create_assurance_map parse id now body st.assurance_maps).0;
  }
  perform (map_update now req body) st = record st {
    assurance_maps = (update_assurance_map parse now req body st.assurance_maps).0;
  }
  perform (calendar_create fresh fresh_in id now body) st = record st {
    resource_calendars =
        (create_resource_calendar parse fresh fresh_in id now body st.resource_calendars).0;
  }
  perform (calendar_update now req body) st = record st {
    resource_calendars = (update_resource_calendar parse now req body st.resource_calendars).0;
  }

  unfoldable pub perform_all : List Action → Stores → Stores
  perform_all [] st = st
  perform_all (c ∷ cs) st = perform_all cs (perform c st)
