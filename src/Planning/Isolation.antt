-- ===== src/Planning/Isolation.antt =====
-- What other organisations see of the requests to services/planning/internal/handler/handler.go.
use obvious.Base.{ℕ, ◌≡◌, ◌≢◌, refl, String, Option, List, [], ◌∷◌}
use obvious.Base.Table
use obvious.Planning.Annual
use obvious.Planning.Annual.{
  Result, ok, err, not_found, invalid_transition, duplicate_year, invalid, CreateAnnualPlanRequest,
  UpdateAnnualPlanRequest, AnnualPlan,
}
use obvious.Planning.Strategic.{
  StrategicPlan, CreateStrategicPlanRequest, UpdateStrategicPlanRequest,
}
use obvious.Planning.Strategic
use obvious.Planning.Assurance.{new_assurance_map, apply_update}
use obvious.Planning.Calendar.{CreateResourceCalendarRequest, UpdateResourceCalendarRequest}
use obvious.Planning.Calendar
use obvious.Planning.Stores.{
  Stores, new, strategic_repository, annual_repository, map_repository, calendar_repository,
  strategic_lawful, annual_lawful, map_lawful, calendar_lawful,
}
use obvious.Planning.Store.{new_annual_plan_store}
use obvious.Planning.Handler.{transition, patch, server_error, year_error}
use obvious.Planning.Service.{
  approving, create_strategic_plan, update_strategic_plan, approve_strategic_plan,
  activate_strategic_plan, archive_strategic_plan, create_annual_plan, update_annual_plan,
  approve_annual_plan, activate_annual_plan, archive_annual_plan, create_assurance_map,
  update_assurance_map, create_resource_calendar, update_resource_calendar,
}
use obvious.Planning.Keeping.{
  transition-Keeping, patch-Keeping, strategic_activate-same, strategic_archive-same,
  annual_approve-same, annual_activate-same, annual_archive-same, approving-Keeping,
}
use obvious.Planning.Actions.{
  Action, strategic_create, strategic_update, strategic_approve, strategic_activate,
  strategic_archive, annual_create, annual_update, annual_approve, annual_activate, annual_archive,
  map_create, map_update, calendar_create, calendar_update, acting, perform, perform_all,
}
use obvious.Planning.Safe.{Asked, Safe, same-Safe, modify-Safe, make-Safe}

-- Every row of every store lies under its ID.
abbrev pub Good : Stores → Type 0
Good st =
    strategic_lawful.Good st.strategic_plans
    × annual_lawful.Good st.annual_plans
    × map_lawful.Good st.assurance_maps
    × calendar_lawful.Good st.resource_calendars

-- An organisation reads the same from two bundles, whatever the ID.
abbrev pub SameReads : ℕ → Stores → Stores → Type 0
SameReads other st' st =
    (i : ℕ)
    → (strategic_repository.read st'.strategic_plans other i
        ≡ strategic_repository.read st.strategic_plans other i)
      × (annual_repository.read st'.annual_plans other i
          ≡ annual_repository.read st.annual_plans other i)
      × (map_repository.read st'.assurance_maps other i
          ≡ map_repository.read st.assurance_maps other i)
      × (calendar_repository.read st'.resource_calendars other i
          ≡ calendar_repository.read st.resource_calendars other i)

module _ (parse : String → Option ℕ) where
  -- Every action is safe for each store.
  perform-Safe :
      (c : Action) (st : Stores)
      → Safe strategic_repository strategic_lawful parse
          (acting c)
          st.strategic_plans
          (perform parse c st).strategic_plans
        × Safe annual_repository annual_lawful parse
            (acting c)
            st.annual_plans
            (perform parse c st).annual_plans
        × Safe map_repository map_lawful parse
            (acting c)
            st.assurance_maps
            (perform parse c st).assurance_maps
        × Safe calendar_repository calendar_lawful parse
            (acting c)
            st.resource_calendars
            (perform parse c st).resource_calendars
  unfolding perform Strategic.apply Annual.apply apply_update Calendar.apply create_strategic_plan
      update_strategic_plan approve_strategic_plan activate_strategic_plan archive_strategic_plan
      create_annual_plan update_annual_plan approve_annual_plan activate_annual_plan
      archive_annual_plan create_assurance_map update_assurance_map create_resource_calendar
      update_resource_calendar
  perform-Safe (strategic_create fresh id now body) st = (
    make-Safe strategic_repository strategic_lawful parse server_error st.strategic_plans body
        (Strategic.new_strategic_plan fresh id now),
    same-Safe annual_repository annual_lawful parse _ _,
    same-Safe map_repository map_lawful parse _ _,
    same-Safe calendar_repository calendar_lawful parse _ _,
  )
  perform-Safe (strategic_update fresh now req body) st = (
    modify-Safe strategic_repository strategic_lawful parse "strategic plan not found" req
        (patch body (Strategic.apply fresh now)) st.strategic_plans
        (patch-Keeping strategic_repository body (Strategic.apply fresh now) (λ r p. (refl, refl))),
    same-Safe annual_repository annual_lawful parse _ _,
    same-Safe map_repository map_lawful parse _ _,
    same-Safe calendar_repository calendar_lawful parse _ _,
  )
  perform-Safe (strategic_approve now req body) st = (
    modify-Safe strategic_repository strategic_lawful parse "strategic plan not found" req
        (approving now body) st.strategic_plans (approving-Keeping now body),
    same-Safe annual_repository annual_lawful parse _ _,
    same-Safe map_repository map_lawful parse _ _,
    same-Safe calendar_repository calendar_lawful parse _ _,
  )
  perform-Safe (strategic_activate now req) st = (
    modify-Safe strategic_repository strategic_lawful parse "strategic plan not found" req
        (λ p. transition (Strategic.activate now p)) st.strategic_plans
        (transition-Keeping strategic_repository (Strategic.activate now)
          (strategic_activate-same now)),
    same-Safe annual_repository annual_lawful parse _ _,
    same-Safe map_repository map_lawful parse _ _,
    same-Safe calendar_repository calendar_lawful parse _ _,
  )
  perform-Safe (strategic_archive now req) st = (
    modify-Safe strategic_repository strategic_lawful parse "strategic plan not found" req
        (λ p. transition (Strategic.archive now p)) st.strategic_plans
        (transition-Keeping strategic_repository (Strategic.archive now)
          (strategic_archive-same now)),
    same-Safe annual_repository annual_lawful parse _ _,
    same-Safe map_repository map_lawful parse _ _,
    same-Safe calendar_repository calendar_lawful parse _ _,
  )
  perform-Safe (annual_create fresh id now body) st = (
    same-Safe strategic_repository strategic_lawful parse _ _,
    make-Safe annual_repository annual_lawful parse year_error st.annual_plans body
        (Annual.new_annual_plan fresh id now),
    same-Safe map_repository map_lawful parse _ _,
    same-Safe calendar_repository calendar_lawful parse _ _,
  )
  perform-Safe (annual_update fresh now req body) st = (
    same-Safe strategic_repository strategic_lawful parse _ _,
    modify-Safe annual_repository annual_lawful parse "annual plan not found" req
        (patch body (Annual.apply fresh now)) st.annual_plans
        (patch-Keeping annual_repository body (Annual.apply fresh now) (λ r p. (refl, refl))),
    same-Safe map_repository map_lawful parse _ _,
    same-Safe calendar_repository calendar_lawful parse _ _,
  )
  perform-Safe (annual_approve now req approval) st = (
    same-Safe strategic_repository strategic_lawful parse _ _,
    modify-Safe annual_repository annual_lawful parse "annual plan not found" req
        (λ p. transition (Annual.approve now approval p)) st.annual_plans
        (transition-Keeping annual_repository (Annual.approve now approval)
          (annual_approve-same now approval)),
    same-Safe map_repository map_lawful parse _ _,
    same-Safe calendar_repository calendar_lawful parse _ _,
  )
  perform-Safe (annual_activate now req) st = (
    same-Safe strategic_repository strategic_lawful parse _ _,
    modify-Safe annual_repository annual_lawful parse "annual plan not found" req
        (λ p. transition (Annual.activate now p)) st.annual_plans
        (transition-Keeping annual_repository (Annual.activate now) (annual_activate-same now)),
    same-Safe map_repository map_lawful parse _ _,
    same-Safe calendar_repository calendar_lawful parse _ _,
  )
  perform-Safe (annual_archive now req) st = (
    same-Safe strategic_repository strategic_lawful parse _ _,
    modify-Safe annual_repository annual_lawful parse "annual plan not found" req
        (λ p. transition (Annual.archive now p)) st.annual_plans
        (transition-Keeping annual_repository (Annual.archive now) (annual_archive-same now)),
    same-Safe map_repository map_lawful parse _ _,
    same-Safe calendar_repository calendar_lawful parse _ _,
  )
  perform-Safe (map_create id now body) st = (
    same-Safe strategic_repository strategic_lawful parse _ _,
    same-Safe annual_repository annual_lawful parse _ _,
    make-Safe map_repository map_lawful parse server_error st.assurance_maps body
        (new_assurance_map id now),
    same-Safe calendar_repository calendar_lawful parse _ _,
  )
  perform-Safe (map_update now req body) st = (
    same-Safe strategic_repository strategic_lawful parse _ _,
    same-Safe annual_repository annual_lawful parse _ _,
    modify-Safe map_repository map_lawful parse "assurance map not found" req
        (patch body (apply_update now)) st.assurance_maps
        (patch-Keeping map_repository body (apply_update now) (λ r p. (refl, refl))),
    same-Safe calendar_repository calendar_lawful parse _ _,
  )
  perform-Safe (calendar_create fresh fresh_in id now body) st = (
    same-Safe strategic_repository strategic_lawful parse _ _,
    same-Safe annual_repository annual_lawful parse _ _,
    same-Safe map_repository map_lawful parse _ _,
    make-Safe calendar_repository calendar_lawful parse server_error st.resource_calendars body
        (Calendar.new_resource_calendar fresh fresh_in id now),
  )
  perform-Safe (calendar_update now req body) st = (
    same-Safe strategic_repository strategic_lawful parse _ _,
    same-Safe annual_repository annual_lawful parse _ _,
    same-Safe map_repository map_lawful parse _ _,
    modify-Safe calendar_repository calendar_lawful parse "resource calendar not found" req
        (patch body (Calendar.apply now)) st.resource_calendars
        (patch-Keeping calendar_repository body (Calendar.apply now) (λ r p. (refl, refl))),
  )

  perform-Good : (c : Action) (st : Stores) → Good st → Good (perform parse c st)
  perform-Good c st g =
      let safe = perform-Safe c st in
      (safe.0.stays g.0, safe.1.stays g.1, safe.2.stays g.2, safe.3.stays g.3)

  actions-Good : (cs : List Action) (st : Stores) → Good st → Good (perform_all parse cs st)
  unfolding perform_all
  actions-Good [] st g = g
  actions-Good (c ∷ cs) st g = actions-Good cs (perform parse c st) (perform-Good c st g)

  new-Good : Good new
  unfolding Table.get new_annual_plan_store
  new-Good = ((λ k p e. cc), (λ k p e. cc), (λ k p e. cc), λ k p e. cc)

-- After any actions from the empty stores, an update, an approval, an activation or an archiving
-- under the organisation that its request names, whether it succeeds or is refused, changes nothing
-- that another organisation can read by an ID from any of the four stores.
pub performed_unseen :
    (parse : String → Option ℕ) (cs : List Action) (c : Action) (org other : ℕ)
    → Asked parse (acting c) org
    → other ≢ org
    → SameReads other (perform parse c (perform_all parse cs new)) (perform_all parse cs new)
performed_unseen parse cs c org other asked differ i =
    let st = perform_all parse cs new in
    let g = actions-Good parse cs new (new-Good parse) in
    let safe = perform-Safe parse c st in
    (
      safe.0.unseen g.0 org other i asked differ,
      safe.1.unseen g.1 org other i asked differ,
      safe.2.unseen g.2 org other i asked differ,
      safe.3.unseen g.3 org other i asked differ,
    )
