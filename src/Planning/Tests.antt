-- ===== src/Planning/Tests.antt =====
-- The theorems on annual plans and assurance maps at one organisation that plans 2026.
use obvious.Base.Int.{pos, negsuc}
use obvious.Base.Int64
use obvious.Planning.Stores.{new}
use obvious.Planning.Handler.{Request, decoded}
use obvious.Planning.Actions.{
  Action, strategic_create, strategic_approve, strategic_activate, perform, perform_all,
}
use obvious.Planning.Isolation.{SameReads, performed_unseen}
use obvious.Planning.Approvers.{Signed, perform_all-Signed}
use obvious.Planning.Calendar.{AuditorAllocation, utilisation_pct}
use obvious.Planning.Utilisation.{sum, utilisation_exact}
use obvious.Planning.Assurance.{
  AssuranceMap, CreateAssuranceMapRequest, initial_matrix, empty_cell, new_assurance_map,
  new_assurance_map_complete,
}
use obvious.Base.{
  Option, All, str_eq, if◌then◌else◌, ◌/◌, ◌<◌, ◌≤◌, ◌↔◌, String, length, get_elem?, ◌*◌, some, ℕ,
  ◌≡◌, refl, none, some, List, [], ◌∷◌, arith, ◌+◌,
}
use obvious.Base.Json.{end}
use obvious.Base.Table
use obvious.Planning.Annual.{
  draft, AnnualPlan, CreateAnnualPlanRequest, UpdateAnnualPlanRequest, archive, apply,
}
use obvious.Planning.Store.{AnnualPlanStore, new_annual_plan_store, create, update}
use obvious.Planning.Store
use obvious.Planning.Uniqueness.{OneOpen}
use obvious.Planning.Calls.{
  Call, create_call, approve_call, archive_call, serve_all, serve_all-OneOpen, stale_update_reopens,
}

abbrev fresh : ℕ → ℕ
fresh i = 100 + i

abbrev request : CreateAnnualPlanRequest
request = record {
  org_id = 3;
  strategic_plan_id = none;
  year = 2026;
  name = "Plan";
  engagements = [];
  metadata = none;
}

abbrev calls : List (ℕ × Call)
calls =
    (1, create_call fresh 7 request)
    ∷ (2, create_call fresh 8 request)
    ∷ (3, approve_call 3 7 none)
    ∷ (4, archive_call 3 7)
    ∷ (5, create_call fresh 9 request)
    ∷ []

serve_all-OneOpen_example : OneOpen (serve_all new_annual_plan_store calls)
serve_all-OneOpen_example = serve_all-OneOpen calls

abbrev plan : ℕ → AnnualPlan
plan id = record {
  id = id;
  org_id = 3;
  strategic_plan_id = none;
  year = 2026;
  name = "Plan";
  status = draft;
  version = 1;
  engagements = [];
  approval_id = none;
  metadata = end;
  created_at = 1;
  updated_at = 1;
}

abbrev one : AnnualPlanStore
one = record { entries = (7, plan 7) ∷ [] }

one-OneOpen : OneOpen one
unfolding Table.get
one-OneOpen = record {
  keyed = λ k p found. ground arith;
  unique = λ j k p q at_j at_k open_p open_q org year. ground arith;
}

abbrev rename : UpdateAnnualPlanRequest
rename = record { name = some "Plan 2"; engagements = none; metadata = none }

stale_update_reopens_example :
    ¬ OneOpen
      (update
        (create (update one (archive 4 (plan 7)).0).0 (plan 8)).0
        (apply fresh 4 rename (plan 7))).0
unfolding Store.get Table.get create update archive Table.put Table.values
stale_update_reopens_example =
    stale_update_reopens one (plan 7) (plan 8) 4 fresh rename one-OneOpen refl refl refl refl refl
      (omega arith) refl

abbrev map_request : CreateAssuranceMapRequest
map_request = record {
  org_id = 3;
  annual_plan_id = none;
  year = pos 2026;
  name = "Coverage";
  business_units = "Sales" ∷ "IT" ∷ [];
  control_domains = "Access" ∷ "Change" ∷ "Backup" ∷ [];
  matrix = none;
  metadata = none;
}

abbrev new_map : AssuranceMap
new_map = record {
  id = 5;
  org_id = 3;
  annual_plan_id = none;
  year = pos 2026;
  name = "Coverage";
  business_units = map_request.business_units;
  control_domains = map_request.control_domains;
  matrix = initial_matrix map_request.business_units map_request.control_domains;
  metadata = end;
  created_at = 1;
  updated_at = 1;
}

new_assurance_map_complete_example :
    (length new_map.matrix ≡ 2 * 3)
    × ((i j : ℕ) (bu cd : String)
        → get_elem? map_request.business_units i ≡ some bu
        → get_elem? map_request.control_domains j ≡ some cd
        → get_elem? new_map.matrix (i * 3 + j) ≡ some (empty_cell bu cd))
unfolding new_assurance_map
new_assurance_map_complete_example = new_assurance_map_complete 5 1 map_request new_map refl refl

abbrev parse : String → Option ℕ
parse s = if str_eq s "org 3" then some 3 else if str_eq s "plan 7" then some 7 else none

abbrev asking : Request
asking = record { header = "org 3"; query = ""; id = "plan 7" }

abbrev actions : List Action
actions =
    strategic_create fresh 7 1 (
      decoded (record {
        org_id = 3;
        name = "Plan";
        description = "";
        start_year = pos 2026;
        end_year = pos 2028;
        entities = [];
        metadata = none;
      }))
    ∷ strategic_approve 2 asking (decoded (record { approved_by = "ada"; approval_id = none }))
    ∷ []

performed_unseen_example :
    SameReads 4
      (perform parse (strategic_activate 3 asking) (perform_all parse actions new))
      (perform_all parse actions new)
performed_unseen_example =
    performed_unseen parse actions (strategic_activate 3 asking) 3 4 refl (λ e. omega (arith, e))

perform_all-Signed_example :
    All Signed (Table.values (perform_all parse actions new).strategic_plans)
perform_all-Signed_example = perform_all-Signed parse actions

abbrev auditor : AuditorAllocation
auditor = record {
  auditor_id = 1;
  auditor_name = "Ada";
  auditor_email = "ada@acme.example";
  role = "auditor";
  available_days = pos 200;
  assignments =
      record {
        id = 1;
        engagement_name = "Payroll";
        start_date = "";
        end_date = "";
        allocated_days = pos 50;
        quarter = pos 1;
      }
      ∷ [];
}

utilisation_exact_example :
    (sum (50 ∷ []) < 200 → utilisation_pct auditor ≡ pos (sum (50 ∷ []) * 100 / 200))
    × ((utilisation_pct auditor ≡ pos 100) ↔ (200 ≤ sum (50 ∷ [])))
utilisation_exact_example = utilisation_exact auditor 199 (50 ∷ []) refl refl (omega arith)

-- A negative number of available days gives a negative percentage.
negative_utilisation : utilisation_pct (record auditor { available_days = negsuc 99 }) ≡ negsuc 49
unfolding utilisation_pct Int64.div Int64.mul Int64.add
negative_utilisation = refl
