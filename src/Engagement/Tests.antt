-- ===== src/Engagement/Tests.antt =====
-- The engagement theorems at one engagement that enters fieldwork and is then cancelled.
use obvious.Base.{
  ℕ, ◌≤◌, ◌≡◌, refl, ◌↔◌, String, Option, none, some, List, [], ◌∷◌, true, false, length, str_eq,
  if◌then◌else◌, ◌==◌, arith,
}
use obvious.Base.Table
use obvious.Engagement.Lifecycle.{
  fieldwork, cancelled, err, ok, engagement_terminal, invalid_transition, Engagement,
  CreateEngagementRequest, UpdateEngagementRequest, TransitionRequest, new_engagement, transition,
  moved, event_of, is_terminal,
}
use obvious.Engagement.Timeline.{◌⟶◌, is_ok, transition_iff, Timeline, run, run-Timeline}
use obvious.Engagement.Store.{EngagementStore, Keeps}
use obvious.Engagement.Store
use obvious.Engagement.Handler.{bound, engagement_body, patched, load, update}
use obvious.Engagement.Service.{
  create_call, transition_call, serve_all, serve_all-Timeline, update_any_phase,
}

abbrev request : CreateEngagementRequest
request = record {
  org_id = 3;
  framework_id = 4;
  name = "Payroll";
  description = "";
  scope = none;
  lead_auditor_id = none;
  target_start_date = none;
  target_end_date = none;
}

abbrev begin : TransitionRequest
begin = record { to_phase = fieldwork; transitioned_by = 21; notes = "" }

abbrev cancel : TransitionRequest
cancel = record { to_phase = cancelled; transitioned_by = 21; notes = "out of scope" }

abbrev life : List (ℕ × ℕ × TransitionRequest)
life = (31, 2, begin) ∷ (32, 3, cancel) ∷ (33, 4, begin) ∷ []

run-Timeline_example :
    let e = run life (new_engagement 7 1 request) in Timeline e × (length e.phase_history ≤ 4)
run-Timeline_example = run-Timeline 7 1 request life

transition_iff_example :
    let e = new_engagement 7 1 request in
    ((e.phase ⟶ begin.to_phase) ↔ (is_ok (transition 31 2 e begin).1 ≡ true))
    × (e.phase ⟶ begin.to_phase
        → transition 31 2 e begin ≡ (moved 31 2 e begin, ok (event_of 31 2 e begin)))
    × (is_ok (transition 31 2 e begin).1 ≡ false
        → transition 31 2 e begin
          ≡ (e, err (if is_terminal e then engagement_terminal else invalid_transition)))
transition_iff_example = transition_iff 31 2 (new_engagement 7 1 request) begin

-- A parser that knows two IDs.
abbrev parse_uuid : String → Option ℕ
parse_uuid s = if str_eq s "org" then some 3 else if str_eq s "eng" then some 7 else none

serve_all-Timeline_example : Keeps Timeline (
    serve_all parse_uuid Store.new_engagement_store (
      (7, 1, create_call (bound request))
      ∷ (31, 2, transition_call "org" "eng" (bound begin))
      ∷ []))
serve_all-Timeline_example =
    serve_all-Timeline parse_uuid (
      (7, 1, create_call (bound request)) ∷ (31, 2, transition_call "org" "eng" (bound begin)) ∷ [])

-- A cancelled engagement.
abbrev ended : Engagement
ended = record (new_engagement 7 1 request) { phase = cancelled }

abbrev one : EngagementStore
one = record { entries = (7, ended) ∷ [] }

abbrev rename : UpdateEngagementRequest
rename = record {
  name = some "Payroll 2";
  description = none;
  scope = none;
  lead_auditor_id = none;
  target_start_date = none;
  target_end_date = none;
}

one-Keeps : Keeps (λ e. Unit {0}) one
unfolding Table.get new_engagement
one-Keeps = record { at = λ k e found. (ground arith, tt) }

update_any_phase_example :
    let after = update parse_uuid one "org" "eng" (bound rename) in
    (after.1 ≡ engagement_body 200 (patched rename ended))
    × ((j : ℕ)
        → Table.get after.0.entries j
          ≡ (if 7 == j then some (patched rename ended) else Table.get one.entries j))
unfolding load Table.get new_engagement Store.get
update_any_phase_example = update_any_phase parse_uuid one "org" "eng" rename ended one-Keeps refl
