-- ===== src/Engagement/Lifecycle.antt =====
-- services/engagement/internal/domain/engagement.go. A method that changes the engagement takes it
-- to a new one and the result; the time and the fresh ID are arguments.
use obvious.Base.{
  ℕ, String, Bool, true, false, ◌||◌, Option, none, some, List, [], ◌∷◌, ◌++◌, str_eq,
  if◌then◌else◌, is_some, not, ◌&&◌,
}
use obvious.Base.Json.{Fields, end}

-- The constructor `other_phase` holds any other text that a client may send.
pub data Phase : Type 0 where
  planning fieldwork reporting monitoring completed cancelled : Phase
  other_phase : String → Phase

abbrev pub eq_phase : Phase → Phase → Bool
eq_phase planning planning = true
eq_phase fieldwork fieldwork = true
eq_phase reporting reporting = true
eq_phase monitoring monitoring = true
eq_phase completed completed = true
eq_phase cancelled cancelled = true
eq_phase (other_phase a) (other_phase b) = str_eq a b
eq_phase _ _ = false

-- A missing key gives the nil slice.
unfoldable pub valid_transitions : Phase → List Phase
valid_transitions planning = fieldwork ∷ cancelled ∷ []
valid_transitions fieldwork = reporting ∷ cancelled ∷ []
valid_transitions reporting = monitoring ∷ cancelled ∷ []
valid_transitions monitoring = completed ∷ cancelled ∷ []
valid_transitions completed = []
valid_transitions cancelled = []
valid_transitions (other_phase _) = []

pub data Error : Type 0 where
  invalid_transition engagement_not_found engagement_terminal : Error

pub data Result {ℓ} (A : Type ℓ) : Type ℓ where
  ok : A → Result A
  err : Error → Result A

pub record PhaseEvent : Type 0 where
  pub id : ℕ
  pub engagement_id : ℕ
  pub from_phase : Phase
  pub to_phase : Phase
  pub transitioned_by : ℕ
  pub notes : String
  pub transitioned_at : ℕ

pub record Engagement : Type 0 where
  pub id : ℕ
  pub org_id : ℕ
  pub framework_id : ℕ
  pub name : String
  pub description : String
  pub phase : Phase
  pub scope : Fields
  pub lead_auditor_id : Option ℕ
  pub target_start_date : Option ℕ
  pub target_end_date : Option ℕ
  pub actual_start_date : Option ℕ
  pub actual_end_date : Option ℕ
  pub phase_history : List PhaseEvent
  pub metadata : Fields
  pub created_at : ℕ
  pub updated_at : ℕ

pub record CreateEngagementRequest : Type 0 where
  pub org_id : ℕ
  pub framework_id : ℕ
  pub name : String
  pub description : String
  pub scope : Option Fields
  pub lead_auditor_id : Option ℕ
  pub target_start_date : Option ℕ
  pub target_end_date : Option ℕ

pub record UpdateEngagementRequest : Type 0 where
  pub name : Option String
  pub description : Option String
  pub scope : Option Fields
  pub lead_auditor_id : Option ℕ
  pub target_start_date : Option ℕ
  pub target_end_date : Option ℕ

pub record TransitionRequest : Type 0 where
  pub to_phase : Phase
  pub transitioned_by : ℕ
  pub notes : String

has_phase : List Phase → Phase → Bool
has_phase [] to = false
has_phase (p ∷ ps) to = if eq_phase p to then true else has_phase ps to

unfoldable pub can_transition : Engagement → Phase → Bool
unfolding has_phase valid_transitions
can_transition e to = has_phase (valid_transitions e.phase) to

abbrev pub is_terminal : Engagement → Bool
is_terminal e = eq_phase e.phase completed || eq_phase e.phase cancelled

-- `if condition && date == nil { date = &now }`
abbrev dated : Bool → Option ℕ → ℕ → Option ℕ
dated condition date now = if condition && not (is_some date) then some now else date

abbrev pub event_of : ℕ → ℕ → Engagement → TransitionRequest → PhaseEvent
event_of id now e req = record {
  id = id;
  engagement_id = e.id;
  from_phase = e.phase;
  to_phase = req.to_phase;
  transitioned_by = req.transitioned_by;
  notes = req.notes;
  transitioned_at = now;
}

abbrev pub moved : ℕ → ℕ → Engagement → TransitionRequest → Engagement
moved id now e req = record e {
  phase = req.to_phase;
  updated_at = now;
  actual_start_date = dated (eq_phase req.to_phase fieldwork) e.actual_start_date now;
  actual_end_date =
      dated (eq_phase req.to_phase completed || eq_phase req.to_phase cancelled) e.actual_end_date
        now;
  phase_history = e.phase_history ++ event_of id now e req ∷ [];
}

unfoldable pub transition : ℕ → ℕ → Engagement → TransitionRequest → Engagement × Result PhaseEvent
unfolding can_transition
transition id now e req =
    if is_terminal e
    then (e, err engagement_terminal)
    else if can_transition e req.to_phase
    then (moved id now e req, ok (event_of id now e req))
    else (e, err invalid_transition)

abbrev or_empty : Option Fields → Fields
or_empty none = end
or_empty (some m) = m

unfoldable pub new_engagement : ℕ → ℕ → CreateEngagementRequest → Engagement
new_engagement id now req = record {
  id = id;
  org_id = req.org_id;
  framework_id = req.framework_id;
  name = req.name;
  description = req.description;
  phase = planning;
  scope = or_empty req.scope;
  lead_auditor_id = req.lead_auditor_id;
  target_start_date = req.target_start_date;
  target_end_date = req.target_end_date;
  actual_start_date = none;
  actual_end_date = none;
  phase_history = [];
  metadata = end;
  created_at = now;
  updated_at = now;
}

unfoldable pub allowed_next_phases : Engagement → List Phase
unfolding valid_transitions
allowed_next_phases e = valid_transitions e.phase
