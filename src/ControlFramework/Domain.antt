-- ===== src/ControlFramework/Domain.antt =====
-- Frameworks and assessments of services/control-framework/internal/domain/types.go. An ID is a
-- number and uuid.Nil is 0; a score is its text.
use obvious.Base.{ℕ, String, Bool, true, false, Option, List, [], ◌∷◌, any}
use obvious.Base.Json.{Fields}

-- `other_status` holds any other text.
pub data AssessmentStatus : Type 0 where
  not_started in_progress assessed remediation : AssessmentStatus
  other_status : String → AssessmentStatus

-- The equality of two statuses, of which one is not `other_status`.
abbrev pub same_status : AssessmentStatus → AssessmentStatus → Bool
same_status not_started not_started = true
same_status in_progress in_progress = true
same_status assessed assessed = true
same_status remediation remediation = true
same_status _ _ = false

-- The map's entry; a missing one has no successors.
abbrev pub valid_assessment_transitions : AssessmentStatus → List AssessmentStatus
valid_assessment_transitions not_started = in_progress ∷ []
valid_assessment_transitions in_progress = assessed ∷ remediation ∷ []
valid_assessment_transitions assessed = remediation ∷ in_progress ∷ []
valid_assessment_transitions remediation = in_progress ∷ assessed ∷ []
valid_assessment_transitions (other_status t) = []

unfoldable pub can_transition_to : AssessmentStatus → AssessmentStatus → Bool
can_transition_to s next = any (λ a. same_status a next) (valid_assessment_transitions s)

pub record Framework : Type 0 where
  pub id : ℕ
  pub org_id : ℕ
  pub name : String
  pub version : String
  pub authority : String
  pub description : String
  pub is_published : Bool
  pub metadata : Option Fields
  pub created_at : ℕ
  pub updated_at : ℕ

pub record CreateFrameworkRequest : Type 0 where
  pub name : String
  pub version : String
  pub authority : String
  pub description : String
  pub is_published : Bool
  pub metadata : Option Fields

pub record ControlAssessment : Type 0 where
  pub id : ℕ
  pub engagement_id : ℕ
  pub control_id : ℕ
  pub org_id : ℕ
  pub status : AssessmentStatus
  pub score : Option String
  pub notes : String
  pub evidence_ids : List ℕ
  pub transitioned_at : ℕ
  pub created_at : ℕ
  pub updated_at : ℕ

pub record AssessControlRequest : Type 0 where
  pub engagement_id : ℕ
  pub status : AssessmentStatus
  pub score : Option String
  pub notes : String
  pub evidence_ids : List ℕ
