-- ===== src/Approval/Types.antt =====
-- services/approval/internal/domain/workflow.go: the types, and the roles that may approve.
-- A time is a number of nanoseconds, and a UUID a number, with `uuid.Nil` as 0.
use obvious.Base.{
  ◌≡◌, refl, ◌⊎◌, inl, inr, ℕ, String, Bool, true, false, Option, List, [], ◌∷◌, str_eq,
  if◌then◌else◌,
}
use obvious.Base.Json.{Fields}

-- `other_type` and `other_role` hold any other text that a client may send.
pub data WorkflowType : Type 0 where
  audit_plan finding_signoff report_release : WorkflowType
  other_type : String → WorkflowType

pub data WorkflowStatus : Type 0 where
  draft pending_approval approved locked rejected : WorkflowStatus

pub data ApprovalRole : Type 0 where
  engagement_lead chief_audit_executive reviewer : ApprovalRole
  other_role : String → ApprovalRole

pub data Error : Type 0 where
  workflow_not_found invalid_transition unauthorized_role workflow_locked : Error
  password_required reason_required : Error

pub data Result {ℓ} (A : Type ℓ) : Type ℓ where
  ok : A → Result A
  err : Error → Result A

pub Result-cases {ℓ} :
    {A : Type ℓ} (r : Result A) → ((a : A) × (r ≡ ok a)) ⊎ ((e : Error) × (r ≡ err e))
Result-cases (ok a) = inl (a, refl)
Result-cases (err e) = inr (e, refl)

-- `==` on roles and statuses.
abbrev pub eq_role : ApprovalRole → ApprovalRole → Bool
eq_role engagement_lead engagement_lead = true
eq_role chief_audit_executive chief_audit_executive = true
eq_role reviewer reviewer = true
eq_role (other_role a) (other_role b) = str_eq a b
eq_role _ _ = false

abbrev pub eq_status : WorkflowStatus → WorkflowStatus → Bool
eq_status draft draft = true
eq_status pending_approval pending_approval = true
eq_status approved approved = true
eq_status locked locked = true
eq_status rejected rejected = true
eq_status _ _ = false

abbrev pub is_report_release : WorkflowType → Bool
is_report_release report_release = true
is_report_release _ = false

-- A missing key of `allowedApprovers` gives the nil slice.
unfoldable pub allowed_approvers : WorkflowType → List ApprovalRole
allowed_approvers audit_plan = chief_audit_executive ∷ []
allowed_approvers finding_signoff = engagement_lead ∷ chief_audit_executive ∷ []
allowed_approvers report_release = engagement_lead ∷ chief_audit_executive ∷ []
allowed_approvers (other_type _) = []

has_role : List ApprovalRole → ApprovalRole → Bool
has_role [] role = false
has_role (r ∷ rs) role = if eq_role r role then true else has_role rs role

unfoldable pub can_approve : WorkflowType → ApprovalRole → Bool
unfolding has_role allowed_approvers
can_approve wt role = has_role (allowed_approvers wt) role

pub record HistoryEntry : Type 0 where
  pub id : ℕ
  pub workflow_id : ℕ
  pub org_id : ℕ
  pub actor_id : Option ℕ
  pub actor_email : String
  pub actor_role : ApprovalRole
  pub action : String
  pub from_status : WorkflowStatus
  pub to_status : WorkflowStatus
  pub comment : String
  pub occurred_at : ℕ

pub record Workflow : Type 0 where
  pub id : ℕ
  pub org_id : ℕ
  pub workflow_type : WorkflowType
  pub status : WorkflowStatus
  pub resource_type : String
  pub resource_id : ℕ
  pub engagement_id : Option ℕ
  pub submitted_by_id : Option ℕ
  pub submitted_by_email : String
  pub submitted_at : Option ℕ
  pub decided_by_id : Option ℕ
  pub decided_by_email : String
  pub decided_at : Option ℕ
  pub latest_comment : String
  pub rejection_reason : String
  pub history : List HistoryEntry
  pub metadata : Option Fields
  pub created_at : ℕ
  pub updated_at : ℕ

pub record CreateWorkflowRequest : Type 0 where
  pub org_id : ℕ
  pub workflow_type : WorkflowType
  pub resource_type : String
  pub resource_id : ℕ
  pub engagement_id : Option ℕ
  pub metadata : Option Fields

pub record SubmitRequest : Type 0 where
  pub actor_id : ℕ
  pub actor_email : String
  pub actor_role : ApprovalRole
  pub comment : String

pub record ApproveRequest : Type 0 where
  pub actor_id : ℕ
  pub actor_email : String
  pub actor_role : ApprovalRole
  pub comment : String
  pub password_confirm : String

pub record RejectRequest : Type 0 where
  pub actor_id : ℕ
  pub actor_email : String
  pub actor_role : ApprovalRole
  pub rejection_reason : String

pub record LockRequest : Type 0 where
  pub actor_id : ℕ
  pub actor_email : String
  pub actor_role : ApprovalRole
  pub password_confirm : String
  pub comment : String
