-- ===== src/ControlFramework/Service.antt =====
-- services/control-framework/internal/service/service.go for frameworks and assessments. The errors
-- of the repository are arguments, and Sprintf's %q too.
use Prim.Native.String.{◌++◌ as concat}
use obvious.Base.{
  ℕ, String, Bool, true, false, not, ◌||◌, Option, none, some, [], if◌then◌else◌, ◌==◌, str_eq,
}
use obvious.ControlFramework.Domain.{
  AssessmentStatus, not_started, in_progress, assessed, remediation, other_status, same_status,
  can_transition_to, Framework, CreateFrameworkRequest, ControlAssessment, AssessControlRequest,
}
use obvious.ControlFramework.Repository
use obvious.ControlFramework.Repository.{Tables, get_or_create_assessment, update_assessment_status}

pub data Result {ℓ} (A : Type ℓ) : Type ℓ where
  ok : A → Result A
  err : String → Result A

-- A call of the repository, or its error.
abbrev pub persisted : {A : Type 0} → Tables → Option String → Tables × A → Tables × Result A
persisted t none (t', a) = (t', ok a)
persisted t (some problem) w = (t, err problem)

unfoldable pub create_framework :
    ℕ → ℕ → Option String → ℕ → CreateFrameworkRequest → Tables → Tables × Result Framework
create_framework id now failure org req t =
    if str_eq req.name ""
    then (t, err "name is required")
    else if str_eq req.version ""
    then (t, err "version is required")
    else if str_eq req.authority ""
    then (t, err "authority is required")
    else persisted t failure (Repository.create_framework id now org req t)

abbrev pub text_of : AssessmentStatus → String
text_of not_started = "not_started"
text_of in_progress = "in_progress"
text_of assessed = "assessed"
text_of remediation = "remediation"
text_of (other_status t) = t

abbrev pub is_known : AssessmentStatus → Bool
is_known (other_status t) = false
is_known s = true

-- The errors of GetOrCreateAssessment and of UpdateAssessmentStatus, if they fail.
pub record Failures : Type 0 where
  pub getting : Option String
  pub updating : Option String

module _ (quote : String → String) where
  abbrev invalid_status : AssessmentStatus → String
  invalid_status s = concat "invalid status " (
      concat (quote (text_of s)) ": must be one of not_started, in_progress, assessed, remediation")

  abbrev invalid_transition : AssessmentStatus → AssessmentStatus → String
  invalid_transition current next =
      concat "invalid transition: cannot move from "
        (concat (quote (text_of current)) (concat " to " (quote (text_of next))))

  abbrev pub updated :
      Tables
      → Option String
      → Tables × Option ControlAssessment
      → Tables × Result (Option ControlAssessment)
  updated t none (t', a) = (t', ok a)
  updated t (some problem) w = (t, err (concat "update assessment: " problem))

  -- AssessControl, from the current row on.
  abbrev pub transitioned :
      ℕ
      → Option String
      → AssessControlRequest
      → Tables × ControlAssessment
      → Tables × Result (Option ControlAssessment)
  transitioned now failure req (t, current) =
      if same_status current.status req.status || can_transition_to current.status req.status
      then updated t failure (update_assessment_status now current.id req t)
      else (t, err (invalid_transition current.status req.status))

  abbrev pub assessing :
      ℕ
      → Failures
      → AssessControlRequest
      → Tables
      → Option String
      → Tables × ControlAssessment
      → Tables × Result (Option ControlAssessment)
  assessing now failures req t none w = transitioned now failures.updating req w
  assessing now failures req t (some problem) w = (t, err (concat "get assessment: " problem))

  unfoldable pub assess_control :
      ℕ
      → ℕ
      → Failures
      → ℕ
      → ℕ
      → AssessControlRequest
      → Tables
      → Tables × Result (Option ControlAssessment)
  assess_control id now failures control org req t =
      if req.engagement_id == 0
      then (t, err "engagement_id is required")
      else if not (is_known req.status)
      then (t, err (invalid_status req.status))
      else assessing now failures req t failures.getting
          (get_or_create_assessment id now req.engagement_id control org t)

abbrev pub synthetic : ℕ → ℕ → ControlAssessment
synthetic engagement control = record {
  id = 0;
  engagement_id = engagement;
  control_id = control;
  org_id = 0;
  status = not_started;
  score = none;
  notes = "";
  evidence_ids = [];
  transitioned_at = 0;
  created_at = 0;
  updated_at = 0;
}

abbrev or_synthetic : ℕ → ℕ → Option ControlAssessment → ControlAssessment
or_synthetic engagement control none = synthetic engagement control
or_synthetic engagement control (some a) = a

abbrev assessment_or : ℕ → ℕ → Option ControlAssessment → Option String → Result ControlAssessment
assessment_or engagement control found none = ok (or_synthetic engagement control found)
assessment_or engagement control found (some problem) = err problem

unfoldable pub get_assessment : Option String → ℕ → ℕ → Tables → Result ControlAssessment
get_assessment failure engagement control t =
    assessment_or engagement control (Repository.get_assessment engagement control t) failure
