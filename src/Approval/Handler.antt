-- ===== src/Approval/Handler.antt =====
-- services/approval/internal/handler/handler.go: each handler takes the store to a new store and
-- a response. The UUID parser, what a decoder makes of a body, the time and the fresh ID are
-- arguments.
pub mod Serving
use obvious.Base.{
  ℕ, String, Option, none, some, List, length, if◌then◌else◌, ◌==◌, str_eq, ◌||◌, Bool, false,
}
use obvious.Approval.Types.{
  WorkflowType, other_type, Error, workflow_not_found, invalid_transition, unauthorized_role,
  workflow_locked, password_required, reason_required, Result, ok, err, HistoryEntry, Workflow,
  CreateWorkflowRequest, SubmitRequest, ApproveRequest, RejectRequest, LockRequest,
}
use obvious.Approval.Workflow.{
  Request, submitting, approving, locking, rejecting, returning, new_workflow, step,
}
use obvious.Approval.Store.{Store}
use obvious.Approval.Store

-- What `json.NewDecoder(r.Body).Decode` gives: the request, or the decoder's message.
pub data Body {ℓ} (A : Type ℓ) : Type ℓ where
  decoded : A → Body A
  malformed : String → Body A

-- `jsonError` with status, code and message, or `jsonResponse` with a status and one of the bodies.
pub data Response : Type 0 where
  failure : ℕ → String → String → Response
  workflow_body : ℕ → Workflow → Response
  moved_body : ℕ → Workflow → HistoryEntry → Response
  workflows_body : ℕ → List Workflow → ℕ → Response
  history_body : ℕ → List HistoryEntry → ℕ → Response

-- A value, or the response that was written before an early return.
pub data Checked {ℓ} (A : Type ℓ) : Type ℓ where
  pass : A → Checked A
  stop : Response → Checked A

infixl 5 ◌>>=◌
abbrev pub ◌>>=◌ {ℓ κ} : {A : Type ℓ} {B : Type κ} → Checked A → (A → Checked B) → Checked B
pass a >>= f = f a
stop r >>= f = stop r

-- `err.Error()` of the sentinel errors.
abbrev pub message : Error → String
message workflow_not_found = "approval workflow not found"
message invalid_transition = "invalid workflow state transition"
message unauthorized_role = "actor role is not authorised for this action"
message workflow_locked = "workflow is locked and cannot be modified"
message password_required = "password re-entry required for report release"
message reason_required = "rejection_reason is required"

abbrev pub transition_error : Error → Response
transition_error invalid_transition = failure 422 "INVALID_TRANSITION" (message invalid_transition)
transition_error unauthorized_role = failure 403 "FORBIDDEN" (message unauthorized_role)
transition_error workflow_locked = failure 409 "WORKFLOW_LOCKED" (message workflow_locked)
transition_error password_required = failure 422 "PASSWORD_REQUIRED" (message password_required)
transition_error e = failure 400 "INVALID_REQUEST" (message e)

abbrev pub load_error : Error → Response
load_error workflow_not_found = failure 404 "NOT_FOUND" "workflow not found"
load_error e = failure 500 "INTERNAL_ERROR" (message e)

abbrev pub is_empty_type : WorkflowType → Bool
is_empty_type (other_type t) = str_eq t ""
is_empty_type _ = false

abbrev pub parsed : String → Option ℕ → Checked ℕ
parsed problem none = stop (failure 400 "INVALID_REQUEST" problem)
parsed problem (some id) = pass id

abbrev pub loaded : Result Workflow → Checked Workflow
loaded (ok w) = pass w
loaded (err e) = stop (load_error e)

unfoldable pub report : Workflow → HistoryEntry → Store × Result (Unit {0}) → Store × Response
report w entry (s, ok _) = (s, moved_body 200 w entry)
report w entry (s, err e) = (s, failure 500 "INTERNAL_ERROR" (message e))

unfoldable pub save_and_respond : Store → Workflow → HistoryEntry → Store × Response
unfolding report
save_and_respond s w entry = report w entry (Store.update s w)

-- What follows the domain method: the error's response, or the update.
unfoldable pub respond : Store → Workflow × Result HistoryEntry → Store × Response
unfolding save_and_respond
respond s (w, ok entry) = save_and_respond s w entry
respond s (w, err e) = (s, transition_error e)

-- Create, from the decoded body on.
unfoldable pub create_decoded : ℕ → ℕ → Store → CreateWorkflowRequest → Store × Response
create_decoded id now s req =
    if req.org_id == 0
    then (s, failure 400 "INVALID_REQUEST" "org_id is required")
    else if is_empty_type req.workflow_type
    then (s, failure 400 "INVALID_REQUEST" "workflow_type is required")
    else if str_eq req.resource_type "" || req.resource_id == 0
    then (s, failure 400 "INVALID_REQUEST" "resource_type and resource_id are required")
    else let w = new_workflow id now req in (Store.create s w, workflow_body 201 w)

unfoldable pub create : ℕ → ℕ → Store → Body CreateWorkflowRequest → Store × Response
unfolding create_decoded
create id now s (malformed problem) = (s, failure 400 "INVALID_REQUEST" problem)
create id now s (decoded req) = create_decoded id now s req

unfoldable pub transition_on {ℓ} :
    {A : Type ℓ} → (A → Request) → ℕ → Store → Body A → Checked Workflow → Store × Response
unfolding respond
transition_on wrap now s body (stop r) = (s, r)
transition_on wrap now s (malformed problem) (pass w) = (s, failure 400 "INVALID_REQUEST" problem)
transition_on wrap now s (decoded req) (pass w) = respond s (step now w (wrap req))

module _ (parse_uuid : String → Option ℕ) where
  unfoldable pub require_org_id : String → Checked ℕ
  require_org_id org =
      if str_eq org ""
      then stop (failure 400 "INVALID_REQUEST" "org_id query param required")
      else parsed "invalid org_id" (parse_uuid org)

  unfoldable pub load_workflow : Store → String → String → Checked Workflow
  unfolding require_org_id
  load_workflow s org raw_id = do
    org_id ← require_org_id org
    id ← parsed "invalid workflow id" (parse_uuid raw_id)
    loaded (Store.get s org_id id)

  -- The shape that the five transition handlers share.
  unfoldable pub transition :
      {A : Type 0} → (A → Request) → ℕ → Store → String → String → Body A → Store × Response
  unfolding load_workflow transition_on
  transition wrap now s org id body = transition_on wrap now s body (load_workflow s org id)

  unfoldable pub submit : ℕ → Store → String → String → Body SubmitRequest → Store × Response
  unfolding transition
  submit = transition submitting

  unfoldable pub approve : ℕ → Store → String → String → Body ApproveRequest → Store × Response
  unfolding transition
  approve = transition approving

  unfoldable pub reject : ℕ → Store → String → String → Body RejectRequest → Store × Response
  unfolding transition
  reject = transition rejecting

  unfoldable pub lock : ℕ → Store → String → String → Body LockRequest → Store × Response
  unfolding transition
  lock = transition locking

  unfoldable pub return_to_draft :
      ℕ → Store → String → String → Body SubmitRequest → Store × Response
  unfolding transition
  return_to_draft = transition returning

  unfoldable pub get : Store → String → String → Response
  unfolding load_workflow
  get s org id = elim (load_workflow s org id) [ stop r ↦ r | pass w ↦ workflow_body 200 w ]

  unfoldable pub history : Store → String → String → Response
  unfolding load_workflow
  history s org id = elim (load_workflow s org id) [
    | stop r ↦ r
    | pass w ↦ history_body 200 w.history (length w.history)
  ]

  abbrev resource_filter : String → Checked (Option ℕ)
  resource_filter raw =
      if str_eq raw ""
      then pass none
      else (do id ← parsed "invalid resource_id" (parse_uuid raw); pass (some id))

  unfoldable pub list : Store → String → String → String → Response
  unfolding require_org_id
  list s org resource_type resource_id =
      elim (do
        org_id ← require_org_id org
        resource ← resource_filter resource_id
        pass (Store.list s org_id resource_type resource)) [
          | stop r ↦ r
          | pass workflows ↦ workflows_body 200 workflows (length workflows)
        ]
