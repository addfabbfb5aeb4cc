-- ===== src/Approval/Workflow.antt =====
-- services/approval/internal/domain/workflow.go: the operations of a workflow. A method that
-- mutates its receiver returns the new workflow beside its result; `time.Now()` is an argument.
use obvious.Base.{ℕ, String, none, some, List, [], ◌∷◌, ◌++◌, str_eq, if◌then◌else◌, not, ◌&&◌}
use obvious.Approval.Types.{
  WorkflowStatus, draft, pending_approval, approved, locked, rejected, engagement_lead, Result, ok,
  err, invalid_transition, unauthorized_role, workflow_locked, password_required, reason_required,
  eq_role, eq_status, is_report_release, can_approve, ApprovalRole, HistoryEntry, Workflow,
  CreateWorkflowRequest, SubmitRequest, ApproveRequest, RejectRequest, LockRequest,
}

-- `id` is what `uuid.New()` gives.
unfoldable pub new_workflow : ℕ → ℕ → CreateWorkflowRequest → Workflow
new_workflow id now req = record {
  id = id;
  org_id = req.org_id;
  workflow_type = req.workflow_type;
  status = draft;
  resource_type = req.resource_type;
  resource_id = req.resource_id;
  engagement_id = req.engagement_id;
  submitted_by_id = none;
  submitted_by_email = "";
  submitted_at = none;
  decided_by_id = none;
  decided_by_email = "";
  decided_at = none;
  latest_comment = "";
  rejection_reason = "";
  history = [];
  metadata = req.metadata;
  created_at = now;
  updated_at = now;
}

-- Who acts, and the texts that `applyTransition` is given.
pub record Act : Type 0 where
  pub actor_id : ℕ
  pub actor_email : String
  pub actor_role : ApprovalRole
  pub comment : String
  pub rejection_reason : String

-- The `switch to` of `applyTransition`.
stamp : WorkflowStatus → ℕ → Act → Workflow → Workflow
stamp pending_approval now a w = record w {
  submitted_by_id = some a.actor_id;
  submitted_by_email = a.actor_email;
  submitted_at = some now;
}
stamp approved now a w = record w {
  decided_by_id = some a.actor_id;
  decided_by_email = a.actor_email;
  decided_at = some now;
}
stamp locked now a w = record w {
  decided_by_id = some a.actor_id;
  decided_by_email = a.actor_email;
  decided_at = some now;
}
stamp rejected now a w = record w {
  rejection_reason = a.rejection_reason;
  decided_by_id = some a.actor_id;
  decided_by_email = a.actor_email;
  decided_at = some now;
}
stamp draft now a w = record w { rejection_reason = "" }

entry_of : String → WorkflowStatus → WorkflowStatus → ℕ → Act → Workflow → HistoryEntry
entry_of action from to now a w = record {
  id = 0;
  workflow_id = w.id;
  org_id = w.org_id;
  actor_id = some a.actor_id;
  actor_email = a.actor_email;
  actor_role = a.actor_role;
  action = action;
  from_status = from;
  to_status = to;
  comment = a.comment;
  occurred_at = now;
}

unfoldable pub apply_transition :
    String → WorkflowStatus → WorkflowStatus → ℕ → Act → Workflow → Workflow × Result HistoryEntry
unfolding stamp entry_of
apply_transition action from to now a w =
    let entry = entry_of action from to now a w in
    let moved : Workflow = record w { status = to; latest_comment = a.comment; updated_at = now } in
    let stamped = stamp to now a moved in
    (record stamped { history = stamped.history ++ entry ∷ [] }, ok entry)

unfoldable pub submit : ℕ → Workflow → SubmitRequest → Workflow × Result HistoryEntry
unfolding apply_transition
submit now w req =
    if eq_status w.status locked
    then (w, err workflow_locked)
    else if not (eq_status w.status draft) && not (eq_status w.status rejected)
    then (w, err invalid_transition)
    else if not (eq_role req.actor_role engagement_lead)
    then (w, err unauthorized_role)
    else apply_transition "submitted" w.status pending_approval now
        (record {
          actor_id = req.actor_id;
          actor_email = req.actor_email;
          actor_role = req.actor_role;
          comment = req.comment;
          rejection_reason = "";
        })
        w

unfoldable pub approve : ℕ → Workflow → ApproveRequest → Workflow × Result HistoryEntry
unfolding apply_transition can_approve
approve now w req =
    if eq_status w.status locked
    then (w, err workflow_locked)
    else if not (eq_status w.status pending_approval)
    then (w, err invalid_transition)
    else if not (can_approve w.workflow_type req.actor_role)
    then (w, err unauthorized_role)
    else apply_transition "approved" w.status approved now
        (record {
          actor_id = req.actor_id;
          actor_email = req.actor_email;
          actor_role = req.actor_role;
          comment = req.comment;
          rejection_reason = "";
        })
        w

unfoldable pub lock : ℕ → Workflow → LockRequest → Workflow × Result HistoryEntry
unfolding apply_transition can_approve
lock now w req =
    if eq_status w.status locked
    then (w, err workflow_locked)
    else if not (eq_status w.status approved)
    then (w, err invalid_transition)
    else if not (can_approve w.workflow_type req.actor_role)
    then (w, err unauthorized_role)
    else if is_report_release w.workflow_type && str_eq req.password_confirm ""
    then (w, err password_required)
    else apply_transition "locked" w.status locked now
        (record {
          actor_id = req.actor_id;
          actor_email = req.actor_email;
          actor_role = req.actor_role;
          comment = req.comment;
          rejection_reason = "";
        })
        w

unfoldable pub reject : ℕ → Workflow → RejectRequest → Workflow × Result HistoryEntry
unfolding apply_transition can_approve
reject now w req =
    if eq_status w.status locked
    then (w, err workflow_locked)
    else if not (eq_status w.status pending_approval)
    then (w, err invalid_transition)
    else if not (can_approve w.workflow_type req.actor_role)
    then (w, err unauthorized_role)
    else if str_eq req.rejection_reason ""
    then (w, err reason_required)
    else apply_transition "rejected" w.status rejected now
        (record {
          actor_id = req.actor_id;
          actor_email = req.actor_email;
          actor_role = req.actor_role;
          comment = "";
          rejection_reason = req.rejection_reason;
        })
        w

unfoldable pub return_to_draft : ℕ → Workflow → SubmitRequest → Workflow × Result HistoryEntry
unfolding apply_transition
return_to_draft now w req =
    if not (eq_status w.status rejected)
    then (w, err invalid_transition)
    else if not (eq_role req.actor_role engagement_lead)
    then (w, err unauthorized_role)
    else apply_transition "returned_to_draft" w.status draft now
        (record {
          actor_id = req.actor_id;
          actor_email = req.actor_email;
          actor_role = req.actor_role;
          comment = req.comment;
          rejection_reason = "";
        })
        w

-- The five transition endpoints, as one type of requests.
pub data Request : Type 0 where
  submitting : SubmitRequest → Request
  approving : ApproveRequest → Request
  locking : LockRequest → Request
  rejecting : RejectRequest → Request
  returning : SubmitRequest → Request

unfoldable pub step : ℕ → Workflow → Request → Workflow × Result HistoryEntry
unfolding submit approve lock reject return_to_draft
step now w (submitting r) = submit now w r
step now w (approving r) = approve now w r
step now w (locking r) = lock now w r
step now w (rejecting r) = reject now w r
step now w (returning r) = return_to_draft now w r

-- Requests one after another, each with the time at which it is served.
unfoldable pub run : Workflow → List (ℕ × Request) → Workflow
unfolding step
run w [] = w
run w ((now, r) ∷ rest) = run (step now w r).0 rest
