-- ===== src/Approval/Diagram.antt =====
-- The transition diagram of services/approval/internal/domain/workflow.go, and who may take which
-- edge, against `step`.
use obvious.Base.{ℕ, ◌≡◌, ◌≢◌, ◌↔◌, ◌⊎◌, Bool, true, false, ◌∷◌, [], ◌++◌, arith, str_eq_iff}
use obvious.Approval.Types.{
  WorkflowType, audit_plan, finding_signoff, report_release, WorkflowStatus, draft,
  pending_approval, approved, locked, rejected, ApprovalRole, engagement_lead,
  chief_audit_executive, Error, Result, ok, err, HistoryEntry, Workflow,
}
use obvious.Approval.Workflow.{Request, submitting, approving, locking, rejecting, returning, step}

infix 40 ◌⟶◌
pub data ◌⟶◌ : WorkflowStatus → WorkflowStatus → Type 0 where
  first_submission : draft ⟶ pending_approval
  resubmission : rejected ⟶ pending_approval
  approval : pending_approval ⟶ approved
  rejection : pending_approval ⟶ rejected
  sealing : approved ⟶ locked
  withdrawal : rejected ⟶ draft

-- The roles that may decide on each type of workflow.
abbrev pub MayDecide : WorkflowType → ApprovalRole → Type 0
MayDecide audit_plan role = role ≡ chief_audit_executive
MayDecide finding_signoff role = (role ≡ engagement_lead) ⊎ (role ≡ chief_audit_executive)
MayDecide report_release role = (role ≡ engagement_lead) ⊎ (role ≡ chief_audit_executive)
MayDecide _ role = ⊥

-- When a request is in order.
abbrev pub Permitted : Workflow → Request → Type 0
Permitted w (submitting r) =
    ((w.status ≡ draft) ⊎ (w.status ≡ rejected)) × (r.actor_role ≡ engagement_lead)
Permitted w (approving r) = (w.status ≡ pending_approval) × MayDecide w.workflow_type r.actor_role
Permitted w (locking r) =
    (w.status ≡ approved)
    × MayDecide w.workflow_type r.actor_role
    × (w.workflow_type ≡ report_release → r.password_confirm ≢ "")
Permitted w (rejecting r) =
    (w.status ≡ pending_approval)
    × MayDecide w.workflow_type r.actor_role
    × (r.rejection_reason ≢ "")
Permitted w (returning r) = (w.status ≡ rejected) × (r.actor_role ≡ engagement_lead)

abbrev pub is_ok {ℓ} : {A : Type ℓ} → Result A → Bool
is_ok (ok _) = true
is_ok (err _) = false

accepted-Permitted :
    (now : ℕ) (w : Workflow) (r : Request) → is_ok (step now w r).1 ≡ true → Permitted w r
unfolding step
accepted-Permitted now w (submitting r) h = ground arith
accepted-Permitted now w (approving r) h = ground arith
accepted-Permitted now w (locking r) h = ground (arith, str_eq_iff r.password_confirm "")
accepted-Permitted now w (rejecting r) h = ground (arith, str_eq_iff r.rejection_reason "")
accepted-Permitted now w (returning r) h = ground arith

Permitted-accepted :
    (now : ℕ) (w : Workflow) (r : Request) → Permitted w r → is_ok (step now w r).1 ≡ true
unfolding step
Permitted-accepted now w (submitting r) h = ground arith
Permitted-accepted now w (approving r) h = ground arith
Permitted-accepted now w (locking r) h = ground (arith, str_eq_iff r.password_confirm "")
Permitted-accepted now w (rejecting r) h = ground (arith, str_eq_iff r.rejection_reason "")
Permitted-accepted now w (returning r) h = ground arith

-- A request is accepted exactly when the status, the actor's role and the texts permit it. A lock is
-- permitted for every type of workflow, and needs a password for a report release alone.
pub step_accepts_iff :
    (now : ℕ) (w : Workflow) (r : Request) → (is_ok (step now w r).1 ≡ true) ↔ Permitted w r
step_accepts_iff now w r = (accepted-Permitted now w r, Permitted-accepted now w r)

-- Who may sign a history entry that leads to a status.
abbrev pub MaySign : WorkflowType → WorkflowStatus → ApprovalRole → Type 0
MaySign wt draft role = role ≡ engagement_lead
MaySign wt pending_approval role = role ≡ engagement_lead
MaySign wt _ role = MayDecide wt role

-- The workflow moves along one edge, and its history gains the entry that says so.
pub record Moves (w w' : Workflow) (e : HistoryEntry) : Type 0 where
  pub edge : w.status ⟶ w'.status
  pub from : e.from_status ≡ w.status
  pub to : e.to_status ≡ w'.status
  pub appended : w'.history ≡ w.history ++ e ∷ []
  pub signed : MaySign w.workflow_type e.to_status e.actor_role
  pub names_workflow : e.workflow_id ≡ w.id
  pub names_org : e.org_id ≡ w.org_id
  pub same_id : w'.id ≡ w.id
  pub same_org : w'.org_id ≡ w.org_id
  pub same_type : w'.workflow_type ≡ w.workflow_type

ruleset edges = (first_submission, resubmission, approval, rejection, sealing, withdrawal)

-- An accepted request moves the workflow along an edge of the diagram and appends one entry, which
-- names the workflow, its organisation and the two statuses, and is signed by a role that may.
pub step-Moves :
    (now : ℕ) (w : Workflow) (r : Request) {e : HistoryEntry}
    → (step now w r).1 ≡ ok e
    → Moves w (step now w r).0 e
unfolding step
step-Moves now w (submitting r) h = grind (arith, edges)
step-Moves now w (approving r) h = grind (arith, edges)
step-Moves now w (locking r) h = grind (arith, edges)
step-Moves now w (rejecting r) h = grind (arith, edges)
step-Moves now w (returning r) h = grind (arith, edges)

-- A refused request leaves the workflow as it was.
pub step_error_unchanged :
    (now : ℕ) (w : Workflow) (r : Request) {x : Error}
    → (step now w r).1 ≡ err x
    → (step now w r).0 ≡ w
unfolding step
step_error_unchanged now w (submitting r) h = ground arith
step_error_unchanged now w (approving r) h = ground arith
step_error_unchanged now w (locking r) h = ground arith
step_error_unchanged now w (rejecting r) h = ground arith
step_error_unchanged now w (returning r) h = ground arith
