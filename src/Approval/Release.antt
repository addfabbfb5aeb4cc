-- ===== src/Approval/Release.antt =====
-- What must have been asked before a report release is locked: the password gate of `Lock` in
-- services/approval/internal/domain/workflow.go, seen from the requests.
use obvious.Base.{ℕ, ◌≡◌, ◌∙◌, ◌≢◌, ◌⊎◌, inl, inr, List, [], ◌∷◌, arith, str_eq_iff}
use obvious.Approval.Types.{
  report_release, locked, engagement_lead, chief_audit_executive, Workflow, CreateWorkflowRequest,
}
use obvious.Approval.Workflow.{
  Request, submitting, approving, locking, rejecting, returning, new_workflow, step, run,
}

-- A lock request with a password, by a role that may release a report.
abbrev pub Releases : Request → Type 0
Releases (locking r) =
    ((r.actor_role ≡ engagement_lead) ⊎ (r.actor_role ≡ chief_audit_executive))
    × (r.password_confirm ≢ "")
Releases _ = ⊥

-- Some request of the list satisfies the predicate.
abbrev pub SomeRequest : (Request → Type 0) → List (ℕ × Request) → Type 0
SomeRequest P [] = ⊥
SomeRequest P ((now, r) ∷ rs) = P r ⊎ SomeRequest P rs

step-locks :
    (now : ℕ) (w : Workflow) (r : Request)
    → w.workflow_type ≡ report_release
    → (step now w r).0.status ≡ locked
    → (w.status ≡ locked) ⊎ Releases r
unfolding step
step-locks now w (submitting r) t h = ground arith
step-locks now w (approving r) t h = ground arith
step-locks now w (locking r) t h = ground (arith, str_eq_iff r.password_confirm "")
step-locks now w (rejecting r) t h = ground arith
step-locks now w (returning r) t h = ground arith

step-type :
    (now : ℕ) (w : Workflow) (r : Request) → (step now w r).0.workflow_type ≡ w.workflow_type
unfolding step
step-type now w (submitting r) = ground arith
step-type now w (approving r) = ground arith
step-type now w (locking r) = ground arith
step-type now w (rejecting r) = ground arith
step-type now w (returning r) = ground arith

run-locks :
    (w : Workflow) (rs : List (ℕ × Request))
    → w.workflow_type ≡ report_release
    → (run w rs).status ≡ locked
    → (w.status ≡ locked) ⊎ SomeRequest Releases rs
unfolding run
run-locks w [] t h = inl h
run-locks w ((now, r) ∷ rs) t h = elim (run-locks (step now w r).0 rs (step-type now w r ∙ t) h) [
  | inl before ↦ elim (step-locks now w r t before) [
    | inl already ↦ inl already
    | inr releases ↦ inr (inl releases)
  ]
  | inr later ↦ inr (inr later)
]

-- A new report-release workflow is locked, after any requests, only if one of them was a lock
-- request with a password that is not empty, by an engagement lead or the chief audit executive.
pub release_needs_password :
    (id now : ℕ) (req : CreateWorkflowRequest) (rs : List (ℕ × Request))
    → req.workflow_type ≡ report_release
    → (run (new_workflow id now req) rs).status ≡ locked
    → SomeRequest Releases rs
unfolding new_workflow
release_needs_password id now req rs t h = elim (run-locks (new_workflow id now req) rs t h) [
  | inl never ↦ cc
  | inr asked ↦ asked
]
