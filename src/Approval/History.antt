-- ===== src/Approval/History.antt =====
-- What the history of a workflow says, after any requests: the `History` field of
-- services/approval/internal/domain/workflow.go is a signed path through the diagram.
use mathlib.Core.Path.{subst, subst₂, subst₃}
use obvious.Base.{
  ℕ, ◌≡◌, refl, sym, ap, ◌∙◌, inl, inr, true, Bool, ◌||◌, List, [], ◌∷◌, ◌++◌, arith, any, All,
  All-append,
}
use obvious.Approval.Types.{
  WorkflowStatus, draft, pending_approval, approved, locked, rejected, eq_status, HistoryEntry,
  Workflow, CreateWorkflowRequest, Result-cases,
}
use obvious.Approval.Workflow.{
  Request, submitting, approving, locking, rejecting, returning, new_workflow, step, run,
}
use obvious.Approval.Diagram.{
  ◌⟶◌, first_submission, resubmission, approval, rejection, sealing, withdrawal, MaySign, Moves,
  step-Moves, step_error_unchanged,
}

-- The entries lead from one status to another, edge by edge.
abbrev pub PathOf : WorkflowStatus → List HistoryEntry → WorkflowStatus → Type 0
PathOf s [] t = s ≡ t
PathOf s (e ∷ es) t = (e.from_status ≡ s) × (s ⟶ e.to_status) × PathOf e.to_status es t

PathOf-snoc :
    (s : WorkflowStatus) (es : List HistoryEntry) {t : WorkflowStatus} (e : HistoryEntry)
    → PathOf s es t
    → e.from_status ≡ t
    → t ⟶ e.to_status
    → PathOf s (es ++ e ∷ []) e.to_status
PathOf-snoc s [] e p f x = (f ∙ sym p, subst (λ u. u ⟶ e.to_status) (sym p) x, refl)
PathOf-snoc s (d ∷ es) e p f x = (p.0, p.1, PathOf-snoc d.to_status es e p.2 f x)

-- Some entry leads to the status.
abbrev pub reached : WorkflowStatus → List HistoryEntry → Bool
reached s = any (λ e. eq_status e.to_status s)

reached-snoc :
    (s : WorkflowStatus) (es : List HistoryEntry) (e : HistoryEntry)
    → reached s (es ++ e ∷ []) ≡ (reached s es || eq_status e.to_status s)
reached-snoc s [] e = ground arith
reached-snoc s (d ∷ es) e = ground (arith, reached-snoc s es e)

-- The stages that a status presupposes.
abbrev pub Presupposes : WorkflowStatus → (WorkflowStatus → Bool) → Type 0
Presupposes draft seen = Unit {0}
Presupposes pending_approval seen = seen pending_approval ≡ true
Presupposes rejected seen = (seen pending_approval ≡ true) × (seen rejected ≡ true)
Presupposes approved seen = (seen pending_approval ≡ true) × (seen approved ≡ true)
Presupposes locked seen =
    (seen pending_approval ≡ true) × (seen approved ≡ true) × (seen locked ≡ true)

pub record Trail (w : Workflow) : Type 0 where
  pub path : PathOf draft w.history w.status
  pub signed : All (λ e. MaySign w.workflow_type e.to_status e.actor_role) w.history
  pub owned : All (λ e. (e.workflow_id ≡ w.id) × (e.org_id ≡ w.org_id)) w.history
  pub stages : Presupposes w.status (λ s. reached s w.history)

Presupposes-edge :
    {s t : WorkflowStatus} (seen seen' : WorkflowStatus → Bool)
    → s ⟶ t
    → ((u : WorkflowStatus) → seen' u ≡ (seen u || eq_status t u))
    → Presupposes s seen
    → Presupposes t seen'
Presupposes-edge seen seen' first_submission h p = ground (arith, h pending_approval)
Presupposes-edge seen seen' resubmission h p = ground (arith, h pending_approval)
Presupposes-edge seen seen' approval h p = ground (arith, h pending_approval, h approved)
Presupposes-edge seen seen' rejection h p = ground (arith, h pending_approval, h rejected)
Presupposes-edge seen seen' sealing h p = ground (arith, h pending_approval, h approved, h locked)
Presupposes-edge seen seen' withdrawal h p = tt

module _ {w w' : Workflow} {e : HistoryEntry} (m : Moves w w' e) (t : Trail w) where
  Moves-path : PathOf draft w'.history w'.status
  Moves-path =
      subst₂ (PathOf draft) (sym m.appended) m.to
        (PathOf-snoc draft w.history e t.path m.from (subst (λ s. w.status ⟶ s) (sym m.to) m.edge))

  Moves-signed : All (λ d. MaySign w'.workflow_type d.to_status d.actor_role) w'.history
  Moves-signed =
      subst₂ (λ wt h. All (λ d. MaySign wt d.to_status d.actor_role) h) (sym m.same_type)
        (sym m.appended) (All-append _ w.history (e ∷ []) t.signed (m.signed, tt))

  Moves-owned : All (λ d. (d.workflow_id ≡ w'.id) × (d.org_id ≡ w'.org_id)) w'.history
  Moves-owned =
      subst₃ (λ i o h. All (λ d. (d.workflow_id ≡ i) × (d.org_id ≡ o)) h) (sym m.same_id)
        (sym m.same_org) (sym m.appended)
        (All-append _ w.history (e ∷ []) t.owned ((m.names_workflow, m.names_org), tt))

  Moves-stages : Presupposes w'.status (λ s. reached s w'.history)
  Moves-stages =
      Presupposes-edge (λ s. reached s w.history) (λ s. reached s w'.history) m.edge
        (λ u.
          ap (reached u) m.appended
          ∙ reached-snoc u w.history e
          ∙ ap (λ s. reached u w.history || eq_status s u) m.to)
        t.stages

  Moves-Trail : Trail w'
  Moves-Trail = record {
    path = Moves-path;
    signed = Moves-signed;
    owned = Moves-owned;
    stages = Moves-stages;
  }

pub step-Trail : (now : ℕ) (w : Workflow) (r : Request) → Trail w → Trail (step now w r).0
step-Trail now w r t = elim (Result-cases (step now w r).1) [
  | inl (e, accepted) ↦ Moves-Trail (step-Moves now w r accepted) t
  | inr (x, refused) ↦ subst Trail (sym (step_error_unchanged now w r refused)) t
]

pub run-keeps-Trail : (w : Workflow) (rs : List (ℕ × Request)) → Trail w → Trail (run w rs)
unfolding run
run-keeps-Trail w [] t = t
run-keeps-Trail w ((now, r) ∷ rs) t = run-keeps-Trail (step now w r).0 rs (step-Trail now w r t)

pub new_workflow-Trail :
    (id now : ℕ) (req : CreateWorkflowRequest) → Trail (new_workflow id now req)
unfolding new_workflow
new_workflow-Trail id now req = record { path = refl; signed = tt; owned = tt; stages = tt }

-- A new workflow, after any requests at any times, has a history that leads from draft to its
-- status along edges of the diagram; each entry names the workflow and its organisation and is
-- signed by a role that may take that edge; a locked workflow has been submitted, approved and
-- locked, an approved one submitted and approved, and a rejected one submitted and rejected.
pub run-Trail :
    (id now : ℕ) (req : CreateWorkflowRequest) (rs : List (ℕ × Request))
    → Trail (run (new_workflow id now req) rs)
run-Trail id now req rs =
    run-keeps-Trail (new_workflow id now req) rs (new_workflow-Trail id now req)

locked-step : (now : ℕ) (w : Workflow) (r : Request) → w.status ≡ locked → (step now w r).0 ≡ w
unfolding step
locked-step now w (submitting r) h = ground arith
locked-step now w (approving r) h = ground arith
locked-step now w (locking r) h = ground arith
locked-step now w (rejecting r) h = ground arith
locked-step now w (returning r) h = ground arith

-- A locked workflow is never changed again, by any requests.
pub run-locked : (w : Workflow) (rs : List (ℕ × Request)) → w.status ≡ locked → run w rs ≡ w
unfolding run
run-locked w [] h = refl
run-locked w ((now, r) ∷ rs) h =
    let same = locked-step now w r h in ap (λ v. run v rs) same ∙ run-locked w rs h
