-- ===== src/Approval/Tests.antt =====
-- The approval theorems at a report release that is rejected once, approved and locked.
use obvious.Base.{
  ℕ, String, ◌≡◌, refl, none, some, List, [], ◌∷◌, str_eq, ◌↔◌, true, arith, if◌then◌else◌, Option,
}
use obvious.Base.Table
use obvious.Approval.Types.{
  report_release, draft, pending_approval, engagement_lead, chief_audit_executive, Workflow,
  HistoryEntry, CreateWorkflowRequest, SubmitRequest, ApproveRequest, RejectRequest, LockRequest,
}
use obvious.Approval.Workflow.{
  Request, submitting, approving, locking, rejecting, new_workflow, step, run,
}
use obvious.Approval.Diagram.{
  Permitted, is_ok, step_accepts_iff, Moves, step-Moves, step_error_unchanged,
}
use obvious.Approval.History.{Trail, run-Trail, run-locked}
use obvious.Approval.Release.{Releases, SomeRequest, release_needs_password}
use obvious.Approval.Store.{Store, Keeps, get-create, update_read}
use obvious.Approval.Store
use obvious.Approval.Handler.{decoded, transition, load_workflow}
use obvious.Approval.Handler.Serving.{
  Answers, create_call, submit_call, serve_all, serve_all-Trail, transition-Answers,
}

abbrev request : CreateWorkflowRequest
request = record {
  org_id = 3;
  workflow_type = report_release;
  resource_type = "report";
  resource_id = 12;
  engagement_id = some 5;
  metadata = none;
}

abbrev submission : SubmitRequest
submission = record {
  actor_id = 21;
  actor_email = "lead@example.org";
  actor_role = engagement_lead;
  comment = "ready";
}

abbrev decision : ApproveRequest
decision = record {
  actor_id = 22;
  actor_email = "cae@example.org";
  actor_role = chief_audit_executive;
  comment = "fine";
  password_confirm = "";
}

abbrev refusal : RejectRequest
refusal = record {
  actor_id = 22;
  actor_email = "cae@example.org";
  actor_role = chief_audit_executive;
  rejection_reason = "section 2 is missing";
}

abbrev release : LockRequest
release = record {
  actor_id = 22;
  actor_email = "cae@example.org";
  actor_role = chief_audit_executive;
  password_confirm = "secret";
  comment = "";
}

abbrev life : List (ℕ × Request)
life =
    (2, submitting submission)
    ∷ (3, rejecting refusal)
    ∷ (4, submitting submission)
    ∷ (5, approving decision)
    ∷ (6, locking release)
    ∷ []

run-Trail_example : Trail (run (new_workflow 7 1 request) life)
run-Trail_example = run-Trail 7 1 request life

run-locked_example :
    run (run (new_workflow 7 1 request) life) life ≡ run (new_workflow 7 1 request) life
unfolding run new_workflow
run-locked_example = run-locked (run (new_workflow 7 1 request) life) life refl

step_accepts_iff_example :
    (is_ok (step 2 (new_workflow 7 1 request) (submitting submission)).1 ≡ true)
    ↔ Permitted (new_workflow 7 1 request) (submitting submission)
step_accepts_iff_example = step_accepts_iff 2 (new_workflow 7 1 request) (submitting submission)

abbrev first_entry : HistoryEntry
first_entry = record {
  id = 0;
  workflow_id = 7;
  org_id = 3;
  actor_id = some 21;
  actor_email = "lead@example.org";
  actor_role = engagement_lead;
  action = "submitted";
  from_status = draft;
  to_status = pending_approval;
  comment = "ready";
  occurred_at = 2;
}

step-Moves_example :
    Moves
      (new_workflow 7 1 request)
      (step 2 (new_workflow 7 1 request) (submitting submission)).0
      first_entry
unfolding step new_workflow
step-Moves_example = step-Moves 2 (new_workflow 7 1 request) (submitting submission) refl

-- An approval of a draft is refused.
step_error_unchanged_example :
    (step 2 (new_workflow 7 1 request) (approving decision)).0 ≡ new_workflow 7 1 request
unfolding step new_workflow
step_error_unchanged_example =
    step_error_unchanged 2 (new_workflow 7 1 request) (approving decision) refl

release_needs_password_example : SomeRequest Releases life
unfolding run new_workflow
release_needs_password_example = release_needs_password 7 1 request life refl refl

abbrev one : Store
one = record { entries = (7, new_workflow 7 1 request) ∷ [] }

one-Keeps : Keeps (λ w. Unit {0}) one
unfolding Table.get new_workflow
one-Keeps = record { at = λ k w found. (ground arith, tt) }

-- The workflow of `one`, submitted.
abbrev sent : Workflow
sent = record (new_workflow 7 1 request) { status = pending_approval }

-- A parser that knows two IDs.
abbrev parse_uuid : String → Option ℕ
parse_uuid s = if str_eq s "org" then some 3 else if str_eq s "wf" then some 7 else none

transition-Answers_example :
    Answers one
      (step 2 (new_workflow 7 1 request) (submitting submission))
      (transition parse_uuid submitting 2 one "org" "wf" (decoded submission))
unfolding load_workflow Table.get new_workflow Store.get
transition-Answers_example =
    transition-Answers parse_uuid submitting 2 one "org" "wf" submission (new_workflow 7 1 request)
      one-Keeps refl

serve_all-Trail_example : Keeps Trail (
    serve_all parse_uuid Store.new (
      (7, 1, create_call (decoded request))
      ∷ (8, 2, submit_call "org" "wf" (decoded submission))
      ∷ []))
serve_all-Trail_example = serve_all-Trail parse_uuid (
    (7, 1, create_call (decoded request))
    ∷ (8, 2, submit_call "org" "wf" (decoded submission))
    ∷ [])
