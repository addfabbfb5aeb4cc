-- ===== src/Approval/Handler/Serving.antt =====
-- The approval handlers of services/approval/internal/handler/handler.go over the store: what a
-- call answers and changes, and what holds after any sequence of calls.
use mathlib.Core.Path.{subst}
use obvious.Base.{
  ℕ, String, ◌≡◌, refl, sym, ap, Option, some, List, [], ◌∷◌, if◌then◌else◌, ◌==◌, inl, inr, arith,
  str_eq, ◌||◌, true, false, Bool,
}
use obvious.Base.Table
use obvious.Approval.Types.{
  Result, ok, err, Result-cases, HistoryEntry, Workflow, CreateWorkflowRequest, SubmitRequest,
  ApproveRequest, RejectRequest, LockRequest,
}
use obvious.Approval.Workflow.{
  Request, submitting, approving, locking, rejecting, returning, new_workflow, step,
}
use obvious.Approval.Diagram.{step-Moves, step_error_unchanged}
use obvious.Approval.History.{Trail, new_workflow-Trail, step-Trail}
use obvious.Approval.Store.{Store, Keeps, create-Keeps, update-Keeps, get-Keeps, update_read}
use obvious.Approval.Store
use obvious.Approval.Handler.{
  Body, decoded, malformed, Response, moved_body, Checked, pass, stop, parsed, loaded,
  require_org_id, ◌>>=◌, transition_error, load_workflow, transition, respond, report,
  transition_on, is_empty_type, save_and_respond, report, transition_on, is_empty_type, create,
  create_decoded, submit, approve, reject, lock, return_to_draft,
}

>>=-eq-pass {ℓ κ} :
    {A : Type ℓ} {B : Type κ} (m : Checked A) (f : A → Checked B) {b : B}
    → (m >>= f) ≡ pass b
    → (a : A) × (m ≡ pass a) × (f a ≡ pass b)
>>=-eq-pass (pass a) f h = (a, refl, h)
>>=-eq-pass (stop r) f h = cc

loaded-eq-pass : (r : Result Workflow) {w : Workflow} → loaded r ≡ pass w → r ≡ ok w
loaded-eq-pass (ok w) h = ground arith
loaded-eq-pass (err e) h = ground arith

-- A workflow that was read lies in the organisation of the query, under the ID of the path.
loaded-get :
    (parse : String → Option ℕ) (s : Store) (org id : String) {w : Workflow}
    → load_workflow parse s org id ≡ pass w
    → (o : ℕ) × (i : ℕ) × (require_org_id parse org ≡ pass o) × (Store.get s o i ≡ ok w)
unfolding load_workflow
loaded-get parse s org id h =
    let (o, of_org, rest) = >>=-eq-pass (require_org_id parse org) _ h in
    let (i, of_id, found) = >>=-eq-pass (parsed "invalid workflow id" (parse id)) _ rest in
    (o, i, of_org, loaded-eq-pass (Store.get s o i) found)

-- What a transition does to the store and answers: an accepted request replaces the workflow that
-- was read and answers 200 with it and the new entry; a refused one changes nothing and answers
-- the status of its error.
abbrev pub Answers : Store → Workflow × Result HistoryEntry → Store × Response → Type 0
Answers s (w', ok entry) (s', answer) =
    (answer ≡ moved_body 200 w' entry)
    × ((j : ℕ) → Table.get s'.entries j ≡ (if w'.id == j then some w' else Table.get s.entries j))
Answers s (w', err e) (s', answer) = (s' ≡ s) × (answer ≡ transition_error e)

report-store :
    (w : Workflow) (entry : HistoryEntry) (s : Store) (r : Result (Unit {0}))
    → (report w entry (s, r)).0 ≡ s
unfolding report
report-store w entry s (ok _) = refl
report-store w entry s (err _) = refl

if-Keeps :
    {P : Workflow → Type 0} (b : Bool) (x y : Store × Response)
    → Keeps P x.0
    → Keeps P y.0
    → Keeps P (if b then x else y).0
if-Keeps true x y kx ky = kx
if-Keeps false x y kx ky = ky

created-Keeps :
    (id now : ℕ) (s : Store) (req : CreateWorkflowRequest)
    → Keeps Trail s
    → Keeps Trail (create_decoded id now s req).0
unfolding create_decoded
created-Keeps id now s req k =
    let w = new_workflow id now req in
    if-Keeps (req.org_id == 0) _ _ k (
      if-Keeps (is_empty_type req.workflow_type) _ _ k (
        if-Keeps (str_eq req.resource_type "" || req.resource_id == 0) _ _ k
          (create-Keeps s k w (new_workflow-Trail id now req))))

module _ {P : Workflow → Type 0} (s : Store) (k : Keeps P s) (o i now : ℕ) (w : Workflow)
    (found : Store.get s o i ≡ ok w) where
  saved :
      (w' : Workflow) (entry : HistoryEntry)
      → w'.id ≡ w.id
      → Answers s (w', ok entry) (save_and_respond s w' entry)
  unfolding save_and_respond
  saved w' entry same =
      let (wrote, reads) = update_read s k o i w w' found same in
      (ground arith, λ j. ground (arith, reads j))

  respond-Answers :
      (w' : Workflow) (r : Result HistoryEntry)
      → w'.id ≡ w.id
      → Answers s (w', r) (respond s (w', r))
  unfolding respond
  respond-Answers w' (ok entry) same = saved w' entry same
  respond-Answers w' (err x) same = (refl, refl)

  respond-Keeps : (w' : Workflow) (r : Result HistoryEntry) → P w' → Keeps P (respond s (w', r)).0
  unfolding respond save_and_respond
  respond-Keeps w' (ok entry) p =
      subst (Keeps P) (sym (report-store w' entry (Store.update s w').0 (Store.update s w').1))
        (update-Keeps s k w' p)
  respond-Keeps w' (err x) p = k

step-id : (now : ℕ) (w : Workflow) (r : Request) → (step now w r).0.id ≡ w.id
step-id now w r = elim (Result-cases (step now w r).1) [
  | inl (e, accepted) ↦ (step-Moves now w r accepted).same_id
  | inr (x, refused) ↦ ap (λ v. v.id) (step_error_unchanged now w r refused)
]

-- For a workflow that was read from a keyed store, whatever the time and the decoded request: an
-- accepted transition answers 200 with the moved workflow and its entry and stores it under its
-- ID, all else staying as it was; a refused one changes nothing and answers the error's status.
pub transition-Answers :
    {A : Type 0} {P : Workflow → Type 0} (parse : String → Option ℕ) (wrap : A → Request) (now : ℕ)
    (s : Store) (org id : String) (req : A) (w : Workflow)
    → Keeps P s
    → load_workflow parse s org id ≡ pass w
    → Answers s (step now w (wrap req)) (transition parse wrap now s org id (decoded req))
unfolding transition
transition-Answers parse wrap now s org id req w k found =
    let (o, i, _, read) = loaded-get parse s org id found in
    subst (λ c. Answers s (step now w (wrap req)) (transition_on wrap now s (decoded req) c))
      (sym found)
      (respond-Answers s k o i now w read (step now w (wrap req)).0 (step now w (wrap req)).1
        (step-id now w (wrap req)))

module _ {A : Type 0} (parse : String → Option ℕ) (wrap : A → Request) (now : ℕ) (s : Store)
    (org id : String) where
  transition_on-Keeps :
      (body : Body A) (c : Checked Workflow)
      → load_workflow parse s org id ≡ c
      → Keeps Trail s
      → Keeps Trail (transition_on wrap now s body c).0
  unfolding transition_on
  transition_on-Keeps body (stop r) loads k = k
  transition_on-Keeps (malformed problem) (pass w) loads k = k
  transition_on-Keeps (decoded req) (pass w) loads k =
      let (o, i, _, read) = loaded-get parse s org id loads in
      respond-Keeps s k o i now w read (step now w (wrap req)).0 (step now w (wrap req)).1
        (step-Trail now w (wrap req) (get-Keeps s k w o i read).2)

  transition-Keeps :
      (body : Body A) → Keeps Trail s → Keeps Trail (transition parse wrap now s org id body).0
  unfolding transition
  transition-Keeps body k = transition_on-Keeps body (load_workflow parse s org id) refl k

create-Keeps-Trail :
    (id now : ℕ) (s : Store) (body : Body CreateWorkflowRequest)
    → Keeps Trail s
    → Keeps Trail (create id now s body).0
unfolding create
create-Keeps-Trail id now s (malformed problem) k = k
create-Keeps-Trail id now s (decoded req) k = created-Keeps id now s req k

-- The calls that a client may make; those that only read leave the store alone.
pub data Call : Type 0 where
  create_call : Body CreateWorkflowRequest → Call
  submit_call return_call : String → String → Body SubmitRequest → Call
  approve_call : String → String → Body ApproveRequest → Call
  reject_call : String → String → Body RejectRequest → Call
  lock_call : String → String → Body LockRequest → Call

-- `id` is the fresh ID that Create would use, `now` the time of the call.
unfoldable pub serve : (String → Option ℕ) → ℕ → ℕ → Store → Call → Store × Response
serve parse id now s (create_call body) = create id now s body
serve parse id now s (submit_call org w body) = submit parse now s org w body
serve parse id now s (return_call org w body) = return_to_draft parse now s org w body
serve parse id now s (approve_call org w body) = approve parse now s org w body
serve parse id now s (reject_call org w body) = reject parse now s org w body
serve parse id now s (lock_call org w body) = lock parse now s org w body

serve-Keeps :
    (parse : String → Option ℕ) (id now : ℕ) (s : Store) (c : Call)
    → Keeps Trail s
    → Keeps Trail (serve parse id now s c).0
unfolding serve submit approve reject lock return_to_draft
serve-Keeps parse id now s (create_call body) k = create-Keeps-Trail id now s body k
serve-Keeps parse id now s (submit_call org w body) k =
    transition-Keeps parse submitting now s org w body k
serve-Keeps parse id now s (return_call org w body) k =
    transition-Keeps parse returning now s org w body k
serve-Keeps parse id now s (approve_call org w body) k =
    transition-Keeps parse approving now s org w body k
serve-Keeps parse id now s (reject_call org w body) k =
    transition-Keeps parse rejecting now s org w body k
serve-Keeps parse id now s (lock_call org w body) k =
    transition-Keeps parse locking now s org w body k

unfoldable pub serve_all : (String → Option ℕ) → Store → List (ℕ × ℕ × Call) → Store
unfolding serve
serve_all parse s [] = s
serve_all parse s ((id, now, c) ∷ rest) = serve_all parse (serve parse id now s c).0 rest

serve_all-Keeps :
    (parse : String → Option ℕ) (s : Store) (cs : List (ℕ × ℕ × Call))
    → Keeps Trail s
    → Keeps Trail (serve_all parse s cs)
unfolding serve_all
serve_all-Keeps parse s [] k = k
serve_all-Keeps parse s ((id, now, c) ∷ rest) k =
    serve_all-Keeps parse (serve parse id now s c).0 rest (serve-Keeps parse id now s c k)

-- Whatever calls are served from the empty store, valid or not: every stored workflow lies under
-- its own ID, and its history is a signed path from draft to its status.
pub serve_all-Trail :
    (parse : String → Option ℕ) (cs : List (ℕ × ℕ × Call))
    → Keeps Trail (serve_all parse Store.new cs)
unfolding Store.new Table.get
serve_all-Trail parse cs = serve_all-Keeps parse Store.new cs (record { at = λ j w found. cc })
