-- ===== src/Engagement/Handler.antt =====
-- services/engagement/internal/handler/handler.go: each handler takes the store to a new store and
-- a response. The UUID parser, what the binding makes of a body, the time and the fresh IDs are
-- arguments.
use obvious.Base.{ℕ, String, Option, none, some, List, length, if◌then◌else◌, ◌==◌, str_eq}
use obvious.Engagement.Lifecycle.{
  Phase, Error, invalid_transition, engagement_not_found, engagement_terminal, Result, ok, err,
  PhaseEvent, Engagement, CreateEngagementRequest, UpdateEngagementRequest, TransitionRequest,
  new_engagement, allowed_next_phases,
}
use obvious.Engagement.Lifecycle
use obvious.Engagement.Store.{EngagementStore}
use obvious.Engagement.Store

-- What `c.ShouldBindJSON` gives: the request, or its error's message.
pub data Body {ℓ} (A : Type ℓ) : Type ℓ where
  bound : A → Body A
  malformed : String → Body A

-- The status, and the JSON body: a code and a message, those of a refused transition, or data.
pub data Response : Type 0 where
  failure : ℕ → String → String → Response
  refused : ℕ → String → String → Phase → List Phase → Response
  engagement_body : ℕ → Engagement → Response
  engagements_body : ℕ → List Engagement → ℕ → Response
  moved_body : ℕ → Engagement → PhaseEvent → Response

-- A value, or the response that was written before an early return.
pub data Checked {ℓ} (A : Type ℓ) : Type ℓ where
  pass : A → Checked A
  stop : Response → Checked A

infixl 5 ◌>>=◌
abbrev pub ◌>>=◌ {ℓ κ} : {A : Type ℓ} {B : Type κ} → Checked A → (A → Checked B) → Checked B
pass a >>= f = f a
stop r >>= f = stop r

abbrev pub message : Error → String
message invalid_transition = "invalid lifecycle transition"
message engagement_not_found = "engagement not found"
message engagement_terminal = "engagement is in a terminal state"

abbrev pub load_error : Error → Response
load_error engagement_not_found = failure 404 "NOT_FOUND" "engagement not found"
load_error e = failure 500 "INTERNAL_ERROR" (message e)

abbrev pub transition_error : Engagement → Error → Response
transition_error e invalid_transition =
    refused 422 "INVALID_TRANSITION" (message invalid_transition) e.phase (allowed_next_phases e)
transition_error e engagement_terminal = failure 422 "TERMINAL_STATE" (message engagement_terminal)
transition_error e x = failure 500 "INTERNAL_ERROR" (message x)

abbrev pub parsed : String → Option ℕ → Checked ℕ
parsed problem none = stop (failure 400 "INVALID_REQUEST" problem)
parsed problem (some id) = pass id

abbrev pub loaded : Result Engagement → Checked Engagement
loaded (ok e) = pass e
loaded (err x) = stop (load_error x)

-- Create, from the bound body on.
unfoldable pub create_bound :
    ℕ → ℕ → EngagementStore → CreateEngagementRequest → EngagementStore × Response
create_bound id now s req =
    if str_eq req.name ""
    then (s, failure 400 "INVALID_REQUEST" "name is required")
    else if req.org_id == 0
    then (s, failure 400 "INVALID_REQUEST" "org_id is required")
    else if req.framework_id == 0
    then (s, failure 400 "INVALID_REQUEST" "framework_id is required")
    else let e = new_engagement id now req in (Store.create s e, engagement_body 201 e)

unfoldable pub create :
    ℕ → ℕ → EngagementStore → Body CreateEngagementRequest → EngagementStore × Response
unfolding create_bound
create id now s (malformed problem) = (s, failure 400 "INVALID_REQUEST" problem)
create id now s (bound req) = create_bound id now s req

-- `if value != nil { field = *value }`
abbrev pub assign {ℓ} : {A : Type ℓ} → Option A → A → A
assign none old = old
assign (some new) old = new

-- A pointer field takes the pointer: `if value != nil { field = value }`.
abbrev pub assign_pointer {ℓ} : {A : Type ℓ} → Option A → Option A → Option A
assign_pointer none old = old
assign_pointer (some new) old = some new

abbrev pub patched : UpdateEngagementRequest → Engagement → Engagement
patched req e = record e {
  name = assign req.name e.name;
  description = assign req.description e.description;
  scope = assign req.scope e.scope;
  lead_auditor_id = assign_pointer req.lead_auditor_id e.lead_auditor_id;
  target_start_date = assign_pointer req.target_start_date e.target_start_date;
  target_end_date = assign_pointer req.target_end_date e.target_end_date;
}

-- The end of Update and Transition: what was stored, or the error.
abbrev pub saved : Response → EngagementStore × Result (Unit {0}) → EngagementStore × Response
saved answer (s, ok _) = (s, answer)
saved answer (s, err x) = (s, failure 500 "INTERNAL_ERROR" (message x))

unfoldable pub update_on :
    EngagementStore → Body UpdateEngagementRequest → Checked Engagement → EngagementStore × Response
update_on s body (stop r) = (s, r)
update_on s (malformed problem) (pass e) = (s, failure 400 "INVALID_REQUEST" problem)
update_on s (bound req) (pass e) =
    saved (engagement_body 200 (patched req e)) (Store.update s (patched req e))

unfoldable pub respond :
    EngagementStore → Engagement × Result PhaseEvent → EngagementStore × Response
respond s (e, ok event) = saved (moved_body 200 e event) (Store.update s e)
respond s (e, err x) = (s, transition_error e x)

unfoldable pub transition_on :
    ℕ
    → ℕ
    → EngagementStore
    → Body TransitionRequest
    → Checked Engagement
    → EngagementStore × Response
unfolding respond
transition_on id now s body (stop r) = (s, r)
transition_on id now s (malformed problem) (pass e) = (s, failure 400 "INVALID_REQUEST" problem)
transition_on id now s (bound req) (pass e) = respond s (Lifecycle.transition id now e req)

module _ (parse_uuid : String → Option ℕ) where
  unfoldable pub parse_org : String → Checked ℕ
  parse_org org =
      if str_eq org ""
      then stop (failure 400 "INVALID_REQUEST" "org_id query param required")
      else parsed "invalid org_id" (parse_uuid org)

  -- parseOrgAndID and the Get of the store.
  unfoldable pub load : EngagementStore → String → String → Checked Engagement
  unfolding parse_org
  load s org raw_id = do
    org_id ← parse_org org
    id ← parsed "invalid id" (parse_uuid raw_id)
    loaded (Store.get s org_id id)

  unfoldable pub get : EngagementStore → String → String → Response
  unfolding load
  get s org id = elim (load s org id) [ stop r ↦ r | pass e ↦ engagement_body 200 e ]

  unfoldable pub list : EngagementStore → String → Response
  unfolding parse_org
  list s org = elim (parse_org org) [
    | stop r ↦ r
    | pass org_id ↦ engagements_body 200 (Store.list s org_id) (length (Store.list s org_id))
  ]

  unfoldable pub update :
      EngagementStore → String → String → Body UpdateEngagementRequest → EngagementStore × Response
  unfolding load update_on
  update s org id body = update_on s body (load s org id)

  unfoldable pub transition :
      ℕ
      → ℕ
      → EngagementStore
      → String
      → String
      → Body TransitionRequest
      → EngagementStore × Response
  unfolding load transition_on
  transition event_id now s org id body = transition_on event_id now s body (load s org id)
